-- ===== src/Cluster.antt =====
-- A gate process, a service process and a game process over one database, and the steps between
-- them: internal/gate, internal/service/netserver.go and internal/game/server.go.
pub mod Safety
pub mod Authentication
pub mod Storing
pub mod Ownership
pub mod Accounts
use test_go_server.Prelude.{ℕ, List, [], ◌∷◌, ◌++◌, Option, none, some, lookup, get_elem?}
use test_go_server.Protocol.{Envelope}
use test_go_server.Gate.State.{Gate, External, World}
use test_go_server.Gate.Login.{on_service_envelope}
use test_go_server.Gate.System
use test_go_server.Gate.System.{from_service, new_gate}
use test_go_server.Service.NetServer.{
  NetServer, GateConn, accept, note_session, gate_gone, new_net_server,
}
use test_go_server.Service.Login.{LoginService}
use test_go_server.Service.Modules.{service_registry}
use test_go_server.Service.Dispatch.{Coder, Process, dispatch_envelope, forward_to_gate}
use test_go_server.Game.Player.{Marshal}
use test_go_server.Game.Manager.{Store, PlayerManager, new_player_manager}
use test_go_server.Game.Server.{Work, work}

-- `answers` is what the game process has written back.  The service and the game use one database,
-- which is that of the service here.
pub record Cluster (D : Type 0) : Type 0 where
  pub gate : Gate
  pub service : Process D
  pub game : PlayerManager D
  pub answers : List Envelope

-- What the three processes call and do not implement, and the interfaces of the database.
pub record Parts (D : Type 0) : Type 0 where
  pub external : External
  pub coder : Coder
  pub login : LoginService D
  pub store : Store D
  pub marshal : Marshal

-- What can happen: something at the gate but an envelope of the service; a connection of the gate to
-- the service comes up, brings any envelope, or is gone; the gate reads an envelope that was written
-- on such a connection; the game process works; the service forwards an answer of the game.
pub data Event : Type 0 where
  at_gate : World → System.Event → Event
  linked : Event
  arrived : ℕ → Envelope → Event
  unlinked : ℕ → Event
  delivered : World → ℕ → ℕ → Event
  at_game : Work → Event
  forwarded : ℕ → Event

-- The envelopes of the service come by `delivered`.
unfoldable pub gate_turn : External → World → System.Event → Gate → Gate
gate_turn x w (from_service env) g = g
gate_turn x w e g = System.step x w e g

said : Option Envelope → List Envelope → List Envelope
said none answers = answers
said (some env) answers = answers ++ env ∷ []

module _ {D : Type 0} (x : Parts D) where
  -- A round of NetServer.handleGateConn.
  pub receive : Option GateConn → ℕ → Envelope → Process D → Process D
  receive none gate env p = p
  receive (some c) gate env p =
      dispatch_envelope x.coder x.login service_registry env
        (record p { net = note_session gate env p.net })

  deliver : World → Option Envelope → Gate → Gate
  deliver w none g = g
  deliver w (some env) g = on_service_envelope x.external w env g

  written : Option GateConn → ℕ → Option Envelope
  written none i = none
  written (some c) i = get_elem? c.written i

  forward : Option Envelope → NetServer → NetServer
  forward none n = n
  forward (some env) n = (forward_to_gate env n).0

  unfoldable pub step : Event → Cluster D → Cluster D
  unfolding gate_turn receive deliver written forward said
  step (at_gate w e) c = record c { gate = gate_turn x.external w e c.gate }
  step linked c = record c { service = record (c.service) { net = accept c.service.net } }
  step (arrived gate env) c = record c {
    service = receive (lookup gate c.service.net.gate_conns) gate env c.service;
  }
  step (unlinked gate) c = record c {
    service = record (c.service) { net = gate_gone gate c.service.net };
  }
  step (delivered w gate i) c = record c {
    gate = deliver w (written (lookup gate c.service.net.gate_conns) i) c.gate;
  }
  step (at_game o) c =
      let r = work x.store x.marshal o (record (c.game) { db = c.service.store }) in
      record c {
        game = r.0;
        answers = said r.1 c.answers;
        service = record (c.service) { store = r.0.db };
      }
  step (forwarded i) c = record c {
    service = record (c.service) { net = forward (get_elem? c.answers i) c.service.net };
  }

  unfoldable pub run : List Event → Cluster D → Cluster D
  run [] c = c
  run (o ∷ os) c = run os (step o c)

-- The processes at their start, the routers of the service and the database as they may be.
unfoldable pub start : {D : Type 0} → Process D → Cluster D
unfolding new_net_server new_player_manager
start p = record {
  gate = new_gate;
  service = record p { net = new_net_server };
  game = new_player_manager p.store;
  answers = [];
}
