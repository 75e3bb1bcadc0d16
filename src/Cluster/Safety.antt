-- ===== src/Cluster/Safety.antt =====
-- What the sessions of the gate, the answers on their way and the game have to do with the logins.
use test_go_server.Prelude.{
  ℕ, ◌≡◌, refl, ap, sym, subst, ◌∙◌, inl, inr, List, [], ◌∷◌, Option, none, some, lookup, get_elem?,
  arith, ◌<◌, ◌^◌, Option-cases,
}
use test_go_server.Protocol.{Envelope}
use test_go_server.Gate.State.{Gate, World}
use test_go_server.Gate.System
use test_go_server.Gate.System.{from_service, new_gate}
use test_go_server.Gate.Players.Defs.{Players}
use test_go_server.Gate.Players.Answer.{on_service_envelope-Players}
use test_go_server.Gate.Players.System.{step-Players}
use test_go_server.Service.NetServer.{GateConn, NetServer, note_session}
use test_go_server.Service.NetServer.Granting.{
  Granted, accept-Granted, gate_gone-Granted, note_session-Granted, reply_to_gate-Granted,
  get_elem?-snoc,
}
use test_go_server.Service.Dispatch.{Process, forward_to_gate}
use test_go_server.Service.Dispatch.Outcome.Granting.{LogsIn, dispatch_envelope-Granted}
use test_go_server.Game.Player.Replying.{Said}
use test_go_server.Game.Manager.Speaking.{AllSpeak}
use test_go_server.Game.Server.{work}
use test_go_server.Game.Server.Speaking.{work-Speaks}
use test_go_server.Cluster.{
  Cluster, Parts, Event, at_gate, linked, arrived, unlinked, delivered, at_game, forwarded,
  gate_turn, said, receive, deliver, written, forward, step, run,
}

-- The service handles a login request that names the session, and whose account has the player or
-- gets it.
pub data Login {D : Type 0} (x : Parts D) : List Event → Cluster D → ℕ → ℕ → Type 0 where
  now :
      {os : List Event} {c : Cluster D} {player : ℕ} (gate : ℕ) (conn : GateConn) (env : Envelope)
      → lookup gate c.service.net.gate_conns ≡ some conn
      → LogsIn x.coder x.login env c.service.store player
      → Login x (arrived gate env ∷ os) c env.session_id player
  later :
      {o : Event} {os : List Event} {c : Cluster D} {id player : ℕ}
      → Login x os (step x o c) id player
      → Login x (o ∷ os) c id player

-- The players of the sessions and of the answers on their way are granted by K, and what the game
-- has written is no answer to a login.
pub record Safe {D : Type 0} (x : Parts D) (K : ℕ → ℕ → Type 0) (c : Cluster D) : Type 0 where
  pub players : Players K c.gate
  pub grants : Granted x.coder.marshal_login_rsp K c.service.net
  pub speaks : AllSpeak c.game.players
  pub answered : (i : ℕ) (env : Envelope) → get_elem? c.answers i ≡ some env → Said env

-- What is relied on: an int64 in the answer to a login is read back.
pub record Reads {D : Type 0} (x : Parts D) : Type 0 where
  pub back :
      (player : ℕ)
      → player < 2 ^ 64
      → x.external.unmarshal_login_rsp (x.coder.marshal_login_rsp player) ≡ some player

module _ {D : Type 0} (x : Parts D) (law : Reads x) {K : ℕ → ℕ → Type 0}
    (fits : (id player : ℕ) → K id player → player < 2 ^ 64) where
  turn-Players :
      (w : World) (e : System.Event) (g : Gate)
      → Players K g
      → Players K (gate_turn x.external w e g)
  unfolding gate_turn
  turn-Players w (from_service env) g v = v
  turn-Players w e g v =
      step-Players x.external w e g (λ env player same. absurd (ground (arith, same))) v

  deliver-Players :
      (w : World) (gate i : ℕ) (o : Option GateConn) (n : NetServer) (g : Gate)
      → lookup gate n.gate_conns ≡ o
      → Granted x.coder.marshal_login_rsp K n
      → Players K g
      → Players K (deliver x w (written x o i) g)
  unfolding written deliver
  deliver-Players w gate i none n g at grants v = v
  deliver-Players w gate i (some c) n g at grants v = elim (Option-cases (get_elem? c.written i)) [
    | inl e ↦ rw (e, deliver) v
    | inr (env, e) ↦
        rw (e, deliver)
          (on_service_envelope-Players x.external w env g
            (λ player msg read.
              let (p, payload, has) = grants.granted gate i c env at e msg in
              let reads : some player ≡ some p =
                sym read ∙ ap x.external.unmarshal_login_rsp payload ∙ law.back p (fits _ p has) in
              let same : p ≡ player = ground (arith, reads) in subst (K env.session_id) same has)
            v)
  ]

  receive-Granted :
      (gate : ℕ) (env : Envelope) (o : Option GateConn) (p : Process D)
      → ((conn : GateConn) (player : ℕ)
          → o ≡ some conn
          → LogsIn x.coder x.login env p.store player
          → K env.session_id player)
      → Granted x.coder.marshal_login_rsp K p.net
      → Granted x.coder.marshal_login_rsp K (receive x o gate env p).net
  unfolding receive
  receive-Granted gate env none p grant v = v
  receive-Granted gate env (some c) p grant v =
      dispatch_envelope-Granted x.coder x.login env (record p { net = note_session gate env p.net })
        (λ player l. grant c player refl l) (note_session-Granted gate env p.net v)

  forward-Granted :
      (o : Option Envelope) (n : NetServer)
      → ((env : Envelope) → o ≡ some env → Said env)
      → Granted x.coder.marshal_login_rsp K n
      → Granted x.coder.marshal_login_rsp K (forward x o n)
  unfolding forward forward_to_gate
  forward-Granted none n said v = v
  forward-Granted (some env) n said v =
      let number = said env refl in
      reply_to_gate-Granted env.session_id env.msg_id env.payload n
        (λ e. absurd (ground (arith, e, number))) v

  said-Said :
      (o : Option Envelope) (answers : List Envelope) (i : ℕ) (env : Envelope)
      → ((e : Envelope) → o ≡ some e → Said e)
      → ((j : ℕ) (e : Envelope) → get_elem? answers j ≡ some e → Said e)
      → get_elem? (said o answers) i ≡ some env
      → Said env
  unfolding said
  said-Said none answers i env new old e = old i env e
  said-Said (some y) answers i env new old e = elim (get_elem?-snoc answers y env i e) [
    | inl there ↦ old i env there
    | inr here ↦ subst Said here (new y refl)
  ]

  step-Safe :
      (o : Event) (os : List Event) (c : Cluster D)
      → ((id player : ℕ) → Login x (o ∷ os) c id player → K id player)
      → Safe x K c
      → Safe x K (step x o c)
  unfolding step
  step-Safe (at_gate w e) os c grant v = record {
    players = turn-Players w e c.gate v.players;
    grants = v.grants;
    speaks = v.speaks;
    answered = v.answered;
  }
  step-Safe linked os c grant v = record {
    players = v.players;
    grants = accept-Granted c.service.net v.grants;
    speaks = v.speaks;
    answered = v.answered;
  }
  step-Safe (arrived gate env) os c grant v = record {
    players = v.players;
    grants =
        receive-Granted gate env (lookup gate c.service.net.gate_conns) c.service
          (λ conn player e l. grant env.session_id player (now gate conn env e l)) v.grants;
    speaks = v.speaks;
    answered = v.answered;
  }
  step-Safe (unlinked gate) os c grant v = record {
    players = v.players;
    grants = gate_gone-Granted gate c.service.net v.grants;
    speaks = v.speaks;
    answered = v.answered;
  }
  step-Safe (delivered w gate i) os c grant v = record {
    players =
        deliver-Players w gate i (lookup gate c.service.net.gate_conns) c.service.net c.gate refl
          v.grants v.players;
    grants = v.grants;
    speaks = v.speaks;
    answered = v.answered;
  }
  step-Safe (at_game o) os c grant v =
      let m = record (c.game) { db = c.service.store } in
      let r = work-Speaks x.store x.marshal o m v.speaks in
      record {
        players = v.players;
        grants = v.grants;
        speaks = r.players;
        answered = λ i env e.
            said-Said (work x.store x.marshal o m).1 c.answers i env r.answer v.answered e;
      }
  step-Safe (forwarded i) os c grant v = record {
    players = v.players;
    grants =
        forward-Granted (get_elem? c.answers i) c.service.net (λ env e. v.answered i env e)
          v.grants;
    speaks = v.speaks;
    answered = v.answered;
  }

  pub run-Safe :
      (os : List Event) (c : Cluster D)
      → ((id player : ℕ) → Login x os c id player → K id player)
      → Safe x K c
      → Safe x K (run x os c)
  unfolding run
  run-Safe [] c grant v = v
  run-Safe (o ∷ os) c grant v =
      run-Safe os (step x o c) (λ id player l. grant id player (later l)) (step-Safe o os c grant v)
