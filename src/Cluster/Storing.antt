-- ===== src/Cluster/Storing.antt =====
-- The database of the processes, over Redis.
use test_go_server.Prelude.{
  ℕ, ◌+◌, ◌<◌, ◌^◌, ◌≡◌, sym, subst, inl, inr, List, Option, none, some, lookup, arith,
}
use test_go_server.Protocol.{Bytes, Envelope}
use test_go_server.Gate.State.{External}
use test_go_server.Redis.Dao.{Client}
use test_go_server.Service.NetServer.{GateConn, note_session}
use test_go_server.Service.Login.{resolve_role_id}
use test_go_server.Service.Dispatch.{Coder, Process}
use test_go_server.Service.Dispatch.Outcome.{account_of}
use test_go_server.Service.Dispatch.Outcome.Granting.{LogsIn}
use test_go_server.Service.Dispatch.Outcome.Storing.{
  dispatch_envelope-LogsIn, dispatch_envelope-store,
}
use test_go_server.Game.Player.{PlayerProfile, Marshal}
use test_go_server.Game.Server.Saving.{work_keeps}
use test_go_server.PlayerDb.{Json, redis_login, redis_store, save_profile}
use test_go_server.PlayerDb.Accounts.{Sets}
use test_go_server.PlayerDb.Unique.{Counts, Unique}
use test_go_server.PlayerDb.Roles.{Kept, login_keeps, save_keeps}
use test_go_server.Cluster.{
  Cluster, Parts, Event, at_gate, linked, arrived, unlinked, delivered, at_game, forwarded, receive,
  step,
}
use test_go_server.Cluster.Safety.{Login, now, later}

-- The service and the game use one Redis.
abbrev pub redis_parts : {D : Type 0} → External → Coder → Marshal → Client D → Json → Parts D
redis_parts x coder marshal client json = record {
  external = x;
  coder = coder;
  login = redis_login client json;
  store = redis_store client json;
  marshal = marshal;
}

-- The account that a login names.
unfoldable pub account :
    {D : Type 0} {x : Parts D} {os : List Event} {c : Cluster D} {id player : ℕ}
    → Login x os c id player
    → Bytes
account (now gate conn env e l) = account_of l.request
account (later l) = account l

module _ {D : Type 0} (x : External) (coder : Coder) (marshal : Marshal) (client : Client D)
    (json : Json) where
  arrived_keeps :
      (R : D → Type 0) (gate : ℕ) (env : Envelope) (o : Option GateConn) (p : Process D)
      → R p.store
      → ((a : Bytes) → R (resolve_role_id (redis_login client json) a p.store).0)
      → R (receive (redis_parts x coder marshal client json) o gate env p).store
  unfolding receive
  arrived_keeps R gate env none p same login = same
  arrived_keeps R gate env (some conn) p same login =
      let q = record p { net = note_session gate env p.net } in
      elim (dispatch_envelope-store coder (redis_login client json) env q) [
        | inl e ↦ subst R (sym e) same
        | inr (a, e) ↦ subst R (sym e) (login a)
      ]

  -- What logins and savings of profiles keep, every step keeps.
  pub step_keeps :
      (R : D → Type 0) (o : Event) (c : Cluster D)
      → R c.service.store
      → ((a : Bytes) → R (resolve_role_id (redis_login client json) a c.service.store).0)
      → ((f : PlayerProfile) (d : D) → R d → R (save_profile client json f d).0)
      → R (step (redis_parts x coder marshal client json) o c).service.store
  unfolding step
  step_keeps R (at_gate w e) c same login saved = same
  step_keeps R linked c same login saved = same
  step_keeps R (arrived gate env) c same login saved =
      arrived_keeps R gate env (lookup gate c.service.net.gate_conns) c.service same login
  step_keeps R (unlinked gate) c same login saved = same
  step_keeps R (delivered w gate i) c same login saved = same
  step_keeps R (at_game o) c same login saved =
      work_keeps (redis_store client json) marshal R saved o
        (record (c.game) { db = c.service.store }) same
  step_keeps R (forwarded i) c same login saved = same

  pub received-LogsIn :
      (gate : ℕ) (env : Envelope) (conn : GateConn) (player : ℕ) (o : Option GateConn)
      (p : Process D)
      → o ≡ some conn
      → (l : LogsIn coder (redis_login client json) env p.store player)
      → (receive (redis_parts x coder marshal client json) o gate env p).store
        ≡ (resolve_role_id (redis_login client json) (account_of l.request) p.store).0
  unfolding receive
  received-LogsIn gate env conn player none p e l = absurd (ground (arith, e))
  received-LogsIn gate env conn player (some c) p e l =
      dispatch_envelope-LogsIn coder (redis_login client json) env player
        (record p { net = note_session gate env p.net })
        (record {
          request = l.request;
          old = l.old;
          number = l.number;
          decoded = l.decoded;
          test = l.test;
          resolved = l.resolved;
        })

module _ {D : Type 0} (x : External) (coder : Coder) (marshal : Marshal) (client : Client D)
    (json : Json) (sets : Sets client) (counting : Counts client) where
  pub step-Unique :
      (n : ℕ) (o : Event) (c : Cluster D)
      → n + 1 < 2 ^ 63
      → Unique client n c.service.store
      → Kept client n (step (redis_parts x coder marshal client json) o c).service.store
  step-Unique n o c room v =
      step_keeps x coder marshal client json (Kept client n) o c
        (record { at = n; low = omega arith; high = omega arith; unique = v })
        (λ a. login_keeps client json sets counting n a c.service.store room v)
        (λ f d k. save_keeps client json sets counting n f d k)
