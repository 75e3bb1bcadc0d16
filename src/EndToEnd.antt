-- ===== src/EndToEnd.antt =====
-- A login through the processes: the service (internal/service) runs it and answers, and the gate
-- (internal/gate) takes the answer.
use test_go_server.Prelude.{
  ℕ, ◌<◌, ◌^◌, ◌≡◌, ◌≢◌, ap, ◌∙◌, [], ◌∷◌, ◌++◌, some, Bool, true, lookup, length,
}
use test_go_server.Protocol.{Bytes, Envelope}
use test_go_server.Gate.State.{Session, Gate, External, World}
use test_go_server.Gate.Conn.{send_ch_cap}
use test_go_server.Gate.Login.{on_service_envelope}
use test_go_server.Gate.Login.Answer.{LoggedIn, answer, on_service_envelope-LoggedIn}
use test_go_server.Gate.Invariant.Defs.{Inv}
use test_go_server.Service.NetServer.{GateConn}
use test_go_server.Service.Login.{AccountStore, LoginService, resolve_role_id}
use test_go_server.Service.Login.Stable.{Remembers, resolve_role_id-load}
use test_go_server.Service.Modules.{service_registry}
use test_go_server.Service.Dispatch.{Coder, LoginReq, Process, dispatch_envelope}
use test_go_server.Service.Dispatch.Outcome.{account_of, enter_env, dispatch_envelope-Entered}
use test_go_server.Service.Dispatch.Telling.{Ready, route_to_game-Ready}

-- The session s of the gate, on its connection d, has a connection of the gate to the service, on
-- which the service knows it.
pub record Linked {D : Type 0} (id d gate : ℕ) (s : Session) (c : GateConn) (g : Gate)
    (p : Process D) : Type 0 where
  pub valid : Inv g
  pub kept : lookup id g.by_session ≡ some s
  pub plugged : s.conn ≡ some d
  pub room : length (g.conns d).send_ch < send_ch_cap
  pub on_gate : lookup id p.net.session_gate ≡ some gate
  pub conn : lookup gate p.net.gate_conns ≡ some c
  pub up : c.up ≡ true

-- What becomes of the login of an account in the service process.
pub record Served {D : Type 0} (store : AccountStore D) (id player gate router : ℕ)
    (account : Bytes) (rsp : Envelope) (c : GateConn) (p q : Process D) : Type 0 where
  -- The account has its ID in the database.
  pub stored : store.load_role_id account q.store ≡ some (some player)
  -- The request to enter the game waits last in the channel to the game.
  pub told :
      (q.routers router).send_ch
      ≡ (p.routers router).send_ch
        ++ record { msg_id = 3001; session_id = id; player_id = player; payload = [] } ∷ []
  -- The answer is the last message on the connection of the gate.
  pub answered : lookup gate q.net.gate_conns ≡ some (record c { written = c.written ++ rsp ∷ [] })

-- A login on the test platform of an account with a name that has a player or gets one, an int64 that
-- is not 0, over a store that remembers, from a session that the gate keeps on a connection with room
-- and that the service knows on a gate that is up, with room in the channel of the game router, for a
-- player whom no other session of the gate has: afterwards the database has the ID for the account,
-- the enter-game request of the session with its player is the last in the channel to the game, and
-- one answer is the last that was written to the gate; and with this answer, whose ID the gate reads
-- back, the gate makes the session authenticated as the player, indexes it, and gives the client the
-- answer.
pub login-LoggedIn :
    {D : Type 0} (x : External) (coder : Coder) (svc : LoginService D) (store : AccountStore D)
    (w : World) (env : Envelope) (req : LoginReq) (player d gate router : ℕ) (old : Bool)
    (s : Session) (c : GateConn) (g : Gate) (p : Process D)
    → Linked env.session_id d gate s c g p
    → Ready player router p
    → svc.store ≡ some store
    → Remembers store
    → account_of req ≢ []
    → player ≢ 0
    → player < 2 ^ 64
    → env.msg_id ≡ 1001
    → coder.unmarshal_login_req env.payload ≡ some req
    → req.platform ≡ 0
    → (resolve_role_id svc (account_of req) p.store).1 ≡ some (player, old)
    → x.unmarshal_login_rsp (coder.marshal_login_rsp player) ≡ some player
    → ((other : ℕ) → lookup player g.by_player ≡ some other → other ≡ env.session_id)
    → let rsp = answer env.session_id (coder.marshal_login_rsp player) in
      let q = dispatch_envelope coder svc service_registry env p in
      Served store env.session_id player gate router (account_of req) rsp c p q
      × LoggedIn env.session_id player d
          (coder.marshal_login_rsp player)
          s
          g
          (on_service_envelope x w rsp g)
login-LoggedIn x coder svc store w env req player d gate router old s c g p link ready has remembers
      named real fits msg decoded test resolved reads alone =
    let served =
      dispatch_envelope-Entered coder svc env req player gate old c p msg decoded test resolved
        link.on_gate link.conn link.up in
    let now = (resolve_role_id svc (account_of req) p.store).0 in
    (
      record {
        stored =
            ap (store.load_role_id (account_of req)) served.stored
            ∙ resolve_role_id-load svc store remembers (account_of req) player old p.store has named
                real fits resolved;
        told =
            ap (λ f. (f router).send_ch) served.told
            ∙ route_to_game-Ready (enter_env env.session_id player) router
                (record p { store = now })
                (record { main = ready.main; own = ready.own; room = ready.room });
        answered = served.answered;
      },
      on_service_envelope-LoggedIn x w env.session_id player d (coder.marshal_login_rsp player) s g
          link.kept (link.valid.good env.session_id s link.kept).keyed link.plugged link.room reads
          alone,
    )
