-- ===== src/Gate/Handler.antt =====
-- internal/gate/handler.go: an envelope from a client.
pub mod Gating
pub mod Forwarding
use test_go_server.Prelude.{
  ℕ, suc, ◌+◌, List, [], ◌∷◌, Option, none, some, Bool, true, false, not, ◌&&◌, ltb, leb, ◌==◌,
  if◌then◌else◌,
}
use test_go_server.Protocol.{
  Envelope, inc64, msg_resume_req, msg_login_req, msg_heartbeat_req, Error,
}
use test_go_server.Router.{RouteRule, Target, ModuleName, login, service, game, db, get_route}
use test_go_server.Registry
use test_go_server.Registry.{Registry}
use test_go_server.Gate.State.{
  SessionState, Session, Gate, External, World, HandlerFunc, on_resume_handler,
  on_heartbeat_handler, init, online, authing, authenticated, offline, closed, is_online,
  is_offline, put_session,
}
use test_go_server.Gate.Sessions.{get}
use test_go_server.Gate.Conn.{close}
use test_go_server.Gate.Offline.{send_to_service, send_to_game, on_session_offline}
use test_go_server.Gate.Login.{create_session_for_conn, allow_login, handle_duplicate_login}
use test_go_server.Gate.Resume.{handle_resume}
use test_go_server.Gate.Timers.{on_heartbeat}

-- Gate.registerHandlers, with the errors of Register put together.
unfoldable pub register_handlers : Registry HandlerFunc → Registry HandlerFunc × Option Error
register_handlers r =
    let (r1, e) = Registry.register msg_resume_req on_resume_handler r in
    elim e [
      | some err ↦ (r1, some err)
      | none ↦ Registry.register msg_heartbeat_req on_heartbeat_handler r1
    ]

heartbeat_session : ℕ → Option Session → Gate → Gate
unfolding on_heartbeat
heartbeat_session now none g = g
heartbeat_session now (some s) g = on_heartbeat now s.id g

unfoldable pub run_handler :
    Option HandlerFunc → External → World → Option Session → ℕ → Envelope → Gate → Gate
unfolding heartbeat_session
run_handler none x w s c env g = g
run_handler (some on_resume_handler) x w s c env g = handle_resume x w c env g
run_handler (some on_heartbeat_handler) x w s c env g = heartbeat_session w.now s g

-- Gate.dispatchHandler
unfoldable pub dispatch_handler : External → World → Option Session → ℕ → Envelope → Gate → Gate
unfolding run_handler
dispatch_handler x w s c env g = run_handler (Registry.get env.msg_id g.handlers) x w s c env g

abbrev pub count_rate_limited : Gate → Gate
count_rate_limited g = record g {
  stats = record (g.stats) { login_rate_limited = inc64 g.stats.login_rate_limited };
}

-- A first login: the branch of OnEnvelope for a connection without a session.
unfoldable pub first_login : External → World → ℕ → Envelope → Gate → Gate
unfolding create_session_for_conn
first_login x w c env g =
    let (s, g1) = create_session_for_conn x w c g in
    let (s', allowed) = allow_login g1.config w.now s in
    let g2 = put_session s' g1 in
    if allowed
    then send_to_service login
        (record { msg_id = env.msg_id; session_id = s.id; player_id = 0; payload = env.payload }) g2
    else count_rate_limited g2

abbrev pub count_unknown : Session → Gate → Gate
count_unknown s g =
    record (put_session (record s { unknown_msg_count = suc s.unknown_msg_count }) g) {
      stats = record (g.stats) { unknown_msgs = inc64 g.stats.unknown_msgs };
    }

-- A message number with no route.
unfoldable pub unknown_route : ℕ → Session → Gate → Gate
unknown_route now s g =
    let s' = record s { unknown_msg_count = suc s.unknown_msg_count } in
    let g1 = count_unknown s g in
    if ltb 0 g.config.unknown_msg_kick_count
      && leb g.config.unknown_msg_kick_count s'.unknown_msg_count
    then on_session_offline now s' g1
    else g1

unfoldable pub by_target : Target → ModuleName → Envelope → Gate → Gate
by_target service m env g = send_to_service m env g
by_target game m env g = send_to_game env g
by_target db m env g = g

-- The business routes.
unfoldable pub route : ℕ → Option RouteRule → Session → Envelope → Gate → Gate
unfolding unknown_route by_target
route now none s env g = unknown_route now s g
route now (some rule) s env g =
    by_target rule.target rule.mod_name env (put_session (record s { last_seen = now }) g)

-- Sections 3 to 5 of OnEnvelope, for a session that may be any but offline.
unfoldable pub after_login : External → World → Session → ℕ → Envelope → Gate → Gate
unfolding dispatch_handler route get_route
after_login x w s c env g =
    if is_online s.state
    then g
    else if env.msg_id == msg_heartbeat_req
    then dispatch_handler x w (some s) c env g
    else route w.now (get_route env.msg_id) s env g

abbrev pub start_auth : ℕ → Session → Session
start_auth now s = record s { state = authing; auth_start = now }

-- The switch over the state in the login branch.
unfoldable pub login_by_state :
    SessionState → External → World → Session → ℕ → Envelope → Gate → Gate
unfolding after_login
login_by_state authenticated x w s c env g = handle_duplicate_login w.now s c g
login_by_state online x w s c env g =
    after_login x w (start_auth w.now s) c env (put_session (start_auth w.now s) g)
login_by_state authing x w s c env g = g
login_by_state init x w s c env g = after_login x w s c env g
login_by_state offline x w s c env g = after_login x w s c env g
login_by_state closed x w s c env g = after_login x w s c env g

-- Section 2, a login request on a session.
unfoldable pub login_request : External → World → Session → ℕ → Envelope → Gate → Gate
unfolding login_by_state
login_request x w s c env g =
    let (s', allowed) = allow_login g.config w.now s in
    let g1 = put_session s' g in
    if allowed then login_by_state s'.state x w s' c env g1 else count_rate_limited g1

unfoldable pub on_bound : External → World → Option Session → ℕ → Envelope → Gate → Gate
unfolding login_request after_login
on_bound x w none c env g = close c g
on_bound x w (some s) c env g =
    if is_offline s.state
    then g
    else if env.msg_id == msg_login_req
    then login_request x w s c env g
    else after_login x w s c env g

-- Gate.OnEnvelope
unfoldable pub on_envelope : External → World → ℕ → Envelope → Gate → Gate
unfolding dispatch_handler first_login on_bound get
on_envelope x w c env g =
    if env.msg_id == msg_resume_req
    then dispatch_handler x w none c env g
    else if (g.conns c).session_id == 0
    then (if env.msg_id == msg_login_req then first_login x w c env g else close c g)
    else on_bound x w (get (g.conns c).session_id g) c env g
