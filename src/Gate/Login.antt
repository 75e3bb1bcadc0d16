-- ===== src/Gate/Login.antt =====
-- Sessions are created and logged in: session.go, login_limit.go, service_handler.go and the
-- duplicate login of handler.go.
pub mod RateLimit
pub mod Takeover
pub mod Answer
use test_go_server.Prelude.{
  ℕ, ◌+◌, List, [], ◌∷◌, Option, none, some, Bool, true, false, not, ◌||◌, ltb, leb, ◌==◌,
  if◌then◌else◌,
}
use test_go_server.Protocol.{
  Bytes, Envelope, msg_session_init, msg_login_rsp, msg_service_pong, inc64,
}
use test_go_server.Gate.State.{
  Session, Gate, External, World, init, online, authenticated, Config, since, set_conn, put_session,
}
use test_go_server.Gate.Sessions.{get, add, bind_player}
use test_go_server.Gate.Conn.{send, reply}
use test_go_server.Gate.Token.{sign_resume_token}
use test_go_server.Gate.Offline.{kick}

-- Gate.newSession, with the ID that nextSessionID gives.
unfoldable pub new_session : External → World → ℕ → Session
new_session x w id = record {
  id = id;
  player_id = 0;
  token = sign_resume_token x w id;
  state = init;
  conn = none;
  last_seen = w.now;
  auth_start = 0;
  login_window_start = 0;
  login_attempts = 0;
  unknown_msg_count = 0;
}

abbrev pub session_init_env : External → Session → Envelope
session_init_env x s = record {
  msg_id = msg_session_init;
  session_id = s.id;
  player_id = 0;
  payload = x.marshal_session_init s.id s.token;
}

-- The session that a connection gets.
unfoldable pub fresh_session : External → World → ℕ → ℕ → Session
unfolding new_session
fresh_session x w c id = record (new_session x w id) {
  conn = some c;
  state = online;
  last_seen = w.now;
}

-- The connection is bound and the session added; c.sessionID and the map change together.
unfoldable pub bind_fresh : Session → ℕ → Gate → Gate
unfolding add
bind_fresh s c g =
    add s (set_conn c (record (g.conns c) { session_id = s.id }) (record g { next_id = s.id }))

-- Gate.createSessionForConn
unfoldable pub create_session_for_conn : External → World → ℕ → Gate → Session × Gate
unfolding fresh_session bind_fresh
create_session_for_conn x w c g =
    let s = fresh_session x w c (inc64 g.next_id) in
    (s, (send c (session_init_env x s) (bind_fresh s c g)).0)

-- The session after Gate.allowLogin counted an attempt.
unfoldable pub count_attempt : Config → ℕ → Session → Session
count_attempt cfg now s =
    if s.login_window_start == 0 || ltb cfg.login_rate_limit_window (since now s.login_window_start)
    then record s { login_window_start = now; login_attempts = 1 }
    else record s { login_attempts = s.login_attempts + 1 }

-- Gate.allowLogin: the session afterwards, and the verdict.
unfoldable pub allow_login : Config → ℕ → Session → Session × Bool
unfolding count_attempt
allow_login cfg now s =
    if cfg.login_rate_limit_count == 0
    then (s, true)
    else let s' = count_attempt cfg now s in (s', leb s'.login_attempts cfg.login_rate_limit_count)

-- Kick of the session that held the player, if it is another one.
unfoldable pub kick_old : ℕ → ℕ → Option ℕ → Gate → Gate
kick_old now id none g = g
kick_old now id (some old) g = if old == id then g else (kick now old g).0

-- g.unknownMsgKickCount = 0
abbrev pub reset_kick_count : Gate → Gate
reset_kick_count g = record g { config = record (g.config) { unknown_msg_kick_count = 0 } }

unfoldable pub login_session : ℕ → Session → Option ℕ → Gate → Gate
unfolding kick_old bind_player
login_session now s none g = g
login_session now s (some player) g =
    let (old, g1) = bind_player s player g in
    let g2 = kick_old now s.id old g1 in
    reset_kick_count (put_session (record s { player_id = player; state = authenticated }) g2)

login_rsp : External → ℕ → Option Session → Bytes → Gate → Gate
unfolding login_session
login_rsp x now none payload g = g
login_rsp x now (some s) payload g = login_session now s (x.unmarshal_login_rsp payload) g

-- Gate.onLoginRsp
unfoldable pub on_login_rsp : External → World → ℕ → Bytes → Gate → Gate
unfolding login_rsp get
on_login_rsp x w id payload g = login_rsp x w.now (get id g) payload g

-- Gate.OnServiceEnvelope
unfoldable pub on_service_envelope : External → World → Envelope → Gate → Gate
on_service_envelope x w env g =
    if env.msg_id == msg_service_pong
    then g
    else let g1 =
        if env.msg_id == msg_login_rsp then on_login_rsp x w env.session_id env.payload g else g in
      (reply env.session_id env.msg_id env.payload g1).0

-- Gate.handleDuplicateLogin
unfoldable pub handle_duplicate_login : ℕ → Session → ℕ → Gate → Gate
handle_duplicate_login now s c g = elim s.conn [
  | none ↦ (kick now s.id g).0
  | some c' ↦ if c' == c then g else (kick now s.id g).0
]
