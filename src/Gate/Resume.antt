-- ===== src/Gate/Resume.antt =====
-- internal/gate/resume.go: a new connection takes over a session.
pub mod Outcome
use test_go_server.Prelude.{
  ℕ, [], ◌∷◌, Option, none, some, Bool, true, false, not, ◌==◌, if◌then◌else◌,
}
use test_go_server.Protocol.{Bytes, Envelope, msg_resume_rsp}
use test_go_server.Gate.State.{
  SessionState, Session, Gate, External, World, online, authing, authenticated, closed, set_conn,
  put_session,
}
use test_go_server.Gate.Sessions.{get}
use test_go_server.Gate.Conn.{send, close}
use test_go_server.Gate.Token.{verify_token}
use test_go_server.Gate.Offline.{notify_player_resume}
use test_go_server.Gate.Login.{reset_kick_count}

-- The reasons in a ResumeRsp, as bytes: "", "invalid session", "session authing", "session closed".
pub data Reason : Type 0 where
  accepted invalid_session session_authing session_closed : Reason

unfoldable pub reason_text : Reason → Bytes
reason_text accepted = []
reason_text invalid_session =
    105 ∷ 110 ∷ 118 ∷ 97 ∷ 108 ∷ 105 ∷ 100 ∷ 32 ∷ 115 ∷ 101 ∷ 115 ∷ 115 ∷ 105 ∷ 111 ∷ 110 ∷ []
reason_text session_authing =
    115 ∷ 101 ∷ 115 ∷ 115 ∷ 105 ∷ 111 ∷ 110 ∷ 32 ∷ 97 ∷ 117 ∷ 116 ∷ 104 ∷ 105 ∷ 110 ∷ 103 ∷ []
reason_text session_closed =
    115 ∷ 101 ∷ 115 ∷ 115 ∷ 105 ∷ 111 ∷ 110 ∷ 32 ∷ 99 ∷ 108 ∷ 111 ∷ 115 ∷ 101 ∷ 100 ∷ []

abbrev pub is_accepted : Reason → Bool
is_accepted accepted = true
is_accepted _ = false

abbrev pub resume_rsp_env : External → Reason → ℕ → Envelope
resume_rsp_env x r id = record {
  msg_id = msg_resume_rsp;
  session_id = id;
  player_id = 0;
  payload = x.marshal_resume_rsp (is_accepted r) (reason_text r);
}

-- Gate.sendResumeRsp
unfoldable pub send_resume_rsp : External → ℕ → Reason → Gate → Gate
send_resume_rsp x c r g = (send c (resume_rsp_env x r (g.conns c).session_id) g).0

-- The answer and the closing of a refused resume.
unfoldable pub refuse : External → ℕ → Reason → Gate → Gate
unfolding send_resume_rsp
refuse x c r g = close c (send_resume_rsp x c r g)

unfoldable pub close_replaced : Option ℕ → ℕ → Gate → Gate
close_replaced none c g = g
close_replaced (some old) c g = if old == c then g else close old g

abbrev pub resumed_state : Session → SessionState
resumed_state s = if s.player_id == 0 then online else authenticated

-- The session that the connection c has taken over.
abbrev pub resumed : ℕ → ℕ → Session → Session
resumed now c s = record s { conn = some c; last_seen = now; state = resumed_state s }

-- Steps 2 to 6 of handleResume.
unfoldable pub take_over : External → ℕ → ℕ → Session → Gate → Gate
unfolding close_replaced
take_over x now c s g =
    let g1 = close_replaced s.conn c g in
    let g2 = put_session (resumed now c s) g1 in
    let g3 = set_conn c (record (g2.conns c) { session_id = s.id }) g2 in
    let g4 = send_resume_rsp x c accepted g3 in
    let g5 = if s.player_id == 0 then g4 else notify_player_resume (resumed now c s) g4 in
    reset_kick_count g5

-- The switch over the session's state.
unfoldable pub resume_by_state : External → ℕ → ℕ → SessionState → Session → Gate → Gate
unfolding refuse take_over
resume_by_state x now c authing s g = refuse x c session_authing g
resume_by_state x now c closed s g = refuse x c session_closed g
resume_by_state x now c _ s g = take_over x now c s g

unfoldable pub resume_session : External → ℕ → ℕ → Option Session → Bytes → Gate → Gate
unfolding resume_by_state
resume_session x now c none token g = refuse x c invalid_session g
resume_session x now c (some s) token g =
    if verify_token x s token
    then resume_by_state x now c s.state s g
    else refuse x c invalid_session g

unfoldable pub resume_request : External → ℕ → ℕ → Option (ℕ × Bytes) → Gate → Gate
unfolding resume_session get
resume_request x now c none g = close c g
resume_request x now c (some (id, token)) g = resume_session x now c (get id g) token g

-- Gate.handleResume
unfoldable pub handle_resume : External → World → ℕ → Envelope → Gate → Gate
unfolding resume_request
handle_resume x w c env g =
    if (g.conns c).session_id == 0
    then resume_request x w.now c (x.unmarshal_resume_req env.payload) g
    else close c g
