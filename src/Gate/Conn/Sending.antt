-- ===== src/Gate/Conn/Sending.antt =====
-- What Send and Reply leave when there is room.
use test_go_server.Prelude.{ℕ, ◌<◌, ◌≡◌, ap, ◌∙◌, [], ◌∷◌, ◌++◌, some, arith, lookup, length}
use test_go_server.Protocol.{Bytes, Envelope}
use test_go_server.Gate.State.{Session, Gate, set_conn}
use test_go_server.Gate.Sessions.{get}
use test_go_server.Gate.Conn.{send, send_ch_cap, reply, reply_session, reply_to, reply_env}

pub send-room :
    (d : ℕ) (env : Envelope) (g : Gate)
    → length (g.conns d).send_ch < send_ch_cap
    → (send d env g).0
      ≡ set_conn d (record (g.conns d) { send_ch = (g.conns d).send_ch ++ env ∷ [] }) g
unfolding send
send-room d env g room = ground (arith, room)

-- A reply to a session that has a connection is a Send on it.
pub reply-send :
    (id msg d : ℕ) (payload : Bytes) (s : Session) (g : Gate)
    → lookup id g.by_session ≡ some s
    → s.conn ≡ some d
    → reply id msg payload g ≡ send d (reply_env id msg payload s) g
unfolding reply reply_session reply_to get
reply-send id msg d payload s g at_id plug =
    ap (λ o. reply_session o id msg payload g) at_id
    ∙ ap (λ c. reply_to c (reply_env id msg payload s) g) plug
