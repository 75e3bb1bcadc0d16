-- ===== src/Gate/Conn.antt =====
-- internal/gate/conn.go: a client connection, its channel and its loops.
pub mod Sending
use test_go_server.Prelude.{
  ℕ, suc, ◌+◌, ◌-◌, List, [], ◌∷◌, ◌++◌, Option, none, some, Bool, true, false, ltb, leb, ◌==◌,
  if◌then◌else◌, length,
}
use test_go_server.Protocol.{Envelope, Error, conn_busy, session_not_found, inc32, inc64, Bytes}
use test_go_server.Gate.State.{ConnType, Conn, Gate, Session, set_conn, unix_epoch}
use test_go_server.Gate.Sessions.{get}

abbrev pub send_ch_cap : ℕ
send_ch_cap = 8192

-- time.Time.UnixNano and time.Unix(0, n), for clocks after 1970.
abbrev pub unix_nano : ℕ → ℕ
unix_nano t = t - unix_epoch

-- NewConnWithTransport, and the connType that NewConn and NewWSConn set.
unfoldable pub new_conn : ConnType → ℕ → Gate → Gate
new_conn kind now g =
    record (set_conn g.next_conn
      (record {
        conn_type = kind;
        session_id = 0;
        send_ch = [];
        written = [];
        closed = false;
        busy_count = 0;
        connected_at = now;
        last_alive_nano = unix_nano now;
      })
      g) { next_conn = suc g.next_conn }

-- Conn.markAlive
unfoldable pub mark_alive : ℕ → ℕ → Gate → Gate
mark_alive c now g = set_conn c (record (g.conns c) { last_alive_nano = unix_nano now }) g

-- Conn.lastAlive
unfoldable pub last_alive : Conn → ℕ
last_alive v = if v.last_alive_nano == 0 then v.connected_at else v.last_alive_nano + unix_epoch

-- Conn.Close
unfoldable pub close : ℕ → Gate → Gate
close c g = set_conn c (record (g.conns c) { closed = true }) g

-- The default case of Send, the channel being full.
send_busy : ℕ → Gate → Gate
unfolding close
send_busy c g =
    let g1 =
      record (set_conn c (record (g.conns c) { busy_count = inc32 (g.conns c).busy_count }) g) {
        stats = record (g.stats) { conn_busy = inc64 g.stats.conn_busy };
      } in
    if leb 5 (inc32 (g.conns c).busy_count) then close c g1 else g1

-- Conn.Send
unfoldable pub send : ℕ → Envelope → Gate → Gate × Option Error
unfolding send_busy
send c env g =
    if ltb (length (g.conns c).send_ch) send_ch_cap
    then (set_conn c (record (g.conns c) { send_ch = (g.conns c).send_ch ++ env ∷ [] }) g, none)
    else (send_busy c g, some conn_busy)

-- One turn of writeLoop: it takes a message if there is one, and a failed write ends the loop,
-- which closes the connection.  `fine` says whether the transport takes the message.
write_head : ℕ → Bool → List Envelope → Gate → Gate
unfolding close
write_head c fine [] g = g
write_head c true (env ∷ rest) g =
    set_conn c (record (g.conns c) { send_ch = rest; written = (g.conns c).written ++ env ∷ [] }) g
write_head c false (env ∷ rest) g = close c (set_conn c (record (g.conns c) { send_ch = rest }) g)

unfoldable pub write_turn : ℕ → Bool → Gate → Gate
unfolding write_head
write_turn c fine g = if (g.conns c).closed then g else write_head c fine (g.conns c).send_ch g

-- The envelope of Gate.Reply.
abbrev pub reply_env : ℕ → ℕ → Bytes → Session → Envelope
reply_env id msg payload s = record {
  msg_id = msg;
  session_id = id;
  player_id = s.player_id;
  payload = payload;
}

reply_to : Option ℕ → Envelope → Gate → Gate × Option Error
unfolding send
reply_to none env g = (g, some session_not_found)
reply_to (some c) env g = send c env g

reply_session : Option Session → ℕ → ℕ → Bytes → Gate → Gate × Option Error
unfolding reply_to
reply_session none id msg payload g = (g, some session_not_found)
reply_session (some s) id msg payload g = reply_to s.conn (reply_env id msg payload s) g

-- Gate.Reply, which Gate.Push calls
unfoldable pub reply : ℕ → ℕ → Bytes → Gate → Gate × Option Error
unfolding reply_session get
reply id msg payload g = reply_session (get id g) id msg payload g
