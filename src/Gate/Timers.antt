-- ===== src/Gate/Timers.antt =====
-- The periodic checks: heartbeat.go, auth_timeout.go and metrics.go.
pub mod Silence
pub mod Heartbeat
pub mod Collection
use test_go_server.Prelude.{
  ℕ, ◌+◌, ◌/◌, List, [], ◌∷◌, Option, none, some, Bool, true, false, not, ◌&&◌, ltb, ◌==◌,
  if◌then◌else◌,
}
use test_go_server.Protocol.{inc64, msg_heartbeat_rsp}
use test_go_server.Gate.State.{
  Session, Conn, Gate, Stats, World, is_online, is_authing, is_ws, since, put_session,
}
use test_go_server.Gate.Sessions.{get, snapshot, gc}
use test_go_server.Gate.Conn.{last_alive, mark_alive, reply}
use test_go_server.Gate.Offline.{on_session_offline}

unfoldable pub mark_alive_opt : Option ℕ → ℕ → Gate → Gate
unfolding mark_alive
mark_alive_opt none now g = g
mark_alive_opt (some c) now g = mark_alive c now g

heartbeat_of : ℕ → ℕ → Option Session → Gate → Gate
unfolding mark_alive_opt reply
heartbeat_of now id none g = g
heartbeat_of now id (some s) g =
    let g1 = mark_alive_opt s.conn now (put_session (record s { last_seen = now }) g) in
    (reply id msg_heartbeat_rsp [] g1).0

-- Gate.onHeartbeat
unfoldable pub on_heartbeat : ℕ → ℕ → Gate → Gate
unfolding heartbeat_of get
on_heartbeat now id g = heartbeat_of now id (get id g) g

-- A websocket gets half as much again.
abbrev pub conn_timeout : Conn → ℕ → ℕ
conn_timeout v timeout = if is_ws v.conn_type then timeout + timeout / 2 else timeout

-- The test of checkHeartbeat: only a session that is online and has a connection is looked at.
unfoldable pub is_idle : ℕ → Gate → Session → Bool
unfolding last_alive
is_idle now g s = elim s.conn [
  | none ↦ false
  | some c ↦
      is_online s.state
      && ltb (conn_timeout (g.conns c) g.config.heartbeat_timeout)
          (since now (last_alive (g.conns c)))
]

abbrev pub count_heartbeat_timeout : Gate → Gate
count_heartbeat_timeout g = record g {
  stats = record (g.stats) { heartbeat_timeouts = inc64 g.stats.heartbeat_timeouts };
}

heartbeat_one : ℕ → Option Session → Gate → Gate
heartbeat_one now none g = g
heartbeat_one now (some s) g =
    if is_idle now g s then on_session_offline now s (count_heartbeat_timeout g) else g

unfoldable pub heartbeat_loop : ℕ → List ℕ → Gate → Gate
unfolding heartbeat_one get
heartbeat_loop now [] g = g
heartbeat_loop now (id ∷ ids) g = heartbeat_loop now ids (heartbeat_one now (get id g) g)

-- Gate.checkHeartbeat
unfoldable pub check_heartbeat : ℕ → Gate → Gate
unfolding heartbeat_loop
check_heartbeat now g =
    if g.config.heartbeat_timeout == 0 then g else heartbeat_loop now (snapshot g) g

abbrev pub count_login_timeout : Gate → Gate
count_login_timeout g = record g {
  stats = record (g.stats) { login_timeouts = inc64 g.stats.login_timeouts };
}

abbrev pub is_auth_late : ℕ → Gate → Session → Bool
is_auth_late now g s = is_authing s.state && ltb g.config.login_timeout (since now s.auth_start)

authing_one : ℕ → Option Session → Gate → Gate
authing_one now none g = g
authing_one now (some s) g =
    if is_auth_late now g s then on_session_offline now s (count_login_timeout g) else g

unfoldable pub authing_loop : ℕ → List ℕ → Gate → Gate
unfolding authing_one get
authing_loop now [] g = g
authing_loop now (id ∷ ids) g = authing_loop now ids (authing_one now (get id g) g)

-- Gate.checkAuthingTimeout
unfoldable pub check_authing_timeout : ℕ → Gate → Gate
unfolding authing_loop
check_authing_timeout now g = authing_loop now (snapshot g) g

-- One tick of gcLoop.
unfoldable pub gc_tick : ℕ → Gate → Gate
gc_tick now g = (gc now g.config.heartbeat_timeout (check_authing_timeout now g)).0

-- One tick of reportStats: the counters are swapped for zero.
abbrev pub no_stats : Stats
no_stats = record {
  heartbeat_timeouts = 0;
  login_timeouts = 0;
  login_rate_limited = 0;
  unknown_msgs = 0;
  conn_busy = 0;
}

unfoldable pub report_stats : Gate → Stats × Gate
report_stats g = (g.stats, record g { stats = no_stats })
