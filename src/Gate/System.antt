-- ===== src/Gate/System.antt =====
-- A gate process as a sequence of events.  Each handler of internal/gate runs to its end before the
-- next event; a connection has events only after it was accepted.  gate.go sets the gate up.
use test_go_server.Prelude.{
  ℕ, ◌*◌, List, [], ◌∷◌, Option, none, some, Bool, false, ltb, ◌==◌, if◌then◌else◌, get_elem?, set,
}
use test_go_server.Protocol.{Envelope}
use test_go_server.Gate.State.{ConnType, tcp, Conn, Link, Remote, Gate, External, World}
use test_go_server.Reconnect.{Wake, Connector, connect_turn}
use test_go_server.Gate.Remote
use test_go_server.Gate.Remote.{new_remote_client_pool}
use test_go_server.Gate.Conn.{new_conn, write_turn, mark_alive}
use test_go_server.Gate.Offline.{on_conn_close}
use test_go_server.Gate.Login.{on_service_envelope}
use test_go_server.Gate.Timers.{check_heartbeat, gc_tick, report_stats, no_stats}
use test_go_server.Gate.Handler.{on_envelope, register_handlers}

-- time.Second
abbrev second : ℕ
second = 1000000000

abbrev no_conn : Conn
no_conn = record {
  conn_type = tcp;
  session_id = 0;
  send_ch = [];
  written = [];
  closed = false;
  busy_count = 0;
  connected_at = 0;
  last_alive_nano = 0;
}

-- NewGate
unfoldable pub new_gate : Gate
unfolding register_handlers
new_gate = record {
  by_session = [];
  by_player = [];
  conns = λ c. no_conn;
  next_conn = 0;
  service_pool = none;
  next_id = 0;
  config = record {
    heartbeat_interval = 100 * second;
    heartbeat_timeout = 300 * second;
    gc_interval = 600 * second;
    login_timeout = 100 * second;
    login_rate_limit_count = 5;
    login_rate_limit_window = 10 * second;
    unknown_msg_kick_count = 3;
  };
  handlers = (register_handlers []).0;
  stats = no_stats;
}

-- An int of the configuration: the sign, and the size.
pub data Setting : Type 0 where
  negative : ℕ → Setting
  natural : ℕ → Setting

abbrev pub if_positive : Setting → ℕ → ℕ
if_positive (negative n) old = old
if_positive (natural n) old = if n == 0 then old else n

-- Gate.UpdateConfig: a setting that is not positive leaves the value as it is.
unfoldable pub update_config :
    Setting → Setting → Setting → Setting → Setting → Setting → Setting → Gate → Gate
update_config interval timeout gc login_timeout limit_count window unknown_kick g = record g {
  config = record {
    heartbeat_interval = if_positive interval g.config.heartbeat_interval;
    heartbeat_timeout = if_positive timeout g.config.heartbeat_timeout;
    gc_interval = if_positive gc g.config.gc_interval;
    login_timeout = if_positive login_timeout g.config.login_timeout;
    login_rate_limit_count = if_positive limit_count g.config.login_rate_limit_count;
    login_rate_limit_window = if_positive window g.config.login_rate_limit_window;
    unknown_msg_kick_count = if_positive unknown_kick g.config.unknown_msg_kick_count;
  };
}

with_pool : Option (List Remote) → Gate → Option Gate
with_pool none g = none
with_pool (some pool) g = some (record g { service_pool = some pool })

-- Gate.ConnectService, with two retries; none is the panic of make.
unfoldable pub connect_service : ℕ → ℕ → Gate → Option Gate
unfolding with_pool
connect_service limit size g = with_pool (new_remote_client_pool limit size 2) g

-- What can happen: a client connects, sends, or is gone; a write loop has a turn; an envelope comes
-- from the service; a ticker ticks; a remote client's connection changes, its writer has a turn, or
-- its heartbeat ticks.
pub data Event : Type 0 where
  connected : ConnType → Event
  received : ℕ → Envelope → Event
  read_failed : ℕ → Event
  wrote : ℕ → Bool → Event
  from_service : Envelope → Event
  heartbeat_ticked gc_ticked stats_ticked : Event
  link_changed : ℕ → Link → Event
  remote_wrote remote_pinged : ℕ → Event

unfoldable pub at_remote : ℕ → (Remote → Remote) → Option (List Remote) → Option (List Remote)
at_remote i f none = none
at_remote i f (some pool) = elim (get_elem? pool i) [
  | none ↦ some pool
  | some r ↦ some (set pool i (f r))
]

-- Conn.ReadLoop does markAlive before OnEnvelope.
unfoldable pub read_turn : External → World → ℕ → Envelope → Gate → Gate
read_turn x w c env g = on_envelope x w c env (mark_alive c w.now g)

unfoldable pub step : External → World → Event → Gate → Gate
unfolding at_remote read_turn
step x w (connected kind) g = new_conn kind w.now g
step x w (received c env) g = if ltb c g.next_conn then read_turn x w c env g else g
step x w (read_failed c) g = if ltb c g.next_conn then on_conn_close w.now c g else g
step x w (wrote c fine) g = write_turn c fine g
step x w (from_service env) g = on_service_envelope x w env g
step x w heartbeat_ticked g = check_heartbeat w.now g
step x w gc_ticked g = gc_tick w.now g
step x w stats_ticked g = (report_stats g).1
step x w (link_changed i l) g = record g {
  service_pool = at_remote i (λ r. record r { link = l }) g.service_pool;
}
step x w (remote_wrote i) g = record g {
  service_pool = at_remote i Remote.write_turn g.service_pool;
}
step x w (remote_pinged i) g = record g {
  service_pool = at_remote i Remote.ping_turn g.service_pool;
}

-- connectLoop of a remote client: its envelopes go to OnServiceEnvelope.
unfoldable pub connect_remote : External → World → Wake → Connector Gate → Connector Gate
unfolding connect_turn
connect_remote x w o c = connect_turn (on_service_envelope x w) o c

unfoldable pub run : External → List (World × Event) → Gate → Gate
run x [] g = g
run x ((w, e) ∷ es) g = run x es (step x w e g)
