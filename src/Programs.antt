-- ===== src/Programs.antt =====
-- cmd/gate/main.go: how a gate process starts from its configuration (internal/config/config.go),
-- when that was read.
-- What the system and net/http make of it is a parameter, Host; what the loops of the listeners do is
-- in Gate.System.
pub mod Configured
pub mod Ready
pub mod Servers
use test_go_server.Prelude.{
  ℕ, ◌*◌, ◌-◌, ◌%◌, ◌^◌, List, [], ◌∷◌, Option, none, some, Bool, true, ◌&&◌, not, ltb, is_empty,
  if◌then◌else◌,
}
use test_go_server.Protocol.{Bytes}
use test_go_server.Transport.{default_max_envelope_size, set_max_envelope_size}
use test_go_server.Gate.State.{Gate}
use test_go_server.Gate.System.{
  new_gate, Setting, negative, natural, update_config, connect_service,
}

-- GateConfig; an int is a bit pattern of 64 bits.
pub record GateConfig : Type 0 where
  pub websocket_listen_addr : Bytes
  pub websocket_path : Bytes
  pub enable_tcp : Bool
  pub enable_websocket : Bool
  pub service_pool_size : ℕ
  pub heartbeat_interval_sec : ℕ
  pub heartbeat_timeout_sec : ℕ
  pub gc_interval_sec : ℕ
  pub login_timeout_sec : ℕ
  pub login_rate_limit_count : ℕ
  pub login_rate_limit_window : ℕ
  pub unknown_msg_kick_count : ℕ
  pub max_envelope_size : ℕ  -- uint32

-- The value of an int.
abbrev pub setting_of : ℕ → Setting
setting_of n = if ltb n (2 ^ 63) then natural n else negative (2 ^ 64 - n)

-- time.Duration(n) * time.Second, which wraps around.
abbrev pub seconds : ℕ → Setting
seconds n = setting_of (n * 1000000000 % 2 ^ 64)

-- A negative size of the pool is raised to one, as 0 is.
abbrev pub pool_size : ℕ → ℕ
pool_size n = if ltb n (2 ^ 63) then n else 0

-- The gate of main before it listens, unless make has panicked.
unfoldable pub configured : ℕ → GateConfig → Option Gate
unfolding new_gate update_config connect_service
configured max_make cfg = connect_service max_make (pool_size cfg.service_pool_size) (
    update_config (seconds cfg.heartbeat_interval_sec) (seconds cfg.heartbeat_timeout_sec)
      (seconds cfg.gc_interval_sec) (seconds cfg.login_timeout_sec)
      (setting_of cfg.login_rate_limit_count) (seconds cfg.login_rate_limit_window)
      (setting_of cfg.unknown_msg_kick_count) new_gate)

-- A gate that runs: whether it listens for TCP, and on which path for websockets.
pub record Running : Type 0 where
  pub gate : Gate
  pub tcp : Bool
  pub ws_path : Option Bytes
  pub max_envelope_size : ℕ

-- What the start meets: the capacity up to which make takes a pool, whether the TCP address can be
-- listened on, which patterns ServeMux.HandleFunc takes, on others of which it panics, and whether
-- ListenAndServe of the websocket server goes on, or returns an error, which ends main by errCh.
pub record Host : Type 0 where
  pub max_make : ℕ
  pub tcp_listens : Bool
  pub takes_pattern : Bytes → Bool
  pub ws_listens : Bool

pub data Startup : Type 0 where
  exited panicked : Startup
  running : Running → Startup

abbrev pub ws_path_of : Bytes → Bytes
ws_path_of path = if is_empty path then b'/' ∷ b'w' ∷ b's' ∷ [] else path

started : GateConfig → Bool → Gate → Startup
unfolding set_max_envelope_size
started cfg tcp g = running (record {
  gate = g;
  tcp = tcp;
  ws_path = if cfg.enable_websocket then some (ws_path_of cfg.websocket_path) else none;
  max_envelope_size =
      if ltb 0 cfg.max_envelope_size
      then set_max_envelope_size cfg.max_envelope_size
      else default_max_envelope_size;
})

-- The websocket listener, and the wait for errCh.
start_ws : Host → GateConfig → Bool → Gate → Startup
unfolding started
start_ws host cfg tcp g =
    if not cfg.enable_websocket
    then started cfg tcp g
    else if is_empty cfg.websocket_listen_addr
    then exited
    else if not (host.takes_pattern (ws_path_of cfg.websocket_path))
    then panicked
    else if host.ws_listens
    then started cfg tcp g
    else exited

abbrev pub tcp_enabled : GateConfig → Bool
tcp_enabled cfg = if not cfg.enable_tcp && not cfg.enable_websocket then true else cfg.enable_tcp

start_listeners : Host → GateConfig → Option Gate → Startup
unfolding start_ws
start_listeners host cfg none = panicked
start_listeners host cfg (some g) =
    if tcp_enabled cfg && not host.tcp_listens
    then exited
    else start_ws host cfg (tcp_enabled cfg) g

-- main, as far as its checks go.
unfoldable pub start_gate : Host → GateConfig → Startup
unfolding configured start_listeners
start_gate host cfg = start_listeners host cfg (configured host.max_make cfg)
