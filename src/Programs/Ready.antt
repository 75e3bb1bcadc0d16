-- ===== src/Programs/Ready.antt =====
-- A gate process that has started is ready.
use test_go_server.Prelude.{◌<◌, ◌≡◌, ◌⊎◌, List, [], some, true, false, is_empty, length}
use test_go_server.Protocol.{Bytes}
use test_go_server.Gate.State.{Gate, Remote}
use test_go_server.Gate.Invariant.Defs.{Inv}
use test_go_server.Programs.{
  GateConfig, Host, Running, Startup, exited, panicked, running, ws_path_of,
}
use test_go_server.Programs.Configured.{Positive, Configured, PoolTooLarge}

-- A gate is ready when its sessions are in order, its settings positive, its pool of clients to the
-- service not empty, it listens for one kind of connection at least, and it reads envelopes of some
-- size.
pub record IsReady (r : Running) : Type 0 where
  pub sessions : Inv r.gate
  pub positive : Positive r.gate
  pub pool : (p : List Remote) × (r.gate.service_pool ≡ some p) × (0 < length p)
  pub listens :
      (r.tcp ≡ true) ⊎ ((path : Bytes) × (r.ws_path ≡ some path) × (is_empty path ≡ false))
  pub size : 0 < r.max_envelope_size

-- A listener fails: TCP is listened for and its address is not to be had, or websockets are, and
-- there is no address, or the server does not go on.
abbrev pub ListenFails : Host → GateConfig → Type 0
ListenFails host cfg =
    ((host.tcp_listens ≡ false) × ((cfg.enable_tcp ≡ true) ⊎ (cfg.enable_websocket ≡ false)))
    ⊎ ((cfg.enable_websocket ≡ true)
        × ((cfg.websocket_listen_addr ≡ []) ⊎ (host.ws_listens ≡ false)))

-- The pattern of the websocket handler is refused.
abbrev pub PatternRefused : Host → GateConfig → Type 0
PatternRefused host cfg =
    (cfg.enable_websocket ≡ true) × (host.takes_pattern (ws_path_of cfg.websocket_path) ≡ false)

abbrev pub Starts : Host → GateConfig → Startup → Type 0
Starts host cfg s =
    ((s ≡ panicked) × (PoolTooLarge host cfg ⊎ PatternRefused host cfg))
    ⊎ (((s ≡ exited) × ListenFails host cfg) ⊎ ((r : Running) × (s ≡ running r) × IsReady r))
