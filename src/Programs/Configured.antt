-- ===== src/Programs/Configured.antt =====
-- cmd/gate/main.go: the gate of a configuration, before it listens.
use test_go_server.Prelude.{
  ℕ, zero, suc, ◌<◌, ◌^◌, ◌≡◌, refl, ap, ◌⊎◌, inl, inr, List, none, some, ltb, if◌then◌else◌, arith,
  length, replicate, Bool-cases,
}
use test_go_server.Gate.State.{Gate, Remote}
use test_go_server.Gate.Remote.{new_remote_client_pool, new_remote_client}
use test_go_server.Gate.System.{
  new_gate, Setting, negative, natural, if_positive, update_config, connect_service,
}
use test_go_server.Gate.Invariant.Defs.{Inv, Inv-Same}
use test_go_server.Gate.Invariant.System.{new_gate-Inv, pool-Same}
use test_go_server.Programs.{GateConfig, Host, configured, seconds, setting_of, pool_size}

kept_positive : (s : Setting) (old : ℕ) → 0 < old → 0 < if_positive s old
kept_positive (negative n) old pos = pos
kept_positive (natural n) old pos = ground (arith, pos)

-- Every interval and limit of a gate is positive: a ticker of an interval that is not would panic.
pub record Positive (g : Gate) : Type 0 where
  pub heartbeat : 0 < g.config.heartbeat_interval
  pub timeout : 0 < g.config.heartbeat_timeout
  pub gc : 0 < g.config.gc_interval
  pub login : 0 < g.config.login_timeout
  pub attempts : 0 < g.config.login_rate_limit_count
  pub window : 0 < g.config.login_rate_limit_window
  pub unknown : 0 < g.config.unknown_msg_kick_count

-- A gate as it is configured: its sessions in order, its settings positive, clients to the service.
pub record Configured (g : Gate) : Type 0 where
  pub sessions : Inv g
  pub positive : Positive g
  pub pool : (p : List Remote) × (g.service_pool ≡ some p) × (0 < length p)

-- The gate before ConnectService.
abbrev settled : GateConfig → Gate
settled cfg =
    update_config (seconds cfg.heartbeat_interval_sec) (seconds cfg.heartbeat_timeout_sec)
      (seconds cfg.gc_interval_sec) (seconds cfg.login_timeout_sec)
      (setting_of cfg.login_rate_limit_count) (seconds cfg.login_rate_limit_window)
      (setting_of cfg.unknown_msg_kick_count) new_gate

settled-Positive : (cfg : GateConfig) → Positive (settled cfg)
unfolding update_config new_gate
settled-Positive cfg = record {
  heartbeat =
      kept_positive (seconds cfg.heartbeat_interval_sec) new_gate.config.heartbeat_interval
        (omega arith);
  timeout =
      kept_positive (seconds cfg.heartbeat_timeout_sec) new_gate.config.heartbeat_timeout
        (omega arith);
  gc = kept_positive (seconds cfg.gc_interval_sec) new_gate.config.gc_interval (omega arith);
  login = kept_positive (seconds cfg.login_timeout_sec) new_gate.config.login_timeout (omega arith);
  attempts =
      kept_positive (setting_of cfg.login_rate_limit_count) new_gate.config.login_rate_limit_count
        (omega arith);
  window =
      kept_positive (seconds cfg.login_rate_limit_window) new_gate.config.login_rate_limit_window
        (omega arith);
  unknown =
      kept_positive (setting_of cfg.unknown_msg_kick_count) new_gate.config.unknown_msg_kick_count
        (omega arith);
}

settled-Inv : (cfg : GateConfig) → Inv (settled cfg)
unfolding update_config
settled-Inv cfg =
    Inv-Same (record { sessions = refl; ids = λ c. refl; limit = refl; next = refl }) new_gate-Inv

length-replicate : (n : ℕ) (r : Remote) → length (replicate n r) ≡ n
length-replicate zero r = refl
length-replicate (suc n) r = ap suc (length-replicate n r)

-- make does not take the size of the pool.
abbrev pub PoolTooLarge : Host → GateConfig → Type 0
PoolTooLarge host cfg =
    (host.max_make < 1)
    ⊎ ((cfg.service_pool_size < 2 ^ 63) × (host.max_make < cfg.service_pool_size))

pub configured-cases :
    (host : Host) (cfg : GateConfig)
    → ((configured host.max_make cfg ≡ none) × PoolTooLarge host cfg)
      ⊎ ((g : Gate) × (configured host.max_make cfg ≡ some g) × Configured g)
unfolding configured connect_service new_remote_client_pool
configured-cases host cfg = elim (Bool-cases (ltb host.max_make n)) [
  | inl large ↦ inl (
    rw large refl,
    elim (Bool-cases (ltb (pool_size cfg.service_pool_size) 1)) [
      | inl small ↦ inl (ground (arith, large, small))
      | inr some_size ↦ inr (ground (arith, some_size), ground (arith, large, some_size))
    ],
  )
  | inr fits ↦ inr (
    record (settled cfg) { service_pool = some pool },
    rw fits refl,
    record {
      sessions = Inv-Same (pool-Same (settled cfg) (some pool)) (settled-Inv cfg);
      positive =
          let p = settled-Positive cfg in
          record {
            heartbeat = p.heartbeat;
            timeout = p.timeout;
            gc = p.gc;
            login = p.login;
            attempts = p.attempts;
            window = p.window;
            unknown = p.unknown;
          };
      pool = (pool, refl, ground (arith, length-replicate n (new_remote_client 2)));
    },
  )
]
  where
    n : ℕ
    n = if ltb (pool_size cfg.service_pool_size) 1 then 1 else pool_size cfg.service_pool_size

    pool : List Remote
    pool = replicate n (new_remote_client 2)
