-- ===== src/Programs/Servers/Serving.antt =====
-- A service or a game process that serves has its Redis client.
use test_go_server.Prelude.{
  ℕ, ◌*◌, ◌<◌, ◌^◌, ◌≤◌, ◌≡◌, refl, ◌⊎◌, inl, inr, some, Bool, true, false, arith, ltb, ◌&&◌,
  Bool-cases,
}
use test_go_server.Transport.{set_max_envelope_size}
use test_go_server.Gate.System.{Setting, negative, natural, if_positive}
use test_go_server.Redis.Connection.{
  RedisConfig, no_redis, positive_or, with_defaults, init_redis, rdb, answering, ping_failed,
  health_tick,
}
use test_go_server.Service.Modules.{service_registry, get_handler-service_registry}
use test_go_server.Game.Manager.{new_player_manager}
use test_go_server.Programs.{seconds}
use test_go_server.Programs.Servers.{
  ServerConfig, Backend, ServerStartup, exited, serving, health_interval, backend, listened,
  start_game, new_process, registered, start_service,
}

-- RDB gives a client with the address, the password and the database of the configuration, and with
-- its pool sizes where they are positive as Go reads them, else 200 and 20;
-- the health check finds it, whether it answers or not, and its ticker has an interval.
pub record HasRedis (cfg : RedisConfig) (b : Backend) : Type 0 where
  pub options : RedisConfig
  pub same_addr : options.addr ≡ cfg.addr
  pub same_password : options.password ≡ cfg.password
  pub same_db : options.db ≡ cfg.db
  pub pool_of :
      (options.pool_size ≡ cfg.pool_size)
      ⊎ ((options.pool_size ≡ 200) × ((cfg.pool_size ≡ 0) ⊎ (2 ^ 63 ≤ cfg.pool_size)))
  pub idle_of :
      (options.min_idle_conns ≡ cfg.min_idle_conns)
      ⊎ ((options.min_idle_conns ≡ 20) × ((cfg.min_idle_conns ≡ 0) ⊎ (2 ^ 63 ≤ cfg.min_idle_conns)))
  pub client : rdb b.redis ≡ some options
  pub noted : b.redis.cfg ≡ options
  pub pool : (0 < options.pool_size) × (options.pool_size < 2 ^ 63)
  pub idle : (0 < options.min_idle_conns) × (options.min_idle_conns < 2 ^ 63)
  pub checked :
      (health_tick true b.redis ≡ answering)
      × (health_tick false b.redis ≡ ping_failed options.addr)
  pub interval : 0 < b.health_interval
  pub size : 0 < b.max_envelope_size

-- When a process exits at its start, and what one that serves has.
abbrev pub Starts : {P : Type 0} → RedisConfig → Bool → Bool → P → ServerStartup P → Type 0
Starts cfg answered listens p s =
    ((s ≡ exited) × ((answered ≡ false) ⊎ (listens ≡ false)))
    ⊎ ((answered ≡ true) × (listens ≡ true) × ((b : Backend) × (s ≡ serving b p) × HasRedis cfg b))

interval-pos : (s : Setting) (n : ℕ) → 0 < n → 0 < if_positive s n
interval-pos (negative k) n pos = pos
interval-pos (natural k) n pos = ground (arith, pos)

positive_or-cases :
    (n default : ℕ)
    → (positive_or n default ≡ n) ⊎ ((positive_or n default ≡ default) × ((n ≡ 0) ⊎ (2 ^ 63 ≤ n)))
positive_or-cases n default = elim (Bool-cases (ltb 0 n && ltb n (2 ^ 63))) [
  | inl e ↦ inl (rw e refl)
  | inr e ↦ inr (rw e refl, ground (arith, e))
]

backend-HasRedis :
    (cfg : ServerConfig) → HasRedis cfg.redis (backend cfg (init_redis cfg.redis true no_redis).0)
unfolding init_redis rdb health_tick with_defaults health_interval set_max_envelope_size
backend-HasRedis cfg = record {
  options = with_defaults cfg.redis;
  same_addr = refl;
  same_password = refl;
  same_db = refl;
  pool_of = positive_or-cases cfg.redis.pool_size 200;
  idle_of = positive_or-cases cfg.redis.min_idle_conns 20;
  client = refl;
  noted = refl;
  pool = (ground arith, ground arith);
  idle = (ground arith, ground arith);
  checked = (refl, refl);
  interval = interval-pos (seconds cfg.health_check_sec) (10 * 1000000000) (omega arith);
  size = ground arith;
}

listened-Starts :
    {P : Type 0} (cfg : ServerConfig) (answered listens : Bool) (p : P)
    → Starts cfg.redis answered listens p
        (listened listens cfg p (init_redis cfg.redis answered no_redis))
unfolding listened init_redis
listened-Starts cfg false listens p = inl (refl, inl refl)
listened-Starts cfg true false p = inl (refl, inr refl)
listened-Starts cfg true true p =
    inr
      (refl, refl, (backend cfg (init_redis cfg.redis true no_redis).0, refl, backend-HasRedis cfg))

-- With whatever configuration was read, a game and a service process exit at their start exactly when
-- Redis does not answer or the address cannot be listened on; otherwise they serve, the one with no
-- players, the other with its two modules and its game router, and RDB is a client with the
-- configured address, password and database, and with the configured sizes of its pools where these
-- are positive, else 200 and 20.
pub start-HasRedis :
    {D : Type 0} (cfg : ServerConfig) (answered listens : Bool) (db : D)
    → Starts cfg.redis answered listens (new_player_manager db) (start_game cfg answered listens db)
      × Starts cfg.redis answered listens
          (service_registry, new_process db)
          (start_service cfg answered listens db)
unfolding start_game start_service registered service_registry
start-HasRedis cfg answered listens db =
    let (fine, fine', found) = get_handler-service_registry 0 in
    (
      listened-Starts cfg answered listens (new_player_manager db),
      rw (fine, fine') (listened-Starts cfg answered listens (service_registry, new_process db)),
    )
