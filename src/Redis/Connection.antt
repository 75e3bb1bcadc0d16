-- ===== src/Redis/Connection.antt =====
-- internal/db/redis_tools/redis_client.go: the one client of a process.  A client is known by the
-- options it was made with; whether the server answers a ping is a parameter.
use test_go_server.Prelude.{
  ℕ, ◌^◌, Option, none, some, Bool, true, false, [], ◌&&◌, ltb, if◌then◌else◌,
}
use test_go_server.Protocol.{Bytes}

-- An int is a bit pattern of 64 bits.
pub record RedisConfig : Type 0 where
  pub addr : Bytes
  pub password : Bytes
  pub db : ℕ
  pub pool_size : ℕ
  pub min_idle_conns : ℕ

-- The package variables redisClient and redisCfg.
pub record RedisVars : Type 0 where
  pub client : Option RedisConfig
  pub cfg : RedisConfig

abbrev pub no_config : RedisConfig
no_config = record { addr = []; password = []; db = 0; pool_size = 0; min_idle_conns = 0 }

-- The variables at the start of a process.
abbrev pub no_redis : RedisVars
no_redis = record { client = none; cfg = no_config }

abbrev pub positive_or : ℕ → ℕ → ℕ
positive_or n default = if ltb 0 n && ltb n (2 ^ 63) then n else default

-- The two defaults of InitRedis.
unfoldable pub with_defaults : RedisConfig → RedisConfig
with_defaults cfg = record cfg {
  pool_size = positive_or cfg.pool_size 200;
  min_idle_conns = positive_or cfg.min_idle_conns 20;
}

-- InitRedis, when the new client's ping is answered or not; false is an error.
unfoldable pub init_redis : RedisConfig → Bool → RedisVars → RedisVars × Bool
unfolding with_defaults
init_redis cfg answered v =
    if answered
    then (record { client = some (with_defaults cfg); cfg = with_defaults cfg }, true)
    else (v, false)

-- RDB
unfoldable pub rdb : RedisVars → Option RedisConfig
rdb v = v.client

-- What a tick of StartHealthCheck finds; it is only logged.
pub data Health : Type 0 where
  not_initialized answering : Health
  ping_failed : Bytes → Health

unfoldable pub health_tick : Bool → RedisVars → Health
unfolding rdb
health_tick answered v = elim (rdb v) [
  | none ↦ not_initialized
  | some client ↦ if answered then answering else ping_failed v.cfg.addr
]
