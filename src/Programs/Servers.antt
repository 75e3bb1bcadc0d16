-- ===== src/Programs/Servers.antt =====
-- cmd/service/main.go and cmd/game/main.go: how a service or a game process starts from its
-- configuration, when that was read.  Whether Redis answers the first ping, and whether the address
-- can be listened on, are parameters.
pub mod Serving
use test_go_server.Prelude.{
  ℕ, ◌*◌, List, [], Option, none, some, Bool, true, false, ltb, if◌then◌else◌,
}
use test_go_server.Protocol.{Bytes}
use test_go_server.Transport.{default_max_envelope_size, set_max_envelope_size}
use test_go_server.Gate.System.{Setting, if_positive}
use test_go_server.Redis.Connection.{RedisConfig, RedisVars, no_redis, init_redis}
use test_go_server.Service.NetServer.{new_net_server}
use test_go_server.Service.GameRouter.{new_game_router}
use test_go_server.Service.Modules.{
  RegisterError, ModuleRegistry, new_registry, register_module, login_module, chat_module,
}
use test_go_server.Service.Dispatch.{Process}
use test_go_server.Game.Manager.{PlayerManager, new_player_manager}
use test_go_server.Programs.{seconds}

-- ServiceConfig and GameConfig, as far as the starts read them.
pub record ServerConfig : Type 0 where
  pub max_envelope_size : ℕ  -- uint32
  pub redis : RedisConfig
  pub health_check_sec : ℕ

-- What both processes have set up before they listen.  NewTicker panics at an interval that is not
-- positive.
pub record Backend : Type 0 where
  pub redis : RedisVars
  pub max_envelope_size : ℕ
  pub health_interval : ℕ

pub data ServerStartup (P : Type 0) : Type 0 where
  exited : ServerStartup P
  serving : Backend → P → ServerStartup P

-- StartHealthCheck: an interval that is not positive is ten seconds.
unfoldable pub health_interval : ℕ → ℕ
health_interval sec = if_positive (seconds sec) (10 * 1000000000)

abbrev pub backend : ServerConfig → RedisVars → Backend
backend cfg v = record {
  redis = v;
  max_envelope_size =
      if ltb 0 cfg.max_envelope_size
      then set_max_envelope_size cfg.max_envelope_size
      else default_max_envelope_size;
  health_interval = health_interval cfg.health_check_sec;
}

listened : {P : Type 0} → Bool → ServerConfig → P → RedisVars × Bool → ServerStartup P
listened listens cfg p (v, false) = exited
listened listens cfg p (v, true) = if listens then serving (backend cfg v) p else exited

-- main of the game process.
unfoldable pub start_game :
    {D : Type 0} → ServerConfig → Bool → Bool → D → ServerStartup (PlayerManager D)
unfolding listened new_player_manager
start_game cfg answered listens db =
    listened listens cfg (new_player_manager db) (init_redis cfg.redis answered no_redis)

-- The service process as main sets it up, with the one game router.
abbrev pub new_process : {D : Type 0} → D → Process D
new_process db = record {
  net = new_net_server;
  game_router = some 0;
  player_route = [];
  routers = λ i. new_game_router 2;
  store = db;
}

-- The registration of the modules, of which an error ends the process.
registered :
    {P : Type 0} → Option RegisterError → Option RegisterError → ServerStartup P → ServerStartup P
registered none none s = s
registered none (some e) s = exited
registered (some e) second s = exited

-- main of the service process.
unfoldable pub start_service :
    {D : Type 0} → ServerConfig → Bool → Bool → D → ServerStartup (ModuleRegistry × Process D)
unfolding listened registered
start_service cfg answered listens db =
    let (r1, e1) = register_module login_module new_registry in
    let (r2, e2) = register_module chat_module r1 in
    let r = init_redis cfg.redis answered no_redis in
    registered e1 e2 (listened listens cfg (r2, new_process db) r)
