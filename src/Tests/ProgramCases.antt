-- ===== src/Tests/ProgramCases.antt =====
-- A gate that is configured for websockets alone, with a size of the pool of -1.
use test_go_server.Prelude.{◌-◌, ◌^◌, [], ◌∷◌, true, false, not, is_empty}
use test_go_server.Programs.{GateConfig, Host}
use test_go_server.Programs.Ready
use test_go_server.Programs.Servers.{ServerConfig, new_process, start_game, start_service}
use test_go_server.Programs.Servers.Serving.{Starts, start-HasRedis}
use test_go_server.Game.Manager.{new_player_manager}
use test_go_server.Service.Modules.{service_registry}
use test_go_server.Tests.RedisCases.{empty_db}

abbrev ws_config : GateConfig
ws_config = record {
  websocket_listen_addr = b':' ∷ b'9' ∷ [];
  websocket_path = [];
  enable_tcp = false;
  enable_websocket = true;
  service_pool_size = 2 ^ 64 - 1;
  heartbeat_interval_sec = 10;
  heartbeat_timeout_sec = 30;
  gc_interval_sec = 60;
  login_timeout_sec = 0;
  login_rate_limit_count = 2 ^ 64 - 5;
  login_rate_limit_window = 10;
  unknown_msg_kick_count = 3;
  max_envelope_size = 0;
}

abbrev host : Host
host = record {
  max_make = 2 ^ 45;
  tcp_listens = false;
  takes_pattern = λ path. not (is_empty path);
  ws_listens = true;
}

-- A server with no setting for Redis but the address, and a health check of -5 seconds.
abbrev server_config : ServerConfig
server_config = record {
  max_envelope_size = 0;
  redis = record {
    addr = b':' ∷ b'6' ∷ [];
    password = [];
    db = 0;
    pool_size = 0;
    min_idle_conns = 0;
  };
  health_check_sec = 2 ^ 64 - 5;
}

start-HasRedis_example :
    Starts server_config.redis true true
      (new_player_manager empty_db)
      (start_game server_config true true empty_db)
    × Starts server_config.redis true true
        (service_registry, new_process empty_db)
        (start_service server_config true true empty_db)
start-HasRedis_example = start-HasRedis server_config true true empty_db
