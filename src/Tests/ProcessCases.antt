-- ===== src/Tests/ProcessCases.antt =====
-- A service process with one gate and one game router, over the database of texts.
use test_go_server.Prelude.{
  arith, ◌+◌, ◌≡◌, ◌≢◌, refl, List, [], ◌∷◌, ◌++◌, Option, none, some, true, false, ◌==◌, ◌&&◌,
  if◌then◌else◌, leb, ltb, is_empty, replicate,
}
use test_go_server.Protocol.{Bytes, Envelope}
use test_go_server.Service.NetServer.{NetServer, GateConn}
use test_go_server.Service.GameRouter.{new_game_router, GameRouter, write_turns}
use test_go_server.Reconnect.{Connector, accepted, ended, refused, connect_turns}
use test_go_server.Reconnect.Waiting.{wait, backoff_after, arrivals, fold_peer, connect_turns-wait}
use test_go_server.Service.GameRouter.Draining.{Drained, write_turns-Drained}
use test_go_server.Service.Login.{LoginService, resolve_role_id}
use test_go_server.Service.Modules.{service_registry, on_login}
use test_go_server.Service.Dispatch.{
  Coder, LoginReq, Process, route_to_game, reply, run_handler, dispatch_envelope,
  dispatch_envelopes, invalid_token_text, unknown_platform_text,
}
use test_go_server.Service.Dispatch.Routes.{direct, route_to_game-direct}
use test_go_server.Service.Dispatch.Outcome.{
  account_of, dispatch_envelope-cases, dispatch_envelope-refuses,
}
use test_go_server.Redis.Dao
use test_go_server.Gate.State.{down}
use test_go_server.PlayerDb.{redis_login, load_role_id, save_role_id, save_profile}
use test_go_server.Tests.RedisCases.{Texts, toy_client, toy_json, empty_db}

abbrev pub request : LoginReq
request = record { account_id = b'x' ∷ []; token = []; platform = 0 }

-- The account of a login is its payload, on the test platform, or on platform 7 without one.
abbrev pub toy_request : Bytes → Option LoginReq
toy_request [] = some (record { account_id = []; token = b't' ∷ []; platform = 7 })
toy_request (c ∷ s) = some (record { account_id = c ∷ s; token = []; platform = 0 })

abbrev pub toy_coder : Coder
toy_coder = record {
  unmarshal_login_req = toy_request;
  marshal_login_rsp = λ id. id ∷ [];
  marshal_error_rsp = λ code text. code ∷ text;
}

abbrev pub gate_conn : GateConn
gate_conn = record { written = []; up = true }

abbrev pub toy_net : NetServer
toy_net = record { gate_conns = (1, gate_conn) ∷ []; next_gate_id = 1; session_gate = (5, 1) ∷ [] }

abbrev pub toy_process : Process Texts
toy_process = record {
  net = toy_net;
  game_router = some 0;
  player_route = [];
  routers = λ i. new_game_router 2;
  store = empty_db;
}

abbrev pub toy_login : LoginService Texts
toy_login = redis_login toy_client toy_json

abbrev pub login_env : Envelope
login_env = record { msg_id = 1001; session_id = 5; player_id = 0; payload = b'x' ∷ [] }

abbrev refused_env : Envelope
refused_env = record { msg_id = 1001; session_id = 5; player_id = 0; payload = [] }

abbrev game_env : Envelope
game_env = record { msg_id = 3003; session_id = 5; player_id = 1; payload = [] }

pub first_id : (resolve_role_id toy_login (account_of request) empty_db).1 ≡ some (1, false)
unfolding resolve_role_id load_role_id test_go_server.Redis.Dao.next_uid save_role_id save_profile
first_id = refl

dispatch_envelope-cases_example :
    dispatch_envelope toy_coder toy_login service_registry game_env toy_process ≡ (
      if leb 3000 3003 && ltb 3003 4000
      then (route_to_game game_env toy_process).0
      else if 3003 == 31
      then (reply 5 32 [] toy_process).0
      else if 3003 == 1001
      then (run_handler toy_coder toy_login on_login game_env toy_process).0
      else toy_process)
dispatch_envelope-cases_example = dispatch_envelope-cases toy_coder toy_login game_env toy_process

dispatch_envelope-refuses_example :
    ((toy_request [] ≡ none)
      → dispatch_envelope toy_coder toy_login service_registry refused_env toy_process
        ≡ toy_process)
    × ((req : LoginReq)
        → toy_request [] ≡ some req
        → req.platform ≢ 0
        → dispatch_envelope toy_coder toy_login service_registry refused_env toy_process
          ≡ (reply 5 21
              (if leb req.platform 3
                then 1003
                  ∷ (if is_empty req.token then invalid_token_text else unknown_platform_text)
                else 10005 ∷ unknown_platform_text)
              toy_process).0)
dispatch_envelope-refuses_example =
    dispatch_envelope-refuses toy_coder toy_login refused_env toy_process refl

abbrev offline_env : Envelope
offline_env = record { msg_id = 3006; session_id = 5; player_id = 1; payload = [] }

abbrev envelopes : List Envelope
envelopes = login_env ∷ game_env ∷ offline_env ∷ []

route_to_game-direct_example :
    let q = dispatch_envelopes toy_coder toy_login service_registry envelopes toy_process in
    ((route_to_game game_env q).0.routers, (route_to_game game_env q).1)
    ≡ direct (some 0) game_env q.routers
route_to_game-direct_example =
    route_to_game-direct toy_coder toy_login service_registry envelopes game_env toy_process refl

-- The connection gathers what it gives.
abbrev toy_connector : Connector (List Envelope)
toy_connector = record { backoff = 8; slept = 0; link = down; peer = [] }

abbrev gather : Envelope → List Envelope → List Envelope
gather env seen = seen ++ env ∷ []

connect_turns-wait_example :
    let d =
      connect_turns gather
        (accepted ∷ (arrivals (game_env ∷ []) ++ ended ∷ replicate 5 refused))
        toy_connector in
    (d.slept ≡ toy_connector.slept + wait 5)
    × (d.backoff ≡ backoff_after 5)
    × (d.link ≡ down)
    × (d.peer ≡ fold_peer gather (game_env ∷ []) toy_connector.peer)
connect_turns-wait_example = connect_turns-wait gather (game_env ∷ []) 5 toy_connector

-- Two messages wait, and there is no connection.
abbrev waiting : GameRouter
waiting = record (new_game_router 2) { send_ch = game_env ∷ offline_env ∷ [] }

write_turns-Drained_example :
    Drained down (game_env ∷ offline_env ∷ []) waiting (write_turns 2 waiting)
unfolding new_game_router
write_turns-Drained_example = write_turns-Drained waiting (omega arith)
