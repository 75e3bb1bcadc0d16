-- ===== src/Service/Dispatch.antt =====
-- internal/service: what the service process does with an envelope, from netserver.go's
-- dispatchEnvelope through dispatcher.go to the handlers of the modules, and on to the game process.
pub mod Keeps
pub mod Routes
pub mod Telling
pub mod Outcome
use test_go_server.Prelude.{
  ℕ, List, [], ◌∷◌, Option, none, some, Bool, true, false, ◌==◌, ◌&&◌, ◌||◌, not, lookup, insert,
  delete, if◌then◌else◌, is_empty,
}
use test_go_server.Protocol.{
  Bytes, Envelope, Error, invalid_token, unknown_platform, remote_not_ready, msg_error_rsp,
  msg_login_rsp, msg_service_ping, msg_service_pong, msg_player_enter_game_req,
  msg_player_offline_notify,
}
use test_go_server.Reconnect.{Wake, Connector, connect_turn}
use test_go_server.Router.{Target, service, game, db, RouteRule, get_route}
use test_go_server.Service.NetServer.{NetServer, reply_to_gate}
use test_go_server.Service.GameRouter.{GameRouter, send}
use test_go_server.Service.Login.{LoginService, resolve_role_id}
use test_go_server.Service.Modules.{HandlerFunc, on_login, on_chat, ModuleRegistry, get_handler}

pub record LoginReq : Type 0 where
  pub account_id : Bytes
  pub token : Bytes
  pub platform : ℕ  -- int32

-- The protobuf coding; Marshal's error is ignored, so what it gives is bytes.
pub record Coder : Type 0 where
  pub unmarshal_login_req : Bytes → Option LoginReq
  pub marshal_login_rsp : ℕ → Bytes
  pub marshal_error_rsp : ℕ → Bytes → Bytes

-- The NetServer with its other fields gameRouter and playerRoute, which hold references to routers,
-- and what it acts on: the routers and the database.
pub record Process (D : Type 0) : Type 0 where
  pub net : NetServer
  pub game_router : Option ℕ
  pub player_route : List (ℕ × ℕ)
  pub routers : ℕ → GameRouter
  pub store : D

-- Why a handler gave an error, which is only logged.
pub data Failure : Type 0 where
  bad_payload store_failed : Failure
  failed : Error → Failure

abbrev failure_of : Option Error → Option Failure
failure_of none = none
failure_of (some e) = some (failed e)

abbrev pub platform_test : ℕ
platform_test = 0

abbrev pub platform_android : ℕ
platform_android = 1

abbrev pub platform_ios : ℕ
platform_ios = 2

abbrev pub platform_pc : ℕ
platform_pc = 3

abbrev pub err_invalid_token : ℕ
err_invalid_token = 1003

abbrev pub err_unknown_platform : ℕ
err_unknown_platform = 10005

abbrev pub invalid_token_text : Bytes
invalid_token_text =
    b'i' ∷ b'n' ∷ b'v' ∷ b'a' ∷ b'l' ∷ b'i' ∷ b'd' ∷ b' ' ∷ b't' ∷ b'o' ∷ b'k' ∷ b'e' ∷ b'n' ∷ []

abbrev pub unknown_platform_text : Bytes
unknown_platform_text =
    b'u' ∷ b'n' ∷ b'k' ∷ b'n' ∷ b'o' ∷ b'w' ∷ b'n' ∷ b' ' ∷ b'p' ∷ b'l' ∷ b'a' ∷ b't' ∷ b'f' ∷ b'o'
    ∷ b'r' ∷ b'm' ∷ []

-- Module.verifyToken: the text of its error.
unfoldable pub verify_token : ℕ → Bytes → Option Bytes
verify_token platform token =
    if is_empty token
    then some invalid_token_text
    else if platform == platform_test
    then none
    else some unknown_platform_text

is_for_game : Option RouteRule → Bool
is_for_game none = false
is_for_game (some rule) = elim rule.target [ service ↦ false | game ↦ true | db ↦ false ]

set_router : ℕ → GameRouter → (ℕ → GameRouter) → ℕ → GameRouter
set_router i r routers j = if j == i then r else routers j

-- Which router an envelope of a player goes to, and the table afterwards.
choose_route : ℕ → Option ℕ → ℕ → List (ℕ × ℕ) → ℕ × List (ℕ × ℕ)
choose_route player none i routes = (i, insert player i routes)
choose_route player (some r) i routes = (r, routes)

forget_route : Envelope → List (ℕ × ℕ) → List (ℕ × ℕ)
forget_route env routes =
    if not (env.player_id == 0) && env.msg_id == msg_player_offline_notify
    then delete env.player_id routes
    else routes

module _ {D : Type 0} where
  send_by : Envelope → ℕ × List (ℕ × ℕ) → Process D → Process D × Option Error
  unfolding forget_route set_router
  send_by env (i, routes) p =
      let (r, err) = send env (p.routers i) in
      (record p { routers = set_router i r p.routers; player_route = forget_route env routes }, err)

  route_by : Option ℕ → Envelope → Process D → Process D × Option Error
  unfolding send_by choose_route
  route_by none env p = (p, some remote_not_ready)
  route_by (some i) env p =
      send_by env
        (if env.player_id == 0
          then (i, p.player_route)
          else choose_route env.player_id (lookup env.player_id p.player_route) i p.player_route)
        p

  -- NetServer.routeToGame
  unfoldable pub route_to_game : Envelope → Process D → Process D × Option Error
  unfolding route_by
  route_to_game env p = route_by p.game_router env p

  -- Context.Reply of an envelope, and Context.Push.
  unfoldable pub reply : ℕ → ℕ → Bytes → Process D → Process D × Option Error
  reply session msg payload p =
      let (net, err) = reply_to_gate session msg payload p.net in (record p { net = net }, err)

module _ {D : Type 0} (x : Coder) (svc : LoginService D) where
  -- makeReplyError
  unfoldable pub reply_error : ℕ → ℕ → Bytes → Process D → Process D × Option Failure
  unfolding reply
  reply_error session code text p =
      let (q, err) = reply session msg_error_rsp (x.marshal_error_rsp code text) p in
      (q, failure_of err)

  -- The end of onLogin, for the ID of the account.
  enter : Envelope → D × Option (ℕ × Bool) → Process D → Process D × Option Failure
  unfolding reply route_to_game
  enter env (d, none) p = (record p { store = d }, some store_failed)
  enter env (d, some (id, old)) p =
      let note : Envelope = record {
        msg_id = msg_player_enter_game_req;
        session_id = env.session_id;
        player_id = id;
        payload = [];
      } in
      let p1 = (route_to_game note (record p { store = d })).0 in
      let (p2, err) = reply env.session_id msg_login_rsp (x.marshal_login_rsp id) p1 in
      (p2, failure_of err)

  log_in : Envelope → LoginReq → Process D → Process D × Option Failure
  unfolding enter
  log_in env req p =
      let account = if is_empty req.account_id then req.token else req.account_id in
      enter env (resolve_role_id svc account p.store) p

  checked : Envelope → LoginReq → Option Bytes → Process D → Process D × Option Failure
  unfolding log_in reply_error
  checked env req none p = log_in env req p
  checked env req (some text) p = reply_error env.session_id err_invalid_token text p

  by_platform : Envelope → LoginReq → Process D → Process D × Option Failure
  unfolding checked verify_token
  by_platform env req p =
      if req.platform == platform_test
      then log_in env req p
      else if req.platform == platform_android
          || req.platform == platform_ios
          || req.platform == platform_pc
      then checked env req (verify_token req.platform req.token) p
      else reply_error env.session_id err_unknown_platform unknown_platform_text p

  login_request : Envelope → Option LoginReq → Process D → Process D × Option Failure
  unfolding by_platform
  login_request env none p = (p, some bad_payload)
  login_request env (some req) p = by_platform env req p

  -- A handler of a module: Module.onLogin of login, Module.onChat of chat.
  unfoldable pub run_handler : HandlerFunc → Envelope → Process D → Process D × Option Failure
  unfolding login_request
  run_handler on_login env p = login_request env (x.unmarshal_login_req env.payload) p
  run_handler on_chat env p = (p, none)

  run_found : Option HandlerFunc → Envelope → Process D → Process D
  unfolding run_handler
  run_found none env p = p
  run_found (some h) env p = (run_handler h env p).0

  -- Dispatcher.Dispatch
  unfoldable pub dispatch : ModuleRegistry → Envelope → Process D → Process D
  unfolding run_found reply get_handler
  dispatch reg env p =
      if env.msg_id == msg_service_ping
      then (reply env.session_id msg_service_pong [] p).0
      else run_found (get_handler env.msg_id reg) env p

  -- NetServer.dispatchEnvelope
  unfoldable pub dispatch_envelope : ModuleRegistry → Envelope → Process D → Process D
  unfolding dispatch is_for_game get_route
  dispatch_envelope reg env p =
      if is_for_game (get_route env.msg_id) then (route_to_game env p).0 else dispatch reg env p

  unfoldable pub dispatch_envelopes : ModuleRegistry → List Envelope → Process D → Process D
  dispatch_envelopes reg [] p = p
  dispatch_envelopes reg (env ∷ es) p = dispatch_envelopes reg es (dispatch_envelope reg env p)

-- NetServer.ForwardToGate
unfoldable pub forward_to_gate : Envelope → NetServer → NetServer × Option Error
forward_to_gate env n = reply_to_gate env.session_id env.msg_id env.payload n

-- connectLoop of the game router: its envelopes go to the gates.
unfoldable pub connect_router : Wake → Connector NetServer → Connector NetServer
unfolding forward_to_gate connect_turn
connect_router o c = connect_turn (λ env n. (forward_to_gate env n).0) o c
