-- ===== src/Service/Dispatch/Outcome.antt =====
-- What comes of an envelope in the service process.
pub mod Granting
pub mod Storing
use test_go_server.Prelude.{
  ℕ, ◌≡◌, ◌≢◌, refl, ap, sym, subst, ◌∙◌, [], ◌∷◌, ◌++◌, Option, none, some, Bool, true, false,
  ◌==◌, ◌&&◌, lookup, lookup-insert_self, if◌then◌else◌, is_empty, arith, leb, ltb,
}
use test_go_server.Protocol.{Bytes, Envelope}
use test_go_server.Router.{get_route}
use test_go_server.Service.NetServer.{GateConn, reply_to_gate, reply_env}
use test_go_server.Service.NetServer.Routing.{reply_to_gate-known}
use test_go_server.Service.Login.{LoginService, resolve_role_id}
use test_go_server.Service.Modules.{
  on_login, on_chat, get_handler, service_registry, get_handler-service_registry,
}
use test_go_server.Service.Dispatch.{
  LoginReq, Coder, Process, route_to_game, reply, reply_error, enter, log_in, checked, by_platform,
  login_request, run_handler, run_found, dispatch, is_for_game, dispatch_envelope, verify_token,
  invalid_token_text, unknown_platform_text, route_by, send_by,
}

for_game : (msg : ℕ) → is_for_game (get_route msg) ≡ leb 3000 msg && ltb msg 4000
unfolding is_for_game get_route
for_game msg = ground arith

-- The account that a login names.
abbrev pub account_of : LoginReq → Bytes
account_of req = if is_empty req.account_id then req.token else req.account_id

-- The envelope that tells the game of a login.
abbrev pub enter_env : ℕ → ℕ → Envelope
enter_env session id = record { msg_id = 3001; session_id = session; player_id = id; payload = [] }

module _ {D : Type 0} (x : Coder) (svc : LoginService D) where
  by_number :
      (a b : Bool) (env : Envelope) (p : Process D)
      → run_found x svc (if a then some on_login else if b then some on_chat else none) env p
        ≡ (if a then (run_handler x svc on_login env p).0 else p)
  unfolding run_found run_handler
  by_number true b env p = refl
  by_number false true env p = refl
  by_number false false env p = refl

  found :
      (env : Envelope) (p : Process D)
      → run_found x svc (get_handler env.msg_id service_registry) env p
        ≡ (if env.msg_id == 1001 then (run_handler x svc on_login env p).0 else p)
  found env p =
      let (fine, fine', here) = get_handler-service_registry env.msg_id in
      ap (λ o. run_found x svc o env p) here
      ∙ by_number (env.msg_id == 1001) (env.msg_id == 2001) env p

  -- With the modules of the service process, an envelope whose number is from 3000 to 3999 goes to
  -- the game; of the others a ping, 31, is answered with a pong on its session, a login request,
  -- 1001, is run by the login module, and any other leaves the process as it was.
  pub dispatch_envelope-cases :
      (env : Envelope) (p : Process D)
      → dispatch_envelope x svc service_registry env p ≡ (
          if leb 3000 env.msg_id && ltb env.msg_id 4000
          then (route_to_game env p).0
          else if env.msg_id == 31
          then (reply env.session_id 32 [] p).0
          else if env.msg_id == 1001
          then (run_handler x svc on_login env p).0
          else p)
  unfolding dispatch_envelope dispatch
  dispatch_envelope-cases env p = rw (for_game env.msg_id, found env p) refl

  as_login :
      (env : Envelope) (p : Process D)
      → env.msg_id ≡ 1001
      → dispatch_envelope x svc service_registry env p
        ≡ (login_request x svc env (x.unmarshal_login_req env.payload) p).0
  unfolding run_handler
  as_login env p msg = dispatch_envelope-cases env p ∙ ground (arith, msg)

  no_request : (env : Envelope) (p : Process D) → (login_request x svc env none p).0 ≡ p
  unfolding login_request
  no_request env p = refl

  not_test :
      (env : Envelope) (req : LoginReq) (p : Process D)
      → req.platform ≢ 0
      → (login_request x svc env (some req) p).0
        ≡ (reply env.session_id 21
            (if leb req.platform 3
              then x.marshal_error_rsp 1003
                  (if is_empty req.token then invalid_token_text else unknown_platform_text)
              else x.marshal_error_rsp 10005 unknown_platform_text)
            p).0
  unfolding login_request by_platform checked verify_token reply_error
  not_test env req p other = ground (arith, other)

  entering :
      (env : Envelope) (req : LoginReq) (id : ℕ) (old : Bool) (p : Process D)
      → req.platform ≡ 0
      → (resolve_role_id svc (account_of req) p.store).1 ≡ some (id, old)
      → (login_request x svc env (some req) p).0
        ≡ (enter x svc env ((resolve_role_id svc (account_of req) p.store).0, some (id, old)) p).0
  unfolding login_request by_platform log_in
  entering env req id old p test resolved =
      let r = resolve_role_id svc (account_of req) p.store in
      ground (arith, test) ∙ ap (λ o. (enter x svc env (r.0, o) p).0) resolved

  route_by-same :
      (o : Option ℕ) (env : Envelope) (p : Process D)
      → ((route_by o env p).0.net ≡ p.net) × ((route_by o env p).0.store ≡ p.store)
  unfolding route_by send_by
  route_by-same none env p = (refl, refl)
  route_by-same (some i) env p = (refl, refl)

  -- What an answered login leaves.
  pub record Entered (env : Envelope) (id gate : ℕ) (c : GateConn) (d : D) (p q : Process D)
      : Type 0 where
    pub stored : q.store ≡ d
    pub told :
        q.routers ≡ (route_to_game (enter_env env.session_id id) (record p { store = d })).0.routers
    pub answered :
        lookup gate q.net.gate_conns
        ≡ some (record c {
          written = c.written ++ reply_env env.session_id 1002 (x.marshal_login_rsp id) ∷ [];
        })

  entered :
      (env : Envelope) (id gate : ℕ) (old : Bool) (c : GateConn) (d : D) (p : Process D)
      → lookup env.session_id p.net.session_gate ≡ some gate
      → lookup gate p.net.gate_conns ≡ some c
      → c.up ≡ true
      → Entered env id gate c d p (enter x svc env (d, some (id, old)) p).0
  unfolding enter reply route_to_game
  entered env id gate old c d p at_gate conn up =
      let msg = x.marshal_login_rsp id in
      let (same_net, same_store) =
        route_by-same p.game_router (enter_env env.session_id id) (record p { store = d }) in
      record {
        stored = same_store;
        told = refl;
        answered =
            ap (λ n. lookup gate (reply_to_gate env.session_id 1002 msg n).0.gate_conns) same_net
            ∙ ap (λ r. lookup gate r.0.gate_conns)
                (reply_to_gate-known env.session_id gate 1002 msg c p.net at_gate conn up)
            ∙ lookup-insert_self gate _ p.net.gate_conns;
      }

  -- A login on the test platform, of an account that has a role ID or gets one, stores what the
  -- resolution of the ID did, sends the game the enter-game request of the session's player, and
  -- answers with the ID on the connection of the gate that the session is on, which is up.
  pub dispatch_envelope-Entered :
      (env : Envelope) (req : LoginReq) (id gate : ℕ) (old : Bool) (c : GateConn) (p : Process D)
      → env.msg_id ≡ 1001
      → x.unmarshal_login_req env.payload ≡ some req
      → req.platform ≡ 0
      → (resolve_role_id svc (account_of req) p.store).1 ≡ some (id, old)
      → lookup env.session_id p.net.session_gate ≡ some gate
      → lookup gate p.net.gate_conns ≡ some c
      → c.up ≡ true
      → Entered env id gate c
          (resolve_role_id svc (account_of req) p.store).0
          p
          (dispatch_envelope x svc service_registry env p)
  dispatch_envelope-Entered env req id gate old c p msg decoded test resolved at_gate conn up =
      let d = (resolve_role_id svc (account_of req) p.store).0 in
      let e =
        as_login env p msg
        ∙ ap (λ o. (login_request x svc env o p).0) decoded
        ∙ entering env req id old p test resolved in
      subst (Entered env id gate c d p) (sym e) (entered env id gate old c d p at_gate conn up)

  -- A login request on another platform changes neither the database nor what goes to the game: the
  -- session is answered with an error, "unknown platform" for a platform that has no number up to 3,
  -- and "invalid token" otherwise, which says that the token is empty or, after all, that the
  -- platform is unknown.  A payload that is no login request changes nothing.
  pub dispatch_envelope-refuses :
      (env : Envelope) (p : Process D)
      → env.msg_id ≡ 1001
      → ((x.unmarshal_login_req env.payload ≡ none)
          → dispatch_envelope x svc service_registry env p ≡ p)
        × ((req : LoginReq)
            → x.unmarshal_login_req env.payload ≡ some req
            → req.platform ≢ 0
            → dispatch_envelope x svc service_registry env p
              ≡ (reply env.session_id 21
                  (if leb req.platform 3
                    then x.marshal_error_rsp 1003
                        (if is_empty req.token then invalid_token_text else unknown_platform_text)
                    else x.marshal_error_rsp 10005 unknown_platform_text)
                  p).0)
  dispatch_envelope-refuses env p msg =
      let e = as_login env p msg in
      (
        (λ bad. e ∙ ap (λ o. (login_request x svc env o p).0) bad ∙ no_request env p),
        λ req decoded other.
            e ∙ ap (λ o. (login_request x svc env o p).0) decoded ∙ not_test env req p other,
      )
