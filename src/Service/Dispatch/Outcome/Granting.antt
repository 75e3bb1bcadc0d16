-- ===== src/Service/Dispatch/Outcome/Granting.antt =====
-- A login is answered for the player of the account that it names, and no other envelope is.
use test_go_server.Prelude.{
  ℕ, ◌≡◌, refl, sym, subst, [], Option, none, some, Bool, true, ◌==◌, arith, Bool-cases, ◌&&◌, leb,
  ltb, ==_iff, inl, inr,
}
use test_go_server.Protocol.{Bytes, Envelope, msg_login_req, msg_login_rsp}
use test_go_server.Service.NetServer.Granting.{Grant, Granted, reply_to_gate-Granted}
use test_go_server.Service.Login.{LoginService, resolve_role_id}
use test_go_server.Service.Modules.{service_registry}
use test_go_server.Service.Dispatch.{
  LoginReq, Coder, Process, route_to_game, reply, enter, log_in, by_platform, login_request,
  run_handler, dispatch_envelope, platform_test,
}
use test_go_server.Service.Dispatch.Outcome.{
  account_of, enter_env, dispatch_envelope-cases, no_request, not_test, route_by-same,
}

-- The envelope is a login request, on the test platform, of an account that has the player or gets it.
pub record LogsIn {D : Type 0} (x : Coder) (svc : LoginService D) (env : Envelope) (d : D)
    (player : ℕ) : Type 0 where
  pub request : LoginReq
  pub old : Bool
  pub number : env.msg_id ≡ msg_login_req
  pub decoded : x.unmarshal_login_req env.payload ≡ some request
  pub test : request.platform ≡ platform_test
  pub resolved : (resolve_role_id svc (account_of request) d).1 ≡ some (player, old)

module _ {D : Type 0} (x : Coder) (svc : LoginService D) {K : ℕ → ℕ → Type 0} where
  routed-Granted :
      (env : Envelope) (p : Process D)
      → Granted x.marshal_login_rsp K p.net
      → Granted x.marshal_login_rsp K (route_to_game env p).0.net
  unfolding route_to_game
  routed-Granted env p v =
      subst (Granted x.marshal_login_rsp K) (sym (route_by-same x svc p.game_router env p).0) v

  replied-Granted :
      (session msg : ℕ) (payload : Bytes) (p : Process D)
      → Grant x.marshal_login_rsp K session msg payload
      → Granted x.marshal_login_rsp K p.net
      → Granted x.marshal_login_rsp K (reply session msg payload p).0.net
  unfolding reply
  replied-Granted session msg payload p grant v =
      reply_to_gate-Granted session msg payload p.net grant v

  enter-Granted :
      (env : Envelope) (r : D × Option (ℕ × Bool)) (p : Process D)
      → ((player : ℕ) (old : Bool) → r.1 ≡ some (player, old) → K env.session_id player)
      → Granted x.marshal_login_rsp K p.net
      → Granted x.marshal_login_rsp K (enter x svc env r p).0.net
  unfolding enter
  enter-Granted env (d, none) p grant v = v
  enter-Granted env (d, some (id, old)) p grant v =
      let note = enter_env env.session_id id in
      let p1 = (route_to_game note (record p { store = d })).0 in
      replied-Granted env.session_id msg_login_rsp (x.marshal_login_rsp id) p1
        (λ _. (id, refl, grant id old refl)) (routed-Granted note (record p { store = d }) v)

  request-Granted :
      (env : Envelope) (o : Option LoginReq) (p : Process D)
      → x.unmarshal_login_req env.payload ≡ o
      → env.msg_id ≡ msg_login_req
      → ((player : ℕ) → LogsIn x svc env p.store player → K env.session_id player)
      → Granted x.marshal_login_rsp K p.net
      → Granted x.marshal_login_rsp K (login_request x svc env o p).0.net
  unfolding login_request by_platform log_in
  request-Granted env none p e msg grant v = rw (no_request x svc env p) v
  request-Granted env (some req) p e msg grant v =
      elim (Bool-cases (req.platform == platform_test)) [
        | inl t ↦
            let test = (==_iff req.platform platform_test).0 t in
            rw (on_test env req p t) (
              enter-Granted env (resolve_role_id svc (account_of req) p.store) p
                (λ player old r. grant player (record {
                  request = req;
                  old = old;
                  number = msg;
                  decoded = e;
                  test = test;
                  resolved = r;
                }))
                v)
        | inr f ↦
            rw (not_test x svc env req p (λ z. ground (arith, f, z)))
              (replied-Granted env.session_id 21 _ p (λ z. absurd (ground (arith, z))) v)
      ]
    where
      on_test :
          (env : Envelope) (req : LoginReq) (p : Process D)
          → (req.platform == platform_test) ≡ true
          → (login_request x svc env (some req) p).0
            ≡ (enter x svc env (resolve_role_id svc (account_of req) p.store) p).0
      on_test env req p t = rw t refl

  -- An envelope adds no answer to a login but that of a login request, whose player it names.
  pub dispatch_envelope-Granted :
      (env : Envelope) (p : Process D)
      → ((player : ℕ) → LogsIn x svc env p.store player → K env.session_id player)
      → Granted x.marshal_login_rsp K p.net
      → Granted x.marshal_login_rsp K (dispatch_envelope x svc service_registry env p).net
  dispatch_envelope-Granted env p grant v =
      rw (dispatch_envelope-cases x svc env p)
        (elim (Bool-cases (leb 3000 env.msg_id && ltb env.msg_id 4000)) [
          | inl e ↦ rw e (routed-Granted env p v)
          | inr e ↦ rw e (elim (Bool-cases (env.msg_id == 31)) [
            | inl f ↦
                rw f (replied-Granted env.session_id 32 [] p (λ z. absurd (ground (arith, z))) v)
            | inr f ↦ rw f (elim (Bool-cases (env.msg_id == 1001)) [
              | inl m ↦ rw m (
                  unfold run_handler in
                  request-Granted env (x.unmarshal_login_req env.payload) p refl
                    ((==_iff env.msg_id 1001).0 m) grant v)
              | inr m ↦ rw m v
            ])
          ])
        ])
