-- ===== src/Service/Dispatch/Outcome/Storing.antt =====
-- What an envelope does to the database of the service.
use test_go_server.Prelude.{
  ℕ, ◌≡◌, refl, ap, sym, subst, ◌∙◌, ◌⊎◌, inl, inr, Option, none, some, Bool, true, ◌==◌, arith,
  Bool-cases, ◌&&◌, leb, ltb, ==_iff,
}
use test_go_server.Protocol.{Bytes, Envelope}
use test_go_server.Service.Login.{LoginService, resolve_role_id}
use test_go_server.Service.Modules.{service_registry}
use test_go_server.Service.Dispatch.{
  LoginReq, Coder, Process, route_to_game, reply, enter, log_in, by_platform, login_request,
  run_handler, dispatch_envelope, platform_test,
}
use test_go_server.Service.Dispatch.Outcome.{
  account_of, enter_env, dispatch_envelope-cases, as_login, no_request, not_test, route_by-same,
}
use test_go_server.Service.Dispatch.Outcome.Granting.{LogsIn}

module _ {D : Type 0} (x : Coder) (svc : LoginService D) where
  -- The database is as it was, or as the resolution of one account leaves it.
  Stored : D → D → Type 0
  Stored d d' = (d' ≡ d) ⊎ ((account : Bytes) × (d' ≡ (resolve_role_id svc account d).0))

  routed-store : (env : Envelope) (p : Process D) → (route_to_game env p).0.store ≡ p.store
  unfolding route_to_game
  routed-store env p = (route_by-same x svc p.game_router env p).1

  enter-store :
      (env : Envelope) (r : D × Option (ℕ × Bool)) (p : Process D)
      → (enter x svc env r p).0.store ≡ r.0
  unfolding enter reply
  enter-store env (d, none) p = refl
  enter-store env (d, some (id, old)) p =
      routed-store (enter_env env.session_id id) (record p { store = d })

  on_test :
      (env : Envelope) (req : LoginReq) (p : Process D)
      → (req.platform == platform_test) ≡ true
      → (login_request x svc env (some req) p).0.store
        ≡ (resolve_role_id svc (account_of req) p.store).0
  unfolding login_request by_platform log_in
  on_test env req p t = rw t (enter-store env (resolve_role_id svc (account_of req) p.store) p)

  request-Stored :
      (env : Envelope) (o : Option LoginReq) (p : Process D)
      → Stored p.store (login_request x svc env o p).0.store
  unfolding Stored reply
  request-Stored env none p = inl (ap (λ q. q.store) (no_request x svc env p))
  request-Stored env (some req) p = elim (Bool-cases (req.platform == platform_test)) [
    | inl t ↦ inr (account_of req, on_test env req p t)
    | inr f ↦ inl (ap (λ q. q.store) (not_test x svc env req p (λ z. ground (arith, f, z))))
  ]

  -- A login request on the test platform leaves the database as the resolution of its account does.
  pub dispatch_envelope-LogsIn :
      (env : Envelope) (player : ℕ) (p : Process D) (l : LogsIn x svc env p.store player)
      → (dispatch_envelope x svc service_registry env p).store
        ≡ (resolve_role_id svc (account_of l.request) p.store).0
  dispatch_envelope-LogsIn env player p l =
      ap (λ q. q.store) (as_login x svc env p l.number)
      ∙ ap (λ o. (login_request x svc env o p).0.store) l.decoded
      ∙ on_test env l.request p ((==_iff l.request.platform platform_test).1 l.test)

  -- Any envelope leaves the database as it was, or as the resolution of one account does.
  pub dispatch_envelope-store :
      (env : Envelope) (p : Process D)
      → let d = (dispatch_envelope x svc service_registry env p).store in
        (d ≡ p.store) ⊎ ((account : Bytes) × (d ≡ (resolve_role_id svc account p.store).0))
  unfolding Stored reply
  dispatch_envelope-store env p =
      subst (λ q. Stored p.store q.store) (sym (dispatch_envelope-cases x svc env p))
        (elim (Bool-cases (leb 3000 env.msg_id && ltb env.msg_id 4000)) [
          | inl e ↦ rw e (inl (routed-store env p))
          | inr e ↦ rw e (elim (Bool-cases (env.msg_id == 31)) [
            | inl f ↦ rw f (inl refl)
            | inr f ↦ rw f (elim (Bool-cases (env.msg_id == 1001)) [
              | inl m ↦
                  rw m
                    (unfold run_handler in request-Stored env (x.unmarshal_login_req env.payload) p)
              | inr m ↦ rw m (inl refl)
            ])
          ])
        ])
