-- ===== src/Service/Dispatch/Keeps.antt =====
-- What the handling of an envelope keeps.
use test_go_server.Prelude.{
  ℕ, List, [], ◌∷◌, Option, none, some, Bool, true, false, ◌==◌, ◌||◌, if◌then◌else◌, inl, inr,
  Bool-cases,
}
use test_go_server.Protocol.{Bytes, Envelope}
use test_go_server.Router.{get_route}
use test_go_server.Service.Login.{LoginService}
use test_go_server.Service.Modules.{HandlerFunc, on_login, on_chat, ModuleRegistry, get_handler}
use test_go_server.Service.Dispatch.{
  LoginReq, Coder, Process, Failure, route_to_game, reply, reply_error, enter, log_in, checked,
  by_platform, login_request, run_handler, run_found, dispatch, is_for_game, dispatch_envelope,
  dispatch_envelopes, verify_token,
}

-- What is kept by every envelope: what messages to the game, replies and changes of the database keep.
module _ {D : Type 0} (x : Coder) (svc : LoginService D) (P : Process D → Type 0)
    (routed : (env : Envelope) (p : Process D) → P p → P (route_to_game env p).0)
    (replied : (session msg : ℕ) (payload : Bytes) (p : Process D)
      → P p
      → P (reply session msg payload p).0)
    (stored : (d : D) (p : Process D) → P p → P (record p { store = d })) where
  either :
      (b : Bool) (u v : Process D × Option Failure)
      → P u.0
      → P v.0
      → let r : Process D × Option Failure = if b then u else v in P r.0
  either true u v h k = h
  either false u v h k = k

  enter_keeps :
      (env : Envelope) (r : D × Option (ℕ × Bool)) (p : Process D) → P p → P (enter x svc env r p).0
  unfolding enter
  enter_keeps env (d, none) p h = stored d p h
  enter_keeps env (d, some (id, old)) p h = replied _ _ _ _ (routed _ _ (stored d p h))

  reply_error_keeps :
      (session code : ℕ) (text : Bytes) (p : Process D)
      → P p
      → P (reply_error x svc session code text p).0
  unfolding reply_error
  reply_error_keeps session code text p h = replied _ _ _ p h

  checked_keeps :
      (env : Envelope) (req : LoginReq) (o : Option Bytes) (p : Process D)
      → P p
      → P (checked x svc env req o p).0
  unfolding checked log_in
  checked_keeps env req none p h = enter_keeps env _ p h
  checked_keeps env req (some text) p h = reply_error_keeps _ _ text p h

  by_platform_keeps :
      (env : Envelope) (req : LoginReq) (p : Process D) → P p → P (by_platform x svc env req p).0
  unfolding by_platform log_in
  by_platform_keeps env req p h =
      either (req.platform == 0) (log_in x svc env req p) _ (enter_keeps env _ p h) (
        either (req.platform == 1 || req.platform == 2 || req.platform == 3)
          (checked x svc env req (verify_token req.platform req.token) p) _
          (checked_keeps env req (verify_token req.platform req.token) p h)
          (reply_error_keeps env.session_id 10005 _ p h))

  request_keeps :
      (env : Envelope) (o : Option LoginReq) (p : Process D)
      → P p
      → P (login_request x svc env o p).0
  unfolding login_request
  request_keeps env none p h = h
  request_keeps env (some req) p h = by_platform_keeps env req p h

  found_keeps :
      (o : Option HandlerFunc) (env : Envelope) (p : Process D) → P p → P (run_found x svc o env p)
  unfolding run_found run_handler
  found_keeps none env p h = h
  found_keeps (some on_login) env p h = request_keeps env (x.unmarshal_login_req env.payload) p h
  found_keeps (some on_chat) env p h = h

  pub dispatch_envelope_keeps :
      (reg : ModuleRegistry) (env : Envelope) (p : Process D)
      → P p
      → P (dispatch_envelope x svc reg env p)
  unfolding dispatch_envelope dispatch
  dispatch_envelope_keeps reg env p h = elim (Bool-cases (is_for_game (get_route env.msg_id))) [
    | inl e ↦ rw e (routed env p h)
    | inr e ↦ rw e (elim (Bool-cases (env.msg_id == 31)) [
      | inl e' ↦ rw e' (replied _ _ _ p h)
      | inr e' ↦ rw e' (found_keeps (get_handler env.msg_id reg) env p h)
    ])
  ]

  pub dispatch_envelopes_keep :
      (reg : ModuleRegistry) (es : List Envelope) (p : Process D)
      → P p
      → P (dispatch_envelopes x svc reg es p)
  unfolding dispatch_envelopes
  dispatch_envelopes_keep reg [] p h = h
  dispatch_envelopes_keep reg (env ∷ es) p h =
      dispatch_envelopes_keep reg es _ (dispatch_envelope_keeps reg env p h)
