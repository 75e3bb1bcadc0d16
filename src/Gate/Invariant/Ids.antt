-- ===== src/Gate/Invariant/Ids.antt =====
-- How many session IDs an envelope can use up.
use test_go_server.Prelude.{
  ℕ, ◌≡◌, refl, ◌∙◌, Option, none, some, Bool, true, false, ◌==◌, ◌&&◌, if◌then◌else◌, inl, inr,
  ◌⊎◌, ltb, leb, suc, Bool-cases,
}
use test_go_server.Protocol.{Envelope, inc64, msg_login_req, msg_heartbeat_req, msg_resume_req}
use test_go_server.Router.{RouteRule, get_route, login}
use test_go_server.Registry
use test_go_server.Gate.State.{
  SessionState, online, authing, authenticated, Session, Gate, External, World, HandlerFunc,
  on_resume_handler, on_heartbeat_handler, put_session, is_online, is_offline,
}
use test_go_server.Gate.Sessions.{get}
use test_go_server.Gate.Login.{create_session_for_conn, allow_login}
use test_go_server.Gate.Handler.{
  dispatch_handler, run_handler, first_login, count_unknown, route, after_login, start_auth,
  login_by_state, login_request, on_bound, on_envelope,
}
use test_go_server.Gate.Invariant.Frames.{close-Same, send_to_service-Same}
use test_go_server.Gate.Invariant.Offline.{on_session_offline-SameConns}
use test_go_server.Gate.Invariant.Timers.{on_heartbeat-SameConns}
use test_go_server.Gate.Invariant.Login.{create_session_for_conn-next}
use test_go_server.Gate.Invariant.LoginRsp.{handle_duplicate_login-SameConns}
use test_go_server.Gate.Invariant.Resume.{handle_resume-next}
use test_go_server.Gate.Invariant.Handler.{by_target-Same}

next-if :
    (x y : Gate) {n : ℕ} (b : Bool)
    → x.next_id ≡ n
    → y.next_id ≡ n
    → (if b then x else y).next_id ≡ n
next-if x y true p q = p
next-if x y false p q = q

run_handler-next :
    (h : Option HandlerFunc) (x : External) (w : World) (o : Option Session) (c : ℕ)
    (env : Envelope) (g : Gate)
    → (run_handler h x w o c env g).next_id ≡ g.next_id
unfolding run_handler
run_handler-next none x w o c env g = refl
run_handler-next (some on_resume_handler) x w o c env g = handle_resume-next x w c env g
run_handler-next (some on_heartbeat_handler) x w none c env g = refl
run_handler-next (some on_heartbeat_handler) x w (some s) c env g =
    (on_heartbeat-SameConns w.now s.id g).next

route-next :
    (now : ℕ) (r : Option RouteRule) (s : Session) (env : Envelope) (g : Gate)
    → (route now r s env g).next_id ≡ g.next_id
unfolding route
route-next now (some rule) s env g = (by_target-Same rule.target rule.mod_name env _).next
route-next now none s env g =
    next-if _ _
      (ltb 0 g.config.unknown_msg_kick_count
        && leb g.config.unknown_msg_kick_count (suc s.unknown_msg_count))
      ((on_session_offline-SameConns now _ (count_unknown s g)).next) refl

after_login-next :
    (x : External) (w : World) (s : Session) (c : ℕ) (env : Envelope) (g : Gate)
    → (after_login x w s c env g).next_id ≡ g.next_id
unfolding after_login dispatch_handler
after_login-next x w s c env g = next-if _ _ (is_online s.state) refl (
    next-if _ _ (env.msg_id == msg_heartbeat_req)
      (run_handler-next (Registry.get env.msg_id g.handlers) x w (some s) c env g)
      (route-next w.now (get_route env.msg_id) s env g))

login_by_state-next :
    (st : SessionState) (x : External) (w : World) (s : Session) (c : ℕ) (env : Envelope) (g : Gate)
    → (login_by_state st x w s c env g).next_id ≡ g.next_id
unfolding login_by_state
login_by_state-next authenticated x w s c env g =
    (handle_duplicate_login-SameConns w.now s c g).next
login_by_state-next authing x w s c env g = refl
login_by_state-next online x w s c env g = after_login-next x w (start_auth w.now s) c env _
login_by_state-next _ x w s c env g = after_login-next x w s c env g

on_bound-next :
    (x : External) (w : World) (o : Option Session) (c : ℕ) (env : Envelope) (g : Gate)
    → (on_bound x w o c env g).next_id ≡ g.next_id
unfolding on_bound login_request
on_bound-next x w none c env g = (close-Same c g).next
on_bound-next x w (some s) c env g =
    let r = allow_login g.config w.now s in
    next-if _ _ (is_offline s.state) refl (
      next-if _ _ (env.msg_id == msg_login_req)
        (next-if _ _ r.1 (login_by_state-next r.0.state x w r.0 c env (put_session r.0 g)) refl)
        (after_login-next x w s c env g))

first_login-next :
    (x : External) (w : World) (c : ℕ) (env : Envelope) (g : Gate)
    → (first_login x w c env g).next_id ≡ inc64 g.next_id
unfolding first_login
first_login-next x w c env g =
    let r = create_session_for_conn x w c g in
    let next = (create_session_for_conn-next x w c g).0 in
    next-if _ _ (allow_login r.1.config w.now r.0).1 ((send_to_service-Same login _ _).next ∙ next)
      next

-- The counter stays, or is one further.
pub on_envelope-next :
    (x : External) (w : World) (c : ℕ) (env : Envelope) (g : Gate)
    → ((on_envelope x w c env g).next_id ≡ g.next_id)
      ⊎ ((on_envelope x w c env g).next_id ≡ inc64 g.next_id)
unfolding on_envelope dispatch_handler
on_envelope-next x w c env g = elim (Bool-cases (env.msg_id == msg_resume_req)) [
  | inl e ↦ rw e (inl (run_handler-next (Registry.get env.msg_id g.handlers) x w none c env g))
  | inr e ↦ elim (Bool-cases ((g.conns c).session_id == 0)) [
    | inr f ↦ rw (e, f) (inl (on_bound-next x w (get (g.conns c).session_id g) c env g))
    | inl f ↦ elim (Bool-cases (env.msg_id == msg_login_req)) [
      | inl h ↦ rw (e, f, h) (inr (first_login-next x w c env g))
      | inr h ↦ rw (e, f, h) (inl (close-Same c g).next)
    ]
  ]
]
