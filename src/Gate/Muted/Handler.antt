-- ===== src/Gate/Muted/Handler.antt =====
-- An envelope from a client leaves the limit on unknown messages at 0.
use test_go_server.Prelude.{
  ℕ, refl, ap, ◌∙◌, ◌==◌, ◌&&◌, Option, none, some, inl, inr, suc, ltb, leb, Option-cases,
}
use test_go_server.Protocol.{
  Bytes, Envelope, inc64, msg_login_req, msg_heartbeat_req, msg_resume_req,
}
use test_go_server.Router.{
  RouteRule, Target, ModuleName, service, game, db, login, no_module, get_route,
}
use test_go_server.Registry
use test_go_server.Gate.State.{
  SessionState, online, authing, authenticated, closed, Session, Gate, External, World, HandlerFunc,
  on_resume_handler, on_heartbeat_handler, put_session, is_online, is_offline,
}
use test_go_server.Gate.Sessions.{get}
use test_go_server.Gate.Conn.{send, close}
use test_go_server.Gate.Offline.{send_to_game}
use test_go_server.Gate.Offline.Effect.{send_to_service-Rest}
use test_go_server.Gate.Token.{verify_token}
use test_go_server.Gate.Login.{
  create_session_for_conn, allow_login, fresh_session, bind_fresh, session_init_env,
  handle_duplicate_login,
}
use test_go_server.Gate.Resume.{
  Reason, invalid_session, refuse, take_over, resume_by_state, handle_resume, resume_session,
  resume_request,
}
use test_go_server.Gate.Handler.{
  dispatch_handler, run_handler, first_login, count_unknown, by_target, route, after_login,
  start_auth, login_by_state, login_request, on_bound, on_envelope,
}
use test_go_server.Gate.Muted.{
  Muted, Muted-if, send-Muted, on_session_offline-Muted, kick-Muted, on_heartbeat-Muted,
}

close-Muted : (c : ℕ) (g : Gate) → Muted g → Muted (close c g)
unfolding close
close-Muted c g v = v

refuse-Muted : (x : External) (c : ℕ) (r : Reason) (g : Gate) → Muted g → Muted (refuse x c r g)
unfolding refuse close
refuse-Muted x c r g v = send-Muted c _ g v

resume_by_state-Muted :
    (x : External) (now c : ℕ) (st : SessionState) (s : Session) (g : Gate)
    → Muted g
    → Muted (resume_by_state x now c st s g)
unfolding resume_by_state take_over
resume_by_state-Muted x now c authing s g v = refuse-Muted x c _ g v
resume_by_state-Muted x now c closed s g v = refuse-Muted x c _ g v
resume_by_state-Muted x now c _ s g v = refl

resume_session-Muted :
    (x : External) (now c : ℕ) (o : Option Session) (token : Bytes) (g : Gate)
    → Muted g
    → Muted (resume_session x now c o token g)
unfolding resume_session
resume_session-Muted x now c none token g v = refuse-Muted x c invalid_session g v
resume_session-Muted x now c (some s) token g v =
    Muted-if (verify_token x s token) _ _ (resume_by_state-Muted x now c s.state s g v)
      (refuse-Muted x c invalid_session g v)

resume_request-Muted :
    (x : External) (now c : ℕ) (o : Option (ℕ × Bytes)) (g : Gate)
    → Muted g
    → Muted (resume_request x now c o g)
unfolding resume_request
resume_request-Muted x now c none g v = close-Muted c g v
resume_request-Muted x now c (some (id, token)) g v =
    resume_session-Muted x now c (get id g) token g v

handle_resume-Muted :
    (x : External) (w : World) (c : ℕ) (env : Envelope) (g : Gate)
    → Muted g
    → Muted (handle_resume x w c env g)
unfolding handle_resume
handle_resume-Muted x w c env g v =
    Muted-if ((g.conns c).session_id == 0) _ _
      (resume_request-Muted x w.now c (x.unmarshal_resume_req env.payload) g v) (close-Muted c g v)

handle_duplicate_login-Muted :
    (now : ℕ) (s : Session) (c : ℕ) (g : Gate) → Muted g → Muted (handle_duplicate_login now s c g)
unfolding handle_duplicate_login
handle_duplicate_login-Muted now s c g v = elim (Option-cases s.conn) [
  | inl e ↦ rw (e, handle_duplicate_login) (kick-Muted now s.id g v)
  | inr (d, e) ↦ rw (e, handle_duplicate_login) (Muted-if (d == c) g _ v (kick-Muted now s.id g v))
]

run_handler-Muted :
    (h : Option HandlerFunc) (x : External) (w : World) (o : Option Session) (c : ℕ)
    (env : Envelope) (g : Gate)
    → Muted g
    → Muted (run_handler h x w o c env g)
unfolding run_handler
run_handler-Muted none x w o c env g v = v
run_handler-Muted (some on_resume_handler) x w o c env g v = handle_resume-Muted x w c env g v
run_handler-Muted (some on_heartbeat_handler) x w none c env g v = v
run_handler-Muted (some on_heartbeat_handler) x w (some s) c env g v =
    on_heartbeat-Muted w.now s.id g v

by_target-Muted :
    (t : Target) (m : ModuleName) (env : Envelope) (g : Gate)
    → Muted g
    → Muted (by_target t m env g)
unfolding by_target send_to_game
by_target-Muted service m env g v =
    ap (λ f. f.unknown_msg_kick_count) (send_to_service-Rest m env g).config ∙ v
by_target-Muted game m env g v =
    ap (λ f. f.unknown_msg_kick_count) (send_to_service-Rest no_module env g).config ∙ v
by_target-Muted db m env g v = v

route-Muted :
    (now : ℕ) (r : Option RouteRule) (s : Session) (env : Envelope) (g : Gate)
    → Muted g
    → Muted (route now r s env g)
unfolding route
route-Muted now (some rule) s env g v =
    by_target-Muted rule.target rule.mod_name env (put_session (record s { last_seen = now }) g) v
route-Muted now none s env g v =
    Muted-if
      (ltb 0 g.config.unknown_msg_kick_count
        && leb g.config.unknown_msg_kick_count (suc s.unknown_msg_count))
      _ (count_unknown s g) (on_session_offline-Muted now _ (count_unknown s g) v) v

after_login-Muted :
    (x : External) (w : World) (s : Session) (c : ℕ) (env : Envelope) (g : Gate)
    → Muted g
    → Muted (after_login x w s c env g)
unfolding after_login dispatch_handler
after_login-Muted x w s c env g v = Muted-if (is_online s.state) g _ v (
    Muted-if (env.msg_id == msg_heartbeat_req) _ _
      (run_handler-Muted (Registry.get env.msg_id g.handlers) x w (some s) c env g v)
      (route-Muted w.now (get_route env.msg_id) s env g v))

login_by_state-Muted :
    (st : SessionState) (x : External) (w : World) (s : Session) (c : ℕ) (env : Envelope) (g : Gate)
    → Muted g
    → Muted (login_by_state st x w s c env g)
unfolding login_by_state
login_by_state-Muted authenticated x w s c env g v = handle_duplicate_login-Muted w.now s c g v
login_by_state-Muted authing x w s c env g v = v
login_by_state-Muted online x w s c env g v =
    let t = start_auth w.now s in after_login-Muted x w t c env (put_session t g) v
login_by_state-Muted _ x w s c env g v = after_login-Muted x w s c env g v

login_request-Muted :
    (x : External) (w : World) (s : Session) (c : ℕ) (env : Envelope) (g : Gate)
    → Muted g
    → Muted (login_request x w s c env g)
unfolding login_request
login_request-Muted x w s c env g v =
    let t = (allow_login g.config w.now s).0 in
    Muted-if (allow_login g.config w.now s).1 _ _
      (login_by_state-Muted t.state x w t c env (put_session t g) v) v

on_bound-Muted :
    (x : External) (w : World) (o : Option Session) (c : ℕ) (env : Envelope) (g : Gate)
    → Muted g
    → Muted (on_bound x w o c env g)
unfolding on_bound
on_bound-Muted x w none c env g v = close-Muted c g v
on_bound-Muted x w (some s) c env g v = Muted-if (is_offline s.state) g _ v (
    Muted-if (env.msg_id == msg_login_req) _ _ (login_request-Muted x w s c env g v)
      (after_login-Muted x w s c env g v))

first_login-Muted :
    (x : External) (w : World) (c : ℕ) (env : Envelope) (g : Gate)
    → Muted g
    → Muted (first_login x w c env g)
unfolding first_login create_session_for_conn bind_fresh
first_login-Muted x w c env g v =
    let s = fresh_session x w c (inc64 g.next_id) in
    let h = (send c (session_init_env x s) (bind_fresh s c g)).0 in
    let made : Muted h = send-Muted c (session_init_env x s) (bind_fresh s c g) v in
    let t = (allow_login h.config w.now s).0 in
    Muted-if (allow_login h.config w.now s).1 _ _
      (ap (λ f. f.unknown_msg_kick_count) (send_to_service-Rest login _ (put_session t h)).config
        ∙ made)
      made

pub on_envelope-Muted :
    (x : External) (w : World) (c : ℕ) (env : Envelope) (g : Gate)
    → Muted g
    → Muted (on_envelope x w c env g)
unfolding on_envelope dispatch_handler
on_envelope-Muted x w c env g v =
    Muted-if (env.msg_id == msg_resume_req) _ _
      (run_handler-Muted (Registry.get env.msg_id g.handlers) x w none c env g v)
      (Muted-if ((g.conns c).session_id == 0) _ _
        (Muted-if (env.msg_id == msg_login_req) _ _ (first_login-Muted x w c env g v)
          (close-Muted c g v))
        (on_bound-Muted x w (get (g.conns c).session_id g) c env g v))
