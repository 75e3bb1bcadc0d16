-- ===== src/Gate/Invariant/Handler.antt =====
-- An envelope from a client keeps the invariant, and gives out one session ID at most.
use test_go_server.Prelude.{
  ℕ, ◌<◌, ◌≡◌, ◌≢◌, refl, Option, none, some, ◌==◌, ◌&&◌, arith, inl, inr, suc, ltb, leb,
  Bool-cases, ==_iff,
}
use test_go_server.Protocol.{Envelope, inc64, msg_login_req, msg_heartbeat_req, msg_resume_req}
use test_go_server.Router.{RouteRule, Target, ModuleName, service, game, db, login, get_route}
use test_go_server.Registry
use test_go_server.Gate.State.{
  SessionState, online, authing, authenticated, Session, Gate, External, World, HandlerFunc,
  on_resume_handler, on_heartbeat_handler, put_session, is_online, is_offline,
}
use test_go_server.Gate.Sessions.{get}
use test_go_server.Gate.Offline.{send_to_game}
use test_go_server.Gate.Login.{create_session_for_conn, allow_login}
use test_go_server.Gate.Handler.{
  dispatch_handler, run_handler, first_login, count_unknown, by_target, route, after_login,
  start_auth, login_by_state, login_request, on_bound, on_envelope,
}
use test_go_server.Gate.Invariant.Defs.{
  Good, Inv, Same, Same-refl, Inv-Same, Inv-put, Inv-if, SameConns, sessions-SameConns,
}
use test_go_server.Gate.Invariant.Frames.{close-Same, send_to_service-Same}
use test_go_server.Gate.Invariant.Offline.{on_session_offline-Inv, Good-SameConns, Good-self}
use test_go_server.Gate.Invariant.Timers.{on_heartbeat-Inv, stats-Same}
use test_go_server.Gate.Invariant.Login.{
  allow_login-Good, Good-fields, create_session_for_conn-Inv, create_session_for_conn-lookup,
}
use test_go_server.Gate.Invariant.LoginRsp.{handle_duplicate_login-Inv}
use test_go_server.Gate.Invariant.Resume.{handle_resume-Inv}

send_to_game-Same : (env : Envelope) (g : Gate) → Same g (send_to_game env g)
unfolding send_to_game
send_to_game-Same env g = send_to_service-Same _ env g

run_handler-Inv :
    (h : Option HandlerFunc) (x : External) (w : World) (o : Option Session) (c : ℕ)
    (env : Envelope) (g : Gate)
    → Inv g
    → c < g.next_conn
    → Inv (run_handler h x w o c env g)
unfolding run_handler
run_handler-Inv none x w o c env g v lt = v
run_handler-Inv (some on_resume_handler) x w o c env g v lt = handle_resume-Inv x w c env g v lt
run_handler-Inv (some on_heartbeat_handler) x w none c env g v lt = v
run_handler-Inv (some on_heartbeat_handler) x w (some s) c env g v lt =
    on_heartbeat-Inv w.now s.id g v

pub by_target-Same :
    (t : Target) (m : ModuleName) (env : Envelope) (g : Gate) → Same g (by_target t m env g)
unfolding by_target
by_target-Same service m env g = send_to_service-Same m env g
by_target-Same game m env g = send_to_game-Same env g
by_target-Same db m env g = Same-refl g

route-Inv :
    (now : ℕ) (r : Option RouteRule) (s : Session) (env : Envelope) (g : Gate)
    → Inv g
    → Good g s.id s
    → Inv (route now r s env g)
unfolding route
route-Inv now (some rule) s env g v good =
    Inv-Same (by_target-Same rule.target rule.mod_name env _) (
      Inv-put g (record s { last_seen = now }) v
        (Good-fields g s.id s (record s { last_seen = now }) refl refl refl good))
route-Inv now none s env g v good =
    Inv-if
      (ltb 0 g.config.unknown_msg_kick_count
        && leb g.config.unknown_msg_kick_count (suc s.unknown_msg_count))
      (on_session_offline-Inv now s.id t (count_unknown s g) counted
        (Good-SameConns s.id t apart good_t))
      counted
  where
    t : Session
    t = record s { unknown_msg_count = suc s.unknown_msg_count }

    good_t : Good g s.id t
    good_t = Good-fields g s.id s t refl refl refl good

    apart : SameConns g (count_unknown s g)
    apart = record { ids = λ c. refl; limit = refl; next = refl }

    counted : Inv (count_unknown s g)
    counted = Inv-Same (stats-Same (put_session t g) _) (Inv-put g t v good_t)

after_login-Inv :
    (x : External) (w : World) (s : Session) (c : ℕ) (env : Envelope) (g : Gate)
    → Inv g
    → Good g s.id s
    → c < g.next_conn
    → Inv (after_login x w s c env g)
unfolding after_login dispatch_handler
after_login-Inv x w s c env g v good lt = Inv-if (is_online s.state) v (
    Inv-if (env.msg_id == msg_heartbeat_req)
      (run_handler-Inv (Registry.get env.msg_id g.handlers) x w (some s) c env g v lt)
      (route-Inv w.now (get_route env.msg_id) s env g v good))

Good-start_auth :
    (g : Gate) (now : ℕ) (s : Session)
    → s.state ≡ online
    → Good g s.id s
    → Good g s.id (start_auth now s)
Good-start_auth g now s on v = record {
  keyed = refl;
  named = v.named;
  begun = λ e. cc;
  kept = λ e. cc;
  unplugged = λ e. cc;
  plugged = λ e. ground (arith, v.plugged e);
  bound = v.bound;
}

login_by_state-Inv :
    (st : SessionState) (x : External) (w : World) (s : Session) (c : ℕ) (env : Envelope) (g : Gate)
    → s.state ≡ st
    → Inv g
    → Good g s.id s
    → c < g.next_conn
    → Inv (login_by_state st x w s c env g)
unfolding login_by_state
login_by_state-Inv authenticated x w s c env g e v good lt =
    handle_duplicate_login-Inv w.now s c g v
login_by_state-Inv authing x w s c env g e v good lt = v
login_by_state-Inv online x w s c env g e v good lt =
    let t = start_auth w.now s in
    let good_t = Good-start_auth g w.now s e good in
    after_login-Inv x w t c env (put_session t g) (Inv-put g t v good_t)
      (Good-SameConns s.id t (sessions-SameConns g _ _) good_t) lt
login_by_state-Inv _ x w s c env g e v good lt = after_login-Inv x w s c env g v good lt

login_request-Inv :
    (x : External) (w : World) (s : Session) (c : ℕ) (env : Envelope) (g : Gate)
    → Inv g
    → Good g s.id s
    → c < g.next_conn
    → Inv (login_request x w s c env g)
unfolding login_request
login_request-Inv x w s c env g v good lt =
    let t = (allow_login g.config w.now s).0 in
    let good_t = Good-self t (allow_login-Good g s.id w.now g.config s good) in
    let put = Inv-put g t v good_t in
    Inv-if (allow_login g.config w.now s).1
      (login_by_state-Inv t.state x w t c env (put_session t g) refl put
        (Good-SameConns t.id t (sessions-SameConns g _ _) good_t) lt)
      (Inv-Same (stats-Same (put_session t g) _) put)

on_bound-Inv :
    (x : External) (w : World) (o : Option Session) (c : ℕ) (env : Envelope) (g : Gate)
    → Inv g
    → ((s : Session) → o ≡ some s → Good g s.id s)
    → c < g.next_conn
    → Inv (on_bound x w o c env g)
unfolding on_bound
on_bound-Inv x w none c env g v good lt = Inv-Same (close-Same c g) v
on_bound-Inv x w (some s) c env g v good lt = Inv-if (is_offline s.state) v (
    Inv-if (env.msg_id == msg_login_req) (login_request-Inv x w s c env g v (good s refl) lt)
      (after_login-Inv x w s c env g v (good s refl) lt))

first_login-Inv :
    (x : External) (w : World) (c : ℕ) (env : Envelope) (g : Gate)
    → Inv g
    → (g.conns c).session_id ≡ 0
    → c < g.next_conn
    → inc64 g.next_id ≢ 0
    → Inv (first_login x w c env g)
unfolding first_login
first_login-Inv x w c env g v free lt pos =
    let r = create_session_for_conn x w c g in
    let made = create_session_for_conn-Inv x w c g v free lt pos in
    let good = made.good r.0.id r.0 (create_session_for_conn-lookup x w c g) in
    let t = (allow_login r.1.config w.now r.0).0 in
    let put =
      Inv-put r.1 t made (Good-self t (allow_login-Good r.1 r.0.id w.now r.1.config r.0 good)) in
    Inv-if (allow_login r.1.config w.now r.0).1 (Inv-Same (send_to_service-Same login _ _) put)
      (Inv-Same (stats-Same (put_session t r.1) _) put)

pub on_envelope-Inv :
    (x : External) (w : World) (c : ℕ) (env : Envelope) (g : Gate)
    → Inv g
    → c < g.next_conn
    → inc64 g.next_id ≢ 0
    → Inv (on_envelope x w c env g)
unfolding on_envelope dispatch_handler
on_envelope-Inv x w c env g v lt pos = elim (Bool-cases (env.msg_id == msg_resume_req)) [
  | inl e ↦ rw e (run_handler-Inv (Registry.get env.msg_id g.handlers) x w none c env g v lt)
  | inr e ↦ elim (Bool-cases ((g.conns c).session_id == 0)) [
    | inl f ↦
        rw (e, f)
          (Inv-if (env.msg_id == msg_login_req)
            (first_login-Inv x w c env g v ((==_iff (g.conns c).session_id 0).0 f) lt pos)
            (Inv-Same (close-Same c g) v))
    | inr f ↦
        rw (e, f)
          (on_bound-Inv x w (get (g.conns c).session_id g) c env g v
            (λ s h. Good-self s (v.good (g.conns c).session_id s (unfold get in h))) lt)
  ]
]
