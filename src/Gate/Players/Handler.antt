-- ===== src/Gate/Players/Handler.antt =====
-- An envelope from a client leaves the sessions their players, and a new session has none.
use test_go_server.Prelude.{
  ℕ, refl, ◌==◌, ◌&&◌, Option, none, some, inl, inr, suc, ltb, leb, Option-cases, ◌≡◌, arith,
}
use test_go_server.Protocol.{Envelope, inc64, msg_login_req, msg_heartbeat_req, msg_resume_req}
use test_go_server.Router.{RouteRule, login, get_route}
use test_go_server.Registry
use test_go_server.Gate.State.{
  SessionState, online, authing, authenticated, Session, Gate, External, World, HandlerFunc, Config,
  on_resume_handler, on_heartbeat_handler, put_session, set_conn, is_online, is_offline,
}
use test_go_server.Gate.Sessions.{get}
use test_go_server.Gate.Login.{
  create_session_for_conn, allow_login, new_session, fresh_session, bind_fresh, session_init_env,
  handle_duplicate_login,
}
use test_go_server.Gate.Handler.{
  dispatch_handler, run_handler, first_login, count_unknown, route, after_login, start_auth,
  login_by_state, login_request, on_bound, on_envelope,
}
use test_go_server.Gate.Invariant.Frames.{close-Same, send-Same, send_to_service-Same}
use test_go_server.Gate.Invariant.Timers.{stats-Same}
use test_go_server.Gate.Invariant.Handler.{by_target-Same}
use test_go_server.Gate.Players.Defs.{Players, Players-Same, Players-if, Players-put}
use test_go_server.Gate.Players.Closing.{on_session_offline-Players, kick-Players}
use test_go_server.Gate.Players.Timers.{on_heartbeat-Players}
use test_go_server.Gate.Players.Resume.{handle_resume-Players}

handle_duplicate_login-Players :
    {K : ℕ → ℕ → Type 0} (now : ℕ) (s : Session) (c : ℕ) (g : Gate)
    → Players K g
    → Players K (handle_duplicate_login now s c g)
unfolding handle_duplicate_login
handle_duplicate_login-Players now s c g v = elim (Option-cases s.conn) [
  | inl e ↦ rw (e, handle_duplicate_login) (kick-Players now s.id g v)
  | inr (d, e) ↦ rw (e, handle_duplicate_login) (Players-if (d == c) v (kick-Players now s.id g v))
]

run_handler-Players :
    {K : ℕ → ℕ → Type 0} (h : Option HandlerFunc) (x : External) (w : World) (o : Option Session)
    (c : ℕ) (env : Envelope) (g : Gate)
    → Players K g
    → Players K (run_handler h x w o c env g)
unfolding run_handler
run_handler-Players none x w o c env g v = v
run_handler-Players (some on_resume_handler) x w o c env g v = handle_resume-Players x w c env g v
run_handler-Players (some on_heartbeat_handler) x w none c env g v = v
run_handler-Players (some on_heartbeat_handler) x w (some s) c env g v =
    on_heartbeat-Players w.now s.id g v

route-Players :
    {K : ℕ → ℕ → Type 0} (now : ℕ) (r : Option RouteRule) (s : Session) (env : Envelope) (g : Gate)
    → K s.id s.player_id
    → Players K g
    → Players K (route now r s env g)
unfolding route
route-Players now (some rule) s env g has v =
    Players-Same (by_target-Same rule.target rule.mod_name env _)
      (Players-put g (record s { last_seen = now }) has v)
route-Players {K} now none s env g has v =
    Players-if
      (ltb 0 g.config.unknown_msg_kick_count
        && leb g.config.unknown_msg_kick_count (suc s.unknown_msg_count))
      (on_session_offline-Players now t (count_unknown s g) has counted) counted
  where
    t : Session
    t = record s { unknown_msg_count = suc s.unknown_msg_count }

    counted : Players K (count_unknown s g)
    counted = Players-Same (stats-Same (put_session t g) _) (Players-put g t has v)

after_login-Players :
    {K : ℕ → ℕ → Type 0} (x : External) (w : World) (s : Session) (c : ℕ) (env : Envelope)
    (g : Gate)
    → K s.id s.player_id
    → Players K g
    → Players K (after_login x w s c env g)
unfolding after_login dispatch_handler
after_login-Players x w s c env g has v = Players-if (is_online s.state) v (
    Players-if (env.msg_id == msg_heartbeat_req)
      (run_handler-Players (Registry.get env.msg_id g.handlers) x w (some s) c env g v)
      (route-Players w.now (get_route env.msg_id) s env g has v))

login_by_state-Players :
    {K : ℕ → ℕ → Type 0} (st : SessionState) (x : External) (w : World) (s : Session) (c : ℕ)
    (env : Envelope) (g : Gate)
    → K s.id s.player_id
    → Players K g
    → Players K (login_by_state st x w s c env g)
unfolding login_by_state
login_by_state-Players authenticated x w s c env g has v =
    handle_duplicate_login-Players w.now s c g v
login_by_state-Players authing x w s c env g has v = v
login_by_state-Players online x w s c env g has v =
    let t = start_auth w.now s in
    after_login-Players x w t c env (put_session t g) has (Players-put g t has v)
login_by_state-Players _ x w s c env g has v = after_login-Players x w s c env g has v

-- Counting an attempt changes neither the ID nor the player.
allow_login_cases :
    (cfg : Config) (now : ℕ) (s : Session)
    → ((allow_login cfg now s).0.id ≡ s.id) × ((allow_login cfg now s).0.player_id ≡ s.player_id)
unfolding allow_login
allow_login_cases cfg now s = (ground arith, ground arith)

allowed_has :
    (K : ℕ → ℕ → Type 0) (cfg : Config) (now : ℕ) (s : Session)
    → K s.id s.player_id
    → K (allow_login cfg now s).0.id (allow_login cfg now s).0.player_id
allowed_has K cfg now s has = let (e, f) = allow_login_cases cfg now s in rw (e, f) has

login_request-Players :
    {K : ℕ → ℕ → Type 0} (x : External) (w : World) (s : Session) (c : ℕ) (env : Envelope)
    (g : Gate)
    → K s.id s.player_id
    → Players K g
    → Players K (login_request x w s c env g)
unfolding login_request
login_request-Players {K} x w s c env g has v =
    let t = (allow_login g.config w.now s).0 in
    let has_t = allowed_has K g.config w.now s has in
    let put = Players-put g t has_t v in
    Players-if (allow_login g.config w.now s).1
      (login_by_state-Players t.state x w t c env (put_session t g) has_t put)
      (Players-Same (stats-Same (put_session t g) _) put)

on_bound-Players :
    {K : ℕ → ℕ → Type 0} (x : External) (w : World) (o : Option Session) (c : ℕ) (env : Envelope)
    (g : Gate)
    → ((s : Session) → o ≡ some s → K s.id s.player_id)
    → Players K g
    → Players K (on_bound x w o c env g)
unfolding on_bound
on_bound-Players x w none c env g has v = Players-Same (close-Same c g) v
on_bound-Players x w (some s) c env g has v = Players-if (is_offline s.state) v (
    Players-if (env.msg_id == msg_login_req) (login_request-Players x w s c env g (has s refl) v)
      (after_login-Players x w s c env g (has s refl) v))

create_session_for_conn-Players :
    {K : ℕ → ℕ → Type 0} (x : External) (w : World) (c : ℕ) (g : Gate)
    → Players K g
    → Players K (create_session_for_conn x w c g).1
unfolding create_session_for_conn bind_fresh fresh_session new_session
create_session_for_conn-Players x w c g v =
    let s = fresh_session x w c (inc64 g.next_id) in
    let h = set_conn c (record (g.conns c) { session_id = s.id }) (record g { next_id = s.id }) in
    Players-Same (send-Same c (session_init_env x s) (bind_fresh s c g))
      (Players-put h s (v.nobody s.id) (record { nobody = v.nobody; known = v.known }))

made_has :
    (K : ℕ → ℕ → Type 0) (x : External) (w : World) (c : ℕ) (g : Gate)
    → Players K g
    → let s = (create_session_for_conn x w c g).0 in K s.id s.player_id
unfolding create_session_for_conn fresh_session new_session
made_has K x w c g v = v.nobody (inc64 g.next_id)

first_login-Players :
    {K : ℕ → ℕ → Type 0} (x : External) (w : World) (c : ℕ) (env : Envelope) (g : Gate)
    → Players K g
    → Players K (first_login x w c env g)
unfolding first_login
first_login-Players {K} x w c env g v =
    let r = create_session_for_conn x w c g in
    let t = (allow_login r.1.config w.now r.0).0 in
    let put =
      Players-put r.1 t (allowed_has K r.1.config w.now r.0 (made_has K x w c g v))
        (create_session_for_conn-Players x w c g v) in
    Players-if (allow_login r.1.config w.now r.0).1
      (Players-Same (send_to_service-Same login _ _) put)
      (Players-Same (stats-Same (put_session t r.1) _) put)

pub on_envelope-Players :
    {K : ℕ → ℕ → Type 0} (x : External) (w : World) (c : ℕ) (env : Envelope) (g : Gate)
    → Players K g
    → Players K (on_envelope x w c env g)
unfolding on_envelope dispatch_handler
on_envelope-Players x w c env g v =
    Players-if (env.msg_id == msg_resume_req)
      (run_handler-Players (Registry.get env.msg_id g.handlers) x w none c env g v)
      (Players-if ((g.conns c).session_id == 0)
        (Players-if (env.msg_id == msg_login_req) (first_login-Players x w c env g v)
          (Players-Same (close-Same c g) v))
        (on_bound-Players x w (get (g.conns c).session_id g) c env g
          (λ s h. (v.known (g.conns c).session_id s (unfold get in h)).1) v))
