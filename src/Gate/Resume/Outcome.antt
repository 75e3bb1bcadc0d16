-- ===== src/Gate/Resume/Outcome.antt =====
-- What a resume request leads to.
use test_go_server.Prelude.{
  Option-cases, ℕ, ◌≡◌, ◌≢◌, refl, ap, sym, ◌∙◌, inl, inr, Option, some, Bool, true, false, ◌==◌,
  if◌then◌else◌, arith, lookup, lookup-insert,
}
use test_go_server.Protocol.{Bytes, Envelope}
use test_go_server.Gate.State.{
  SessionState, init, online, authing, authenticated, offline, closed, Session, Gate, External,
  World,
}
use test_go_server.Gate.Sessions.{get}
use test_go_server.Gate.Conn.{close, send}
use test_go_server.Gate.Token.{verify_token}
use test_go_server.Gate.Offline.{gone, on_conn_close}
use test_go_server.Gate.Offline.Effect.{notify_player_resume-Rest, on_conn_close-lookup}
use test_go_server.Gate.Resume.{
  invalid_session, refuse, send_resume_rsp, close_replaced, resumed, take_over, resume_by_state,
  resume_session, resume_request, handle_resume,
}
use test_go_server.Gate.Invariant.Defs.{Good, Inv, Same}
use test_go_server.Gate.Invariant.Resume.{rebound, take_over-Same, close_replaced-Same, refuse-Same}

take_over-lookup :
    (x : External) (now c k : ℕ) (s : Session) (g : Gate)
    → s.id ≡ k
    → lookup k (take_over x now c s g).by_session ≡ some (resumed now c s)
take_over-lookup x now c k s g own =
    ap (lookup k) (take_over-Same x now c s g).sessions
    ∙ ground (arith, lookup-insert s.id k (resumed now c s) (close_replaced s.conn c g).by_session)

take_over-bound :
    (x : External) (now c : ℕ) (s : Session) (g : Gate)
    → ((take_over x now c s g).conns c).session_id ≡ s.id
take_over-bound x now c s g = (take_over-Same x now c s g).ids c ∙ ground arith

take_over-other :
    (x : External) (now c d k : ℕ) (s : Session) (g : Gate)
    → Good g k s
    → s.conn ≡ some d
    → ((take_over x now c s g).conns d).session_id ≡ k
take_over-other x now c d k s g good e =
    (take_over-Same x now c s g).ids d
    ∙ ground (arith, (close_replaced-Same s.conn c g).ids d, (good.bound d e).0, good.keyed)

-- Connections stay closed, and one that another session's resume replaces is closed.
send-closed :
    (c d : ℕ) (env : Envelope) (g : Gate)
    → (g.conns d).closed ≡ true
    → ((send c env g).0.conns d).closed ≡ true
unfolding send
send-closed c d env g e = ground arith

close_replaced-closed :
    (o : Option ℕ) (c d : ℕ) (g : Gate)
    → o ≡ some d
    → d ≢ c
    → ((close_replaced o c g).conns d).closed ≡ true
unfolding close_replaced close
close_replaced-closed o c d g e ne = ground arith

rest_if :
    (b : Bool) (x y : Gate) (d : ℕ)
    → (x.conns d).closed ≡ true
    → (y.conns d).closed ≡ true
    → ((if b then x else y).conns d).closed ≡ true
rest_if true x y d p q = p
rest_if false x y d p q = q

take_over-closed :
    (x : External) (now c d : ℕ) (s : Session) (g : Gate)
    → s.conn ≡ some d
    → d ≢ c
    → ((take_over x now c s g).conns d).closed ≡ true
unfolding take_over send_resume_rsp
take_over-closed x now c d s g e ne =
    let old = close_replaced-closed s.conn c d g e ne in
    let sent = send-closed c d _ (rebound now c s g) (ground arith) in
    rest_if (s.player_id == 0) _ _ d sent
      (ap (λ f. (f d).closed) (notify_player_resume-Rest (resumed now c s) _).conns ∙ sent)

-- A resume request that is accepted: the connection has no session, the request can be read, the
-- session is there, and its token and state are good.
pub record Accepts (x : External) (c k : ℕ) (env : Envelope) (s : Session) (g : Gate) : Type 0 where
  pub free : (g.conns c).session_id ≡ 0
  pub token :
      (t : Bytes) × (x.unmarshal_resume_req env.payload ≡ some (k, t)) × (verify_token x s t ≡ true)
  pub found : lookup k g.by_session ≡ some s
  pub ready : (s.state ≢ authing) × (s.state ≢ closed)

by_state-take_over :
    (x : External) (now c : ℕ) (st : SessionState) (s : Session) (g : Gate)
    → st ≢ authing
    → st ≢ closed
    → resume_by_state x now c st s g ≡ take_over x now c s g
unfolding resume_by_state
by_state-take_over x now c init s g a b = refl
by_state-take_over x now c online s g a b = refl
by_state-take_over x now c authing s g a b = absurd (a refl)
by_state-take_over x now c authenticated s g a b = refl
by_state-take_over x now c offline s g a b = refl
by_state-take_over x now c closed s g a b = absurd (b refl)

session-take_over :
    (x : External) (now c : ℕ) (s : Session) (t : Bytes) (g : Gate)
    → verify_token x s t ≡ true
    → (s.state ≢ authing) × (s.state ≢ closed)
    → resume_session x now c (some s) t g ≡ take_over x now c s g
unfolding resume_session
session-take_over x now c s t g e (a, b) = rw e (by_state-take_over x now c s.state s g a b)

pub handle-take_over :
    (x : External) (w : World) (c k : ℕ) (env : Envelope) (s : Session) (g : Gate)
    → Accepts x c k env s g
    → handle_resume x w c env g ≡ take_over x w.now c s g
unfolding handle_resume resume_request get
handle-take_over x w c k env s g v =
    let (t, e, f) = v.token in rw (v.free, e, v.found) (session-take_over x w.now c s t g f v.ready)

-- When the invariant holds and a connection without a session sends a readable resume request for
-- a kept session, with a token that verifies and the session neither authing nor closed, then the
-- session has the new connection, was last seen now, is online without a player and authenticated
-- with one, and has all else, its player and its token included, as before; the connection is bound
-- to the session; and the connection that the session had before is closed.
pub handle_resume-Accepts :
    (x : External) (w : World) (c k : ℕ) (env : Envelope) (s : Session) (g : Gate)
    → Inv g
    → Accepts x c k env s g
    → (lookup k (handle_resume x w c env g).by_session
        ≡ some (record s {
          conn = some c;
          last_seen = w.now;
          state = if s.player_id == 0 then online else authenticated;
        }))
      × (((handle_resume x w c env g).conns c).session_id ≡ k)
      × ((d : ℕ) → s.conn ≡ some d → ((handle_resume x w c env g).conns d).closed ≡ true)
handle_resume-Accepts x w c k env s g v a =
    let good = v.good k s a.found in
    let apart : (d : ℕ) → s.conn ≡ some d → d ≢ c = λ d e same.
      good.named (sym (good.bound d e).0 ∙ ap (λ i. (g.conns i).session_id) same ∙ a.free) in
    rw (handle-take_over x w c k env s g a) (
      take_over-lookup x w.now c k s g good.keyed,
      take_over-bound x w.now c s g ∙ good.keyed,
      λ d e. take_over-closed x w.now c d s g e (apart d e),
    )

-- When a connection without a session sends a readable resume request that names no session, or
-- whose token does not verify for it, no session and no binding of a connection changes, and the
-- connection is closed.
pub handle_resume-Refused :
    (x : External) (w : World) (c k : ℕ) (t : Bytes) (env : Envelope) (g : Gate)
    → (g.conns c).session_id ≡ 0
    → x.unmarshal_resume_req env.payload ≡ some (k, t)
    → ((s : Session) → lookup k g.by_session ≡ some s → verify_token x s t ≡ false)
    → Same g (handle_resume x w c env g) × (((handle_resume x w c env g).conns c).closed ≡ true)
unfolding handle_resume resume_request resume_session get refuse close
handle_resume-Refused x w c k t env g free e bad = elim (Option-cases (lookup k g.by_session)) [
  | inl gone ↦ rw (free, e, gone) (refuse-Same x c invalid_session g, ground arith)
  | inr (s, f) ↦ rw (free, e, f, bad s f) (refuse-Same x c invalid_session g, ground arith)
]

-- When the invariant holds, a resume was accepted, and the session had another connection before,
-- then the end of the read loop of that connection takes the session offline, and it has no
-- connection any more.
pub on_conn_close-after_resume :
    (x : External) (w : World) (later c d k : ℕ) (env : Envelope) (s : Session) (g : Gate)
    → Inv g
    → Accepts x c k env s g
    → s.conn ≡ some d
    → lookup k (on_conn_close later d (handle_resume x w c env g)).by_session
      ≡ some (gone later (resumed w.now c s))
unfolding get
on_conn_close-after_resume x w later c d k env s g v a e =
    let good = v.good k s a.found in
    let h = handle_resume x w c env g in
    let now_s = (handle_resume-Accepts x w c k env s g v a).0 in
    let d_id : (h.conns d).session_id ≡ k =
      ap (λ f. (f.conns d).session_id) (handle-take_over x w c k env s g a)
      ∙ take_over-other x w.now c d k s g good e in
    ap (lookup k) (
      on_conn_close-lookup later d (resumed w.now c s) h
        (ap (λ i. lookup i h.by_session) d_id ∙ now_s))
    ∙ ground (arith, lookup-insert s.id k (gone later (resumed w.now c s)) h.by_session, good.keyed)
