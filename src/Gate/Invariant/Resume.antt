-- ===== src/Gate/Invariant/Resume.antt =====
-- Resuming keeps the invariant.
use test_go_server.Prelude.{
  ℕ, ◌<◌, ◌≡◌, ◌≢◌, refl, ◌∙◌, Option, none, some, ◌==◌, arith, inl, inr, Option-cases, Bool-cases,
  ==_iff,
}
use test_go_server.Protocol.{Bytes, Envelope}
use test_go_server.Gate.State.{
  SessionState, init, authing, offline, closed, Session, Gate, External, World, put_session,
  set_conn,
}
use test_go_server.Gate.Sessions.{get}
use test_go_server.Gate.Token.{verify_token}
use test_go_server.Gate.Resume.{
  Reason, accepted, invalid_session, send_resume_rsp, refuse, close_replaced, resumed,
  resumed_state, take_over, resume_by_state, handle_resume, resume_session, resume_request,
}
use test_go_server.Gate.Invariant.Defs.{
  Good, Inv, Same, Same-refl, Same-trans, Inv-Same, Inv-put, Inv-if, Same-if,
}
use test_go_server.Gate.Invariant.Frames.{send-Same, close-Same, notify_player_resume-Same}
use test_go_server.Gate.Invariant.Offline.{Good-self}
use test_go_server.Gate.Invariant.Login.{Good-bound, Inv-bind, config-Same}

pub send_resume_rsp-Same :
    (x : External) (c : ℕ) (r : Reason) (g : Gate) → Same g (send_resume_rsp x c r g)
unfolding send_resume_rsp
send_resume_rsp-Same x c r g = send-Same c _ g

pub refuse-Same : (x : External) (c : ℕ) (r : Reason) (g : Gate) → Same g (refuse x c r g)
unfolding refuse
refuse-Same x c r g = Same-trans (send_resume_rsp-Same x c r g) (close-Same c _)

pub close_replaced-Same : (o : Option ℕ) (c : ℕ) (g : Gate) → Same g (close_replaced o c g)
unfolding close_replaced
close_replaced-Same none c g = Same-refl g
close_replaced-Same (some old) c g = Same-if (old == c) (Same-refl g) (close-Same old g)

-- Steps 2 to 4 of handleResume: the session is stored and the connection bound.
abbrev pub rebound : ℕ → ℕ → Session → Gate → Gate
rebound now c s g =
    let h = close_replaced s.conn c g in
    set_conn c (record (h.conns c) { session_id = s.id }) (put_session (resumed now c s) h)

resumed_state_cases :
    (s : Session)
    → (resumed_state s ≢ init) × (resumed_state s ≢ closed) × (resumed_state s ≢ offline)
resumed_state_cases s = (ground arith, ground arith, ground arith)

rebound-Inv :
    (now c k : ℕ) (s : Session) (g : Gate)
    → Inv g
    → Good g k s
    → (g.conns c).session_id ≡ 0
    → c < g.next_conn
    → Inv (rebound now c s g)
rebound-Inv now c k s g v good free lt =
    let same = close_replaced-Same s.conn c g in
    let h = close_replaced s.conn c g in
    let at_s = Good-self s good in
    let (a, b, d) = resumed_state_cases s in
    Inv-put (set_conn c (record (h.conns c) { session_id = s.id }) h) (resumed now c s)
      (Inv-bind h c s.id h.next_id (Inv-Same same v) (same.ids c ∙ free))
      (Good-bound _ c (resumed now c s) at_s.named a b d refl (ground arith)
        (omega (arith, same.limit)))

-- Steps 5 and 6, and the reset of the limit on unknown messages.
pub take_over-Same :
    (x : External) (now c : ℕ) (s : Session) (g : Gate)
    → Same (rebound now c s g) (take_over x now c s g)
unfolding take_over
take_over-Same x now c s g =
    let answered = send_resume_rsp-Same x c accepted (rebound now c s g) in
    Same-trans
      (Same-if (s.player_id == 0) answered
        (Same-trans answered (notify_player_resume-Same (resumed now c s) _)))
      (config-Same _ _)

take_over-Inv :
    (x : External) (now c k : ℕ) (s : Session) (g : Gate)
    → Inv g
    → Good g k s
    → (g.conns c).session_id ≡ 0
    → c < g.next_conn
    → Inv (take_over x now c s g)
take_over-Inv x now c k s g v good free lt =
    Inv-Same (take_over-Same x now c s g) (rebound-Inv now c k s g v good free lt)

resume_by_state-Inv :
    (x : External) (now c k : ℕ) (st : SessionState) (s : Session) (g : Gate)
    → Inv g
    → Good g k s
    → (g.conns c).session_id ≡ 0
    → c < g.next_conn
    → Inv (resume_by_state x now c st s g)
unfolding resume_by_state
resume_by_state-Inv x now c k authing s g v good free lt = Inv-Same (refuse-Same x c _ g) v
resume_by_state-Inv x now c k closed s g v good free lt = Inv-Same (refuse-Same x c _ g) v
resume_by_state-Inv x now c k _ s g v good free lt = take_over-Inv x now c k s g v good free lt

resume_session-Inv :
    (x : External) (now c k : ℕ) (s : Session) (token : Bytes) (g : Gate)
    → Inv g
    → Good g k s
    → (g.conns c).session_id ≡ 0
    → c < g.next_conn
    → Inv (resume_session x now c (some s) token g)
unfolding resume_session
resume_session-Inv x now c k s token g v good free lt =
    Inv-if (verify_token x s token) (resume_by_state-Inv x now c k s.state s g v good free lt)
      (Inv-Same (refuse-Same x c invalid_session g) v)

resume_request-Inv :
    (x : External) (now c : ℕ) (o : Option (ℕ × Bytes)) (g : Gate)
    → Inv g
    → (g.conns c).session_id ≡ 0
    → c < g.next_conn
    → Inv (resume_request x now c o g)
unfolding resume_request
resume_request-Inv x now c none g v free lt = Inv-Same (close-Same c g) v
resume_request-Inv x now c (some (id, token)) g v free lt = elim (Option-cases (get id g)) [
  | inl e ↦
      rw (e, resume_request)
        (unfold resume_session in Inv-Same (refuse-Same x c invalid_session g) v)
  | inr (s, e) ↦
      rw (e, resume_request)
        (resume_session-Inv x now c id s token g v (v.good id s (unfold get in e)) free lt)
]

pub handle_resume-Inv :
    (x : External) (w : World) (c : ℕ) (env : Envelope) (g : Gate)
    → Inv g
    → c < g.next_conn
    → Inv (handle_resume x w c env g)
unfolding handle_resume
handle_resume-Inv x w c env g v lt = elim (Bool-cases ((g.conns c).session_id == 0)) [
  | inr bound ↦ rw bound (Inv-Same (close-Same c g) v)
  | inl unbound ↦ rw unbound (
      resume_request-Inv x w.now c (x.unmarshal_resume_req env.payload) g v
        ((==_iff (g.conns c).session_id 0).0 unbound) lt)
]

-- No session ID is given out.
resume_by_state-next :
    (x : External) (now c : ℕ) (st : SessionState) (s : Session) (g : Gate)
    → (resume_by_state x now c st s g).next_id ≡ g.next_id
unfolding resume_by_state
resume_by_state-next x now c authing s g = (refuse-Same x c _ g).next
resume_by_state-next x now c closed s g = (refuse-Same x c _ g).next
resume_by_state-next x now c _ s g =
    (take_over-Same x now c s g).next ∙ (close_replaced-Same s.conn c g).next

resume_session-next :
    (x : External) (now c : ℕ) (o : Option Session) (token : Bytes) (g : Gate)
    → (resume_session x now c o token g).next_id ≡ g.next_id
unfolding resume_session
resume_session-next x now c none token g = (refuse-Same x c _ g).next
resume_session-next x now c (some s) token g = elim (Bool-cases (verify_token x s token)) [
  | inl e ↦ rw e (resume_by_state-next x now c s.state s g)
  | inr e ↦ rw e ((refuse-Same x c invalid_session g).next)
]

resume_request-next :
    (x : External) (now c : ℕ) (o : Option (ℕ × Bytes)) (g : Gate)
    → (resume_request x now c o g).next_id ≡ g.next_id
unfolding resume_request
resume_request-next x now c none g = (close-Same c g).next
resume_request-next x now c (some (id, token)) g = resume_session-next x now c (get id g) token g

pub handle_resume-next :
    (x : External) (w : World) (c : ℕ) (env : Envelope) (g : Gate)
    → (handle_resume x w c env g).next_id ≡ g.next_id
unfolding handle_resume
handle_resume-next x w c env g = elim (Bool-cases ((g.conns c).session_id == 0)) [
  | inl e ↦ rw e (resume_request-next x w.now c (x.unmarshal_resume_req env.payload) g)
  | inr e ↦ rw e ((close-Same c g).next)
]
