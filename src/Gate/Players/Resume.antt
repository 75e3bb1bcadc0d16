-- ===== src/Gate/Players/Resume.antt =====
-- A resume leaves the sessions their players.
use test_go_server.Prelude.{ℕ, Option, none, some, ◌==◌, inl, inr, Option-cases}
use test_go_server.Protocol.{Bytes, Envelope}
use test_go_server.Gate.State.{
  SessionState, authing, closed, Session, Gate, External, World, set_conn,
}
use test_go_server.Gate.Sessions.{get}
use test_go_server.Gate.Token.{verify_token}
use test_go_server.Gate.Resume.{
  invalid_session, close_replaced, resumed, take_over, resume_by_state, handle_resume,
  resume_session, resume_request,
}
use test_go_server.Gate.Invariant.Frames.{close-Same}
use test_go_server.Gate.Invariant.Resume.{refuse-Same, close_replaced-Same, take_over-Same}
use test_go_server.Gate.Players.Defs.{Players, Players-Same, Players-if, Players-put}

take_over-Players :
    {K : ℕ → ℕ → Type 0} (x : External) (now c : ℕ) (s : Session) (g : Gate)
    → K s.id s.player_id
    → Players K g
    → Players K (take_over x now c s g)
take_over-Players x now c s g has v =
    let h = close_replaced s.conn c g in
    let p = Players-Same (close_replaced-Same s.conn c g) v in
    Players-Same (take_over-Same x now c s g) (
      Players-put (set_conn c (record (h.conns c) { session_id = s.id }) h) (resumed now c s) has
        (record { nobody = p.nobody; known = p.known }))

resume_by_state-Players :
    {K : ℕ → ℕ → Type 0} (x : External) (now c : ℕ) (st : SessionState) (s : Session) (g : Gate)
    → K s.id s.player_id
    → Players K g
    → Players K (resume_by_state x now c st s g)
unfolding resume_by_state
resume_by_state-Players x now c authing s g has v = Players-Same (refuse-Same x c _ g) v
resume_by_state-Players x now c closed s g has v = Players-Same (refuse-Same x c _ g) v
resume_by_state-Players x now c _ s g has v = take_over-Players x now c s g has v

resume_session-Players :
    {K : ℕ → ℕ → Type 0} (x : External) (now c : ℕ) (s : Session) (token : Bytes) (g : Gate)
    → K s.id s.player_id
    → Players K g
    → Players K (resume_session x now c (some s) token g)
unfolding resume_session
resume_session-Players x now c s token g has v =
    Players-if (verify_token x s token) (resume_by_state-Players x now c s.state s g has v)
      (Players-Same (refuse-Same x c invalid_session g) v)

resume_request-Players :
    {K : ℕ → ℕ → Type 0} (x : External) (now c : ℕ) (o : Option (ℕ × Bytes)) (g : Gate)
    → Players K g
    → Players K (resume_request x now c o g)
unfolding resume_request
resume_request-Players x now c none g v = Players-Same (close-Same c g) v
resume_request-Players x now c (some (id, token)) g v = elim (Option-cases (get id g)) [
  | inl e ↦
      rw (e, resume_request)
        (unfold resume_session in Players-Same (refuse-Same x c invalid_session g) v)
  | inr (s, e) ↦
      rw (e, resume_request)
        (resume_session-Players x now c s token g (v.known id s (unfold get in e)).1 v)
]

pub handle_resume-Players :
    {K : ℕ → ℕ → Type 0} (x : External) (w : World) (c : ℕ) (env : Envelope) (g : Gate)
    → Players K g
    → Players K (handle_resume x w c env g)
unfolding handle_resume
handle_resume-Players x w c env g v =
    Players-if ((g.conns c).session_id == 0)
      (resume_request-Players x w.now c (x.unmarshal_resume_req env.payload) g v)
      (Players-Same (close-Same c g) v)
