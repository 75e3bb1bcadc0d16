-- ===== src/Gate/Players/Answer.antt =====
-- The service's answer to a login gives a session its player.
use test_go_server.Prelude.{
  ℕ, ◌≡◌, refl, sym, subst, Option, none, some, ◌==◌, inl, inr, Option-cases, Bool-cases, ==_iff,
}
use test_go_server.Protocol.{Bytes, Envelope, msg_login_rsp, msg_service_pong}
use test_go_server.Gate.State.{authenticated, Session, Gate, External, World, put_session}
use test_go_server.Gate.Sessions.{get, bind_player}
use test_go_server.Gate.Login.{kick_old, login_session, on_login_rsp, on_service_envelope}
use test_go_server.Gate.Invariant.Frames.{reply-Same}
use test_go_server.Gate.Invariant.Login.{config-Same}
use test_go_server.Gate.Players.Defs.{Players, Players-Same, Players-if, Players-put}
use test_go_server.Gate.Players.Closing.{kick-Players}

kick_old-Players :
    {K : ℕ → ℕ → Type 0} (now id : ℕ) (o : Option ℕ) (g : Gate)
    → Players K g
    → Players K (kick_old now id o g)
unfolding kick_old
kick_old-Players now id none g v = v
kick_old-Players now id (some old) g v = Players-if (old == id) v (kick-Players now old g v)

login_session-Players :
    {K : ℕ → ℕ → Type 0} (now : ℕ) (s : Session) (o : Option ℕ) (g : Gate)
    → ((player : ℕ) → o ≡ some player → K s.id player)
    → Players K g
    → Players K (login_session now s o g)
unfolding login_session bind_player
login_session-Players now s none g has v = v
login_session-Players {K} now s (some player) g has v =
    let r = bind_player s player g in
    let t = record s { player_id = player; state = authenticated } in
    let p = Players-put g (record s { player_id = player }) (has player refl) v in
    let bound : Players K r.1 = record { nobody = p.nobody; known = p.known } in
    let kicked = kick_old-Players now s.id r.0 r.1 bound in
    Players-Same (config-Same (put_session t (kick_old now s.id r.0 r.1)) _)
      (Players-put (kick_old now s.id r.0 r.1) t (has player refl) kicked)

on_login_rsp-Players :
    {K : ℕ → ℕ → Type 0} (x : External) (w : World) (id : ℕ) (payload : Bytes) (g : Gate)
    → ((player : ℕ) → x.unmarshal_login_rsp payload ≡ some player → K id player)
    → Players K g
    → Players K (on_login_rsp x w id payload g)
unfolding on_login_rsp
on_login_rsp-Players {K} x w id payload g has v = elim (Option-cases (get id g)) [
  | inl e ↦ rw (e, on_login_rsp) v
  | inr (s, e) ↦
      let keyed = (v.known id s (unfold get in e)).0 in
      rw (e, on_login_rsp)
        (login_session-Players w.now s (x.unmarshal_login_rsp payload) g
          (λ player read. subst (λ i. K i player) (sym keyed) (has player read)) v)
]

-- An envelope of the service leaves the sessions their players, but for an answer to a login, which
-- gives its session the player that it names.
pub on_service_envelope-Players :
    {K : ℕ → ℕ → Type 0} (x : External) (w : World) (env : Envelope) (g : Gate)
    → ((player : ℕ)
        → env.msg_id ≡ msg_login_rsp
        → x.unmarshal_login_rsp env.payload ≡ some player
        → K env.session_id player)
    → Players K g
    → Players K (on_service_envelope x w env g)
unfolding on_service_envelope
on_service_envelope-Players {K} x w env g has v = Players-if (env.msg_id == msg_service_pong) v (
    Players-Same (reply-Same _ _ _ _) (elim (Bool-cases (env.msg_id == msg_login_rsp)) [
      | inl e ↦ rw e (
          on_login_rsp-Players x w env.session_id env.payload g
            (λ player read. has player ((==_iff env.msg_id msg_login_rsp).0 e) read) v)
      | inr e ↦ rw e v
    ]))
