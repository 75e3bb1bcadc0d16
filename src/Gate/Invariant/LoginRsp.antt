-- ===== src/Gate/Invariant/LoginRsp.antt =====
-- The service's answers keep the invariant.
use test_go_server.Prelude.{ℕ, refl, ◌∙◌, Option, none, some, ◌==◌, arith, inl, inr, Option-cases}
use test_go_server.Protocol.{Bytes, Envelope, msg_login_rsp, msg_service_pong}
use test_go_server.Gate.State.{authenticated, Session, Gate, External, World, put_session}
use test_go_server.Gate.Sessions.{get, bind_player}
use test_go_server.Gate.Login.{
  kick_old, login_session, on_login_rsp, on_service_envelope, handle_duplicate_login,
}
use test_go_server.Gate.Invariant.Defs.{
  Good, Inv, Inv-Same, Inv-put, Inv-if, SameConns, SameConns-refl, SameConns-trans, SameConns-if,
  sessions-SameConns, Same-conns,
}
use test_go_server.Gate.Invariant.Frames.{reply-Same}
use test_go_server.Gate.Invariant.Offline.{kick-Inv, kick-SameConns, Good-self}
use test_go_server.Gate.Invariant.Login.{bind_player-Inv, kick_old-Inv, config-Same}

kick_old-SameConns : (now id : ℕ) (o : Option ℕ) (g : Gate) → SameConns g (kick_old now id o g)
unfolding kick_old
kick_old-SameConns now id none g = SameConns-refl g
kick_old-SameConns now id (some old) g =
    SameConns-if (old == id) (SameConns-refl g) (kick-SameConns now old g)

Good-login :
    {g h : Gate} (k player : ℕ) (s : Session)
    → SameConns g h
    → Good g k s
    → Good h k (record s { player_id = player; state = authenticated })
Good-login {g} {h} k player s p v = record {
  keyed = v.keyed;
  named = v.named;
  begun = λ e. cc;
  kept = λ e. cc;
  unplugged = λ e. cc;
  plugged = λ e. inr refl;
  bound = λ c e. (p.ids c ∙ (v.bound c e).0, omega (arith, (v.bound c e).1, p.limit));
}

login-SameConns :
    (now : ℕ) (s : Session) (player : ℕ) (g : Gate)
    → let r = bind_player s player g in SameConns g (kick_old now s.id r.0 r.1)
unfolding bind_player
login-SameConns now s player g =
    SameConns-trans (sessions-SameConns g _ _)
      (kick_old-SameConns now s.id (bind_player s player g).0 (bind_player s player g).1)

login_session-Inv :
    (now : ℕ) (s : Session) (o : Option ℕ) (g : Gate)
    → Inv g
    → Good g s.id s
    → Inv (login_session now s o g)
unfolding login_session
login_session-Inv now s none g v good = v
login_session-Inv now s (some player) g v good =
    let r = bind_player s player g in
    let t = record s { player_id = player; state = authenticated } in
    let kicked = kick_old-Inv now s.id r.0 r.1 (bind_player-Inv g s player v good) in
    let put =
      Inv-put (kick_old now s.id r.0 r.1) t kicked
        (Good-login s.id player s (login-SameConns now s player g) good) in
    Inv-Same (config-Same (put_session t (kick_old now s.id r.0 r.1)) _) put

pub on_login_rsp-Inv :
    (x : External) (w : World) (id : ℕ) (payload : Bytes) (g : Gate)
    → Inv g
    → Inv (on_login_rsp x w id payload g)
unfolding on_login_rsp
on_login_rsp-Inv x w id payload g v = elim (Option-cases (get id g)) [
  | inl e ↦ rw (e, on_login_rsp) v
  | inr (s, e) ↦
      rw (e, on_login_rsp)
        (login_session-Inv w.now s (x.unmarshal_login_rsp payload) g v
          (Good-self s (v.good id s (unfold get in e))))
]

login_session-SameConns :
    (now : ℕ) (s : Session) (o : Option ℕ) (g : Gate) → SameConns g (login_session now s o g)
unfolding login_session
login_session-SameConns now s none g = SameConns-refl g
login_session-SameConns now s (some player) g =
    let r = bind_player s player g in
    let t = record s { player_id = player; state = authenticated } in
    SameConns-trans (login-SameConns now s player g) (
      SameConns-trans (sessions-SameConns (kick_old now s.id r.0 r.1) _ _)
        (Same-conns (config-Same (put_session t (kick_old now s.id r.0 r.1)) _)))

on_login_rsp-SameConns :
    (x : External) (w : World) (id : ℕ) (payload : Bytes) (g : Gate)
    → SameConns g (on_login_rsp x w id payload g)
unfolding on_login_rsp
on_login_rsp-SameConns x w id payload g = elim (Option-cases (get id g)) [
  | inl e ↦ rw (e, on_login_rsp) (SameConns-refl g)
  | inr (s, e) ↦
      rw (e, on_login_rsp) (login_session-SameConns w.now s (x.unmarshal_login_rsp payload) g)
]

pub on_service_envelope-Inv :
    (x : External) (w : World) (env : Envelope) (g : Gate)
    → Inv g
    → Inv (on_service_envelope x w env g)
unfolding on_service_envelope
on_service_envelope-Inv x w env g v = Inv-if (env.msg_id == msg_service_pong) v (
    Inv-Same (reply-Same _ _ _ _) (
      Inv-if (env.msg_id == msg_login_rsp) (on_login_rsp-Inv x w env.session_id env.payload g v) v))

pub on_service_envelope-SameConns :
    (x : External) (w : World) (env : Envelope) (g : Gate)
    → SameConns g (on_service_envelope x w env g)
unfolding on_service_envelope
on_service_envelope-SameConns x w env g =
    SameConns-if (env.msg_id == msg_service_pong) (SameConns-refl g) (
      SameConns-trans
        (SameConns-if (env.msg_id == msg_login_rsp)
          (on_login_rsp-SameConns x w env.session_id env.payload g) (SameConns-refl g))
        (Same-conns (reply-Same _ _ _ _)))

pub handle_duplicate_login-Inv :
    (now : ℕ) (s : Session) (c : ℕ) (g : Gate) → Inv g → Inv (handle_duplicate_login now s c g)
unfolding handle_duplicate_login
handle_duplicate_login-Inv now s c g v = elim (Option-cases s.conn) [
  | inl e ↦ rw (e, handle_duplicate_login) (kick-Inv now s.id g v)
  | inr (d, e) ↦ rw (e, handle_duplicate_login) (Inv-if (d == c) v (kick-Inv now s.id g v))
]

pub handle_duplicate_login-SameConns :
    (now : ℕ) (s : Session) (c : ℕ) (g : Gate) → SameConns g (handle_duplicate_login now s c g)
unfolding handle_duplicate_login
handle_duplicate_login-SameConns now s c g = elim (Option-cases s.conn) [
  | inl e ↦ rw (e, handle_duplicate_login) (kick-SameConns now s.id g)
  | inr (d, e) ↦
      rw (e, handle_duplicate_login)
        (SameConns-if (d == c) (SameConns-refl g) (kick-SameConns now s.id g))
]
