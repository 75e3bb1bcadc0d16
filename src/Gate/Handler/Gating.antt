-- ===== src/Gate/Handler/Gating.antt =====
-- What a client without a session, or before a login is under way, can make the gate do.
use test_go_server.Prelude.{
  ℕ, ◌≡◌, ◌≢◌, refl, ◌⊎◌, inl, inr, Option, none, some, false, ◌==◌, arith, Bool-cases,
}
use test_go_server.Protocol.{Envelope, msg_resume_req, msg_login_req}
use test_go_server.Gate.State.{online, offline, Session, Gate, External, World}
use test_go_server.Gate.Sessions.{get}
use test_go_server.Gate.Conn.{close}
use test_go_server.Gate.Handler.{on_bound, after_login, on_envelope}

-- No session, or one that is online or offline.
abbrev pub NotLoggedIn : Option Session → Type 0
NotLoggedIn none = Unit {0}
NotLoggedIn (some s) = (s.state ≡ online) ⊎ (s.state ≡ offline)

-- The connection is bound to no session, to one that is not kept, or to one that is online or
-- offline.
abbrev pub Outside : ℕ → Gate → Type 0
Outside c g = ((g.conns c).session_id ≡ 0) ⊎ NotLoggedIn (get (g.conns c).session_id g)

on_bound-NotLoggedIn :
    (x : External) (w : World) (o : Option Session) (c : ℕ) (env : Envelope) (g : Gate)
    → (env.msg_id == msg_login_req) ≡ false
    → NotLoggedIn o
    → (on_bound x w o c env g ≡ g) ⊎ (on_bound x w o c env g ≡ close c g)
unfolding on_bound
on_bound-NotLoggedIn x w none c env g no_login h = inr refl
on_bound-NotLoggedIn x w (some s) c env g no_login (inl on) =
    inl (unfold after_login in simp (on, no_login))
on_bound-NotLoggedIn x w (some s) c env g no_login (inr off) = inl (simp off)

-- An envelope that asks for no resume and no login, on a connection that is bound to no session, to
-- one that is not kept, or to one that is online or offline, is dropped: at most the connection is
-- closed, and all else in the gate is as it was.
pub on_envelope-Outside :
    (x : External) (w : World) (c : ℕ) (env : Envelope) (g : Gate)
    → env.msg_id ≢ msg_resume_req
    → env.msg_id ≢ msg_login_req
    → Outside c g
    → (on_envelope x w c env g ≡ g) ⊎ (on_envelope x w c env g ≡ close c g)
unfolding on_envelope
on_envelope-Outside x w c env g not_resume not_login out =
    elim (Bool-cases ((g.conns c).session_id == 0)) [
      | inl free ↦ inr (rw (no_resume, free) (rw no_login))
      | inr bound ↦
          rw (no_resume, bound)
            (on_bound-NotLoggedIn x w (get (g.conns c).session_id g) c env g no_login
              (known out bound))
    ]
  where
    no_resume : (env.msg_id == msg_resume_req) ≡ false
    no_resume = ground arith

    no_login : (env.msg_id == msg_login_req) ≡ false
    no_login = ground arith

    known :
        Outside c g
        → ((g.conns c).session_id == 0) ≡ false
        → NotLoggedIn (get (g.conns c).session_id g)
    known (inl e) b = absurd (ground arith)
    known (inr h) b = h
