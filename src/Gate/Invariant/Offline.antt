-- ===== src/Gate/Invariant/Offline.antt =====
-- Closing sessions keeps the invariant.
use test_go_server.Prelude.{
  ℕ, refl, sym, subst, Option, none, some, Bool, true, false, ◌&&◌, if◌then◌else◌, arith, inl, inr,
  Option-cases,
}
use test_go_server.Protocol.{Error, session_not_found}
use test_go_server.Gate.State.{Session, Gate, put_session, is_closed, is_offline, is_none}
use test_go_server.Gate.Sessions.{get}
use test_go_server.Gate.Offline.{gone, on_session_offline, kick, on_conn_close, close_opt}
use test_go_server.Gate.Invariant.Defs.{
  Good, Inv, Same, Inv-Same, Inv-put, Good-conns, Inv-if, SameConns, SameConns-refl,
  SameConns-trans, SameConns-if, sessions-SameConns, Same-conns,
}
use test_go_server.Gate.Invariant.Frames.{close_opt-Same, notify_player_offline-Same}

pub Good-gone : (g : Gate) (k now : ℕ) (s : Session) → Good g k s → Good g k (gone now s)
Good-gone g k now s v = record {
  keyed = v.keyed;
  named = v.named;
  begun = λ e. cc;
  kept = λ e. cc;
  unplugged = λ e. refl;
  plugged = λ e. inl refl;
  bound = λ c e. cc;
}

-- A good session under its own ID, carried over to a gate with the same bindings.
pub Good-Same : {g h : Gate} (k : ℕ) (s : Session) → Same g h → Good g k s → Good h k s
Good-Same {g} {h} k s p v = Good-conns g h k s (λ c _. p.ids c) (omega (arith, p.limit)) v

pub Good-SameConns : {g h : Gate} (k : ℕ) (s : Session) → SameConns g h → Good g k s → Good h k s
Good-SameConns {g} {h} k s p v = Good-conns g h k s (λ c _. p.ids c) (omega (arith, p.limit)) v

pub Good-self : {g : Gate} {k : ℕ} (s : Session) → Good g k s → Good g s.id s
Good-self {g} s v = subst (λ j. Good g j s) (sym v.keyed) v

pub on_session_offline-Inv :
    (now k : ℕ) (s : Session) (g : Gate) → Inv g → Good g k s → Inv (on_session_offline now s g)
unfolding on_session_offline
on_session_offline-Inv now k s g v good = Inv-if (is_closed s.state) v (
    Inv-if (is_offline s.state && is_none s.conn) v
      (Inv-if (is_offline s.state) put (Inv-Same (notify_player_offline-Same (gone now s) _) put)))
  where
    closed_inv : Inv (close_opt s.conn g)
    closed_inv = Inv-Same (close_opt-Same s.conn g) v

    put : Inv (put_session (gone now s) (close_opt s.conn g))
    put = Inv-put (close_opt s.conn g) (gone now s) closed_inv (
        Good-Same s.id (gone now s) (close_opt-Same s.conn g)
          (Good-gone g s.id now s (Good-self s good)))

pub kick-Inv : (now id : ℕ) (g : Gate) → Inv g → Inv (kick now id g).0
unfolding kick
kick-Inv now id g v = elim (Option-cases (get id g)) [
  | inl e ↦ rw (e, kick) v
  | inr (s, e) ↦
      let off = on_session_offline-Inv now id s g v (v.good id s (unfold get in e)) in
      rw (e, kick) (pick s (is_none s.conn) off)
]
  where
    pick :
        (o : Session) (b : Bool)
        → Inv (on_session_offline now o g)
        → let r : Gate × Option Error =
            if b then (g, some session_not_found) else (on_session_offline now o g, none) in
          Inv r.0
    pick o true off = v
    pick o false off = off

pub on_conn_close-Inv : (now c : ℕ) (g : Gate) → Inv g → Inv (on_conn_close now c g)
unfolding on_conn_close
on_conn_close-Inv now c g v = elim (Option-cases (get (g.conns c).session_id g)) [
  | inl e ↦ rw (e, on_conn_close) v
  | inr (s, e) ↦
      let good = v.good (g.conns c).session_id s (unfold get in e) in
      rw (e, on_conn_close)
        (Inv-Same (notify_player_offline-Same (gone now s) (put_session (gone now s) g))
          (Inv-put g (gone now s) v (Good-gone g s.id now s (Good-self s good))))
]

pub on_session_offline-SameConns :
    (now : ℕ) (s : Session) (g : Gate) → SameConns g (on_session_offline now s g)
unfolding on_session_offline
on_session_offline-SameConns now s g = SameConns-if (is_closed s.state) (SameConns-refl g) (
    SameConns-if (is_offline s.state && is_none s.conn) (SameConns-refl g) (
      SameConns-if (is_offline s.state) put
        (SameConns-trans put (Same-conns (notify_player_offline-Same (gone now s) _)))))
  where
    put : SameConns g (put_session (gone now s) (close_opt s.conn g))
    put =
        SameConns-trans (Same-conns (close_opt-Same s.conn g))
          (sessions-SameConns (close_opt s.conn g) _ _)

pub kick-SameConns : (now id : ℕ) (g : Gate) → SameConns g (kick now id g).0
unfolding kick
kick-SameConns now id g = elim (Option-cases (get id g)) [
  | inl e ↦ rw (e, kick) (SameConns-refl g)
  | inr (s, e) ↦
      let off = on_session_offline-SameConns now s g in
      let dropped : Gate × Option Error = (on_session_offline now s g, none) in
      rw (e, kick)
        (pick (is_none s.conn) (g, some session_not_found) dropped (SameConns-refl g) off)
]
  where
    pick :
        (b : Bool) (p q : Gate × Option Error)
        → SameConns g p.0
        → SameConns g q.0
        → let r : Gate × Option Error = if b then p else q in SameConns g r.0
    pick true p q h k = h
    pick false p q h k = k

pub on_conn_close-SameConns : (now c : ℕ) (g : Gate) → SameConns g (on_conn_close now c g)
unfolding on_conn_close
on_conn_close-SameConns now c g = elim (Option-cases (get (g.conns c).session_id g)) [
  | inl e ↦ rw (e, on_conn_close) (SameConns-refl g)
  | inr (s, e) ↦
      rw (e, on_conn_close)
        (SameConns-trans (sessions-SameConns g _ _)
          (Same-conns (notify_player_offline-Same (gone now s) (put_session (gone now s) g))))
]
