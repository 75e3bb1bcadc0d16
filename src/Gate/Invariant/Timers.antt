-- ===== src/Gate/Invariant/Timers.antt =====
-- The periodic checks keep the invariant.
use test_go_server.Prelude.{
  ℕ, ◌≡◌, refl, Option, none, some, ◌==◌, arith, inl, inr, List, [], ◌∷◌, lookup, delete,
  lookup-delete, Option-cases, Bool-cases,
}
use test_go_server.Gate.State.{Session, Gate, Stats, put_session}
use test_go_server.Gate.Sessions.{get, gc_one, gc_loop, gc, is_expired, snapshot}
use test_go_server.Gate.Timers.{
  on_heartbeat, is_idle, count_heartbeat_timeout, heartbeat_loop, check_heartbeat, is_auth_late,
  count_login_timeout, authing_loop, check_authing_timeout, gc_tick, mark_alive_opt,
}
use test_go_server.Gate.Invariant.Defs.{
  Good, Inv, Same, Same-refl, Inv-Same, Inv-put, Inv-if, Good-conns, SameConns, SameConns-refl,
  SameConns-trans, SameConns-if, sessions-SameConns, Same-conns,
}
use test_go_server.Gate.Invariant.Frames.{mark_alive-Same, reply-Same}
use test_go_server.Gate.Invariant.Offline.{
  on_session_offline-Inv, Good-Same, Good-self, on_session_offline-SameConns,
}

-- Counters and the player index are no part of the invariant.
pub stats-Same : (g : Gate) (n : Stats) → Same g (record g { stats = n })
stats-Same g n = record { sessions = refl; ids = λ c. refl; limit = refl; next = refl }

Good-seen :
    (g : Gate) (k now : ℕ) (s : Session) → Good g k s → Good g k (record s { last_seen = now })
Good-seen g k now s v = record {
  keyed = v.keyed;
  named = v.named;
  begun = v.begun;
  kept = v.kept;
  unplugged = v.unplugged;
  plugged = v.plugged;
  bound = v.bound;
}

pub mark_alive_opt-Same : (o : Option ℕ) (now : ℕ) (g : Gate) → Same g (mark_alive_opt o now g)
unfolding mark_alive_opt
mark_alive_opt-Same none now g = Same-refl g
mark_alive_opt-Same (some c) now g = mark_alive-Same c now g

pub on_heartbeat-Inv : (now id : ℕ) (g : Gate) → Inv g → Inv (on_heartbeat now id g)
unfolding on_heartbeat
on_heartbeat-Inv now id g v = elim (Option-cases (get id g)) [
  | inl e ↦ rw (e, on_heartbeat) v
  | inr (s, e) ↦
      let good = v.good id s (unfold get in e) in
      let put =
        Inv-put g (record s { last_seen = now }) v (Good-seen g s.id now s (Good-self s good)) in
      rw (e, on_heartbeat)
        (Inv-Same (reply-Same id _ _ _) (Inv-Same (mark_alive_opt-Same s.conn now _) put))
]

heartbeat_loop-Inv : (now : ℕ) (ids : List ℕ) (g : Gate) → Inv g → Inv (heartbeat_loop now ids g)
unfolding heartbeat_loop
heartbeat_loop-Inv now [] g v = v
heartbeat_loop-Inv now (id ∷ ids) g v = elim (Option-cases (get id g)) [
  | inl e ↦ rw (e, heartbeat_loop) (heartbeat_loop-Inv now ids g v)
  | inr (s, e) ↦
      let counted = stats-Same g _ in
      let off =
        on_session_offline-Inv now id s (count_heartbeat_timeout g) (Inv-Same counted v)
          (Good-Same id s counted (v.good id s (unfold get in e))) in
      rw (e, heartbeat_loop) (heartbeat_loop-Inv now ids _ (Inv-if (is_idle now g s) off v))
]

pub check_heartbeat-Inv : (now : ℕ) (g : Gate) → Inv g → Inv (check_heartbeat now g)
unfolding check_heartbeat
check_heartbeat-Inv now g v =
    Inv-if (g.config.heartbeat_timeout == 0) v (heartbeat_loop-Inv now (snapshot g) g v)

authing_loop-Inv : (now : ℕ) (ids : List ℕ) (g : Gate) → Inv g → Inv (authing_loop now ids g)
unfolding authing_loop
authing_loop-Inv now [] g v = v
authing_loop-Inv now (id ∷ ids) g v = elim (Option-cases (get id g)) [
  | inl e ↦ rw (e, authing_loop) (authing_loop-Inv now ids g v)
  | inr (s, e) ↦
      let counted = stats-Same g _ in
      let off =
        on_session_offline-Inv now id s (count_login_timeout g) (Inv-Same counted v)
          (Good-Same id s counted (v.good id s (unfold get in e))) in
      rw (e, authing_loop) (authing_loop-Inv now ids _ (Inv-if (is_auth_late now g s) off v))
]

-- Dropping a session and touching the player index.
Inv-delete :
    (g : Gate) (id : ℕ) (m : List (ℕ × ℕ))
    → Inv g
    → Inv (record g { by_player = m; by_session = delete id g.by_session })
Inv-delete g id m v = record {
  good = λ k s e.
      let old : lookup k g.by_session ≡ some s = ground (arith, lookup-delete id k g.by_session) in
      Good-conns g (record g { by_player = m; by_session = delete id g.by_session }) k s
        (λ c _. refl) (omega arith) (v.good k s old);
}

gc_one-Inv :
    (now timeout id : ℕ) (r : Gate × List Session) → Inv r.0 → Inv (gc_one now timeout id r).0
unfolding gc_one
gc_one-Inv now timeout id (g, removed) v = elim (Option-cases (lookup id g.by_session)) [
  | inl e ↦ rw (e, gc_one) v
  | inr (s, e) ↦ elim (Bool-cases (is_expired now timeout s)) [
    | inl old ↦ rw (e, gc_one) (rw old (Inv-delete g id _ v))
    | inr young ↦ rw (e, gc_one) (rw young v)
  ]
]

gc_loop-Inv :
    (now timeout : ℕ) (es : List ℕ) (r : Gate × List Session)
    → Inv r.0
    → Inv (gc_loop now timeout es r).0
unfolding gc_loop
gc_loop-Inv now timeout [] r v = v
gc_loop-Inv now timeout (e ∷ es) r v = gc_loop-Inv now timeout es _ (gc_one-Inv now timeout e r v)

pub gc_tick-Inv : (now : ℕ) (g : Gate) → Inv g → Inv (gc_tick now g)
unfolding gc_tick gc check_authing_timeout
gc_tick-Inv now g v =
    let h = check_authing_timeout now g in
    gc_loop-Inv now g.config.heartbeat_timeout (snapshot h) (h, [])
      (authing_loop-Inv now (snapshot g) g v)

heartbeat_loop-SameConns :
    (now : ℕ) (ids : List ℕ) (g : Gate) → SameConns g (heartbeat_loop now ids g)
unfolding heartbeat_loop
heartbeat_loop-SameConns now [] g = SameConns-refl g
heartbeat_loop-SameConns now (id ∷ ids) g = elim (Option-cases (get id g)) [
  | inl e ↦ rw (e, heartbeat_loop) (heartbeat_loop-SameConns now ids g)
  | inr (s, e) ↦
      let off =
        SameConns-trans (Same-conns (stats-Same g _))
          (on_session_offline-SameConns now s (count_heartbeat_timeout g)) in
      rw (e, heartbeat_loop)
        (SameConns-trans (SameConns-if (is_idle now g s) off (SameConns-refl g))
          (heartbeat_loop-SameConns now ids _))
]

pub check_heartbeat-SameConns : (now : ℕ) (g : Gate) → SameConns g (check_heartbeat now g)
unfolding check_heartbeat
check_heartbeat-SameConns now g =
    SameConns-if (g.config.heartbeat_timeout == 0) (SameConns-refl g)
      (heartbeat_loop-SameConns now (snapshot g) g)

authing_loop-SameConns : (now : ℕ) (ids : List ℕ) (g : Gate) → SameConns g (authing_loop now ids g)
unfolding authing_loop
authing_loop-SameConns now [] g = SameConns-refl g
authing_loop-SameConns now (id ∷ ids) g = elim (Option-cases (get id g)) [
  | inl e ↦ rw (e, authing_loop) (authing_loop-SameConns now ids g)
  | inr (s, e) ↦
      let off =
        SameConns-trans (Same-conns (stats-Same g _))
          (on_session_offline-SameConns now s (count_login_timeout g)) in
      rw (e, authing_loop)
        (SameConns-trans (SameConns-if (is_auth_late now g s) off (SameConns-refl g))
          (authing_loop-SameConns now ids _))
]

gc_one-SameConns :
    (now timeout id : ℕ) (r : Gate × List Session) → SameConns r.0 (gc_one now timeout id r).0
unfolding gc_one
gc_one-SameConns now timeout id (g, removed) = elim (Option-cases (lookup id g.by_session)) [
  | inl e ↦ rw (e, gc_one) (SameConns-refl g)
  | inr (s, e) ↦ elim (Bool-cases (is_expired now timeout s)) [
    | inl old ↦ rw (e, gc_one) (rw old (sessions-SameConns g _ _))
    | inr young ↦ rw (e, gc_one) (rw young (SameConns-refl g))
  ]
]

gc_loop-SameConns :
    (now timeout : ℕ) (es : List ℕ) (r : Gate × List Session)
    → SameConns r.0 (gc_loop now timeout es r).0
unfolding gc_loop
gc_loop-SameConns now timeout [] r = SameConns-refl r.0
gc_loop-SameConns now timeout (e ∷ es) r =
    SameConns-trans (gc_one-SameConns now timeout e r)
      (gc_loop-SameConns now timeout es (gc_one now timeout e r))

pub gc_tick-SameConns : (now : ℕ) (g : Gate) → SameConns g (gc_tick now g)
unfolding gc_tick gc check_authing_timeout
gc_tick-SameConns now g =
    let h = check_authing_timeout now g in
    SameConns-trans (authing_loop-SameConns now (snapshot g) g)
      (gc_loop-SameConns now g.config.heartbeat_timeout (snapshot h) (h, []))

pub on_heartbeat-SameConns : (now id : ℕ) (g : Gate) → SameConns g (on_heartbeat now id g)
unfolding on_heartbeat
on_heartbeat-SameConns now id g = elim (Option-cases (get id g)) [
  | inl e ↦ rw (e, on_heartbeat) (SameConns-refl g)
  | inr (s, e) ↦
      rw (e, on_heartbeat)
        (SameConns-trans
          (SameConns-trans (sessions-SameConns g _ _) (
            Same-conns
              (mark_alive_opt-Same s.conn now (put_session (record s { last_seen = now }) g))))
          (Same-conns (reply-Same id _ _ _)))
]
