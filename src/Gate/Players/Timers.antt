-- ===== src/Gate/Players/Timers.antt =====
-- The heartbeat of a client and the periodic checks leave the sessions their players.
use test_go_server.Prelude.{ℕ, ◌==◌, inl, inr, List, [], ◌∷◌, lookup, Option-cases, Bool-cases}
use test_go_server.Gate.State.{Session, Gate}
use test_go_server.Gate.Sessions.{get, gc_one, gc_loop, gc, is_expired, snapshot}
use test_go_server.Gate.Timers.{
  on_heartbeat, is_idle, count_heartbeat_timeout, heartbeat_loop, check_heartbeat, is_auth_late,
  count_login_timeout, authing_loop, check_authing_timeout, gc_tick,
}
use test_go_server.Gate.Invariant.Frames.{reply-Same}
use test_go_server.Gate.Invariant.Timers.{stats-Same, mark_alive_opt-Same}
use test_go_server.Gate.Players.Defs.{
  Players, Players-Same, Players-if, Players-put, Players-delete,
}
use test_go_server.Gate.Players.Closing.{on_session_offline-Players}

pub on_heartbeat-Players :
    {K : ℕ → ℕ → Type 0} (now id : ℕ) (g : Gate) → Players K g → Players K (on_heartbeat now id g)
unfolding on_heartbeat
on_heartbeat-Players now id g v = elim (Option-cases (get id g)) [
  | inl e ↦ rw (e, on_heartbeat) v
  | inr (s, e) ↦
      let put = Players-put g (record s { last_seen = now }) (v.known id s (unfold get in e)).1 v in
      rw (e, on_heartbeat)
        (Players-Same (reply-Same id _ _ _) (Players-Same (mark_alive_opt-Same s.conn now _) put))
]

heartbeat_loop-Players :
    {K : ℕ → ℕ → Type 0} (now : ℕ) (ids : List ℕ) (g : Gate)
    → Players K g
    → Players K (heartbeat_loop now ids g)
unfolding heartbeat_loop
heartbeat_loop-Players now [] g v = v
heartbeat_loop-Players now (id ∷ ids) g v = elim (Option-cases (get id g)) [
  | inl e ↦ rw (e, heartbeat_loop) (heartbeat_loop-Players now ids g v)
  | inr (s, e) ↦
      let off =
        on_session_offline-Players now s (count_heartbeat_timeout g)
          (v.known id s (unfold get in e)).1 (Players-Same (stats-Same g _) v) in
      rw (e, heartbeat_loop) (heartbeat_loop-Players now ids _ (Players-if (is_idle now g s) off v))
]

pub check_heartbeat-Players :
    {K : ℕ → ℕ → Type 0} (now : ℕ) (g : Gate) → Players K g → Players K (check_heartbeat now g)
unfolding check_heartbeat
check_heartbeat-Players now g v =
    Players-if (g.config.heartbeat_timeout == 0) v (heartbeat_loop-Players now (snapshot g) g v)

authing_loop-Players :
    {K : ℕ → ℕ → Type 0} (now : ℕ) (ids : List ℕ) (g : Gate)
    → Players K g
    → Players K (authing_loop now ids g)
unfolding authing_loop
authing_loop-Players now [] g v = v
authing_loop-Players now (id ∷ ids) g v = elim (Option-cases (get id g)) [
  | inl e ↦ rw (e, authing_loop) (authing_loop-Players now ids g v)
  | inr (s, e) ↦
      let off =
        on_session_offline-Players now s (count_login_timeout g) (v.known id s (unfold get in e)).1
          (Players-Same (stats-Same g _) v) in
      rw (e, authing_loop)
        (authing_loop-Players now ids _ (Players-if (is_auth_late now g s) off v))
]

gc_one-Players :
    {K : ℕ → ℕ → Type 0} (now timeout id : ℕ) (r : Gate × List Session)
    → Players K r.0
    → Players K (gc_one now timeout id r).0
unfolding gc_one
gc_one-Players now timeout id (g, removed) v = elim (Option-cases (lookup id g.by_session)) [
  | inl e ↦ rw (e, gc_one) v
  | inr (s, e) ↦ elim (Bool-cases (is_expired now timeout s)) [
    | inl old ↦ rw (e, gc_one) (rw old (Players-delete g id _ v))
    | inr young ↦ rw (e, gc_one) (rw young v)
  ]
]

gc_loop-Players :
    {K : ℕ → ℕ → Type 0} (now timeout : ℕ) (ids : List ℕ) (r : Gate × List Session)
    → Players K r.0
    → Players K (gc_loop now timeout ids r).0
unfolding gc_loop
gc_loop-Players now timeout [] r v = v
gc_loop-Players now timeout (id ∷ ids) r v =
    gc_loop-Players now timeout ids _ (gc_one-Players now timeout id r v)

pub gc_tick-Players :
    {K : ℕ → ℕ → Type 0} (now : ℕ) (g : Gate) → Players K g → Players K (gc_tick now g)
unfolding gc_tick gc check_authing_timeout
gc_tick-Players now g v =
    let h = check_authing_timeout now g in
    gc_loop-Players now g.config.heartbeat_timeout (snapshot h) (h, [])
      (authing_loop-Players now (snapshot g) g v)
