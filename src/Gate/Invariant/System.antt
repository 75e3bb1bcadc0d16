-- ===== src/Gate/Invariant/System.antt =====
-- Every history of a gate process keeps the invariant.
use test_go_server.Prelude.{
  ℕ, ◌+◌, ◌≤◌, ◌<◌, refl, Option, Bool, true, false, ltb, if◌then◌else◌, arith, inl, inr, List, [],
  ◌∷◌, length, lookup, Bool-cases, ltb→lt,
}
use test_go_server.Protocol.{Envelope}
use test_go_server.Gate.State.{ConnType, Gate, External, World, Remote}
use test_go_server.Gate.Conn.{new_conn, mark_alive}
use test_go_server.Gate.System.{
  Event, connected, received, read_failed, wrote, from_service, heartbeat_ticked, gc_ticked,
  stats_ticked, link_changed, remote_wrote, remote_pinged, new_gate, read_turn, step, run,
}
use test_go_server.Gate.Timers.{report_stats}
use test_go_server.Gate.Invariant.Defs.{Inv, Same, Inv-Same, Inv-if, Good-conns}
use test_go_server.Gate.Invariant.Frames.{mark_alive-Same, write_turn-Same}
use test_go_server.Gate.Invariant.Offline.{on_conn_close-Inv, on_conn_close-SameConns}
use test_go_server.Gate.Invariant.Timers.{
  check_heartbeat-Inv, check_heartbeat-SameConns, gc_tick-Inv, gc_tick-SameConns, stats-Same,
}
use test_go_server.Gate.Invariant.LoginRsp.{on_service_envelope-Inv, on_service_envelope-SameConns}
use test_go_server.Gate.Invariant.Handler.{on_envelope-Inv}
use test_go_server.Gate.Invariant.Ids.{on_envelope-next}

-- The last ID that an int64 counter gives out before it is back at 0.
abbrev pub max_id : ℕ
max_id = 18446744073709551615

pub new_gate-Inv : Inv new_gate
unfolding new_gate lookup
new_gate-Inv = record { good = λ k s e. cc }

new_conn-Inv : (kind : ConnType) (now : ℕ) (g : Gate) → Inv g → Inv (new_conn kind now g)
unfolding new_conn
new_conn-Inv kind now g v = record {
  good = λ k s e.
      Good-conns g (new_conn kind now g) k s (λ c f. ground (arith, (v.good k s e).bound c f))
        (omega arith) (v.good k s e);
}

pub pool-Same : (g : Gate) (p : Option (List Remote)) → Same g (record g { service_pool = p })
pool-Same g p = record { sessions = refl; ids = λ c. refl; limit = refl; next = refl }

read_turn-Inv :
    (x : External) (w : World) (c : ℕ) (env : Envelope) (g : Gate)
    → Inv g
    → c < g.next_conn
    → g.next_id < max_id
    → Inv (read_turn x w c env g)
unfolding read_turn
read_turn-Inv x w c env g v lt room =
    let same = mark_alive-Same c w.now g in
    on_envelope-Inv x w c env (mark_alive c w.now g) (Inv-Same same v) (omega (arith, same.limit))
      (λ e. omega (arith, same.next))

-- One event keeps the invariant, as long as the session IDs have not run out.
pub step-Inv :
    (x : External) (w : World) (e : Event) (g : Gate)
    → Inv g
    → g.next_id < max_id
    → Inv (step x w e g)
unfolding step
step-Inv x w (connected kind) g v room = new_conn-Inv kind w.now g v
step-Inv x w (received c env) g v room = elim (Bool-cases (ltb c g.next_conn)) [
  | inl here ↦ rw here (read_turn-Inv x w c env g v (ltb→lt _ _ here) room)
  | inr none_such ↦ rw none_such v
]
step-Inv x w (read_failed c) g v room = Inv-if (ltb c g.next_conn) (on_conn_close-Inv w.now c g v) v
step-Inv x w (wrote c fine) g v room = Inv-Same (write_turn-Same c fine g) v
step-Inv x w (from_service env) g v room = on_service_envelope-Inv x w env g v
step-Inv x w heartbeat_ticked g v room = check_heartbeat-Inv w.now g v
step-Inv x w gc_ticked g v room = gc_tick-Inv w.now g v
step-Inv x w stats_ticked g v room = unfold report_stats in Inv-Same (stats-Same g _) v
step-Inv x w (link_changed i l) g v room = Inv-Same (pool-Same g _) v
step-Inv x w (remote_wrote i) g v room = Inv-Same (pool-Same g _) v
step-Inv x w (remote_pinged i) g v room = Inv-Same (pool-Same g _) v

next_le :
    (x y : Gate) {n : ℕ} (b : Bool)
    → x.next_id ≤ n
    → y.next_id ≤ n
    → (if b then x else y).next_id ≤ n
next_le x y true p q = p
next_le x y false p q = q

step-next :
    (x : External) (w : World) (e : Event) (g : Gate)
    → g.next_id < max_id
    → (step x w e g).next_id ≤ g.next_id + 1
unfolding step read_turn report_stats new_conn
step-next x w (connected kind) g room = omega arith
step-next x w (received c env) g room =
    next_le _ _ (ltb c g.next_conn)
      (omega (
        arith,
        on_envelope-next x w c env (mark_alive c w.now g),
        (mark_alive-Same c w.now g).next,
      ))
      (omega arith)
step-next x w (read_failed c) g room =
    next_le _ _ (ltb c g.next_conn) (omega (arith, (on_conn_close-SameConns w.now c g).next))
      (omega arith)
step-next x w (wrote c fine) g room = omega (arith, (write_turn-Same c fine g).next)
step-next x w (from_service env) g room =
    omega (arith, (on_service_envelope-SameConns x w env g).next)
step-next x w heartbeat_ticked g room = omega (arith, (check_heartbeat-SameConns w.now g).next)
step-next x w gc_ticked g room = omega (arith, (gc_tick-SameConns w.now g).next)
step-next x w stats_ticked g room = omega arith
step-next x w (link_changed i l) g room = omega arith
step-next x w (remote_wrote i) g room = omega arith
step-next x w (remote_pinged i) g room = omega arith

run_from-Inv :
    (x : External) (es : List (World × Event)) (g : Gate)
    → Inv g
    → g.next_id + length es ≤ max_id
    → Inv (run x es g)
unfolding run
run_from-Inv x [] g v room = v
run_from-Inv x ((w, e) ∷ es) g v room =
    run_from-Inv x es (step x w e g) (step-Inv x w e g v (omega arith))
      (omega (arith, step-next x w e g (omega arith)))

-- After any sequence of events from the start, no longer than there are session IDs, every kept
-- session is good: it has its own ID, which is not 0, is in one of the four states of a kept
-- session, has no connection when it is offline and lacks one only when it is offline or
-- authenticated, and its connection is bound to it.
pub run-Inv :
    (x : External) (es : List (World × Event)) → length es ≤ max_id → Inv (run x es new_gate)
run-Inv x es room = run_from-Inv x es new_gate new_gate-Inv (unfold new_gate in omega arith)
