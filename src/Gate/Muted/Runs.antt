-- ===== src/Gate/Muted/Runs.antt =====
-- Once the limit on unknown messages of a gate process is 0, it stays 0.
use test_go_server.Prelude.{ℕ, ◌≡◌, refl, ap, ◌∙◌, ltb, List, [], ◌∷◌, arith}
use test_go_server.Protocol.{Envelope}
use test_go_server.Gate.State.{Session, Gate, External, World}
use test_go_server.Gate.Conn.{new_conn, mark_alive}
use test_go_server.Gate.System.{
  Event, connected, received, read_failed, wrote, from_service, heartbeat_ticked, gc_ticked,
  stats_ticked, link_changed, remote_wrote, remote_pinged, read_turn, step, run,
}
use test_go_server.Gate.Timers.{report_stats}
use test_go_server.Gate.Resume.{take_over, handle_resume}
use test_go_server.Gate.Resume.Outcome.{Accepts, handle-take_over}
use test_go_server.Gate.Handler.{count_unknown, unknown_route}
use test_go_server.Gate.Muted.{
  Muted, Muted-if, write_turn-Muted, on_conn_close-Muted, check_heartbeat-Muted, gc_tick-Muted,
  on_service_envelope-Muted,
}
use test_go_server.Gate.Muted.Handler.{on_envelope-Muted}

step-Muted : (x : External) (w : World) (e : Event) (g : Gate) → Muted g → Muted (step x w e g)
unfolding step read_turn report_stats new_conn mark_alive
step-Muted x w (connected kind) g v = v
step-Muted x w (received c env) g v =
    Muted-if (ltb c g.next_conn) _ g (on_envelope-Muted x w c env (mark_alive c w.now g) v) v
step-Muted x w (read_failed c) g v =
    Muted-if (ltb c g.next_conn) _ g (on_conn_close-Muted w.now c g v) v
step-Muted x w (wrote c fine) g v = write_turn-Muted c fine g v
step-Muted x w (from_service env) g v = on_service_envelope-Muted x w env g v
step-Muted x w heartbeat_ticked g v = check_heartbeat-Muted w.now g v
step-Muted x w gc_ticked g v = gc_tick-Muted w.now g v
step-Muted x w stats_ticked g v = v
step-Muted x w (link_changed i l) g v = v
step-Muted x w (remote_wrote i) g v = v
step-Muted x w (remote_pinged i) g v = v

run-Muted : (x : External) (es : List (World × Event)) (g : Gate) → Muted g → Muted (run x es g)
unfolding run
run-Muted x [] g v = v
run-Muted x ((w, e) ∷ es) g v = run-Muted x es (step x w e g) (step-Muted x w e g v)

take_over-Muted :
    (x : External) (now c : ℕ) (s : Session) (g : Gate) → Muted (take_over x now c s g)
unfolding take_over
take_over-Muted x now c s g = refl

unlimited : (now : ℕ) (t : Session) (g : Gate) → Muted g → unknown_route now t g ≡ count_unknown t g
unfolding unknown_route
unlimited now t g e = ground (arith, e)

-- After an accepted resume of any session, and whatever clients, the service and the tickers do after
-- it, an unknown message of any session t is only counted, however many the session has sent: the
-- limit on them is 0 for the whole gate and stays so.
pub handle_resume-mutes :
    (x : External) (w : World) (now c k : ℕ) (env : Envelope) (s t : Session) (g : Gate)
    (es : List (World × Event))
    → Accepts x c k env s g
    → let h = run x es (handle_resume x w c env g) in
      (h.config.unknown_msg_kick_count ≡ 0) × (unknown_route now t h ≡ count_unknown t h)
handle_resume-mutes x w now c k env s t g es a =
    let start =
      ap (λ h. h.config.unknown_msg_kick_count) (handle-take_over x w c k env s g a)
      ∙ take_over-Muted x w.now c s g in
    let h = run x es (handle_resume x w c env g) in
    let none_left : Muted h = run-Muted x es (handle_resume x w c env g) start in
    (none_left, unlimited now t h none_left)
