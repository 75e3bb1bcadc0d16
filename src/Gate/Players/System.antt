-- ===== src/Gate/Players/System.antt =====
-- What gives a session of the gate process its player.
use test_go_server.Prelude.{ℕ, ◌≡◌, refl, some, ltb, lookup}
use test_go_server.Protocol.{Envelope, msg_login_rsp}
use test_go_server.Gate.State.{Gate, External, World}
use test_go_server.Gate.Conn.{new_conn}
use test_go_server.Gate.System.{
  Event, connected, received, read_failed, wrote, from_service, heartbeat_ticked, gc_ticked,
  stats_ticked, link_changed, remote_wrote, remote_pinged, new_gate, read_turn, step,
}
use test_go_server.Gate.Timers.{report_stats}
use test_go_server.Gate.Invariant.Frames.{mark_alive-Same, write_turn-Same}
use test_go_server.Gate.Invariant.Timers.{stats-Same}
use test_go_server.Gate.Invariant.System.{pool-Same}
use test_go_server.Gate.Players.Defs.{Players, Players-Same, Players-if}
use test_go_server.Gate.Players.Closing.{on_conn_close-Players}
use test_go_server.Gate.Players.Timers.{check_heartbeat-Players, gc_tick-Players}
use test_go_server.Gate.Players.Handler.{on_envelope-Players}
use test_go_server.Gate.Players.Answer.{on_service_envelope-Players}

pub new_gate-Players : (K : ℕ → ℕ → Type 0) → ((id : ℕ) → K id 0) → Players K new_gate
unfolding new_gate lookup
new_gate-Players K zero = record { nobody = zero; known = λ k s e. cc }

-- One event leaves every session its player, but for the service's answer to a login.
pub step-Players :
    {K : ℕ → ℕ → Type 0} (x : External) (w : World) (e : Event) (g : Gate)
    → ((env : Envelope) (player : ℕ)
        → e ≡ from_service env
        → env.msg_id ≡ msg_login_rsp
        → x.unmarshal_login_rsp env.payload ≡ some player
        → K env.session_id player)
    → Players K g
    → Players K (step x w e g)
unfolding step read_turn report_stats new_conn
step-Players x w (connected kind) g has v = record { nobody = v.nobody; known = v.known }
step-Players x w (received c env) g has v =
    Players-if (ltb c g.next_conn)
      (on_envelope-Players x w c env _ (Players-Same (mark_alive-Same c w.now g) v)) v
step-Players x w (read_failed c) g has v =
    Players-if (ltb c g.next_conn) (on_conn_close-Players w.now c g v) v
step-Players x w (wrote c fine) g has v = Players-Same (write_turn-Same c fine g) v
step-Players x w (from_service env) g has v =
    on_service_envelope-Players x w env g (λ player. has env player refl) v
step-Players x w heartbeat_ticked g has v = check_heartbeat-Players w.now g v
step-Players x w gc_ticked g has v = gc_tick-Players w.now g v
step-Players x w stats_ticked g has v = Players-Same (stats-Same g _) v
step-Players x w (link_changed i l) g has v = Players-Same (pool-Same g _) v
step-Players x w (remote_wrote i) g has v = Players-Same (pool-Same g _) v
step-Players x w (remote_pinged i) g has v = Players-Same (pool-Same g _) v
