-- ===== src/Gate/Invariant/Frames.antt =====
-- The operations that leave the sessions and the bindings of connections as they were.
use test_go_server.Prelude.{ℕ, ◌≡◌, refl, Option, none, some, Bool, ◌==◌, arith}
use test_go_server.Protocol.{Bytes, Envelope}
use test_go_server.Router.{ModuleName, no_module}
use test_go_server.Gate.State.{Conn, Gate, Session, set_conn}
use test_go_server.Gate.Conn.{close, send, mark_alive, write_turn, reply}
use test_go_server.Gate.Offline.{
  send_to_service, notify_player_resume, notify_player_offline, close_opt,
}
use test_go_server.Gate.Invariant.Defs.{Same, Same-refl, Same-if}

pub set_conn-Same :
    (c : ℕ) (v : Conn) (g : Gate) → v.session_id ≡ (g.conns c).session_id → Same g (set_conn c v g)
set_conn-Same c v g e = record {
  sessions = refl;
  ids = λ j. ground arith;
  limit = refl;
  next = refl;
}

pub close-Same : (c : ℕ) (g : Gate) → Same g (close c g)
unfolding close
close-Same c g = set_conn-Same c _ g refl

pub mark_alive-Same : (c now : ℕ) (g : Gate) → Same g (mark_alive c now g)
unfolding mark_alive
mark_alive-Same c now g = set_conn-Same c _ g refl

pub send-Same : (c : ℕ) (env : Envelope) (g : Gate) → Same g (send c env g).0
unfolding send
send-Same c env g = record {
  sessions = ground arith;
  ids = λ j. ground arith;
  limit = ground arith;
  next = ground arith;
}

pub write_turn-Same : (c : ℕ) (fine : Bool) (g : Gate) → Same g (write_turn c fine g)
unfolding write_turn
write_turn-Same c fine g = record {
  sessions = ground arith;
  ids = λ j. ground arith;
  limit = ground arith;
  next = ground arith;
}

pub reply-Same : (id msg : ℕ) (payload : Bytes) (g : Gate) → Same g (reply id msg payload g).0
unfolding reply
reply-Same id msg payload g = record {
  sessions = ground arith;
  ids = λ j. ground arith;
  limit = ground arith;
  next = ground arith;
}

pub send_to_service-Same :
    (m : ModuleName) (env : Envelope) (g : Gate) → Same g (send_to_service m env g)
unfolding send_to_service
send_to_service-Same m env g = record {
  sessions = ground arith;
  ids = λ j. ground arith;
  limit = ground arith;
  next = ground arith;
}

pub notify_player_offline-Same : (s : Session) (g : Gate) → Same g (notify_player_offline s g)
unfolding notify_player_offline
notify_player_offline-Same s g =
    Same-if (s.player_id == 0) (Same-refl g) (send_to_service-Same no_module _ g)

pub notify_player_resume-Same : (s : Session) (g : Gate) → Same g (notify_player_resume s g)
unfolding notify_player_resume
notify_player_resume-Same s g =
    Same-if (s.player_id == 0) (Same-refl g) (send_to_service-Same no_module _ g)

pub close_opt-Same : (o : Option ℕ) (g : Gate) → Same g (close_opt o g)
unfolding close_opt
close_opt-Same none g = Same-refl g
close_opt-Same (some c) g = close-Same c g
