-- ===== src/Gate/Muted.antt =====
-- The limit on unknown messages of a gate: the operations that no client asks for leave it at 0.
pub mod Handler
pub mod Runs
use test_go_server.Prelude.{
  ℕ, ◌≡◌, refl, ap, ◌∙◌, Option, none, some, Bool, true, false, ◌==◌, ◌&&◌, if◌then◌else◌, arith,
  inl, inr, List, [], ◌∷◌, lookup, Option-cases, Bool-cases,
}
use test_go_server.Protocol.{
  Bytes, Envelope, Error, session_not_found, msg_login_rsp, msg_service_pong,
}
use test_go_server.Gate.State.{
  Session, Gate, External, World, put_session, is_closed, is_offline, is_none,
}
use test_go_server.Gate.Sessions.{get, gc_one, gc_loop, gc, is_expired, snapshot}
use test_go_server.Gate.Conn.{send, write_turn, reply}
use test_go_server.Gate.Offline.{gone, on_session_offline, kick, on_conn_close, close_opt}
use test_go_server.Gate.Offline.Effect.{notify_player_offline-Rest}
use test_go_server.Gate.Login.{login_session, on_login_rsp, on_service_envelope}
use test_go_server.Gate.Timers.{
  on_heartbeat, is_idle, count_heartbeat_timeout, heartbeat_loop, check_heartbeat, is_auth_late,
  count_login_timeout, authing_loop, check_authing_timeout, gc_tick, mark_alive_opt,
}

-- No session is kicked for unknown messages.
abbrev pub Muted : Gate → Type 0
Muted g = g.config.unknown_msg_kick_count ≡ 0

pub Muted-if : (b : Bool) (x y : Gate) → Muted x → Muted y → Muted (if b then x else y)
Muted-if true x y p q = p
Muted-if false x y p q = q

pub send-Muted : (c : ℕ) (env : Envelope) (g : Gate) → Muted g → Muted (send c env g).0
unfolding send
send-Muted c env g v = ground (arith, v)

pub write_turn-Muted : (c : ℕ) (fine : Bool) (g : Gate) → Muted g → Muted (write_turn c fine g)
unfolding write_turn
write_turn-Muted c fine g v = ground (arith, v)

reply-Muted : (id msg : ℕ) (payload : Bytes) (g : Gate) → Muted g → Muted (reply id msg payload g).0
unfolding reply
reply-Muted id msg payload g v = ground (arith, v)

close_opt-Muted : (o : Option ℕ) (g : Gate) → Muted g → Muted (close_opt o g)
unfolding close_opt
close_opt-Muted none g v = v
close_opt-Muted (some c) g v = v

pub on_session_offline-Muted :
    (now : ℕ) (s : Session) (g : Gate) → Muted g → Muted (on_session_offline now s g)
unfolding on_session_offline
on_session_offline-Muted now s g v =
    let off = put_session (gone now s) (close_opt s.conn g) in
    let put = close_opt-Muted s.conn g v in
    Muted-if (is_closed s.state) g _ v (
      Muted-if (is_offline s.state && is_none s.conn) g _ v (
        Muted-if (is_offline s.state) off _ put (
          ap (λ f. f.unknown_msg_kick_count) (notify_player_offline-Rest (gone now s) off).config
          ∙ put)))

kicked :
    (b : Bool) (g h : Gate)
    → Muted g
    → Muted h
    → let r : Gate × Option Error = if b then (g, some session_not_found) else (h, none) in
      Muted r.0
kicked true g h v w = v
kicked false g h v w = w

pub kick-Muted : (now id : ℕ) (g : Gate) → Muted g → Muted (kick now id g).0
unfolding kick
kick-Muted now id g v = elim (Option-cases (get id g)) [
  | inl e ↦ rw (e, kick) v
  | inr (s, e) ↦
      rw (e, kick)
        (kicked (is_none s.conn) g (on_session_offline now s g) v
          (on_session_offline-Muted now s g v))
]

pub on_conn_close-Muted : (now c : ℕ) (g : Gate) → Muted g → Muted (on_conn_close now c g)
unfolding on_conn_close
on_conn_close-Muted now c g v = elim (Option-cases (get (g.conns c).session_id g)) [
  | inl e ↦ rw (e, on_conn_close) v
  | inr (s, e) ↦
      rw (e, on_conn_close)
        (ap (λ f. f.unknown_msg_kick_count)
            (notify_player_offline-Rest (gone now s) (put_session (gone now s) g)).config
          ∙ v)
]

mark_alive_opt-Muted :
    (o : Option ℕ) (now : ℕ) (g : Gate) → Muted g → Muted (mark_alive_opt o now g)
unfolding mark_alive_opt
mark_alive_opt-Muted none now g v = v
mark_alive_opt-Muted (some c) now g v = v

pub on_heartbeat-Muted : (now id : ℕ) (g : Gate) → Muted g → Muted (on_heartbeat now id g)
unfolding on_heartbeat
on_heartbeat-Muted now id g v = elim (Option-cases (get id g)) [
  | inl e ↦ rw (e, on_heartbeat) v
  | inr (s, e) ↦
      rw (e, on_heartbeat)
        (reply-Muted id _ _ _
          (mark_alive_opt-Muted s.conn now (put_session (record s { last_seen = now }) g) v))
]

heartbeat_loop-Muted :
    (now : ℕ) (ids : List ℕ) (g : Gate) → Muted g → Muted (heartbeat_loop now ids g)
unfolding heartbeat_loop
heartbeat_loop-Muted now [] g v = v
heartbeat_loop-Muted now (id ∷ ids) g v = elim (Option-cases (get id g)) [
  | inl e ↦ rw (e, heartbeat_loop) (heartbeat_loop-Muted now ids g v)
  | inr (s, e) ↦
      rw (e, heartbeat_loop)
        (heartbeat_loop-Muted now ids _ (
          Muted-if (is_idle now g s) _ g
            (on_session_offline-Muted now s (count_heartbeat_timeout g) v) v))
]

pub check_heartbeat-Muted : (now : ℕ) (g : Gate) → Muted g → Muted (check_heartbeat now g)
unfolding check_heartbeat
check_heartbeat-Muted now g v =
    Muted-if (g.config.heartbeat_timeout == 0) g _ v (heartbeat_loop-Muted now (snapshot g) g v)

authing_loop-Muted : (now : ℕ) (ids : List ℕ) (g : Gate) → Muted g → Muted (authing_loop now ids g)
unfolding authing_loop
authing_loop-Muted now [] g v = v
authing_loop-Muted now (id ∷ ids) g v = elim (Option-cases (get id g)) [
  | inl e ↦ rw (e, authing_loop) (authing_loop-Muted now ids g v)
  | inr (s, e) ↦
      rw (e, authing_loop)
        (authing_loop-Muted now ids _ (
          Muted-if (is_auth_late now g s) _ g
            (on_session_offline-Muted now s (count_login_timeout g) v) v))
]

gc_loop-Muted :
    (now timeout : ℕ) (ids : List ℕ) (r : Gate × List Session)
    → Muted r.0
    → Muted (gc_loop now timeout ids r).0
unfolding gc_loop gc_one
gc_loop-Muted now timeout [] r v = v
gc_loop-Muted now timeout (id ∷ ids) r v = gc_loop-Muted now timeout ids _ (one r v)
  where
    one : (r : Gate × List Session) → Muted r.0 → Muted (gc_one now timeout id r).0
    one (g, removed) v = elim (Option-cases (lookup id g.by_session)) [
      | inl e ↦ rw (e, gc_one) v
      | inr (s, e) ↦ elim (Bool-cases (is_expired now timeout s)) [
        | inl old ↦ rw (e, gc_one) (rw old v)
        | inr young ↦ rw (e, gc_one) (rw young v)
      ]
    ]

pub gc_tick-Muted : (now : ℕ) (g : Gate) → Muted g → Muted (gc_tick now g)
unfolding gc_tick gc check_authing_timeout
gc_tick-Muted now g v =
    let h = check_authing_timeout now g in
    gc_loop-Muted now g.config.heartbeat_timeout (snapshot h) (h, [])
      (authing_loop-Muted now (snapshot g) g v)

login_session-Muted :
    (now : ℕ) (s : Session) (o : Option ℕ) (g : Gate) → Muted g → Muted (login_session now s o g)
unfolding login_session
login_session-Muted now s none g v = v
login_session-Muted now s (some player) g v = refl

on_login_rsp-Muted :
    (x : External) (w : World) (id : ℕ) (payload : Bytes) (g : Gate)
    → Muted g
    → Muted (on_login_rsp x w id payload g)
unfolding on_login_rsp
on_login_rsp-Muted x w id payload g v = elim (Option-cases (get id g)) [
  | inl e ↦ rw (e, on_login_rsp) v
  | inr (s, e) ↦
      rw (e, on_login_rsp) (login_session-Muted w.now s (x.unmarshal_login_rsp payload) g v)
]

pub on_service_envelope-Muted :
    (x : External) (w : World) (env : Envelope) (g : Gate)
    → Muted g
    → Muted (on_service_envelope x w env g)
unfolding on_service_envelope
on_service_envelope-Muted x w env g v = Muted-if (env.msg_id == msg_service_pong) g _ v (
    reply-Muted _ _ _ _ (
      Muted-if (env.msg_id == msg_login_rsp) _ g
        (on_login_rsp-Muted x w env.session_id env.payload g v) v))
