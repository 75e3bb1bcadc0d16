-- ===== src/Gate/Timers/Silence.antt =====
-- The test of checkHeartbeat in heartbeat.go: which sessions have been silent for too long.
use test_go_server.Prelude.{
  ℕ, ◌+◌, ◌-◌, ◌/◌, ◌<◌, ◌≤◌, ◌⊎◌, ◌&&◌, ltb, ltb→lt, ◌≡◌, ◌≢◌, refl, inl, inr, none, some, Bool,
  true, false, ◌==◌, if◌then◌else◌, arith, Option-cases, Bool-cases,
}
use test_go_server.Gate.State.{
  ConnType, tcp, ws, Conn, SessionState, init, online, authing, authenticated, offline, closed,
  Session, Gate, is_online, is_ws, since, unix_epoch,
}
use test_go_server.Gate.Conn.{last_alive}
use test_go_server.Gate.Timers.{is_idle, conn_timeout}

-- How long a connection may be silent.
pub allowed : ConnType → ℕ → ℕ
allowed tcp timeout = timeout
allowed ws timeout = timeout + timeout / 2

-- When a connection was last heard of: it was marked, or it began.
pub heard : Conn → ℕ
heard v = if v.last_alive_nano == 0 then v.connected_at else v.last_alive_nano + unix_epoch

-- The session is online on a connection that has been silent for too long.
pub record Silent (now : ℕ) (g : Gate) (s : Session) : Type 0 where
  pub conn : ℕ
  pub plugged : s.conn ≡ some conn
  pub awake : s.state ≡ online
  pub late :
      allowed (g.conns conn).conn_type g.config.heartbeat_timeout < now - heard (g.conns conn)

-- The session has no connection, is not online, or was heard of in time.
pub data Alive (now : ℕ) (g : Gate) (s : Session) : Type 0 where
  no_conn : s.conn ≡ none → Alive now g s
  not_online : s.state ≢ online → Alive now g s
  in_time :
      (c : ℕ)
      → s.conn ≡ some c
      → now - heard (g.conns c) ≤ allowed (g.conns c).conn_type g.config.heartbeat_timeout
      → Alive now g s

allowed_by :
    (t : ConnType) (timeout : ℕ)
    → (if is_ws t then timeout + timeout / 2 else timeout) ≡ allowed t timeout
unfolding allowed
allowed_by tcp timeout = refl
allowed_by ws timeout = refl

timeout-allowed : (v : Conn) (timeout : ℕ) → conn_timeout v timeout ≡ allowed v.conn_type timeout
timeout-allowed v timeout = allowed_by v.conn_type timeout

online_cases : (st : SessionState) → ((is_online st ≡ true) × (st ≡ online)) ⊎ (st ≢ online)
online_cases online = inl (refl, refl)
online_cases init = inr (λ e. cc)
online_cases authing = inr (λ e. cc)
online_cases authenticated = inr (λ e. cc)
online_cases offline = inr (λ e. cc)
online_cases closed = inr (λ e. cc)

pub is_idle-cases :
    (now : ℕ) (g : Gate) (s : Session)
    → ((is_idle now g s ≡ true) × Silent now g s) ⊎ ((is_idle now g s ≡ false) × Alive now g s)
unfolding is_idle
is_idle-cases now g s = elim (Option-cases s.conn) [
  | inl e ↦ inr (rw e refl, no_conn e)
  | inr (c, e) ↦ elim (online_cases s.state) [
    | inr other ↦ inr (rw e (not_idle s.state _ other), not_online other)
    | inl (up, awake) ↦
        let same = timeout-allowed (g.conns c) g.config.heartbeat_timeout in
        let when : last_alive (g.conns c) ≡ heard (g.conns c) = unfold last_alive heard in refl in
        elim (Bool-cases (
          ltb (conn_timeout (g.conns c) g.config.heartbeat_timeout)
            (since now (last_alive (g.conns c))))) [
              | inl late ↦ inl (
                rw (e, up) late,
                record {
                  conn = c;
                  plugged = e;
                  awake = awake;
                  late = rw (← same, ← when) (ltb→lt _ _ late);
                },
              )
              | inr fine ↦
                  inr (rw (e, up) fine, in_time c e (rw (← same, ← when) (ltb-false _ _ fine)))
            ]
  ]
]
  where
    not_idle : (st : SessionState) (b : Bool) → st ≢ online → (is_online st && b) ≡ false
    not_idle online b ne = absurd (ne refl)
    not_idle init b ne = refl
    not_idle authing b ne = refl
    not_idle authenticated b ne = refl
    not_idle offline b ne = refl
    not_idle closed b ne = refl

    ltb-false : (a b : ℕ) → ltb a b ≡ false → b ≤ a
    ltb-false a b e = ground arith
