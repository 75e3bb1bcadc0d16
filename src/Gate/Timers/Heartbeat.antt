-- ===== src/Gate/Timers/Heartbeat.antt =====
-- Which sessions a heartbeat check takes offline.
use test_go_server.Prelude.{
  contains, contains-keys, ℕ, ◌⊎◌, ◌≡◌, ◌≢◌, refl, ap, sym, subst, ◌∙◌, inl, inr, List, [], ◌∷◌,
  Option, none, some, Bool, true, false, ◌==◌, ◌||◌, if◌then◌else◌, arith, lookup, keys,
  lookup-insert, Option-cases, Bool-cases, ==_iff,
}
use test_go_server.Gate.State.{offline, Session, Gate, is_closed, is_offline}
use test_go_server.Gate.Sessions.{get, snapshot}
use test_go_server.Gate.Conn.{last_alive}
use test_go_server.Gate.Offline.{gone, close_opt}
use test_go_server.Gate.Offline.Effect.{Closes, on_session_offline-Closes}
use test_go_server.Gate.Timers.{
  is_idle, count_heartbeat_timeout, heartbeat_one, heartbeat_loop, check_heartbeat,
}
use test_go_server.Gate.Invariant.Defs.{Inv}
use test_go_server.Gate.Timers.Silence.{Silent, Alive, is_idle-cases}

-- What the check reads of the connections and the configuration.
record SameAlive (g h : Gate) : Type 0 where
  kind : (c : ℕ) → (h.conns c).conn_type ≡ (g.conns c).conn_type
  since_when : (c : ℕ) → last_alive (h.conns c) ≡ last_alive (g.conns c)
  config : h.config ≡ g.config

SameAlive-refl : (g : Gate) → SameAlive g g
SameAlive-refl g = record { kind = λ c. refl; since_when = λ c. refl; config = refl }

SameAlive-trans : {f g h : Gate} → SameAlive f g → SameAlive g h → SameAlive f h
SameAlive-trans p q = record {
  kind = λ c. q.kind c ∙ p.kind c;
  since_when = λ c. q.since_when c ∙ p.since_when c;
  config = q.config ∙ p.config;
}

is_idle-SameAlive :
    {g h : Gate} (now : ℕ) (s : Session) → SameAlive g h → is_idle now h s ≡ is_idle now g s
unfolding is_idle
is_idle-SameAlive {g} {h} now s p = elim (Option-cases s.conn) [
  | inl e ↦ rw e
  | inr (c, e) ↦ rw (e, p.kind c, p.config) (unfold last_alive in ground (arith, p.since_when c))
]

close_opt-SameAlive :
    (o : Option ℕ) (g : Gate) (c : ℕ)
    → (((close_opt o g).conns c).conn_type ≡ (g.conns c).conn_type)
      × (last_alive ((close_opt o g).conns c) ≡ last_alive (g.conns c))
unfolding close_opt last_alive
close_opt-SameAlive none g c = (refl, refl)
close_opt-SameAlive (some d) g c = (ground arith, ground arith)

-- An idle session is online, with a connection.
is_idle-live :
    (now : ℕ) (g : Gate) (s : Session)
    → is_idle now g s ≡ true
    → (is_closed s.state ≡ false) × (is_offline s.state ≡ false)
unfolding is_idle
is_idle-live now g s e = (ground arith, ground arith)

-- The session after the check.
abbrev pub touched : ℕ → Gate → Option Session → Option Session
touched now g none = none
touched now g (some s) = if is_idle now g s then some (gone now s) else some s

touched-SameAlive :
    {g h : Gate} (now : ℕ) (o : Option Session) → SameAlive g h → touched now h o ≡ touched now g o
touched-SameAlive now none p = refl
touched-SameAlive now (some s) p = rw (is_idle-SameAlive now s p)

touched-touched :
    (now : ℕ) (g : Gate) (o : Option Session) → touched now g (touched now g o) ≡ touched now g o
unfolding is_idle
touched-touched now g none = refl
touched-touched now g (some s) = elim (Bool-cases (is_idle now g s)) [
  | inl e ↦ rw e
  | inr e ↦ rw (e, touched) (rw e)
]

abbrev Keyed : Gate → Type 0
Keyed g = (k : ℕ) (s : Session) → lookup k g.by_session ≡ some s → s.id ≡ k

-- One round of the loop touches its session and no other.
record Round (now id : ℕ) (g h : Gate) : Type 0 where
  at :
      (k : ℕ)
      → lookup k h.by_session
        ≡ (if id == k then touched now g (lookup k g.by_session) else lookup k g.by_session)
  alive : SameAlive g h
  keyed : Keyed h

-- Nothing to do for this session.
Round-idle :
    (now id : ℕ) (g : Gate)
    → Keyed g
    → touched now g (lookup id g.by_session) ≡ lookup id g.by_session
    → Round now id g g
Round-idle now id g keyed e = record {
  at = λ k. elim (Bool-cases (id == k)) [
    | inl hit ↦
        let same : id ≡ k = (==_iff id k).0 hit in
        rw hit
          (sym (subst (λ j. touched now g (lookup j g.by_session) ≡ lookup j g.by_session) same e))
    | inr miss ↦ rw miss
  ];
  alive = SameAlive-refl g;
  keyed = keyed;
}

Round-offline :
    (now id : ℕ) (s : Session) (g h : Gate)
    → Keyed g
    → lookup id g.by_session ≡ some s
    → is_idle now g s ≡ true
    → Closes now s (count_heartbeat_timeout g) h
    → Round now id g h
Round-offline now id s g h keyed e idle c =
    let own : s.id ≡ id = keyed id s e in
    let found =
      λ (k : ℕ). ap (lookup k) c.by_session ∙ lookup-insert s.id k (gone now s) g.by_session in
    record {
      at = λ k. elim (Bool-cases (id == k)) [
        | inl hit ↦
            let same : id ≡ k = (==_iff id k).0 hit in
            let here : lookup k g.by_session ≡ some s =
              ap (λ j. lookup j g.by_session) (sym same) ∙ e in
            rw (hit, here) (rw idle (ground (arith, found k)))
        | inr miss ↦ rw miss (ground (arith, found k))
      ];
      alive = record {
        kind = λ d.
            ap (λ f. (f d).conn_type) c.conns
            ∙ (close_opt-SameAlive s.conn (count_heartbeat_timeout g) d).0;
        since_when = λ d.
            ap (λ f. last_alive (f d)) c.conns
            ∙ (close_opt-SameAlive s.conn (count_heartbeat_timeout g) d).1;
        config = c.config;
      };
      keyed = λ k t f. ground (arith, found k, keyed k t);
    }

heartbeat_one-Round :
    (now id : ℕ) (g : Gate) → Keyed g → Round now id g (heartbeat_one now (get id g) g)
unfolding get heartbeat_one
heartbeat_one-Round now id g keyed = elim (Option-cases (lookup id g.by_session)) [
  | inl e ↦ rw (e, heartbeat_one) (Round-idle now id g keyed (rw e))
  | inr (s, e) ↦ elim (Bool-cases (is_idle now g s)) [
    | inl idle ↦
        let (a, b) = is_idle-live now g s idle in
        rw (e, heartbeat_one)
          (rw idle (
            Round-offline now id s g _ keyed e idle
              (on_session_offline-Closes now s (count_heartbeat_timeout g) a b)))
    | inr busy ↦ rw (e, heartbeat_one) (rw busy (Round-idle now id g keyed (rw e (rw busy))))
  ]
]

heartbeat_loop-lookup :
    (now k : ℕ) (ids : List ℕ) (g : Gate)
    → Keyed g
    → lookup k (heartbeat_loop now ids g).by_session
      ≡ (if contains k ids then touched now g (lookup k g.by_session) else lookup k g.by_session)
unfolding heartbeat_loop contains
heartbeat_loop-lookup now k [] g keyed = refl
heartbeat_loop-lookup now k (id ∷ ids) g keyed =
    let h = heartbeat_one now (get id g) g in
    let r = heartbeat_one-Round now id g keyed in
    heartbeat_loop-lookup now k ids h r.keyed
    ∙ rw (touched-SameAlive now (lookup k h.by_session) r.alive, r.at k)
        (split (id == k) (contains k ids))
  where
    split :
        (a b : Bool)
        → let o = lookup k g.by_session in
          (if b
            then touched now g (if a then touched now g o else o)
            else if a
            then touched now g o
            else o)
          ≡ (if a || b then touched now g o else o)
    split true true = touched-touched now g (lookup k g.by_session)
    split true false = refl
    split false true = refl
    split false false = refl

checked :
    (now k : ℕ) (s : Session) (g : Gate)
    → Inv g
    → g.config.heartbeat_timeout ≢ 0
    → lookup k g.by_session ≡ some s
    → lookup k (check_heartbeat now g).by_session
      ≡ (if is_idle now g s then some (gone now s) else some s)
unfolding check_heartbeat snapshot
checked now k s g v set_up e =
    let timed : (g.config.heartbeat_timeout == 0) ≡ false = ground arith in
    rw timed (
      heartbeat_loop-lookup now k (keys g.by_session) g (λ j t f. (v.good j t f).keyed)
      ∙ rw (contains-keys k g.by_session s e, e))

-- When the invariant holds, a heartbeat check with a timeout set takes a kept session offline and off
-- its connection, as last seen now, if the session is online on a connection of which nothing was
-- heard for longer than the timeout, half as much again on a websocket; any other kept session, one
-- that is not online, has no connection, or was heard of in time, stays as it is.
pub check_heartbeat-lookup :
    (now k : ℕ) (s : Session) (g : Gate)
    → Inv g
    → g.config.heartbeat_timeout ≢ 0
    → lookup k g.by_session ≡ some s
    → (Silent now g s
        × (lookup k (check_heartbeat now g).by_session
            ≡ some (record s { conn = none; last_seen = now; state = offline })))
      ⊎ (Alive now g s × (lookup k (check_heartbeat now g).by_session ≡ some s))
check_heartbeat-lookup now k s g v set_up e = elim (is_idle-cases now g s) [
  | inl (idle, silent) ↦ inl (silent, checked now k s g v set_up e ∙ rw idle refl)
  | inr (busy, alive) ↦ inr (alive, checked now k s g v set_up e ∙ rw busy refl)
]
