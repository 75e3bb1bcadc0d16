-- ===== src/Gate/Timers/Collection.antt =====
-- What a collection of expired sessions removes.
use test_go_server.Prelude.{
  contains, contains-keys, ℕ, ◌-◌, ◌<◌, ◌≤◌, ◌⊎◌, ltb, ◌≡◌, ◌≢◌, refl, ap, sym, ◌∙◌, inl, inr, List,
  [], ◌∷◌, Option, none, some, Bool, true, false, ◌==◌, ◌||◌, if◌then◌else◌, arith, lookup, keys,
  lookup-delete, Option-cases, Bool-cases, ==_iff,
}
use test_go_server.Gate.State.{
  SessionState, init, online, authing, authenticated, offline, closed, Session, Gate, is_offline,
}
use test_go_server.Gate.Sessions.{snapshot, is_expired, gc_one, gc_loop, gc}

-- The session after the collection.
abbrev pub uncollected : ℕ → ℕ → Option Session → Option Session
uncollected now timeout none = none
uncollected now timeout (some s) = if is_expired now timeout s then none else some s

uncollected_twice :
    (now timeout : ℕ) (o : Option Session)
    → uncollected now timeout (uncollected now timeout o) ≡ uncollected now timeout o
uncollected_twice now timeout none = refl
uncollected_twice now timeout (some s) = elim (Bool-cases (is_expired now timeout s)) [
  | inl e ↦ rw e
  | inr e ↦ rw (e, uncollected) (rw e)
]

gc_one-lookup :
    (now timeout id k : ℕ) (r : Gate × List Session)
    → lookup k (gc_one now timeout id r).0.by_session ≡ (
        if id == k
        then uncollected now timeout (lookup k r.0.by_session)
        else lookup k r.0.by_session)
unfolding gc_one
gc_one-lookup now timeout id k (g, removed) = elim (Option-cases (lookup id g.by_session)) [
  | inl e ↦
      rw (e, gc_one)
        (elim (Bool-cases (id == k)) [ inl hit ↦ rw (hit, here hit ∙ e) | inr miss ↦ rw miss ])
  | inr (s, e) ↦ elim (Bool-cases (is_expired now timeout s)) [
    | inl old ↦
        rw (e, gc_one)
          (rw old (elim (Bool-cases (id == k)) [
            | inl hit ↦ rw (lookup-delete id k g.by_session, hit) (rw (here hit ∙ e) (rw old))
            | inr miss ↦ rw (lookup-delete id k g.by_session, miss)
          ]))
    | inr young ↦
        rw (e, gc_one)
          (rw young (elim (Bool-cases (id == k)) [
            | inl hit ↦ rw (hit, here hit ∙ e) (rw young)
            | inr miss ↦ rw miss
          ]))
  ]
]
  where
    here : (id == k) ≡ true → lookup k g.by_session ≡ lookup id g.by_session
    here hit = ap (λ j. lookup j g.by_session) (sym ((==_iff id k).0 hit))

gc_loop-lookup :
    (now timeout k : ℕ) (ids : List ℕ) (r : Gate × List Session)
    → lookup k (gc_loop now timeout ids r).0.by_session ≡ (
        if contains k ids
        then uncollected now timeout (lookup k r.0.by_session)
        else lookup k r.0.by_session)
unfolding gc_loop contains
gc_loop-lookup now timeout k [] r = refl
gc_loop-lookup now timeout k (id ∷ ids) r =
    gc_loop-lookup now timeout k ids (gc_one now timeout id r)
    ∙ rw (gc_one-lookup now timeout id k r) (split (id == k) (contains k ids))
  where
    o : Option Session
    o = lookup k r.0.by_session

    f : Option Session → Option Session
    f = uncollected now timeout

    split :
        (a b : Bool)
        → (if b then f (if a then f o else o) else if a then f o else o)
          ≡ (if a || b then f o else o)
    split true true = uncollected_twice now timeout o
    split true false = refl
    split false true = refl
    split false false = refl

collected :
    (now timeout k : ℕ) (s : Session) (g : Gate)
    → lookup k g.by_session ≡ some s
    → lookup k (gc now timeout g).0.by_session ≡ (if is_expired now timeout s then none else some s)
unfolding gc snapshot
collected now timeout k s g e =
    gc_loop-lookup now timeout k (keys g.by_session) (g, [])
    ∙ rw (contains-keys k g.by_session s e, e)

offline_cases :
    (st : SessionState)
    → ((is_offline st ≡ true) × (st ≡ offline)) ⊎ ((is_offline st ≡ false) × (st ≢ offline))
offline_cases offline = inl (refl, refl)
offline_cases init = inr (refl, λ e. cc)
offline_cases online = inr (refl, λ e. cc)
offline_cases authing = inr (refl, λ e. cc)
offline_cases authenticated = inr (refl, λ e. cc)
offline_cases closed = inr (refl, λ e. cc)

is_expired-cases :
    (now timeout : ℕ) (s : Session)
    → ((is_expired now timeout s ≡ true) × (s.state ≡ offline) × (timeout < now - s.last_seen))
      ⊎ ((is_expired now timeout s ≡ false) × ((s.state ≢ offline) ⊎ (now - s.last_seen ≤ timeout)))
is_expired-cases now timeout s = elim (offline_cases s.state) [
  | inr (e, other) ↦ inr (rw e refl, inl other)
  | inl (e, off) ↦ elim (Bool-cases (ltb timeout (now - s.last_seen))) [
    | inl late ↦ inl (rw e late, off, ground (arith, late))
    | inr fine ↦ inr (rw e fine, inr (ground (arith, fine)))
  ]
]

-- A collection removes a kept session that is offline and was last seen longer than the timeout ago;
-- a kept session in another state, or seen since then, it leaves as it is.
pub gc-lookup :
    (now timeout k : ℕ) (s : Session) (g : Gate)
    → lookup k g.by_session ≡ some s
    → ((s.state ≡ offline)
        × (timeout < now - s.last_seen)
        × (lookup k (gc now timeout g).0.by_session ≡ none))
      ⊎ (((s.state ≢ offline) ⊎ (now - s.last_seen ≤ timeout))
          × (lookup k (gc now timeout g).0.by_session ≡ some s))
gc-lookup now timeout k s g e = elim (is_expired-cases now timeout s) [
  | inl (old, off, late) ↦ inl (off, late, collected now timeout k s g e ∙ rw old refl)
  | inr (young, kept) ↦ inr (kept, collected now timeout k s g e ∙ rw young refl)
]

gc_one-forgets :
    (now timeout id p : ℕ) (r : Gate × List Session)
    → lookup p r.0.by_player ≡ none
    → lookup p (gc_one now timeout id r).0.by_player ≡ none
unfolding gc_one
gc_one-forgets now timeout id p (g, removed) gone = elim (Option-cases (lookup id g.by_session)) [
  | inl e ↦ rw (e, gc_one) gone
  | inr (s, e) ↦ elim (Bool-cases (is_expired now timeout s)) [
    | inr young ↦ rw (e, gc_one) (rw young gone)
    | inl old ↦ rw (e, gc_one) (rw old (ground (arith, lookup-delete s.player_id p g.by_player)))
  ]
]

gc_loop-forgets :
    (now timeout p : ℕ) (ids : List ℕ) (r : Gate × List Session)
    → lookup p r.0.by_player ≡ none
    → lookup p (gc_loop now timeout ids r).0.by_player ≡ none
unfolding gc_loop
gc_loop-forgets now timeout p [] r gone = gone
gc_loop-forgets now timeout p (id ∷ ids) r gone =
    gc_loop-forgets now timeout p ids _ (gc_one-forgets now timeout id p r gone)

gc_one-drops :
    (now timeout k : ℕ) (s : Session) (r : Gate × List Session)
    → lookup k r.0.by_session ≡ some s
    → is_expired now timeout s ≡ true
    → s.player_id ≢ 0
    → lookup s.player_id (gc_one now timeout k r).0.by_player ≡ none
unfolding gc_one
gc_one-drops now timeout k s (g, removed) e old named =
    rw (e, gc_one) (rw old (ground (arith, lookup-delete s.player_id s.player_id g.by_player)))

gc_loop-drops :
    (now timeout k : ℕ) (s : Session) (ids : List ℕ) (r : Gate × List Session)
    → lookup k r.0.by_session ≡ some s
    → is_expired now timeout s ≡ true
    → s.player_id ≢ 0
    → contains k ids ≡ true
    → lookup s.player_id (gc_loop now timeout ids r).0.by_player ≡ none
unfolding gc_loop contains
gc_loop-drops now timeout k s [] r e old named has = cc
gc_loop-drops now timeout k s (id ∷ ids) r e old named has = elim (Bool-cases (id == k)) [
  | inl hit ↦
      let same : k ≡ id = sym ((==_iff id k).0 hit) in
      gc_loop-forgets now timeout s.player_id ids _ (
        gc_one-drops now timeout id s r (ap (λ j. lookup j r.0.by_session) (sym same) ∙ e) old
          named)
  | inr miss ↦
      let rest : contains k ids ≡ true = ground arith in
      let kept = gc_one-lookup now timeout id k r ∙ rw miss e in
      gc_loop-drops now timeout k s ids (gc_one now timeout id r) kept old named rest
]

-- A collection that removes session k clears the index entry of the player of k, and that also
-- where the entry named another session t, which is kept and goes on as before: afterwards no entry
-- leads from the player to t.
pub gc-orphans :
    (now timeout k l : ℕ) (s t : Session) (g : Gate)
    → lookup k g.by_session ≡ some s
    → is_expired now timeout s ≡ true
    → s.player_id ≢ 0
    → lookup l g.by_session ≡ some t
    → is_expired now timeout t ≡ false
    → lookup s.player_id g.by_player ≡ some l
    → (lookup l (gc now timeout g).0.by_session ≡ some t)
      × (lookup s.player_id (gc now timeout g).0.by_player ≡ none)
gc-orphans now timeout k l s t g e old named f young indexed = (
  collected now timeout l t g f ∙ rw young,
  unfold gc snapshot in
      gc_loop-drops now timeout k s (keys g.by_session) (g, []) e old named
        (contains-keys k g.by_session s e),
)
