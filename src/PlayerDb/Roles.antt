-- ===== src/PlayerDb/Roles.antt =====
-- The service gives out role IDs over Redis, and no two accounts get the same.
use test_go_server.Prelude.{
  ℕ, ◌+◌, ◌<◌, ◌≤◌, ◌^◌, ◌≡◌, refl, ap, sym, subst, ◌∙◌, inl, inr, List, [], ◌∷◌, Option, some,
  arith, length,
}
use test_go_server.Protocol.{Bytes}
use test_go_server.Text.{format_int64}
use test_go_server.Text.Decimal.{parse_int64, parse_int64-format_int64}
use test_go_server.Redis.Keys.{
  key_uid_next, account_role_key, account_role_key-inj, uid-ne-account, uid-ne-profile,
}
use test_go_server.Redis.Dao.{Reply, nil, failed, value, Client, get_string, next_uid}
use test_go_server.Game.Player.{PlayerProfile}
use test_go_server.Service.Login.{LoginService, resolve_role_id}
use test_go_server.Service.Login
use test_go_server.Service.Login.Keeps.{resolve_role_id_keeps}
use test_go_server.PlayerDb.{
  Json, role_of, parsed, load_role_id, save_role_id, save_profile, redis_login, redis_accounts,
}
use test_go_server.PlayerDb.Accounts.{
  Written, Sets, save-named, save-profile_other, save-profile_apart,
}
use test_go_server.PlayerDb.Unique.{Counts, Unique, Unique-moved, Unique-same, Unique-written}

-- The invariant, for a counter that has moved by one at most.
pub record Kept {D : Type 0} (client : Client D) (n : ℕ) (d : D) : Type 0 where
  pub at : ℕ
  pub low : n ≤ at
  pub high : at ≤ n + 1
  pub unique : Unique client at d

module _ {D : Type 0} (client : Client D) (json : Json) (sets : Sets client)
    (counting : Counts client) where
  pub profile-Unique :
      (n : ℕ) (f : PlayerProfile) (d : D)
      → Unique client n d
      → Unique client n (save_profile client json f d).0
  profile-Unique n f d v =
      let d' = (save_profile client json f d).0 in
      let same = save-profile_other client json key_uid_next f d sets (uid-ne-profile f.role_id) in
      Unique-moved client n n d d' (λ a. save-profile_apart client json a f d sets)
        (elim v.counter [ inl e ↦ inl (same ∙ e) | inr (e, z) ↦ inr (same ∙ e, z) ]) (omega arith) v

  -- INCR has counted, and nothing is saved yet.
  pub issued-Unique :
      (n : ℕ) (d d1 : D)
      → Unique client n d
      → Written client key_uid_next (format_int64 (n + 1)) d d1
      → Unique client (n + 1) d1
  issued-Unique n d d1 v w =
      Unique-moved client n (n + 1) d d1
        (λ a. w.there (account_role_key a) (λ e. uid-ne-account a (sym e))) (inl w.here)
        (omega arith) v

  -- The ID that INCR has told is saved for an account; d is the database before INCR.
  pub role-Unique :
      (n : ℕ) (account : Bytes) (d d1 : D)
      → n + 1 < 2 ^ 63
      → Unique client n d
      → Written client key_uid_next (format_int64 (n + 1)) d d1
      → Unique client (n + 1) (save_role_id client account (n + 1) d1).0
  unfolding save_role_id
  role-Unique n [] d d1 room v w = issued-Unique n d d1 v w
  role-Unique n (c ∷ s) d d1 room v w =
      let account = c ∷ s in
      let key = account_role_key account in
      let d2 = (client.set key (format_int64 (n + 1)) 0 d1).0 in
      let same : (save_role_id client account (n + 1) d1).0 ≡ d2 =
        ap (λ r. r.0)
          (save-named client account (n + 1) d1 (λ e. ground (arith, e)) (λ z. omega (arith, z))) in
      subst (Unique client (n + 1)) (sym same) (elim (sets.writes key (format_int64 (n + 1)) d1) [
        | inl x ↦
            Unique-written client n account d d2 room v
              (inl (x.there key_uid_next (uid-ne-account account) ∙ w.here)) x.here
              (λ a other.
                x.there (account_role_key a) (λ e. other (account_role_key-inj a account e))
                ∙ w.there (account_role_key a) (λ e. uid-ne-account a (sym e)))
        | inr (bad, same) ↦ Unique-same client (n + 1) d1 d2 same (issued-Unique n d d1 v w)
      ])

  pub save_keeps :
      (n : ℕ) (f : PlayerProfile) (d : D)
      → Kept client n d
      → Kept client n (save_profile client json f d).0
  save_keeps n f d k = record {
    at = k.at;
    low = k.low;
    high = k.high;
    unique = profile-Unique k.at f d k.unique;
  }

  counted_keeps : (n : ℕ) (d : D) → Unique client (n + 1) d → Kept client n d
  counted_keeps n d v = record { at = n + 1; low = omega arith; high = omega arith; unique = v }

  pub login_keeps :
      (n : ℕ) (account : Bytes) (d : D)
      → n + 1 < 2 ^ 63
      → Unique client n d
      → Kept client n (resolve_role_id (redis_login client json) account d).0
  unfolding test_go_server.Service.Login.next_uid next_uid
  login_keeps n account d room v =
      resolve_role_id_keeps (redis_login client json) (redis_accounts client json) (Kept client n)
        account d refl (uncounted d v) issued.0 issued.1 (λ f e. save_keeps n f e)
    where
      uncounted : (e : D) → Unique client n e → Kept client n e
      uncounted e v = record { at = n; low = omega arith; high = omega arith; unique = v }

      d1 : D
      d1 = (client.incr key_uid_next d).0

      told : Option ℕ
      told = (client.incr key_uid_next d).1

      issued :
          Kept client n d1
          × ((id : ℕ) → told ≡ some id → Kept client n (save_role_id client account id d1).0)
      issued = elim (counting.counts n d v.counter room) [
        | inl (w, inl e) ↦ (
          counted_keeps n d1 (issued-Unique n d d1 v w),
          λ id t.
              let same : n + 1 ≡ id = ground (arith, e, t) in
              subst (λ i. Kept client n (save_role_id client account i d1).0) same
                (counted_keeps n _ (role-Unique n account d d1 room v w)),
        )
        | inl (w, inr e) ↦
            (counted_keeps n d1 (issued-Unique n d d1 v w), λ id t. absurd (ground (arith, e, t)))
        | inr (e, same) ↦
            (uncounted d1 (Unique-same client n d d1 same v), λ id t. absurd (ground (arith, e, t)))
      ]

-- The text that an ID was read from, and that the counter has given out the ID.
pub stored :
    {D : Type 0} (client : Client D) (m i : ℕ) (account : Bytes) (d : D)
    → m < 2 ^ 63
    → Unique client m d
    → load_role_id client account d ≡ some (some i)
    → (client.get (account_role_key account) d ≡ value (format_int64 i)) × (0 < i) × (i ≤ m)
unfolding load_role_id get_string role_of parsed
stored client m i [] d room v has = absurd (ground (arith, has))
stored client m i (c ∷ s) d room v has = by_reply (client.get (account_role_key (c ∷ s)) d) refl has
  where
    by_reply :
        (r : Reply)
        → client.get (account_role_key (c ∷ s)) d ≡ r
        → role_of r ≡ some (some i)
        → (r ≡ value (format_int64 i)) × (0 < i) × (i ≤ m)
    by_reply nil e t = absurd (ground (arith, t))
    by_reply failed e t = absurd (ground (arith, t))
    by_reply (value text) e t =
        let (j, printed, pos, le) = v.issued (c ∷ s) text e in
        let read : parse_int64 text ≡ some j =
          ap parse_int64 printed ∙ parse_int64-format_int64 j (omega (arith, le, room)) in
        let same : some (some j) ≡ some (some i) = ap parsed (sym read) ∙ t in
        let index : j ≡ i = ground (arith, same) in
        (
          ap value (printed ∙ ap format_int64 index),
          omega (arith, index, pos),
          omega (arith, index, le),
        )

-- What the two processes do with the store: the service resolves the ID of an account, the game
-- server saves the profile of a player.
pub data Event : Type 0 where
  login : Bytes → Event
  saving : PlayerProfile → Event

unfoldable pub event : {D : Type 0} → Client D → Json → Event → D → D
event client json (login account) d = (resolve_role_id (redis_login client json) account d).0
event client json (saving f) d = (save_profile client json f d).0

unfoldable pub events : {D : Type 0} → Client D → Json → List Event → D → D
events client json [] d = d
events client json (o ∷ os) d = events client json os (event client json o d)

module _ {D : Type 0} (client : Client D) (json : Json) (sets : Sets client)
    (counting : Counts client) where
  pub event_keeps :
      (n : ℕ) (o : Event) (d : D)
      → n + 1 < 2 ^ 63
      → Unique client n d
      → Kept client n (event client json o d)
  unfolding event
  event_keeps n (login account) d room v = login_keeps client json sets counting n account d room v
  event_keeps n (saving f) d room v =
      save_keeps client json sets counting n f d
        (record { at = n; low = omega arith; high = omega arith; unique = v })

  pub events-Unique :
      (n : ℕ) (os : List Event) (d : D)
      → n + length os < 2 ^ 63
      → Unique client n d
      → (m : ℕ) × (m ≤ n + length os) × Unique client m (events client json os d)
  unfolding events
  events-Unique n [] d room v = (n, omega arith, v)
  events-Unique n (o ∷ os) d room v =
      let k = event_keeps n o d (omega (arith, room)) v in
      let (m, le, last) =
        events-Unique k.at os (event client json o d) (omega (arith, room, k.high)) k.unique in
      (m, omega (arith, le, k.high), last)

  pub empty-Unique : (d : D) → ((key : Bytes) → client.get key d ≡ nil) → Unique client 0 d
  empty-Unique d empty = record {
    counter = inr (empty key_uid_next, refl);
    issued = λ a text e. absurd (ground (arith, e, empty (account_role_key a)));
    distinct = λ a b text e f. absurd (ground (arith, e, empty (account_role_key a)));
  }

  -- From an empty database on, whatever logins and saves of profiles come in whatever order, fewer
  -- than 2 ^ 63, and whichever of their commands fail, two accounts with names that have the same
  -- role ID are the same account.
  pub events-distinct :
      (os : List Event) (a b : Bytes) (i : ℕ) (d : D)
      → ((key : Bytes) → client.get key d ≡ nil)
      → length os < 2 ^ 63
      → load_role_id client a (events client json os d) ≡ some (some i)
      → load_role_id client b (events client json os d) ≡ some (some i)
      → a ≡ b
  events-distinct os a b i d empty few has has' =
      let (m, le, v) = events-Unique 0 os d (omega (arith, few)) (empty-Unique d empty) in
      let last = events client json os d in
      v.distinct a b (format_int64 i) (stored client m i a last (omega (arith, le, few)) v has).0
        (stored client m i b last (omega (arith, le, few)) v has').0
