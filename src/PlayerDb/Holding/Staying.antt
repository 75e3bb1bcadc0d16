-- ===== src/PlayerDb/Holding/Staying.antt =====
-- An account of PlayerDb keeps its role ID over Redis, whatever the others do.
use test_go_server.Prelude.{
  ℕ, ◌+◌, ◌<◌, ◌≤◌, ◌^◌, ◌≡◌, ◌≢◌, refl, ap, sym, ◌∙◌, inl, inr, List, [], ◌∷◌, some, Bool, true,
  arith, length, Bool-cases, ◌==◌,
}
use test_go_server.Protocol.{Bytes}
use test_go_server.Text.{format_int64}
use test_go_server.Text.Decimal.{parse_int64-format_int64}
use test_go_server.Redis.Keys.{key_uid_next, account_role_key, account_role_key-inj, uid-ne-account}
use test_go_server.Redis.Dao.{nil, value, Client, next_uid}
use test_go_server.Service.Login.{resolve_role_id}
use test_go_server.Service.Login
use test_go_server.Service.Login.Keeps.{resolve_role_id_keeps}
use test_go_server.Service.Login.Stable.{resolve_role_id-held, resolve_role_id-load}
use test_go_server.PlayerDb.{
  Json, role_of, parsed, load_role_id, save_role_id, redis_login, redis_accounts,
}
use test_go_server.PlayerDb.Accounts.{
  Sets, load-named, save-named, save-profile_apart, redis_accounts-Remembers,
}
use test_go_server.PlayerDb.Unique.{Counts, Unique, same_account}
use test_go_server.PlayerDb.Roles.{
  stored, Event, login, saving, event, events, event_keeps, events-Unique, empty-Unique,
}
use test_go_server.PlayerDb.Holding.{resolved_cases}

-- The account has the role ID in the database.
abbrev Held : {D : Type 0} → Client D → Bytes → ℕ → D → Type 0
Held client account id d = client.get (account_role_key account) d ≡ value (format_int64 id)

module _ {D : Type 0} (client : Client D) (json : Json) (sets : Sets client)
    (counting : Counts client) where
  loads :
      (account : Bytes) (id : ℕ) (d : D)
      → account ≢ []
      → id < 2 ^ 64
      → Held client account id d
      → load_role_id client account d ≡ some (some id)
  loads account id d named fits held =
      load-named client account d named
      ∙ ap role_of held
      ∙ unfold role_of in ap parsed (parse_int64-format_int64 id fits) ∙ unfold parsed in refl

  again :
      (account : Bytes) (id : ℕ) (d : D)
      → account ≢ []
      → id < 2 ^ 64
      → Held client account id d
      → resolve_role_id (redis_login client json) account d ≡ (d, some (id, true))
  again account id d named fits held =
      resolve_role_id-held (redis_login client json) (redis_accounts client json)
        (redis_accounts-Remembers client json sets) account id d refl
        (loads account id d named fits held)

  -- An ID that is saved for another account leaves this one its own.
  save-Held :
      (account other : Bytes) (id new : ℕ) (d : D)
      → other ≢ account
      → Held client account id d
      → Held client account id (save_role_id client other new d).0
  unfolding save_role_id
  save-Held account [] id new d apart held = held
  save-Held account (c ∷ s) id new d apart held = elim (Bool-cases (new == 0)) [
    | inl e ↦ rw e held
    | inr e ↦
        let saved =
          save-named client (c ∷ s) new d (λ z. ground (arith, z)) (λ z. ground (arith, e, z)) in
        ap (λ r. client.get (account_role_key account) r.0) saved
        ∙ elim (sets.writes (account_role_key (c ∷ s)) (format_int64 new) d) [
          | inl w ↦
              w.there (account_role_key account)
                (λ z. apart (sym (account_role_key-inj account (c ∷ s) z)))
              ∙ held
          | inr (bad, same) ↦ same (account_role_key account) ∙ held
        ]
  ]

  login-Held :
      (n id : ℕ) (account other : Bytes) (d : D)
      → n + 1 < 2 ^ 63
      → Unique client n d
      → other ≢ account
      → Held client account id d
      → Held client account id (resolve_role_id (redis_login client json) other d).0
  unfolding test_go_server.Service.Login.next_uid next_uid
  login-Held n id account other d room v apart held =
      resolve_role_id_keeps (redis_login client json) (redis_accounts client json)
        (Held client account id) other d refl held counted
        (λ new told. save-Held account other id new _ apart counted)
        (λ f e kept. save-profile_apart client json account f e sets ∙ kept)
    where
      counted : Held client account id (client.incr key_uid_next d).0
      counted = elim (counting.counts n d v.counter room) [
        | inl (w, told) ↦
            w.there (account_role_key account) (λ e. uid-ne-account account (sym e)) ∙ held
        | inr (bad, same) ↦ same (account_role_key account) ∙ held
      ]

  event-Held :
      (n id : ℕ) (account : Bytes) (o : Event) (d : D)
      → n + 1 < 2 ^ 63
      → Unique client n d
      → account ≢ []
      → id < 2 ^ 64
      → Held client account id d
      → Held client account id (event client json o d)
  unfolding event
  event-Held n id account (saving f) d room v named fits held =
      save-profile_apart client json account f d sets ∙ held
  event-Held n id account (login other) d room v named fits held =
      elim (same_account other account) [
        | inr apart ↦ login-Held n id account other d room v apart held
        | inl same ↦
            let here : resolve_role_id (redis_login client json) other d ≡ (d, some (id, true)) =
              ap (λ a. resolve_role_id (redis_login client json) a d) same
              ∙ again account id d named fits held in
            ap (λ r. client.get (account_role_key account) r.0) here ∙ held
      ]

  events-Held :
      (n id : ℕ) (account : Bytes) (os : List Event) (d : D)
      → n + length os < 2 ^ 63
      → Unique client n d
      → account ≢ []
      → id < 2 ^ 64
      → Held client account id d
      → Held client account id (events client json os d)
  unfolding events
  events-Held n id account [] d room v named fits held = held
  events-Held n id account (o ∷ os) d room v named fits held =
      let k = event_keeps client json sets counting n o d (omega (arith, room)) v in
      events-Held k.at id account os (event client json o d) (omega (arith, room, k.high)) k.unique
        named fits (event-Held n id account o d (omega (arith, room)) v named fits held)

  -- From an empty database on, after whatever logins and saves of profiles, let a login of an account
  -- with a name be resolved to an ID, old or new; then, after whatever logins of any accounts and saves
  -- follow, fewer than 2 ^ 63 in all and whichever of their commands fail, the account is resolved to
  -- the same ID, as one that it had, and this does not change the database.
  pub events-resolve :
      (os later : List Event) (account : Bytes) (id : ℕ) (b : Bool) (d : D)
      → ((key : Bytes) → client.get key d ≡ nil)
      → length os + 1 + length later < 2 ^ 63
      → account ≢ []
      → let before = events client json os d in
        (resolve_role_id (redis_login client json) account before).1 ≡ some (id, b)
        → let after = events client json later (event client json (login account) before) in
          resolve_role_id (redis_login client json) account after ≡ (after, some (id, true))
  unfolding event
  events-resolve os later account id b d empty few named e =
      let svc = redis_login client json in
      let (m, le, v) =
        events-Unique client json sets counting 0 os d (omega (arith, few))
          (empty-Unique client json sets counting d empty) in
      let before = events client json os d in
      let room : m + 1 < 2 ^ 63 = omega (arith, few, le) in
      let (pos, small) = bounds m id account b before room v e in
      let fits : id < 2 ^ 64 = omega (arith, small, room) in
      let k = event_keeps client json sets counting m (login account) before room v in
      let after = (resolve_role_id svc account before).0 in
      let has =
        resolve_role_id-load svc (redis_accounts client json)
          (redis_accounts-Remembers client json sets) account id b before refl named
          (λ z. omega (arith, z, pos)) fits e in
      let held =
        (stored client k.at id account after (omega (arith, k.high, room)) k.unique has).0 in
      again account id (events client json later after) named fits (
        events-Held k.at id account later after (omega (arith, few, le, k.high)) k.unique named fits
          held)
    where
      bounds :
          (n id : ℕ) (account : Bytes) (b : Bool) (e : D)
          → n + 1 < 2 ^ 63
          → Unique client n e
          → (resolve_role_id (redis_login client json) account e).1 ≡ some (id, b)
          → (0 < id) × (id ≤ n + 1)
      bounds n id account b e room v r =
          elim (resolved_cases client json sets counting n id account b e room v r) [
            | inl (held, pos, le) ↦ (pos, omega (arith, le))
            | inr new ↦ (omega (arith, new), omega (arith, new))
          ]
