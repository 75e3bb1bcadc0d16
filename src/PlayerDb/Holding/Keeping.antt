-- ===== src/PlayerDb/Holding/Keeping.antt =====
-- Saves and logins of PlayerDb keep a role ID over Redis with its account.
use test_go_server.Prelude.{
  ℕ, ◌+◌, ◌<◌, ◌≤◌, ◌^◌, ◌≡◌, ◌≢◌, refl, ap, sym, ◌∙◌, ◌⊎◌, inl, inr, [], ◌∷◌, Option, some, arith,
  Bool-cases, ◌==◌,
}
use test_go_server.Protocol.{Bytes}
use test_go_server.Text.{format_int64}
use test_go_server.Redis.Keys.{key_uid_next, account_role_key, account_role_key-inj, uid-ne-account}
use test_go_server.Redis.Dao.{value, Client, next_uid}
use test_go_server.Service.Login.{resolve_role_id}
use test_go_server.Service.Login
use test_go_server.Service.Login.Keeps.{resolve_role_id_keeps}
use test_go_server.PlayerDb.{Json, save_role_id, save_profile, redis_login, redis_accounts}
use test_go_server.PlayerDb.Accounts.{Sets, save-named, save-profile_apart}
use test_go_server.PlayerDb.Unique.{Counts, Unique, same_account, format-inj, value-inj}
use test_go_server.PlayerDb.Holding.{Only}

-- The role IDs are as they were.
Only-same :
    {D : Type 0} (client : Client D) (a : Bytes) (i : ℕ) (d d' : D)
    → ((b : Bytes) → client.get (account_role_key b) d' ≡ client.get (account_role_key b) d)
    → Only client a i d
    → Only client a i d'
Only-same client a i d d' same only b e = only b (sym (same b) ∙ e)

module _ {D : Type 0} (client : Client D) (json : Json) (sets : Sets client)
    (counting : Counts client) where
  save-Only :
      (a account : Bytes) (i id : ℕ) (d : D)
      → i < 2 ^ 64
      → id < 2 ^ 64
      → (account ≡ a) ⊎ (id ≢ i)
      → Only client a i d
      → Only client a i (save_role_id client account id d).0
  unfolding save_role_id
  save-Only a [] i id d fits fits' apart only = only
  save-Only a (c ∷ s) i id d fits fits' apart only = elim (Bool-cases (id == 0)) [
    | inl e ↦ rw e only
    | inr e ↦ λ b f.
        let account = c ∷ s in
        let saved =
          save-named client account id d (λ z. ground (arith, z)) (λ z. ground (arith, e, z)) in
        let after = (client.set (account_role_key account) (format_int64 id) 0 d).0 in
        let now : client.get (account_role_key b) after ≡ value (format_int64 i) =
          ap (λ r. client.get (account_role_key b) r.0) (sym saved) ∙ f in
        elim (sets.writes (account_role_key account) (format_int64 id) d) [
          | inr (bad, same) ↦ only b (sym (same (account_role_key b)) ∙ now)
          | inl w ↦ elim (same_account b account) [
            | inr other ↦ only b (
                sym (w.there (account_role_key b) (λ z. other (account_role_key-inj b account z)))
                ∙ now)
            | inl this ↦ elim apart [
              | inl own ↦ this ∙ own
              | inr ne ↦
                  let text = value-inj (format_int64 id) (format_int64 i) (
                    sym w.here
                    ∙ ap (λ t. client.get (account_role_key t) after) (sym this)
                    ∙ now) in
                  absurd (ne (format-inj id i fits' fits text))
            ]
          ]
        ]
  ]

  -- A login keeps a role ID with its account, when the counter has given it out before, or when it
  -- is a login of the account.
  pub login-Only :
      (n i : ℕ) (a account : Bytes) (d : D)
      → n + 1 < 2 ^ 63
      → Unique client n d
      → i < 2 ^ 64
      → (account ≡ a) ⊎ (i ≤ n)
      → Only client a i d
      → Only client a i (resolve_role_id (redis_login client json) account d).0
  unfolding test_go_server.Service.Login.next_uid next_uid
  login-Only n i a account d room v fits apart only =
      resolve_role_id_keeps (redis_login client json) (redis_accounts client json) (Only client a i)
        account d refl only counted.0 counted.1
        (λ f e kept.
          Only-same client a i e (save_profile client json f e).0
            (λ b. save-profile_apart client json b f e sets) kept)
    where
      d1 : D
      d1 = (client.incr key_uid_next d).0

      told : Option ℕ
      told = (client.incr key_uid_next d).1

      new_apart : (id : ℕ) → n + 1 ≡ id → (account ≡ a) ⊎ (id ≢ i)
      new_apart id new = elim apart [
        | inl own ↦ inl own
        | inr le ↦ inr (λ z. omega (arith, new, z, le))
      ]

      counted :
          Only client a i d1
          × ((id : ℕ) → told ≡ some id → Only client a i (save_role_id client account id d1).0)
      counted = elim (counting.counts n d v.counter room) [
        | inl (w, out) ↦
            let kept =
              Only-same client a i d d1
                (λ b. w.there (account_role_key b) (λ e. uid-ne-account b (sym e))) only in
            (
              kept,
              elim out [
                | inl e ↦ λ id t.
                    let new : n + 1 ≡ id = ground (arith, e, t) in
                    save-Only a account i id d1 fits (omega (arith, new, room)) (new_apart id new)
                      kept
                | inr e ↦ λ id t. absurd (ground (arith, e, t))
              ],
            )
        | inr (e, same) ↦ (
          Only-same client a i d d1 (λ b. same (account_role_key b)) only,
          λ id t. absurd (ground (arith, e, t)),
        )
      ]
