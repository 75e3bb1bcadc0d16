-- ===== src/PlayerDb/Holding.antt =====
-- A role ID over Redis is resolved for one account, whatever logins and saves come.
pub mod Keeping
pub mod Staying
use test_go_server.Prelude.{
  ℕ, ◌+◌, ◌<◌, ◌≤◌, ◌^◌, ◌≡◌, refl, subst, ◌⊎◌, inl, inr, some, Bool, arith,
}
use test_go_server.Protocol.{Bytes}
use test_go_server.Text.{format_int64}
use test_go_server.Redis.Keys.{key_uid_next, account_role_key}
use test_go_server.Redis.Dao.{value, Client, next_uid}
use test_go_server.Service.Login.{resolve_role_id}
use test_go_server.Service.Login
use test_go_server.Service.Login.Keeps.{resolve_role_id_creates}
use test_go_server.Service.Login.Stable.{resolve_role_id-from}
use test_go_server.PlayerDb.{Json, save_role_id, redis_login, redis_accounts}
use test_go_server.PlayerDb.Accounts.{Sets, redis_accounts-Remembers}
use test_go_server.PlayerDb.Unique.{Counts, Unique, format-inj}
use test_go_server.PlayerDb.Roles.{stored, login_keeps, issued-Unique, role-Unique, profile-Unique}

-- No account but the one has the role ID in the database.
abbrev pub Only : {D : Type 0} → Client D → Bytes → ℕ → D → Type 0
Only client account id d =
    (b : Bytes) → client.get (account_role_key b) d ≡ value (format_int64 id) → b ≡ account

module _ {D : Type 0} (client : Client D) (json : Json) (sets : Sets client)
    (counting : Counts client) where
  -- What a login is resolved to: an ID that its account has, or the newest that the counter gives.
  pub resolved_cases :
      (n id : ℕ) (account : Bytes) (b : Bool) (d : D)
      → n + 1 < 2 ^ 63
      → Unique client n d
      → (resolve_role_id (redis_login client json) account d).1 ≡ some (id, b)
      → ((client.get (account_role_key account) d ≡ value (format_int64 id)) × (0 < id) × (id ≤ n))
        ⊎ (id ≡ n + 1)
  unfolding test_go_server.Service.Login.next_uid next_uid
  resolved_cases n id account b d room v e =
      elim (resolve_role_id-from (redis_login client json) (redis_accounts client json)
        (redis_accounts-Remembers client json sets) account id b d refl e) [
          | inl held ↦ inl (stored client n id account d (omega (arith, room)) v held)
          | inr (none_yet, told) ↦ elim (counting.counts n d v.counter room) [
            | inl (w, inl f) ↦ inr (ground (arith, f, told))
            | inl (w, inr f) ↦ absurd (ground (arith, f, told))
            | inr (f, same) ↦ absurd (ground (arith, f, told))
          ]
        ]

  -- After a login, the counter stands at the ID that it was resolved to, or further.
  pub login-counted :
      (n id : ℕ) (account : Bytes) (b : Bool) (d : D)
      → n + 1 < 2 ^ 63
      → Unique client n d
      → (resolve_role_id (redis_login client json) account d).1 ≡ some (id, b)
      → (m : ℕ) × (id ≤ m)
        × (m ≤ n + 1)
        × Unique client m (resolve_role_id (redis_login client json) account d).0
  unfolding test_go_server.Service.Login.next_uid next_uid
  login-counted n id account b d room v e =
      elim (resolve_role_id-from (redis_login client json) (redis_accounts client json)
        (redis_accounts-Remembers client json sets) account id b d refl e) [
          | inl held ↦
              let (text, pos, le) = stored client n id account d (omega (arith, room)) v held in
              let k = login_keeps client json sets counting n account d room v in
              (k.at, omega (arith, le, k.low), k.high, k.unique)
          | inr (none_yet, told) ↦ elim (counting.counts n d v.counter room) [
            | inl (w, inl f) ↦
                let new : n + 1 ≡ id = ground (arith, f, told) in
                (
                  n + 1,
                  omega (arith, new),
                  omega arith,
                  resolve_role_id_creates (redis_login client json) (redis_accounts client json)
                      (Unique client (n + 1)) account d refl none_yet
                      (issued-Unique client json sets counting n d _ v w)
                      (λ i t.
                        let same : n + 1 ≡ i = ground (arith, f, t) in
                        subst
                          (λ j.
                            Unique client (n + 1)
                              (save_role_id client account j (client.incr key_uid_next d).0).0)
                          same (role-Unique client json sets counting n account d _ room v w))
                      (λ f e k. profile-Unique client json sets counting (n + 1) f e k),
                )
            | inl (w, inr f) ↦ absurd (ground (arith, f, told))
            | inr (f, same) ↦ absurd (ground (arith, f, told))
          ]
        ]

  -- A login is resolved to an ID that the counter has given out by then.
  pub login-issued :
      (n id : ℕ) (account : Bytes) (b : Bool) (d : D)
      → n + 1 < 2 ^ 63
      → Unique client n d
      → (resolve_role_id (redis_login client json) account d).1 ≡ some (id, b)
      → id ≤ n + 1
  login-issued n id account b d room v e =
      let (m, le, high, unique) = login-counted n id account b d room v e in omega (arith, le, high)

  -- A role ID that one account alone has is resolved for no other.
  pub resolved-Only :
      (n id : ℕ) (a account : Bytes) (b : Bool) (d : D)
      → n + 1 < 2 ^ 63
      → Unique client n d
      → id ≤ n
      → Only client a id d
      → (resolve_role_id (redis_login client json) account d).1 ≡ some (id, b)
      → account ≡ a
  resolved-Only n id a account b d room v le only e =
      elim (resolved_cases n id account b d room v e) [
        | inl (held, pos, le') ↦ only account held
        | inr new ↦ absurd (omega (arith, new, le))
      ]

  -- Before a login, no account but its own has the role ID that it is resolved to.
  pub before-Only :
      (n id : ℕ) (account : Bytes) (b : Bool) (d : D)
      → n + 1 < 2 ^ 63
      → Unique client n d
      → (resolve_role_id (redis_login client json) account d).1 ≡ some (id, b)
      → Only client account id d
  before-Only n id account b d room v e other f = elim (resolved_cases n id account b d room v e) [
    | inl (held, pos, le) ↦ v.distinct other account (format_int64 id) f held
    | inr new ↦
        let (j, text, pos, le) = v.issued other (format_int64 id) f in
        let same = format-inj id j (omega (arith, new, room)) (omega (arith, le, room)) text in
        absurd (omega (arith, same, new, le))
  ]
