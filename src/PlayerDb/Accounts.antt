-- ===== src/PlayerDb/Accounts.antt =====
-- The store over Redis keeps the promises of its interface.
use test_go_server.Prelude.{
  ℕ, ◌<◌, ◌^◌, ◌≡◌, ◌≢◌, refl, ap, sym, ◌∙◌, ◌⊎◌, inl, inr, [], ◌∷◌, Option, none, some, true,
  false, ◌==◌, arith, Bool-cases,
}
use test_go_server.Protocol.{Bytes}
use test_go_server.Text.{format_int64}
use test_go_server.Text.Decimal.{parse_int64-format_int64}
use test_go_server.Redis.Keys.{account_role_key, player_profile_key, profile-ne-account}
use test_go_server.Redis.Dao.{value, Client, get_string, set_with_ttl}
use test_go_server.Game.Player.{PlayerProfile}
use test_go_server.Service.Login.Stable.{Remembers}
use test_go_server.PlayerDb.{
  Json, role_of, parsed, load_role_id, save_role_id, save_profile, write_profile, redis_accounts,
}

module _ {D : Type 0} (client : Client D) where
  -- The database d' is d with a text written at a key.
  pub record Written (key text : Bytes) (d d' : D) : Type 0 where
    pub here : client.get key d' ≡ value text
    pub there : (j : Bytes) → j ≢ key → client.get j d' ≡ client.get j d

  -- SET as Redis documents it: it writes, or it reports an error and may have written or not.
  pub record Sets : Type 0 where
    pub writes :
        (key text : Bytes) (d : D)
        → Written key text d (client.set key text 0 d).0
          ⊎ (((client.set key text 0 d).1 ≡ false)
              × ((j : Bytes) → client.get j (client.set key text 0 d).0 ≡ client.get j d))

-- What a role ID is read from, for an account with a name.
pub load-named :
    {D : Type 0} (client : Client D) (account : Bytes) (d : D)
    → account ≢ []
    → load_role_id client account d ≡ role_of (client.get (account_role_key account) d)
unfolding load_role_id get_string
load-named client [] d named = absurd (named refl)
load-named client (c ∷ s) d named = refl

pub save-named :
    {D : Type 0} (client : Client D) (account : Bytes) (id : ℕ) (d : D)
    → account ≢ []
    → id ≢ 0
    → save_role_id client account id d ≡ client.set (account_role_key account) (format_int64 id) 0 d
unfolding save_role_id set_with_ttl
save-named client [] id d named real = absurd (named refl)
save-named client (c ∷ s) id d named real = ground (arith, real)

pub save-profile_other :
    {D : Type 0} (client : Client D) (json : Json) (j : Bytes) (f : PlayerProfile) (d : D)
    → Sets client
    → j ≢ player_profile_key f.role_id
    → client.get j (save_profile client json f d).0 ≡ client.get j d
unfolding save_profile write_profile set_with_ttl
save-profile_other client json j f d law apart = elim (Bool-cases (f.role_id == 0)) [
  | inl e ↦ rw e refl
  | inr e ↦ rw e (by_text (json.marshal f))
]
  where
    by_text :
        (o : Option Bytes)
        → client.get j (write_profile client json f.role_id o d).0 ≡ client.get j d
    by_text none = refl
    by_text (some text) = elim (law.writes (player_profile_key f.role_id) text d) [
      | inl w ↦ w.there j apart
      | inr (bad, same) ↦ same j
    ]

pub save-profile_apart :
    {D : Type 0} (client : Client D) (json : Json) (account : Bytes) (f : PlayerProfile) (d : D)
    → Sets client
    → client.get (account_role_key account) (save_profile client json f d).0
      ≡ client.get (account_role_key account) d
save-profile_apart client json account f d law =
    save-profile_other client json (account_role_key account) f d law
      (λ e. profile-ne-account f.role_id account (sym e))

saved_id :
    {D : Type 0} (client : Client D) (account : Bytes) (id : ℕ) (d : D)
    → Sets client
    → id < 2 ^ 64
    → (client.set (account_role_key account) (format_int64 id) 0 d).1 ≡ true
    → role_of (
        client.get
          (account_role_key account)
          (client.set (account_role_key account) (format_int64 id) 0 d).0)
      ≡ some (some id)
unfolding role_of
saved_id client account id d law fits ok =
    elim (law.writes (account_role_key account) (format_int64 id) d) [
      | inl w ↦
          ap role_of w.here ∙ ap parsed (parse_int64-format_int64 id fits) ∙ unfold parsed in refl
      | inr (bad, same) ↦ absurd (ground (arith, ok, bad))
    ]

load-apart :
    {D : Type 0} (client : Client D) (json : Json) (account : Bytes) (f : PlayerProfile) (d : D)
    → Sets client
    → load_role_id client account (save_profile client json f d).0 ≡ load_role_id client account d
unfolding load_role_id get_string
load-apart client json [] f d law = refl
load-apart client json (c ∷ s) f d law = ap role_of (save-profile_apart client json (c ∷ s) f d law)

-- Over a client that keeps what SET promises, the store of accounts remembers, as the login relies
-- on: an int64 that it saved for an account with a name, and is not 0, it loads again, and saving a
-- profile touches no ID.
pub redis_accounts-Remembers :
    {D : Type 0} (client : Client D) (json : Json)
    → Sets client
    → Remembers (redis_accounts client json)
redis_accounts-Remembers client json law = record {
  saved = λ account id d named real fits ok.
      let e = save-named client account id d named real in
      load-named client account _ named
      ∙ ap (λ r. role_of (client.get (account_role_key account) r.0)) e
      ∙ saved_id client account id d law fits (ap (λ r. r.1) (sym e) ∙ ok);
  apart = λ account f d. load-apart client json account f d law;
}
