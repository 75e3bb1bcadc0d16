-- ===== src/PlayerDb/Profiles.antt =====
-- The profiles of the players over Redis.
use test_go_server.Prelude.{
  ℕ, ◌<◌, ◌^◌, ◌≡◌, ◌≢◌, refl, ap, sym, ◌∙◌, inl, inr, Option, none, some, true, ◌==◌,
  if◌then◌else◌, arith,
}
use test_go_server.Protocol.{Bytes}
use test_go_server.Redis.Keys.{player_profile_key, player_profile_key-inj}
use test_go_server.Redis.Dao.{value, Client, get_string, set_with_ttl}
use test_go_server.Game.Player.{PlayerProfile}
use test_go_server.Game.Manager.{profile_of}
use test_go_server.PlayerDb.{Json, decoded, loaded_of, load_profile, save_profile, write_profile}
use test_go_server.PlayerDb.Accounts.{Sets, save-profile_other}

module _ {D : Type 0} (client : Client D) (json : Json) (sets : Sets client) where
  load-real :
      (id : ℕ) (d : D)
      → id ≢ 0
      → load_profile client json id d ≡ loaded_of json (client.get (player_profile_key id) d)
  unfolding load_profile get_string
  load-real id d real = ground (arith, real)

  save-real :
      (f : PlayerProfile) (d : D)
      → f.role_id ≢ 0
      → save_profile client json f d ≡ write_profile client json f.role_id (json.marshal f) d
  unfolding save_profile
  save-real f d real = ground (arith, real)

  written_text :
      (f : PlayerProfile) (o : Option Bytes) (d : D)
      → (write_profile client json f.role_id o d).1 ≡ true
      → (text : Bytes) × (o ≡ some text)
        × (client.get (player_profile_key f.role_id) (write_profile client json f.role_id o d).0
            ≡ value text)
  unfolding write_profile set_with_ttl
  written_text f none d ok = absurd (ground (arith, ok))
  written_text f (some text) d ok = elim (sets.writes (player_profile_key f.role_id) text d) [
    | inl w ↦ (text, refl, w.here)
    | inr (bad, same) ↦ absurd (ground (arith, ok, bad))
  ]

  own_profile :
      (f : PlayerProfile) (d : D)
      → ((text : Bytes) → json.marshal f ≡ some text → json.unmarshal text ≡ some f)
      → f.role_id ≢ 0
      → (save_profile client json f d).1 ≡ true
      → load_profile client json f.role_id (save_profile client json f d).0 ≡ profile_of (some f)
  unfolding loaded_of decoded
  own_profile f d reads real ok =
      let e = save-real f d real in
      let d' = (save_profile client json f d).0 in
      let (text, printed, here) = written_text f (json.marshal f) d (ap (λ r. r.1) (sym e) ∙ ok) in
      load-real f.role_id d' real
      ∙ ap (loaded_of json) (ap (λ r. client.get (player_profile_key f.role_id) r.0) e ∙ here)
      ∙ ap decoded (reads text printed)

  other_profile :
      (f : PlayerProfile) (i : ℕ) (d : D)
      → i < 2 ^ 64
      → f.role_id < 2 ^ 64
      → i ≢ f.role_id
      → load_profile client json i (save_profile client json f d).0 ≡ load_profile client json i d
  unfolding load_profile get_string
  other_profile f i d fits fits' apart =
      ap (λ r. if i == 0 then profile_of none else loaded_of json r)
        (save-profile_other client json (player_profile_key i) f d sets
          (λ e. apart (player_profile_key-inj i f.role_id fits fits' e)))

  -- Over a client that keeps what SET promises, a profile of a player whose ID is not 0, that was
  -- saved and that JSON reads back, is the profile that is loaded for that player, and the profiles
  -- of the other players are loaded as before, whether the save succeeded or not.
  pub load_profile-save_profile :
      (f : PlayerProfile) (d : D)
      → ((text : Bytes) → json.marshal f ≡ some text → json.unmarshal text ≡ some f)
      → f.role_id ≢ 0
      → f.role_id < 2 ^ 64
      → ((save_profile client json f d).1 ≡ true
          → load_profile client json f.role_id (save_profile client json f d).0
            ≡ profile_of (some f))
        × ((i : ℕ)
            → i < 2 ^ 64
            → i ≢ f.role_id
            → load_profile client json i (save_profile client json f d).0
              ≡ load_profile client json i d)
  load_profile-save_profile f d reads real fits =
      (own_profile f d reads real, λ i lt apart. other_profile f i d lt fits apart)
