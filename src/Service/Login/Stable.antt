-- ===== src/Service/Login/Stable.antt =====
-- An account keeps its ID.
use test_go_server.Prelude.{
  ◌<◌, ◌^◌, ℕ, ◌≡◌, ◌≢◌, refl, ap, sym, ◌∙◌, ◌⊎◌, inl, inr, [], Option, none, some, Bool, true,
  false, if◌then◌else◌, arith,
}
use test_go_server.Protocol.{Bytes}
use test_go_server.Game.Player.{PlayerProfile, new_profile}
use test_go_server.Service.Login.{
  AccountStore, LoginService, next_uid, save_new, create, loaded, resolve_with, resolve_role_id,
}

-- What is relied on: an int64 that was saved for an account with a name, and is not 0, is loaded for it
-- again, and saving a profile does not touch the IDs.
pub record Remembers {D : Type 0} (store : AccountStore D) : Type 0 where
  pub saved :
      (account : Bytes) (id : ℕ) (d : D)
      → account ≢ []
      → id ≢ 0
      → id < 2 ^ 64
      → (store.save_role_id account id d).1 ≡ true
      → store.load_role_id account (store.save_role_id account id d).0 ≡ some (some id)
  pub apart :
      (account : Bytes) (f : PlayerProfile) (d : D)
      → store.load_role_id account (store.save_profile f d).0 ≡ store.load_role_id account d

saved_choice : {D : Type 0} → Bool → Bool → D → D → ℕ → D × Option (ℕ × Bool)
saved_choice first second x y new =
    if first then (if second then (y, some (new, false)) else (y, none)) else (x, none)

choice :
    {D : Type 0} (first second : Bool) (x y : D) (new id : ℕ) (b : Bool)
    → (saved_choice first second x y new).1 ≡ some (id, b)
    → (first ≡ true) × (new ≡ id) × ((saved_choice first second x y new).0 ≡ y)
unfolding saved_choice
choice true true x y new id b e = (refl, ground (arith, e), refl)
choice true false x y new id b e = absurd (ground (arith, e))
choice false second x y new id b e = absurd (ground (arith, e))

module _ {D : Type 0} (svc : LoginService D) (store : AccountStore D) (law : Remembers store) where
  found_after_save :
      (account : Bytes) (new id : ℕ) (b : Bool) (d : D)
      → account ≢ []
      → id ≢ 0
      → id < 2 ^ 64
      → (save_new store account new d).1 ≡ some (id, b)
      → store.load_role_id account (save_new store account new d).0 ≡ some (some id)
  unfolding save_new saved_choice new_profile
  found_after_save account new id b d named real fits e =
      let saved_id = store.save_role_id account new d in
      let saved_profile = store.save_profile (new_profile new account) saved_id.0 in
      let (first, same, last) =
        choice saved_id.1 saved_profile.1 saved_id.0 saved_profile.0 new id b e in
      ap (store.load_role_id account) last
      ∙ law.apart account (new_profile new account) saved_id.0
      ∙ law.saved account new d named (λ z. real (sym same ∙ z)) (omega (arith, same, fits)) first
      ∙ ap (λ i. some (some i)) same

  found_after_create :
      (account : Bytes) (id : ℕ) (b : Bool) (r : D × Option ℕ)
      → account ≢ []
      → id ≢ 0
      → id < 2 ^ 64
      → (create store account r).1 ≡ some (id, b)
      → store.load_role_id account (create store account r).0 ≡ some (some id)
  unfolding create
  found_after_create account id b (d, none) named real fits e = absurd (ground (arith, e))
  found_after_create account id b (d, some new) named real fits e =
      found_after_save account new id b d named real fits e

  found_after :
      (account : Bytes) (id : ℕ) (b : Bool) (d : D) (o : Option (Option ℕ))
      → account ≢ []
      → id ≢ 0
      → id < 2 ^ 64
      → store.load_role_id account d ≡ o
      → (loaded svc store account d o).1 ≡ some (id, b)
      → store.load_role_id account (loaded svc store account d o).0 ≡ some (some id)
  unfolding loaded
  found_after account id b d none named real fits l e = absurd (ground (arith, e))
  found_after account id b d (some (some old)) named real fits l e = l ∙ ground (arith, e)
  found_after account id b d (some none) named real fits l e =
      found_after_create account id b (next_uid svc d) named real fits e

  resolves :
      (account : Bytes) (d : D)
      → svc.store ≡ some store
      → resolve_role_id svc account d ≡ loaded svc store account d (store.load_role_id account d)
  unfolding resolve_role_id resolve_with
  resolves account d has = ap (λ o. resolve_with o svc account d) has

  held_id :
      (account : Bytes) (id : ℕ) (d : D)
      → store.load_role_id account d ≡ some (some id)
      → loaded svc store account d (store.load_role_id account d) ≡ (d, some (id, true))
  unfolding loaded
  held_id account id d e = ap (loaded svc store account d) e

  -- An ID comes from the store, or from the generator.
  from_save :
      (account : Bytes) (new id : ℕ) (b : Bool) (d : D)
      → (save_new store account new d).1 ≡ some (id, b)
      → new ≡ id
  unfolding save_new saved_choice new_profile
  from_save account new id b d e =
      let saved_id = store.save_role_id account new d in
      let saved_profile = store.save_profile (new_profile new account) saved_id.0 in
      (choice saved_id.1 saved_profile.1 saved_id.0 saved_profile.0 new id b e).1

  from_create :
      (account : Bytes) (id : ℕ) (b : Bool) (r : D × Option ℕ)
      → (create store account r).1 ≡ some (id, b)
      → r.1 ≡ some id
  unfolding create
  from_create account id b (d, none) e = absurd (ground (arith, e))
  from_create account id b (d, some new) e = ap some (from_save account new id b d e)

  from_loaded :
      (account : Bytes) (id : ℕ) (b : Bool) (d : D) (o : Option (Option ℕ))
      → (loaded svc store account d o).1 ≡ some (id, b)
      → (o ≡ some (some id)) ⊎ ((o ≡ some none) × ((next_uid svc d).1 ≡ some id))
  unfolding loaded
  from_loaded account id b d none e = absurd (ground (arith, e))
  from_loaded account id b d (some (some old)) e = inl (ground (arith, e))
  from_loaded account id b d (some none) e = inr (refl, from_create account id b (next_uid svc d) e)

  pub resolve_role_id-from :
      (account : Bytes) (id : ℕ) (b : Bool) (d : D)
      → svc.store ≡ some store
      → (resolve_role_id svc account d).1 ≡ some (id, b)
      → (store.load_role_id account d ≡ some (some id))
        ⊎ ((store.load_role_id account d ≡ some none) × ((next_uid svc d).1 ≡ some id))
  resolve_role_id-from account id b d has e =
      from_loaded account id b d (store.load_role_id account d)
        (sym (ap (λ r. r.1) (resolves account d has)) ∙ e)

  -- An account that has an ID is resolved to it, and the database stays as it is.
  pub resolve_role_id-held :
      (account : Bytes) (id : ℕ) (d : D)
      → svc.store ≡ some store
      → store.load_role_id account d ≡ some (some id)
      → resolve_role_id svc account d ≡ (d, some (id, true))
  resolve_role_id-held account id d has e = resolves account d has ∙ held_id account id d e

  -- The ID that an account is resolved to is stored for it.
  pub resolve_role_id-load :
      (account : Bytes) (id : ℕ) (b : Bool) (d : D)
      → svc.store ≡ some store
      → account ≢ []
      → id ≢ 0
      → id < 2 ^ 64
      → (resolve_role_id svc account d).1 ≡ some (id, b)
      → store.load_role_id account (resolve_role_id svc account d).0 ≡ some (some id)
  resolve_role_id-load account id b d has named real fits e =
      let now = resolves account d has in
      ap (λ r. store.load_role_id account r.0) now
      ∙ found_after account id b d (store.load_role_id account d) named real fits refl
          (sym (ap (λ r. r.1) now) ∙ e)

  -- With a store that remembers, an account with a name that was resolved to an ID other than 0, old
  -- or new, is resolved to the same ID from then on, as one that the account had, and this does not
  -- change the database.
  resolve_role_id-resolve_role_id :
      (account : Bytes) (id : ℕ) (b : Bool) (d : D)
      → svc.store ≡ some store
      → account ≢ []
      → id ≢ 0
      → id < 2 ^ 64
      → (resolve_role_id svc account d).1 ≡ some (id, b)
      → resolve_role_id svc account (resolve_role_id svc account d).0
        ≡ ((resolve_role_id svc account d).0, some (id, true))
  resolve_role_id-resolve_role_id account id b d has named real fits e =
      resolve_role_id-held account id (resolve_role_id svc account d).0 has
        (resolve_role_id-load account id b d has named real fits e)
