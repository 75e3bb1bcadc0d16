-- ===== src/Service/Login/Keeps.antt =====
-- What a login keeps of the database.
use test_go_server.Prelude.{ℕ, ◌≡◌, refl, Option, none, some, Bool, true, false, if◌then◌else◌}
use test_go_server.Protocol.{Bytes}
use test_go_server.Game.Player.{PlayerProfile, new_profile}
use test_go_server.Service.Login.{
  AccountStore, LoginService, next_uid, save_new, create, loaded, resolve_with, resolve_role_id,
}

module _ {D : Type 0} (svc : LoginService D) (store : AccountStore D) (R : D → Type 0) where
  either :
      (first second : Bool) (x y : D) (id : ℕ)
      → R x
      → R y
      → let r : D × Option (ℕ × Bool) =
          if first then (if second then (y, some (id, false)) else (y, none)) else (x, none) in
        R r.0
  either true true x y id r s = s
  either true false x y id r s = s
  either false second x y id r s = r

  keeps_saving :
      (account : Bytes) (id : ℕ) (d : D)
      → R (store.save_role_id account id d).0
      → ((f : PlayerProfile) (e : D) → R e → R (store.save_profile f e).0)
      → R (save_new store account id d).0
  unfolding save_new
  keeps_saving account id d r profile =
      let one = store.save_role_id account id d in
      let two = store.save_profile (new_profile id account) one.0 in
      either one.1 two.1 one.0 two.0 id r (profile (new_profile id account) one.0 r)

  keeps_creating :
      (account : Bytes) (r : D × Option ℕ)
      → R r.0
      → ((id : ℕ) → r.1 ≡ some id → R (store.save_role_id account id r.0).0)
      → ((f : PlayerProfile) (e : D) → R e → R (store.save_profile f e).0)
      → R (create store account r).0
  unfolding create
  keeps_creating account (d, none) base saving profile = base
  keeps_creating account (d, some id) base saving profile =
      keeps_saving account id d (saving id refl) profile

  -- What the generator of IDs, and the saves of an ID that it has told, keep, a login keeps.
  pub resolve_role_id_keeps :
      (account : Bytes) (d : D)
      → svc.store ≡ some store
      → R d
      → R (next_uid svc d).0
      → ((id : ℕ)
          → (next_uid svc d).1 ≡ some id
          → R (store.save_role_id account id (next_uid svc d).0).0)
      → ((f : PlayerProfile) (e : D) → R e → R (store.save_profile f e).0)
      → R (resolve_role_id svc account d).0
  unfolding resolve_role_id resolve_with loaded
  resolve_role_id_keeps account d has same fresh saving profile =
      rw has (by_loaded (store.load_role_id account d))
    where
      by_loaded : (o : Option (Option ℕ)) → R (loaded svc store account d o).0
      by_loaded none = same
      by_loaded (some (some id)) = same
      by_loaded (some none) = keeps_creating account (next_uid svc d) fresh saving profile

  -- The same of a login of an account that has no ID, of what the generator makes true.
  pub resolve_role_id_creates :
      (account : Bytes) (d : D)
      → svc.store ≡ some store
      → store.load_role_id account d ≡ some none
      → R (next_uid svc d).0
      → ((id : ℕ)
          → (next_uid svc d).1 ≡ some id
          → R (store.save_role_id account id (next_uid svc d).0).0)
      → ((f : PlayerProfile) (e : D) → R e → R (store.save_profile f e).0)
      → R (resolve_role_id svc account d).0
  unfolding resolve_role_id resolve_with loaded
  resolve_role_id_creates account d has none_yet fresh saving profile =
      rw (has, none_yet) (keeps_creating account (next_uid svc d) fresh saving profile)
