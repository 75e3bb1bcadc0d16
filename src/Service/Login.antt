-- ===== src/Service/Login.antt =====
-- internal/service/modules/login: the login of an account.  The store and the generator of IDs are
-- the interfaces player_db.Store and UIDGenerator, over one state of the database.
pub mod Stable
pub mod Keeps
use test_go_server.Prelude.{
  ℕ, List, [], ◌∷◌, Option, none, some, Bool, true, false, ◌==◌, ◌||◌, if◌then◌else◌,
}
use test_go_server.Protocol.{
  Bytes, Envelope, Error, invalid_token, unknown_platform, msg_player_enter_game_req,
}
use test_go_server.Game.Player.{PlayerProfile, new_profile}

-- LoadRoleID, of which none is an error; SaveRoleID and SaveProfile tell whether they succeeded.
pub record AccountStore (D : Type 0) : Type 0 where
  pub load_role_id : Bytes → D → Option (Option ℕ)
  pub save_role_id : Bytes → ℕ → D → D × Bool
  pub save_profile : PlayerProfile → D → D × Bool

pub record LoginService (D : Type 0) : Type 0 where
  pub uid_gen : Option (D → D × Option ℕ)
  pub store : Option (AccountStore D)

module _ {D : Type 0} where
  uid_of : Option (D → D × Option ℕ) → D → D × Option ℕ
  uid_of none d = (d, some 0)
  uid_of (some gen) d = gen d

  -- LoginService.NextUID
  unfoldable pub next_uid : LoginService D → D → D × Option ℕ
  unfolding uid_of
  next_uid svc d = uid_of svc.uid_gen d

  save_new : AccountStore D → Bytes → ℕ → D → D × Option (ℕ × Bool)
  unfolding new_profile
  save_new store account id d =
      let (d1, first) = store.save_role_id account id d in
      let (d2, second) = store.save_profile (new_profile id account) d1 in
      if first then (if second then (d2, some (id, false)) else (d2, none)) else (d1, none)

  create : AccountStore D → Bytes → D × Option ℕ → D × Option (ℕ × Bool)
  unfolding save_new
  create store account (d, none) = (d, none)
  create store account (d, some id) = save_new store account id d

  loaded : LoginService D → AccountStore D → Bytes → D → Option (Option ℕ) → D × Option (ℕ × Bool)
  unfolding create next_uid
  loaded svc store account d none = (d, none)
  loaded svc store account d (some (some id)) = (d, some (id, true))
  loaded svc store account d (some none) = create store account (next_uid svc d)

  without_store : D × Option ℕ → D × Option (ℕ × Bool)
  without_store (d, none) = (d, none)
  without_store (d, some id) = (d, some (id, false))

  resolve_with : Option (AccountStore D) → LoginService D → Bytes → D → D × Option (ℕ × Bool)
  unfolding loaded without_store next_uid
  resolve_with none svc account d = without_store (next_uid svc d)
  resolve_with (some store) svc account d =
      loaded svc store account d (store.load_role_id account d)

  -- LoginService.ResolveRoleID: the ID and whether the account had it, or none for an error.
  unfoldable pub resolve_role_id : LoginService D → Bytes → D → D × Option (ℕ × Bool)
  unfolding resolve_with
  resolve_role_id svc account d = resolve_with svc.store svc account d
