-- ===== src/PlayerDb.antt =====
-- internal/player_db/store_redis.go: accounts and profiles over Redis.
pub mod Accounts
pub mod Unique
pub mod Roles
pub mod Holding
pub mod Profiles
pub mod Restart
use test_go_server.Prelude.{
  is_empty, ℕ, List, [], ◌∷◌, Option, none, some, Bool, true, false, ◌==◌, ◌||◌, if◌then◌else◌,
}
use test_go_server.Protocol.{Bytes}
use test_go_server.Text.{format_int64}
use test_go_server.Text.Decimal.{parse_int64}
use test_go_server.Redis.Keys.{account_role_key, player_profile_key}
use test_go_server.Redis.Dao.{Reply, nil, failed, value, Client, get_string, set_with_ttl, next_uid}
use test_go_server.Game.Player.{PlayerProfile}
use test_go_server.Game.Manager.{Store, Loaded, load_error, profile_of}
use test_go_server.Service.Login.{AccountStore, LoginService}

-- encoding/json at PlayerProfile.
pub record Json : Type 0 where
  pub marshal : PlayerProfile → Option Bytes
  pub unmarshal : Bytes → Option PlayerProfile

parsed : Option ℕ → Option (Option ℕ)
parsed none = none
parsed (some id) = some (some id)

pub role_of : Reply → Option (Option ℕ)
unfolding parsed
role_of nil = some none
role_of failed = none
role_of (value text) = parsed (parse_int64 text)

decoded : Option PlayerProfile → Loaded
decoded none = load_error
decoded (some f) = profile_of (some f)

loaded_of : Json → Reply → Loaded
unfolding decoded
loaded_of json nil = profile_of none
loaded_of json failed = load_error
loaded_of json (value text) = decoded (json.unmarshal text)

module _ {D : Type 0} (client : Client D) where
  -- RedisStore.LoadRoleID: none is an error, some none no ID.
  unfoldable pub load_role_id : Bytes → D → Option (Option ℕ)
  unfolding role_of get_string
  load_role_id account d =
      if is_empty account
      then some none
      else role_of (get_string client (account_role_key account) d)

  -- RedisStore.SaveRoleID; the client writes an int64 in decimal.
  unfoldable pub save_role_id : Bytes → ℕ → D → D × Bool
  unfolding set_with_ttl
  save_role_id account id d =
      if is_empty account || id == 0
      then (d, true)
      else set_with_ttl client (account_role_key account) (format_int64 id) 0 d

module _ {D : Type 0} (client : Client D) (json : Json) where
  -- RedisStore.LoadProfile
  unfoldable pub load_profile : ℕ → D → Loaded
  unfolding loaded_of get_string
  load_profile id d =
      if id == 0
      then profile_of none
      else loaded_of json (get_string client (player_profile_key id) d)

  write_profile : ℕ → Option Bytes → D → D × Bool
  unfolding set_with_ttl
  write_profile id none d = (d, false)
  write_profile id (some text) d = set_with_ttl client (player_profile_key id) text 0 d

  -- RedisStore.SaveProfile
  unfoldable pub save_profile : PlayerProfile → D → D × Bool
  unfolding write_profile
  save_profile f d =
      if f.role_id == 0 then (d, true) else write_profile f.role_id (json.marshal f) d

  -- The RedisStore as the login service sees it, and as the players' manager does.
  abbrev pub redis_accounts : AccountStore D
  redis_accounts = record {
    load_role_id = load_role_id client;
    save_role_id = save_role_id client;
    save_profile = save_profile;
  }

  abbrev pub redis_store : Store D
  redis_store = record { load_profile = load_profile; save_profile = save_profile }

  -- The login service of the service process: its generator of IDs is the RedisDao.
  abbrev pub redis_login : LoginService D
  redis_login = record { uid_gen = some (next_uid client); store = some redis_accounts }
