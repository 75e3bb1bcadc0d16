-- ===== src/Redis/Dao.antt =====
-- internal/db/redis_tools/redis_dao.go: the operations with a logic of their own, and those that the
-- servers use.
pub mod Ranks
use test_go_server.Prelude.{
  ℕ, ℤ, pos, negsuc, pred, lower_positive, List, [], ◌∷◌, Option, none, some, Bool, true, false,
  ◌==◌, if◌then◌else◌,
}
use test_go_server.Protocol.{Bytes}
use test_go_server.Redis.Keys.{key_uid_next, key_player_base, key_rank}

-- What GET answers: redis.Nil, another error, or a text.
pub data Reply : Type 0 where
  nil failed : Reply
  value : Bytes → Reply

-- A member of a sorted set and the bits of its score.
pub record Z : Type 0 where
  pub member : Bytes
  pub score : ℕ

-- The Redis client over a state of the database.  A Bool tells whether a command succeeded; none is
-- an error.  The last number of `set` is the time to live, 0 for ever.
pub record Client (D : Type 0) : Type 0 where
  pub get : Bytes → D → Reply
  pub set : Bytes → Bytes → ℕ → D → D × Bool
  pub incr : Bytes → D → D × Option ℕ
  pub exists_count : Bytes → D → Option ℕ
  pub h_get_all : Bytes → D → Option (List (Bytes × Bytes))
  pub h_set : Bytes → List (Bytes × Bytes) → D → D × Bool
  pub z_add : Bytes → Z → D → D × Bool
  pub z_range : Bytes → ℤ → ℤ → D → Option (List Bytes)
  pub z_rev_range : Bytes → ℤ → ℤ → D → Option (List Bytes)
  pub z_rev_range_with_scores : Bytes → ℤ → ℤ → D → Option (List Z)

module _ {D : Type 0} (client : Client D) where
  -- RedisDao.NextUID
  unfoldable pub next_uid : D → D × Option ℕ
  next_uid d = client.incr key_uid_next d

  -- RedisDao.LoadPlayerBase
  unfoldable pub load_player_base : ℕ → D → Option (List (Bytes × Bytes))
  load_player_base id d = client.h_get_all (key_player_base id) d

  -- RedisDao.SavePlayerBase
  unfoldable pub save_player_base : ℕ → List (Bytes × Bytes) → D → D × Bool
  save_player_base id fields d = client.h_set (key_player_base id) fields d

  -- RedisDao.UpdateRankScore; the member is the player's ID in decimal.
  unfoldable pub update_rank_score : Bytes → Bytes → ℕ → D → D × Bool
  update_rank_score rank player score d =
      client.z_add (key_rank rank) (record { member = player; score = score }) d

  -- RedisDao.GetTopN
  unfoldable pub get_top_n : Bytes → ℤ → D → Option (List Z)
  get_top_n rank n d = client.z_rev_range_with_scores (key_rank rank) (pos 0) (pred n) d

  -- RedisDao.SetWithTTL
  unfoldable pub set_with_ttl : Bytes → Bytes → ℕ → D → D × Bool
  set_with_ttl key text ttl d = client.set key text ttl d

  -- RedisDao.GetString
  unfoldable pub get_string : Bytes → D → Reply
  get_string key d = client.get key d

  -- RedisDao.Exists: the answer, and whether there was no error.
  unfoldable pub exists : Bytes → D → Bool × Bool
  exists key d = elim (client.exists_count key d) [
    | none ↦ (false, false)
    | some n ↦ (n == 1, true)
  ]

  -- RedisDao.ZTopNMin
  unfoldable pub z_top_n_min : Bytes → ℤ → D → Option (List Bytes)
  z_top_n_min key count d = client.z_range key (pos 0) (lower_positive count) d

  -- RedisDao.ZTopNMax
  unfoldable pub z_top_n_max : Bytes → ℤ → D → Option (List Bytes)
  z_top_n_max key count d = client.z_rev_range key (pos 0) (lower_positive count) d

  max_of : Option (List Z) → Option (Option ℕ)
  max_of none = none
  max_of (some []) = some none
  max_of (some (z ∷ zs)) = some (some z.score)

  -- RedisDao.ZMaxScore: none is an error, some none redis.Nil.
  unfoldable pub z_max_score : Bytes → D → Option (Option ℕ)
  unfolding max_of
  z_max_score key d = max_of (client.z_rev_range_with_scores key (pos 0) (pos 0) d)
