-- ===== src/PlayerDb/Restart.antt =====
-- The game process is started again, over the same database.
use test_go_server.Prelude.{
  ℕ, ◌<◌, ◌^◌, ◌≡◌, ◌≢◌, refl, ap, sym, ◌∙◌, [], none, some, true, arith, lookup,
  lookup-insert_self,
}
use test_go_server.Protocol.{Bytes}
use test_go_server.Redis.Dao.{Client}
use test_go_server.Game.Player.{PlayerProfile, Player, active, new_player}
use test_go_server.Game.Manager.{
  Store, profile_of, PlayerManager, new_player_manager, mark_offline, get_or_create,
}
use test_go_server.PlayerDb.{Json, load_profile, save_profile, redis_store}
use test_go_server.PlayerDb.Accounts.{Sets}
use test_go_server.PlayerDb.Profiles.{load_profile-save_profile}

module _ {D : Type 0} (store : Store D) where
  saved_by :
      (k : ℕ) (p : Player) (m : PlayerManager D)
      → lookup k m.players ≡ some p
      → (mark_offline store k m).db ≡ (store.save_profile p.profile m.db).0
  unfolding mark_offline
  saved_by k p m at = rw at refl

  -- A player whose profile is stored is made of it.
  made_of :
      (session k : ℕ) (f : PlayerProfile) (db : D)
      → store.load_profile k db ≡ profile_of (some f)
      → let r = get_or_create store session k (new_player_manager db) in
        (r.1 ≡ none) × (lookup k r.0.players ≡ some (new_player k session f))
  unfolding new_player_manager lookup get_or_create new_player
  made_of session k f db loads = rw loads (refl, lookup-insert_self k (new_player k session f) [])

module _ {D : Type 0} (client : Client D) (json : Json) (sets : Sets client) where
  -- Over a client that keeps what SET promises: when a player with a profile of its own ID, an int64
  -- that is not 0, goes offline and its profile, which JSON reads back, is saved, then a game process
  -- that starts on that database makes an active player with this ID and the same profile, on the
  -- session that asks for it.
  pub get_or_create-mark_offline :
      (session k : ℕ) (p : Player) (m : PlayerManager D)
      → lookup k m.players ≡ some p
      → p.profile.role_id ≡ k
      → k ≢ 0
      → k < 2 ^ 64
      → ((text : Bytes) → json.marshal p.profile ≡ some text → json.unmarshal text ≡ some p.profile)
      → (save_profile client json p.profile m.db).1 ≡ true
      → let store = redis_store client json in
        let r = get_or_create store session k (new_player_manager (mark_offline store k m).db) in
        (r.1 ≡ none)
        × (q : Player) × (lookup k r.0.players ≡ some q)
        × (q.player_id ≡ k)
        × (q.session_id ≡ session)
        × (q.profile ≡ p.profile)
        × (q.state ≡ active)
  unfolding new_player
  get_or_create-mark_offline session k p m at own real fits reads ok =
      let store = redis_store client json in
      let db' = (mark_offline store k m).db in
      let (mine, others) =
        load_profile-save_profile client json sets p.profile m.db reads (λ z. real (sym own ∙ z))
          (omega (arith, own, fits)) in
      let loads : load_profile client json k db' ≡ profile_of (some p.profile) =
        ap (load_profile client json k) (saved_by store k p m at)
        ∙ ap (λ i. load_profile client json i (save_profile client json p.profile m.db).0) (sym own)
        ∙ mine ok in
      let (fine, kept) = made_of store session k p.profile db' loads in
      (fine, new_player k session p.profile, kept, refl, refl, refl, refl)
