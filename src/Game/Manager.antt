-- ===== src/Game/Manager.antt =====
-- internal/game/player_module/player_manager.go: the players of a game process, by player and by
-- session.  The store is the interface player_db.Store.
pub mod Binding
pub mod Speaking
pub mod Saving
use test_go_server.Prelude.{
  ℕ, List, [], ◌∷◌, Option, none, some, Bool, true, false, lookup, insert, delete, if◌then◌else◌,
}
use test_go_server.Protocol.{Bytes, Envelope}
use test_go_server.Game.Player.{
  PlayerError, load_failed, save_failed, PlayerProfile, new_profile, Marshal, Player, new_player,
  on_resume, on_offline, destroy,
}

pub data Loaded : Type 0 where
  load_error : Loaded
  profile_of : Option PlayerProfile → Loaded

-- LoadProfile and SaveProfile of player_db.Store over a state of the database; SaveProfile tells
-- whether it succeeded.
pub record Store (D : Type 0) : Type 0 where
  pub load_profile : ℕ → D → Loaded
  pub save_profile : PlayerProfile → D → D × Bool

pub record PlayerManager (D : Type 0) : Type 0 where
  pub players : List (ℕ × Player)
  pub sessions : List (ℕ × ℕ)
  pub db : D

-- NewPlayerManager
unfoldable pub new_player_manager : {D : Type 0} → D → PlayerManager D
new_player_manager db = record { players = []; sessions = []; db = db }

module _ {D : Type 0} (store : Store D) where
  -- The player is there.
  found : ℕ → ℕ → Player → PlayerManager D → PlayerManager D
  unfolding on_resume
  found session_id player_id p m = record m {
    players =
        insert player_id (on_resume session_id (record p { session_id = session_id })) m.players;
    sessions = insert session_id p.player_id m.sessions;
  }

  created : ℕ → ℕ → PlayerProfile → PlayerManager D → PlayerManager D
  unfolding new_player
  created session_id player_id f m = record m {
    players = insert player_id (new_player player_id session_id f) m.players;
    sessions = insert session_id player_id m.sessions;
  }

  save_and_create : ℕ → ℕ → PlayerProfile → PlayerManager D → PlayerManager D × Option PlayerError
  unfolding created
  save_and_create session_id player_id f m =
      let (db, fine) = store.save_profile f m.db in
      if fine
      then (created session_id player_id f (record m { db = db }), none)
      else (record m { db = db }, some save_failed)

  load_and_create : ℕ → ℕ → Loaded → PlayerManager D → PlayerManager D × Option PlayerError
  unfolding created save_and_create new_profile
  load_and_create session_id player_id load_error m = (m, some load_failed)
  load_and_create session_id player_id (profile_of (some f)) m =
      (created session_id player_id f m, none)
  load_and_create session_id player_id (profile_of none) m =
      save_and_create session_id player_id (new_profile player_id []) m

  get_or_make : ℕ → ℕ → Option Player → PlayerManager D → PlayerManager D × Option PlayerError
  unfolding found load_and_create
  get_or_make session_id player_id (some p) m = (found session_id player_id p m, none)
  get_or_make session_id player_id none m =
      load_and_create session_id player_id (store.load_profile player_id m.db) m

  -- PlayerManager.GetOrCreate; the player it returns is the one under `player_id`.
  unfoldable pub get_or_create : ℕ → ℕ → PlayerManager D → PlayerManager D × Option PlayerError
  unfolding get_or_make
  get_or_create session_id player_id m =
      get_or_make session_id player_id (lookup player_id m.players) m

  leave : ℕ → Option Player → PlayerManager D → PlayerManager D
  unfolding on_offline
  leave player_id none m = m
  leave player_id (some p) m = record m {
    players = insert player_id (on_offline p) m.players;
    sessions = delete p.session_id m.sessions;
    db = (store.save_profile p.profile m.db).0;
  }

  -- PlayerManager.MarkOffline
  unfoldable pub mark_offline : ℕ → PlayerManager D → PlayerManager D
  unfolding leave
  mark_offline player_id m = leave player_id (lookup player_id m.players) m

  save_all_loop : List (ℕ × Player) → D → D
  save_all_loop [] db = db
  save_all_loop ((k, p) ∷ ps) db = save_all_loop ps (store.save_profile p.profile db).0

  -- PlayerManager.SaveAll, over the players in some order
  unfoldable pub save_all : PlayerManager D → PlayerManager D
  unfolding save_all_loop
  save_all m = record m { db = save_all_loop m.players m.db }

module _ {D : Type 0} where
  -- PlayerManager.DestroyPlayer: the manager, and the player that is no longer in it.
  unfoldable pub destroy_player : ℕ → PlayerManager D → PlayerManager D × Option Player
  unfolding destroy
  destroy_player player_id m = (
    record m { players = delete player_id m.players },
    elim (lookup player_id m.players) [ none ↦ none | some p ↦ some (destroy p) ],
  )

  player_at : Option ℕ → PlayerManager D → Option Player
  player_at none m = lookup 0 m.players
  player_at (some player_id) m = lookup player_id m.players

  -- PlayerManager.GetBySessionID; a session that is not there reads as player 0.
  unfoldable pub get_by_session_id : ℕ → PlayerManager D → Option Player
  unfolding player_at
  get_by_session_id session_id m = player_at (lookup session_id m.sessions) m
