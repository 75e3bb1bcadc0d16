-- ===== src/Game/Manager/Saving.antt =====
-- The database is only changed by saving profiles.
use test_go_server.Prelude.{ℕ, List, [], ◌∷◌, Option, none, some, lookup, Bool-cases, inl, inr}
use test_go_server.Game.Player.{PlayerProfile, Player}
use test_go_server.Game.Manager.{
  Store, Loaded, load_error, profile_of, PlayerManager, get_or_create, mark_offline, save_all,
  save_and_create, load_and_create, get_or_make, leave, save_all_loop, found, created,
}

-- What every saving keeps, the operations of the manager keep.
module _ {D : Type 0} (store : Store D) (P : D → Type 0)
    (saved : (f : PlayerProfile) (d : D) → P d → P (store.save_profile f d).0) where
  save_and_create_keeps :
      (s k : ℕ) (f : PlayerProfile) (m : PlayerManager D)
      → P m.db
      → P (save_and_create store s k f m).0.db
  unfolding save_and_create created
  save_and_create_keeps s k f m h = elim (Bool-cases (store.save_profile f m.db).1) [
    | inl e ↦ rw e (saved f m.db h)
    | inr e ↦ rw e (saved f m.db h)
  ]

  load_and_create_keeps :
      (s k : ℕ) (l : Loaded) (m : PlayerManager D) → P m.db → P (load_and_create store s k l m).0.db
  unfolding load_and_create created
  load_and_create_keeps s k load_error m h = h
  load_and_create_keeps s k (profile_of (some f)) m h = h
  load_and_create_keeps s k (profile_of none) m h = save_and_create_keeps s k _ m h

  get_or_make_keeps :
      (s k : ℕ) (o : Option Player) (m : PlayerManager D)
      → P m.db
      → P (get_or_make store s k o m).0.db
  unfolding get_or_make found
  get_or_make_keeps s k none m h = load_and_create_keeps s k _ m h
  get_or_make_keeps s k (some p) m h = h

  pub get_or_create_keeps :
      (s k : ℕ) (m : PlayerManager D) → P m.db → P (get_or_create store s k m).0.db
  unfolding get_or_create
  get_or_create_keeps s k m h = get_or_make_keeps s k (lookup k m.players) m h

  leave_keeps :
      (k : ℕ) (o : Option Player) (m : PlayerManager D) → P m.db → P (leave store k o m).db
  unfolding leave
  leave_keeps k none m h = h
  leave_keeps k (some p) m h = saved p.profile m.db h

  pub mark_offline_keeps : (k : ℕ) (m : PlayerManager D) → P m.db → P (mark_offline store k m).db
  unfolding mark_offline
  mark_offline_keeps k m h = leave_keeps k (lookup k m.players) m h

  save_all_loop_keeps : (ps : List (ℕ × Player)) (d : D) → P d → P (save_all_loop store ps d)
  unfolding save_all_loop
  save_all_loop_keeps [] d h = h
  save_all_loop_keeps ((k, p) ∷ ps) d h = save_all_loop_keeps ps _ (saved p.profile d h)

  pub save_all_keeps : (m : PlayerManager D) → P m.db → P (save_all store m).db
  unfolding save_all
  save_all_keeps m h = save_all_loop_keeps m.players m.db h
