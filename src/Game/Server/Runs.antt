-- ===== src/Game/Server/Runs.antt =====
-- A game process from its start.
use test_go_server.Prelude.{ℕ, ◌≡◌, List, [], ◌∷◌, some, lookup, arith}
use test_go_server.Game.Player.{Marshal, Player}
use test_go_server.Game.Manager.{Store, PlayerManager, new_player_manager, save_all}
use test_go_server.Game.Manager.Binding.{Inv, Kept}
use test_go_server.Game.Server.{Work, arrived, persist_ticked, work, work_all}
use test_go_server.Game.Server.Rounds.{handle_envelope-Inv}

module _ {D : Type 0} (store : Store D) (x : Marshal) where
  work-Inv : (o : Work) (m : PlayerManager D) → Inv m → Inv (work store x o m).0
  unfolding work
  work-Inv (arrived turns env) m v = handle_envelope-Inv store x turns env m v
  work-Inv persist_ticked m v = unfold save_all in record { kept = v.kept }

  work_all-Inv : (os : List Work) (m : PlayerManager D) → Inv m → Inv (work_all store x os m)
  unfolding work_all
  work_all-Inv [] m v = v
  work_all-Inv (o ∷ os) m v = work_all-Inv os (work store x o m).0 (work-Inv o m v)

  start-Inv : (db : D) → Inv (new_player_manager db)
  unfolding new_player_manager lookup
  start-Inv db = record { kept = λ k p e. absurd (ground (arith, e)) }

  -- From the start of a game process on, whatever envelopes come and whenever the players are saved,
  -- whatever the store answers and however far the players' goroutines get, each player is kept under
  -- its own ID and is active or offline, never destroyed.
  pub work_all-Kept :
      (os : List Work) (db : D) (k : ℕ) (p : Player)
      → lookup k (work_all store x os (new_player_manager db)).players ≡ some p
      → Kept k p
  work_all-Kept os db k p e = (work_all-Inv os (new_player_manager db) (start-Inv db)).kept k p e
