-- ===== src/Game/Server.antt =====
-- internal/game/server.go: an envelope from the service.
pub mod Rounds
pub mod Runs
pub mod Speaking
pub mod Saving
use test_go_server.Prelude.{
  ℕ, List, [], ◌∷◌, Option, none, some, not, ◌&&◌, lookup, insert, if◌then◌else◌, ◌==◌,
}
use test_go_server.Protocol.{Envelope, msg_player_offline_notify, msg_player_resume_req}
use test_go_server.Game.Player.{PlayerError, Marshal, Player, dispatch}
use test_go_server.Game.Manager.{
  Store, PlayerManager, get_or_create, mark_offline, get_by_session_id, save_all,
}

module _ {D : Type 0} (store : Store D) (x : Marshal) where
  -- The resolution of the player's ID.
  unfoldable pub resolve : Envelope → PlayerManager D → ℕ
  unfolding get_by_session_id
  resolve env m =
      if env.player_id == 0 && not (env.session_id == 0)
      then elim (get_by_session_id env.session_id m) [ none ↦ env.player_id | some p ↦ p.player_id ]
      else env.player_id

  dispatched :
      ℕ → ℕ → Envelope → Option Player → PlayerManager D → PlayerManager D × Option Envelope
  unfolding dispatch
  dispatched turns player_id env none m = (m, none)
  dispatched turns player_id env (some p) m =
      let (p', rsp, err) = dispatch x turns env.msg_id env p in
      let m' = record m { players = insert player_id p' m.players } in
      elim err [ none ↦ (m', rsp) | some e ↦ (m', none) ]

  with_player :
      ℕ → ℕ → Envelope → PlayerManager D × Option PlayerError → PlayerManager D × Option Envelope
  unfolding dispatched
  with_player turns player_id env (m, some e) = (m, none)
  with_player turns player_id env (m, none) =
      dispatched turns player_id env (lookup player_id m.players) m

  resume_player : ℕ → ℕ → Envelope → PlayerManager D → PlayerManager D × Option Envelope
  unfolding with_player get_or_create
  resume_player turns player_id env m = if player_id == 0 then (m, none) else (
    (with_player turns player_id env (get_or_create store env.session_id player_id m)).0,
    none,
  )

  -- One round of Server.handleConn: the players, and the envelope that is written back.
  unfoldable pub handle_envelope :
      ℕ → Envelope → PlayerManager D → PlayerManager D × Option Envelope
  unfolding resolve resume_player with_player mark_offline get_or_create
  handle_envelope turns env m =
      let player_id = resolve env m in
      if env.msg_id == msg_player_offline_notify
      then ((if player_id == 0 then m else mark_offline store player_id m), none)
      else if env.msg_id == msg_player_resume_req
      then resume_player turns player_id env m
      else with_player turns player_id env (get_or_create store env.session_id player_id m)

-- What a game process does: it handles an envelope, during which the player's goroutine has so many
-- turns, or persistLoop saves.
pub data Work : Type 0 where
  arrived : ℕ → Envelope → Work
  persist_ticked : Work

module _ {D : Type 0} (store : Store D) (x : Marshal) where
  -- The manager, and the envelope that is written back.
  unfoldable pub work : Work → PlayerManager D → PlayerManager D × Option Envelope
  unfolding handle_envelope save_all
  work (arrived turns env) m = handle_envelope store x turns env m
  work persist_ticked m = (save_all store m, none)

  unfoldable pub work_all : List Work → PlayerManager D → PlayerManager D
  work_all [] m = m
  work_all (o ∷ os) m = work_all os (work o m).0
