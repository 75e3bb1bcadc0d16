-- ===== src/Game/Server/Speaking.antt =====
-- What the game server writes back.
use test_go_server.Prelude.{
  ℕ, ◌≡◌, refl, Option, none, some, Bool, true, false, ◌==◌, lookup, insert, if◌then◌else◌, arith,
  Option-cases, inl, inr,
}
use test_go_server.Protocol.{Envelope, msg_player_offline_notify, msg_player_resume_req}
use test_go_server.Game.Player.{PlayerError, Marshal, Player, dispatch}
use test_go_server.Game.Player.Replying.{Said, dispatch-Said}
use test_go_server.Game.Manager.{Store, PlayerManager, get_or_create, mark_offline, save_all}
use test_go_server.Game.Manager.Speaking.{
  AllSpeak, put-AllSpeak, get_or_create-AllSpeak, mark_offline-AllSpeak,
}
use test_go_server.Game.Server.{
  Work, arrived, persist_ticked, resolve, dispatched, with_player, resume_player, handle_envelope,
  work,
}

-- The players have sent nothing but answers of the game, and neither is anything else written back.
pub record Speaks {D : Type 0} (r : PlayerManager D × Option Envelope) : Type 0 where
  pub players : AllSpeak r.0.players
  pub answer : (env : Envelope) → r.1 ≡ some env → Said env

silent : {D : Type 0} (m : PlayerManager D) → AllSpeak m.players → Speaks (m, none)
silent m old = record { players = old; answer = λ env e. absurd (ground (arith, e)) }

Speaks-if :
    {D : Type 0} (b : Bool) (q r : PlayerManager D × Option Envelope)
    → Speaks q
    → Speaks r
    → Speaks (if b then q else r)
Speaks-if true q r v w = v
Speaks-if false q r v w = w

module _ {D : Type 0} (store : Store D) (x : Marshal) where
  dispatched-Speaks :
      (turns k : ℕ) (env : Envelope) (o : Option Player) (m : PlayerManager D)
      → lookup k m.players ≡ o
      → AllSpeak m.players
      → Speaks (dispatched store x turns k env o m)
  unfolding dispatched
  dispatched-Speaks turns k env none m e old = silent m old
  dispatched-Speaks turns k env (some p) m e old =
      let (replies, answer) = dispatch-Said x turns env.msg_id env p (old k p e) in
      let q = (dispatch x turns env.msg_id env p).0 in
      let m' = record m { players = insert k q m.players } in
      let new = put-AllSpeak k q m.players replies old in
      elim (Option-cases (dispatch x turns env.msg_id env p).2) [
        | inl f ↦ rw (f, dispatched) (record { players = new; answer = answer })
        | inr (err, f) ↦ rw (f, dispatched) (silent m' new)
      ]

  with_player-Speaks :
      (turns k : ℕ) (env : Envelope) (o : Option PlayerError) (m : PlayerManager D)
      → AllSpeak m.players
      → Speaks (with_player store x turns k env (m, o))
  unfolding with_player
  with_player-Speaks turns k env (some e) m old = silent m old
  with_player-Speaks turns k env none m old = dispatched-Speaks turns k env _ m refl old

  handle_envelope-Speaks :
      (turns : ℕ) (env : Envelope) (m : PlayerManager D)
      → AllSpeak m.players
      → Speaks (handle_envelope store x turns env m)
  unfolding handle_envelope resume_player
  handle_envelope-Speaks turns env m old =
      let k = resolve store x env m in
      let r = get_or_create store env.session_id k m in
      let goes =
        with_player-Speaks turns k env r.1 r.0
          (get_or_create-AllSpeak store env.session_id k m old) in
      Speaks-if (env.msg_id == msg_player_offline_notify) _ _ (silent _ (left (k == 0) k)) (
        Speaks-if (env.msg_id == msg_player_resume_req) _ _
          (Speaks-if (k == 0) (m, none) _ (silent m old) (silent _ goes.players)) goes)
    where
      left : (b : Bool) (k : ℕ) → AllSpeak (if b then m else mark_offline store k m).players
      left true k = old
      left false k = mark_offline-AllSpeak store k m old

  -- Whatever the game process does, when its players have sent nothing but answers of the game
  -- before, they have not afterwards, and neither is anything else written back.
  pub work-Speaks :
      (o : Work) (m : PlayerManager D) → AllSpeak m.players → Speaks (work store x o m)
  unfolding work save_all
  work-Speaks (arrived turns env) m old = handle_envelope-Speaks turns env m old
  work-Speaks persist_ticked m old = silent _ old
