-- ===== src/Game/Server/Saving.antt =====
-- The game process only changes the database by saving profiles.
use test_go_server.Prelude.{
  ℕ, Option, none, some, Bool, true, false, ◌==◌, lookup, if◌then◌else◌, Option-cases, inl, inr,
}
use test_go_server.Protocol.{Envelope, msg_player_offline_notify, msg_player_resume_req}
use test_go_server.Game.Player.{PlayerError, PlayerProfile, Marshal, Player, dispatch}
use test_go_server.Game.Manager.{Store, PlayerManager, get_or_create, mark_offline}
use test_go_server.Game.Manager.Saving.{get_or_create_keeps, mark_offline_keeps, save_all_keeps}
use test_go_server.Game.Server.{
  Work, arrived, persist_ticked, resolve, dispatched, with_player, resume_player, handle_envelope,
  work,
}

module _ {D : Type 0} (store : Store D) (x : Marshal) (P : D → Type 0)
    (saved : (f : PlayerProfile) (d : D) → P d → P (store.save_profile f d).0) where
  dispatched_keeps :
      (turns k : ℕ) (env : Envelope) (o : Option Player) (m : PlayerManager D)
      → P m.db
      → P (dispatched store x turns k env o m).0.db
  unfolding dispatched
  dispatched_keeps turns k env none m h = h
  dispatched_keeps turns k env (some p) m h =
      elim (Option-cases (dispatch x turns env.msg_id env p).2) [
        | inl f ↦ rw (f, dispatched) h
        | inr (err, f) ↦ rw (f, dispatched) h
      ]

  with_player_keeps :
      (turns k : ℕ) (env : Envelope) (o : Option PlayerError) (m : PlayerManager D)
      → P m.db
      → P (with_player store x turns k env (m, o)).0.db
  unfolding with_player
  with_player_keeps turns k env (some e) m h = h
  with_player_keeps turns k env none m h = dispatched_keeps turns k env (lookup k m.players) m h

  either :
      (b : Bool) (q r : PlayerManager D × Option Envelope)
      → P q.0.db
      → P r.0.db
      → P (if b then q else r).0.db
  either true q r v w = v
  either false q r v w = w

  handle_envelope_keeps :
      (turns : ℕ) (env : Envelope) (m : PlayerManager D)
      → P m.db
      → P (handle_envelope store x turns env m).0.db
  unfolding handle_envelope resume_player
  handle_envelope_keeps turns env m h =
      let k = resolve store x env m in
      let r = get_or_create store env.session_id k m in
      let goes =
        with_player_keeps turns k env r.1 r.0
          (get_or_create_keeps store P saved env.session_id k m h) in
      either (env.msg_id == msg_player_offline_notify) _ _ (left (k == 0) k)
        (either (env.msg_id == msg_player_resume_req) _ _ (either (k == 0) (m, none) _ h goes) goes)
    where
      left : (b : Bool) (k : ℕ) → P (if b then m else mark_offline store k m).db
      left true k = h
      left false k = mark_offline_keeps store P saved k m h

  -- What every saving of a profile keeps, the work of the game process keeps.
  pub work_keeps : (o : Work) (m : PlayerManager D) → P m.db → P (work store x o m).0.db
  unfolding work
  work_keeps (arrived turns env) m h = handle_envelope_keeps turns env m h
  work_keeps persist_ticked m h = save_all_keeps store P saved m h
