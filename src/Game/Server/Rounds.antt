-- ===== src/Game/Server/Rounds.antt =====
-- What a round of the game server does to its players.
use test_go_server.Prelude.{
  ℕ, ◌<◌, ◌≡◌, ◌≢◌, ap, sym, ◌∙◌, inl, inr, Option, none, some, Bool, true, false, ◌==◌, lookup,
  insert, if◌then◌else◌, arith, Option-cases, Bool-cases, length,
}
use test_go_server.Protocol.{Envelope, msg_player_offline_notify, msg_player_resume_req}
use test_go_server.Game.Player.{active, PlayerError, Marshal, Player, dispatch, inbox_cap}
use test_go_server.Game.Player.Dispatching.{answer, dispatch-answer, answer-unhandled}
use test_go_server.Game.Player.Dispatching.Staying.{dispatch-Stays}
use test_go_server.Game.Manager.{Store, PlayerManager, get_or_create, mark_offline}
use test_go_server.Game.Manager.Binding.{Inv, Kept-insert, get_or_create-Serves, mark_offline-Left}
use test_go_server.Game.Server.{resolve, dispatched, with_player, resume_player, handle_envelope}

module _ {D : Type 0} (store : Store D) (x : Marshal) where
  dispatched-Inv :
      (turns k : ℕ) (env : Envelope) (p : Player) (m : PlayerManager D)
      → Inv m
      → p.player_id ≡ k
      → p.state ≡ active
      → Inv (dispatched store x turns k env (some p) m).0
  unfolding dispatched
  dispatched-Inv turns k env p m v own a =
      let kept = dispatch-Stays x turns env.msg_id env p a in
      let w : Inv
          (record m { players = insert k (dispatch x turns env.msg_id env p).0 m.players }) =
        record {
          kept = λ j q e.
              Kept-insert k j _ q m.players
                (record { keyed = kept.owner ∙ own; alive = inl kept.state }) (v.kept j) e;
        } in
      elim (Option-cases (dispatch x turns env.msg_id env p).2) [
        | inl e ↦ rw (e, dispatched) w
        | inr (err, e) ↦ rw (e, dispatched) w
      ]

  with_player-Inv :
      (turns k : ℕ) (env : Envelope) (s : ℕ) (m : PlayerManager D)
      → Inv m
      → Inv (with_player store x turns k env (get_or_create store s k m)).0
  unfolding with_player
  with_player-Inv turns k env s m v =
      let (w, serves) = get_or_create-Serves store s k m v in
      elim (Option-cases (get_or_create store s k m).1) [
        | inl e ↦
            let t = serves e in
            rw (e, t.found) (dispatched-Inv turns k env t.player _ w t.owner t.state)
        | inr (err, e) ↦ rw e w
      ]

  mark_offline-Inv : (k : ℕ) (m : PlayerManager D) → Inv m → Inv (mark_offline store k m)
  unfolding mark_offline
  mark_offline-Inv k m v = elim (Option-cases (lookup k m.players)) [
    | inl e ↦ rw (e, mark_offline) v
    | inr (p, e) ↦ (mark_offline-Left store k p m v e).0
  ]

  Inv-if :
      (b : Bool) (q r : PlayerManager D × Option Envelope)
      → Inv q.0
      → Inv r.0
      → Inv (if b then q else r).0
  Inv-if true q r v w = v
  Inv-if false q r v w = w

  -- A round of the server keeps the invariant of the players, whatever the envelope, the store and
  -- the number of turns are.
  pub handle_envelope-Inv :
      (turns : ℕ) (env : Envelope) (m : PlayerManager D)
      → Inv m
      → Inv (handle_envelope store x turns env m).0
  unfolding handle_envelope resume_player
  handle_envelope-Inv turns env m v =
      let k = resolve store x env m in
      let goes = with_player-Inv turns k env env.session_id m v in
      Inv-if (env.msg_id == msg_player_offline_notify) _ _
        (elim (Bool-cases (k == 0)) [ inl e ↦ rw e v | inr e ↦ rw e (mark_offline-Inv k m v) ])
        (Inv-if (env.msg_id == msg_player_resume_req) _ _ (Inv-if (k == 0) _ _ v goes) goes)

  active_of : (p q : Player) → some p ≡ some q → q.state ≡ active → p.state ≡ active
  active_of p q e a = cc

  through :
      (turns k : ℕ) (env : Envelope) (p : Player) (r : PlayerManager D × Option PlayerError)
      → r.1 ≡ none
      → lookup k r.0.players ≡ some p
      → with_player store x turns k env r ≡ dispatched store x turns k env (some p) r.0
  unfolding with_player
  through turns k env p (m, none) e f = ap (λ o. dispatched store x turns k env o m) f
  through turns k env p (m, some err) e f = absurd (ground (arith, e))

  dispatched-answer :
      (turns k : ℕ) (env : Envelope) (p : Player) (m : PlayerManager D)
      → p.state ≡ active
      → p.ended ≡ false
      → length p.inbox < inbox_cap
      → length p.inbox < turns
      → (dispatched store x turns k env (some p) m).1 ≡ (answer x env.msg_id env p.profile).0
  unfolding dispatched
  dispatched-answer turns k env p m a on room lt =
      let (rsp, err) = dispatch-answer x turns env.msg_id env p a on room lt in
      elim (Bool-cases (answer x env.msg_id env p.profile).1) [
        | inl e ↦ rw (err, dispatched) (rw e rsp)
        | inr e ↦ rw (err, dispatched) (rw e (sym (answer-unhandled x env.msg_id env p.profile e)))
      ]

  -- When the invariant of the players holds, an envelope that is no offline notice and no
  -- resume request, for whom GetOrCreate succeeds with a player whose goroutine runs with room
  -- in the inbox and more turns than messages wait, is written back the answer that its number
  -- asks for from the profile of the player, or nothing if it asks for none.
  pub handle_envelope-answer :
      (turns : ℕ) (env : Envelope) (p : Player) (m : PlayerManager D)
      → Inv m
      → env.msg_id ≢ msg_player_offline_notify
      → env.msg_id ≢ msg_player_resume_req
      → (get_or_create store env.session_id (resolve store x env m) m).1 ≡ none
      → lookup
          (resolve store x env m)
          (get_or_create store env.session_id (resolve store x env m) m).0.players
        ≡ some p
      → p.ended ≡ false
      → length p.inbox < inbox_cap
      → length p.inbox < turns
      → (handle_envelope store x turns env m).1 ≡ (answer x env.msg_id env p.profile).0
  unfolding handle_envelope
  handle_envelope-answer turns env p m v no_off no_res ok at on room lt =
      let k = resolve store x env m in
      let t = (get_or_create-Serves store env.session_id k m v).1 ok in
      let a = active_of p t.player (sym at ∙ t.found) t.state in
      let other : (env.msg_id == msg_player_offline_notify) ≡ false = ground arith in
      let another : (env.msg_id == msg_player_resume_req) ≡ false = ground arith in
      rw (other, another)
        (ap (λ r. r.1) (through turns k env p _ ok at)
          ∙ dispatched-answer turns k env p _ a on room lt)
