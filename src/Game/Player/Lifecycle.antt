-- ===== src/Game/Player/Lifecycle.antt =====
-- The states of a player.
use test_go_server.Prelude.{ℕ, ◌≡◌, refl, ap, ◌∙◌, ◌⊎◌, inl, inr, List, [], ◌∷◌, some, false}
use test_go_server.Game.Player.Dispatching.{turns-idle}
use test_go_server.Game.Player.{
  PlayerState, init, active, offline, destroyed, player_destroyed, Marshal, Message, Player,
  on_resume, on_offline, destroy, post, on_resume_from, on_offline_from, destroy_from, loop_turns,
}

-- The calls that change the state of a player.
pub data Call : Type 0 where
  resumed : ℕ → Call
  went_offline destroyed_by_manager : Call

unfoldable pub call : Call → Player → Player
unfolding on_resume on_offline destroy
call (resumed s) p = on_resume s p
call went_offline p = on_offline p
call destroyed_by_manager p = destroy p

unfoldable pub calls : List Call → Player → Player
unfolding call
calls [] p = p
calls (c ∷ cs) p = calls cs (call c p)

-- The edges between the states.
pub data Edge : PlayerState → PlayerState → Type 0 where
  stays : {s : PlayerState} → Edge s s
  resumes : Edge offline active
  leaves : Edge active offline
  dies : Edge offline destroyed

resume-Edge :
    (st : PlayerState) (s : ℕ) (p : Player)
    → p.state ≡ st
    → Edge st (on_resume_from st s p).state
      × (((on_resume_from st s p).session_id ≡ p.session_id) ⊎ (st ≡ offline))
unfolding on_resume_from
resume-Edge init s p e = (rw e stays, inl refl)
resume-Edge active s p e = (rw e stays, inl refl)
resume-Edge offline s p e = (resumes, inr refl)
resume-Edge destroyed s p e = (rw e stays, inl refl)

offline-Edge :
    (st : PlayerState) (p : Player)
    → p.state ≡ st
    → Edge st (on_offline_from st p).state × ((on_offline_from st p).session_id ≡ p.session_id)
unfolding on_offline_from
offline-Edge init p e = (rw e stays, refl)
offline-Edge active p e = (leaves, refl)
offline-Edge offline p e = (rw e stays, refl)
offline-Edge destroyed p e = (rw e stays, refl)

destroy-Edge :
    (st : PlayerState) (p : Player)
    → p.state ≡ st
    → Edge st (destroy_from st p).state × ((destroy_from st p).session_id ≡ p.session_id)
unfolding destroy_from
destroy-Edge init p e = (rw e stays, refl)
destroy-Edge active p e = (rw e stays, refl)
destroy-Edge offline p e = (dies, refl)
destroy-Edge destroyed p e = (rw e stays, refl)

-- Each call takes the state along an edge, and only a resume from offline changes the session.
pub call-Edge :
    (c : Call) (p : Player)
    → Edge p.state (call c p).state × (((call c p).session_id ≡ p.session_id) ⊎ (p.state ≡ offline))
unfolding call on_resume on_offline destroy
call-Edge (resumed s) p = resume-Edge p.state s p refl
call-Edge went_offline p = let (e, same) = offline-Edge p.state p refl in (e, inl same)
call-Edge destroyed_by_manager p = let (e, same) = destroy-Edge p.state p refl in (e, inl same)

destroyed-call : (c : Call) (p : Player) → p.state ≡ destroyed → call c p ≡ p
unfolding call on_resume on_offline destroy
destroyed-call (resumed s) p e = rw e refl
destroyed-call went_offline p e = rw e refl
destroyed-call destroyed_by_manager p e = rw e refl

calls-same : (cs : List Call) (p : Player) → p.state ≡ destroyed → calls cs p ≡ p
unfolding calls
calls-same [] p e = refl
calls-same (c ∷ cs) p e = ap (calls cs) (destroyed-call c p e) ∙ calls-same cs p e

refused :
    (msg : Message) (p : Player) → p.state ≡ destroyed → post msg p ≡ (p, some player_destroyed)
unfolding post
refused msg p e = rw e refl

-- No sequence of calls brings a destroyed player back: its record stays as it is, and it takes no
-- message.
pub calls-destroyed :
    (cs : List Call) (msg : Message) (p : Player)
    → p.state ≡ destroyed
    → (calls cs p ≡ p) × (post msg (calls cs p) ≡ (p, some player_destroyed))
calls-destroyed cs msg p e =
    let same = calls-same cs p e in (same, ap (post msg) same ∙ refused msg p e)

-- A player that is destroyed when it is offline and no message waits keeps its goroutine: however
-- many turns that gets, it stays in its receive and does not end.
pub loop_turns-destroy :
    (x : Marshal) (n : ℕ) (p : Player)
    → p.state ≡ offline
    → p.inbox ≡ []
    → p.ended ≡ false
    → ((loop_turns x n (destroy p)).ended ≡ false) × ((destroy p).state ≡ destroyed)
loop_turns-destroy x n p e i a =
    let (is, empty, on) : (destroy p ≡ record p { state = destroyed })
        × ((destroy p).inbox ≡ [])
        × ((destroy p).ended ≡ false) =
      unfold destroy in rw e (refl, i, a) in
    (ap (λ q. q.ended) (turns-idle x n (destroy p) empty) ∙ on, ap (λ q. q.state) is)
