-- ===== src/Game/Player/Dispatching/Staying.antt =====
-- A player that is active stays so while its goroutine runs.
use test_go_server.Prelude.{
  ℕ, zero, suc, ◌≡◌, refl, ap, ◌∙◌, List, [], ◌∷◌, Option, none, some, Bool-cases, inl, inr, arith,
}
use test_go_server.Protocol.{Envelope}
use test_go_server.Game.Player.{
  active, PlayerError, Marshal, Message, Player, loop_turn, loop_turns, receive, post, dispatch,
  dispatch_posted,
}
use test_go_server.Game.Player.Dispatching.{receive-active, send_reply-Keeps}

-- An active player stays active, and itself.
pub record Stays (p q : Player) : Type 0 where
  pub owner : q.player_id ≡ p.player_id
  pub state : q.state ≡ active

receive-Stays :
    (x : Marshal) (l : List Message) (p : Player) → p.state ≡ active → Stays p (receive x l p)
receive-Stays x [] p a = unfold receive in record { owner = refl; state = a }
receive-Stays x (m ∷ rest) p a =
    let kept = send_reply-Keeps m.reply _ (record p { inbox = rest }) in
    let e = receive-active x m rest p a in
    record {
      owner = ap (λ q. q.player_id) e ∙ kept.owner;
      state = ap (λ q. q.state) e ∙ kept.state ∙ a;
    }

turn-Stays : (x : Marshal) (p : Player) → p.state ≡ active → Stays p (loop_turn x p)
unfolding loop_turn
turn-Stays x p a = elim (Bool-cases p.ended) [
  | inl e ↦ simp e (record { owner = refl; state = a })
  | inr e ↦ simp e (receive-Stays x p.inbox p a)
]

turns-Stays : (x : Marshal) (n : ℕ) (p : Player) → p.state ≡ active → Stays p (loop_turns x n p)
unfolding loop_turns
turns-Stays x zero p a = record { owner = refl; state = a }
turns-Stays x (suc n) p a =
    let one = turn-Stays x p a in
    let rest = turns-Stays x n (loop_turn x p) one.state in
    record { owner = rest.owner ∙ one.owner; state = rest.state }

post-Stays : (msg : Message) (p : Player) → p.state ≡ active → Stays p (post msg p).0
unfolding post
post-Stays msg p a = record { owner = ground (arith, a); state = ground (arith, a) }

posted-Stays :
    (x : Marshal) (n ch : ℕ) (q : Player) (o : Option PlayerError)
    → q.state ≡ active
    → Stays q (dispatch_posted x n ch (q, o)).0
unfolding dispatch_posted
posted-Stays x n ch q none a = turns-Stays x n q a
posted-Stays x n ch q (some e) a = record { owner = refl; state = a }

pub dispatch-Stays :
    (x : Marshal) (n m : ℕ) (env : Envelope) (p : Player)
    → p.state ≡ active
    → Stays p (dispatch x n m env p).0
unfolding dispatch
dispatch-Stays x n m env p a =
    let msg : Message = record { msg_id = m; env = env; reply = some p.next_reply } in
    let p1 : Player = record p { next_reply = suc p.next_reply } in
    let one = post-Stays msg p1 a in
    let rest = posted-Stays x n p.next_reply (post msg p1).0 (post msg p1).1 one.state in
    record { owner = rest.owner ∙ one.owner; state = rest.state }
