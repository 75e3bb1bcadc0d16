-- ===== src/Game/Player/Dispatching.antt =====
-- A dispatched message is answered.
pub mod Staying
use test_go_server.Prelude.{
  Bool-cases, inl, inr, ℕ, zero, suc, ◌<◌, ◌≡◌, refl, ap, ◌∙◌, List, [], ◌∷◌, ◌++◌, Option, none,
  some, Bool, true, false, ◌==◌, lookup, if◌then◌else◌, length, arith, lookup-insert,
}
use test_go_server.Protocol.{
  Envelope, msg_player_enter_game_req, msg_player_enter_game_rsp, msg_load_player_data_req,
  msg_load_player_data_rsp, msg_player_resume_req,
}
use test_go_server.Game.Player.{
  active, unknown_message, PlayerProfile, Marshal, Message, DispatchResult, Player, on_resume,
  can_handle, handle_base, handle_module, handle_modules, handle, loop_turn, loop_turns,
  dispatch_posted, PlayerError, receive, loop_head, send_reply, dispatch, post, inbox_cap, rsp_env,
  to_player_data,
}

-- What a message is answered with, from the profile alone.
pub answer : Marshal → ℕ → Envelope → PlayerProfile → Option Envelope × Bool
answer x m env f =
    if m == msg_player_enter_game_req
    then (some (rsp_env msg_player_enter_game_rsp env (x.player_init_rsp (to_player_data f))), true)
    else if m == msg_load_player_data_req
    then (
      some (rsp_env msg_load_player_data_rsp env (x.load_player_data_rsp (to_player_data f))),
      true,
    )
    else (none, m == msg_player_resume_req)

result : Marshal → Message → PlayerProfile → DispatchResult
result x msg f = record {
  envelope = (answer x msg.msg_id msg.env f).0;
  handled = (answer x msg.msg_id msg.env f).1;
  err = none;
}

on_resume-active : (s : ℕ) (p : Player) → p.state ≡ active → on_resume s p ≡ p
unfolding on_resume
on_resume-active s p e = rw e refl

-- An active player handles a message by answering it, and does not change otherwise.
handle-active :
    (x : Marshal) (msg : Message) (p : Player)
    → p.state ≡ active
    → handle x msg p ≡ send_reply msg.reply (result x msg p.profile) p
unfolding handle handle_modules handle_module handle_base can_handle answer result
handle-active x msg p e = ground (arith, on_resume-active msg.env.session_id p e)

-- What a reply leaves as it was.
record Keeps (p q : Player) : Type 0 where
  owner : q.player_id ≡ p.player_id
  inbox : q.inbox ≡ p.inbox
  state : q.state ≡ p.state
  ended : q.ended ≡ p.ended
  profile : q.profile ≡ p.profile

send_reply-Keeps : (o : Option ℕ) (r : DispatchResult) (p : Player) → Keeps p (send_reply o r p)
unfolding send_reply
send_reply-Keeps none r p = record {
  owner = refl;
  inbox = refl;
  state = refl;
  ended = refl;
  profile = refl;
}
send_reply-Keeps (some ch) r p = record {
  owner = refl;
  inbox = refl;
  state = refl;
  ended = refl;
  profile = refl;
}

receive-active :
    (x : Marshal) (m : Message) (rest : List Message) (p : Player)
    → p.state ≡ active
    → receive x (m ∷ rest) p ≡ send_reply m.reply (result x m p.profile) (record p { inbox = rest })
unfolding receive loop_head
receive-active x m rest p a =
    let q = record p { inbox = rest } in
    let sent = send_reply m.reply (result x m p.profile) q in
    ap (λ s. loop_head s.state s) (handle-active x m q a)
    ∙ ap (λ t. loop_head t sent) ((send_reply-Keeps m.reply (result x m p.profile) q).state ∙ a)

turn-active :
    (x : Marshal) (m : Message) (rest : List Message) (p : Player)
    → p.state ≡ active
    → p.ended ≡ false
    → p.inbox ≡ m ∷ rest
    → loop_turn x p ≡ send_reply m.reply (result x m p.profile) (record p { inbox = rest })
unfolding loop_turn
turn-active x m rest p a e i =
    ap (λ b. if b then p else receive x p.inbox p) e
    ∙ ap (λ l. receive x l p) i
    ∙ receive-active x m rest p a

pub turns-idle : (x : Marshal) (n : ℕ) (p : Player) → p.inbox ≡ [] → loop_turns x n p ≡ p
unfolding loop_turns loop_turn receive
turns-idle x zero p i = refl
turns-idle x (suc n) p i =
    let still : loop_turn x p ≡ p = ground (arith, i) in
    ap (loop_turns x n) still ∙ turns-idle x n p i

replied :
    (o : Option ℕ) (ch : ℕ) (r : DispatchResult) (p : Player)
    → o ≡ some ch
    → lookup ch (send_reply o r p).replies ≡ some r
unfolding send_reply
replied none ch r p e = ground (arith, e)
replied (some c) ch r p e = ground (arith, e, lookup-insert c ch r p.replies)

-- The queue is served in order: the last message is answered after as many turns as there are messages.
turns-answer :
    (x : Marshal) (ch : ℕ) (msg : Message) (before : List Message) (n : ℕ) (p : Player)
    → msg.reply ≡ some ch
    → p.state ≡ active
    → p.ended ≡ false
    → p.inbox ≡ before ++ msg ∷ []
    → length before < n
    → lookup ch (loop_turns x n p).replies ≡ some (result x msg p.profile)
unfolding loop_turns
turns-answer x ch msg before zero p r a e i lt = absurd (omega (arith, lt))
turns-answer x ch msg [] (suc n) p r a e i lt =
    let q = send_reply msg.reply (result x msg p.profile) (record p { inbox = [] }) in
    let kept = send_reply-Keeps msg.reply (result x msg p.profile) (record p { inbox = [] }) in
    ap (λ s. lookup ch (loop_turns x n s).replies) (turn-active x msg [] p a e i)
    ∙ ap (λ s. lookup ch s.replies) (turns-idle x n q kept.inbox)
    ∙ replied msg.reply ch (result x msg p.profile) (record p { inbox = [] }) r
turns-answer x ch msg (m ∷ ms) (suc n) p r a e i lt =
    let rest = ms ++ msg ∷ [] in
    let kept = send_reply-Keeps m.reply (result x m p.profile) (record p { inbox = rest }) in
    ap (λ s. lookup ch (loop_turns x n s).replies) (turn-active x m rest p a e i)
    ∙ turns-answer x ch msg ms n _ r (kept.state ∙ a) (kept.ended ∙ e) kept.inbox
        (omega (arith, lt))
    ∙ ap (λ f. some (result x msg f)) kept.profile

post-active :
    (msg : Message) (p : Player)
    → p.state ≡ active
    → length p.inbox < inbox_cap
    → post msg p ≡ (record p { inbox = p.inbox ++ msg ∷ [] }, none)
unfolding post
post-active msg p a room = ground (arith, a)

-- A message that is dispatched to an active player with room in its inbox, whose goroutine runs, is
-- answered when the goroutine has more turns than messages wait: an enter or a load request with
-- the player's data, a resume request with nothing, any other with the error for an unknown message.
pub dispatch-answer :
    (x : Marshal) (turns m : ℕ) (env : Envelope) (p : Player)
    → p.state ≡ active
    → p.ended ≡ false
    → length p.inbox < inbox_cap
    → length p.inbox < turns
    → ((dispatch x turns m env p).1 ≡ (answer x m env p.profile).0)
      × ((dispatch x turns m env p).2
          ≡ (if (answer x m env p.profile).1 then none else some unknown_message))
unfolding dispatch result answer
dispatch-answer x turns m env p a e room lt =
    let msg : Message = record { msg_id = m; env = env; reply = some p.next_reply } in
    let p1 : Player = record p { next_reply = suc p.next_reply; inbox = p.inbox ++ msg ∷ [] } in
    let got = turns-answer x p.next_reply msg p.inbox turns p1 refl a e refl lt in
    let accepted : post msg (record p { next_reply = suc p.next_reply }) ≡ (p1, none) =
      post-active msg (record p { next_reply = suc p.next_reply }) a room in
    rw accepted (rw got (ground arith))

-- A message that is not handled has no answer.
pub answer-unhandled :
    (x : Marshal) (m : ℕ) (env : Envelope) (f : PlayerProfile)
    → (answer x m env f).1 ≡ false
    → (answer x m env f).0 ≡ none
unfolding answer
answer-unhandled x m env f e = ground (arith, e)
