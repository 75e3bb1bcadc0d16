-- ===== src/Game/Player/Replying.antt =====
-- What a player sends on its reply channels.
use test_go_server.Prelude.{
  ℕ, zero, suc, ◌≡◌, refl, ap, sym, subst, ◌∙◌, ◌⊎◌, inl, inr, List, [], ◌∷◌, Option, none, some,
  Bool, true, false, ◌==◌, lookup, insert, arith, lookup-insert, Bool-cases, Option-cases,
  if◌then◌else◌,
}
use test_go_server.Protocol.{Envelope, msg_player_enter_game_rsp, msg_load_player_data_rsp}
use test_go_server.Game.Player.{
  PlayerState, init, active, offline, destroyed, PlayerError, Marshal, Message, DispatchResult,
  Player, on_resume, on_resume_from, on_offline, on_offline_from, handle_base, handle_module,
  handle_modules, can_handle, create_modules, send_reply, handle, drain, drain_and_fail, loop_head,
  receive, loop_turn, loop_turns, await, post, post_in, dispatch_posted, dispatch,
}

-- An answer has one of the two numbers that the game answers with.
abbrev pub Said : Envelope → Type 0
Said env = (env.msg_id ≡ msg_player_enter_game_rsp) ⊎ (env.msg_id ≡ msg_load_player_data_rsp)

abbrev pub AllSaid : List (ℕ × DispatchResult) → Type 0
AllSaid m =
    (ch : ℕ) (r : DispatchResult) (env : Envelope)
    → lookup ch m ≡ some r
    → r.envelope ≡ some env
    → Said env

put-AllSaid :
    (ch : ℕ) (r : DispatchResult) (m : List (ℕ × DispatchResult))
    → ((env : Envelope) → r.envelope ≡ some env → Said env)
    → AllSaid m
    → AllSaid (insert ch r m)
put-AllSaid ch r m new old c s env at has = elim (Bool-cases (ch == c)) [
  | inl here ↦
      let same : s ≡ r = ground (arith, lookup-insert ch c r m, at, here) in
      new env (ap (λ t. t.envelope) (sym same) ∙ has)
  | inr other ↦ old c s env (ground (arith, lookup-insert ch c r m, at, other)) has
]

send_reply-AllSaid :
    (o : Option ℕ) (r : DispatchResult) (p : Player)
    → ((env : Envelope) → r.envelope ≡ some env → Said env)
    → AllSaid p.replies
    → AllSaid (send_reply o r p).replies
unfolding send_reply
send_reply-AllSaid none r p new old = old
send_reply-AllSaid (some ch) r p new old = put-AllSaid ch r p.replies new old

pub on_resume-replies : (s : ℕ) (p : Player) → (on_resume s p).replies ≡ p.replies
unfolding on_resume
on_resume-replies s p = by_state p.state
  where
    by_state : (st : PlayerState) → (on_resume_from st s p).replies ≡ p.replies
    by_state init = refl
    by_state active = refl
    by_state offline = refl
    by_state destroyed = refl

pub on_offline-replies : (p : Player) → (on_offline p).replies ≡ p.replies
unfolding on_offline
on_offline-replies p = by_state p.state
  where
    by_state : (st : PlayerState) → (on_offline_from st p).replies ≡ p.replies
    by_state init = refl
    by_state active = refl
    by_state offline = refl
    by_state destroyed = refl

modules-replies :
    (x : Marshal) (msg : Message) (p : Player)
    → (handle_modules x create_modules msg (p, none, false)).0.replies ≡ p.replies
unfolding handle_modules handle_module handle_base can_handle
modules-replies x msg p = ground (arith, on_resume-replies msg.env.session_id p)

modules-Said :
    (x : Marshal) (msg : Message) (p : Player) (env : Envelope)
    → (handle_modules x create_modules msg (p, none, false)).1 ≡ some env
    → Said env
unfolding handle_modules handle_module handle_base can_handle
modules-Said x msg p env e = ground (arith, e)

handle-AllSaid :
    (x : Marshal) (msg : Message) (p : Player)
    → AllSaid p.replies
    → AllSaid (handle x msg p).replies
unfolding handle
handle-AllSaid x msg p old =
    let r = handle_modules x create_modules msg (p, none, false) in
    send_reply-AllSaid msg.reply _ r.0 (λ env e. modules-Said x msg p env e)
      (subst AllSaid (sym (modules-replies x msg p)) old)

drain-AllSaid : (l : List Message) (p : Player) → AllSaid p.replies → AllSaid (drain l p).replies
unfolding drain
drain-AllSaid [] p old = old
drain-AllSaid (msg ∷ rest) p old =
    drain-AllSaid rest _
      (send_reply-AllSaid msg.reply _ p (λ env e. absurd (ground (arith, e))) old)

loop_head-AllSaid :
    (st : PlayerState) (p : Player) → AllSaid p.replies → AllSaid (loop_head st p).replies
unfolding loop_head drain_and_fail
loop_head-AllSaid destroyed p old =
    drain-AllSaid p.inbox (record p { inbox = []; ended = true }) old
loop_head-AllSaid _ p old = old

receive-AllSaid :
    (x : Marshal) (l : List Message) (p : Player)
    → AllSaid p.replies
    → AllSaid (receive x l p).replies
unfolding receive
receive-AllSaid x [] p old = old
receive-AllSaid x (msg ∷ rest) p old =
    let q = handle x msg (record p { inbox = rest }) in
    loop_head-AllSaid q.state q (handle-AllSaid x msg (record p { inbox = rest }) old)

turn-AllSaid : (x : Marshal) (p : Player) → AllSaid p.replies → AllSaid (loop_turn x p).replies
unfolding loop_turn
turn-AllSaid x p old = pick p.ended (receive-AllSaid x p.inbox p old)
  where
    pick :
        (b : Bool)
        → AllSaid (receive x p.inbox p).replies
        → AllSaid (if b then p else receive x p.inbox p).replies
    pick true got = old
    pick false got = got

loop_turns-AllSaid :
    (x : Marshal) (n : ℕ) (p : Player) → AllSaid p.replies → AllSaid (loop_turns x n p).replies
unfolding loop_turns
loop_turns-AllSaid x zero p old = old
loop_turns-AllSaid x (suc n) p old = loop_turns-AllSaid x n (loop_turn x p) (turn-AllSaid x p old)

post-replies : (msg : Message) (p : Player) → (post msg p).0.replies ≡ p.replies
unfolding post
post-replies msg p = by_state p.state
  where
    by_state : (st : PlayerState) → (post_in st msg p).0.replies ≡ p.replies
    by_state init = refl
    by_state active = ground arith
    by_state offline = refl
    by_state destroyed = refl

await-Said :
    (o : Option DispatchResult) (env : Envelope)
    → ((r : DispatchResult) → o ≡ some r → r.envelope ≡ some env → Said env)
    → (await o).0 ≡ some env
    → Said env
unfolding await
await-Said none env h e = absurd (ground (arith, e))
await-Said (some r) env h e = elim (Option-cases r.err) [
  | inr (err, f) ↦ absurd (ground (arith, e, f))
  | inl f ↦ elim (Bool-cases r.handled) [
    | inl d ↦ h r refl (ground (arith, e, f, d))
    | inr d ↦ absurd (ground (arith, e, f, d))
  ]
]

-- What Dispatch gives back, and what stays on the channels.
record Spoken (r : Player × Option Envelope × Option PlayerError) : Type 0 where
  replies : AllSaid r.0.replies
  answer : (env : Envelope) → r.1 ≡ some env → Said env

posted-Spoken :
    (x : Marshal) (turns ch : ℕ) (p : Player) (o : Option PlayerError)
    → AllSaid p.replies
    → Spoken (dispatch_posted x turns ch (p, o))
unfolding dispatch_posted
posted-Spoken x turns ch p (some e) old = record {
  replies = old;
  answer = λ env h. absurd (ground (arith, h));
}
posted-Spoken x turns ch p none old =
    let all = loop_turns-AllSaid x turns p old in
    record {
      replies = all;
      answer = λ env h.
          await-Said (lookup ch (loop_turns x turns p).replies) env (λ r e f. all ch r env e f) h;
    }

pub dispatch-Said :
    (x : Marshal) (turns m : ℕ) (env : Envelope) (p : Player)
    → AllSaid p.replies
    → AllSaid (dispatch x turns m env p).0.replies
      × ((rsp : Envelope) → (dispatch x turns m env p).1 ≡ some rsp → Said rsp)
unfolding dispatch
dispatch-Said x turns m env p old =
    let msg : Message = record { msg_id = m; env = env; reply = some p.next_reply } in
    let p1 : Player = record p { next_reply = suc p.next_reply } in
    let r =
      posted-Spoken x turns p.next_reply (post msg p1).0 (post msg p1).1
        (subst AllSaid (sym (post-replies msg p1)) old) in
    (r.replies, r.answer)
