-- ===== src/Game/Player.antt =====
-- internal/game/player_module/player.go with its modules base and resume.  A player is an actor: an
-- inbox of 64 messages, a goroutine that takes them, and a state that decides who may post.
pub mod Dispatching
pub mod Lifecycle
pub mod Replying
use test_go_server.Prelude.{
  ℕ, zero, suc, ◌+◌, List, [], ◌∷◌, ◌++◌, Option, none, some, Bool, true, false, ◌||◌, ◌==◌, ltb,
  lookup, insert, if◌then◌else◌, length,
}
use test_go_server.Protocol.{
  Bytes, Envelope, msg_player_enter_game_req, msg_player_enter_game_rsp, msg_load_player_data_req,
  msg_load_player_data_rsp, msg_player_resume_req,
}
use test_go_server.Text.{format_int64}

pub data PlayerState : Type 0 where
  init active offline destroyed : PlayerState

pub data PlayerError : Type 0 where
  player_closed player_busy unknown_message player_destroyed reply_timeout load_failed save_failed :
      PlayerError

-- The integers are bit patterns.
pub record PlayerProfile : Type 0 where
  pub role_id : ℕ
  pub account_id : Bytes
  pub nick_name : Bytes
  pub level : ℕ
  pub exp : ℕ
  pub gold : ℕ
  pub stamina : ℕ

-- player_db.NewProfile; the name begins with "Player-".
unfoldable pub new_profile : ℕ → Bytes → PlayerProfile
new_profile role_id account_id = record {
  role_id = role_id;
  account_id = account_id;
  nick_name = 80 ∷ 108 ∷ 97 ∷ 121 ∷ 101 ∷ 114 ∷ 45 ∷ format_int64 role_id;
  level = 1;
  exp = 0;
  gold = 100;
  stamina = 100;
}

-- internalpb.PlayerData, by its fields
pub record PlayerData : Type 0 where
  pub role_id : ℕ
  pub nickname : Bytes
  pub level : ℕ
  pub exp : ℕ
  pub gold : ℕ
  pub stamina : ℕ

-- The protobuf coding of the answers.
pub record Marshal : Type 0 where
  pub player_init_rsp : PlayerData → Bytes
  pub load_player_data_rsp : PlayerData → Bytes

-- `reply` is the channel for the answer, if one is wanted.
pub record Message : Type 0 where
  pub msg_id : ℕ
  pub env : Envelope
  pub reply : Option ℕ

pub record DispatchResult : Type 0 where
  pub envelope : Option Envelope
  pub handled : Bool
  pub err : Option PlayerError

-- `replies` holds what has been sent on each reply channel, `next_reply` is the next new channel,
-- and `ended` tells that the goroutine has returned.
pub record Player : Type 0 where
  pub player_id : ℕ
  pub session_id : ℕ
  pub context_session_id : ℕ
  pub profile : PlayerProfile
  pub inbox : List Message
  pub state : PlayerState
  pub replies : List (ℕ × DispatchResult)
  pub next_reply : ℕ
  pub ended : Bool

-- The registered modules.
pub data Module : Type 0 where
  base resume : Module

-- CreateModules, for the modules that modules/all.go imports, in the order of their import.
abbrev pub create_modules : List Module
create_modules = base ∷ resume ∷ []

-- NewPlayer; Init of the modules only keeps the player.
unfoldable pub new_player : ℕ → ℕ → PlayerProfile → Player
new_player player_id session_id profile = record {
  player_id = player_id;
  session_id = session_id;
  context_session_id = session_id;
  profile = profile;
  inbox = [];
  state = active;
  replies = [];
  next_reply = 0;
  ended = false;
}

on_resume_from : PlayerState → ℕ → Player → Player
on_resume_from offline session_id p = record p {
  state = active;
  session_id = session_id;
  context_session_id = session_id;
}
on_resume_from _ session_id p = p

-- Player.OnResume: from offline to active; the hooks of the modules are empty.
unfoldable pub on_resume : ℕ → Player → Player
unfolding on_resume_from
on_resume session_id p = on_resume_from p.state session_id p

on_offline_from : PlayerState → Player → Player
on_offline_from active p = record p { state = offline }
on_offline_from _ p = p

-- Player.OnOffline: from active to offline.
unfoldable pub on_offline : Player → Player
unfolding on_offline_from
on_offline p = on_offline_from p.state p

destroy_from : PlayerState → Player → Player
destroy_from offline p = record p { state = destroyed }
destroy_from _ p = p

-- Player.Destroy: from offline to destroyed.
unfoldable pub destroy : Player → Player
unfolding destroy_from
destroy p = destroy_from p.state p

abbrev pub inbox_cap : ℕ
inbox_cap = 64

post_in : PlayerState → Message → Player → Player × Option PlayerError
post_in destroyed msg p = (p, some player_destroyed)
post_in active msg p =
    if ltb (length p.inbox) inbox_cap
    then (record p { inbox = p.inbox ++ msg ∷ [] }, none)
    else (p, some player_busy)
post_in _ msg p = (p, some player_closed)

-- Player.Post
unfoldable pub post : Message → Player → Player × Option PlayerError
unfolding post_in
post msg p = post_in p.state msg p

-- Player.ToPlayerData
unfoldable pub to_player_data : PlayerProfile → PlayerData
to_player_data f = record {
  role_id = f.role_id;
  nickname = f.nick_name;
  level = f.level;
  exp = f.exp;
  gold = f.gold;
  stamina = f.stamina;
}

abbrev pub rsp_env : ℕ → Envelope → Bytes → Envelope
rsp_env msg env payload = record {
  msg_id = msg;
  session_id = env.session_id;
  player_id = env.player_id;
  payload = payload;
}

-- Module.CanHandle of the two modules
unfoldable pub can_handle : Module → ℕ → Bool
can_handle base m = m == msg_player_enter_game_req || m == msg_load_player_data_req
can_handle resume m = m == msg_player_resume_req

-- BaseModule.Handle: the answer, and whether the message was handled.
unfoldable pub handle_base : Marshal → ℕ → Envelope → PlayerProfile → Option Envelope × Bool
unfolding to_player_data
handle_base x m env f =
    if m == msg_player_enter_game_req
    then (some (rsp_env msg_player_enter_game_rsp env (x.player_init_rsp (to_player_data f))), true)
    else if m == msg_load_player_data_req
    then (
      some (rsp_env msg_load_player_data_rsp env (x.load_player_data_rsp (to_player_data f))),
      true,
    )
    else (none, false)

-- Module.Handle of the two modules
unfoldable pub handle_module : Marshal → Module → Message → Player → Player × Option Envelope × Bool
unfolding handle_base on_resume
handle_module x base msg p =
    let (rsp, handled) = handle_base x msg.msg_id msg.env p.profile in (p, rsp, handled)
handle_module x resume msg p = (on_resume msg.env.session_id p, none, true)

-- The loop of handle over the modules, with the answer so far.
unfoldable pub handle_modules :
    Marshal
    → List Module
    → Message
    → Player × Option Envelope × Bool
    → Player × Option Envelope × Bool
unfolding can_handle handle_module
handle_modules x [] msg r = r
handle_modules x (m ∷ ms) msg (p, rsp, handled) =
    let r = handle_module x m msg p in
    let after = handle_modules x ms msg r in
    let skipped = handle_modules x ms msg (p, rsp, handled) in
    if can_handle m msg.msg_id then (if r.2 then r else after) else skipped

send_reply : Option ℕ → DispatchResult → Player → Player
send_reply none r p = p
send_reply (some ch) r p = record p { replies = insert ch r p.replies }

-- Player.handle; no module of these panics or reports an error.
unfoldable pub handle : Marshal → Message → Player → Player
unfolding handle_modules send_reply
handle x msg p =
    let (p', rsp, handled) = handle_modules x create_modules msg (p, none, false) in
    send_reply msg.reply (record { envelope = rsp; handled = handled; err = none }) p'

drain : List Message → Player → Player
unfolding send_reply
drain [] p = p
drain (msg ∷ rest) p = drain rest (
    send_reply msg.reply (record { envelope = none; handled = false; err = some player_destroyed })
      p)

-- Player.drainAndFail
unfoldable pub drain_and_fail : Player → Player
unfolding drain
drain_and_fail p = drain p.inbox (record p { inbox = []; ended = true })

-- The test of the state at the head of the loop.
loop_head : PlayerState → Player → Player
unfolding drain_and_fail
loop_head destroyed p = drain_and_fail p
loop_head _ p = p

receive : Marshal → List Message → Player → Player
unfolding handle loop_head
receive x [] p = p
receive x (msg ∷ rest) p =
    let p' = handle x msg (record p { inbox = rest }) in loop_head p'.state p'

-- A turn of Player.loop, from one receive to the next: the goroutine waits in `<-p.inbox`.
unfoldable pub loop_turn : Marshal → Player → Player
unfolding receive
loop_turn x p = if p.ended then p else receive x p.inbox p

unfoldable pub loop_turns : Marshal → ℕ → Player → Player
unfolding loop_turn
loop_turns x zero p = p
loop_turns x (suc n) p = loop_turns x n (loop_turn x p)

-- What Dispatch makes of a result, or of none before its timer of five seconds.
unfoldable pub await : Option DispatchResult → Option Envelope × Option PlayerError
await none = (none, some reply_timeout)
await (some r) = elim r.err [
  | some e ↦ (none, some e)
  | none ↦ if r.handled then (r.envelope, none) else (none, some unknown_message)
]

dispatch_posted :
    Marshal → ℕ → ℕ → Player × Option PlayerError → Player × Option Envelope × Option PlayerError
unfolding loop_turns await
dispatch_posted x turns ch (p, some e) = (p, none, some e)
dispatch_posted x turns ch (p, none) =
    let p' = loop_turns x turns p in let (rsp, err) = await (lookup ch p'.replies) in (p', rsp, err)

-- Player.Dispatch; the goroutine has so many turns before the timer fires.
unfoldable pub dispatch :
    Marshal → ℕ → ℕ → Envelope → Player → Player × Option Envelope × Option PlayerError
unfolding dispatch_posted post
dispatch x turns msg_id env p = dispatch_posted x turns p.next_reply (
    post (record { msg_id = msg_id; env = env; reply = some p.next_reply })
      (record p { next_reply = suc p.next_reply }))
