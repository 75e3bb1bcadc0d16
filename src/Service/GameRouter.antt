-- ===== src/Service/GameRouter.antt =====
-- internal/service/game_router.go: the connection of the service to the game process.
pub mod Draining
pub mod Sending
use test_go_server.Prelude.{
  ℕ, zero, suc, ◌+◌, ◌*◌, ◌<◌, List, [], ◌∷◌, ◌++◌, Option, none, some, Bool, true, false, ltb,
  if◌then◌else◌, length,
}
use test_go_server.Protocol.{Envelope, Error, game_router_busy, inc64}
use test_go_server.Gate.State.{Link, down, up, failing}

-- What was written on its connections, and how many messages the write loop takes in each coming sleep
-- of Send, which is the environment's choice.
pub record GameRouter : Type 0 where
  pub send_ch : List Envelope
  pub link : Link
  pub wire : List Envelope
  pub retry_max : ℕ
  pub busy_count : ℕ  -- uint64
  pub drop_count : ℕ  -- uint64
  pub turns : List ℕ

abbrev pub send_ch_cap : ℕ
send_ch_cap = 2048

-- NewGameRouter, and the channel of Start.
unfoldable pub new_game_router : ℕ → GameRouter
new_game_router retry_max = record {
  send_ch = [];
  link = down;
  wire = [];
  retry_max = retry_max;
  busy_count = 0;
  drop_count = 0;
  turns = [];
}

-- What writeLoop does with a message that it took: a message whose write fails is gone.
write_env : Link → Envelope → GameRouter → GameRouter
write_env down env r = record r { drop_count = inc64 r.drop_count }
write_env up env r = record r { wire = r.wire ++ env ∷ [] }
write_env failing env r = r

take_head : List Envelope → GameRouter → GameRouter
unfolding write_env
take_head [] r = r
take_head (env ∷ rest) r = write_env r.link env (record r { send_ch = rest })

-- One turn of writeLoop, which waits while the channel is empty.
unfoldable pub write_turn : GameRouter → GameRouter
unfolding take_head
write_turn r = take_head r.send_ch r

unfoldable pub write_turns : ℕ → GameRouter → GameRouter
write_turns zero r = r
write_turns (suc n) r = write_turns n (write_turn r)

sleep_turns : List ℕ → GameRouter → GameRouter
unfolding write_turns
sleep_turns [] r = r
sleep_turns (n ∷ rest) r = write_turns n (record r { turns = rest })

-- time.Sleep(sendRetryDelay), while the write loop goes on.
sleep : GameRouter → GameRouter
unfolding sleep_turns
sleep r = sleep_turns r.turns r

abbrev pub has_room : GameRouter → Bool
has_room r = ltb (length r.send_ch) send_ch_cap

abbrev pub push : Envelope → GameRouter → GameRouter
push env r = record r { send_ch = r.send_ch ++ env ∷ [] }

-- The attempts of GameRouter.Send, by the number that may still follow.
send_attempts : ℕ → Envelope → GameRouter → GameRouter × Option Error
unfolding sleep
send_attempts zero env r =
    if has_room r
    then (push env r, none)
    else (record r { busy_count = inc64 r.busy_count }, some game_router_busy)
send_attempts (suc n) env r =
    let again = send_attempts n env (sleep r) in if has_room r then (push env r, none) else again

-- GameRouter.Send
unfoldable pub send : Envelope → GameRouter → GameRouter × Option Error
unfolding send_attempts
send env r = send_attempts r.retry_max env r
