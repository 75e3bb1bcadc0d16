-- ===== src/Gate/Remote.antt =====
-- internal/gate/remote.go: the pool of clients that carry envelopes to the service.
pub mod Order
use test_go_server.Prelude.{
  ℕ, zero, suc, ◌+◌, ◌-◌, ◌%◌, ◌^◌, List, [], ◌∷◌, ◌++◌, Option, none, some, Bool, ltb,
  if◌then◌else◌, length, get_elem?, set, replicate,
}
use test_go_server.Protocol.{Envelope, Error, remote_busy, inc64, msg_service_ping}
use test_go_server.Gate.State.{Remote, Link, down, up, failing}

abbrev pub send_queue_cap : ℕ
send_queue_cap = 8192

-- The envelope that heartbeatLoop writes.
abbrev pub ping : Envelope
ping = record { msg_id = msg_service_ping; session_id = 0; player_id = 0; payload = [] }

unfoldable pub new_remote_client : ℕ → Remote
new_remote_client retry_max = record {
  send_ch = [];
  link = down;
  wire = [];
  retry_max = retry_max;
  busy_count = 0;
  drop_count = 0;
  turns = [];
}

-- newRemoteClientPool, where make takes capacities up to a limit and panics above it, which is none.
unfoldable pub new_remote_client_pool : ℕ → ℕ → ℕ → Option (List Remote)
unfolding new_remote_client
new_remote_client_pool limit size retry_max =
    let n = if ltb size 1 then 1 else size in
    if ltb limit n then none else some (replicate n (new_remote_client retry_max))

-- One turn of writeLoop for a message that was taken off the channel.
unfoldable pub write_env : Link → Envelope → Remote → Remote
write_env down env r = record r { drop_count = inc64 r.drop_count }
write_env up env r = record r { wire = r.wire ++ env ∷ [] }
write_env failing env r = r

take_head : List Envelope → Remote → Remote
unfolding write_env
take_head [] r = r
take_head (env ∷ rest) r = write_env r.link env (record r { send_ch = rest })

-- One turn of writeLoop, which waits while the channel is empty.
unfoldable pub write_turn : Remote → Remote
unfolding take_head
write_turn r = take_head r.send_ch r

-- A tick of heartbeatLoop, which writes to the connection past the channel.
unfoldable pub ping_turn : Remote → Remote
ping_turn r = elim r.link [ down ↦ r | up ↦ record r { wire = r.wire ++ ping ∷ [] } | failing ↦ r ]

unfoldable pub write_turns : ℕ → Remote → Remote
write_turns zero r = r
write_turns (suc n) r = write_turns n (write_turn r)

sleep_turns : List ℕ → Remote → Remote
unfolding write_turns
sleep_turns [] r = r
sleep_turns (n ∷ rest) r = write_turns n (record r { turns = rest })

-- time.Sleep(sendRetryBackoff), while the write loop goes on.
unfoldable pub sleep : Remote → Remote
unfolding sleep_turns
sleep r = sleep_turns r.turns r

abbrev pub has_room : Remote → Bool
has_room r = ltb (length r.send_ch) send_queue_cap

abbrev pub push : Envelope → Remote → Remote
push env r = record r { send_ch = r.send_ch ++ env ∷ [] }

-- The attempts of remoteClient.Send, by the number that may still follow.
unfoldable pub send_attempts : ℕ → Envelope → Remote → Remote × Option Error
send_attempts zero env r =
    if has_room r
    then (push env r, none)
    else (record r { busy_count = inc64 r.busy_count }, some remote_busy)
send_attempts (suc n) env r =
    let again = send_attempts n env (sleep r) in if has_room r then (push env r, none) else again

-- remoteClient.Send
unfoldable pub send : Envelope → Remote → Remote × Option Error
unfolding send_attempts
send env r = send_attempts r.retry_max env r

-- int(sessionID % int64(n)), made positive: Go's % has the sign of the session ID.
abbrev pub magnitude : ℕ → ℕ
magnitude id = if ltb id (2 ^ 63) then id else 2 ^ 64 - id

unfoldable pub pool_index : ℕ → ℕ → ℕ
pool_index id n = magnitude id % n

send_at : ℕ → Envelope → List Remote → Option Remote → List Remote × Option Error
send_at i env pool none = (pool, some remote_busy)
send_at i env pool (some r) = let (r', e) = send env r in (set pool i r', e)

-- remoteClientPool.Send
unfoldable pub pool_send : ℕ → Envelope → List Remote → List Remote × Option Error
unfolding send_at pool_index
pool_send id env [] = ([], some remote_busy)
pool_send id env (r ∷ rs) =
    let i = pool_index id (length (r ∷ rs)) in send_at i env (r ∷ rs) (get_elem? (r ∷ rs) i)
