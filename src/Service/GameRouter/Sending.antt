-- ===== src/Service/GameRouter/Sending.antt =====
-- Send of the game router, when its channel has room.
use test_go_server.Prelude.{ℕ, zero, suc, ◌<◌, ◌≡◌, refl, none, true, length, lt→ltb}
use test_go_server.Protocol.{Envelope}
use test_go_server.Service.GameRouter.{GameRouter, send_ch_cap, has_room, push, send_attempts, send}

attempts-push :
    (n : ℕ) (env : Envelope) (r : GameRouter)
    → has_room r ≡ true
    → send_attempts n env r ≡ (push env r, none)
unfolding send_attempts
attempts-push zero env r e = rw e refl
attempts-push (suc n) env r e = rw e refl

pub send-push :
    (env : Envelope) (r : GameRouter)
    → length r.send_ch < send_ch_cap
    → send env r ≡ (push env r, none)
unfolding send
send-push env r room = attempts-push r.retry_max env r (lt→ltb _ _ room)
