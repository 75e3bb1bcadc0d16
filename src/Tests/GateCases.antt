-- ===== src/Tests/GateCases.antt =====
-- A gate with three connections: a player on the first, a session without a player on the second,
-- and none on the third.  A player who has left is kept as session 3.
use Prim.{tt}
use test_go_server.Prelude.{
  ℕ, ◌-◌, ◌<◌, ◌≤◌, ◌≢◌, List, ◌≡◌, refl, [], ◌∷◌, none, some, true, false, arith, lookup, insert,
  ◌⊎◌, inl, inr,
}
use test_go_server.Protocol.{Bytes, Envelope}
use test_go_server.Gate.State.{tcp, World, authenticated, offline, Session, Gate, put_session}
use test_go_server.Gate.Sessions.{get, gc}
use test_go_server.Gate.Conn.{close}
use test_go_server.Gate.Token.{verify_token}
use test_go_server.Gate.Token.RoundTrip.{verify_token-sign_resume_token}
use test_go_server.Gate.Offline.{gone, on_conn_close}
use test_go_server.Gate.Login.{on_login_rsp}
use test_go_server.Gate.Login.RateLimit.{attempts, attempts-window}
use test_go_server.Gate.Login.Takeover.{TakenOver, on_login_rsp-TakenOver}
use test_go_server.Gate.Resume.{handle_resume, resumed}
use test_go_server.Gate.Resume.Outcome.{
  Accepts, handle_resume-Accepts, handle_resume-Refused, on_conn_close-after_resume,
}
use test_go_server.Gate.Timers.{check_heartbeat}
use test_go_server.Gate.Timers.Heartbeat.{check_heartbeat-lookup}
use test_go_server.Gate.Timers.Silence.{Silent, Alive}
use test_go_server.Gate.Timers.Collection.{gc-lookup, gc-orphans}
use test_go_server.Gate.Handler.{on_envelope, unknown_route, count_unknown}
use test_go_server.Gate.Muted.Runs.{handle_resume-mutes}
use test_go_server.Gate.Handler.Gating.{on_envelope-Outside}
use test_go_server.Gate.Handler.Forwarding.{on_envelope-forwards}
use test_go_server.Gate.Offline.Stamping.{named_player, pooled}
use test_go_server.Gate.Remote.{new_remote_client}
use test_go_server.Gate.System.{
  Event, connected, received, read_failed, from_service, heartbeat_ticked, run, new_gate,
}
use test_go_server.Gate.Invariant.Defs.{Inv, Same, Inv-Same}
use test_go_server.Gate.Invariant.System.{run-Inv, pool-Same}
use test_go_server.Tests.GateFixture.{
  toy, world, alice, guest, left, settings, gate, stale_gate, gate-Inv,
}

abbrev envelope : ℕ → ℕ → Bytes → Envelope
envelope msg id payload = record { msg_id = msg; session_id = id; player_id = 0; payload = payload }

run-Inv_example : Inv (
    run toy
      ((world, connected tcp)
        ∷ (world, received 0 (envelope 1001 0 []))
        ∷ (world, read_failed 0)
        ∷ [])
      new_gate)
run-Inv_example =
    run-Inv toy
      ((world, connected tcp)
        ∷ (world, received 0 (envelope 1001 0 []))
        ∷ (world, read_failed 0)
        ∷ [])
      (omega arith)

verify_token-sign_resume_token_example : verify_token toy alice alice.token ≡ true
verify_token-sign_resume_token_example = verify_token-sign_resume_token toy world alice refl

-- Three attempts within the window, two of which pass.
attempts-window_example : attempts settings (900 ∷ 910 ∷ 920 ∷ []) guest ≡ 2
attempts-window_example =
    attempts-window settings 900 (910 ∷ 920 ∷ []) guest (omega arith) (omega arith) refl
      (omega arith, (omega arith, tt))

on_login_rsp-TakenOver_example :
    TakenOver 1000 2 7 1 0 guest alice (on_login_rsp toy world 2 (7 ∷ []) gate)
unfolding lookup insert
on_login_rsp-TakenOver_example =
    on_login_rsp-TakenOver toy world 2 7 1 0 (7 ∷ []) guest alice gate gate-Inv refl refl refl
      (omega arith) refl refl

resume_alice : Accepts toy 2 1 (envelope 1 0 (1 ∷ alice.token)) alice gate
unfolding lookup insert
resume_alice = record {
  free = refl;
  token = (alice.token, refl, verify_token-sign_resume_token toy world alice refl);
  found = refl;
  ready = (ground arith, ground arith);
}

-- Alice resumes on the third connection, and the first is closed.
handle_resume-Accepts_example :
    (lookup 1 (handle_resume toy world 2 (envelope 1 0 (1 ∷ alice.token)) gate).by_session
      ≡ some (record alice { conn = some 2; last_seen = 1000; state = authenticated }))
    × (((handle_resume toy world 2 (envelope 1 0 (1 ∷ alice.token)) gate).conns 2).session_id ≡ 1)
    × ((d : ℕ)
        → alice.conn ≡ some d
        → ((handle_resume toy world 2 (envelope 1 0 (1 ∷ alice.token)) gate).conns d).closed ≡ true)
handle_resume-Accepts_example =
    handle_resume-Accepts toy world 2 1 (envelope 1 0 (1 ∷ alice.token)) alice gate gate-Inv
      resume_alice

no_session_9 :
    (s : Session) → lookup 9 gate.by_session ≡ some s → verify_token toy s (4 ∷ []) ≡ false
unfolding lookup insert
no_session_9 s e = cc

handle_resume-Refused_example :
    Same gate (handle_resume toy world 2 (envelope 1 0 (9 ∷ 4 ∷ [])) gate)
    × (((handle_resume toy world 2 (envelope 1 0 (9 ∷ 4 ∷ [])) gate).conns 2).closed ≡ true)
handle_resume-Refused_example =
    handle_resume-Refused toy world 2 9 (4 ∷ []) (envelope 1 0 (9 ∷ 4 ∷ [])) gate refl refl
      no_session_9

-- The first connection, which alice left, then ends, and alice is offline.
on_conn_close-after_resume_example :
    lookup 1
      (on_conn_close 1001 0
        (handle_resume toy world 2 (envelope 1 0 (1 ∷ alice.token)) gate)).by_session
    ≡ some (gone 1001 (resumed 1000 2 alice))
on_conn_close-after_resume_example =
    on_conn_close-after_resume toy world 1001 2 0 1 (envelope 1 0 (1 ∷ alice.token)) alice gate
      gate-Inv resume_alice refl

-- The guest was silent for 600, twice the timeout.
check_heartbeat-lookup_example :
    (Silent 1000 gate guest
      × (lookup 2 (check_heartbeat 1000 gate).by_session
          ≡ some (record guest { conn = none; last_seen = 1000; state = offline })))
    ⊎ (Alive 1000 gate guest × (lookup 2 (check_heartbeat 1000 gate).by_session ≡ some guest))
unfolding lookup insert
check_heartbeat-lookup_example =
    check_heartbeat-lookup 1000 2 guest gate gate-Inv (omega arith) refl

gc-lookup_example :
    ((offline ≡ offline)
      × (300 < 1000 - left.last_seen)
      × (lookup 3 (gc 1000 300 stale_gate).0.by_session ≡ none))
    ⊎ (((offline ≢ offline) ⊎ (1000 - left.last_seen ≤ 300))
        × (lookup 3 (gc 1000 300 stale_gate).0.by_session ≡ some (record left { player_id = 7 })))
unfolding lookup insert
gc-lookup_example = gc-lookup 1000 300 3 (record left { player_id = 7 }) stale_gate refl

gc-orphans_example :
    (lookup 1 (gc 1000 300 stale_gate).0.by_session ≡ some alice)
    × (lookup 7 (gc 1000 300 stale_gate).0.by_player ≡ none)
unfolding lookup insert
gc-orphans_example =
    gc-orphans 1000 300 3 1 (record left { player_id = 7 }) alice stale_gate refl refl (omega arith)
      refl refl refl

-- The guest asks for a message of the game.
on_envelope-Outside_example :
    (on_envelope toy world 1 (envelope 3001 2 []) gate ≡ gate)
    ⊎ (on_envelope toy world 1 (envelope 3001 2 []) gate ≡ close 1 gate)
unfolding get lookup insert
on_envelope-Outside_example =
    on_envelope-Outside toy world 1 (envelope 3001 2 []) gate (omega arith) (omega arith)
      (inr (inl refl))

-- After alice has resumed, the guest may send unknown messages.
abbrev afterwards : List (World × Event)
afterwards =
    (world, received 1 (envelope 1999 2 []))
    ∷ (world, from_service (envelope 1002 2 (1 ∷ [])))
    ∷ (world, heartbeat_ticked)
    ∷ []

handle_resume-mutes_example :
    let h = run toy afterwards (handle_resume toy world 2 (envelope 1 0 (1 ∷ alice.token)) gate) in
    (h.config.unknown_msg_kick_count ≡ 0) × (unknown_route 1002 guest h ≡ count_unknown guest h)
handle_resume-mutes_example =
    handle_resume-mutes toy world 1002 2 1 (envelope 1 0 (1 ∷ alice.token)) alice guest gate
      afterwards resume_alice

-- The player of session 1 names a session that is not kept, and the player 8.
abbrev forged : Envelope
forged = record { msg_id = 3003; session_id = 99; player_id = 8; payload = [] }

abbrev linked_gate : Gate
linked_gate = record gate { service_pool = some (new_remote_client 2 ∷ []) }

on_envelope-forwards_example :
    on_envelope toy world 0 forged linked_gate
    ≡ pooled forged
        (named_player forged (get 99 linked_gate))
        (new_remote_client 2 ∷ [])
        (put_session (record alice { last_seen = 1000 }) linked_gate)
unfolding get lookup insert
on_envelope-forwards_example =
    on_envelope-forwards toy world 0 forged alice (new_remote_client 2 ∷ []) linked_gate
      (Inv-Same (pool-Same gate _) gate-Inv) refl (ground arith) (ground arith) (omega arith)
      (omega arith) (omega arith) refl
