-- ===== src/Cluster/Accounts.antt =====
-- A player is used on behalf of one account alone.
use test_go_server.Prelude.{
  ℕ, ◌<◌, ◌^◌, ◌≡◌, ◌≢◌, sym, subst, ◌∙◌, List, some, lookup, arith, length,
}
use test_go_server.Protocol.{Bytes}
use test_go_server.Gate.State.{Session, External}
use test_go_server.Redis.Dao.{nil, Client}
use test_go_server.Service.Dispatch.{Coder, Process}
use test_go_server.Game.Player.{Marshal}
use test_go_server.PlayerDb.{Json}
use test_go_server.PlayerDb.Accounts.{Sets}
use test_go_server.PlayerDb.Unique.{Counts, Unique}
use test_go_server.PlayerDb.Roles.{empty-Unique}
use test_go_server.Cluster.{Event, run, start}
use test_go_server.Cluster.Safety.{Login, Reads}
use test_go_server.Cluster.Authentication.{run-Login}
use test_go_server.Cluster.Storing.{redis_parts, account}
use test_go_server.Cluster.Ownership.{Login-issued, Login-account}

module _ {D : Type 0} (x : External) (coder : Coder) (marshal : Marshal) (client : Client D)
    (json : Json) (sets : Sets client) (counting : Counts client) where
  started :
      (p : Process D)
      → ((key : Bytes) → client.get key p.store ≡ nil)
      → Unique client 0 (start p).service.store
  unfolding start
  started p empty = empty-Unique client json sets counting p.store empty

  logged_in :
      (os : List Event) (p : Process D) (k : ℕ) (s : Session)
      → Reads (redis_parts x coder marshal client json)
      → ((key : Bytes) → client.get key p.store ≡ nil)
      → length os < 2 ^ 63
      → lookup k (run (redis_parts x coder marshal client json) os (start p)).gate.by_session
        ≡ some s
      → s.player_id ≢ 0
      → Login (redis_parts x coder marshal client json) os (start p) k s.player_id
  logged_in os p k s law empty few kept real =
      run-Login (redis_parts x coder marshal client json) os p k s law
        (λ id player l.
          let le =
            Login-issued x coder marshal client json sets counting 0 id player os (start p)
              (omega (arith, few)) (started p empty) l in
          omega (arith, le, few))
        kept real

  -- Two sessions that the gate keeps with one player, other than 0, after fewer than 2 ^ 63 events
  -- from the start of a gate, a service and a game process over an empty Redis, whichever of its
  -- commands fail: each has it by a login request that named that session, which the service
  -- handled, and the two requests named the same account.  This relies on the codec, to read back an
  -- int64 in an answer to a login, and on SET and INCR as Redis documents them.
  pub run-account :
      (os : List Event) (p : Process D) (k j : ℕ) (s t : Session)
      → Reads (redis_parts x coder marshal client json)
      → ((key : Bytes) → client.get key p.store ≡ nil)
      → length os < 2 ^ 63
      → lookup k (run (redis_parts x coder marshal client json) os (start p)).gate.by_session
        ≡ some s
      → lookup j (run (redis_parts x coder marshal client json) os (start p)).gate.by_session
        ≡ some t
      → s.player_id ≢ 0
      → t.player_id ≡ s.player_id
      → (l : Login (redis_parts x coder marshal client json) os (start p) k s.player_id)
        × (m : Login (redis_parts x coder marshal client json) os (start p) j s.player_id)
        × (account l ≡ account m)
  run-account os p k j s t law empty few kept kept' real same =
      let l = logged_in os p k s law empty few kept real in
      let m =
        subst (Login _ os (start p) j) same
          (logged_in os p j t law empty few kept' (λ z. real (sym same ∙ z))) in
      (
        l,
        m,
        Login-account x coder marshal client json sets counting 0 k j s.player_id os (start p)
            (omega (arith, few)) (started p empty) l m,
      )
