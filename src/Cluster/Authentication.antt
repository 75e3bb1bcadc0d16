-- ===== src/Cluster/Authentication.antt =====
-- A session has the player of an account that was named on it.
use test_go_server.Prelude.{
  ℕ, ◌<◌, ◌^◌, ◌≡◌, ◌≢◌, refl, subst, ◌⊎◌, inl, inr, List, some, lookup, arith,
}
use test_go_server.Gate.State.{Session}
use test_go_server.Gate.Players.System.{new_gate-Players}
use test_go_server.Service.NetServer.{new_net_server}
use test_go_server.Service.Dispatch.{Process}
use test_go_server.Game.Manager.{new_player_manager}
use test_go_server.Cluster.{Parts, Event, run, start}
use test_go_server.Cluster.Safety.{Login, Reads, Safe, run-Safe}

module _ {D : Type 0} (x : Parts D) where
  start-Safe : {K : ℕ → ℕ → Type 0} (p : Process D) → ((id : ℕ) → K id 0) → Safe x K (start p)
  unfolding start new_net_server new_player_manager lookup
  start-Safe {K} p zero = record {
    players = new_gate-Players K zero;
    grants = record { granted = λ gate i c env at has msg. absurd (ground (arith, at)) };
    speaks = λ k p e. absurd (ground (arith, e));
    answered = λ i env e. absurd (ground (arith, e));
  }

  -- Whatever happens at a gate, a service and a game process over one database from their start on,
  -- clients, the service and the game sending whatever they may in whatever order, and the gate
  -- reading the answers of the service late, again or never: a session that the gate keeps with a
  -- player other than 0 has it by a login request that named the session, on the test platform, which
  -- the service handled, and whose account resolved to that player in the database at that time.
  -- This relies on the codec, to read back an int64 in an answer to a login, and on the players of
  -- the logins to be such int64 values.
  pub run-Login :
      (os : List Event) (p : Process D) (k : ℕ) (s : Session)
      → Reads x
      → ((id player : ℕ) → Login x os (start p) id player → player < 2 ^ 64)
      → lookup k (run x os (start p)).gate.by_session ≡ some s
      → s.player_id ≢ 0
      → Login x os (start p) k s.player_id
  run-Login os p k s law fits kept real =
      let v =
        run-Safe x law granted_fits os (start p) (λ id player l. inr l)
          (start-Safe {K = Granting} p (λ id. inl refl)) in
      let (keyed, has) = v.players.known k s kept in
      elim has [
        | inl none ↦ absurd (real none)
        | inr l ↦ subst (λ id. Login x os (start p) id s.player_id) keyed l
      ]
    where
      Granting : ℕ → ℕ → Type 0
      Granting id player = (player ≡ 0) ⊎ Login x os (start p) id player

      granted_fits : (id player : ℕ) → Granting id player → player < 2 ^ 64
      granted_fits id player (inl e) = omega (arith, e)
      granted_fits id player (inr l) = fits id player l
