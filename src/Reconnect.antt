-- ===== src/Reconnect.antt =====
-- The loop that keeps a process connected: connectLoop, which internal/service/game_router.go and
-- internal/gate/remote.go have alike.
pub mod Waiting
use test_go_server.Prelude.{ℕ, ◌+◌, ◌*◌, List, [], ◌∷◌, ltb, if◌then◌else◌}
use test_go_server.Protocol.{Envelope}
use test_go_server.Gate.State.{Link, down, up}

-- What a blocking call of connectLoop comes back with: a refused or an accepted dial, an envelope, or
-- the end of the connection.
pub data Wake : Type 0 where
  refused accepted ended : Wake
  arrived : Envelope → Wake

-- The loop's backoff in seconds, how long it has slept, whether it has a connection, and what its
-- envelopes act on.
pub record Connector (A : Type 0) : Type 0 where
  pub backoff : ℕ
  pub slept : ℕ
  pub link : Link
  pub peer : A

module _ {A : Type 0} (on_envelope : Envelope → A → A) where
  -- What connectLoop does until its next blocking call.
  unfoldable pub connect_turn : Wake → Connector A → Connector A
  connect_turn refused c = record c {
    slept = c.slept + c.backoff;
    backoff = if ltb c.backoff 5 then c.backoff * 2 else c.backoff;
  }
  connect_turn accepted c = record c { backoff = 1; link = up }
  connect_turn (arrived env) c = record c { peer = on_envelope env c.peer }
  connect_turn ended c = record c { link = down }

  unfoldable pub connect_turns : List Wake → Connector A → Connector A
  connect_turns [] c = c
  connect_turns (o ∷ os) c = connect_turns os (connect_turn o c)
