-- ===== src/Service/NetServer.antt =====
-- internal/service/netserver.go: which gate a session is on, and the way back to it.
pub mod Routing
pub mod Tables
pub mod Granting
use test_go_server.Prelude.{
  ℕ, List, [], ◌∷◌, ◌++◌, Option, none, some, Bool, true, false, ◌==◌, lookup, insert, delete, keys,
  if◌then◌else◌,
}
use test_go_server.Protocol.{Bytes, Envelope, Error, no_gate_connection, conn_closed, inc64}

-- The connection of a gate: what was written on it, and whether it takes more.
pub record GateConn : Type 0 where
  pub written : List Envelope
  pub up : Bool

pub record NetServer : Type 0 where
  pub gate_conns : List (ℕ × GateConn)
  pub next_gate_id : ℕ  -- int64
  pub session_gate : List (ℕ × ℕ)

-- NewNetServer
unfoldable pub new_net_server : NetServer
new_net_server = record { gate_conns = []; next_gate_id = 0; session_gate = [] }

-- A connection that ListenAndServe accepts.
unfoldable pub accept : NetServer → NetServer
accept n = record n {
  next_gate_id = inc64 n.next_gate_id;
  gate_conns = insert (inc64 n.next_gate_id) (record { written = []; up = true }) n.gate_conns;
}

-- handleGateConn notes the gate of an envelope's session.
unfoldable pub note_session : ℕ → Envelope → NetServer → NetServer
note_session gate env n =
    if env.session_id == 0
    then n
    else record n { session_gate = insert env.session_id gate n.session_gate }

drop_entry : ℕ → ℕ → Option ℕ → List (ℕ × ℕ) → List (ℕ × ℕ)
drop_entry gate sid none m = m
drop_entry gate sid (some gid) m = if gid == gate then delete sid m else m

-- The loop over sessionGate when a gate is gone.
drop_sessions : ℕ → List ℕ → List (ℕ × ℕ) → List (ℕ × ℕ)
unfolding drop_entry
drop_sessions gate [] m = m
drop_sessions gate (sid ∷ sids) m = drop_sessions gate sids (drop_entry gate sid (lookup sid m) m)

-- The deferred function of handleGateConn.
unfoldable pub gate_gone : ℕ → NetServer → NetServer
unfolding drop_sessions
gate_gone gate n = record n {
  gate_conns = delete gate n.gate_conns;
  session_gate = drop_sessions gate (keys n.session_gate) n.session_gate;
}

-- The envelope of replyToGate, without a player.
abbrev pub reply_env : ℕ → ℕ → Bytes → Envelope
reply_env id msg payload = record {
  msg_id = msg;
  session_id = id;
  player_id = 0;
  payload = payload;
}

write_to : ℕ → Envelope → Option GateConn → NetServer → NetServer × Option Error
write_to gate env none n = (n, some no_gate_connection)
write_to gate env (some c) n =
    if c.up
    then (
      record n {
        gate_conns = insert gate (record c { written = c.written ++ env ∷ [] }) n.gate_conns;
      },
      none,
    )
    else (n, some conn_closed)

reply_at : Option ℕ → Envelope → NetServer → NetServer × Option Error
unfolding write_to
reply_at none env n = (n, some no_gate_connection)
reply_at (some gate) env n = write_to gate env (lookup gate n.gate_conns) n

-- NetServer.replyToGate, which ForwardToGate calls
unfoldable pub reply_to_gate : ℕ → ℕ → Bytes → NetServer → NetServer × Option Error
unfolding reply_at
reply_to_gate id msg payload n = reply_at (lookup id n.session_gate) (reply_env id msg payload) n
