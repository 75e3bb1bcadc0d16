-- ===== src/Tests/ServiceCases.antt =====
-- A service process with two gates.
use test_go_server.Prelude.{
  ℕ, if◌then◌else◌, ◌==◌, ◌≡◌, ◌≢◌, refl, [], ◌∷◌, none, some, true, arith, lookup, ◌⊎◌,
}
use test_go_server.Protocol.{Envelope, no_gate_connection}
use test_go_server.Service.NetServer.{
  GateConn, NetServer, new_net_server, note_session, gate_gone, reply_to_gate, reply_env,
}
use test_go_server.Service.NetServer.Routing.{gate_gone-lookup, reply_to_gate-note_session}
use test_go_server.Service.NetServer.Tables.{
  accepted, received, gone, replied, run, Routed, run-Routed,
}

abbrev fresh : GateConn
fresh = record { written = []; up = true }

abbrev net_server : NetServer
net_server = record {
  gate_conns = (1, fresh) ∷ (2, fresh) ∷ [];
  next_gate_id = 2;
  session_gate = (5, 1) ∷ [];
}

abbrev login : Envelope
login = record { msg_id = 1001; session_id = 5; player_id = 0; payload = [] }

run-Routed_example : Routed (
    run
      (accepted ∷ received 1 login ∷ replied 5 1002 [] ∷ gone 1 ∷ replied 5 1002 [] ∷ [])
      new_net_server)
run-Routed_example =
    run-Routed (accepted ∷ received 1 login ∷ replied 5 1002 [] ∷ gone 1 ∷ replied 5 1002 [] ∷ [])

gate_gone-lookup_example :
    let left = gate_gone 1 net_server in
    ((other : ℕ)
      → lookup other left.gate_conns
        ≡ (if 1 == other then none else lookup other net_server.gate_conns))
    × (((lookup 5 net_server.session_gate ≡ some 1)
          × (lookup 5 left.session_gate ≡ none)
          × (reply_to_gate 5 1002 [] left ≡ (left, some no_gate_connection)))
        ⊎ ((lookup 5 net_server.session_gate ≢ some 1)
            × (lookup 5 left.session_gate ≡ lookup 5 net_server.session_gate)
            × ((reply_to_gate 5 1002 [] left).1 ≡ (reply_to_gate 5 1002 [] net_server).1)))
gate_gone-lookup_example = gate_gone-lookup 1 5 1002 [] net_server

-- Session 5 comes by the second gate, and is answered there.
reply_to_gate-note_session_example :
    ((reply_to_gate 5 1002 [] (note_session 2 login net_server)).1 ≡ none)
    × ((other : ℕ)
        → lookup other (reply_to_gate 5 1002 [] (note_session 2 login net_server)).0.gate_conns ≡ (
            if 2 == other
            then some (record { written = reply_env 5 1002 [] ∷ []; up = true })
            else lookup other net_server.gate_conns))
    × ((reply_to_gate 5 1002 [] (note_session 2 login net_server)).0.session_gate
        ≡ (note_session 2 login net_server).session_gate)
unfolding lookup
reply_to_gate-note_session_example =
    reply_to_gate-note_session 2 1002 [] login fresh net_server (omega arith) refl refl
