-- ===== src/Service/NetServer/Tables.antt =====
-- Every session leads to a gate that is connected.
use test_go_server.Prelude.{
  ℕ, ◌≡◌, ◌≢◌, refl, List, [], ◌∷◌, Option, none, some, Bool, true, false, ◌==◌, lookup, insert,
  arith, lookup-insert, lookup-delete, Bool-cases, inl, inr,
}
use test_go_server.Protocol.{Bytes, Envelope}
use test_go_server.Service.NetServer.{
  GateConn, NetServer, new_net_server, accept, note_session, gate_gone, write_to, reply_at,
  reply_to_gate,
}
use test_go_server.Service.NetServer.Routing.{gate_gone-kept}

-- A gate connects, sends an envelope, or is gone; a handler replies to a session.  Only a gate that
-- is connected sends.
pub data Event : Type 0 where
  accepted : Event
  received : ℕ → Envelope → Event
  gone : ℕ → Event
  replied : ℕ → ℕ → Bytes → Event

receive : Option GateConn → ℕ → Envelope → NetServer → NetServer
receive none gate env n = n
receive (some c) gate env n = note_session gate env n

unfoldable pub step : Event → NetServer → NetServer
unfolding receive
step accepted n = accept n
step (received gate env) n = receive (lookup gate n.gate_conns) gate env n
step (gone gate) n = gate_gone gate n
step (replied id msg payload) n = (reply_to_gate id msg payload n).0

unfoldable pub run : List Event → NetServer → NetServer
run [] n = n
run (e ∷ es) n = run es (step e n)

abbrev is_there : Option GateConn → Bool
is_there none = false
is_there (some c) = true

-- The gate of each session is connected.
pub record Routed (n : NetServer) : Type 0 where
  pub live : (k gate : ℕ) → lookup k n.session_gate ≡ some gate → lookup gate n.gate_conns ≢ none

still_there :
    (gate j : ℕ) (c : GateConn) (m : List (ℕ × GateConn))
    → lookup j m ≢ none
    → lookup j (insert gate c m) ≢ none
still_there gate j c m h = ground (arith, lookup-insert gate j c m, h)

put-Routed :
    (gate : ℕ) (c : GateConn) (n : NetServer) (next : ℕ)
    → Routed n
    → Routed (record {
      gate_conns = insert gate c n.gate_conns;
      next_gate_id = next;
      session_gate = n.session_gate;
    })
put-Routed gate c n next v = record {
  live = λ k g e. still_there gate g c n.gate_conns (v.live k g e);
}

note-Routed :
    (gate : ℕ) (env : Envelope) (n : NetServer)
    → lookup gate n.gate_conns ≢ none
    → Routed n
    → Routed (note_session gate env n)
unfolding note_session
note-Routed gate env n there v = elim (Bool-cases (env.session_id == 0)) [
  | inl e ↦ rw e v
  | inr e ↦ rw e (record {
    live = λ k g f. elim (Bool-cases (env.session_id == k)) [
      | inl hit ↦
          let same : gate ≡ g =
            ground (arith, f, hit, lookup-insert env.session_id k gate n.session_gate) in
          rw (← same) there
      | inr miss ↦
          v.live k g (ground (arith, f, miss, lookup-insert env.session_id k gate n.session_gate))
    ];
  })
]

gone-Routed : (gate : ℕ) (n : NetServer) → Routed n → Routed (gate_gone gate n)
gone-Routed gate n v = record {
  live = λ k g e.
      let (was, apart) = gate_gone-kept gate k g n e in
      let there = v.live k g was in
      λ none_there.
        there (
          unfold gate_gone in ground (arith, none_there, apart, lookup-delete gate g n.gate_conns));
}

written-Routed :
    (gate : ℕ) (env : Envelope) (o : Option GateConn) (n : NetServer)
    → Routed n
    → Routed (write_to gate env o n).0
unfolding write_to
written-Routed gate env none n v = v
written-Routed gate env (some c) n v = elim (Bool-cases c.up) [
  | inl e ↦ rw e (put-Routed gate _ n n.next_gate_id v)
  | inr e ↦ rw e v
]

reply-Routed :
    (o : Option ℕ) (env : Envelope) (n : NetServer) → Routed n → Routed (reply_at o env n).0
unfolding reply_at
reply-Routed none env n v = v
reply-Routed (some gate) env n v = written-Routed gate env (lookup gate n.gate_conns) n v

received-Routed :
    (o : Option GateConn) (gate : ℕ) (env : Envelope) (n : NetServer)
    → lookup gate n.gate_conns ≡ o
    → Routed n
    → Routed (receive o gate env n)
unfolding receive
received-Routed none gate env n e v = v
received-Routed (some c) gate env n e v = note-Routed gate env n (ground (arith, e)) v

step-Routed : (e : Event) (n : NetServer) → Routed n → Routed (step e n)
unfolding step accept reply_to_gate
step-Routed accepted n v = put-Routed _ _ n _ v
step-Routed (received gate env) n v = received-Routed (lookup gate n.gate_conns) gate env n refl v
step-Routed (gone gate) n v = gone-Routed gate n v
step-Routed (replied id msg payload) n v = reply-Routed (lookup id n.session_gate) _ n v

run_from-Routed : (es : List Event) (n : NetServer) → Routed n → Routed (run es n)
unfolding run
run_from-Routed [] n v = v
run_from-Routed (e ∷ es) n v = run_from-Routed es (step e n) (step-Routed e n v)

-- After any sequence of gates that connect, send and are gone, and of replies, the gate to which a
-- session leads is connected.
pub run-Routed : (es : List Event) → Routed (run es new_net_server)
run-Routed es = run_from-Routed es new_net_server start
  where
    start : Routed new_net_server
    start = record { live = λ k gate e. absurd (unfold new_net_server lookup in ground (arith, e)) }
