-- ===== src/Service/NetServer/Granting.antt =====
-- What the answers to logins that were written for the gates grant.
use test_go_server.Prelude.{
  ℕ, zero, suc, ◌≡◌, refl, ap, subst, ◌∙◌, ◌⊎◌, inl, inr, List, [], ◌∷◌, ◌++◌, Option, none, some,
  Bool, true, false, ◌==◌, lookup, insert, lookup-insert, lookup-delete, get_elem?, arith,
  Bool-cases, if◌then◌else◌,
}
use test_go_server.Protocol.{Bytes, Envelope, Error, conn_closed, msg_login_rsp, inc64}
use test_go_server.Service.NetServer.{
  GateConn, NetServer, accept, note_session, gate_gone, write_to, reply_at, reply_to_gate,
  reply_env,
}

-- Every answer to a login that was written for a gate names a player whom K grants to the session.
pub record Granted (marshal : ℕ → Bytes) (K : ℕ → ℕ → Type 0) (n : NetServer) : Type 0 where
  pub granted :
      (gate i : ℕ) (c : GateConn) (env : Envelope)
      → lookup gate n.gate_conns ≡ some c
      → get_elem? c.written i ≡ some env
      → env.msg_id ≡ msg_login_rsp
      → (player : ℕ) × (env.payload ≡ marshal player) × K env.session_id player

-- What K grants by the message with a number and a payload for a session.
abbrev pub Grant : (ℕ → Bytes) → (ℕ → ℕ → Type 0) → ℕ → ℕ → Bytes → Type 0
Grant marshal K session msg payload =
    msg ≡ msg_login_rsp → (player : ℕ) × (payload ≡ marshal player) × K session player

pub get_elem?-snoc :
    (xs : List Envelope) (y e : Envelope) (i : ℕ)
    → get_elem? (xs ++ y ∷ []) i ≡ some e
    → (get_elem? xs i ≡ some e) ⊎ (y ≡ e)
get_elem?-snoc [] y e zero h = inr (ground (arith, h))
get_elem?-snoc [] y e (suc i) h = absurd (ground (arith, h))
get_elem?-snoc (x ∷ xs) y e zero h = inl h
get_elem?-snoc (x ∷ xs) y e (suc i) h = get_elem?-snoc xs y e i h

pub Granted-map :
    {marshal : ℕ → Bytes} {K L : ℕ → ℕ → Type 0} {n : NetServer}
    → ((id player : ℕ) → K id player → L id player)
    → Granted marshal K n
    → Granted marshal L n
Granted-map f v = record {
  granted = λ gate i c env at has msg.
      let (player, e, k) = v.granted gate i c env at has msg in (player, e, f _ player k);
}

-- Nothing is written, and connections may be gone.
pub Granted-fewer :
    {marshal : ℕ → Bytes} {K : ℕ → ℕ → Type 0} {n m : NetServer}
    → ((gate : ℕ) (c : GateConn)
        → lookup gate m.gate_conns ≡ some c
        → lookup gate n.gate_conns ≡ some c)
    → Granted marshal K n
    → Granted marshal K m
Granted-fewer sub v = record {
  granted = λ gate i c env at has msg. v.granted gate i c env (sub gate c at) has msg;
}

pub accept-Granted :
    {marshal : ℕ → Bytes} {K : ℕ → ℕ → Type 0} (n : NetServer)
    → Granted marshal K n
    → Granted marshal K (accept n)
unfolding accept
accept-Granted n v = record {
  granted = λ gate i c env at has msg. elim (Bool-cases (inc64 n.next_gate_id == gate)) [
    | inl new ↦
        let empty : record { written = []; up = true } ≡ c = ground (
          arith,
          lookup-insert (inc64 n.next_gate_id) gate (record { written = []; up = true })
              n.gate_conns,
          at,
          new,
        ) in
        absurd (ground (arith, ap (λ r. get_elem? r.written i) empty ∙ has))
    | inr old ↦
        v.granted gate i c env
          (ground (
            arith,
            lookup-insert (inc64 n.next_gate_id) gate (record { written = []; up = true })
                n.gate_conns,
            at,
            old,
          ))
          has msg
  ];
}

pub gate_gone-Granted :
    {marshal : ℕ → Bytes} {K : ℕ → ℕ → Type 0} (gate : ℕ) (n : NetServer)
    → Granted marshal K n
    → Granted marshal K (gate_gone gate n)
unfolding gate_gone
gate_gone-Granted gate n v =
    Granted-fewer (λ j c e. ground (arith, lookup-delete gate j n.gate_conns, e)) v

pub note_session-Granted :
    {marshal : ℕ → Bytes} {K : ℕ → ℕ → Type 0} (gate : ℕ) (env : Envelope) (n : NetServer)
    → Granted marshal K n
    → Granted marshal K (note_session gate env n)
unfolding note_session
note_session-Granted gate env n v = elim (Bool-cases (env.session_id == 0)) [
  | inl e ↦ rw e v
  | inr e ↦ rw e (record { granted = v.granted })
]

written-Granted :
    {marshal : ℕ → Bytes} {K : ℕ → ℕ → Type 0} (gate : ℕ) (env : Envelope) (c : GateConn)
    (n : NetServer)
    → lookup gate n.gate_conns ≡ some c
    → Grant marshal K env.session_id env.msg_id env.payload
    → Granted marshal K n
    → Granted marshal K (record n {
      gate_conns = insert gate (record c { written = c.written ++ env ∷ [] }) n.gate_conns;
    })
written-Granted {marshal} {K} gate env c n at grant v = record {
  granted = λ j i d e there has msg.
      let d' = record c { written = c.written ++ env ∷ [] } in
      elim (Bool-cases (gate == j)) [
        | inl hit ↦
            let same : d' ≡ d = ground (arith, lookup-insert gate j d' n.gate_conns, there, hit) in
            let has' : get_elem? (c.written ++ env ∷ []) i ≡ some e =
              ap (λ r. get_elem? r.written i) same ∙ has in
            elim (get_elem?-snoc c.written env e i has') [
              | inl old ↦ v.granted gate i c e at old msg
              | inr new ↦ subst (λ r. Grant marshal K r.session_id r.msg_id r.payload) new grant msg
            ]
        | inr miss ↦
            v.granted j i d e (ground (arith, lookup-insert gate j d' n.gate_conns, there, miss))
              has msg
      ];
}

either :
    {marshal : ℕ → Bytes} {K : ℕ → ℕ → Type 0} (b : Bool) (u v : NetServer × Option Error)
    → Granted marshal K u.0
    → Granted marshal K v.0
    → let r : NetServer × Option Error = if b then u else v in Granted marshal K r.0
either true u v h k = h
either false u v h k = k

pub reply_to_gate-Granted :
    {marshal : ℕ → Bytes} {K : ℕ → ℕ → Type 0} (id msg : ℕ) (payload : Bytes) (n : NetServer)
    → Grant marshal K id msg payload
    → Granted marshal K n
    → Granted marshal K (reply_to_gate id msg payload n).0
unfolding reply_to_gate write_to reply_at
reply_to_gate-Granted {marshal} {K} id msg payload n grant v = at_session (lookup id n.session_gate)
  where
    stored : ℕ → GateConn → NetServer
    stored gate c = record n {
      gate_conns =
          insert gate (record c { written = c.written ++ reply_env id msg payload ∷ [] })
            n.gate_conns;
    }

    at_gate :
        (gate : ℕ) (o : Option GateConn)
        → lookup gate n.gate_conns ≡ o
        → Granted marshal K (write_to gate (reply_env id msg payload) o n).0
    at_gate gate none e = v
    at_gate gate (some c) e =
        either c.up (stored gate c, none) (n, some conn_closed)
          (written-Granted gate (reply_env id msg payload) c n e grant v) v

    at_session : (o : Option ℕ) → Granted marshal K (reply_at o (reply_env id msg payload) n).0
    at_session none = v
    at_session (some gate) = at_gate gate (lookup gate n.gate_conns) refl
