-- ===== src/Service/NetServer/Routing.antt =====
-- A session leads to a gate that is connected.
use test_go_server.Prelude.{
  ℕ, ◌≡◌, ◌≢◌, refl, ap, sym, ◌∙◌, ◌⊎◌, inl, inr, List, [], ◌∷◌, ◌++◌, Option, none, some, true,
  false, ◌==◌, lookup, insert, keys, contains, contains-keys, if◌then◌else◌, arith, lookup-delete,
  lookup-insert_self, lookup-insert, Option-cases, Bool-cases,
}
use test_go_server.Protocol.{Bytes, Envelope, no_gate_connection}
use test_go_server.Service.NetServer.{
  GateConn, NetServer, write_to, note_session, drop_entry, drop_sessions, gate_gone, reply_to_gate,
  reply_env,
}

-- What the loop leaves of an entry.
rest_of : ℕ → Option ℕ → Option ℕ
rest_of gate none = none
rest_of gate (some gid) = if gid == gate then none else some gid

drop_entry-lookup :
    (gate sid k : ℕ) (m : List (ℕ × ℕ))
    → lookup k (drop_entry gate sid (lookup sid m) m)
      ≡ (if sid == k then rest_of gate (lookup k m) else lookup k m)
unfolding drop_entry rest_of
drop_entry-lookup gate sid k m = ground (arith, entry (lookup sid m) refl)
  where
    entry :
        (o : Option ℕ)
        → lookup sid m ≡ o
        → lookup k (drop_entry gate sid o m)
          ≡ (if sid == k then rest_of gate (lookup k m) else lookup k m)
    entry none e = ground (arith, e)
    entry (some gid) e = ground (arith, e, lookup-delete sid k m)

rest_twice : (gate : ℕ) (o : Option ℕ) → rest_of gate (rest_of gate o) ≡ rest_of gate o
unfolding rest_of
rest_twice gate none = refl
rest_twice gate (some gid) = ground arith

drop_sessions-lookup :
    (gate k : ℕ) (ids : List ℕ) (m : List (ℕ × ℕ))
    → lookup k (drop_sessions gate ids m)
      ≡ (if contains k ids then rest_of gate (lookup k m) else lookup k m)
unfolding drop_sessions contains
drop_sessions-lookup gate k [] m = refl
drop_sessions-lookup gate k (i ∷ is) m = ground (
  arith,
  drop_sessions-lookup gate k is (drop_entry gate i (lookup i m) m),
  drop_entry-lookup gate i k m,
  rest_twice gate (lookup k m),
)

all_dropped :
    (gate k : ℕ) (m : List (ℕ × ℕ))
    → lookup k (drop_sessions gate (keys m) m) ≡ rest_of gate (lookup k m)
all_dropped gate k m = elim (Option-cases (lookup k m)) [
  | inl e ↦ drop_sessions-lookup gate k (keys m) m ∙ unfold rest_of in ground (arith, e)
  | inr (gid, e) ↦ drop_sessions-lookup gate k (keys m) m ∙ ground (arith, contains-keys k m gid e)
]

rest-some :
    (gate g : ℕ) (o : Option ℕ) → rest_of gate o ≡ some g → (o ≡ some g) × ((gate == g) ≡ false)
unfolding rest_of
rest-some gate g none e = absurd (ground (arith, e))
rest-some gate g (some gid) e = (ground (arith, e), ground (arith, e))

pub gate_gone-kept :
    (gate k g : ℕ) (n : NetServer)
    → lookup k (gate_gone gate n).session_gate ≡ some g
    → (lookup k n.session_gate ≡ some g) × ((gate == g) ≡ false)
unfolding gate_gone
gate_gone-kept gate k g n e =
    rest-some gate g (lookup k n.session_gate) (sym (all_dropped gate k n.session_gate) ∙ e)

unknown :
    (k msg : ℕ) (payload : Bytes) (n : NetServer)
    → lookup k n.session_gate ≡ none
    → reply_to_gate k msg payload n ≡ (n, some no_gate_connection)
unfolding reply_to_gate
unknown k msg payload n e = rw (e, reply_to_gate) refl

-- What a reply to a session comes to depends on its gate alone.
reply_error :
    (k msg gid : ℕ) (payload : Bytes) (a b : NetServer)
    → lookup k a.session_gate ≡ some gid
    → lookup k b.session_gate ≡ some gid
    → lookup gid a.gate_conns ≡ lookup gid b.gate_conns
    → (reply_to_gate k msg payload a).1 ≡ (reply_to_gate k msg payload b).1
unfolding reply_to_gate
reply_error k msg gid payload a b e f same =
    rw (e, f, reply_to_gate) (rw same (by_conn (lookup gid b.gate_conns)))
  where
    by_conn :
        (o : Option GateConn)
        → (write_to gid (reply_env k msg payload) o a).1
          ≡ (write_to gid (reply_env k msg payload) o b).1
    by_conn none = refl
    by_conn (some c) = ground arith

-- When the connection of a gate is gone, the gate has no connection and each other gate the one that
-- it had; each session that was on the gate is on none, and a reply to it is refused and changes
-- nothing; every other session is where it was, and a reply to it fails just when it did before.
pub gate_gone-lookup :
    (gate k msg : ℕ) (payload : Bytes) (n : NetServer)
    → let left = gate_gone gate n in
      ((other : ℕ)
        → lookup other left.gate_conns
          ≡ (if gate == other then none else lookup other n.gate_conns))
      × (((lookup k n.session_gate ≡ some gate)
            × (lookup k left.session_gate ≡ none)
            × (reply_to_gate k msg payload left ≡ (left, some no_gate_connection)))
          ⊎ ((lookup k n.session_gate ≢ some gate)
              × (lookup k left.session_gate ≡ lookup k n.session_gate)
              × ((reply_to_gate k msg payload left).1 ≡ (reply_to_gate k msg payload n).1)))
gate_gone-lookup gate k msg payload n = (conns, by_entry (lookup k n.session_gate) refl)
  where
    conns :
        (other : ℕ)
        → lookup other (gate_gone gate n).gate_conns
          ≡ (if gate == other then none else lookup other n.gate_conns)
    conns other = unfold gate_gone in lookup-delete gate other n.gate_conns

    left : lookup k (gate_gone gate n).session_gate ≡ rest_of gate (lookup k n.session_gate)
    left = unfold gate_gone in all_dropped gate k n.session_gate

    by_entry :
        (o : Option ℕ)
        → lookup k n.session_gate ≡ o
        → ((lookup k n.session_gate ≡ some gate)
            × (lookup k (gate_gone gate n).session_gate ≡ none)
            × (reply_to_gate k msg payload (gate_gone gate n)
                ≡ (gate_gone gate n, some no_gate_connection)))
          ⊎ ((lookup k n.session_gate ≢ some gate)
              × (lookup k (gate_gone gate n).session_gate ≡ lookup k n.session_gate)
              × ((reply_to_gate k msg payload (gate_gone gate n)).1
                  ≡ (reply_to_gate k msg payload n).1))
    by_entry none e =
        let none_left : lookup k (gate_gone gate n).session_gate ≡ none =
          left ∙ unfold rest_of in ground (arith, e) in
        inr (
          ground (arith, e),
          none_left ∙ sym e,
          ap (λ r. r.1) (unknown k msg payload (gate_gone gate n) none_left)
              ∙ sym (ap (λ r. r.1) (unknown k msg payload n e)),
        )
    by_entry (some gid) e = elim (Bool-cases (gid == gate)) [
      | inl hit ↦
          let none_left : lookup k (gate_gone gate n).session_gate ≡ none =
            left ∙ unfold rest_of in ground (arith, e, hit) in
          inl
            (ground (arith, e, hit), none_left, unknown k msg payload (gate_gone gate n) none_left)
      | inr miss ↦
          let stays : lookup k (gate_gone gate n).session_gate ≡ some gid =
            left ∙ unfold rest_of in ground (arith, e, miss) in
          inr (
            ground (arith, e, miss),
            stays ∙ sym e,
            reply_error k msg gid payload (gate_gone gate n) n stays e
                (conns gid ∙ ground (arith, miss)),
          )
    ]

pub reply_to_gate-known :
    (k gate msg : ℕ) (payload : Bytes) (c : GateConn) (n : NetServer)
    → lookup k n.session_gate ≡ some gate
    → lookup gate n.gate_conns ≡ some c
    → c.up ≡ true
    → reply_to_gate k msg payload n ≡ (
      record n {
        gate_conns =
            insert gate
              (record c { written = c.written ++ reply_env k msg payload ∷ [] })
              n.gate_conns;
      },
      none,
    )
unfolding reply_to_gate
reply_to_gate-known k gate msg payload c n e f up = rw (e, reply_to_gate) (rw f (rw up refl))

noted :
    (gate : ℕ) (env : Envelope) (n : NetServer)
    → env.session_id ≢ 0
    → note_session gate env n
      ≡ record n { session_gate = insert env.session_id gate n.session_gate }
unfolding note_session
noted gate env n ne = ground (arith, ne)

-- A reply to a session goes to the gate that last sent an envelope of it, as the last message on its
-- connection, if that is up; the connections of the other gates and the sessions stay as they are.
pub reply_to_gate-note_session :
    (gate msg : ℕ) (payload : Bytes) (env : Envelope) (c : GateConn) (n : NetServer)
    → env.session_id ≢ 0
    → lookup gate n.gate_conns ≡ some c
    → c.up ≡ true
    → let h = note_session gate env n in
      let r = reply_to_gate env.session_id msg payload h in
      (r.1 ≡ none)
      × ((other : ℕ)
          → lookup other r.0.gate_conns ≡ (
              if gate == other
              then some
                  (record c { written = c.written ++ reply_env env.session_id msg payload ∷ [] })
              else lookup other n.gate_conns))
      × (r.0.session_gate ≡ h.session_gate)
reply_to_gate-note_session gate msg payload env c n ne e up =
    let m : NetServer = record n { session_gate = insert env.session_id gate n.session_gate } in
    rw (noted gate env n ne) (
      rw
        (reply_to_gate-known env.session_id gate msg payload c m
          (lookup-insert_self env.session_id gate n.session_gate) e up)
        (refl, λ other. lookup-insert gate other _ n.gate_conns, refl))
