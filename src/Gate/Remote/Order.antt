-- ===== src/Gate/Remote/Order.antt =====
-- Messages to the service: nothing is lost or reordered while a connection is up, and a session
-- keeps to one client.
use test_go_server.Prelude.{
  ℕ, zero, suc, ◌≤◌, ◌<◌, ◌≡◌, refl, ap, sym, ◌∙◌, List, [], ◌∷◌, ◌++◌, append_assoc, append-nil,
  Option, none, some, true, length, length-append, get_elem?, set, arith, ◌⊎◌, inl, inr, Bool-cases,
}
use test_go_server.Protocol.{Envelope, Error, remote_busy}
use test_go_server.Gate.State.{Remote, up}
use test_go_server.Gate.Remote.{
  take_head, write_env, write_turn, write_turns, sleep_turns, sleep, has_room, push, send_attempts,
  send, send_queue_cap, pool_index, send_at, pool_send,
}

-- What the client has taken: what is on the wire, then what waits.
abbrev pub carried : Remote → List Envelope
carried r = r.wire ++ r.send_ch

abbrev pub sent_by : Option Error → Envelope → List Envelope
sent_by none env = env ∷ []
sent_by (some e) env = []

-- A turn of the writer on a connection that is up keeps it up, carries what it did, and leaves no
-- more waiting than did.
pub record Turned (r q : Remote) : Type 0 where
  pub still : q.link ≡ up
  pub same : carried q ≡ carried r
  pub fewer : length q.send_ch ≤ length r.send_ch
  pub retries : q.retry_max ≡ r.retry_max

Turned-trans : {p q r : Remote} → Turned p q → Turned q r → Turned p r
Turned-trans a b = record {
  still = b.still;
  same = b.same ∙ a.same;
  fewer = omega arith;
  retries = b.retries ∙ a.retries;
}

take_head-Turned :
    (es : List Envelope) (r : Remote) → r.link ≡ up → r.send_ch ≡ es → Turned r (take_head es r)
unfolding take_head write_env
take_head-Turned [] r u e = record { still = u; same = refl; fewer = omega arith; retries = refl }
take_head-Turned (env ∷ rest) r u e = rw u (record {
  still = refl;
  same = append_assoc r.wire (env ∷ []) rest ∙ ap (◌++◌ r.wire) (sym e);
  fewer = omega (arith, ap length e);
  retries = refl;
})

write_turns-Turned : (n : ℕ) (r : Remote) → r.link ≡ up → Turned r (write_turns n r)
unfolding write_turns write_turn
write_turns-Turned zero r u = record { still = u; same = refl; fewer = omega arith; retries = refl }
write_turns-Turned (suc n) r u =
    let one = take_head-Turned r.send_ch r u refl in
    Turned-trans one (write_turns-Turned n (take_head r.send_ch r) one.still)

sleep_turns-Turned : (ts : List ℕ) (r : Remote) → r.link ≡ up → Turned r (sleep_turns ts r)
unfolding sleep_turns
sleep_turns-Turned [] r u = record { still = u; same = refl; fewer = omega arith; retries = refl }
sleep_turns-Turned (n ∷ rest) r u =
    let t = write_turns-Turned n (record r { turns = rest }) u in
    record { still = t.still; same = t.same; fewer = t.fewer; retries = t.retries }

-- What a Send leaves: the connection is up, the message is carried last exactly when there is no
-- error, and the channel holds no more than its capacity.
pub record Sends (env : Envelope) (r : Remote) (a : Remote × Option Error) : Type 0 where
  pub still : a.0.link ≡ up
  pub order : carried a.0 ≡ carried r ++ sent_by a.1 env
  pub capped : length a.0.send_ch ≤ send_queue_cap
  pub errors : (a.1 ≡ none) ⊎ (a.1 ≡ some remote_busy)

pushed-Sends :
    (env : Envelope) (r : Remote) → r.link ≡ up → has_room r ≡ true → Sends env r (push env r, none)
pushed-Sends env r u room = record {
  still = u;
  order = sym (append_assoc r.wire r.send_ch (env ∷ []));
  capped = ground (arith, length-append r.send_ch (env ∷ []));
  errors = inl refl;
}

send_attempts-Sends :
    (n : ℕ) (env : Envelope) (r : Remote)
    → r.link ≡ up
    → length r.send_ch ≤ send_queue_cap
    → Sends env r (send_attempts n env r)
unfolding send_attempts
send_attempts-Sends zero env r u cap = elim (Bool-cases (has_room r)) [
  | inl room ↦ rw room (pushed-Sends env r u room)
  | inr full ↦
      rw full (record {
        still = u;
        order = sym (append-nil (carried r));
        capped = cap;
        errors = inr refl;
      })
]
send_attempts-Sends (suc n) env r u cap = elim (Bool-cases (has_room r)) [
  | inl room ↦ rw room (pushed-Sends env r u room)
  | inr full ↦
      let t = sleep_turns-Turned r.turns r u in
      let s =
        send_attempts-Sends n env (sleep r) (unfold sleep in t.still)
          (unfold sleep in omega (arith, t.fewer)) in
      rw full (record {
        still = s.still;
        order =
            s.order
            ∙ ap (λ l. l ++ sent_by (send_attempts n env (sleep r)).1 env) (unfold sleep in t.same);
        capped = s.capped;
        errors = s.errors;
      })
]

-- On a connection that is up, and a channel within its capacity, a Send ends, after its retries,
-- with no error or with "remote busy"; what was carried before is still carried in its order, the
-- message comes last if there was no error and nowhere otherwise, and the channel is still within
-- its capacity, whatever the writer does in between.
pub send-Sends :
    (env : Envelope) (r : Remote)
    → r.link ≡ up
    → length r.send_ch ≤ send_queue_cap
    → Sends env r (send env r)
unfolding send
send-Sends env r u cap = send_attempts-Sends r.retry_max env r u cap

get_elem?-lt : (xs : List Remote) (i : ℕ) → i < length xs → (q : Remote) × (get_elem? xs i ≡ some q)
get_elem?-lt [] i h = elim h [ ]
get_elem?-lt (x ∷ xs) zero h = (x, refl)
get_elem?-lt (x ∷ xs) (suc i) h = get_elem?-lt xs i (omega arith)

-- In a pool with a client, a Send picks an index within the pool from the session ID and the number
-- of clients alone, negative session IDs included, and is the Send of that one client: the others
-- are left as they are.
pub pool_send-send :
    (id : ℕ) (env : Envelope) (pool : List Remote)
    → 0 < length pool
    → let i = pool_index id (length pool) in
      (i < length pool)
      × ((q : Remote) × (get_elem? pool i ≡ some q)
          × (pool_send id env pool ≡ (set pool i (send env q).0, (send env q).1)))
unfolding pool_send
pool_send-send id env [] h = elim h [ ]
pool_send-send id env (r ∷ rs) h =
    let i = pool_index id (length (r ∷ rs)) in
    let within : i < length (r ∷ rs) = unfold pool_index in grind arith in
    let (q, found) = get_elem?-lt (r ∷ rs) i within in
    (within, (q, found, at (r ∷ rs) i (get_elem? (r ∷ rs) i) q found))
  where
    at :
        (pool : List Remote) (i : ℕ) (o : Option Remote) (q : Remote)
        → o ≡ some q
        → send_at i env pool o ≡ (set pool i (send env q).0, (send env q).1)
    at pool i o q e = rw (e, send_at)
