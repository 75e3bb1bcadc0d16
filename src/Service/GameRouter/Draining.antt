-- ===== src/Service/GameRouter/Draining.antt =====
-- What becomes of the messages that wait for the game process.
use test_go_server.Prelude.{
  ℕ, suc, ◌+◌, ◌<◌, ◌≡◌, refl, ap, sym, subst, ◌∙◌, List, [], ◌∷◌, ◌++◌, append_assoc, append-nil,
  length, arith,
}
use test_go_server.Protocol.{Envelope}
use test_go_server.Gate.State.{Link, down, up, failing}
use test_go_server.Service.GameRouter.{GameRouter, write_env, take_head, write_turn, write_turns}

-- The messages that a link takes, and how many it lets be counted as dropped.
abbrev pub taken : Link → List Envelope → List Envelope
taken down es = []
taken up es = es
taken failing es = []

abbrev pub dropped : Link → List Envelope → ℕ
dropped down es = length es
dropped up es = 0
dropped failing es = 0

-- The writer has dealt with the messages es of r, on the link l.
pub record Drained (l : Link) (es : List Envelope) (r q : GameRouter) : Type 0 where
  pub empty : q.send_ch ≡ []
  pub wire : q.wire ≡ r.wire ++ taken l es
  pub drops : q.drop_count ≡ r.drop_count + dropped l es
  pub link : q.link ≡ l
  pub busy : q.busy_count ≡ r.busy_count

nothing : (l : Link) (r : GameRouter) → r.link ≡ l → r.send_ch ≡ [] → Drained l [] r r
nothing down r at e = record {
  empty = e;
  wire = sym (append-nil r.wire);
  drops = omega arith;
  link = at;
  busy = refl;
}
nothing up r at e = record {
  empty = e;
  wire = sym (append-nil r.wire);
  drops = omega arith;
  link = at;
  busy = refl;
}
nothing failing r at e = record {
  empty = e;
  wire = sym (append-nil r.wire);
  drops = omega arith;
  link = at;
  busy = refl;
}

-- One message more, before those that are dealt with.
more :
    (l : Link) (env : Envelope) (es : List Envelope) (r q : GameRouter)
    → r.drop_count + suc (length es) < 18446744073709551616
    → Drained l es (write_env l env (record r { send_ch = es })) q
    → Drained l (env ∷ es) r q
unfolding write_env
more down env es r q small v = record {
  empty = v.empty;
  wire = v.wire;
  drops = omega (arith, v.drops, small);
  link = v.link;
  busy = v.busy;
}
more up env es r q small v = record {
  empty = v.empty;
  wire = v.wire ∙ append_assoc r.wire (env ∷ []) es;
  drops = v.drops;
  link = v.link;
  busy = v.busy;
}
more failing env es r q small v = record {
  empty = v.empty;
  wire = v.wire;
  drops = v.drops;
  link = v.link;
  busy = v.busy;
}

still :
    (l : Link) (env : Envelope) (es : List Envelope) (r : GameRouter)
    → r.link ≡ l
    → ((write_env l env (record r { send_ch = es })).link ≡ l)
      × ((write_env l env (record r { send_ch = es })).send_ch ≡ es)
unfolding write_env
still down env es r at = (at, refl)
still up env es r at = (at, refl)
still failing env es r at = (at, refl)

counted :
    (l : Link) (env : Envelope) (es : List Envelope) (r : GameRouter)
    → r.drop_count + suc (length es) < 18446744073709551616
    → (write_env l env (record r { send_ch = es })).drop_count + length es < 18446744073709551616
unfolding write_env
counted down env es r small = omega (arith, small)
counted up env es r small = omega (arith, small)
counted failing env es r small = omega (arith, small)

turned :
    (l : Link) (env : Envelope) (es : List Envelope) (r : GameRouter)
    → r.link ≡ l
    → r.send_ch ≡ env ∷ es
    → write_turn r ≡ write_env l env (record r { send_ch = es })
unfolding write_turn take_head
turned l env es r at e =
    ap (λ q. take_head q r) e ∙ ap (λ k. write_env k env (record r { send_ch = es })) at

drain :
    (l : Link) (es : List Envelope) (r : GameRouter)
    → r.link ≡ l
    → r.send_ch ≡ es
    → r.drop_count + length es < 18446744073709551616
    → Drained l es r (write_turns (length es) r)
unfolding write_turns
drain l [] r at e small = nothing l r at e
drain l (env ∷ es) r at e small =
    let r1 = write_env l env (record r { send_ch = es }) in
    let (at', e') = still l env es r at in
    subst (λ k. Drained l (env ∷ es) r (write_turns (length es) k)) (sym (turned l env es r at e))
      (more l env es r (write_turns (length es) r1) small
        (drain l es r1 at' e' (counted l env es r small)))

-- The write loop empties the channel in as many turns as messages wait, whatever the connection
-- does: a connection that is up is given all of them in their order; without one they are counted
-- as dropped, up to the limit of the counter; and if the writes fail, they are gone uncounted.
pub write_turns-Drained :
    (r : GameRouter)
    → r.drop_count + length r.send_ch < 18446744073709551616
    → Drained r.link r.send_ch r (write_turns (length r.send_ch) r)
write_turns-Drained r small = drain r.link r.send_ch r refl refl small
