-- ===== src/Reconnect/Waiting.antt =====
-- How long the loop that connects waits.
use test_go_server.Prelude.{
  ℕ, zero, suc, ◌+◌, ◌*◌, ◌-◌, ◌^◌, ◌≡◌, refl, ap, ◌∙◌, List, [], ◌∷◌, ◌++◌, ltb, leb,
  if◌then◌else◌, arith, replicate,
}
use test_go_server.Protocol.{Envelope}
use test_go_server.Gate.State.{down}
use test_go_server.Reconnect.{
  Wake, refused, accepted, ended, arrived, Connector, connect_turn, connect_turns,
}

-- The seconds that n refusals in a row take, of which the first waits for one second.
unfoldable pub wait : ℕ → ℕ
wait n = if leb n 3 then 2 ^ n - 1 else 8 * n - 17

-- The backoff after n refusals in a row.
unfoldable pub backoff_after : ℕ → ℕ
backoff_after n = if leb n 3 then 2 ^ n else 8

abbrev pub arrivals : List Envelope → List Wake
arrivals [] = []
arrivals (env ∷ es) = arrived env ∷ arrivals es

abbrev pub fold_peer : {A : Type 0} → (Envelope → A → A) → List Envelope → A → A
fold_peer on_envelope [] a = a
fold_peer on_envelope (env ∷ es) a = fold_peer on_envelope es (on_envelope env a)

wait_next : (n : ℕ) → wait n + backoff_after n ≡ wait (suc n)
unfolding wait backoff_after
wait_next zero = ground arith
wait_next (suc zero) = ground arith
wait_next (suc (suc zero)) = ground arith
wait_next (suc (suc (suc zero))) = ground arith
wait_next (suc (suc (suc (suc n)))) = ground arith

backoff_next :
    (n : ℕ)
    → (if ltb (backoff_after n) 5 then backoff_after n * 2 else backoff_after n)
      ≡ backoff_after (suc n)
unfolding backoff_after
backoff_next zero = ground arith
backoff_next (suc zero) = ground arith
backoff_next (suc (suc zero)) = ground arith
backoff_next (suc (suc (suc zero))) = ground arith
backoff_next (suc (suc (suc (suc n)))) = ground arith

module _ {A : Type 0} (on_envelope : Envelope → A → A) where
  -- What k refusals leave, after n others.
  record Waited (n k : ℕ) (c d : Connector A) : Type 0 where
    slept : d.slept + wait n ≡ c.slept + wait (n + k)
    backoff : d.backoff ≡ backoff_after (n + k)
    link : d.link ≡ c.link
    peer : d.peer ≡ c.peer

  refusals :
      (n k : ℕ) (c : Connector A)
      → c.backoff ≡ backoff_after n
      → Waited n k c (connect_turns on_envelope (replicate k refused) c)
  unfolding connect_turns connect_turn
  refusals n zero c e = record {
    slept = ap (λ m. c.slept + wait m) (omega arith);
    backoff = e ∙ ap backoff_after (omega arith);
    link = refl;
    peer = refl;
  }
  refusals n (suc k) c e =
      let one = connect_turn on_envelope refused c in
      let w = refusals (suc n) k one (ap (λ b. if ltb b 5 then b * 2 else b) e ∙ backoff_next n) in
      let same : suc n + k ≡ n + suc k = omega arith in
      let longer : wait (suc n + k) ≡ wait (n + suc k) = ap wait same in
      record {
        slept = omega (arith, w.slept, e, wait_next n, longer);
        backoff = w.backoff ∙ ap backoff_after same;
        link = w.link;
        peer = w.peer;
      }

  -- Envelopes that arrive act on the peer, in their order, and on nothing else.
  after_arrivals :
      (es : List Envelope) (os : List Wake) (c : Connector A)
      → connect_turns on_envelope (arrivals es ++ os) c
        ≡ connect_turns on_envelope os (record c { peer = fold_peer on_envelope es c.peer })
  unfolding connect_turns connect_turn
  after_arrivals [] os c = refl
  after_arrivals (env ∷ es) os c = after_arrivals es os (record c { peer = on_envelope env c.peer })

  -- After a connection that gave some envelopes and ended, and k refused dials, the envelopes were
  -- handed on in their order, there is no connection, and the loop has slept one second for the first
  -- refusal, then 2, 4 and 8 seconds, and 8 for each that followed, however long the dials before the
  -- connection had failed.
  pub connect_turns-wait :
      (es : List Envelope) (k : ℕ) (c : Connector A)
      → let d =
          connect_turns on_envelope (accepted ∷ (arrivals es ++ ended ∷ replicate k refused)) c in
        (d.slept ≡ c.slept + wait k)
        × (d.backoff ≡ backoff_after k)
        × (d.link ≡ down)
        × (d.peer ≡ fold_peer on_envelope es c.peer)
  unfolding connect_turns connect_turn backoff_after wait
  connect_turns-wait es k c =
      let up_now = connect_turn on_envelope accepted c in
      let last = record c { backoff = 1; link = down; peer = fold_peer on_envelope es c.peer } in
      let e : connect_turns on_envelope (accepted ∷ (arrivals es ++ ended ∷ replicate k refused)) c
          ≡ connect_turns on_envelope (replicate k refused) last =
        after_arrivals es (ended ∷ replicate k refused) up_now in
      let w = refusals 0 k last refl in
      let none_before : 0 + k ≡ k = omega arith in
      let waited : wait (0 + k) ≡ wait k = ap wait none_before in
      (
        ap (λ d. d.slept) e ∙ omega (arith, w.slept, waited),
        ap (λ d. d.backoff) e ∙ w.backoff ∙ ap backoff_after none_before,
        ap (λ d. d.link) e ∙ w.link,
        ap (λ d. d.peer) e ∙ w.peer,
      )
