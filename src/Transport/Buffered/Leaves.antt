-- ===== src/Transport/Buffered/Leaves.antt =====
-- What the peer would have of a bufio.Writer, operation by operation.
use test_go_server.Prelude.{
  ℕ, zero, suc, ◌+◌, ◌-◌, ◌≤◌, ◌≡◌, refl, ap, sym, subst, ◌∙◌, [], ◌∷◌, ◌++◌, append_assoc,
  append-nil, Bool, true, false, ◌&&◌, not, ltb, leb, if◌then◌else◌, length, length-append, take,
  drop, take-append-drop, is_empty, arith, ◌⊎◌, inl, inr, Bool-cases,
}
use test_go_server.Protocol.{Bytes}
use test_go_server.Transport.{Writer, write, write_body}
use test_go_server.Transport.Buffered.{
  BufWriter, default_buffer_size, flush, flushed, direct, put_rest, fill_first, buf_write, put_body,
  flush_if,
}

take-past : (n : ℕ) (a b : Bytes) → length a ≤ n → take n (a ++ b) ≡ a ++ take (n - length a) b
take-past n [] b le = ap (λ k. take k b) (omega arith)
take-past zero (x ∷ a) b le = absurd (omega (arith, le))
take-past (suc n) (x ∷ a) b le =
    ap (◌∷◌ x) (take-past n a b (omega (arith, le)) ∙ ap (λ k. a ++ take k b) (omega arith))

take-short : (n : ℕ) (a b : Bytes) → n ≤ length a → take n (a ++ b) ≡ take n a
take-short zero a b le = refl
take-short (suc n) [] b le = absurd (omega (arith, le))
take-short (suc n) (x ∷ a) b le = ap (◌∷◌ x) (take-short n a b (omega (arith, le)))

-- Two writes are one of both.
write-append : (a b : Bytes) (w : Writer) → write (a ++ b) w ≡ write_body b (write a w)
unfolding write write_body
write-append a b w = elim (Bool-cases (leb (length a) w.room)) [
  | inl fits ↦ ground (
    arith,
    fits,
    length-append a b,
    take-past w.room a b (ground (arith, fits)),
    append_assoc w.written a b,
    append_assoc w.written a (take (w.room - length a) b),
  )
  | inr short ↦
      ground (arith, short, length-append a b, take-short w.room a b (ground (arith, short)))
]

-- What the peer would have of a flush now, and whether without an error.
pub after : BufWriter → Writer × Bool
after b = if b.failed then (b.out, false) else write b.buf b.out

-- A writer of which the peer would have r, and that fails just when it has failed.
pub record Leaves (r : Writer × Bool) (x : BufWriter × Bool) : Type 0 where
  pub same : after x.0 ≡ r
  pub told : x.1 ≡ not x.0.failed

write-nil : (w : Writer) → write [] w ≡ (w, true)
unfolding write
write-nil w = ground (arith, append-nil w.written)

is_empty-true : (xs : Bytes) → is_empty xs ≡ true → xs ≡ []
is_empty-true [] e = refl
is_empty-true (x ∷ xs) e = absurd (ground (arith, e))

-- What a flush of a writer that has not failed leaves, when its write leaves r.
record Flushed (b : BufWriter) (r : Writer × Bool) (f : BufWriter × Bool) : Type 0 where
  out : f.0.out ≡ r.0
  told : f.1 ≡ r.1
  failed : f.0.failed ≡ not r.1
  empty : r.1 ≡ true → f.0.buf ≡ []

flushed-Flushed :
    (b : BufWriter) (r : Writer × Bool) → b.failed ≡ false → Flushed b r (flushed b.out b r)
unfolding flushed
flushed-Flushed b (w, true) fine = record {
  out = refl;
  told = refl;
  failed = fine;
  empty = λ e. refl;
}
flushed-Flushed b (w, false) fine = record {
  out = refl;
  told = refl;
  failed = refl;
  empty = λ e. absurd (ground (arith, e));
}

flush-Flushed : (b : BufWriter) → b.failed ≡ false → Flushed b (write b.buf b.out) (flush b)
unfolding flush
flush-Flushed b fine = elim (Bool-cases (is_empty b.buf)) [
  | inl e ↦
      let nothing = is_empty-true b.buf e in
      let wrote : write b.buf b.out ≡ (b.out, true) =
        ap (λ p. write p b.out) nothing ∙ write-nil b.out in
      let same : flush b ≡ (b, true) = ground (arith, fine, e) in
      subst (Flushed b (write b.buf b.out)) (sym same) (record {
        out = ap (λ r. r.0) (sym wrote);
        told = ap (λ r. r.1) (sym wrote);
        failed = fine ∙ ap (λ r. not r.1) (sym wrote);
        empty = λ ok. nothing;
      })
  | inr e ↦
      let same : flush b ≡ flushed b.out b (write b.buf b.out) = ground (arith, fine, e) in
      subst (Flushed b (write b.buf b.out)) (sym same) (flushed-Flushed b (write b.buf b.out) fine)
]

direct-Leaves : (b : BufWriter) (r : Writer × Bool) → b.buf ≡ [] → Leaves r (direct b r)
unfolding after direct
direct-Leaves b (w, true) empty = record {
  same = ap (λ p. write p w) empty ∙ write-nil w;
  told = refl;
}
direct-Leaves b (w, false) empty = record { same = refl; told = refl }

put_rest-Leaves :
    (p : Bytes) (b : BufWriter)
    → b.failed ≡ false
    → (length b.buf + length p ≤ default_buffer_size) ⊎ (b.buf ≡ [])
    → Leaves (write (b.buf ++ p) b.out) (put_rest p b)
unfolding put_rest after
put_rest-Leaves p b fine room =
    elim (Bool-cases (ltb default_buffer_size (length b.buf + length p))) [
      | inl long ↦
          let empty : b.buf ≡ [] = elim room [
            | inl le ↦ absurd (ground (arith, long, le))
            | inr e ↦ e
          ] in
          let same : put_rest p b ≡ direct b (write p b.out) = ground (arith, fine, long) in
          subst (Leaves (write (b.buf ++ p) b.out)) (sym same) (
            subst (λ q. Leaves (write (q ++ p) b.out) (direct b (write p b.out))) (sym empty)
              (direct-Leaves b (write p b.out) empty))
      | inr short ↦
          let same : put_rest p b ≡ (record b { buf = b.buf ++ p }, true) =
            ground (arith, fine, short) in
          subst (Leaves (write (b.buf ++ p) b.out)) (sym same)
            (record { same = ground (arith, fine); told = ground (arith, fine) })
    ]

-- The rest of a write goes on after a flush of b that left f.
rest-Leaves :
    (p : Bytes) (b f : BufWriter) (told : Bool) (r : Writer × Bool)
    → Flushed b r (f, told)
    → Leaves (write_body p r) (put_rest p f)
unfolding write_body
rest-Leaves p b f told (w, true) v =
    let empty = v.empty refl in
    subst (λ x. Leaves x (put_rest p f)) (ap (λ q. write (q ++ p) f.out) empty ∙ ap (write p) v.out)
      (put_rest-Leaves p f v.failed (inr empty))
rest-Leaves p b f told (w, false) v =
    let same : put_rest p f ≡ (f, false) = unfold put_rest in ground (arith, v.failed) in
    subst (Leaves (w, false)) (sym same) (record {
      same = unfold after in ground (arith, v.failed, v.out);
      told = ground (arith, v.failed);
    })

fill_first-Leaves :
    (n : ℕ) (p : Bytes) (b : BufWriter)
    → b.failed ≡ false
    → Leaves (write (b.buf ++ p) b.out) (fill_first n p b)
unfolding fill_first
fill_first-Leaves n p b fine =
    let b1 = record b { buf = b.buf ++ take n p } in
    let f = flush b1 in
    let whole : (b.buf ++ take n p) ++ drop n p ≡ b.buf ++ p =
      append_assoc b.buf (take n p) (drop n p) ∙ ap (λ q. b.buf ++ q) (take-append-drop n p) in
    subst (λ r. Leaves r (put_rest (drop n p) f.0))
      (sym (write-append (b.buf ++ take n p) (drop n p) b.out) ∙ ap (λ q. write q b.out) whole)
      (rest-Leaves (drop n p) b1 f.0 f.1 (write b1.buf b1.out) (flush-Flushed b1 fine))

pub buf_write-Leaves :
    (p : Bytes) (b : BufWriter)
    → b.failed ≡ false
    → Leaves (write (b.buf ++ p) b.out) (buf_write p b)
unfolding buf_write
buf_write-Leaves p b fine =
    elim (Bool-cases
      (ltb default_buffer_size (length b.buf + length p) && not (is_empty b.buf) && not b.failed)) [
        | inl e ↦ rw e (fill_first-Leaves (default_buffer_size - length b.buf) p b fine)
        | inr e ↦ rw e (put_rest-Leaves p b fine (room e))
      ]
  where
    room :
        (ltb default_buffer_size (length b.buf + length p) && not (is_empty b.buf) && not b.failed)
          ≡ false
        → (length b.buf + length p ≤ default_buffer_size) ⊎ (b.buf ≡ [])
    room e = elim (Bool-cases (is_empty b.buf)) [
      | inl nothing ↦ inr (is_empty-true b.buf nothing)
      | inr begun ↦ inl (ground (arith, e, begun, fine))
    ]

-- Both parts of a frame.
pub put_body-Leaves :
    (body : Bytes) (r : Writer × Bool) (x : BufWriter × Bool)
    → Leaves r x
    → Leaves (write_body body r) (put_body body x)
unfolding put_body
put_body-Leaves body r (b, true) v =
    let alive : b.failed ≡ false = ground (arith, v.told) in
    let now : after b ≡ write b.buf b.out = unfold after in ground (arith, alive) in
    subst (λ q. Leaves q (buf_write body b))
      (write-append b.buf body b.out ∙ ap (write_body body) (sym now ∙ v.same))
      (buf_write-Leaves body b alive)
put_body-Leaves body r (b, false) v =
    let dead : b.failed ≡ true = ground (arith, v.told) in
    let now : after b ≡ (b.out, false) = unfold after in ground (arith, dead) in
    let stays : (b.out, false) ≡ write_body body r =
      unfold write_body in ap (write_body body) (sym now ∙ v.same) in
    record { same = now ∙ stays; told = v.told }

-- The flush at the end: the peer has what it would have.
pub flush_if-eq :
    (r : Writer × Bool) (x : BufWriter × Bool)
    → Leaves r x
    → (((flush_if x).0.out, (flush_if x).1) ≡ r)
      × ((flush_if x).1 ≡ true → ((flush_if x).0.buf ≡ []) × ((flush_if x).0.failed ≡ false))
unfolding flush_if after
flush_if-eq r (b, true) v =
    let alive : b.failed ≡ false = ground (arith, v.told) in
    let now : after b ≡ write b.buf b.out = ground (arith, alive) in
    let f = flush-Flushed b alive in
    (
      ap (λ o. (o, (flush b).1)) f.out
          ∙ ap (λ t. ((write b.buf b.out).0, t)) f.told
          ∙ sym now
          ∙ v.same,
      λ ok. (f.empty (sym f.told ∙ ok), f.failed ∙ ap not (sym f.told ∙ ok)),
    )
flush_if-eq r (b, false) v =
    let dead : b.failed ≡ true = ground (arith, v.told) in
    let now : after b ≡ (b.out, false) = ground (arith, dead) in
    (sym now ∙ v.same, λ ok. absurd (ground (arith, ok)))
