-- ===== src/Transport/Buffered/Unbuffered.antt =====
-- The buffer makes no difference to the peer.
use test_go_server.Prelude.{
  ◌≡◌, refl, ap, subst, ◌∙◌, List, [], ◌∷◌, ◌++◌, Bool, true, false, Option, none, some, length,
  arith,
}
use test_go_server.Protocol.{Bytes, Envelope}
use test_go_server.Transport.{Codec, Writer, write, write_body, write_envelope, put_uint32}
use test_go_server.Transport.Writing.{write_all}
use test_go_server.Transport.Buffered.{
  BufWriter, new_buf_writer, buf_write, put_body, put_frame, flush_if, buffered_write_envelope,
}
use test_go_server.Transport.Buffered.Leaves.{
  Leaves, buf_write-Leaves, put_body-Leaves, flush_if-eq,
}

one :
    (codec : Codec) (env : Envelope) (b : BufWriter)
    → b.buf ≡ []
    → b.failed ≡ false
    → let r = buffered_write_envelope codec env b in
      ((r.0.out, r.1) ≡ write_envelope codec env b.out)
      × (r.1 ≡ true → (r.0.buf ≡ []) × (r.0.failed ≡ false))
unfolding buffered_write_envelope write_envelope put_frame flush_if
one codec env b empty fine = by_body (codec.marshal env)
  where
    by_body :
        (o : Option Bytes)
        → let r = flush_if (put_frame o b) in
          let straight : Writer × Bool = elim o [
            | none ↦ (b.out, false)
            | some body ↦ write_body body (write (put_uint32 (length body)) b.out)
          ] in
          ((r.0.out, r.1) ≡ straight) × (r.1 ≡ true → (r.0.buf ≡ []) × (r.0.failed ≡ false))
    by_body none = (refl, λ ok. absurd (ground (arith, ok)))
    by_body (some body) =
        let head = put_uint32 (length body) in
        let first : Leaves (write head b.out) (buf_write head b) =
          subst (λ q. Leaves (write (q ++ head) b.out) (buf_write head b)) empty
            (buf_write-Leaves head b fine) in
        flush_if-eq (write_body body (write head b.out)) (put_body body (buf_write head b))
          (put_body-Leaves body (write head b.out) (buf_write head b) first)

-- The writer's loop through the buffer: messages until the first error.
pub buffered_all : Codec → List Envelope → BufWriter → BufWriter × Bool
buffered_all codec [] b = (b, true)
buffered_all codec (e ∷ es) b =
    let (b', done) = buffered_write_envelope codec e b in
    elim done [ true ↦ buffered_all codec es b' | false ↦ (b', false) ]

all-eq :
    (codec : Codec) (es : List Envelope) (b : BufWriter)
    → b.buf ≡ []
    → b.failed ≡ false
    → let r = buffered_all codec es b in (r.0.out, r.1) ≡ write_all codec es b.out
unfolding buffered_all write_all
all-eq codec [] b empty fine = refl
all-eq codec (e ∷ es) b empty fine =
    let (same, keeps) = one codec e b empty fine in
    step (λ b' empty' fine'. all-eq codec es b' empty' fine') (buffered_write_envelope codec e b)
      (write_envelope codec e b.out) same keeps
  where
    step :
        ((b' : BufWriter)
          → b'.buf ≡ []
          → b'.failed ≡ false
          → let r = buffered_all codec es b' in (r.0.out, r.1) ≡ write_all codec es b'.out)
        → (x : BufWriter × Bool) (r : Writer × Bool) → (x.0.out, x.1) ≡ r
        → (x.1 ≡ true → (x.0.buf ≡ []) × (x.0.failed ≡ false))
        → let y : BufWriter × Bool = elim x.1 [
          | true ↦ buffered_all codec es x.0
          | false ↦ (x.0, false)
        ] in
          let z : Writer × Bool = elim r.1 [
            | true ↦ write_all codec es r.0
            | false ↦ (r.0, false)
          ] in
          (y.0.out, y.1) ≡ z
    step rest (b', true) r same keeps =
        let (empty', fine') = keeps refl in
        rest b' empty' fine'
        ∙ ap (λ r. elim r.1 [ true ↦ write_all codec es r.0 | false ↦ (r.0, false) ]) same
    step rest (b', false) r same keeps =
        ap (λ r. elim r.1 [ true ↦ write_all codec es r.0 | false ↦ (r.0, false) ]) same

-- Messages of whatever sizes that are written through a fresh bufio.Writer, up to the first error,
-- leave the connection as those do that are written straight to it: the peer has the same bytes, the
-- connection the same room, and there is an error in the one case just when there is in the other.
pub buffered_all-write_all :
    (codec : Codec) (es : List Envelope) (w : Writer)
    → let r = buffered_all codec es (new_buf_writer w) in (r.0.out, r.1) ≡ write_all codec es w
unfolding new_buf_writer
buffered_all-write_all codec es w = all-eq codec es (new_buf_writer w) refl refl
