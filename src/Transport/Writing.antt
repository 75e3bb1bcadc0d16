-- ===== src/Transport/Writing.antt =====
-- What a write leaves on the stream.
use test_go_server.Prelude.{
  ℕ, ◌≤◌, ◌≡◌, sym, List, [], ◌∷◌, ◌++◌, append_assoc, append-nil, Bool, true, false, some, length,
  take, arith, ◌⊎◌, inl, inr, Bool-cases, Option-cases,
}
use test_go_server.Protocol.{Bytes, Envelope}
use test_go_server.Transport.{Codec, put_uint32, Writer, write, write_envelope, read_all, frame}
use test_go_server.Transport.RoundTrip.{Decodes, AllFit, stream, read_all-stream}

-- A write that fits appends exactly its bytes; one that does not appends a prefix and fails.
pub write-prefix :
    (bs : Bytes) (w : Writer)
    → ((write bs w).0.written ≡ w.written ++ take w.room bs)
      ⊎ (((write bs w).0.written ≡ w.written ++ bs) × (length bs ≤ w.room))
unfolding write
write-prefix bs w = ground arith

write-true :
    (bs : Bytes) (w : Writer) → (write bs w).1 ≡ true → ((write bs w).0.written ≡ w.written ++ bs)
unfolding write
write-true bs w h = ground arith

-- A message is written without an error only as its whole frame.
pub write_envelope-true :
    (codec : Codec) (env : Envelope) (w : Writer)
    → (write_envelope codec env w).1 ≡ true
    → (body : Bytes) × (codec.marshal env ≡ some body)
      × ((write_envelope codec env w).0.written ≡ w.written ++ frame body)
unfolding write_envelope
write_envelope-true codec env w h = elim (Option-cases (codec.marshal env)) [
  | inl e ↦ ground arith
  | inr (body, e) ↦
      (body, e, ground (arith, append_assoc w.written (put_uint32 (length body)) body))
]

-- The writer's loop: messages until the first error.
unfoldable pub write_all : Codec → List Envelope → Writer → Writer × Bool
write_all codec [] w = (w, true)
write_all codec (e ∷ es) w =
    let (w', done) = write_envelope codec e w in
    elim done [ true ↦ write_all codec es w' | false ↦ (w', false) ]

pub write_all-true :
    (codec : Codec) (es : List Envelope) (w : Writer)
    → (write_all codec es w).1 ≡ true
    → (write_all codec es w).0.written ≡ w.written ++ stream codec es
unfolding write_all
write_all-true codec [] w h = sym (append-nil w.written)
write_all-true codec (e ∷ es) w h = elim (Bool-cases (write_envelope codec e w).1) [
  | inl ok ↦
      let (body, m, whole) = write_envelope-true codec e w ok in
      let rest : (write_all codec es (write_envelope codec e w).0).1 ≡ true = ground arith in
      ground (
        arith,
        write_all-true codec es (write_envelope codec e w).0 rest,
        append_assoc w.written (frame body) (stream codec es),
      )
  | inr fail ↦ ground arith
]

-- Messages that were written without an error on a fresh connection, each of which the reader's
-- limit admits, are read back as they were and in their order, given at least one round for each.
pub read_all-write_all :
    (codec : Codec) (max fuel room : ℕ) (es : List Envelope)
    → Decodes codec
    → AllFit codec max es
    → length es ≤ fuel
    → (write_all codec es (record { written = []; room = room })).1 ≡ true
    → read_all fuel codec max (write_all codec es (record { written = []; room = room })).0.written
      ≡ es
read_all-write_all codec max fuel room es law fit h ok =
    rw (write_all-true codec es (record { written = []; room = room }) ok)
      (read_all-stream codec max fuel es law fit h)
