-- ===== src/Transport.antt =====
-- internal/transport/envelope.go and buffered_conn.go: envelopes framed by a big-endian length.
-- A reader is the list of bytes that the peer sent; a writer is what it has taken and how many
-- bytes it will still take before it fails.  Deadlines are not modelled.
pub mod RoundTrip
pub mod Writing
pub mod Buffered
pub mod WebSocket
use test_go_server.Prelude.{
  ℕ, zero, suc, ◌+◌, ◌-◌, ◌*◌, ◌/◌, ◌%◌, List, [], ◌∷◌, ◌++◌, Bool, true, false, ◌&&◌, ltb, leb,
  ◌==◌, Option, none, some, if◌then◌else◌, length, take, drop,
}
use test_go_server.Protocol.{Bytes, Envelope}

abbrev pub default_max_envelope_size : ℕ
default_max_envelope_size = 4 * 1024 * 1024

-- The package variable maxEnvelopeSize after the call.
unfoldable pub set_max_envelope_size : ℕ → ℕ
set_max_envelope_size size = if size == 0 then default_max_envelope_size else size

-- proto.Marshal and proto.Unmarshal at Envelope.
pub record Codec : Type 0 where
  pub marshal : Envelope → Option Bytes
  pub unmarshal : Bytes → Option Envelope

-- uint32(n) in big-endian order.
unfoldable pub put_uint32 : ℕ → Bytes
put_uint32 n = n / 16777216 % 256 ∷ n / 65536 % 256 ∷ n / 256 % 256 ∷ n % 256 ∷ []

unfoldable pub get_uint32 : Bytes → ℕ
get_uint32 (a ∷ b ∷ c ∷ d ∷ r) = a * 16777216 + b * 65536 + c * 256 + d
get_uint32 _ = 0

-- io.ReadFull of n bytes: the bytes and the rest of the stream, or an error when it ends before.
unfoldable pub read_full : ℕ → Bytes → Option (Bytes × Bytes)
read_full n s = if ltb (length s) n then none else some (take n s, drop n s)

pub data ReadResult : Type 0 where
  got : Envelope → Bytes → ReadResult
  end_of_stream : ReadResult
  too_large : ℕ → ReadResult
  malformed : ReadResult

decoded : Option Envelope → Bytes → ReadResult
decoded none rest = malformed
decoded (some env) rest = got env rest

read_body : Codec → ℕ → Bytes → ReadResult
unfolding decoded
read_body codec size s = elim (read_full size s) [
  | none ↦ end_of_stream
  | some (body, rest) ↦ decoded (codec.unmarshal body) rest
]

read_sized : Codec → ℕ → ℕ → Bytes → ReadResult
unfolding read_body
read_sized codec max size s =
    if ltb 0 max && ltb max size then too_large size else read_body codec size s

-- readEnvelope, with the maxEnvelopeSize in force.
unfoldable pub read_envelope : Codec → ℕ → Bytes → ReadResult
unfolding read_sized
read_envelope codec max s = elim (read_full 4 s) [
  | none ↦ end_of_stream
  | some (head, rest) ↦ read_sized codec max (get_uint32 head) rest
]

-- The read loops of the program: envelopes until the first error, on fuel for the rounds.
unfoldable pub read_all : ℕ → Codec → ℕ → Bytes → List Envelope
read_all zero codec max s = []
read_all (suc fuel) codec max s = elim (read_envelope codec max s) [
  | got env rest ↦ env ∷ read_all fuel codec max rest
  | _ ↦ []
]

pub record Writer : Type 0 where
  pub written : Bytes
  pub room : ℕ

-- io.Writer.Write: true is a nil error; a short write is an error.
unfoldable pub write : Bytes → Writer → Writer × Bool
write bs w =
    if leb (length bs) w.room
    then (record w { written = w.written ++ bs; room = w.room - length bs }, true)
    else (record w { written = w.written ++ take w.room bs; room = 0 }, false)

pub write_body : Bytes → Writer × Bool → Writer × Bool
unfolding write
write_body body (w, false) = (w, false)
write_body body (w, true) = write body w

-- writeEnvelope
unfoldable pub write_envelope : Codec → Envelope → Writer → Writer × Bool
unfolding write_body
write_envelope codec env w = elim (codec.marshal env) [
  | none ↦ (w, false)
  | some body ↦ write_body body (write (put_uint32 (length body)) w)
]

-- The bytes that stand for an encoded message on the wire.
abbrev pub frame : Bytes → Bytes
frame body = put_uint32 (length body) ++ body
