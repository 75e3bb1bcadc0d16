-- ===== src/Transport/RoundTrip.antt =====
-- Reading back what was framed.
use test_go_server.Prelude.{
  ℕ, zero, suc, ◌≤◌, ◌<◌, ◌≡◌, refl, ap, ◌∙◌, List, [], ◌∷◌, ◌++◌, append_assoc, ltb, ◌&&◌, false,
  Option, none, some, if◌then◌else◌, length, length-append, take-append, drop-append, arith,
}
use test_go_server.Protocol.{Bytes, Envelope}
use test_go_server.Transport.{
  Codec, put_uint32, get_uint32, read_full, got, too_large, read_sized, read_envelope, read_all,
  frame,
}

-- The length prefix holds the number itself below 2 ^ 32.
pub get_uint32-put_uint32 : (n : ℕ) → n < 4294967296 → get_uint32 (put_uint32 n) ≡ n
unfolding get_uint32 put_uint32
get_uint32-put_uint32 n h = omega arith

length-put_uint32 : (n : ℕ) → length (put_uint32 n) ≡ 4
unfolding put_uint32
length-put_uint32 n = refl

-- A read of as many bytes as a prefix has returns that prefix and what follows.
pub read_full-append : (xs ys : Bytes) → read_full (length xs) (xs ++ ys) ≡ some (xs, ys)
unfolding read_full
read_full-append xs ys = ground (arith, length-append xs ys, take-append xs ys, drop-append xs ys)

read_full-head : (n : ℕ) (ys : Bytes) → read_full 4 (put_uint32 n ++ ys) ≡ some (put_uint32 n, ys)
read_full-head n ys = rw (← length-put_uint32 n) (read_full-append (put_uint32 n) ys)

read_envelope-frame_sized :
    (codec : Codec) (max : ℕ) (body rest : Bytes)
    → length body < 4294967296
    → read_envelope codec max (frame body ++ rest)
      ≡ read_sized codec max (length body) (body ++ rest)
unfolding read_envelope
read_envelope-frame_sized codec max body rest h =
    rw (append_assoc (put_uint32 (length body)) body rest) (
      rw (read_full-head (length body) (body ++ rest), read_envelope)
        (rw (get_uint32-put_uint32 (length body) h)))

-- What the codec's documentation promises: decoding what was encoded gives the message back.
abbrev pub Decodes : Codec → Type 0
Decodes codec =
    (env : Envelope) (body : Bytes)
    → codec.marshal env ≡ some body
    → codec.unmarshal body ≡ some env

-- Reading a frame of fewer than 2 ^ 32 bytes, with anything behind it, returns its message and
-- leaves what is behind it, unless a limit is set and the message is longer: then it is refused,
-- with its length.
pub read_envelope-frame :
    (codec : Codec) (max : ℕ) (env : Envelope) (body rest : Bytes)
    → Decodes codec
    → codec.marshal env ≡ some body
    → length body < 4294967296
    → read_envelope codec max (frame body ++ rest)
      ≡ (if ltb 0 max && ltb max (length body) then too_large (length body) else got env rest)
unfolding read_sized
read_envelope-frame codec max env body rest law m h =
    read_envelope-frame_sized codec max body rest h
    ∙ ground (arith, law env body m, read_full-append body rest)

-- An encoded message fits when the reader's limit and the length prefix admit it.
abbrev pub Fits : Codec → ℕ → Envelope → Type 0
Fits codec max env =
    (body : Bytes) × (codec.marshal env ≡ some body)
    × (length body < 4294967296)
    × ((ltb 0 max && ltb max (length body)) ≡ false)

abbrev pub AllFit : Codec → ℕ → List Envelope → Type 0
AllFit codec max [] = Unit {0}
AllFit codec max (e ∷ es) = Fits codec max e × AllFit codec max es

abbrev pub body_of : Option Bytes → Bytes
body_of none = []
body_of (some b) = b

-- The frames of a list of messages, one after the other.
abbrev pub stream : Codec → List Envelope → Bytes
stream codec [] = []
stream codec (e ∷ es) = frame (body_of (codec.marshal e)) ++ stream codec es

pub read_all-stream :
    (codec : Codec) (max fuel : ℕ) (es : List Envelope)
    → Decodes codec
    → AllFit codec max es
    → length es ≤ fuel
    → read_all fuel codec max (stream codec es) ≡ es
unfolding read_all
read_all-stream codec max zero [] law fit h = refl
read_all-stream codec max (suc fuel) [] law fit h = unfold read_envelope read_full in refl
read_all-stream codec max zero (e ∷ es) law fit h = absurd (omega arith)
read_all-stream codec max (suc fuel) (e ∷ es) law ((body, m, short, small), fit) h =
    let front = read_envelope-frame codec max e body (stream codec es) law m short in
    rw (m, read_all)
      (rw (front, read_all)
        (rw (small, read_all)
          (ap (◌∷◌ e) (read_all-stream codec max fuel es law fit (omega arith)))))
