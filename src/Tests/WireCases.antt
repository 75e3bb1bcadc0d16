-- ===== src/Tests/WireCases.antt =====
-- Frames, and the pool of clients.
use Prim.{tt}
use test_go_server.Prelude.{
  ap, sym, ◌≡◌, refl, [], ◌∷◌, Option, none, some, true, arith, ◌==◌, if◌then◌else◌, Bool-cases,
  inl, inr, length, take,
}
use test_go_server.Protocol.{Bytes, Envelope}
use test_go_server.Transport.{Codec, Writer, read_all, write_envelope, write, put_uint32}
use test_go_server.Transport.RoundTrip.{Decodes, body_of}
use test_go_server.Transport.Writing.{write_all, read_all-write_all}
use test_go_server.Transport.Buffered.{new_buf_writer}
use test_go_server.Transport.Buffered.Unbuffered.{buffered_all, buffered_all-write_all}
use test_go_server.Transport.WebSocket.{Codecs, new_ws_conn, write_loop, read_loop}
use test_go_server.Transport.WebSocket.Mixed.{read_loop-write_loop}
use test_go_server.Gate.State.{Remote, up}
use test_go_server.Gate.Remote.{send}
use test_go_server.Gate.Remote.Order.{Sends, send-Sends}

abbrev hello : Envelope
hello = record { msg_id = 3001; session_id = 2; player_id = 7; payload = 1 ∷ 2 ∷ [] }

abbrev encode : Envelope → Option Bytes
encode env = some (env.msg_id ∷ env.session_id ∷ env.player_id ∷ env.payload)

abbrev decode : Bytes → Option Envelope
decode (m ∷ s ∷ p ∷ rest) =
    some (record { msg_id = m; session_id = s; player_id = p; payload = rest })
decode _ = none

-- A stand-in for the protobuf coding.
abbrev toy_codec : Codec
toy_codec = record { marshal = encode; unmarshal = decode }

toy_codec-Decodes : Decodes toy_codec
toy_codec-Decodes env body e = ap decode (ap body_of (sym e))

two_written :
    (write_all toy_codec (hello ∷ hello ∷ []) (record { written = []; room = 100 })).1 ≡ true
unfolding write_all write_envelope write put_uint32
two_written = refl

read_all-write_all_example :
    read_all 2 toy_codec 100
      (write_all toy_codec (hello ∷ hello ∷ []) (record { written = []; room = 100 })).0.written
    ≡ hello ∷ hello ∷ []
read_all-write_all_example =
    read_all-write_all toy_codec 100 2 100 (hello ∷ hello ∷ []) toy_codec-Decodes
      (
        (3001 ∷ 2 ∷ 7 ∷ 1 ∷ 2 ∷ [], refl, omega arith, refl),
        ((3001 ∷ 2 ∷ 7 ∷ 1 ∷ 2 ∷ [], refl, omega arith, refl), tt),
      )
      (omega arith) two_written

abbrev remote : Remote
remote = record {
  send_ch = [];
  link = up;
  wire = hello ∷ [];
  retry_max = 2;
  busy_count = 0;
  drop_count = 0;
  turns = [];
}

send-Sends_example : Sends hello remote (send hello remote)
send-Sends_example = send-Sends hello remote refl (omega arith)

-- A connection that takes one message and a part of the next.
abbrev narrow : Writer
narrow = record { written = []; room = 12 }

buffered_all-write_all_example :
    let r = buffered_all toy_codec (hello ∷ hello ∷ hello ∷ []) (new_buf_writer narrow) in
    (r.0.out, r.1) ≡ write_all toy_codec (hello ∷ hello ∷ hello ∷ []) narrow
buffered_all-write_all_example =
    buffered_all-write_all toy_codec (hello ∷ hello ∷ hello ∷ []) narrow

-- A stand-in for the JSON coding, which refuses a message without a number.
abbrev to_json : Envelope → Option Bytes
to_json env = if env.msg_id == 0 then none else some (b'{' ∷ body_of (encode env))

abbrev of_json : Bytes → Option Envelope
of_json [] = none
of_json (c ∷ s) = decode s

abbrev toy_codecs : Codecs
toy_codecs = record { json = record { marshal = to_json; unmarshal = of_json }; proto = toy_codec }

toy_json-Decodes : Decodes (record { marshal = to_json; unmarshal = of_json })
toy_json-Decodes env body e = elim (Bool-cases (env.msg_id == 0)) [
  | inl none_such ↦ absurd (ground (arith, e, none_such))
  | inr some_such ↦
      let same : some (b'{' ∷ body_of (encode env)) ≡ some body = ground (arith, e, some_such) in
      ap of_json (ap body_of (sym same))
]

abbrev nameless : Envelope
nameless = record hello { msg_id = 0 }

read_loop-write_loop_example :
    let r = write_loop toy_codecs (hello ∷ nameless ∷ hello ∷ []) (new_ws_conn true []) in
    (read_loop toy_codecs r.0.written ≡ take (length r.0.written) (hello ∷ nameless ∷ hello ∷ []))
    × (r.1 ≡ (length r.0.written == 3))
unfolding new_ws_conn
read_loop-write_loop_example =
    read_loop-write_loop toy_codecs toy_json-Decodes toy_codec-Decodes
      (hello ∷ nameless ∷ hello ∷ []) (new_ws_conn true []) refl
