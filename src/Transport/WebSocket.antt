-- ===== src/Transport/WebSocket.antt =====
-- internal/transport/ws_conn.go: envelopes as the messages of a websocket, in JSON or protobuf.  The
-- websocket library is a connection that takes messages while it is up, and gives those that came.
pub mod Mixed
use test_go_server.Prelude.{
  ℕ, List, [], ◌∷◌, ◌++◌, Option, none, some, Bool, true, false, if◌then◌else◌,
}
use test_go_server.Protocol.{Bytes, Envelope}
use test_go_server.Transport.{Codec}

-- websocket.TextMessage and websocket.BinaryMessage, the types that ReadMessage gives.
pub data MessageType : Type 0 where
  text_message binary_message : MessageType

-- protojson and proto at Envelope.
pub record Codecs : Type 0 where
  pub json : Codec
  pub proto : Codec

-- WSConn; `incoming` is what ReadMessage will give before it fails.
pub record WsConn : Type 0 where
  pub use_json : Bool
  pub incoming : List (MessageType × Bytes)
  pub written : List (MessageType × Bytes)
  pub up : Bool

-- NewWSConn, on a connection that is up.
unfoldable pub new_ws_conn : Bool → List (MessageType × Bytes) → WsConn
new_ws_conn use_json incoming = record {
  use_json = use_json;
  incoming = incoming;
  written = [];
  up = true;
}

decode : Codecs → MessageType × Bytes → Option Envelope
decode x (text_message, text) = x.json.unmarshal text
decode x (binary_message, text) = x.proto.unmarshal text

read_message : Codecs → List (MessageType × Bytes) → WsConn → WsConn × Option Envelope
unfolding decode
read_message x [] c = (c, none)
read_message x (m ∷ ms) c = (record c { incoming = ms }, decode x m)

-- WSConn.ReadEnvelope: the type of the message tells the coding; none is an error.
unfoldable pub read_envelope : Codecs → WsConn → WsConn × Option Envelope
unfolding read_message
read_envelope x c = read_message x c.incoming c

write_message : MessageType → Option Bytes → WsConn → WsConn × Bool
write_message t none c = (c, false)
write_message t (some text) c =
    if c.up then (record c { written = c.written ++ (t, text) ∷ [] }, true) else (c, false)

-- WSConn.WriteEnvelope: the connection's setting decides the coding; false is an error.
unfoldable pub write_envelope : Codecs → Envelope → WsConn → WsConn × Bool
unfolding write_message
write_envelope x env c =
    if c.use_json
    then write_message text_message (x.json.marshal env) c
    else write_message binary_message (x.proto.marshal env) c

-- WSConn.Close
unfoldable pub close : WsConn → WsConn
close c = record c { up = false }

-- The read loop of a connection: envelopes until the first error.
unfoldable pub read_loop : Codecs → List (MessageType × Bytes) → List Envelope
unfolding decode
read_loop x [] = []
read_loop x (m ∷ ms) =
    let rest = read_loop x ms in elim (decode x m) [ none ↦ [] | some env ↦ env ∷ rest ]

-- The write loop: envelopes until the first error, and how many were written.
unfoldable pub write_loop : Codecs → List Envelope → WsConn → WsConn × Bool
write_loop x [] c = (c, true)
write_loop x (env ∷ es) c =
    let (c1, fine) = write_envelope x env c in
    let rest = write_loop x es c1 in if fine then rest else (c1, false)
