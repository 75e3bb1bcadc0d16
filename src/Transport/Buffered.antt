-- ===== src/Transport/Buffered.antt =====
-- internal/transport/buffered_conn.go: frames through a bufio.Writer, which is flushed after each.
-- The bufio.Writer is that of the standard library: once a write of it has failed, it fails for ever.
pub mod Leaves
pub mod Unbuffered
use test_go_server.Prelude.{
  ℕ, suc, ◌+◌, ◌-◌, ◌*◌, List, [], ◌∷◌, ◌++◌, Bool, true, false, ◌&&◌, not, ltb, Option, none, some,
  if◌then◌else◌, length, take, drop, is_empty,
}
use test_go_server.Protocol.{Bytes, Envelope}
use test_go_server.Transport.{Codec, Writer, write, put_uint32}

abbrev pub default_buffer_size : ℕ
default_buffer_size = 4 * 1024 * 1024

-- A bufio.Writer: what waits in its buffer, whether it has failed, and what it writes to.
pub record BufWriter : Type 0 where
  pub buf : Bytes
  pub failed : Bool
  pub out : Writer

-- NewBufferedConnWithOptions, as to its writer.
unfoldable pub new_buf_writer : Writer → BufWriter
new_buf_writer w = record { buf = []; failed = false; out = w }

flushed : Writer → BufWriter → Writer × Bool → BufWriter × Bool
flushed before b (w, true) = (record b { buf = []; out = w }, true)
flushed before b (w, false) =
    (record b { buf = drop before.room b.buf; failed = true; out = w }, false)

-- bufio.Writer.Flush
unfoldable pub flush : BufWriter → BufWriter × Bool
unfolding flushed write
flush b =
    if b.failed
    then (b, false)
    else if is_empty b.buf
    then (b, true)
    else flushed b.out b (write b.buf b.out)

direct : BufWriter → Writer × Bool → BufWriter × Bool
direct b (w, ok) = (record b { failed = not ok; out = w }, ok)

-- The rest of a write, for which the buffer has room or is empty.
put_rest : Bytes → BufWriter → BufWriter × Bool
unfolding direct write
put_rest p b =
    if b.failed
    then (b, false)
    else if ltb default_buffer_size (length b.buf + length p)
    then direct b (write p b.out)
    else (record b { buf = b.buf ++ p }, true)

fill_first : ℕ → Bytes → BufWriter → BufWriter × Bool
unfolding put_rest flush
fill_first n p b = put_rest (drop n p) (flush (record b { buf = b.buf ++ take n p })).0

-- bufio.Writer.Write: its loop fills and flushes a buffer that is begun, once, and then writes a rest
-- that is still too long past the buffer.
unfoldable pub buf_write : Bytes → BufWriter → BufWriter × Bool
unfolding put_rest fill_first
buf_write p b =
    if ltb default_buffer_size (length b.buf + length p) && not (is_empty b.buf) && not b.failed
    then fill_first (default_buffer_size - length b.buf) p b
    else put_rest p b

pub put_body : Bytes → BufWriter × Bool → BufWriter × Bool
unfolding buf_write
put_body body (b, false) = (b, false)
put_body body (b, true) = buf_write body b

put_frame : Option Bytes → BufWriter → BufWriter × Bool
unfolding put_body
put_frame none b = (b, false)
put_frame (some body) b = put_body body (buf_write (put_uint32 (length body)) b)

pub flush_if : BufWriter × Bool → BufWriter × Bool
flush_if (b, false) = (b, false)
flush_if (b, true) = flush b

-- BufferedConn.WriteEnvelope
unfoldable pub buffered_write_envelope : Codec → Envelope → BufWriter → BufWriter × Bool
unfolding put_frame flush_if
buffered_write_envelope codec env b = flush_if (put_frame (codec.marshal env) b)
