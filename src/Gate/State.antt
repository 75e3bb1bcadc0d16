-- ===== src/Gate/State.antt =====
-- The state of a gate process: internal/gate/session.go, session_manager.go, conn.go, remote.go and
-- gate.go.  A *Session is its ID, which one session has; a *Conn is its place in the heap `conns`;
-- nil is `none`.  A time.Time is the nanoseconds since Go's zero time, which is 0; a Duration is
-- nanoseconds, never negative here.  Counters of type int that start at 0 are plain numbers.
use test_go_server.Prelude.{
  ℕ, ◌-◌, ◌*◌, List, Option, none, some, Bool, true, false, insert, ◌==◌, if◌then◌else◌,
}
use test_go_server.Protocol.{Bytes, Envelope}
use test_go_server.Registry.{Registry}

pub data SessionState : Type 0 where
  init online authing authenticated offline closed : SessionState

pub data ConnType : Type 0 where
  tcp ws : ConnType

pub record Session : Type 0 where
  pub id : ℕ
  pub player_id : ℕ
  pub token : Bytes
  pub state : SessionState
  pub conn : Option ℕ
  pub last_seen : ℕ
  pub auth_start : ℕ
  pub login_window_start : ℕ
  pub login_attempts : ℕ
  pub unknown_msg_count : ℕ

-- `send_ch` is the buffered channel, `written` what the write loop has put on the transport, and
-- `last_alive_nano` the atomic lastSeen in Unix nanoseconds.
pub record Conn : Type 0 where
  pub conn_type : ConnType
  pub session_id : ℕ
  pub send_ch : List Envelope
  pub written : List Envelope
  pub closed : Bool
  pub busy_count : ℕ  -- uint32
  pub connected_at : ℕ
  pub last_alive_nano : ℕ

-- What the connection of a remote client does with a message: there is none, it takes it, or the
-- write fails.
pub data Link : Type 0 where
  down up failing : Link

-- `turns` is the environment: how many messages the write loop takes in each coming sleep of Send.
pub record Remote : Type 0 where
  pub send_ch : List Envelope
  pub link : Link
  pub wire : List Envelope
  pub retry_max : ℕ
  pub busy_count : ℕ  -- uint64
  pub drop_count : ℕ  -- uint64
  pub turns : List ℕ

pub record Config : Type 0 where
  pub heartbeat_interval : ℕ
  pub heartbeat_timeout : ℕ
  pub gc_interval : ℕ
  pub login_timeout : ℕ
  pub login_rate_limit_count : ℕ
  pub login_rate_limit_window : ℕ
  pub unknown_msg_kick_count : ℕ

pub record Stats : Type 0 where
  pub heartbeat_timeouts : ℕ  -- uint64
  pub login_timeouts : ℕ  -- uint64
  pub login_rate_limited : ℕ  -- uint64
  pub unknown_msgs : ℕ  -- uint64
  pub conn_busy : ℕ  -- uint64

-- The two handlers that the gate registers.
pub data HandlerFunc : Type 0 where
  on_resume_handler on_heartbeat_handler : HandlerFunc

pub record Gate : Type 0 where
  pub by_session : List (ℕ × Session)
  pub by_player : List (ℕ × ℕ)
  pub conns : ℕ → Conn
  pub next_conn : ℕ
  pub service_pool : Option (List Remote)
  pub next_id : ℕ  -- int64
  pub config : Config
  pub handlers : Registry HandlerFunc
  pub stats : Stats

-- What the gate calls and does not implement: HMAC-SHA256 of a key and a text, and the protobuf
-- coding of the messages in a payload.
pub record External : Type 0 where
  pub hmac_sha256 : Bytes → Bytes → Bytes
  pub marshal_session_init : ℕ → Bytes → Bytes
  pub marshal_resume_rsp : Bool → Bytes → Bytes
  pub unmarshal_resume_req : Bytes → Option (ℕ × Bytes)
  pub unmarshal_login_rsp : Bytes → Option ℕ

-- What a handler reads of the world: the clock, and crypto/rand, which may fail.
pub record World : Type 0 where
  pub now : ℕ
  pub nonce : Option Bytes

abbrev pub is_closed : SessionState → Bool
is_closed closed = true
is_closed _ = false

abbrev pub is_offline : SessionState → Bool
is_offline offline = true
is_offline _ = false

abbrev pub is_authing : SessionState → Bool
is_authing authing = true
is_authing _ = false

abbrev pub is_online : SessionState → Bool
is_online online = true
is_online _ = false

abbrev pub is_none {ℓ} : {A : Type ℓ} → Option A → Bool
is_none none = true
is_none (some a) = false

abbrev pub is_ws : ConnType → Bool
is_ws ws = true
is_ws tcp = false

-- now.Sub(t), compared only with durations that are not negative.
abbrev pub since : ℕ → ℕ → ℕ
since now t = now - t

abbrev pub unix_epoch : ℕ
unix_epoch = 62135596800 * 1000000000

abbrev pub set_conn : ℕ → Conn → Gate → Gate
set_conn c v g = record g { conns = λ j. if c == j then v else g.conns j }

abbrev pub put_session : Session → Gate → Gate
put_session s g = record g { by_session = insert s.id s g.by_session }
