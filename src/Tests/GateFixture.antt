-- ===== src/Tests/GateFixture.antt =====
-- A gate with two sessions and three connections.
use test_go_server.Prelude.{
  ℕ, refl, List, [], ◌∷◌, Option, none, some, false, ◌==◌, if◌then◌else◌, arith, lookup,
}
use test_go_server.Protocol.{Bytes}
use test_go_server.Gate.State.{
  tcp, SessionState, online, authenticated, offline, Session, Conn, Config, Gate, External, World,
  put_session,
}
use test_go_server.Gate.Token.{sign_resume_token}
use test_go_server.Gate.Invariant.Defs.{Good, Inv, Inv-put}
use test_go_server.Gate.Invariant.Login.{Good-bound}

abbrev pub decode_resume : Bytes → Option (ℕ × Bytes)
decode_resume [] = none
decode_resume (id ∷ token) = some (id, token)

abbrev pub decode_login : Bytes → Option ℕ
decode_login [] = none
decode_login (player ∷ rest) = some player

-- A stand-in for the cryptography and the codecs.
abbrev pub toy : External
toy = record {
  hmac_sha256 = λ key text. text;
  marshal_session_init = λ id token. id ∷ token;
  marshal_resume_rsp = λ ok reason. reason;
  unmarshal_resume_req = decode_resume;
  unmarshal_login_rsp = decode_login;
}

abbrev pub world : World
world = record { now = 1000; nonce = some (5 ∷ []) }

abbrev pub session : ℕ → ℕ → SessionState → Option ℕ → ℕ → Session
session id player st c seen = record {
  id = id;
  player_id = player;
  token = sign_resume_token toy world id;
  state = st;
  conn = c;
  last_seen = seen;
  auth_start = 0;
  login_window_start = 0;
  login_attempts = 0;
  unknown_msg_count = 0;
}

abbrev pub alice : Session
alice = session 1 7 authenticated (some 0) 900

abbrev pub guest : Session
guest = session 2 0 online (some 1) 900

abbrev pub left : Session
left = session 3 8 offline none 100

abbrev pub conn_of : ℕ → Conn
conn_of id = record {
  conn_type = tcp;
  session_id = id;
  send_ch = [];
  written = [];
  closed = false;
  busy_count = 0;
  connected_at = 400;
  last_alive_nano = 0;
}

abbrev pub settings : Config
settings = record {
  heartbeat_interval = 100;
  heartbeat_timeout = 300;
  gc_interval = 600;
  login_timeout = 100;
  login_rate_limit_count = 2;
  login_rate_limit_window = 50;
  unknown_msg_kick_count = 3;
}

abbrev pub empty_gate : List (ℕ × ℕ) → Gate
empty_gate players = record {
  by_session = [];
  by_player = players;
  conns = λ c. if c == 0 then conn_of 1 else if c == 1 then conn_of 2 else conn_of 0;
  next_conn = 3;
  service_pool = none;
  next_id = 3;
  config = settings;
  handlers = [];
  stats = record {
    heartbeat_timeouts = 0;
    login_timeouts = 0;
    login_rate_limited = 0;
    unknown_msgs = 0;
    conn_busy = 0;
  };
}

abbrev pub gate : Gate
gate = put_session guest (put_session alice (empty_gate ((7, 1) ∷ [])))

-- The player 7 was on session 3 before, and is on session 1 now.
abbrev pub stale_gate : Gate
stale_gate =
    put_session (record left { player_id = 7 }) (put_session alice (empty_gate ((7, 1) ∷ [])))

pub alice-Good : Good (empty_gate ((7, 1) ∷ [])) 1 alice
alice-Good =
    Good-bound _ 0 alice (omega arith) (ground arith) (ground arith) (ground arith) refl refl
      (omega arith)

pub empty_gate-Inv : Inv (empty_gate ((7, 1) ∷ []))
unfolding lookup
empty_gate-Inv = record { good = λ k s e. cc }

pub gate-Inv : Inv gate
gate-Inv =
    Inv-put (put_session alice (empty_gate ((7, 1) ∷ []))) guest
      (Inv-put (empty_gate ((7, 1) ∷ [])) alice empty_gate-Inv alice-Good)
      (Good-bound _ 1 guest (omega arith) (ground arith) (ground arith) (ground arith) refl refl
        (omega arith))
