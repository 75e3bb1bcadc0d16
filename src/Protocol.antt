-- ===== src/Protocol.antt =====
-- internal/protocol: message numbers, platforms, error values, and the envelope of the wire
-- (message Envelope of Server/internal/protocol/proto/internal.proto).
-- An int32 or int64 value is a number: its bit pattern.  Message numbers are only compared with
-- constants between 0 and 4000, where the signed and the unsigned order agree.
use test_go_server.Prelude.{ℕ, List, ◌+◌, ◌%◌}

abbrev pub Bytes : Type 0
Bytes = List ℕ

pub record Envelope : Type 0 where
  pub msg_id : ℕ  -- int32
  pub session_id : ℕ  -- int64
  pub player_id : ℕ  -- int64
  pub payload : Bytes

pub data Error : Type 0 where
  invalid_session invalid_token conn_closed remote_not_ready no_gate_connection : Error
  unknown_platform game_router_not_ready game_router_busy remote_busy : Error
  session_not_found conn_busy already_registered : Error

-- internal/protocol/msgid.go
abbrev pub msg_resume_req : ℕ
msg_resume_req = 1

abbrev pub msg_resume_rsp : ℕ
msg_resume_rsp = 2

abbrev pub msg_session_init : ℕ
msg_session_init = 3

abbrev pub msg_heartbeat_req : ℕ
msg_heartbeat_req = 10

abbrev pub msg_heartbeat_rsp : ℕ
msg_heartbeat_rsp = 11

abbrev pub msg_error_rsp : ℕ
msg_error_rsp = 21

abbrev pub msg_service_ping : ℕ
msg_service_ping = 31

abbrev pub msg_service_pong : ℕ
msg_service_pong = 32

abbrev pub msg_login_begin : ℕ
msg_login_begin = 1000

abbrev pub msg_login_req : ℕ
msg_login_req = 1001

abbrev pub msg_login_rsp : ℕ
msg_login_rsp = 1002

abbrev pub msg_login_end : ℕ
msg_login_end = 2000

abbrev pub msg_chat_begin : ℕ
msg_chat_begin = 2000

abbrev pub msg_chat_end : ℕ
msg_chat_end = 3000

abbrev pub msg_game_begin : ℕ
msg_game_begin = 3000

abbrev pub msg_player_enter_game_req : ℕ
msg_player_enter_game_req = 3001

abbrev pub msg_player_enter_game_rsp : ℕ
msg_player_enter_game_rsp = 3002

abbrev pub msg_load_player_data_req : ℕ
msg_load_player_data_req = 3003

abbrev pub msg_load_player_data_rsp : ℕ
msg_load_player_data_rsp = 3004

abbrev pub msg_player_resume_req : ℕ
msg_player_resume_req = 3005

abbrev pub msg_player_offline_notify : ℕ
msg_player_offline_notify = 3006

abbrev pub msg_game_end : ℕ
msg_game_end = 4000

-- Atomic counters wrap around.
abbrev pub inc32 : ℕ → ℕ
inc32 n = (n + 1) % 4294967296

abbrev pub inc64 : ℕ → ℕ
inc64 n = (n + 1) % 18446744073709551616
