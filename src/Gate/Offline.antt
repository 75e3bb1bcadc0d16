-- ===== src/Gate/Offline.antt =====
-- internal/gate/sender.go, notify.go and the closing of sessions in gate.go and conn.go.
pub mod Effect
pub mod Stamping
use test_go_server.Prelude.{
  ℕ, List, [], ◌∷◌, Option, none, some, Bool, true, false, not, ◌&&◌, ◌==◌, if◌then◌else◌,
}
use test_go_server.Protocol.{
  Envelope, Error, session_not_found, msg_player_offline_notify, msg_player_resume_req,
}
use test_go_server.Router.{ModuleName, no_module}
use test_go_server.Gate.State.{
  Session, Gate, Remote, World, offline, is_closed, is_offline, is_none, put_session,
}
use test_go_server.Gate.Sessions.{get}
use test_go_server.Gate.Remote.{pool_send}
use test_go_server.Gate.Conn.{close}

-- env.PlayerId is that of the session which the envelope names.
stamp : Option Session → Envelope → Envelope
stamp none env = env
stamp (some s) env = record env { player_id = s.player_id }

send_stamped : Envelope → Option (List Remote) → Gate → Gate
send_stamped env none g = g
send_stamped env (some pool) g = record g {
  service_pool = some (pool_send env.session_id env pool).0;
}

-- Gate.sendToService; the module is not used.  An error is only logged.
unfoldable pub send_to_service : ModuleName → Envelope → Gate → Gate
unfolding stamp send_stamped get
send_to_service m env g = send_stamped (stamp (get env.session_id g) env) g.service_pool g

-- Gate.sendToGame
unfoldable pub send_to_game : Envelope → Gate → Gate
send_to_game env g = send_to_service no_module env g

abbrev pub player_note : ℕ → Session → Envelope
player_note msg s = record {
  msg_id = msg;
  session_id = s.id;
  player_id = s.player_id;
  payload = [];
}

-- Gate.notifyPlayerResume
unfoldable pub notify_player_resume : Session → Gate → Gate
unfolding send_to_game
notify_player_resume s g =
    if s.player_id == 0 then g else send_to_game (player_note msg_player_resume_req s) g

-- Gate.notifyPlayerOffline
unfoldable pub notify_player_offline : Session → Gate → Gate
unfolding send_to_game
notify_player_offline s g =
    if s.player_id == 0 then g else send_to_game (player_note msg_player_offline_notify s) g

unfoldable pub close_opt : Option ℕ → Gate → Gate
unfolding close
close_opt none g = g
close_opt (some c) g = close c g

-- The session as it goes offline.
abbrev pub gone : ℕ → Session → Session
gone now s = record s { conn = none; last_seen = now; state = offline }

-- Gate.onSessionOffline
unfoldable pub on_session_offline : ℕ → Session → Gate → Gate
unfolding notify_player_offline close_opt
on_session_offline now s g =
    if is_closed s.state
    then g
    else if is_offline s.state && is_none s.conn
    then g
    else let g1 = put_session (gone now s) (close_opt s.conn g) in
      if is_offline s.state then g1 else notify_player_offline (gone now s) g1

kick_session : ℕ → Option Session → Gate → Gate × Option Error
unfolding on_session_offline
kick_session now none g = (g, some session_not_found)
kick_session now (some s) g =
    if is_none s.conn then (g, some session_not_found) else (on_session_offline now s g, none)

-- Gate.Kick
unfoldable pub kick : ℕ → ℕ → Gate → Gate × Option Error
unfolding kick_session get
kick now id g = kick_session now (get id g) g

conn_lost : ℕ → Option Session → Gate → Gate
unfolding notify_player_offline
conn_lost now none g = g
conn_lost now (some s) g = notify_player_offline (gone now s) (put_session (gone now s) g)

-- Gate.onConnClose, when the read loop of a connection ends.
unfoldable pub on_conn_close : ℕ → ℕ → Gate → Gate
unfolding conn_lost get
on_conn_close now c g = conn_lost now (get (g.conns c).session_id g) g
