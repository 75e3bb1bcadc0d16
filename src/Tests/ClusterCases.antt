-- ===== src/Tests/ClusterCases.antt =====
-- A client connects and logs in, through a gate, a service and a game process.
use test_go_server.Prelude.{
  ℕ, ◌<◌, ◌^◌, ◌≡◌, refl, sym, subst, ◌∙◌, false, List, [], ◌∷◌, Option, none, some, arith, lookup,
  insert, ap,
}
use test_go_server.Protocol.{Envelope}
use test_go_server.Gate.State.{tcp, SessionState, authenticated, offline, Session}
use test_go_server.Gate.System.{connected, received, new_gate}
use test_go_server.Game.Player.{Marshal}
use test_go_server.PlayerDb.{load_role_id, save_role_id, save_profile}
use test_go_server.Service.Login.{resolve_role_id}
use test_go_server.Service.Dispatch.Outcome.{account_of}
use test_go_server.Service.Dispatch.Outcome.Granting.{LogsIn}
use test_go_server.Service.NetServer.{accept, reply_to_gate, note_session}
use test_go_server.Service.Dispatch.{dispatch_envelope}
use test_go_server.Service.Modules.{service_registry, new_registry}
use test_go_server.Registry.{register}
use test_go_server.Text.{bytes_eq, hex_encode, format_int64}
use test_go_server.Redis.Dao.{next_uid}
use test_go_server.Gate.Login.{on_service_envelope, on_login_rsp, allow_login}
use test_go_server.Gate.Conn.{reply, new_conn}
use test_go_server.Gate.Handler.{on_envelope}
use test_go_server.Gate.Offline.{send_to_service, kick}
use test_go_server.Gate.Token.{sign_resume_token}
use test_go_server.Redis.Keys.{account_role_key, player_profile_key}
use test_go_server.Text.Decimal.{parse_int64}
use test_go_server.Cluster.{Parts, Event, at_gate, linked, arrived, delivered, run, start, step}
use test_go_server.Cluster.Safety.{Login, now, later, Reads}
use test_go_server.Cluster.Authentication.{run-Login}
use test_go_server.Cluster.Storing.{redis_parts, account}
use test_go_server.Cluster.Accounts.{run-account}
use test_go_server.Tests.RedisCases.{
  Texts, toy_client, toy_json, empty_db, toy_client-Sets, toy_client-Counts,
}
use test_go_server.Tests.GateFixture.{toy, world}
use test_go_server.Tests.ProcessCases.{toy_coder, toy_login, toy_process, request, first_id}

abbrev toy_marshal : Marshal
toy_marshal = record { player_init_rsp = λ d. []; load_player_data_rsp = λ d. [] }

abbrev toy_parts : Parts Texts
toy_parts = redis_parts toy toy_coder toy_marshal toy_client toy_json

abbrev login_env : ℕ → Envelope
login_env id = record { msg_id = 1001; session_id = id; player_id = 0; payload = b'x' ∷ [] }

abbrev first_login : List Event
first_login =
    at_gate world (connected tcp)
    ∷ at_gate world (received 0 (login_env 0))
    ∷ linked
    ∷ arrived 1 (login_env 1)
    ∷ delivered world 1 0
    ∷ []

abbrev kept : Option Session
kept = lookup 1 (run toy_parts first_login (start toy_process)).gate.by_session

toy-Reads : Reads toy_parts
toy-Reads = record { back = λ player lt. refl }

-- The token is "05.", and the ID and the nonce in hexadecimal.
abbrev session : ℕ → ℕ → SessionState → Option ℕ → Session
session id digit st conn = record {
  id = id;
  player_id = 1;
  token = 48 ∷ 53 ∷ 46 ∷ 51 ∷ digit ∷ 51 ∷ 97 ∷ 51 ∷ 48 ∷ 51 ∷ 53 ∷ [];
  state = st;
  conn = conn;
  last_seen = 1000;
  auth_start = 0;
  login_window_start = 1000;
  login_attempts = 1;
  unknown_msg_count = 0;
}

abbrev logged_in : Session
logged_in = session 1 49 authenticated (some 0)

first_player :
    (player : ℕ) → LogsIn toy_coder toy_login (login_env 1) empty_db player → player < 2 ^ 64
first_player player l =
    let fits : 1 < 2 ^ 64 = omega arith in
    let same : some request ≡ some l.request = l.decoded in
    let asked : request ≡ l.request = ground (arith, same) in
    let resolved : some (1, false) ≡ some (player, l.old) =
      sym first_id
      ∙ ap (λ r. (resolve_role_id toy_login (account_of r) empty_db).1) asked
      ∙ l.resolved in
    let one : 1 ≡ player = ground (arith, resolved) in subst (λ i. i < 2 ^ 64) one fits

first_fits :
    (id player : ℕ) → Login toy_parts first_login (start toy_process) id player → player < 2 ^ 64
unfolding start step
first_fits id player (later (later (later (now gate conn env e l)))) = first_player player l
first_fits id player (later (later (later (later (later l))))) = elim l [ ]

-- A second client names the same account.
abbrev both_logins : List Event
both_logins =
    at_gate world (connected tcp)
    ∷ at_gate world (received 0 (login_env 0))
    ∷ linked
    ∷ arrived 1 (login_env 1)
    ∷ delivered world 1 0
    ∷ at_gate world (connected tcp)
    ∷ at_gate world (received 1 (login_env 0))
    ∷ arrived 1 (login_env 2)
    ∷ delivered world 1 1
    ∷ []

abbrev both_kept : ℕ → Option Session
both_kept id = lookup id (run toy_parts both_logins (start toy_process)).gate.by_session

abbrev replaced : Session
replaced = session 1 49 offline none

abbrev newcomer : Session
newcomer = session 2 50 authenticated (some 1)

-- What the two runs leave of the sessions, by evaluation.
sessions_kept :
    (kept ≡ some logged_in) × (both_kept 1 ≡ some replaced) × (both_kept 2 ≡ some newcomer)
unfolding run step start lookup insert accept dispatch_envelope service_registry new_registry
    register bytes_eq resolve_role_id load_role_id next_uid save_role_id save_profile reply_to_gate
    note_session on_service_envelope reply on_login_rsp test_go_server.Gate.System.step new_gate
    new_conn on_envelope allow_login send_to_service sign_resume_token hex_encode format_int64
    account_role_key player_profile_key parse_int64 kick
sessions_kept = (refl, refl, refl)

run-Login_example : Login toy_parts first_login (start toy_process) 1 1
run-Login_example =
    run-Login toy_parts first_login toy_process 1 logged_in toy-Reads first_fits sessions_kept.0
      (omega arith)

run-account_example :
    (l : Login toy_parts both_logins (start toy_process) 1 1) × (m : Login toy_parts both_logins
      (start toy_process)
      2
      1)
    × (account l ≡ account m)
run-account_example =
    run-account toy toy_coder toy_marshal toy_client toy_json toy_client-Sets toy_client-Counts
      both_logins toy_process 1 2 replaced newcomer toy-Reads (λ key. refl) (omega arith)
      sessions_kept.1 sessions_kept.2 (omega arith) refl
