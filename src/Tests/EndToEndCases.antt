-- ===== src/Tests/EndToEndCases.antt =====
-- A guest logs in, from a gate with two sessions through a service process over a database of texts.
use test_go_server.Prelude.{ℕ, ◌≡◌, refl, inl, [], ◌∷◌, some, false, arith, lookup, insert}
use test_go_server.Protocol.{Envelope}
use test_go_server.Gate.Login.{on_service_envelope}
use test_go_server.Gate.Login.Answer.{LoggedIn, answer}
use test_go_server.Service.Modules.{service_registry}
use test_go_server.Service.Dispatch.{Process, dispatch_envelope}
use test_go_server.Service.Dispatch.Telling.{Ready}
use test_go_server.Service.GameRouter
use test_go_server.PlayerDb.{redis_accounts}
use test_go_server.PlayerDb.Accounts.{redis_accounts-Remembers}
use test_go_server.EndToEnd.{Linked, Served, login-LoggedIn}
use test_go_server.Tests.RedisCases.{Texts, toy_client, toy_json, toy_client-Sets}
use test_go_server.Tests.GateFixture.{toy, world, guest, gate, gate-Inv}
use test_go_server.Tests.ProcessCases.{
  toy_coder, toy_login, toy_process, request, gate_conn, first_id,
}

abbrev guest_process : Process Texts
guest_process = record toy_process {
  net = record { gate_conns = (1, gate_conn) ∷ []; next_gate_id = 1; session_gate = (2, 1) ∷ [] };
}

abbrev guest_env : Envelope
guest_env = record { msg_id = 1001; session_id = 2; player_id = 0; payload = b'x' ∷ [] }

guest-Linked : Linked 2 1 1 guest gate_conn gate guest_process
unfolding lookup insert
guest-Linked = record {
  valid = gate-Inv;
  kept = refl;
  plugged = refl;
  room = omega arith;
  on_gate = refl;
  conn = refl;
  up = refl;
}

guest-Ready : Ready 1 0 guest_process
unfolding lookup test_go_server.Service.GameRouter.new_game_router
guest-Ready = record { main = refl; own = inl refl; room = omega arith }

nobody_else : (other : ℕ) → lookup 1 gate.by_player ≡ some other → other ≡ 2
unfolding lookup
nobody_else other e = absurd (ground (arith, e))

login-LoggedIn_example :
    let rsp = answer 2 (1 ∷ []) in
    let q = dispatch_envelope toy_coder toy_login service_registry guest_env guest_process in
    Served (redis_accounts toy_client toy_json) 2 1 1 0 (b'x' ∷ []) rsp gate_conn guest_process q
    × LoggedIn 2 1 1 (1 ∷ []) guest gate (on_service_envelope toy world rsp gate)
login-LoggedIn_example =
    login-LoggedIn toy toy_coder toy_login (redis_accounts toy_client toy_json) world guest_env
      request 1 1 1 0 false guest gate_conn gate guest_process guest-Linked guest-Ready refl
      (redis_accounts-Remembers toy_client toy_json toy_client-Sets) (ground arith) (omega arith)
      (omega arith) refl refl refl first_id refl nobody_else
