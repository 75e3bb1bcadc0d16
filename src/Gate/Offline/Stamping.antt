-- ===== src/Gate/Offline/Stamping.antt =====
-- What sendToService puts into the pool of the service's clients.
use test_go_server.Prelude.{ℕ, ◌≡◌, refl, ap, ◌∙◌, Option, none, some, List}
use test_go_server.Protocol.{Envelope}
use test_go_server.Router.{ModuleName}
use test_go_server.Gate.State.{Session, Gate, Remote}
use test_go_server.Gate.Sessions.{get}
use test_go_server.Gate.Remote.{pool_send}
use test_go_server.Gate.Offline.{stamp, send_stamped, send_to_service}

-- The player that an envelope goes to the service with: that of the session which it names, if the
-- session is kept, and otherwise the one that it came with.
unfoldable pub named_player : Envelope → Option Session → ℕ
named_player env none = env.player_id
named_player env (some s) = s.player_id

abbrev pub pooled : Envelope → ℕ → List Remote → Gate → Gate
pooled env player pool g = record g {
  service_pool = some (pool_send env.session_id (record env { player_id = player }) pool).0;
}

pub send_to_service-pooled :
    (m : ModuleName) (env : Envelope) (pool : List Remote) (g : Gate)
    → g.service_pool ≡ some pool
    → send_to_service m env g ≡ pooled env (named_player env (get env.session_id g)) pool g
unfolding send_to_service send_stamped stamp named_player
send_to_service-pooled m env pool g e =
    ap (λ o. send_stamped (stamp (get env.session_id g) env) o g) e
    ∙ by_session (get env.session_id g)
  where
    by_session :
        (o : Option Session)
        → send_stamped (stamp o env) (some pool) g ≡ pooled env (named_player env o) pool g
    by_session none = refl
    by_session (some s) = refl
