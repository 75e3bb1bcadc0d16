-- ===== src/Gate/Offline/Effect.antt =====
-- What closing a session does to the rest of the gate.
use test_go_server.Prelude.{
  ℕ, ◌≡◌, refl, ap, ◌∙◌, Option, none, some, Bool, true, false, ◌==◌, if◌then◌else◌, insert, List,
}
use test_go_server.Protocol.{Envelope}
use test_go_server.Router.{ModuleName, no_module}
use test_go_server.Gate.State.{Remote, Session, Gate, is_closed, is_offline, is_none, put_session}
use test_go_server.Gate.Sessions.{get}
use test_go_server.Gate.Offline.{
  stamp, send_stamped, send_to_service, notify_player_offline, notify_player_resume, close_opt,
  gone, on_session_offline, kick, on_conn_close,
}

-- All but the queues to the service and the counters are as they were.
pub record Rest (g h : Gate) : Type 0 where
  pub by_session : h.by_session ≡ g.by_session
  pub by_player : h.by_player ≡ g.by_player
  pub conns : h.conns ≡ g.conns
  pub config : h.config ≡ g.config

Rest-refl : (g : Gate) → Rest g g
Rest-refl g = record { by_session = refl; by_player = refl; conns = refl; config = refl }

Rest-if : {g x y : Gate} (b : Bool) → Rest g x → Rest g y → Rest g (if b then x else y)
Rest-if true p q = p
Rest-if false p q = q

send_stamped-Rest :
    (env : Envelope) (o : Option (List Remote)) (g : Gate) → Rest g (send_stamped env o g)
unfolding send_stamped
send_stamped-Rest env none g = Rest-refl g
send_stamped-Rest env (some pool) g = record {
  by_session = refl;
  by_player = refl;
  conns = refl;
  config = refl;
}

pub send_to_service-Rest :
    (m : ModuleName) (env : Envelope) (g : Gate) → Rest g (send_to_service m env g)
unfolding send_to_service
send_to_service-Rest m env g = send_stamped-Rest (stamp (get env.session_id g) env) g.service_pool g

pub notify_player_offline-Rest : (s : Session) (g : Gate) → Rest g (notify_player_offline s g)
unfolding notify_player_offline
notify_player_offline-Rest s g =
    Rest-if (s.player_id == 0) (Rest-refl g) (send_to_service-Rest no_module _ g)

pub notify_player_resume-Rest : (s : Session) (g : Gate) → Rest g (notify_player_resume s g)
unfolding notify_player_resume
notify_player_resume-Rest s g =
    Rest-if (s.player_id == 0) (Rest-refl g) (send_to_service-Rest no_module _ g)

-- A session that is not yet offline goes offline in its place, loses its connection, which is
-- closed, and nothing else of the sessions, the player index or the configuration changes.
pub record Closes (now : ℕ) (s : Session) (g h : Gate) : Type 0 where
  pub by_session : h.by_session ≡ insert s.id (gone now s) g.by_session
  pub by_player : h.by_player ≡ g.by_player
  pub conns : h.conns ≡ (close_opt s.conn g).conns
  pub config : h.config ≡ g.config

close_opt-rest :
    (o : Option ℕ) (g : Gate)
    → ((close_opt o g).by_session ≡ g.by_session)
      × ((close_opt o g).by_player ≡ g.by_player)
      × ((close_opt o g).config ≡ g.config)
unfolding close_opt
close_opt-rest none g = (refl, refl, refl)
close_opt-rest (some c) g = (refl, refl, refl)

pub on_session_offline-Closes :
    (now : ℕ) (s : Session) (g : Gate)
    → is_closed s.state ≡ false
    → is_offline s.state ≡ false
    → Closes now s g (on_session_offline now s g)
unfolding on_session_offline
on_session_offline-Closes now s g a b =
    let h = put_session (gone now s) (close_opt s.conn g) in
    let n = notify_player_offline-Rest (gone now s) h in
    let (p, q, r) = close_opt-rest s.conn g in
    rw (a, b)
      (record {
        by_session = n.by_session ∙ ap (insert s.id (gone now s)) p;
        by_player = n.by_player ∙ q;
        conns = n.conns;
        config = n.config ∙ r;
      })

kick-eq :
    (now id : ℕ) (s : Session) (g : Gate)
    → get id g ≡ some s
    → is_none s.conn ≡ false
    → kick now id g ≡ (on_session_offline now s g, none)
unfolding kick
kick-eq now id s g e f = rw (e, kick) (rw f)

-- A kick of a session with a connection closes it, and reports no error.
pub kick-Closes :
    (now id : ℕ) (s : Session) (g : Gate)
    → get id g ≡ some s
    → is_none s.conn ≡ false
    → is_closed s.state ≡ false
    → is_offline s.state ≡ false
    → Closes now s g (kick now id g).0 × ((kick now id g).1 ≡ none)
kick-Closes now id s g e f a b =
    rw (kick-eq now id s g e f) (on_session_offline-Closes now s g a b, refl)

pub on_conn_close-lookup :
    (now c : ℕ) (s : Session) (g : Gate)
    → get (g.conns c).session_id g ≡ some s
    → (on_conn_close now c g).by_session ≡ insert s.id (gone now s) g.by_session
unfolding on_conn_close
on_conn_close-lookup now c s g e =
    rw (e, on_conn_close)
      (notify_player_offline-Rest (gone now s) (put_session (gone now s) g)).by_session
