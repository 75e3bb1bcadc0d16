-- ===== src/Gate/Invariant/Login.antt =====
-- Creating sessions, logging in and resuming keep the invariant.
use test_go_server.Prelude.{
  ℕ, ◌<◌, ◌≡◌, ◌≢◌, refl, ap, sym, subst, ◌∙◌, Option, none, some, ◌==◌, if◌then◌else◌, arith, List,
  lookup, lookup-insert_self,
}
use test_go_server.Protocol.{inc64}
use test_go_server.Gate.State.{
  init, online, offline, closed, Session, Gate, Config, External, World, set_conn, put_session,
}
use test_go_server.Gate.Sessions.{bind_player}
use test_go_server.Gate.Login.{
  new_session, fresh_session, bind_fresh, create_session_for_conn, session_init_env, allow_login,
  kick_old,
}
use test_go_server.Gate.Invariant.Defs.{Good, Inv, Same, Inv-Same, Inv-put, Inv-if, Good-conns}
use test_go_server.Gate.Invariant.Frames.{send-Same}
use test_go_server.Gate.Invariant.Offline.{kick-Inv}

pub config-Same : (g : Gate) (cfg : Config) → Same g (record g { config = cfg })
config-Same g cfg = record { sessions = refl; ids = λ c. refl; limit = refl; next = refl }

player-Same : (g : Gate) (m : List (ℕ × ℕ)) → Same g (record g { by_player = m })
player-Same g m = record { sessions = refl; ids = λ c. refl; limit = refl; next = refl }

-- A connection that belongs to no session can be bound to any.
pub Inv-bind :
    (g : Gate) (c id n : ℕ)
    → Inv g
    → (g.conns c).session_id ≡ 0
    → Inv (set_conn c (record (g.conns c) { session_id = id }) (record g { next_id = n }))
Inv-bind g c id n v free = record {
  good = λ k s e.
      Good-conns g _ k s (λ d f. free_ne k s (v.good k s e) d f) (omega arith) (v.good k s e);
}
  where
    free_ne :
        (k : ℕ) (s : Session)
        → Good g k s
        → (d : ℕ) → s.conn ≡ some d
        → (if c == d then record (g.conns c) { session_id = id } else g.conns d).session_id
          ≡ (g.conns d).session_id
    free_ne k s good d f = ground (arith, good.bound d f, good.named)

-- Every kept session is online, authing, authenticated or offline: a session with a connection that
-- is bound to it is good in the first three.
pub Good-bound :
    (g : Gate) (c : ℕ) (s : Session)
    → s.id ≢ 0
    → s.state ≢ init
    → s.state ≢ closed
    → s.state ≢ offline
    → s.conn ≡ some c
    → (g.conns c).session_id ≡ s.id
    → c < g.next_conn
    → Good g s.id s
Good-bound g c s pos a b d e f lt = record {
  keyed = refl;
  named = pos;
  begun = a;
  kept = b;
  unplugged = λ o. absurd (d o);
  plugged = λ o. cc;
  bound = λ j h.
      let same : c ≡ j = ground arith in
      subst (λ i. ((g.conns i).session_id ≡ s.id) × (i < g.next_conn)) same (f, lt);
}

pub bind_fresh-Inv :
    (g : Gate) (c : ℕ) (s : Session)
    → Inv g
    → (g.conns c).session_id ≡ 0
    → c < g.next_conn
    → s.id ≢ 0
    → s.state ≡ online
    → s.conn ≡ some c
    → Inv (bind_fresh s c g)
unfolding bind_fresh
bind_fresh-Inv g c s v free lt pos on plug =
    Inv-put _ s (Inv-bind g c s.id s.id v free)
      (Good-bound _ c s pos (λ e. cc) (λ e. cc) (λ e. cc) plug (ground arith) lt)

-- Only fields that the invariant does not read change.
pub Good-fields :
    (g : Gate) (k : ℕ) (s t : Session)
    → t.id ≡ s.id
    → t.state ≡ s.state
    → t.conn ≡ s.conn
    → Good g k s
    → Good g k t
Good-fields g k s t i st co v = record {
  keyed = i ∙ v.keyed;
  named = v.named;
  begun = λ e. v.begun (sym st ∙ e);
  kept = λ e. v.kept (sym st ∙ e);
  unplugged = λ e. co ∙ v.unplugged (sym st ∙ e);
  plugged = λ e. ground (arith, v.plugged (sym co ∙ e));
  bound = λ c e. v.bound c (sym co ∙ e);
}

pub allow_login-Good :
    (g : Gate) (k now : ℕ) (cfg : Config) (s : Session)
    → Good g k s
    → Good g k (allow_login cfg now s).0
unfolding allow_login
allow_login-Good g k now cfg s v =
    Good-fields g k s (allow_login cfg now s).0 (ground arith) (ground arith) (ground arith) v

pub create_session_for_conn-Inv :
    (x : External) (w : World) (c : ℕ) (g : Gate)
    → Inv g
    → (g.conns c).session_id ≡ 0
    → c < g.next_conn
    → inc64 g.next_id ≢ 0
    → Inv (create_session_for_conn x w c g).1
unfolding create_session_for_conn fresh_session new_session
create_session_for_conn-Inv x w c g v free lt pos =
    let s = fresh_session x w c (inc64 g.next_id) in
    Inv-Same (send-Same c (session_init_env x s) (bind_fresh s c g))
      (bind_fresh-Inv g c s v free lt pos refl refl)

-- The session just made is kept under its ID.
pub create_session_for_conn-lookup :
    (x : External) (w : World) (c : ℕ) (g : Gate)
    → let r = create_session_for_conn x w c g in lookup r.0.id r.1.by_session ≡ some r.0
unfolding create_session_for_conn bind_fresh fresh_session new_session
create_session_for_conn-lookup x w c g =
    let s = fresh_session x w c (inc64 g.next_id) in
    ap (lookup s.id) (send-Same c (session_init_env x s) (bind_fresh s c g)).sessions
    ∙ lookup-insert_self s.id s g.by_session

pub create_session_for_conn-next :
    (x : External) (w : World) (c : ℕ) (g : Gate)
    → let r = create_session_for_conn x w c g in
      (r.1.next_id ≡ inc64 g.next_id) × (r.1.next_conn ≡ g.next_conn)
unfolding create_session_for_conn bind_fresh fresh_session new_session
create_session_for_conn-next x w c g =
    let s = fresh_session x w c (inc64 g.next_id) in
    let same = send-Same c (session_init_env x s) (bind_fresh s c g) in (same.next, same.limit)

pub kick_old-Inv : (now id : ℕ) (o : Option ℕ) (g : Gate) → Inv g → Inv (kick_old now id o g)
unfolding kick_old
kick_old-Inv now id none g v = v
kick_old-Inv now id (some old) g v = Inv-if (old == id) v (kick-Inv now old g v)

-- BindPlayer gives a kept session its player.
pub bind_player-Inv :
    (g : Gate) (s : Session) (player : ℕ) → Inv g → Good g s.id s → Inv (bind_player s player g).1
unfolding bind_player
bind_player-Inv g s player v good =
    let t = record s { player_id = player } in
    Inv-Same (player-Same (put_session t g) _)
      (Inv-put g t v (Good-fields g s.id s t refl refl refl good))
