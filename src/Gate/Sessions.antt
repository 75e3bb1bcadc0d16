-- ===== src/Gate/Sessions.antt =====
-- internal/gate/session_manager.go.
use test_go_server.Prelude.{
  ℕ, List, [], ◌∷◌, Option, none, some, Bool, lookup, insert, delete, keys, ◌==◌, ◌&&◌, ltb,
  if◌then◌else◌,
}
use test_go_server.Gate.State.{closed, Session, Gate, is_offline, since, put_session}

-- SessionManager.Add
unfoldable pub add : Session → Gate → Gate
add s g = put_session s g

-- SessionManager.Get
unfoldable pub get : ℕ → Gate → Option Session
get id g = lookup id g.by_session

-- delete(byPlayer, p) under `cur == s`
drop_player : ℕ → ℕ → List (ℕ × ℕ) → List (ℕ × ℕ)
drop_player p id m = elim (lookup p m) [ none ↦ m | some cur ↦ if cur == id then delete p m else m ]

-- SessionManager.Remove
unfoldable pub remove : ℕ → Gate → Gate
unfolding get drop_player
remove id g = elim (get id g) [
  | none ↦ g
  | some s ↦ record g {
    by_session = delete id g.by_session;
    by_player = if s.player_id == 0 then g.by_player else drop_player s.player_id s.id g.by_player;
  }
]

-- SessionManager.snapshot: the sessions, as pointers.
unfoldable pub snapshot : Gate → List ℕ
snapshot g = keys g.by_session

-- The test of GC.
abbrev pub is_expired : ℕ → ℕ → Session → Bool
is_expired now timeout s = is_offline s.state && ltb timeout (since now s.last_seen)

gc_entry : ℕ → ℕ → ℕ → Option Session → Gate × List Session → Gate × List Session
gc_entry now timeout id none r = r
gc_entry now timeout id (some s) (g, removed) =
    if is_expired now timeout s
    then (
      record g {
        by_player = if s.player_id == 0 then g.by_player else delete s.player_id g.by_player;
        by_session = delete id g.by_session;
      },
      record s { state = closed } ∷ removed,
    )
    else (g, removed)

-- One round of GC's loop: the gate, and the sessions removed.
unfoldable pub gc_one : ℕ → ℕ → ℕ → Gate × List Session → Gate × List Session
unfolding gc_entry
gc_one now timeout id (g, removed) = gc_entry now timeout id (lookup id g.by_session) (g, removed)

unfoldable pub gc_loop : ℕ → ℕ → List ℕ → Gate × List Session → Gate × List Session
gc_loop now timeout [] r = r
gc_loop now timeout (id ∷ ids) r = gc_loop now timeout ids (gc_one now timeout id r)

-- SessionManager.GC, over the entries of the map in some order.
unfoldable pub gc : ℕ → ℕ → Gate → Gate × List Session
unfolding gc_loop gc_one snapshot
gc now timeout g = gc_loop now timeout (snapshot g) (g, [])

-- SessionManager.BindPlayer: the session bound before, and the gate.
unfoldable pub bind_player : Session → ℕ → Gate → Option ℕ × Gate
bind_player s player_id g = (
  lookup player_id g.by_player,
  record g {
    by_session = insert s.id (record s { player_id = player_id }) g.by_session;
    by_player = insert player_id s.id g.by_player;
  },
)
