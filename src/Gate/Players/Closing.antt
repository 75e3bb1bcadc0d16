-- ===== src/Gate/Players/Closing.antt =====
-- Closing a session leaves it its player.
use test_go_server.Prelude.{
  ℕ, Option, none, some, Bool, true, false, ◌&&◌, if◌then◌else◌, inl, inr, Option-cases,
}
use test_go_server.Protocol.{Error, session_not_found}
use test_go_server.Gate.State.{Session, Gate, put_session, is_closed, is_offline, is_none}
use test_go_server.Gate.Sessions.{get}
use test_go_server.Gate.Offline.{gone, on_session_offline, kick, on_conn_close, close_opt}
use test_go_server.Gate.Invariant.Frames.{close_opt-Same, notify_player_offline-Same}
use test_go_server.Gate.Players.Defs.{Players, Players-Same, Players-if, Players-put}

pub on_session_offline-Players :
    {K : ℕ → ℕ → Type 0} (now : ℕ) (s : Session) (g : Gate)
    → K s.id s.player_id
    → Players K g
    → Players K (on_session_offline now s g)
unfolding on_session_offline
on_session_offline-Players {K} now s g has v = Players-if (is_closed s.state) v (
    Players-if (is_offline s.state && is_none s.conn) v (
      Players-if (is_offline s.state) put
        (Players-Same (notify_player_offline-Same (gone now s) _) put)))
  where
    put : Players K (put_session (gone now s) (close_opt s.conn g))
    put = Players-put _ (gone now s) has (Players-Same (close_opt-Same s.conn g) v)

pub kick-Players :
    {K : ℕ → ℕ → Type 0} (now id : ℕ) (g : Gate) → Players K g → Players K (kick now id g).0
unfolding kick
kick-Players {K} now id g v = elim (Option-cases (get id g)) [
  | inl e ↦ rw (e, kick) v
  | inr (s, e) ↦
      let off = on_session_offline-Players now s g (v.known id s (unfold get in e)).1 v in
      rw (e, kick) (pick s (is_none s.conn) off)
]
  where
    pick :
        (o : Session) (b : Bool)
        → Players K (on_session_offline now o g)
        → let r : Gate × Option Error =
            if b then (g, some session_not_found) else (on_session_offline now o g, none) in
          Players K r.0
    pick o true off = v
    pick o false off = off

pub on_conn_close-Players :
    {K : ℕ → ℕ → Type 0} (now c : ℕ) (g : Gate) → Players K g → Players K (on_conn_close now c g)
unfolding on_conn_close
on_conn_close-Players now c g v = elim (Option-cases (get (g.conns c).session_id g)) [
  | inl e ↦ rw (e, on_conn_close) v
  | inr (s, e) ↦
      rw (e, on_conn_close)
        (Players-Same (notify_player_offline-Same (gone now s) (put_session (gone now s) g))
          (Players-put g (gone now s) (v.known _ s (unfold get in e)).1 v))
]
