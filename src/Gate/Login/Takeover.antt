-- ===== src/Gate/Login/Takeover.antt =====
-- A login takes the player over from the session that had it.
use test_go_server.Prelude.{
  ℕ, ◌≡◌, ◌≢◌, ap, ◌∙◌, Option, some, true, false, ◌==◌, arith, lookup, lookup-insert,
  lookup-insert_self,
}
use test_go_server.Protocol.{Bytes}
use test_go_server.Gate.State.{
  authenticated, Session, Gate, External, World, is_closed, is_offline, is_none, put_session,
}
use test_go_server.Gate.Sessions.{get, bind_player}
use test_go_server.Gate.Offline.{gone, kick, close_opt}
use test_go_server.Gate.Offline.Effect.{kick-Closes}
use test_go_server.Gate.Login.{kick_old, on_login_rsp, reset_kick_count}
use test_go_server.Gate.Invariant.Defs.{Good, Inv}

-- A session with a connection that the invariant holds of is neither offline nor closed.
live_states :
    {g : Gate} {k : ℕ} (d : ℕ) (s : Session)
    → Good g k s
    → s.conn ≡ some d
    → (is_closed s.state ≡ false) × (is_offline s.state ≡ false) × (is_none s.conn ≡ false)
live_states d s v e = (ground (arith, v.kept), ground (arith, v.unplugged), ground arith)

-- What is left after a successful login of session s, kept under id, as a player whom session o,
-- kept under old, had.
pub record TakenOver (now id player old d : ℕ) (s o : Session) (h : Gate) : Type 0 where
  pub winner :
      lookup id h.by_session ≡ some (record s { player_id = player; state = authenticated })
  pub index : lookup player h.by_player ≡ some id
  pub loser : lookup old h.by_session ≡ some (gone now o)
  pub cut : (h.conns d).closed ≡ true

login_rsp-eq :
    (x : External) (w : World) (id player old : ℕ) (payload : Bytes) (s : Session) (g : Gate)
    → get id g ≡ some s
    → x.unmarshal_login_rsp payload ≡ some player
    → lookup player g.by_player ≡ some old
    → (old == s.id) ≡ false
    → on_login_rsp x w id payload g
      ≡ reset_kick_count (
          put_session
            (record s { player_id = player; state = authenticated })
            (kick w.now old (bind_player s player g).1).0)
unfolding on_login_rsp
login_rsp-eq x w id player old payload s g at_id decodes indexed apart =
    rw (at_id, on_login_rsp) (rw decodes (rw (indexed, bind_player, kick_old) (rw apart)))

cut_conn : (d : ℕ) (c : Option ℕ) (g : Gate) → c ≡ some d → ((close_opt c g).conns d).closed ≡ true
unfolding close_opt
cut_conn d c g e = ground arith

-- When the invariant holds and the service logs session id in as a player whom another kept
-- session had on a connection d, then id is authenticated as that player, the player index points
-- to id, the other session is offline without a connection, and d is closed.
pub on_login_rsp-TakenOver :
    (x : External) (w : World) (id player old d : ℕ) (payload : Bytes) (s o : Session) (g : Gate)
    → Inv g
    → lookup id g.by_session ≡ some s
    → x.unmarshal_login_rsp payload ≡ some player
    → lookup player g.by_player ≡ some old
    → old ≢ id
    → lookup old g.by_session ≡ some o
    → o.conn ≡ some d
    → TakenOver w.now id player old d s o (on_login_rsp x w id payload g)
on_login_rsp-TakenOver x w id player old d payload s o g v at_id decodes indexed apart at_old plug =
    let here : s.id ≡ id = (v.good id s at_id).keyed in
    let there : o.id ≡ old = (v.good old o at_old).keyed in
    let (a, b, c) = live_states d o (v.good old o at_old) plug in
    let differ : (old == s.id) ≡ false = ground arith in
    let g1 = (bind_player s player g).1 in
    let kept : get old g1 ≡ some o =
      unfold get bind_player in
      ground (arith, lookup-insert s.id old (record s { player_id = player }) g.by_session) in
    let k = (kick-Closes w.now old o g1 kept c a b).0 in
    let m = (kick w.now old g1).0.by_session in
    let won = record s { player_id = player; state = authenticated } in
    rw (login_rsp-eq x w id player old payload s g (unfold get in at_id) decodes indexed differ)
      (record {
        winner = ground (arith, lookup-insert s.id id won m);
        index =
            ap (lookup player) k.by_player
            ∙ unfold bind_player in lookup-insert_self player s.id g.by_player ∙ ap some here;
        loser = ground (
          arith,
          lookup-insert s.id old won m,
          ap (lookup old) k.by_session,
          lookup-insert o.id old (gone w.now o) g1.by_session,
        );
        cut = ap (λ f. (f d).closed) k.conns ∙ cut_conn d o.conn g1 plug;
      })
