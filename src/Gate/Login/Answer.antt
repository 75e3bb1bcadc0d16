-- ===== src/Gate/Login/Answer.antt =====
-- The answer of a login, for a player whom no other session has.
use test_go_server.Prelude.{
  ℕ, ◌<◌, ◌≡◌, refl, ap, sym, subst, ◌∙◌, [], ◌∷◌, ◌++◌, Option, none, some, arith, lookup,
  lookup-insert, lookup-insert_self, length,
}
use test_go_server.Protocol.{Bytes, Envelope}
use test_go_server.Gate.State.{authenticated, Session, Gate, External, World, put_session, set_conn}
use test_go_server.Gate.Sessions.{get, bind_player}
use test_go_server.Gate.Conn.{reply, send_ch_cap}
use test_go_server.Gate.Conn.Sending.{send-room, reply-send}
use test_go_server.Gate.Login.{
  kick_old, login_rsp, login_session, on_login_rsp, on_service_envelope, reset_kick_count,
}

abbrev pub login_envelope : ℕ → ℕ → Bytes → Envelope
login_envelope id player payload = record {
  msg_id = 1002;
  session_id = id;
  player_id = player;
  payload = payload;
}

-- Session s, kept under id and on connection d, is logged in as a player, and its client is told.
pub record LoggedIn (id player d : ℕ) (payload : Bytes) (s : Session) (g h : Gate) : Type 0 where
  pub session :
      lookup id h.by_session ≡ some (record s { player_id = player; state = authenticated })
  pub index : lookup player h.by_player ≡ some id
  pub told : (h.conns d).send_ch ≡ (g.conns d).send_ch ++ login_envelope id player payload ∷ []

-- The gate after onLoginRsp.
abbrev bound_to : Session → ℕ → Gate → Gate
bound_to s player g = reset_kick_count (
    put_session (record s { player_id = player; state = authenticated }) (bind_player s player g).1)

not_kicked :
    (now id player : ℕ) (o : Option ℕ) (g : Gate)
    → ((old : ℕ) → o ≡ some old → old ≡ id)
    → kick_old now id o g ≡ g
unfolding kick_old
not_kicked now id player none g alone = refl
not_kicked now id player (some old) g alone = ground (arith, alone old refl)

bound-eq :
    (x : External) (w : World) (id player : ℕ) (payload : Bytes) (s : Session) (g : Gate)
    → lookup id g.by_session ≡ some s
    → s.id ≡ id
    → x.unmarshal_login_rsp payload ≡ some player
    → ((old : ℕ) → lookup player g.by_player ≡ some old → old ≡ id)
    → on_login_rsp x w id payload g ≡ bound_to s player g
unfolding on_login_rsp login_rsp login_session get bind_player
bound-eq x w id player payload s g at_id keyed decodes alone =
    ap (λ o. login_rsp x w.now o payload g) at_id
    ∙ ap (λ o. login_session w.now s o g) decodes
    ∙ ap
        (λ h.
          reset_kick_count (put_session (record s { player_id = player; state = authenticated }) h))
        (not_kicked w.now s.id player (lookup player g.by_player) (bind_player s player g).1
          (λ old e. alone old e ∙ sym keyed))

-- The envelope in which the service answers a login.
abbrev pub answer : ℕ → Bytes → Envelope
answer id payload = record { msg_id = 1002; session_id = id; player_id = 0; payload = payload }

bound-found :
    (id player : ℕ) (s : Session) (g : Gate)
    → s.id ≡ id
    → lookup id (bound_to s player g).by_session
      ≡ some (record s { player_id = player; state = authenticated })
unfolding bind_player
bound-found id player s g keyed = ground (
  arith,
  lookup-insert s.id id (record s { player_id = player; state = authenticated })
      (bind_player s player g).1.by_session,
)

-- When a session on a connection with room is kept under its ID, and the service answers its login
-- with a player whom no other session has, the session is authenticated as that player and indexed
-- for it, and its connection is given the answer.
pub on_service_envelope-LoggedIn :
    (x : External) (w : World) (id player d : ℕ) (payload : Bytes) (s : Session) (g : Gate)
    → lookup id g.by_session ≡ some s
    → s.id ≡ id
    → s.conn ≡ some d
    → length (g.conns d).send_ch < send_ch_cap
    → x.unmarshal_login_rsp payload ≡ some player
    → ((old : ℕ) → lookup player g.by_player ≡ some old → old ≡ id)
    → LoggedIn id player d payload s g (on_service_envelope x w (answer id payload) g)
unfolding on_service_envelope
on_service_envelope-LoggedIn x w id player d payload s g at_id keyed plug room decodes alone =
    let h = bound_to s player g in
    let won = record s { player_id = player; state = authenticated } in
    let env = login_envelope id player payload in
    let e : on_service_envelope x w (answer id payload) g
        ≡ set_conn d (record (g.conns d) { send_ch = (g.conns d).send_ch ++ env ∷ [] }) h =
      ap (λ k. (reply id 1002 payload k).0)
        (bound-eq x w id player payload s g at_id keyed decodes alone)
      ∙ ap (λ r. r.0) (reply-send id 1002 d payload won h (bound-found id player s g keyed) plug)
      ∙ unfold bind_player in send-room d env h room in
    subst (LoggedIn id player d payload s g) (sym e) (record {
      session = bound-found id player s g keyed;
      index = unfold bind_player in lookup-insert_self player s.id g.by_player ∙ ap some keyed;
      told = ground arith;
    })
