-- ===== src/Gate/Handler/Forwarding.antt =====
-- What a client that has logged in makes the gate send to the service.
use test_go_server.Prelude.{
  ℕ, ◌≤◌, ◌<◌, ◌≡◌, ◌≢◌, refl, ap, sym, ◌∙◌, ◌⊎◌, inl, inr, List, some, false, ◌==◌, leb, arith,
  lookup, lookup-insert, Bool-cases, ==_iff,
}
use test_go_server.Protocol.{Envelope, msg_login_req}
use test_go_server.Router.{
  RouteRule, Target, ModuleName, service, game, login_rule, chat_rule, game_rule, get_route,
}
use test_go_server.Gate.State.{
  online, offline, Session, Gate, Remote, External, World, put_session, is_online, is_offline,
}
use test_go_server.Gate.Sessions.{get}
use test_go_server.Gate.Offline.{send_to_game}
use test_go_server.Gate.Offline.Stamping.{named_player, pooled, send_to_service-pooled}
use test_go_server.Gate.Invariant.Defs.{Inv}
use test_go_server.Gate.Handler.{by_target, route, after_login, on_bound, on_envelope}

routed :
    (m : ℕ)
    → 1000 ≤ m
    → m < 4000
    → (r : RouteRule) × (get_route m ≡ some r) × ((r.target ≡ service) ⊎ (r.target ≡ game))
unfolding get_route
routed m low high = elim (Bool-cases (leb 2000 m)) [
  | inr e ↦ (login_rule, ground (arith, e), inl refl)
  | inl e ↦ elim (Bool-cases (leb 3000 m)) [
    | inr f ↦ (chat_rule, ground (arith, e, f), inl refl)
    | inl f ↦ (game_rule, ground (arith, e, f), inr refl)
  ]
]

by_target-pooled :
    (t : Target) (m : ModuleName) (env : Envelope) (pool : List Remote) (g : Gate)
    → (t ≡ service) ⊎ (t ≡ game)
    → g.service_pool ≡ some pool
    → by_target t m env g ≡ pooled env (named_player env (get env.session_id g)) pool g
unfolding by_target send_to_game
by_target-pooled t m env pool g (inl e) has = rw e (send_to_service-pooled m env pool g has)
by_target-pooled t m env pool g (inr e) has = rw e (send_to_service-pooled _ env pool g has)

-- Noting the time of the message changes no player.
seen-player :
    (now k : ℕ) (s : Session) (env : Envelope) (g : Gate)
    → get s.id g ≡ some s
    → named_player env (get k (put_session (record s { last_seen = now }) g))
      ≡ named_player env (get k g)
unfolding get named_player
seen-player now k s env g kept = elim (Bool-cases (s.id == k)) [
  | inl hit ↦
      let t = record s { last_seen = now } in
      let there : s.id ≡ k = (==_iff s.id k).0 hit in
      let new : lookup k (put_session t g).by_session ≡ some t =
        ground (arith, lookup-insert s.id k t g.by_session, hit) in
      let old : lookup k g.by_session ≡ some s =
        ap (λ i. lookup i g.by_session) (sym there) ∙ kept in
      ap (named_player env) new ∙ sym (ap (named_player env) old)
  | inr miss ↦
      let same : lookup k (put_session (record s { last_seen = now }) g).by_session
          ≡ lookup k g.by_session =
        ground (arith, lookup-insert s.id k (record s { last_seen = now }) g.by_session, miss) in
      ap (named_player env) same
]

-- A message with a number that is routed, and that asks for no login, from a connection of a session
-- that is kept and neither online nor offline: the gate notes the time, and sends the message to the
-- service as it came, with the player of the session that the message names, which need not be the
-- session of the connection, or, if no such session is kept, with the player that the message came
-- with.
pub on_envelope-forwards :
    (x : External) (w : World) (c : ℕ) (env : Envelope) (s : Session) (pool : List Remote)
    (g : Gate)
    → Inv g
    → get (g.conns c).session_id g ≡ some s
    → s.state ≢ online
    → s.state ≢ offline
    → 1000 ≤ env.msg_id
    → env.msg_id < 4000
    → env.msg_id ≢ msg_login_req
    → g.service_pool ≡ some pool
    → on_envelope x w c env g
      ≡ pooled env
          (named_player env (get env.session_id g))
          pool
          (put_session (record s { last_seen = w.now }) g)
unfolding on_envelope on_bound after_login route
on_envelope-forwards x w c env s pool g v kept on off low high no_login has =
    let good = v.good (g.conns c).session_id s (unfold get in kept) in
    let t = record s { last_seen = w.now } in
    let (rule, goes, target) = routed env.msg_id low high in
    let own : get s.id g ≡ some s = ap (λ i. get i g) good.keyed ∙ kept in
    let forwarded =
      by_target-pooled rule.target rule.mod_name env pool (put_session t g) target has
      ∙ ap (λ k. pooled env k pool (put_session t g))
          (seen-player w.now env.session_id s env g own) in
    let e1 : (env.msg_id == 1) ≡ false = ground arith in
    let e2 : ((g.conns c).session_id == 0) ≡ false = ground (arith, good.named) in
    let e3 : (env.msg_id == msg_login_req) ≡ false = ground arith in
    let e4 : (env.msg_id == 10) ≡ false = ground arith in
    let e5 : is_online s.state ≡ false = ground (arith, on) in
    let e6 : is_offline s.state ≡ false = ground (arith, off) in
    rw (e1, e2, kept) (simp (e3, e4, e5, e6, goes) forwarded)
