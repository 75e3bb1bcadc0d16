-- ===== src/Cluster/Ownership.antt =====
-- A player belongs to one account, over Redis.
use test_go_server.Prelude.{
  ap, refl, ℕ, ◌+◌, ◌<◌, ◌≤◌, ◌^◌, ◌≡◌, sym, subst, ◌∙◌, inl, inr, List, [], ◌∷◌, some, lookup,
  arith, length,
}
use test_go_server.Protocol.{Bytes, Envelope}
use test_go_server.Gate.State.{External}
use test_go_server.Redis.Dao.{Client}
use test_go_server.Service.NetServer.{GateConn}
use test_go_server.Service.Dispatch.{Coder}
use test_go_server.Service.Dispatch.Outcome.{account_of}
use test_go_server.Service.Dispatch.Outcome.Granting.{LogsIn}
use test_go_server.Game.Player.{Marshal}
use test_go_server.PlayerDb.{Json, redis_login}
use test_go_server.PlayerDb.Accounts.{Sets, save-profile_apart}
use test_go_server.PlayerDb.Unique.{Counts, Unique}
use test_go_server.PlayerDb.Holding.{Only, login-issued, login-counted, resolved-Only, before-Only}
use test_go_server.PlayerDb.Holding.Keeping.{login-Only}
use test_go_server.Cluster.{Cluster, Event, arrived, step}
use test_go_server.Cluster.Safety.{Login, now, later}
use test_go_server.Cluster.Storing.{redis_parts, account, step_keeps, received-LogsIn, step-Unique}

module _ {D : Type 0} (x : External) (coder : Coder) (marshal : Marshal) (client : Client D)
    (json : Json) (sets : Sets client) (counting : Counts client) where
  step-Only :
      (n i : ℕ) (a : Bytes) (o : Event) (c : Cluster D)
      → n + 1 < 2 ^ 63
      → Unique client n c.service.store
      → i ≤ n
      → Only client a i c.service.store
      → Only client a i (step (redis_parts x coder marshal client json) o c).service.store
  step-Only n i a o c room v le only =
      step_keeps x coder marshal client json (Only client a i) o c only
        (λ b.
          login-Only client json sets counting n i a b c.service.store room v
            (omega (arith, le, room)) (inr le) only)
        (λ f d kept b e. kept b (sym (save-profile_apart client json b f d sets) ∙ e))

  -- The player of a login was given out by the counter.
  pub Login-issued :
      (n id player : ℕ) (os : List Event) (c : Cluster D)
      → n + length os < 2 ^ 63
      → Unique client n c.service.store
      → Login (redis_parts x coder marshal client json) os c id player
      → player ≤ n + length os
  Login-issued n id player [] c room v l = elim l [ ]
  Login-issued n id player (o ∷ os) c room v (now gate conn env e l) =
      let le =
        login-issued client json sets counting n player (account_of l.request) l.old c.service.store
          (omega (arith, room)) v l.resolved in
      omega (arith, le)
  Login-issued n id player (o ∷ os) c room v (later l) =
      let k = step-Unique x coder marshal client json sets counting n o c (omega (arith, room)) v in
      let le =
        Login-issued k.at id player os (step (redis_parts x coder marshal client json) o c)
          (omega (arith, room, k.high)) k.unique l in
      omega (arith, le, k.high)

  -- Once the counter has given out a player, only the account that has it logs in as the player.
  Login-Only :
      (n id player : ℕ) (a : Bytes) (os : List Event) (c : Cluster D)
      → n + length os < 2 ^ 63
      → Unique client n c.service.store
      → player ≤ n
      → Only client a player c.service.store
      → (l : Login (redis_parts x coder marshal client json) os c id player) → account l ≡ a
  unfolding account
  Login-Only n id player a [] c room v le only l = elim l [ ]
  Login-Only n id player a (o ∷ os) c room v le only (now gate conn env e l) =
      resolved-Only client json sets counting n player a (account_of l.request) l.old
        c.service.store (omega (arith, room)) v le only l.resolved
  Login-Only n id player a (o ∷ os) c room v le only (later l) =
      let k = step-Unique x coder marshal client json sets counting n o c (omega (arith, room)) v in
      Login-Only k.at id player a os (step (redis_parts x coder marshal client json) o c)
        (omega (arith, room, k.high)) k.unique (omega (arith, le, k.low))
        (step-Only n player a o c (omega (arith, room)) v le only) l

  -- After a login, the account that it named is the only one that logs in as its player.
  next-account :
      (n id player gate : ℕ) (env : Envelope) (conn : GateConn) (os : List Event) (c : Cluster D)
      → n + 1 + length os < 2 ^ 63
      → Unique client n c.service.store
      → lookup gate c.service.net.gate_conns ≡ some conn
      → (l : LogsIn coder (redis_login client json) env c.service.store player)
        (m : Login
          (redis_parts x coder marshal client json)
          os
          (step (redis_parts x coder marshal client json) (arrived gate env) c)
          id
          player)
      → account m ≡ account_of l.request
  unfolding step
  next-account n id player gate env conn os c room v e l m =
      let a = account_of l.request in
      let few : n + 1 < 2 ^ 63 = omega (arith, room) in
      let d = c.service.store in
      let stored =
        received-LogsIn x coder marshal client json gate env conn player
          (lookup gate c.service.net.gate_conns) c.service e l in
      let (k, le, high, unique) =
        login-counted client json sets counting n player a l.old d few v l.resolved in
      let only =
        login-Only client json sets counting n player a a d few v (omega (arith, le, high, few))
          (inl refl) (before-Only client json sets counting n player a l.old d few v l.resolved) in
      Login-Only k id player a os
        (step (redis_parts x coder marshal client json) (arrived gate env) c)
        (omega (arith, room, high)) (subst (Unique client k) (sym stored) unique) le
        (subst (Only client a player) (sym stored) only) m

  -- Two logins with one player named one account.
  pub Login-account :
      (n id id' player : ℕ) (os : List Event) (c : Cluster D)
      → n + length os < 2 ^ 63
      → Unique client n c.service.store
      → (l : Login (redis_parts x coder marshal client json) os c id player)
        (m : Login (redis_parts x coder marshal client json) os c id' player)
      → account l ≡ account m
  unfolding account
  Login-account n id id' player [] c room v l m = elim l [ ]
  Login-account n id id' player (o ∷ os) c room v (later l) (later m) =
      let k = step-Unique x coder marshal client json sets counting n o c (omega (arith, room)) v in
      Login-account k.at id id' player os (step (redis_parts x coder marshal client json) o c)
        (omega (arith, room, k.high)) k.unique l m
  Login-account n id id' player (o ∷ os) c room v (now gate conn env e l) (later m) =
      sym (next-account n id' player gate env conn os c (omega (arith, room)) v e l m)
  Login-account n id id' player (o ∷ os) c room v (later l) (now gate conn env e m) =
      next-account n id player gate env conn os c (omega (arith, room)) v e m l
  Login-account n id id' player (o ∷ os) c room v (now gate conn env e l)
        (now gate' conn' env' e' m) =
      let same : some l.request ≡ some m.request = sym l.decoded ∙ m.decoded in
      let asked : l.request ≡ m.request = ground (arith, same) in ap account_of asked
