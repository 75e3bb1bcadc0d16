-- ===== src/Service/Dispatch/Routes.antt =====
-- The table of the players' routers sends nothing elsewhere.
use test_go_server.Prelude.{
  ℕ, ◌≡◌, refl, ap, sym, subst, List, [], Option, none, some, ◌==◌, ◌&&◌, not, lookup, insert,
  delete, lookup-insert, lookup-delete, lookup-nil, if◌then◌else◌, arith, inl, inr, Bool-cases,
}
use test_go_server.Protocol.{Bytes, Envelope, Error, remote_not_ready}
use test_go_server.Service.GameRouter.{GameRouter, send}
use test_go_server.Service.Login.{LoginService}
use test_go_server.Service.Modules.{ModuleRegistry}
use test_go_server.Service.Dispatch.{
  Coder, Process, set_router, choose_route, forget_route, send_by, route_by, route_to_game, reply,
  dispatch_envelopes,
}
use test_go_server.Service.Dispatch.Keeps.{dispatch_envelopes_keep}

-- routeToGame without the table: Send on the one router, if there is one.
pub direct : Option ℕ → Envelope → (ℕ → GameRouter) → (ℕ → GameRouter) × Option Error
unfolding set_router
direct none env routers = (routers, some remote_not_ready)
direct (some i) env routers = let (r, err) = send env (routers i) in (set_router i r routers, err)

-- Every player in the table is routed to the router g.
Straight : Option ℕ → List (ℕ × ℕ) → Type 0
Straight g routes = (player r : ℕ) → lookup player routes ≡ some r → g ≡ some r

insert-Straight :
    (i new : ℕ) (routes : List (ℕ × ℕ))
    → Straight (some i) routes
    → Straight (some i) (insert new i routes)
unfolding Straight
insert-Straight i new routes h player r e = elim (Bool-cases (new == player)) [
  | inl hit ↦ ground (arith, hit, e, lookup-insert new player i routes)
  | inr miss ↦ h player r (ground (arith, miss, e, lookup-insert new player i routes))
]

delete-Straight :
    (g : Option ℕ) (gone : ℕ) (routes : List (ℕ × ℕ))
    → Straight g routes
    → Straight g (delete gone routes)
unfolding Straight
delete-Straight g gone routes h player r e = elim (Bool-cases (gone == player)) [
  | inl hit ↦ absurd (ground (arith, hit, e, lookup-delete gone player routes))
  | inr miss ↦ h player r (ground (arith, miss, e, lookup-delete gone player routes))
]

forget-Straight :
    (g : Option ℕ) (env : Envelope) (routes : List (ℕ × ℕ))
    → Straight g routes
    → Straight g (forget_route env routes)
unfolding forget_route
forget-Straight g env routes h =
    elim (Bool-cases (not (env.player_id == 0) && env.msg_id == 3006)) [
      | inl e ↦ rw e (delete-Straight g env.player_id routes h)
      | inr e ↦ rw e h
    ]

-- What is chosen is the router i, and the table stays straight.
record Chosen (i : ℕ) (c : ℕ × List (ℕ × ℕ)) : Type 0 where
  router : c.0 ≡ i
  table : Straight (some i) c.1

chosen :
    (player i : ℕ) (o : Option ℕ) (routes : List (ℕ × ℕ))
    → lookup player routes ≡ o
    → Straight (some i) routes
    → Chosen i (choose_route player o i routes)
unfolding choose_route Straight
chosen player i none routes e h = record {
  router = refl;
  table = insert-Straight i player routes h;
}
chosen player i (some r) routes e h = record { router = ground (arith, h player r e); table = h }

abbrev choice : Envelope → ℕ → List (ℕ × ℕ) → ℕ × List (ℕ × ℕ)
choice env i routes =
    if env.player_id == 0
    then (i, routes)
    else choose_route env.player_id (lookup env.player_id routes) i routes

choice-Chosen :
    (env : Envelope) (i : ℕ) (routes : List (ℕ × ℕ))
    → Straight (some i) routes
    → Chosen i (choice env i routes)
choice-Chosen env i routes h = elim (Bool-cases (env.player_id == 0)) [
  | inl e ↦ rw e (record { router = refl; table = h })
  | inr e ↦ rw e (chosen env.player_id i (lookup env.player_id routes) routes refl h)
]

-- The game router is g and the table leads to it.
record Leads {D : Type 0} (g : Option ℕ) (p : Process D) : Type 0 where
  router : p.game_router ≡ g
  table : Straight g p.player_route

module _ {D : Type 0} where
  send_by-Leads :
      (i : ℕ) (env : Envelope) (p : Process D) (c : ℕ × List (ℕ × ℕ))
      → p.game_router ≡ some i
      → Chosen i c
      → Leads (some i) (send_by env c p).0
  unfolding send_by
  send_by-Leads i env p (k, routes) e c = record {
    router = e;
    table = forget-Straight (some i) env routes c.table;
  }

  send_by-direct :
      (i : ℕ) (env : Envelope) (p : Process D) (c : ℕ × List (ℕ × ℕ))
      → Chosen i c
      → ((send_by env c p).0.routers, (send_by env c p).1) ≡ direct (some i) env p.routers
  unfolding send_by direct
  send_by-direct i env p (k, routes) c = ap (λ j. direct (some j) env p.routers) c.router

  route_by-Leads :
      (g : Option ℕ) (env : Envelope) (p : Process D) → Leads g p → Leads g (route_by g env p).0
  unfolding route_by
  route_by-Leads none env p v = v
  route_by-Leads (some i) env p v =
      send_by-Leads i env p (choice env i p.player_route) v.router
        (choice-Chosen env i p.player_route v.table)

  routed :
      (g : Option ℕ) (env : Envelope) (p : Process D) → Leads g p → Leads g (route_to_game env p).0
  unfolding route_to_game
  routed g env p v =
      subst (λ o. Leads g (route_by o env p).0) (sym v.router) (route_by-Leads g env p v)

  now_direct :
      (g : Option ℕ) (env : Envelope) (p : Process D)
      → Leads g p
      → ((route_to_game env p).0.routers, (route_to_game env p).1) ≡ direct g env p.routers
  unfolding route_to_game route_by direct
  now_direct none env p v = rw v.router refl
  now_direct (some i) env p v = rw v.router (
      send_by-direct i env p (choice env i p.player_route)
        (choice-Chosen env i p.player_route v.table))

  replied :
      (g : Option ℕ) (session msg : ℕ) (payload : Bytes) (p : Process D)
      → Leads g p
      → Leads g (reply session msg payload p).0
  unfolding reply
  replied g session msg payload p v = record { router = v.router; table = v.table }

  -- A process that began with an empty table of players' routers, and has dealt with any envelopes,
  -- sends an envelope to the game as if there were no such table: by a Send of its one game router,
  -- with that Send's error, or with "remote not ready" if it has none.
  pub route_to_game-direct :
      (x : Coder) (svc : LoginService D) (reg : ModuleRegistry) (es : List Envelope)
      (env : Envelope) (p : Process D)
      → p.player_route ≡ []
      → let q = dispatch_envelopes x svc reg es p in
        ((route_to_game env q).0.routers, (route_to_game env q).1)
        ≡ direct p.game_router env q.routers
  unfolding Straight
  route_to_game-direct x svc reg es env p empty =
      let g = p.game_router in
      let start : Leads g p = record {
        router = refl;
        table = λ player r e.
            absurd (ground (arith, e, ap (lookup player) empty, lookup-nil {V = ℕ} player));
      } in
      now_direct g env (dispatch_envelopes x svc reg es p) (
        dispatch_envelopes_keep x svc (Leads g) (routed g) (replied g)
          (λ d p v. record { router = v.router; table = v.table }) reg es p start)
