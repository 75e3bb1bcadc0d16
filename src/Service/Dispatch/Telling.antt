-- ===== src/Service/Dispatch/Telling.antt =====
-- A message to the game waits in the channel of the game router.
use test_go_server.Prelude.{
  ℕ, ◌<◌, ◌≡◌, refl, ap, sym, subst, ◌∙◌, ◌⊎◌, inl, inr, List, [], ◌∷◌, ◌++◌, Option, none, some,
  lookup, length, arith, ◌==◌, Bool-cases, if◌then◌else◌,
}
use test_go_server.Protocol.{Envelope}
use test_go_server.Service.GameRouter.{send_ch_cap, send}
use test_go_server.Service.GameRouter.Sending.{send-push}
use test_go_server.Service.Dispatch.{
  Process, set_router, choose_route, send_by, route_by, route_to_game,
}

-- The process sends to the game on the router i, which has room, and the player is on no other.
pub record Ready {D : Type 0} (player i : ℕ) (p : Process D) : Type 0 where
  pub main : p.game_router ≡ some i
  pub own : (lookup player p.player_route ≡ none) ⊎ (lookup player p.player_route ≡ some i)
  pub room : length (p.routers i).send_ch < send_ch_cap

chosen :
    (player i : ℕ) (o : Option ℕ) (routes : List (ℕ × ℕ))
    → (o ≡ none) ⊎ (o ≡ some i)
    → (choose_route player o i routes).0 ≡ i
unfolding choose_route
chosen player i none routes e = refl
chosen player i (some r) routes (inl e) = absurd (ground (arith, e))
chosen player i (some r) routes (inr e) = ground (arith, e)

module _ {D : Type 0} where
  sent :
      (env : Envelope) (i : ℕ) (c : ℕ × List (ℕ × ℕ)) (p : Process D)
      → c.0 ≡ i
      → length (p.routers i).send_ch < send_ch_cap
      → ((send_by env c p).0.routers i).send_ch ≡ (p.routers i).send_ch ++ env ∷ []
  unfolding send_by set_router
  sent env i (k, routes) p same room =
      let there : length (p.routers k).send_ch < send_ch_cap =
        subst (λ j. length (p.routers j).send_ch < send_ch_cap) (sym same) room in
      let done = send-push env (p.routers k) there in
      let here : (send env (p.routers k)).0.send_ch ≡ (p.routers k).send_ch ++ env ∷ [] =
        ap (λ r. r.0.send_ch) done in
      ground (arith, same) ∙ here ∙ ap (λ j. (p.routers j).send_ch ++ env ∷ []) same

  pub route_to_game-Ready :
      (env : Envelope) (i : ℕ) (p : Process D)
      → Ready env.player_id i p
      → ((route_to_game env p).0.routers i).send_ch ≡ (p.routers i).send_ch ++ env ∷ []
  unfolding route_to_game route_by
  route_to_game-Ready env i p v =
      subst (λ o. ((route_by o env p).0.routers i).send_ch ≡ (p.routers i).send_ch ++ env ∷ [])
        (sym v.main) (sent env i to p choice v.room)
    where
      to : ℕ × List (ℕ × ℕ)
      to =
          if env.player_id == 0
          then (i, p.player_route)
          else choose_route env.player_id (lookup env.player_id p.player_route) i p.player_route

      choice : to.0 ≡ i
      choice = elim (Bool-cases (env.player_id == 0)) [
        | inl e ↦ rw e refl
        | inr e ↦
            rw e (chosen env.player_id i (lookup env.player_id p.player_route) p.player_route v.own)
      ]
