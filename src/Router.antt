-- ===== src/Router.antt =====
-- internal/router/router.go and route_table.go: the target of a message number.
use test_go_server.Prelude.{
  ℕ, ◌≤◌, ◌<◌, ◌≡◌, ◌⊎◌, ◌&&◌, leb, ltb, Option, none, some, arith, if◌then◌else◌,
}
use test_go_server.Protocol.{
  msg_login_begin, msg_login_end, msg_chat_begin, msg_chat_end, msg_game_begin, msg_game_end,
}

pub data Target : Type 0 where
  service game db : Target

-- The service module named by a rule; `no_module` is the empty string.
pub data ModuleName : Type 0 where
  login chat no_module : ModuleName

pub record RouteRule : Type 0 where
  pub target : Target
  pub mod_name : ModuleName

abbrev pub login_rule : RouteRule
login_rule = record { target = service; mod_name = login }

abbrev pub chat_rule : RouteRule
chat_rule = record { target = service; mod_name = chat }

abbrev pub game_rule : RouteRule
game_rule = record { target = game; mod_name = no_module }

unfoldable pub get_route : ℕ → Option RouteRule
get_route m =
    if leb msg_login_begin m && ltb m msg_login_end
    then some login_rule
    else if leb msg_chat_begin m && ltb m msg_chat_end
    then some chat_rule
    else if leb msg_game_begin m && ltb m msg_game_end
    then some game_rule
    else none

-- The half-open band of message numbers that a rule owns.
abbrev pub Owns : RouteRule → ℕ → Type 0
Owns r m =
    ((r ≡ login_rule) × (1000 ≤ m) × (m < 2000))
    ⊎ ((r ≡ chat_rule) × (2000 ≤ m) × (m < 3000))
    ⊎ ((r ≡ game_rule) × (3000 ≤ m) × (m < 4000))

-- A message number is routed by a rule exactly when it lies in the band that the rule owns, so each
-- number has one rule at most.
pub get_route-iff-Owns :
    (m : ℕ) (r : RouteRule)
    → ((get_route m ≡ some r) → Owns r m) × (Owns r m → get_route m ≡ some r)
unfolding get_route
get_route-iff-Owns m r = ground arith
