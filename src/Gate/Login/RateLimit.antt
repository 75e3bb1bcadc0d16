-- ===== src/Gate/Login/RateLimit.antt =====
-- How many logins the rate limit of a session lets through.
use test_go_server.Prelude.{
  ℕ, suc, ◌+◌, ◌≤◌, ◌<◌, ◌≡◌, ◌≢◌, List, [], ◌∷◌, Bool, true, false, ltb, ◌==◌, ◌||◌, length, min,
  arith,
}
use test_go_server.Gate.State.{Session, Config, since}
use test_go_server.Gate.Login.{allow_login}

abbrev pub count_true : Bool → ℕ → ℕ
count_true true n = suc n
count_true false n = n

-- Login attempts on a session, one after the other, and how many were allowed.
unfoldable pub attempts : Config → List ℕ → Session → ℕ
attempts cfg [] s = 0
attempts cfg (t ∷ ts) s = let r = allow_login cfg t s in count_true r.1 (attempts cfg ts r.0)

-- The attempts fall into the window that began at the given time.
abbrev pub Within : Config → ℕ → List ℕ → Type 0
Within cfg start [] = Unit {0}
Within cfg start (t ∷ ts) = (since t start ≤ cfg.login_rate_limit_window) × Within cfg start ts

attempts-running :
    (cfg : Config) (ts : List ℕ) (s : Session)
    → 0 < cfg.login_rate_limit_count
    → s.login_window_start ≢ 0
    → Within cfg s.login_window_start ts
    → attempts cfg ts s + min cfg.login_rate_limit_count s.login_attempts
      ≡ min cfg.login_rate_limit_count (s.login_attempts + length ts)
unfolding attempts allow_login
attempts-running cfg [] s h go fit = omega arith
attempts-running cfg (t ∷ ts) s h go fit =
    let r = allow_login cfg t s in
    ground (
      arith,
      attempts-running cfg ts (record s { login_attempts = s.login_attempts + 1 }) h go fit.1,
    )

-- Of a row of login attempts on a session whose window is over, or was never begun, that all fall
-- into the window which the first of them begins, exactly the first ones up to the limit are
-- allowed; a limit that is not 0 is set, and no clock reads the zero time.
pub attempts-window :
    (cfg : Config) (t : ℕ) (ts : List ℕ) (s : Session)
    → 0 < cfg.login_rate_limit_count
    → t ≢ 0
    → (s.login_window_start == 0 || ltb cfg.login_rate_limit_window (since t s.login_window_start))
      ≡ true
    → Within cfg t ts
    → attempts cfg (t ∷ ts) s ≡ min cfg.login_rate_limit_count (suc (length ts))
unfolding attempts allow_login
attempts-window cfg t ts s h pos over fit = ground (
  arith,
  attempts-running cfg ts (record s { login_window_start = t; login_attempts = 1 }) h pos fit,
)
