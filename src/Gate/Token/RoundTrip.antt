-- ===== src/Gate/Token/RoundTrip.antt =====
-- Which tokens verify.
use test_go_server.Prelude.{ℕ, List, [], ◌∷◌, ◌++◌, ◌≡◌, Option, none, some, true, not, arith}
use test_go_server.Protocol.{Bytes}
use test_go_server.Text.{
  split_dots, hex_encode, format_int64, HasNoDot, HasNoDot-append, split_dots_plain,
  split_dots_pair, hex_encode-HasNoDot, format_int64-HasNoDot, bytes_eq_refl, bytes_eq_sound,
}
use test_go_server.Gate.State.{Session, External, World, is_none}
use test_go_server.Gate.Token.{
  sign_token_payload, sign_with, sign_resume_token, verify_parts, verify_token, session_prefix,
}

payload-HasNoDot :
    (x : External) (id : ℕ) (nonce : Bytes) → HasNoDot (sign_token_payload x id nonce)
unfolding sign_token_payload
payload-HasNoDot x id nonce = hex_encode-HasNoDot _

prefix-HasNoDot : HasNoDot session_prefix
prefix-HasNoDot = omega arith

split-sign_with :
    (x : External) (id : ℕ) (nonce : Bytes)
    → split_dots (sign_with x id (some nonce))
      ≡ hex_encode nonce ∷ sign_token_payload x id (hex_encode nonce) ∷ []
unfolding sign_with
split-sign_with x id nonce =
    split_dots_pair (hex_encode nonce) _ (hex_encode-HasNoDot nonce) (payload-HasNoDot x id _)

split-sign_fallback :
    (x : External) (id : ℕ) → split_dots (sign_with x id none) ≡ sign_with x id none ∷ []
unfolding sign_with
split-sign_fallback x id =
    split_dots_plain (session_prefix ++ format_int64 id)
      (HasNoDot-append session_prefix (format_int64 id) prefix-HasNoDot (format_int64-HasNoDot id))

-- The token that a session is given verifies for it exactly when the random source delivered a
-- nonce; the fallback token, made when it failed, never does.
pub verify_token-sign_resume_token :
    (x : External) (w : World) (s : Session)
    → s.token ≡ sign_resume_token x w s.id
    → verify_token x s s.token ≡ not (is_none w.nonce)
unfolding sign_resume_token verify_token
verify_token-sign_resume_token x w s e = simp e (by_nonce w.nonce e)
  where
    by_nonce :
        (o : Option Bytes)
        → s.token ≡ sign_with x s.id o
        → verify_parts x s (sign_with x s.id o) (split_dots (sign_with x s.id o)) ≡ not (is_none o)
    by_nonce none e = rw (split-sign_fallback x s.id)
    by_nonce (some nonce) e = rw (split-sign_with x s.id nonce) (
        ground (
          arith,
          bytes_eq_refl (sign_token_payload x s.id (hex_encode nonce)),
          bytes_eq_refl (sign_with x s.id (some nonce)),
          e,
        ))

-- No other text than the session's own token verifies.
pub verify_token-true :
    (x : External) (s : Session) (token : Bytes) → verify_token x s token ≡ true → token ≡ s.token
unfolding verify_token
verify_token-true x s token h = by_parts (split_dots token) h
  where
    by_parts : (ps : List Bytes) → verify_parts x s token ps ≡ true → token ≡ s.token
    by_parts [] h = cc
    by_parts (a ∷ []) h = cc
    by_parts (a ∷ b ∷ []) h = ground (arith, bytes_eq_sound token s.token)
    by_parts (a ∷ b ∷ c ∷ r) h = cc
