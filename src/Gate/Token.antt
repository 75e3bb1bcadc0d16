-- ===== src/Gate/Token.antt =====
-- internal/gate/auth.go: resume tokens, nonce.signature with a signature over session and nonce.
pub mod RoundTrip
use test_go_server.Prelude.{
  ℕ, List, [], ◌∷◌, ◌++◌, ◌≡◌, ◌∙◌, ap, Option, none, some, Bool, true, false, not, ◌&&◌,
  if◌then◌else◌, arith,
}
use test_go_server.Protocol.{Bytes}
use test_go_server.Text.{
  format_int64, hex_encode, split_dots, bytes_eq, bytes_eq_refl, split_dots_pair,
  hex_encode-HasNoDot, format_int64-HasNoDot, split_dots_plain, HasNoDot,
}
use test_go_server.Gate.State.{Session, External, World}

-- "gate-secret"
abbrev pub secret : Bytes
secret = 103 ∷ 97 ∷ 116 ∷ 101 ∷ 45 ∷ 115 ∷ 101 ∷ 99 ∷ 114 ∷ 101 ∷ 116 ∷ []

-- "session:"
abbrev session_prefix : Bytes
session_prefix = 115 ∷ 101 ∷ 115 ∷ 115 ∷ 105 ∷ 111 ∷ 110 ∷ 58 ∷ []

-- The HMAC, in hexadecimal, of the text "session:nonce".
unfoldable pub sign_token_payload : External → ℕ → Bytes → Bytes
sign_token_payload x id nonce = hex_encode (x.hmac_sha256 secret (format_int64 id ++ (58 ∷ nonce)))

sign_with : External → ℕ → Option Bytes → Bytes
unfolding sign_token_payload
sign_with x id none = session_prefix ++ format_int64 id
sign_with x id (some nonce) = hex_encode nonce ++ (46 ∷ sign_token_payload x id (hex_encode nonce))

-- Gate.signResumeToken
unfoldable pub sign_resume_token : External → World → ℕ → Bytes
unfolding sign_with
sign_resume_token x w id = sign_with x id w.nonce

verify_parts : External → Session → Bytes → List Bytes → Bool
unfolding sign_token_payload bytes_eq
verify_parts x s token (nonce ∷ signature ∷ []) =
    if not (bytes_eq signature (sign_token_payload x s.id nonce))
    then false
    else bytes_eq token s.token
verify_parts x s token _ = false

-- Gate.verifyToken
unfoldable pub verify_token : External → Session → Bytes → Bool
unfolding verify_parts split_dots
verify_token x s token = verify_parts x s token (split_dots token)
