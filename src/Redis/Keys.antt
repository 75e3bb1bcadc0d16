-- ===== src/Redis/Keys.antt =====
-- internal/db/redis_tools/keys.go, and that different things have different keys.
use test_go_server.Prelude.{
  append_cancel_left, append_cancel_right, ℕ, ◌<◌, ◌^◌, ◌≡◌, ◌≢◌, ap, sym, ◌∙◌, [], ◌∷◌, ◌++◌, some,
  arith,
}
use test_go_server.Protocol.{Bytes}
use test_go_server.Text.{format_int64}
use test_go_server.Text.Decimal.{parse_int64, parse_int64-format_int64}

-- "uid:next"
abbrev pub key_uid_next : Bytes
key_uid_next = b'u' ∷ b'i' ∷ b'd' ∷ b':' ∷ b'n' ∷ b'e' ∷ b'x' ∷ b't' ∷ []

-- "account:"
abbrev pub key_account_prefix : Bytes
key_account_prefix = b'a' ∷ b'c' ∷ b'c' ∷ b'o' ∷ b'u' ∷ b'n' ∷ b't' ∷ b':' ∷ []

-- "player:"
abbrev pub key_player_prefix : Bytes
key_player_prefix = b'p' ∷ b'l' ∷ b'a' ∷ b'y' ∷ b'e' ∷ b'r' ∷ b':' ∷ []

-- "rank:"
abbrev pub key_rank_prefix : Bytes
key_rank_prefix = b'r' ∷ b'a' ∷ b'n' ∷ b'k' ∷ b':' ∷ []

abbrev role_suffix : Bytes
role_suffix = b':' ∷ b'r' ∷ b'o' ∷ b'l' ∷ b'e' ∷ []

abbrev profile_suffix : Bytes
profile_suffix = b':' ∷ b'p' ∷ b'r' ∷ b'o' ∷ b'f' ∷ b'i' ∷ b'l' ∷ b'e' ∷ []

abbrev base_suffix : Bytes
base_suffix = b':' ∷ b'b' ∷ b'a' ∷ b's' ∷ b'e' ∷ []

-- AccountRoleKey
unfoldable pub account_role_key : Bytes → Bytes
account_role_key account = key_account_prefix ++ account ++ role_suffix

-- PlayerProfileKey
unfoldable pub player_profile_key : ℕ → Bytes
player_profile_key id = key_player_prefix ++ format_int64 id ++ profile_suffix

-- KeyPlayerBase
unfoldable pub key_player_base : ℕ → Bytes
key_player_base id = key_player_prefix ++ format_int64 id ++ base_suffix

-- KeyRank
unfoldable pub key_rank : Bytes → Bytes
key_rank name = key_rank_prefix ++ name

some-inj : {i j : ℕ} → some i ≡ some j → i ≡ j
some-inj e = ground (arith, e)

-- Keys of different accounts are different.
pub account_role_key-inj : (a b : Bytes) → account_role_key a ≡ account_role_key b → a ≡ b
unfolding account_role_key
account_role_key-inj a b e =
    append_cancel_right a b role_suffix
      (append_cancel_left key_account_prefix (a ++ role_suffix) (b ++ role_suffix) e)

-- Keys of different players are different.
pub player_profile_key-inj :
    (i j : ℕ) → i < 2 ^ 64 → j < 2 ^ 64 → player_profile_key i ≡ player_profile_key j → i ≡ j
unfolding player_profile_key
player_profile_key-inj i j lt lt' e =
    let same : format_int64 i ≡ format_int64 j =
      append_cancel_right (format_int64 i) (format_int64 j) profile_suffix
        (append_cancel_left key_player_prefix _ _ e) in
    some-inj
      (sym (parse_int64-format_int64 i lt) ∙ ap parse_int64 same ∙ parse_int64-format_int64 j lt')

head : Bytes → ℕ
head [] = 0
head (c ∷ s) = c

-- Keys of different kinds are different.
pub profile-ne-account : (i : ℕ) (a : Bytes) → player_profile_key i ≢ account_role_key a
unfolding player_profile_key account_role_key head
profile-ne-account i a e = let h : 112 ≡ 97 = ap head e in omega (arith, h)

pub uid-ne-account : (a : Bytes) → key_uid_next ≢ account_role_key a
unfolding account_role_key head
uid-ne-account a e = let h : 117 ≡ 97 = ap head e in omega (arith, h)

pub uid-ne-profile : (i : ℕ) → key_uid_next ≢ player_profile_key i
unfolding player_profile_key head
uid-ne-profile i e = let h : 117 ≡ 112 = ap head e in omega (arith, h)
