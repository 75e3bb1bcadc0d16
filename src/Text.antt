-- ===== src/Text.antt =====
-- What the program uses of strconv, fmt, encoding/hex, strings and crypto/hmac's comparison, on
-- texts as lists of bytes.
pub mod Decimal
use test_go_server.Prelude.{
  ℕ, zero, suc, ◌+◌, ◌-◌, ◌/◌, ◌%◌, ◌^◌, ◌<◌, ◌≡◌, ◌≢◌, refl, List, [], ◌∷◌, ◌++◌, Bool, true,
  false, ◌&&◌, ltb, ◌==◌, if◌then◌else◌, arith,
}
use test_go_server.Protocol.{Bytes}

-- strings.Split(s, "."): 46 is the full stop.
cons_head : ℕ → List Bytes → List Bytes
cons_head c [] = (c ∷ []) ∷ []
cons_head c (p ∷ ps) = (c ∷ p) ∷ ps

unfoldable pub split_dots : Bytes → List Bytes
unfolding cons_head
split_dots [] = [] ∷ []
split_dots (c ∷ cs) = let rest = split_dots cs in if c == 46 then [] ∷ rest else cons_head c rest

-- The decimal digits of a number below 10 ^ fuel, in front of `acc`.
unfoldable pub digits : ℕ → ℕ → Bytes → Bytes
digits zero n acc = acc
digits (suc fuel) n acc =
    let more = digits fuel (n / 10) ((48 + n % 10) ∷ acc) in
    if ltb n 10 then (48 + n) ∷ acc else more

-- fmt's %d of an int64, given by its bit pattern.
unfoldable pub format_int64 : ℕ → Bytes
unfolding digits
format_int64 n = if ltb n (2 ^ 63) then digits 20 n [] else 45 ∷ digits 20 (2 ^ 64 - n) []

hex_digit : ℕ → ℕ
hex_digit d = if ltb d 10 then 48 + d else 87 + d

-- hex.EncodeToString
unfoldable pub hex_encode : Bytes → Bytes
unfolding hex_digit
hex_encode [] = []
hex_encode (b ∷ bs) = hex_digit (b / 16 % 16) ∷ hex_digit (b % 16) ∷ hex_encode bs

-- hmac.Equal and == on strings
unfoldable pub bytes_eq : Bytes → Bytes → Bool
bytes_eq [] [] = true
bytes_eq [] (y ∷ ys) = false
bytes_eq (x ∷ xs) [] = false
bytes_eq (x ∷ xs) (y ∷ ys) = x == y && bytes_eq xs ys

pub bytes_eq_refl : (xs : Bytes) → bytes_eq xs xs ≡ true
unfolding bytes_eq
bytes_eq_refl [] = refl
bytes_eq_refl (x ∷ xs) = ground (arith, bytes_eq_refl xs)

pub bytes_eq_sound : (xs ys : Bytes) → bytes_eq xs ys ≡ true → xs ≡ ys
unfolding bytes_eq
bytes_eq_sound [] [] h = refl
bytes_eq_sound [] (y ∷ ys) h = cc
bytes_eq_sound (x ∷ xs) [] h = cc
bytes_eq_sound (x ∷ xs) (y ∷ ys) h = ground (arith, bytes_eq_sound xs ys)

-- A text without a full stop.
abbrev pub HasNoDot : Bytes → Type 0
HasNoDot [] = Unit {0}
HasNoDot (c ∷ cs) = (c ≢ 46) × HasNoDot cs

pub HasNoDot-append : (s t : Bytes) → HasNoDot s → HasNoDot t → HasNoDot (s ++ t)
HasNoDot-append [] t h k = k
HasNoDot-append (c ∷ cs) t h k = (h.0, HasNoDot-append cs t h.1 k)

pub split_dots_plain : (s : Bytes) → HasNoDot s → split_dots s ≡ s ∷ []
unfolding split_dots
split_dots_plain [] h = refl
split_dots_plain (c ∷ cs) h = ground (arith, split_dots_plain cs h.1)

pub split_dots_pair :
    (s t : Bytes) → HasNoDot s → HasNoDot t → split_dots (s ++ 46 ∷ t) ≡ s ∷ t ∷ []
unfolding split_dots
split_dots_pair [] t h k = ground (arith, split_dots_plain t k)
split_dots_pair (c ∷ cs) t h k = ground (arith, split_dots_pair cs t h.1 k)

hex_digit-HasNoDot : (d : ℕ) → d < 16 → hex_digit d ≢ 46
unfolding hex_digit
hex_digit-HasNoDot d h = ground arith

pub hex_encode-HasNoDot : (bs : Bytes) → HasNoDot (hex_encode bs)
unfolding hex_encode
hex_encode-HasNoDot [] = tt
hex_encode-HasNoDot (b ∷ bs) = (
  hex_digit-HasNoDot (b / 16 % 16) (omega arith),
  (hex_digit-HasNoDot (b % 16) (omega arith), hex_encode-HasNoDot bs),
)

digits-HasNoDot : (fuel n : ℕ) (acc : Bytes) → HasNoDot acc → HasNoDot (digits fuel n acc)
unfolding digits
digits-HasNoDot zero n acc h = h
digits-HasNoDot (suc fuel) n acc h = ground (
  arith,
  digits-HasNoDot fuel (n / 10) ((48 + n % 10) ∷ acc) ((λ (e : 48 + n % 10 ≡ 46). omega arith), h),
)

pub format_int64-HasNoDot : (n : ℕ) → HasNoDot (format_int64 n)
unfolding format_int64
format_int64-HasNoDot n =
    ground (arith, digits-HasNoDot 20 n [] tt, digits-HasNoDot 20 (2 ^ 64 - n) [] tt)
