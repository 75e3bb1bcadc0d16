-- ===== src/Text/Decimal.antt =====
-- strconv.ParseInt in base 10, and that it reads back what is printed.
use test_go_server.Prelude.{
  ℕ, zero, suc, ◌+◌, ◌-◌, ◌*◌, ◌/◌, ◌%◌, ◌^◌, ◌<◌, ◌≤◌, ◌≡◌, ◌∙◌, refl, ap, [], ◌∷◌, Bool, true,
  false, ◌||◌, ltb, leb, ◌==◌, Option, none, some, if◌then◌else◌, arith, Bool-cases, inl, inr,
  ltb→lt,
}
use test_go_server.Protocol.{Bytes}
use test_go_server.Text.{digits, format_int64}

-- The digits of ParseUint, behind the number n, with no bound.
unfoldable pub scan : Bytes → ℕ → Option ℕ
scan [] n = some n
scan (c ∷ s) n =
    let rest = scan s (n * 10 + (c - b'0')) in if ltb c b'0' || ltb b'9' c then none else rest

parse_digits : Bytes → Option ℕ
unfolding scan
parse_digits [] = none
parse_digits (c ∷ s) = scan (c ∷ s) 0

-- A number that ParseUint refuses as too large is too large for the bounds, too.
in_range : Bool → Option ℕ → Option ℕ
in_range negative none = none
in_range true (some n) = if leb n (2 ^ 63) then some ((2 ^ 64 - n) % 2 ^ 64) else none
in_range false (some n) = if ltb n (2 ^ 63) then some n else none

-- strconv.ParseInt(s, 10, 64); none is an error.
unfoldable pub parse_int64 : Bytes → Option ℕ
unfolding in_range parse_digits
parse_int64 [] = none
parse_int64 (c ∷ s) =
    if c == b'-'
    then in_range true (parse_digits s)
    else if c == b'+'
    then in_range false (parse_digits s)
    else in_range false (parse_digits (c ∷ s))

abbrev pow10 : ℕ → ℕ
pow10 zero = 1
pow10 (suc n) = 10 * pow10 n

scan_last : (n : ℕ) (acc : Bytes) → scan ((48 + n % 10) ∷ acc) (n / 10) ≡ scan acc n
unfolding scan
scan_last n acc = ground arith

scan_one : (n : ℕ) (acc : Bytes) → n < 10 → scan ((48 + n) ∷ acc) 0 ≡ scan acc n
unfolding scan
scan_one n acc h = ground arith

scan-digits : (fuel n : ℕ) (acc : Bytes) → n < pow10 fuel → scan (digits fuel n acc) 0 ≡ scan acc n
unfolding digits
scan-digits zero n acc h = let e : n ≡ 0 = omega arith in rw e refl
scan-digits (suc fuel) n acc h = elim (Bool-cases (ltb n 10)) [
  | inl small ↦ rw small (scan_one n acc (ltb→lt n 10 small))
  | inr large ↦
      rw large
        (scan-digits fuel (n / 10) ((48 + n % 10) ∷ acc) (omega (arith, h)) ∙ scan_last n acc)
]

-- A text that begins with a digit.
Begins : Bytes → Type 0
Begins s = (d : ℕ) × (rest : Bytes) × (d < 10) × (s ≡ (48 + d) ∷ rest)

digits-Begins_in : (fuel n : ℕ) (acc : Bytes) → Begins acc → Begins (digits fuel n acc)
unfolding digits Begins
digits-Begins_in zero n acc h = h
digits-Begins_in (suc fuel) n acc h = elim (Bool-cases (ltb n 10)) [
  | inl small ↦ rw small (n, acc, ltb→lt n 10 small, refl)
  | inr large ↦
      rw large
        (digits-Begins_in fuel (n / 10) ((48 + n % 10) ∷ acc) (n % 10, acc, omega arith, refl))
]

digits-Begins : (fuel n : ℕ) → Begins (digits (suc fuel) n [])
unfolding digits Begins
digits-Begins fuel n = elim (Bool-cases (ltb n 10)) [
  | inl small ↦ rw small (n, [], ltb→lt n 10 small, refl)
  | inr large ↦
      rw large (digits-Begins_in fuel (n / 10) ((48 + n % 10) ∷ []) (n % 10, [], omega arith, refl))
]

parse_digits-Begins : (s : Bytes) → Begins s → parse_digits s ≡ scan s 0
unfolding parse_digits Begins
parse_digits-Begins s (d, rest, lt, e) = rw e refl

unsigned : (s : Bytes) → Begins s → parse_int64 s ≡ in_range false (scan s 0)
unfolding parse_int64 Begins
unsigned s (d, rest, lt, e) = rw e (ground (arith, lt, parse_digits-Begins s (d, rest, lt, e), e))

read_back : (n : ℕ) → n < 2 ^ 64 → scan (digits 20 n []) 0 ≡ some n
read_back n h = scan-digits 20 n [] (omega arith) ∙ unfold scan in refl

positive : (n : ℕ) (s : Bytes) → Begins s → scan s 0 ≡ some n → n < 2 ^ 63 → parse_int64 s ≡ some n
positive n s b e h = unsigned s b ∙ ap (in_range false) e ∙ unfold in_range in ground (arith, h)

negative :
    (n : ℕ) (s : Bytes)
    → Begins s
    → scan s 0 ≡ some n
    → 0 < n
    → n ≤ 2 ^ 63
    → parse_int64 (b'-' ∷ s) ≡ some (2 ^ 64 - n)
unfolding parse_int64
negative n s b e pos h =
    ap (in_range true) (parse_digits-Begins s b ∙ e) ∙ unfold in_range in ground (arith, h, pos)

format-small : (n : ℕ) → ltb n (2 ^ 63) ≡ true → format_int64 n ≡ digits 20 n []
unfolding format_int64
format-small n e = rw e refl

format-large : (n : ℕ) → ltb n (2 ^ 63) ≡ false → format_int64 n ≡ b'-' ∷ digits 20 (2 ^ 64 - n) []
unfolding format_int64
format-large n e = rw e refl

-- Every int64 is read back from its decimal print.
pub parse_int64-format_int64 : (n : ℕ) → n < 2 ^ 64 → parse_int64 (format_int64 n) ≡ some n
parse_int64-format_int64 n h = elim (Bool-cases (ltb n (2 ^ 63))) [
  | inl small ↦
      ap parse_int64 (format-small n small)
      ∙ positive n (digits 20 n []) (digits-Begins 19 n) (read_back n h) (ltb→lt n (2 ^ 63) small)
  | inr large ↦
      let m = 2 ^ 64 - n in
      let big : 2 ^ 63 ≤ n = ground arith in
      ap parse_int64 (format-large n large)
      ∙ negative m (digits 20 m []) (digits-Begins 19 m) (read_back m (omega (arith, big, h)))
          (omega (arith, big, h)) (omega (arith, big, h))
      ∙ ap some (omega (arith, big, h))
]
