-- ===== src/Prelude/Int.antt =====
-- int64 values whose sign the code looks at.
use Prim.Native.Nat.{ℕ, zero, suc}

-- `negsuc n` is -(n + 1).
pub data ℤ : Type 0 where
  pos : ℕ → ℤ
  negsuc : ℕ → ℤ

-- i - 1
unfoldable pub pred : ℤ → ℤ
pred (pos zero) = negsuc 0
pred (pos (suc n)) = pos n
pred (negsuc n) = negsuc (suc n)

-- count-- under `count > 0`
unfoldable pub lower_positive : ℤ → ℤ
lower_positive (pos (suc n)) = pos n
lower_positive i = i
