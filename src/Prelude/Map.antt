-- ===== src/Prelude/Map.antt =====
-- Go maps with integer keys, as association lists. `insert` writes in place, `delete` drops a key.
use Prim.Native.Nat.{ℕ}
use mathlib.Core.Path.{◌≡◌, refl}
use mathlib.Core.List.{List, [], ◌∷◌}
use mathlib.Core.Option.{Option, none, some}
use native.Mathlib.Omega.{arith}
use mathlib.Core.Bool.{Bool, true, false, ◌||◌}
use mathlib.Core.Logic.{inl, inr}
use test_go_server.Prelude.Tests.{◌==◌, if◌then◌else◌, Bool-cases}

unfoldable pub contains : ℕ → List ℕ → Bool
contains wanted [] = false
contains wanted (key ∷ tail) = key == wanted || contains wanted tail

module _ {ℓ} {V : Type ℓ} where
  unfoldable pub keys : List (ℕ × V) → List ℕ
  keys [] = []
  keys ((key, x) ∷ tail) = key ∷ keys tail

  unfoldable pub lookup : ℕ → List (ℕ × V) → Option V
  lookup wanted [] = none
  lookup wanted ((key, x) ∷ tail) = if key == wanted then some x else lookup wanted tail

  pub contains-keys :
      (wanted : ℕ) (entries : List (ℕ × V)) (y : V)
      → lookup wanted entries ≡ some y
      → contains wanted (keys entries) ≡ true
  unfolding lookup keys contains
  contains-keys wanted [] y e = cc
  contains-keys wanted ((key, x) ∷ tail) y e = elim (Bool-cases (key == wanted)) [
    | inl hit ↦ rw hit
    | inr miss ↦ rw miss (contains-keys wanted tail y (ground arith))
  ]

  unfoldable pub delete : ℕ → List (ℕ × V) → List (ℕ × V)
  delete gone [] = []
  delete gone ((key, x) ∷ tail) =
      let kept = delete gone tail in if key == gone then kept else (key, x) ∷ kept

  pub lookup-nil : (wanted : ℕ) → lookup wanted [] ≡ none
  unfolding lookup
  lookup-nil wanted = refl

  pub lookup-delete :
      (gone wanted : ℕ) (entries : List (ℕ × V))
      → lookup wanted (delete gone entries)
        ≡ (if gone == wanted then none else lookup wanted entries)
  unfolding lookup delete
  lookup-delete gone wanted [] = ground arith
  lookup-delete gone wanted ((key, x) ∷ tail) = ground (arith, lookup-delete gone wanted tail)

  unfoldable pub insert : ℕ → V → List (ℕ × V) → List (ℕ × V)
  insert new y [] = (new, y) ∷ []
  insert new y ((key, x) ∷ tail) =
      if key == new then (new, y) ∷ tail else (key, x) ∷ insert new y tail

  pub lookup-insert :
      (new wanted : ℕ) (y : V) (entries : List (ℕ × V))
      → lookup wanted (insert new y entries)
        ≡ (if new == wanted then some y else lookup wanted entries)
  unfolding lookup insert
  lookup-insert new wanted y [] = refl
  lookup-insert new wanted y ((key, x) ∷ tail) = ground (arith, lookup-insert new wanted y tail)

  pub lookup-insert_self :
      (new : ℕ) (y : V) (entries : List (ℕ × V)) → lookup new (insert new y entries) ≡ some y
  lookup-insert_self new y entries = ground (arith, lookup-insert new new y entries)
