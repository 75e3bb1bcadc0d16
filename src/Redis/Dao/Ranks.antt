-- ===== src/Redis/Dao/Ranks.antt =====
-- The best of a sorted set.
use test_go_server.Prelude.{
  ℕ, zero, suc, ◌-◌, ◌≡◌, ◌∙◌, ap, refl, ℤ, pos, negsuc, pred, lower_positive, List, [], ◌∷◌,
  Option, none, some, ◌==◌, if◌then◌else◌, take, length, arith,
}
use test_go_server.Protocol.{Bytes}
use test_go_server.Redis.Keys.{key_rank}
use test_go_server.Redis.Dao.{Client, Z, get_top_n, z_top_n_max, z_max_score}

-- The elements of a list from its first to the index `stop`, which counts from the end if it is
-- negative.
unfoldable pub up_to {ℓ} : {A : Type ℓ} → ℤ → List A → List A
up_to (pos n) xs = take (suc n) xs
up_to (negsuc n) xs = take (length xs - n) xs

abbrev pub members : List Z → List Bytes
members [] = []
members (z ∷ zs) = z.member ∷ members zs

-- A sorted set as Redis documents it: its members with the greatest score first, and the commands
-- that read it.
pub record Ranked {D : Type 0} (client : Client D) (key : Bytes) (d : D) (zs : List Z)
    : Type 0 where
  pub with_scores :
      (stop : ℤ) → client.z_rev_range_with_scores key (pos 0) stop d ≡ some (up_to stop zs)
  pub names : (stop : ℤ) → client.z_rev_range key (pos 0) stop d ≡ some (up_to stop (members zs))

abbrev pub best : List Z → Option ℕ
best [] = none
best (z ∷ zs) = some z.score

all_of : {A : Type 0} (xs : List A) → take (length xs) xs ≡ xs
all_of [] = refl
all_of (x ∷ xs) = ap (◌∷◌ x) (all_of xs)

top-Ranked :
    {D : Type 0} (client : Client D) (rank : Bytes) (d : D) (zs : List Z) (n : ℕ)
    → Ranked client (key_rank rank) d zs
    → get_top_n client rank (pos n) d ≡ some (if n == 0 then zs else take n zs)
unfolding get_top_n pred up_to
top-Ranked client rank d zs zero v =
    v.with_scores (negsuc 0) ∙ ap some (ap (λ k. take k zs) (omega arith) ∙ all_of zs)
top-Ranked client rank d zs (suc n) v = v.with_scores (pos n) ∙ ground arith

max-Ranked :
    {D : Type 0} (client : Client D) (key : Bytes) (d : D) (zs : List Z)
    → Ranked client key d zs
    → z_max_score client key d ≡ some (best zs)
unfolding z_max_score up_to
max-Ranked client key d [] v = rw (v.with_scores (pos 0), z_max_score) refl
max-Ranked client key d (z ∷ zs) v = rw (v.with_scores (pos 0), z_max_score) refl

highest-Ranked :
    {D : Type 0} (client : Client D) (key : Bytes) (d : D) (zs : List Z) (n : ℕ)
    → Ranked client key d zs
    → z_top_n_max client key (pos n) d ≡ some (take (if n == 0 then 1 else n) (members zs))
unfolding z_top_n_max lower_positive up_to
highest-Ranked client key d zs zero v = v.names (pos 0)
highest-Ranked client key d zs (suc n) v = v.names (pos n) ∙ ground arith

-- On a sorted set as Redis documents it, GetTopN of a number above 0 gives that many of the best
-- with their scores, or all if there are fewer, but GetTopN of 0 gives all of them; ZTopNMax of a
-- number above 0 gives the names of that many of the best, but ZTopNMax of 0 that of one; and
-- ZMaxScore gives the score of the best, or redis.Nil if there is none.
pub get_top_n-Ranked :
    {D : Type 0} (client : Client D) (rank : Bytes) (d : D) (zs : List Z) (n : ℕ)
    → Ranked client (key_rank rank) d zs
    → (get_top_n client rank (pos n) d ≡ some (if n == 0 then zs else take n zs))
      × (z_top_n_max client (key_rank rank) (pos n) d
          ≡ some (take (if n == 0 then 1 else n) (members zs)))
      × (z_max_score client (key_rank rank) d ≡ some (best zs))
get_top_n-Ranked client rank d zs n v = (
  top-Ranked client rank d zs n v,
  highest-Ranked client (key_rank rank) d zs n v,
  max-Ranked client (key_rank rank) d zs v,
)
