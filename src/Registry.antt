-- ===== src/Registry.antt =====
-- internal/handler/registry.go: the shared table from message numbers to handlers.
use test_go_server.Prelude.{
  ℕ, ◌≡◌, ◌≢◌, List, Option, none, some, arith, lookup, insert, lookup-insert, ◌==◌, if◌then◌else◌,
  ◌⊎◌, inl, inr, Option-cases,
}
use test_go_server.Protocol.{Error, already_registered}

abbrev pub Registry {ℓ} : Type ℓ → Type ℓ
Registry T = List (ℕ × T)

module _ {ℓ} {T : Type ℓ} where
  unfoldable pub get : ℕ → Registry T → Option T
  get msg r = lookup msg r

  -- The registry afterwards, and the error if the number was taken.
  unfoldable pub register : ℕ → T → Registry T → Registry T × Option Error
  register msg h r = elim (lookup msg r) [
    | some old ↦ (r, some already_registered)
    | none ↦ (insert msg h r, none)
  ]

  -- A registration either succeeds, and then exactly the given number finds the new handler and
  -- all others find what they did, or it fails because the number was taken, and changes nothing.
  pub get-register :
      (msg j : ℕ) (h : T) (r : Registry T)
      → ((get msg r ≡ none)
          × ((register msg h r).1 ≡ none)
          × (get j (register msg h r).0 ≡ (if msg == j then some h else get j r)))
        ⊎ ((get msg r ≢ none)
            × ((register msg h r).1 ≡ some already_registered)
            × ((register msg h r).0 ≡ r))
  unfolding get register
  get-register msg j h r = elim (Option-cases (lookup msg r)) [
    | inl e ↦ inl (e, ground arith, ground (arith, lookup-insert msg j h r))
    | inr (old, e) ↦ inr (ground arith, ground arith, ground arith)
  ]
