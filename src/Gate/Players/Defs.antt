-- ===== src/Gate/Players/Defs.antt =====
-- A relation between the IDs of the kept sessions and their players, and when it carries over.
use test_go_server.Prelude.{
  ℕ, ◌≡◌, ap, sym, subst, ◌∙◌, some, Bool, true, false, ◌==◌, if◌then◌else◌, arith, inl, inr,
  lookup, delete, lookup-insert, lookup-delete, Bool-cases, ==_iff, List,
}
use test_go_server.Gate.State.{Session, Gate, put_session}
use test_go_server.Gate.Invariant.Defs.{Same}

-- Every session is kept under its own ID, and K holds of the ID and the session's player; it holds
-- of every ID and 0, which is no player.
pub record Players (K : ℕ → ℕ → Type 0) (g : Gate) : Type 0 where
  pub nobody : (id : ℕ) → K id 0
  pub known :
      (k : ℕ) (s : Session) → lookup k g.by_session ≡ some s → (s.id ≡ k) × K s.id s.player_id

pub Players-map :
    {K L : ℕ → ℕ → Type 0} {g : Gate}
    → ((id player : ℕ) → K id player → L id player)
    → Players K g
    → Players L g
Players-map f v = record {
  nobody = λ id. f id 0 (v.nobody id);
  known = λ k s e. let (keyed, has) = v.known k s e in (keyed, f s.id s.player_id has);
}

pub Players-Same : {K : ℕ → ℕ → Type 0} {g h : Gate} → Same g h → Players K g → Players K h
Players-Same p v = record {
  nobody = v.nobody;
  known = λ k s e. v.known k s (ap (lookup k) (sym p.sessions) ∙ e);
}

pub Players-if :
    {K : ℕ → ℕ → Type 0} {x y : Gate} (b : Bool)
    → Players K x
    → Players K y
    → Players K (if b then x else y)
Players-if true p q = p
Players-if false p q = q

-- A session whose player is known is put under its ID; the player index and the next ID are no
-- matter.
pub Players-put :
    {K : ℕ → ℕ → Type 0} (g : Gate) (s : Session)
    → K s.id s.player_id
    → Players K g
    → Players K (put_session s g)
Players-put {K} g s has v = record {
  nobody = v.nobody;
  known = λ k t e. elim (Bool-cases (s.id == k)) [
    | inl here ↦
        let same : s ≡ t = ground (arith, lookup-insert s.id k s g.by_session) in
        let keyed : s.id ≡ k = (==_iff s.id k).0 here in
        subst (λ r. (r.id ≡ k) × K r.id r.player_id) same (keyed, has)
    | inr other ↦
        let old : lookup k g.by_session ≡ some t =
          ground (arith, lookup-insert s.id k s g.by_session) in
        v.known k t old
  ];
}

pub Players-delete :
    {K : ℕ → ℕ → Type 0} (g : Gate) (id : ℕ) (m : List (ℕ × ℕ))
    → Players K g
    → Players K (record g { by_player = m; by_session = delete id g.by_session })
Players-delete g id m v = record {
  nobody = v.nobody;
  known = λ k s e.
      let old : lookup k g.by_session ≡ some s = ground (arith, lookup-delete id k g.by_session) in
      v.known k s old;
}
