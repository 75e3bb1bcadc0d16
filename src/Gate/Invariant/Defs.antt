-- ===== src/Gate/Invariant/Defs.antt =====
-- The invariant, and when it carries over.
use test_go_server.Prelude.{
  List, ℕ, ◌≤◌, ◌<◌, ◌≡◌, ◌≢◌, refl, ◌∙◌, ap, ◌⊎◌, inl, inr, none, some, lookup, lookup-insert,
  ◌==◌, if◌then◌else◌, arith, Bool-cases, ==_iff, true, false, Bool, sym,
}
use test_go_server.Gate.State.{init, authenticated, offline, closed, Session, Gate, put_session}

-- What holds of the session that is kept under the ID k: the ID is its own and not 0, it is in one
-- of the four states of a kept session, it has no connection when offline, it lacks one only when
-- offline or authenticated, and its connection exists and is bound to it.
pub record Good (g : Gate) (k : ℕ) (s : Session) : Type 0 where
  pub keyed : s.id ≡ k
  pub named : k ≢ 0
  pub begun : s.state ≢ init
  pub kept : s.state ≢ closed
  pub unplugged : s.state ≡ offline → s.conn ≡ none
  pub plugged : s.conn ≡ none → (s.state ≡ offline) ⊎ (s.state ≡ authenticated)
  pub bound : (c : ℕ) → s.conn ≡ some c → ((g.conns c).session_id ≡ k) × (c < g.next_conn)

pub record Inv (g : Gate) : Type 0 where
  pub good : (k : ℕ) (s : Session) → lookup k g.by_session ≡ some s → Good g k s

-- The sessions, and which connection belongs to which session, are as they were.
pub record Same (g h : Gate) : Type 0 where
  pub sessions : h.by_session ≡ g.by_session
  pub ids : (c : ℕ) → (h.conns c).session_id ≡ (g.conns c).session_id
  pub limit : h.next_conn ≡ g.next_conn
  pub next : h.next_id ≡ g.next_id

-- The connections alone: which session each belongs to, and how many there are.
pub record SameConns (g h : Gate) : Type 0 where
  pub ids : (c : ℕ) → (h.conns c).session_id ≡ (g.conns c).session_id
  pub limit : h.next_conn ≡ g.next_conn
  pub next : h.next_id ≡ g.next_id

pub SameConns-refl : (g : Gate) → SameConns g g
SameConns-refl g = record { ids = λ c. refl; limit = refl; next = refl }

pub SameConns-trans : {f g h : Gate} → SameConns f g → SameConns g h → SameConns f h
SameConns-trans p q = record {
  ids = λ c. q.ids c ∙ p.ids c;
  limit = q.limit ∙ p.limit;
  next = q.next ∙ p.next;
}

pub SameConns-if :
    {g x y : Gate} (b : Bool) → SameConns g x → SameConns g y → SameConns g (if b then x else y)
SameConns-if true p q = p
SameConns-if false p q = q

-- A change of the sessions and the player index alone.
pub sessions-SameConns :
    (g : Gate) (m : List (ℕ × Session)) (n : List (ℕ × ℕ))
    → SameConns g (record g { by_session = m; by_player = n })
sessions-SameConns g m n = record { ids = λ c. refl; limit = refl; next = refl }

pub Same-conns : {g h : Gate} → Same g h → SameConns g h
Same-conns p = record { ids = p.ids; limit = p.limit; next = p.next }

pub Same-refl : (g : Gate) → Same g g
Same-refl g = record { sessions = refl; ids = λ c. refl; limit = refl; next = refl }

pub Same-trans : {f g h : Gate} → Same f g → Same g h → Same f h
Same-trans p q = record {
  sessions = q.sessions ∙ p.sessions;
  ids = λ c. q.ids c ∙ p.ids c;
  limit = q.limit ∙ p.limit;
  next = q.next ∙ p.next;
}

pub Same-if : {g x y : Gate} (b : Bool) → Same g x → Same g y → Same g (if b then x else y)
Same-if true p q = p
Same-if false p q = q

pub Good-conns :
    (g h : Gate) (k : ℕ) (s : Session)
    → ((c : ℕ) → s.conn ≡ some c → (h.conns c).session_id ≡ (g.conns c).session_id)
    → g.next_conn ≤ h.next_conn
    → Good g k s
    → Good h k s
Good-conns g h k s ids limit v = record {
  keyed = v.keyed;
  named = v.named;
  begun = v.begun;
  kept = v.kept;
  unplugged = v.unplugged;
  plugged = v.plugged;
  bound = λ c e. (ids c e ∙ (v.bound c e).0, omega (arith, (v.bound c e).1));
}

pub Inv-Same : {g h : Gate} → Same g h → Inv g → Inv h
Inv-Same {g} {h} p v = record {
  good = λ k s e.
      Good-conns g h k s (λ c _. p.ids c) (omega (arith, p.limit))
        (v.good k s (ap (lookup k) (sym p.sessions) ∙ e));
}

Good-put :
    (g : Gate) (s : Session) (k : ℕ) (t : Session)
    → Inv g
    → Good g s.id s
    → lookup k (put_session s g).by_session ≡ some t
    → Good (put_session s g) k t
Good-put g s k t v good e = elim (Bool-cases (s.id == k)) [
  | inl here ↦
      let same : s ≡ t = ground (arith, lookup-insert s.id k s g.by_session) in
      let there : s.id ≡ k = (==_iff s.id k).0 here in
      rw (← same, ← there) (Good-conns g (put_session s g) s.id s (λ c _. refl) (omega arith) good)
  | inr other ↦
      let old : lookup k g.by_session ≡ some t =
        ground (arith, lookup-insert s.id k s g.by_session) in
      Good-conns g (put_session s g) k t (λ c _. refl) (omega arith) (v.good k t old)
]

-- A session that is good where it is put keeps the invariant.
pub Inv-put : (g : Gate) (s : Session) → Inv g → Good g s.id s → Inv (put_session s g)
Inv-put g s v good = record { good = λ k t e. Good-put g s k t v good e }

-- A connection belongs to one session at most.
pub conn_owner :
    {g : Gate} {k l : ℕ} {s t : Session} (c : ℕ)
    → Good g k s
    → Good g l t
    → s.conn ≡ some c
    → t.conn ≡ some c
    → k ≡ l
conn_owner c p q e f = sym (p.bound c e).0 ∙ (q.bound c f).0

pub Inv-if : {x y : Gate} (b : Bool) → Inv x → Inv y → Inv (if b then x else y)
Inv-if true p q = p
Inv-if false p q = q
