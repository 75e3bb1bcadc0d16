-- ===== src/PlayerDb/Unique.antt =====
-- No two accounts get the same role ID.
use test_go_server.Prelude.{
  ℕ, ◌+◌, ◌<◌, ◌≤◌, ◌^◌, ◌≡◌, ◌≢◌, ap, sym, ◌∙◌, ◌⊎◌, inl, inr, none, some, arith, Bool-cases,
}
use test_go_server.Protocol.{Bytes}
use test_go_server.Text.{format_int64, bytes_eq, bytes_eq_refl, bytes_eq_sound}
use test_go_server.Text.Decimal.{parse_int64, parse_int64-format_int64}
use test_go_server.Redis.Keys.{key_uid_next, account_role_key}
use test_go_server.Redis.Dao.{nil, value, Client}
use test_go_server.PlayerDb.Accounts.{Written}

-- The counter of IDs: it stands at n, and is not there at first.
abbrev pub Counter : {D : Type 0} → Client D → ℕ → D → Type 0
Counter client n d =
    (client.get key_uid_next d ≡ value (format_int64 n))
    ⊎ ((client.get key_uid_next d ≡ nil) × (n ≡ 0))

-- INCR as Redis documents it, on the counter of IDs below its limit: it counts and tells the new
-- number, or it reports an error and may have counted or not.
pub record Counts {D : Type 0} (client : Client D) : Type 0 where
  pub counts :
      (n : ℕ) (d : D)
      → Counter client n d
      → n + 1 < 2 ^ 63
      → (Written client key_uid_next (format_int64 (n + 1)) d (client.incr key_uid_next d).0
          × (((client.incr key_uid_next d).1 ≡ some (n + 1))
              ⊎ ((client.incr key_uid_next d).1 ≡ none)))
        ⊎ (((client.incr key_uid_next d).1 ≡ none)
            × ((j : Bytes) → client.get j (client.incr key_uid_next d).0 ≡ client.get j d))

-- The IDs of the accounts were given out by the counter, and each to one account.
pub record Unique {D : Type 0} (client : Client D) (n : ℕ) (d : D) : Type 0 where
  pub counter : Counter client n d
  pub issued :
      (a text : Bytes)
      → client.get (account_role_key a) d ≡ value text
      → (i : ℕ) × (text ≡ format_int64 i) × (0 < i) × (i ≤ n)
  pub distinct :
      (a b text : Bytes)
      → client.get (account_role_key a) d ≡ value text
      → client.get (account_role_key b) d ≡ value text
      → a ≡ b

pub format-inj : (i j : ℕ) → i < 2 ^ 64 → j < 2 ^ 64 → format_int64 i ≡ format_int64 j → i ≡ j
format-inj i j lt lt' e =
    let same : some i ≡ some j =
      sym (parse_int64-format_int64 i lt) ∙ ap parse_int64 e ∙ parse_int64-format_int64 j lt' in
    ground arith

pub value-inj : (s t : Bytes) → value s ≡ value t → s ≡ t
value-inj s t e = ground (arith, e)

pub same_account : (a b : Bytes) → (a ≡ b) ⊎ (a ≢ b)
same_account a b = elim (Bool-cases (bytes_eq a b)) [
  | inl e ↦ inl (bytes_eq_sound a b e)
  | inr e ↦ inr (λ same. absurd (ground (arith, e, bytes_eq_refl b, same)))
]

module _ {D : Type 0} (client : Client D) where
  -- Nothing that the invariant looks at has changed, but the counter.
  pub Unique-moved :
      (n m : ℕ) (d d' : D)
      → ((a : Bytes) → client.get (account_role_key a) d' ≡ client.get (account_role_key a) d)
      → Counter client m d'
      → n ≤ m
      → Unique client n d
      → Unique client m d'
  Unique-moved n m d d' same counter le v = record {
    counter = counter;
    issued = λ a text e.
        let (i, t, pos, lt) = v.issued a text (sym (same a) ∙ e) in
        (i, t, pos, omega (arith, lt, le));
    distinct = λ a b text e f. v.distinct a b text (sym (same a) ∙ e) (sym (same b) ∙ f);
  }

  pub Unique-same :
      (n : ℕ) (d d' : D)
      → ((j : Bytes) → client.get j d' ≡ client.get j d)
      → Unique client n d
      → Unique client n d'
  Unique-same n d d' same v =
      Unique-moved n n d d' (λ a. same (account_role_key a)) (moved v.counter) (omega arith) v
    where
      moved : Counter client n d → Counter client n d'
      moved (inl e) = inl (same key_uid_next ∙ e)
      moved (inr (e, z)) = inr (same key_uid_next ∙ e, z)

  -- The newest ID is written for an account.
  pub Unique-written :
      (n : ℕ) (account : Bytes) (d d' : D)
      → n + 1 < 2 ^ 63
      → Unique client n d
      → Counter client (n + 1) d'
      → client.get (account_role_key account) d' ≡ value (format_int64 (n + 1))
      → ((a : Bytes)
          → a ≢ account
          → client.get (account_role_key a) d' ≡ client.get (account_role_key a) d)
      → Unique client (n + 1) d'
  Unique-written n account d d' room v counter here there = record {
    counter = counter;
    issued = λ a text e. elim (same_account a account) [
      | inl same ↦ (n + 1, newest a text same e, omega arith, omega arith)
      | inr other ↦
          let (i, t, pos, le) = v.issued a text (sym (there a other) ∙ e) in
          (i, t, pos, omega (arith, le))
    ];
    distinct = λ a b text e f. elim (same_account a account) [
      | inl same ↦ elim (same_account b account) [
        | inl same' ↦ same ∙ sym same'
        | inr other ↦ absurd (older b text other f (newest a text same e))
      ]
      | inr other ↦ elim (same_account b account) [
        | inl same' ↦ absurd (older a text other e (newest b text same' f))
        | inr other' ↦ v.distinct a b text (sym (there a other) ∙ e) (sym (there b other') ∙ f)
      ]
    ];
  }
    where
      newest :
          (a text : Bytes)
          → a ≡ account
          → client.get (account_role_key a) d' ≡ value text
          → text ≡ format_int64 (n + 1)
      newest a text same e =
          value-inj text (format_int64 (n + 1))
            (sym e ∙ ap (λ x. client.get (account_role_key x) d') same ∙ here)

      older :
          (a text : Bytes)
          → a ≢ account
          → client.get (account_role_key a) d' ≡ value text
          → text ≢ format_int64 (n + 1)
      older a text other e new =
          let (i, t, pos, le) = v.issued a text (sym (there a other) ∙ e) in
          let clash = format-inj i (n + 1) (omega (arith, le)) (omega arith) (sym t ∙ new) in
          omega (arith, clash, le)
