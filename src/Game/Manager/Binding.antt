-- ===== src/Game/Manager/Binding.antt =====
-- Players and sessions stay bound to each other.
use test_go_server.Prelude.{
  ℕ, ◌≡◌, refl, ap, ◌∙◌, ◌⊎◌, inl, inr, List, Option, none, some, ◌==◌, lookup, insert, delete,
  arith, lookup-insert, lookup-delete, lookup-insert_self, Bool-cases, ==_iff,
}
use test_go_server.Game.Player.{
  active, offline, PlayerError, load_failed, save_failed, PlayerProfile, Player, new_player,
  on_resume, on_offline,
}
use test_go_server.Game.Manager.{
  Store, Loaded, load_error, profile_of, PlayerManager, get_or_create, mark_offline,
  get_by_session_id, found, created, save_and_create, load_and_create, get_or_make, leave,
}

-- A player that the manager keeps under k: it has that ID, and it is active or offline.
pub record Kept (k : ℕ) (p : Player) : Type 0 where
  pub keyed : p.player_id ≡ k
  pub alive : (p.state ≡ active) ⊎ (p.state ≡ offline)

pub record Inv {D : Type 0} (m : PlayerManager D) : Type 0 where
  pub kept : (k : ℕ) (p : Player) → lookup k m.players ≡ some p → Kept k p

-- What a manager offers for a session: an active player of that ID, on that session.
pub record Serves {D : Type 0} (s k : ℕ) (m : PlayerManager D) : Type 0 where
  pub player : Player
  pub found : lookup k m.players ≡ some player
  pub by_session : get_by_session_id s m ≡ some player
  pub owner : player.player_id ≡ k
  pub session : player.session_id ≡ s
  pub state : player.state ≡ active

resumed-fields :
    (s : ℕ) (p : Player)
    → (p.state ≡ active) ⊎ (p.state ≡ offline)
    → let q = on_resume s (record p { session_id = s }) in
      (q.player_id ≡ p.player_id) × (q.session_id ≡ s) × (q.state ≡ active)
unfolding on_resume
resumed-fields s p (inl e) = rw e (refl, refl, refl)
resumed-fields s p (inr e) = rw e (refl, refl, refl)

left-fields :
    (p : Player)
    → (p.state ≡ active) ⊎ (p.state ≡ offline)
    → ((on_offline p).player_id ≡ p.player_id) × ((on_offline p).state ≡ offline)
unfolding on_offline
left-fields p (inl e) = rw e (refl, refl)
left-fields p (inr e) = rw e (refl, refl)

pub Kept-insert :
    (k j : ℕ) (p q : Player) (m : List (ℕ × Player))
    → Kept k p
    → ((r : Player) → lookup j m ≡ some r → Kept j r)
    → lookup j (insert k p m) ≡ some q
    → Kept j q
Kept-insert k j p q m v w e = elim (Bool-cases (k == j)) [
  | inl here ↦
      let same : p ≡ q = ground (arith, lookup-insert k j p m) in
      let there : k ≡ j = (==_iff k j).0 here in rw (← same, ← there) v
  | inr other ↦ w q (ground (arith, lookup-insert k j p m))
]

Serves-put :
    {D : Type 0} (s k : ℕ) (p : Player) (m : PlayerManager D)
    → p.player_id ≡ k
    → p.session_id ≡ s
    → p.state ≡ active
    → (ss : List (ℕ × ℕ)) → lookup s ss ≡ some k
    → Serves s k (record m { players = insert k p m.players; sessions = ss })
unfolding get_by_session_id
Serves-put s k p m a b c ss e = record {
  player = p;
  found = lookup-insert_self k p m.players;
  by_session = rw e (lookup-insert_self k p m.players);
  owner = a;
  session = b;
  state = c;
}

-- What GetOrCreate makes sure of.
record Made {D : Type 0} (s k : ℕ) (r : PlayerManager D × Option PlayerError) : Type 0 where
  inv : Inv r.0
  serves : r.1 ≡ none → Serves s k r.0

module _ {D : Type 0} (store : Store D) where
  found-Made :
      (s k : ℕ) (p : Player) (m : PlayerManager D)
      → Inv m
      → Kept k p
      → Made s k (found store s k p m, none)
  unfolding found
  found-Made s k p m v w =
      let (a, b, c) = resumed-fields s p w.alive in
      record {
        inv = record {
          kept = λ j q e.
              Kept-insert k j _ q m.players (record { keyed = a ∙ w.keyed; alive = inl c })
                (v.kept j) e;
        };
        serves = λ _.
            Serves-put s k _ m (a ∙ w.keyed) b c _
              (lookup-insert_self s p.player_id m.sessions ∙ ap some w.keyed);
      }

  created-Made :
      (s k : ℕ) (f : PlayerProfile) (m : PlayerManager D)
      → Inv m
      → Made s k (created store s k f m, none)
  unfolding created new_player
  created-Made s k f m v = record {
    inv = record {
      kept = λ j q e.
          Kept-insert k j _ q m.players (record { keyed = refl; alive = inl refl }) (v.kept j) e;
    };
    serves = λ _. Serves-put s k _ m refl refl refl _ (lookup-insert_self s k m.sessions);
  }

  refused-Made :
      (s k : ℕ) (err : PlayerError) (m : PlayerManager D) → Inv m → Made s k (m, some err)
  refused-Made s k err m v = record { inv = v; serves = λ e. absurd (ground (arith, e)) }

  saved-Made :
      (s k : ℕ) (f : PlayerProfile) (m : PlayerManager D)
      → Inv m
      → Made s k (save_and_create store s k f m)
  unfolding save_and_create
  saved-Made s k f m v =
      let m' = record m { db = (store.save_profile f m.db).0 } in
      let w : Inv m' = record { kept = v.kept } in
      elim (Bool-cases (store.save_profile f m.db).1) [
        | inl e ↦ rw e (created-Made s k f m' w)
        | inr e ↦ rw e (refused-Made s k save_failed m' w)
      ]

  loaded-Made :
      (s k : ℕ) (l : Loaded) (m : PlayerManager D)
      → Inv m
      → Made s k (load_and_create store s k l m)
  unfolding load_and_create
  loaded-Made s k load_error m v = refused-Made s k load_failed m v
  loaded-Made s k (profile_of (some f)) m v = created-Made s k f m v
  loaded-Made s k (profile_of none) m v = saved-Made s k _ m v

  made :
      (s k : ℕ) (o : Option Player) (m : PlayerManager D)
      → Inv m
      → lookup k m.players ≡ o
      → Made s k (get_or_make store s k o m)
  unfolding get_or_make
  made s k none m v e = loaded-Made s k _ m v
  made s k (some p) m v e = found-Made s k p m v (v.kept k p e)

  -- When the invariant of the players holds, GetOrCreate keeps it, also when it fails. When it
  -- succeeds, the manager has an active player of the ID given, whose session is the one given
  -- and who is found by that session.
  pub get_or_create-Serves :
      (s k : ℕ) (m : PlayerManager D)
      → Inv m
      → Inv (get_or_create store s k m).0
        × ((get_or_create store s k m).1 ≡ none → Serves s k (get_or_create store s k m).0)
  unfolding get_or_create
  get_or_create-Serves s k m v = let r = made s k _ m v refl in (r.inv, r.serves)

  -- When the invariant of the players holds, MarkOffline of a player that is there keeps it,
  -- takes the player offline, hands its profile to the store and takes its session out, which
  -- then leads to player 0, if there is one, and to no player otherwise.
  pub mark_offline-Left :
      (k : ℕ) (p : Player) (m : PlayerManager D)
      → Inv m
      → lookup k m.players ≡ some p
      → Inv (mark_offline store k m)
        × ((mark_offline store k m).db ≡ (store.save_profile p.profile m.db).0)
        × (lookup k (mark_offline store k m).players ≡ some (on_offline p))
        × ((on_offline p).state ≡ offline)
        × (get_by_session_id p.session_id (mark_offline store k m)
            ≡ lookup 0 (mark_offline store k m).players)
  unfolding mark_offline leave get_by_session_id
  mark_offline-Left k p m v e =
      let w = v.kept k p e in
      let (a, b) = left-fields p w.alive in
      let gone : lookup p.session_id (delete p.session_id m.sessions) ≡ none =
        ground (arith, lookup-delete p.session_id p.session_id m.sessions) in
      rw (e, gone)
        (
          record {
            kept = λ j q f.
                Kept-insert k j _ q m.players (record { keyed = a ∙ w.keyed; alive = inr b })
                  (v.kept j) f;
          },
          refl,
          lookup-insert_self k (on_offline p) m.players,
          b,
          refl,
        )
