-- ===== src/Game/Manager/Speaking.antt =====
-- The players of a manager have sent nothing but answers of the game.
use test_go_server.Prelude.{
  ℕ, ◌≡◌, refl, sym, subst, inl, inr, List, Option, none, some, ◌==◌, lookup, insert, arith,
  lookup-insert, Bool-cases,
}
use test_go_server.Game.Player.{PlayerProfile, Player, new_player, on_offline}
use test_go_server.Game.Player.Replying.{AllSaid, on_resume-replies, on_offline-replies}
use test_go_server.Game.Manager.{
  Store, Loaded, load_error, profile_of, PlayerManager, get_or_create, mark_offline, found, created,
  save_and_create, load_and_create, get_or_make, leave,
}

abbrev pub AllSpeak : List (ℕ × Player) → Type 0
AllSpeak m = (k : ℕ) (p : Player) → lookup k m ≡ some p → AllSaid p.replies

pub put-AllSpeak :
    (k : ℕ) (p : Player) (m : List (ℕ × Player))
    → AllSaid p.replies
    → AllSpeak m
    → AllSpeak (insert k p m)
put-AllSpeak k p m new old j q e = elim (Bool-cases (k == j)) [
  | inl here ↦
      let same : p ≡ q = ground (arith, lookup-insert k j p m, e, here) in
      subst (λ r. AllSaid r.replies) same new
  | inr other ↦ old j q (ground (arith, lookup-insert k j p m, e, other))
]

module _ {D : Type 0} (store : Store D) where
  found-AllSpeak :
      (s k : ℕ) (p : Player) (m : PlayerManager D)
      → AllSaid p.replies
      → AllSpeak m.players
      → AllSpeak (found store s k p m).players
  unfolding found
  found-AllSpeak s k p m said old =
      put-AllSpeak k _ m.players
        (subst AllSaid (sym (on_resume-replies s (record p { session_id = s }))) said) old

  created-AllSpeak :
      (s k : ℕ) (f : PlayerProfile) (m : PlayerManager D)
      → AllSpeak m.players
      → AllSpeak (created store s k f m).players
  unfolding created new_player lookup
  created-AllSpeak s k f m old =
      put-AllSpeak k _ m.players (λ ch r env e. absurd (ground (arith, e))) old

  saved-AllSpeak :
      (s k : ℕ) (f : PlayerProfile) (m : PlayerManager D)
      → AllSpeak m.players
      → AllSpeak (save_and_create store s k f m).0.players
  unfolding save_and_create
  saved-AllSpeak s k f m old =
      let m' = record m { db = (store.save_profile f m.db).0 } in
      elim (Bool-cases (store.save_profile f m.db).1) [
        | inl e ↦ rw e (created-AllSpeak s k f m' old)
        | inr e ↦ rw e old
      ]

  loaded-AllSpeak :
      (s k : ℕ) (l : Loaded) (m : PlayerManager D)
      → AllSpeak m.players
      → AllSpeak (load_and_create store s k l m).0.players
  unfolding load_and_create
  loaded-AllSpeak s k load_error m old = old
  loaded-AllSpeak s k (profile_of (some f)) m old = created-AllSpeak s k f m old
  loaded-AllSpeak s k (profile_of none) m old = saved-AllSpeak s k _ m old

  made-AllSpeak :
      (s k : ℕ) (o : Option Player) (m : PlayerManager D)
      → lookup k m.players ≡ o
      → AllSpeak m.players
      → AllSpeak (get_or_make store s k o m).0.players
  unfolding get_or_make
  made-AllSpeak s k none m e old = loaded-AllSpeak s k _ m old
  made-AllSpeak s k (some p) m e old = found-AllSpeak s k p m (old k p e) old

  pub get_or_create-AllSpeak :
      (s k : ℕ) (m : PlayerManager D)
      → AllSpeak m.players
      → AllSpeak (get_or_create store s k m).0.players
  unfolding get_or_create
  get_or_create-AllSpeak s k m old = made-AllSpeak s k (lookup k m.players) m refl old

  left-AllSpeak :
      (k : ℕ) (o : Option Player) (m : PlayerManager D)
      → lookup k m.players ≡ o
      → AllSpeak m.players
      → AllSpeak (leave store k o m).players
  unfolding leave
  left-AllSpeak k none m e old = old
  left-AllSpeak k (some p) m e old =
      put-AllSpeak k (on_offline p) m.players
        (subst AllSaid (sym (on_offline-replies p)) (old k p e)) old

  pub mark_offline-AllSpeak :
      (k : ℕ) (m : PlayerManager D) → AllSpeak m.players → AllSpeak (mark_offline store k m).players
  unfolding mark_offline
  mark_offline-AllSpeak k m old = left-AllSpeak k (lookup k m.players) m refl old
