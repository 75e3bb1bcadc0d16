-- ===== src/Tests/GameCases.antt =====
-- A player, and the players of a manager.
use test_go_server.Prelude.{
  ℕ, ◌≡◌, refl, List, [], ◌∷◌, none, some, true, false, if◌then◌else◌, arith, lookup, inl, insert,
}
use test_go_server.Protocol.{Envelope}
use test_go_server.Game.Player.{
  PlayerState, active, offline, destroyed, unknown_message, PlayerProfile, Marshal, Player,
  dispatch, on_resume, loop_turns, destroy,
}
use test_go_server.Game.Player.Dispatching.{answer, dispatch-answer}
use test_go_server.Game.Player.Lifecycle.{loop_turns-destroy}
use test_go_server.Game.Manager.{
  Store, profile_of, PlayerManager, new_player_manager, get_or_create,
}
use test_go_server.Game.Server.{
  handle_envelope, resolve, Work, arrived, persist_ticked, work, work_all,
}
use test_go_server.Game.Server.Runs.{work_all-Kept}
use test_go_server.Game.Server.Rounds.{handle_envelope-answer}
use test_go_server.Game.Manager.Binding.{Inv, Kept, Serves, get_or_create-Serves}

abbrev toy_marshal : Marshal
toy_marshal = record {
  player_init_rsp = λ d. d.gold ∷ [];
  load_player_data_rsp = λ d. d.level ∷ d.gold ∷ [];
}

abbrev profile : PlayerProfile
profile = record {
  role_id = 7;
  account_id = [];
  nick_name = [];
  level = 3;
  exp = 0;
  gold = 50;
  stamina = 10;
}

abbrev seven : PlayerState → Player
seven st = record {
  player_id = 7;
  session_id = 2;
  context_session_id = 2;
  profile = profile;
  inbox = [];
  state = st;
  replies = [];
  next_reply = 0;
  ended = false;
}

abbrev load : Envelope
load = record { msg_id = 3003; session_id = 2; player_id = 7; payload = [] }

dispatch-answer_example :
    ((dispatch toy_marshal 1 3003 load (seven active)).1 ≡ (answer toy_marshal 3003 load profile).0)
    × ((dispatch toy_marshal 1 3003 load (seven active)).2
        ≡ (if (answer toy_marshal 3003 load profile).1 then none else some unknown_message))
dispatch-answer_example =
    dispatch-answer toy_marshal 1 3003 load (seven active) refl refl (omega arith) (omega arith)

loop_turns-destroy_example :
    ((loop_turns toy_marshal 4 (destroy (seven offline))).ended ≡ false)
    × ((destroy (seven offline)).state ≡ destroyed)
loop_turns-destroy_example = loop_turns-destroy toy_marshal 4 (seven offline) refl refl refl

-- A store that keeps the profiles which were saved, and never fails.
abbrev Saved : Type 0
Saved = List (ℕ × PlayerProfile)

abbrev toy_store : Store Saved
toy_store = record {
  load_profile = λ id db. profile_of (lookup id db);
  save_profile = λ f db. (insert f.role_id f db, true);
}

abbrev empty_manager : PlayerManager Saved
empty_manager = record { players = []; sessions = []; db = [] }

abbrev manager : PlayerManager Saved
manager = record { players = (7, seven active) ∷ []; sessions = (2, 7) ∷ []; db = [] }

empty_manager-Inv : Inv empty_manager
unfolding lookup
empty_manager-Inv = record { kept = λ k p e. cc }

manager-Inv : Inv manager
unfolding lookup
manager-Inv = record { kept = λ k p e. record { keyed = ground arith; alive = inl (ground arith) } }

get_or_create-Serves_example :
    Inv (get_or_create toy_store 2 7 empty_manager).0
    × ((get_or_create toy_store 2 7 empty_manager).1 ≡ none
        → Serves 2 7 (get_or_create toy_store 2 7 empty_manager).0)
get_or_create-Serves_example = get_or_create-Serves toy_store 2 7 empty_manager empty_manager-Inv

abbrev history : List Work
history = arrived 3 load ∷ persist_ticked ∷ []

abbrev last_manager : PlayerManager Saved
last_manager = work_all toy_store toy_marshal history (new_player_manager [])

abbrev loaded_player : Player
loaded_player = elim (lookup 7 last_manager.players) [ none ↦ seven active | some p ↦ p ]

is_loaded : lookup 7 last_manager.players ≡ some loaded_player
unfolding lookup work_all work new_player_manager insert
is_loaded = refl

work_all-Kept_example : Kept 7 loaded_player
work_all-Kept_example = work_all-Kept toy_store toy_marshal history [] 7 loaded_player is_loaded

handle_envelope-answer_example :
    (handle_envelope toy_store toy_marshal 1 load manager).1
    ≡ (answer toy_marshal 3003 load profile).0
unfolding get_or_create resolve lookup insert on_resume
handle_envelope-answer_example =
    handle_envelope-answer toy_store toy_marshal 1 load (seven active) manager manager-Inv
      (omega arith) (omega arith) refl refl refl (omega arith) (omega arith)
