-- ===== src/Tests/RedisCases.antt =====
-- A database of texts, its counter and a board, and the store over it.
use test_go_server.Prelude.{
  lookup, ℕ, ◌+◌, ◌<◌, ◌^◌, ◌≡◌, ◌≢◌, refl, ap, sym, ◌∙◌, ◌⊎◌, inl, inr, List, [], ◌∷◌, Option,
  none, some, true, false, if◌then◌else◌, arith, Bool-cases,
}
use test_go_server.Protocol.{Bytes}
use test_go_server.Text.{format_int64, bytes_eq, bytes_eq_refl, bytes_eq_sound}
use test_go_server.Text.Decimal.{parse_int64, parse_int64-format_int64}
use test_go_server.Redis.Keys.{key_uid_next, account_role_key, player_profile_key}
use test_go_server.Redis.Dao
use test_go_server.Redis.Dao.{
  Reply, nil, failed, value, Client, Z, get_top_n, z_top_n_max, z_max_score,
}
use test_go_server.Redis.Dao.Ranks.{up_to, members}
use test_go_server.Game.Player.{PlayerProfile, new_profile, Player, active, new_player}
use test_go_server.Game.Manager.{
  profile_of, PlayerManager, new_player_manager, get_or_create, mark_offline,
}
use test_go_server.Service.Login.{resolve_role_id}
use test_go_server.Service.Login.Stable.{Remembers}
use test_go_server.PlayerDb.{
  Json, load_role_id, save_role_id, load_profile, save_profile, redis_login, redis_store,
  redis_accounts,
}
use test_go_server.PlayerDb.Accounts.{Written, Sets, redis_accounts-Remembers}
use test_go_server.PlayerDb.Unique.{Counter, Counts}
use test_go_server.PlayerDb.Roles.{Event, login, saving, event, events, events-distinct}
use test_go_server.PlayerDb.Holding.Staying.{events-resolve}
use test_go_server.PlayerDb.Restart.{get_or_create-mark_offline}
use test_go_server.PlayerDb.Profiles.{load_profile-save_profile}

abbrev pub Texts : Type 0
Texts = Bytes → Reply

abbrev pub board : List Z
board = record { member = b'a' ∷ []; score = 30 } ∷ record { member = b'b' ∷ []; score = 20 } ∷ []

abbrev pub put : Bytes → Bytes → Texts → Texts
put key text d j = if bytes_eq j key then value text else d j

abbrev pub counted : Option ℕ → Bytes → Texts → Texts × Option ℕ
counted none key d = (d, none)
counted (some n) key d = (put key (format_int64 (n + 1)) d, some (n + 1))

abbrev pub count_of : Reply → Option ℕ
count_of nil = some 0
count_of failed = none
count_of (value text) = parse_int64 text

abbrev pub toy_client : Client Texts
toy_client = record {
  get = λ key d. d key;
  set = λ key text ttl d. (put key text d, true);
  incr = λ key d. counted (count_of (d key)) key d;
  exists_count = λ key d. none;
  h_get_all = λ key d. none;
  h_set = λ key fields d. (d, false);
  z_add = λ key z d. (d, false);
  z_range = λ key start stop d. none;
  z_rev_range = λ key start stop d. some (up_to stop (members board));
  z_rev_range_with_scores = λ key start stop d. some (up_to stop board);
}

put-Written : (key text : Bytes) (d : Texts) → Written toy_client key text d (put key text d)
put-Written key text d = record {
  here = ground (arith, bytes_eq_refl key);
  there = λ j apart. elim (Bool-cases (bytes_eq j key)) [
    | inl e ↦ absurd (apart (bytes_eq_sound j key e))
    | inr e ↦ ground (arith, e)
  ];
}

pub toy_client-Sets : Sets toy_client
toy_client-Sets = record { writes = λ key text d. inl (put-Written key text d) }

pub toy_client-Counts : Counts toy_client
toy_client-Counts = record { counts = λ n d c room. inl (by_counter n d c room) }
  where
    counting :
        (n : ℕ) (d : Texts)
        → count_of (d key_uid_next) ≡ some n
        → Written toy_client key_uid_next
            (format_int64 (n + 1))
            d
            (toy_client.incr key_uid_next d).0
          × (((toy_client.incr key_uid_next d).1 ≡ some (n + 1))
              ⊎ ((toy_client.incr key_uid_next d).1 ≡ none))
    counting n d e = rw e (put-Written key_uid_next (format_int64 (n + 1)) d, inl refl)

    by_counter :
        (n : ℕ) (d : Texts)
        → Counter toy_client n d
        → n + 1 < 2 ^ 63
        → Written toy_client key_uid_next
            (format_int64 (n + 1))
            d
            (toy_client.incr key_uid_next d).0
          × (((toy_client.incr key_uid_next d).1 ≡ some (n + 1))
              ⊎ ((toy_client.incr key_uid_next d).1 ≡ none))
    by_counter n d (inl e) room =
        counting n d (ap count_of e ∙ parse_int64-format_int64 n (omega (arith, room)))
    by_counter n d (inr (e, z)) room = counting n d (ap count_of e ∙ ap some (sym z))

abbrev pub sample : PlayerProfile
sample = new_profile 1 (b'x' ∷ [])

-- It knows one profile.
abbrev pub toy_json : Json
toy_json = record { marshal = λ f. some (b'{' ∷ b'}' ∷ []); unmarshal = λ text. some sample }

abbrev pub empty_db : Texts
empty_db key = nil

redis_accounts-Remembers_example : Remembers (redis_accounts toy_client toy_json)
redis_accounts-Remembers_example = redis_accounts-Remembers toy_client toy_json toy_client-Sets

abbrev history : List Event
history = login (b'x' ∷ []) ∷ saving sample ∷ login (b'y' ∷ []) ∷ login (b'x' ∷ []) ∷ []

has_one :
    load_role_id toy_client (b'x' ∷ []) (events toy_client toy_json history empty_db)
    ≡ some (some 1)
unfolding load_role_id events event resolve_role_id save_profile bytes_eq account_role_key
    player_profile_key test_go_server.Redis.Dao.next_uid save_role_id parse_int64 format_int64
has_one = refl

abbrev account_x : Bytes
account_x = b'x' ∷ []

events-distinct_example : account_x ≡ account_x
events-distinct_example =
    events-distinct toy_client toy_json toy_client-Sets toy_client-Counts history account_x
      account_x 1 empty_db (λ key. refl) (omega arith) has_one has_one

-- The account x gets the second ID.
has_two :
    let svc = redis_login toy_client toy_json in
    (resolve_role_id svc account_x (events toy_client toy_json (login (b'y' ∷ []) ∷ []) empty_db)).1
    ≡ some (2, false)
unfolding load_role_id events event resolve_role_id save_profile bytes_eq account_role_key
    player_profile_key test_go_server.Redis.Dao.next_uid save_role_id parse_int64 format_int64
has_two = refl

events-resolve_example :
    let svc = redis_login toy_client toy_json in
    let before = events toy_client toy_json (login (b'y' ∷ []) ∷ []) empty_db in
    let after =
      events toy_client toy_json history (event toy_client toy_json (login account_x) before) in
    resolve_role_id svc account_x after ≡ (after, some (2, true))
events-resolve_example =
    events-resolve toy_client toy_json toy_client-Sets toy_client-Counts (login (b'y' ∷ []) ∷ [])
      history account_x 2 false empty_db (λ key. refl) (omega arith) (ground arith) has_two

load_profile-save_profile_example :
    ((save_profile toy_client toy_json sample empty_db).1 ≡ true
      → load_profile toy_client toy_json sample.role_id
          (save_profile toy_client toy_json sample empty_db).0
        ≡ profile_of (some sample))
    × ((i : ℕ)
        → i < 2 ^ 64
        → i ≢ sample.role_id
        → load_profile toy_client toy_json i (save_profile toy_client toy_json sample empty_db).0
          ≡ load_profile toy_client toy_json i empty_db)
unfolding new_profile
load_profile-save_profile_example =
    load_profile-save_profile toy_client toy_json toy_client-Sets sample empty_db (λ text e. refl)
      (omega arith) (omega arith)

abbrev playing : Player
playing = new_player 1 5 sample

-- The player 1 is on session 5.
abbrev one_player : PlayerManager Texts
one_player = record { players = (1, playing) ∷ []; sessions = (5, 1) ∷ []; db = empty_db }

get_or_create-mark_offline_example :
    let store = redis_store toy_client toy_json in
    let r = get_or_create store 6 1 (new_player_manager (mark_offline store 1 one_player).db) in
    (r.1 ≡ none)
    × (q : Player) × (lookup 1 r.0.players ≡ some q)
    × (q.player_id ≡ 1)
    × (q.session_id ≡ 6)
    × (q.profile ≡ playing.profile)
    × (q.state ≡ active)
unfolding new_player new_profile lookup save_profile
get_or_create-mark_offline_example =
    get_or_create-mark_offline toy_client toy_json toy_client-Sets 6 1 playing one_player refl refl
      (omega arith) (omega arith) (λ text e. refl) refl
