-- ===== src/Matches.antt =====
-- internal/server/game, manager.go and config.go: the matches that the server keeps, and who is in which.
-- `none` in `player_to_match` and in `matches` is a key that the map lacks. What the operations do to the
-- game state, to the accounts and to the loops of the matches is not part of this model; the time of an
-- operation, `m.now()`, is an argument.
pub mod Registry
pub mod Operations
pub mod Steps
pub mod Progress
pub mod Clock
use prison_break.Shared.{
  ℕ, zero, suc, ◌+◌, ◌-◌, ◌*◌, ◌/◌, ◌%◌, ◌≤◌, ◌<◌, ◌≡◌, ◌≢◌, ◌↔◌, ◌⊎◌, refl, sym, ap, ap₂, subst,
  ◌∙◌, Bool, true, false, not, ◌&&◌, ◌||◌, List, [], ◌∷◌, ◌++◌, Option, none, some, Perm, arith,
  Text, codes, text_eq, text_lt, text_eq_iff, text_eq_refl, text_eq_sound, text_lt_irrefl,
  text_lt_asymm, text_lt_connected, text_lt_trans, text_lt-ne, text_lt_total, any, All, All-imp,
  All-append, Any, keep, map, length, length-append, length-keep-le, get_or, get_elem?, count_if,
  ltb, leb, ◌==◌, ==_iff, if◌then◌else◌, sort_by, insert_by, IsSorted, IsAscending, order_on,
  sort_by-All, sort_by-Any, sort_by-IsSorted, sort_by_of_IsSorted, length-sort_by, sort_by-perm,
  hash_write, fnv64a, le_bytes, u8, u16, u64, bit_xor, Bool-cases, Option-cases, inl, inr,
  six_digits, trim_space,
}
use prison_break.Model.{
  MatchStatus, MatchId, PlayerId, InputCommand, lobby, running, game_over, no_status,
}
use prison_break.Model.Kinds.{is_running, is_lobby, is_game_over}
use prison_break.Phase
use prison_break.Phase.{
  server_tick_rate_hz, day_phase_duration_seconds, night_phase_duration_seconds,
  max_day_night_cycles,
}
use prison_break.Session.{MatchSession, PlayerSession, is_member}

abbrev pub min_players : ℕ
min_players = 5

abbrev pub max_players : ℕ
max_players = 12

pub record Config : Type 0 where
  pub min_player_count : ℕ
  pub max_player_count : ℕ
  pub tick_rate_hz : ℕ
  pub day_seconds : ℕ
  pub night_seconds : ℕ
  pub max_cycles : ℕ
  pub match_id_prefix : Text

abbrev pub non_zero : ℕ → ℕ → ℕ
non_zero n d = if n == 0 then d else n

unfoldable pub normalized : Config → Config
normalized c =
    let most = non_zero c.max_player_count max_players in
    let least = non_zero c.min_player_count min_players in
    let prefix = trim_space c.match_id_prefix in
    record {
      min_player_count = if ltb most least then most else least;
      max_player_count = most;
      tick_rate_hz = non_zero c.tick_rate_hz server_tick_rate_hz;
      day_seconds = non_zero c.day_seconds day_phase_duration_seconds;
      night_seconds = non_zero c.night_seconds night_phase_duration_seconds;
      max_cycles = non_zero c.max_cycles max_day_night_cycles;
      match_id_prefix = if text_eq prefix [] then codes "match" else prefix;
    }

pub data EventType : Type 0 where
  match_created player_joined match_started tick match_ended match_shutdown : EventType

pub record LifecycleEvent : Type 0 where
  pub type : EventType
  pub match_id : MatchId
  pub player_id : PlayerId
  pub event_tick : ℕ
  pub at : ℕ
  pub note : Text

pub data ManagerError : Type 0 where
  match_not_found match_full match_not_joinable player_already_in_match invalid_player_id :
      ManagerError
  invalid_player_name player_not_found not_enough_players match_already_running : ManagerError
  match_already_ended : ManagerError

pub record MatchSnapshot : Type 0 where
  pub match_id : MatchId
  pub status : MatchStatus
  pub created_at : ℕ
  pub started_at : Option ℕ
  pub ended_at : Option ℕ
  pub ended_reason : Text
  pub tick_id : ℕ
  pub players : List PlayerSession

pub data MatchResult : Type 0 where
  ok : MatchSnapshot → MatchResult
  failed : ManagerError → MatchResult

-- The part of `Manager` that this model keeps; the configuration is a normalized one.
pub record Manager : Type 0 where
  pub config : Config
  pub next_match_sequence : ℕ
  pub matches : MatchId → Option MatchSession
  pub player_to_match : PlayerId → Option MatchId
  pub events : List LifecycleEvent

unfoldable pub new_manager : Config → Manager
new_manager config = record {
  config = normalized config;
  next_match_sequence = 0;
  matches = λ id. none;
  player_to_match = λ p. none;
  events = [];
}

unfoldable pub snapshot_from_session : MatchSession → MatchSnapshot
snapshot_from_session s = record {
  match_id = s.match_id;
  status = s.status;
  created_at = s.created_at;
  started_at = s.started_at;
  ended_at = s.ended_at;
  ended_reason = s.ended_reason;
  tick_id = s.tick_id;
  players = sort_by (λ p q. text_lt p.player_id q.player_id) s.players;
}

unfoldable pub phase_config : Config → Phase.Config
unfolding normalized
phase_config c =
    let n = normalized c in
    record {
      day_duration_ticks = n.day_seconds * n.tick_rate_hz;
      night_duration_ticks = n.night_seconds * n.tick_rate_hz;
      max_cycles = n.max_cycles;
    }

-- A map after a write at a key.
abbrev pub at_key {ℓ} : {A : Type ℓ} → (Text → A) → Text → A → Text → A
at_key f key value k = if text_eq k key then value else f k

abbrev event : EventType → MatchId → PlayerId → ℕ → Text → LifecycleEvent
event type id player now note = record {
  type = type;
  match_id = id;
  player_id = player;
  event_tick = 0;
  at = now;
  note = note;
}

-- The manager with a session in its place, and an event.
unfoldable pub commit : Manager → MatchId → MatchSession → LifecycleEvent → Manager
commit m id s e = record m { matches = at_key m.matches id (some s); events = m.events ++ e ∷ [] }

unfoldable pub match_id_at : Text → ℕ → MatchId
match_id_at prefix n = prefix ++ (b'-' ∷ six_digits n)

unfoldable pub new_session : MatchId → ℕ → MatchSession
new_session id now = record {
  match_id = id;
  status = lobby;
  created_at = now;
  started_at = none;
  ended_at = none;
  ended_reason = [];
  tick_id = 0;
  players = [];
  next_ingress_seq = 0;
  scheduled_inputs = λ t. [];
  seen_client_seq = λ p n. false;
  accepted_by_tick = λ t p. 0;
  replay_entries = [];
}

unfoldable pub create_match : Manager → ℕ → Manager × MatchSnapshot
create_match m now =
    let sequence = u64 (m.next_match_sequence + 1) in
    let id = match_id_at m.config.match_id_prefix sequence in
    let session = new_session id now in
    (
      commit (record m { next_match_sequence = sequence }) id session
          (event match_created id [] now []),
      snapshot_from_session session,
    )

-- The write to the map of players.
unfoldable pub put_player : PlayerSession → List PlayerSession → List PlayerSession
put_player p [] = p ∷ []
put_player p (q ∷ players) =
    if text_eq q.player_id p.player_id then p ∷ players else q ∷ put_player p players

-- `JoinMatch` from the checks of the session on.
unfoldable pub join_session :
    Manager → MatchId → PlayerId → Text → ℕ → Option MatchSession → Manager × MatchResult
join_session m id player name now none = (m, failed match_not_found)
join_session m id player name now (some s) =
    let entry : PlayerSession = record { player_id = player; name = name; joined_at = now } in
    let joined = record s { players = put_player entry s.players } in
    if not (is_lobby s.status)
    then (m, failed match_not_joinable)
    else if leb m.config.max_player_count (length s.players)
    then (m, failed match_full)
    else (
      commit (record m { player_to_match = at_key m.player_to_match player (some id) }) id joined
          (event player_joined id player now []),
      ok (snapshot_from_session joined),
    )

abbrev has_value {ℓ} : {A : Type ℓ} → Option A → Bool
has_value none = false
has_value (some a) = true

unfoldable pub join_match : Manager → MatchId → PlayerId → Text → ℕ → Manager × MatchResult
join_match m id player player_name now =
    let name = trim_space player_name in
    if text_eq (trim_space player) []
    then (m, failed invalid_player_id)
    else if text_eq name []
    then (m, failed invalid_player_name)
    else if has_value (m.player_to_match player)
    then (m, failed player_already_in_match)
    else join_session m id player name now (m.matches id)

-- `ResumePlayer` on the players: one of them gets the name, if there is one.
unfoldable pub rename_player : PlayerId → Text → List PlayerSession → List PlayerSession
rename_player player name players =
    if text_eq name []
    then players
    else map (λ q. if text_eq q.player_id player then record q { name = name } else q) players

-- Is there a match of the player that is not this one?
abbrev pub elsewhere : Option MatchId → MatchId → Bool
elsewhere none id = false
elsewhere (some home) id = not (text_eq home id)

-- `ResumePlayer` from the lookup of the session on.
unfoldable pub resume_session :
    Manager → MatchId → PlayerId → Text → Option MatchSession → Manager × MatchResult
resume_session m id player name none = (m, failed match_not_found)
resume_session m id player name (some s) =
    let resumed = record s { players = rename_player player name s.players } in
    if is_game_over s.status
    then (m, failed match_not_joinable)
    else if elsewhere (m.player_to_match player) id
    then (m, failed player_already_in_match)
    else if not (is_member player s.players)
    then (m, failed player_not_found)
    else (
      record m {
        matches = at_key m.matches id (some resumed);
        player_to_match = at_key m.player_to_match player (some id);
      },
      ok (snapshot_from_session resumed),
    )

unfoldable pub resume_player : Manager → MatchId → PlayerId → Text → Manager × MatchResult
resume_player m id player player_name =
    let trimmed = trim_space player in
    if text_eq trimmed []
    then (m, failed invalid_player_id)
    else resume_session m id trimmed (trim_space player_name) (m.matches id)

unfoldable pub match_id_for_player : Manager → PlayerId → Option MatchId
match_id_for_player m player =
    let id = trim_space player in if text_eq id [] then none else m.player_to_match id

-- `StartMatch` on the session: it starts with an empty queue.
unfoldable pub start_session : Manager → MatchId → ℕ → Option MatchSession → Manager × MatchResult
start_session m id now none = (m, failed match_not_found)
start_session m id now (some s) =
    let started = record s {
      status = running;
      started_at = some now;
      tick_id = 0;
      replay_entries = [];
      scheduled_inputs = λ t. [];
      accepted_by_tick = λ t p. 0;
      seen_client_seq = λ p n. false;
    } in
    if is_running s.status
    then (m, failed match_already_running)
    else if is_game_over s.status
    then (m, failed match_already_ended)
    else if ltb (length s.players) m.config.min_player_count
    then (m, failed not_enough_players)
    else (
      commit m id started (event match_started id [] now []),
      ok (snapshot_from_session started),
    )

unfoldable pub start_match : Manager → MatchId → ℕ → Manager × MatchResult
start_match m id now = start_session m id now (m.matches id)

-- The writes that end a match: its players are free, and its queue is empty.
unfoldable pub close_session : Manager → MatchId → MatchSession → ℕ → Text → Manager
close_session m id s now reason =
    commit
      (record m {
        player_to_match = λ p. if is_member p s.players then none else m.player_to_match p;
      })
      id
      (record s {
        status = game_over;
        ended_at = some now;
        ended_reason = reason;
        scheduled_inputs = λ t. [];
        accepted_by_tick = λ t p. 0;
        seen_client_seq = λ p n. false;
      })
      (event match_ended id [] now reason)

unfoldable pub end_session :
    Manager → MatchId → ℕ → Text → Option MatchSession → Manager × MatchResult
end_session m id now reason none = (m, failed match_not_found)
end_session m id now reason (some s) =
    if is_game_over s.status then (m, failed match_already_ended) else (
      close_session m id s now reason,
      ok (
          snapshot_from_session
            (record s { status = game_over; ended_at = some now; ended_reason = reason })),
    )

unfoldable pub end_match : Manager → MatchId → Text → ℕ → Manager × MatchResult
end_match m id reason now =
    let trimmed = trim_space reason in
    end_session m id now (if text_eq trimmed [] then codes "manual_end" else trimmed) (m.matches id)

-- A tick of the loop of a match: the clock moves on, the commands of the tick leave the queue, and the
-- match ends where the rules of the game say so, for the reason given.
unfoldable pub tick_session : Manager → MatchId → ℕ → Option Text → Option MatchSession → Manager
tick_session m id now outcome none = m
tick_session m id now outcome (some s) =
    let t = u64 (s.tick_id + 1) in
    let ticked = record s {
      tick_id = t;
      scheduled_inputs = λ k. if k == t then [] else s.scheduled_inputs k;
    } in
    let ended : Manager = elim outcome [
      | none ↦ record m { matches = at_key m.matches id (some ticked) }
      | some reason ↦ close_session m id ticked now reason
    ] in
    if not (is_running s.status) then m else record ended {
      events = ended.events ++ record (event tick id [] now []) { event_tick = t } ∷ [];
    }

unfoldable pub tick_match : Manager → MatchId → ℕ → Option Text → Manager
tick_match m id now outcome = tick_session m id now outcome (m.matches id)
