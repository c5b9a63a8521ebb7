-- ===== src/WinConditions.antt =====
-- internal/gamecore/winconditions/evaluator.go: when a match is over, why, and who has won.
pub mod Reasons
pub mod Winners
use prison_break.Shared.{
  ℕ, Bool, true, false, not, ◌&&◌, ◌||◌, List, [], ◌∷◌, Option, none, some, leb, ◌==◌, codes,
  text_eq, text_lt, sort_by, if◌then◌else◌,
}
use prison_break.Model.{
  GameState, PlayerState, PlayerId, RoomId, GameOverState, WinReason, max_cycles_reached,
  warden_died, gang_leader_escaped, all_gang_members_dead, no_escapes_at_time_limit,
  hitman_target_eliminated, escape_artist_first_escape, no_reason,
}
use prison_break.Model.Kinds.{
  is_authority, is_good, is_evil, is_warden, is_gang_leader, is_gang_member, is_snitch,
  is_neutral_prisoner,
}
use prison_break.Phase.{max_day_night_cycles}

abbrev pub escaped_room_id : RoomId
escaped_room_id = codes "escaped"

pub record Config : Type 0 where
  pub max_cycles : ℕ

unfoldable pub default_config : Config
default_config = record { max_cycles = max_day_night_cycles }

unfoldable pub normalized : Config → Config
normalized c = record {
  max_cycles = if c.max_cycles == 0 then max_day_night_cycles else c.max_cycles;
}

unfoldable pub has_escaped_gang_leader : List PlayerState → Bool
has_escaped_gang_leader [] = false
has_escaped_gang_leader (player ∷ players) =
    let rest = has_escaped_gang_leader players in
    if not (is_gang_leader player.role)
    then rest
    else if player.alive && text_eq player.current_room_id escaped_room_id
    then true
    else rest

-- The loop of `hasDeadWarden`, with its flag.
unfoldable pub dead_warden_loop : Bool → List PlayerState → Bool
dead_warden_loop has_warden [] = has_warden
dead_warden_loop has_warden (player ∷ players) =
    let rest = dead_warden_loop has_warden players in
    let next = dead_warden_loop true players in
    if not (is_warden player.role) then rest else if player.alive then false else next

unfoldable pub has_dead_warden : List PlayerState → Bool
unfolding dead_warden_loop
has_dead_warden players = dead_warden_loop false players

-- The loop of `hasNoAliveGangMembers`, with its flag.
unfoldable pub no_alive_gang_loop : Bool → List PlayerState → Bool
no_alive_gang_loop has_gang_role [] = has_gang_role
no_alive_gang_loop has_gang_role (player ∷ players) =
    let rest = no_alive_gang_loop has_gang_role players in
    let next = no_alive_gang_loop true players in
    if not (is_gang_leader player.role) && not (is_gang_member player.role)
    then rest
    else if player.alive
    then false
    else next

unfoldable pub has_no_alive_gang_members : List PlayerState → Bool
unfolding no_alive_gang_loop
has_no_alive_gang_members players = no_alive_gang_loop false players

unfoldable pub detect_reason : GameState → Config → WinReason
detect_reason state config =
    if has_escaped_gang_leader state.players
    then gang_leader_escaped
    else if has_dead_warden state.players
    then warden_died
    else if has_no_alive_gang_members state.players
    then all_gang_members_dead
    else if leb config.max_cycles state.cycle_count
    then max_cycles_reached
    else no_reason

-- The `switch` of `winnersForReason`, on a living player.
unfoldable pub wins_for : WinReason → PlayerState → Bool
wins_for gang_leader_escaped player =
    if is_gang_leader player.role || is_gang_member player.role
    then true
    else (is_authority player.faction && is_evil player.alignment)
wins_for warden_died player = is_gang_leader player.role || is_gang_member player.role
wins_for all_gang_members_dead player =
    is_authority player.faction && is_good player.alignment || is_snitch player.role
wins_for max_cycles_reached player =
    is_authority player.faction && is_good player.alignment || is_snitch player.role
wins_for no_escapes_at_time_limit player =
    is_authority player.faction && is_good player.alignment || is_snitch player.role
wins_for hitman_target_eliminated player = is_neutral_prisoner player.role
wins_for escape_artist_first_escape player = is_neutral_prisoner player.role
wins_for no_reason player = false

unfoldable pub winners_for_reason : List PlayerState → WinReason → List PlayerId
unfolding wins_for
winners_for_reason [] why = []
winners_for_reason (player ∷ players) why =
    let rest = winners_for_reason players why in
    if not player.alive then rest else if wins_for why player then player.id ∷ rest else rest

unfoldable pub resolve_outcome : GameState → WinReason → ℕ → GameOverState
unfolding winners_for_reason
resolve_outcome state why ended_tick = record {
  reason = why;
  ended_tick = ended_tick;
  winner_player_ids = sort_by text_lt (winners_for_reason state.players why);
  notes = [];
}

outcome_for : GameState → WinReason → Option GameOverState
outcome_for state no_reason = none
outcome_for state why = some (resolve_outcome state why state.tick_id)

unfoldable pub evaluate : GameState → Config → Option GameOverState
unfolding outcome_for detect_reason normalized
evaluate state config = outcome_for state (detect_reason state (normalized config))
