-- ===== src/GameMap.antt =====
-- internal/gamecore/map: the rooms (layout.go, its constants), who may enter and operate what
-- (access_control.go), and the nightly black market (black_market.go).
pub mod Access
pub mod Market
use prison_break.Shared.{
  ℕ, ◌%◌, Bool, true, false, ◌||◌, ◌&&◌, not, List, [], ◌∷◌, ◌++◌, Text, codes, text_eq, length,
  get_or, any, fnv64a, le_bytes, if◌then◌else◌,
}
use prison_break.Model.{PlayerState, MapState, CellState, RoomId, MatchId, RoleType}
use prison_break.Model.{gang_leader, gang_member, snitch, neutral_prisoner}
use prison_break.Model.Kinds.{is_authority, is_prisoner, is_warden, is_deputy}

abbrev pub room_corridor_main : RoomId
room_corridor_main = codes "corridor_main"

abbrev pub room_warden_hq : RoomId
room_warden_hq = codes "warden_hq"

abbrev pub room_camera_room : RoomId
room_camera_room = codes "camera_room"

abbrev pub room_power_room : RoomId
room_power_room = codes "power_room"

abbrev pub room_ammo_room : RoomId
room_ammo_room = codes "ammunition_room"

abbrev pub room_mail_room : RoomId
room_mail_room = codes "mail_room"

abbrev pub room_cafeteria : RoomId
room_cafeteria = codes "cafeteria"

abbrev pub room_cell_block_a : RoomId
room_cell_block_a = codes "cell_block_a"

abbrev pub room_courtyard : RoomId
room_courtyard = codes "courtyard"

abbrev pub room_black_market : RoomId
room_black_market = codes "black_market"

abbrev pub room_roof_lookout : RoomId
room_roof_lookout = codes "roof_lookout"

pub data AccessVerdict : Type 0 where
  allow deny_unknown_room deny_warden_hq_restricted deny_camera_authority_only : AccessVerdict
  deny_camera_power_off deny_power_room_authority_only deny_ammo_authority_only : AccessVerdict
  deny_ammo_power_off deny_black_market_prisoners_only deny_cell_door_forbidden : AccessVerdict

pub record RoomEntryDecision : Type 0 where
  pub room_id : RoomId
  pub allowed : Bool
  pub verdict : AccessVerdict

pub record CellDoorDecision : Type 0 where
  pub cell_id : ℕ
  pub allowed : Bool
  pub verdict : AccessVerdict

unfoldable pub is_authority_player : PlayerState → Bool
is_authority_player player =
    if is_authority player.faction then true else (is_warden player.role || is_deputy player.role)

abbrev pub is_prisoner_role : RoleType → Bool
is_prisoner_role gang_leader = true
is_prisoner_role gang_member = true
is_prisoner_role snitch = true
is_prisoner_role neutral_prisoner = true
is_prisoner_role _ = false

unfoldable pub is_prisoner_player : PlayerState → Bool
is_prisoner_player player =
    if is_prisoner player.faction then true else is_prisoner_role player.role

entry : RoomId → AccessVerdict → RoomEntryDecision
entry room allow = record { room_id = room; allowed = true; verdict = allow }
entry room v = record { room_id = room; allowed = false; verdict = v }

-- The cases of the `switch`, and the rule for the black market after it.
unfoldable pub evaluate_room_entry : PlayerState → RoomId → MapState → RoomEntryDecision
unfolding is_authority_player is_prisoner_player entry
evaluate_room_entry player room m = entry room (
    if text_eq room []
    then deny_unknown_room
    else if text_eq room room_warden_hq
    then (if is_warden player.role then allow else deny_warden_hq_restricted)
    else if text_eq room room_camera_room
    then (if not m.power_on
        then deny_camera_power_off
        else if is_authority_player player
        then allow
        else deny_camera_authority_only)
    else if text_eq room room_power_room
    then (if is_authority_player player then allow else deny_power_room_authority_only)
    else if text_eq room room_ammo_room
    then (if not m.power_on
        then deny_ammo_power_off
        else if is_authority_player player
        then allow
        else deny_ammo_authority_only)
    else if not (text_eq m.black_market_room_id []) && text_eq room m.black_market_room_id
    then (if is_prisoner_player player then allow else deny_black_market_prisoners_only)
    else allow)

unfoldable pub can_enter_room : PlayerState → RoomId → MapState → Bool
unfolding evaluate_room_entry
can_enter_room player room m = (evaluate_room_entry player room m).allowed

unfoldable pub evaluate_cell_door_operation : PlayerState → CellState → CellDoorDecision
unfolding is_authority_player
evaluate_cell_door_operation player cell =
    let granted : CellDoorDecision = record {
      cell_id = cell.id;
      allowed = true;
      verdict = allow;
    } in
    if is_authority_player player
    then granted
    else if not (text_eq cell.owner_player_id []) && text_eq cell.owner_player_id player.id
    then granted
    else record { cell_id = cell.id; allowed = false; verdict = deny_cell_door_forbidden }

unfoldable pub can_operate_cell_door : PlayerState → CellState → Bool
unfolding evaluate_cell_door_operation
can_operate_cell_door player cell = (evaluate_cell_door_operation player cell).allowed

abbrev pub nightly_black_market_candidates : List RoomId
nightly_black_market_candidates =
    room_black_market ∷ room_courtyard ∷ room_cafeteria ∷ room_mail_room ∷ room_roof_lookout ∷ []

unfoldable pub is_nightly_black_market_candidate : RoomId → Bool
is_nightly_black_market_candidate room = any (λ c. text_eq c room) nightly_black_market_candidates

-- The candidates are a constant list of five, so the test for an empty list never passes.
unfoldable pub deterministic_nightly_black_market_room : MatchId → ℕ → ℕ → RoomId
unfolding fnv64a le_bytes
deterministic_nightly_black_market_room match cycle night_start_tick =
    let hash = fnv64a (match ++ cycle ∷ le_bytes 8 night_start_tick) in
    get_or nightly_black_market_candidates (hash % length nightly_black_market_candidates)
      room_black_market
