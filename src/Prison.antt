-- ===== src/Prison.antt =====
-- internal/gamecore/prison/systems.go: the power and the doors, and whom an alarm looks for.
pub mod Power
pub mod Restricted
use prison_break.Shared.{
  ℕ, ◌*◌, Bool, true, false, not, ◌&&◌, ◌||◌, List, [], ◌∷◌, text_eq, text_lt, any, keep, map,
  sort_by, ◌==◌, if◌then◌else◌,
}
use prison_break.Model.{PlayerState, PlayerId, MapState, DoorState, RoomId}
use prison_break.GameMap.{is_prisoner_player}

abbrev pub alarm_duration_seconds : ℕ
alarm_duration_seconds = 5

abbrev pub guard_shot_interval_second : ℕ
guard_shot_interval_second = 1

abbrev pub guard_shot_damage_half : ℕ
guard_shot_damage_half = 2

-- A `uint16` times a `uint32` is within a `uint64`.
unfoldable pub alarm_duration_ticks : ℕ → ℕ
alarm_duration_ticks hz = if hz == 0 then 0 else alarm_duration_seconds * hz

unfoldable pub guard_shot_interval_ticks : ℕ → ℕ
guard_shot_interval_ticks hz = if hz == 0 then 0 else guard_shot_interval_second * hz

-- A variable and the flag `changed`: what a test and the writes under it leave of them.
abbrev write_if {ℓ} : {A : Type ℓ} → Bool → A → A × Bool → A × Bool
write_if test next (old, changed) = if test then (next, true) else (old, changed)

-- The body of the loop, on one door.
unfoldable pub power_door : Bool → DoorState → Bool → DoorState × Bool
power_door power_on door changed =
    if power_on
    then write_if (not door.can_close) (record door { can_close = true }) (door, changed)
    else (let shut = write_if door.can_close (record door { can_close = false }) (door, changed) in
        write_if (not door.is_open) (record (shut.0) { is_open = true }) shut)

-- The loop over the doors.
unfoldable pub power_doors : Bool → List DoorState → Bool → List DoorState × Bool
power_doors power_on [] changed = ([], changed)
power_doors power_on (door ∷ doors) changed =
    let first = power_door power_on door changed in
    let rest = power_doors power_on doors first.1 in (first.0 ∷ rest.0, rest.1)

abbrev pub differ : Bool → Bool → Bool
differ a b = if a then not b else b

-- `ApplyPowerState`, on a map that is not nil: the map, and the result.
unfoldable pub apply_power_state : MapState → Bool → MapState × Bool
apply_power_state m power_on =
    let doors = power_doors power_on m.doors (differ m.power_on power_on) in
    (record m { power_on = power_on; doors = doors.0 }, doors.1)

unfoldable pub is_restricted_room : RoomId → MapState → Bool
is_restricted_room room m =
    if text_eq room []
    then false
    else any (λ zone. zone.restricted && text_eq zone.room_id room) m.restricted_zones

-- The guards of the loop of `RestrictedPrisonerIDs`.
abbrev pub is_wanted : MapState → PlayerState → Bool
is_wanted m player =
    player.alive && (is_prisoner_player player && is_restricted_room player.current_room_id m)

unfoldable pub restricted_prisoner_ids : List PlayerState → MapState → List PlayerId
restricted_prisoner_ids players m = sort_by text_lt (map (λ p. p.id) (keep (is_wanted m) players))
