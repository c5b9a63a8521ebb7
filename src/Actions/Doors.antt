-- ===== src/Actions/Doors.antt =====
-- manager.go: players open and close doors, and switch the power.
pub mod Toggles
use prison_break.Shared.{
  ℕ, Bool, true, false, not, ◌&&◌, ◌||◌, List, [], ◌∷◌, ◌++◌, Option, none, some, any, map, leb,
  text_eq, ◌==◌, if◌then◌else◌,
}
use prison_break.Model.{PlayerState, CellState, CellId, DoorState, DoorId, MapState}
use prison_break.GameMap.{can_operate_cell_door, room_power_room}
use prison_break.Prison.{apply_power_state}
use prison_break.Actions.{PlaySession}
use prison_break.Actions.Stash.{find_cell}

unfoldable pub find_door : DoorId → List DoorState → Option DoorState
find_door id [] = none
find_door id (d ∷ doors) = let rest = find_door id doors in if d.id == id then some d else rest

-- The write through the pointer to the first door with the id.
unfoldable pub put_door : DoorId → DoorState → List DoorState → List DoorState
put_door id v [] = []
put_door id v (d ∷ doors) =
    let rest = put_door id v doors in if d.id == id then v ∷ doors else d ∷ rest

-- The session, the doors that have changed in the tick so far, and whether this one has.
pub record Toggle : Type 0 where
  pub session : PlaySession
  pub changed_doors : List DoorId
  pub toggled : Bool

abbrev pub untouched : PlaySession → List DoorId → Toggle
untouched session changed = record { session = session; changed_doors = changed; toggled = false }

abbrev pub with_doors : PlaySession → List DoorState → PlaySession
with_doors session doors = record session {
  game_state = record session.game_state { map = record session.game_state.map { doors = doors } };
}

unfoldable pub open_or_close : PlaySession → List DoorId → DoorId → Option DoorState → Toggle
open_or_close session changed id none = untouched session changed
open_or_close session changed id (some door) =
    let m = session.game_state.map in
    let turned : Toggle = record {
      session =
          with_doors session (put_door id (record door { is_open = not door.is_open }) m.doors);
      changed_doors = door.id ∷ changed;
      toggled = true;
    } in
    if not (door.blocked_until_tick == 0) && leb session.tick_id door.blocked_until_tick
    then untouched session changed
    else if not m.power_on
    then (if not door.is_open
        then record {
          session = with_doors session (put_door id (record door { is_open = true }) m.doors);
          changed_doors = door.id ∷ changed;
          toggled = true;
        }
        else untouched session changed)
    else turned

-- Does a cell with the door keep the player from it?
abbrev pub forbids : PlayerState → DoorId → CellState → Bool
forbids player id cell = cell.door_id == id && not (can_operate_cell_door player cell)

unfoldable pub try_toggle_door : PlaySession → PlayerState → DoorId → List DoorId → Toggle
try_toggle_door session player id changed =
    let m = session.game_state.map in
    if any (forbids player id) m.cells
    then untouched session changed
    else open_or_close session changed id (find_door id m.doors)

-- `tryToggleCellDoorLocked` on the cell that is found, with the cells that have changed so far.
unfoldable pub toggle_cell :
    PlaySession → PlayerState → List DoorId → List CellId → Option CellState → Toggle × List CellId
toggle_cell session player changed changed_cells none = (untouched session changed, changed_cells)
toggle_cell session player changed changed_cells (some cell) =
    let r = try_toggle_door session player cell.door_id changed in
    if not (can_operate_cell_door player cell)
    then (untouched session changed, changed_cells)
    else (r, if r.toggled then cell.id ∷ changed_cells else changed_cells)

unfoldable pub try_toggle_cell_door :
    PlaySession → PlayerState → CellId → List DoorId → List CellId → Toggle × List CellId
try_toggle_cell_door session player id changed changed_cells =
    toggle_cell session player changed changed_cells (find_cell id session.game_state.map.cells)

unfoldable pub try_toggle_power : PlaySession → PlayerState → List DoorId → Toggle
try_toggle_power session player changed =
    let state = session.game_state in
    let switched = apply_power_state state.map (not state.map.power_on) in
    if not (text_eq player.current_room_id room_power_room)
    then untouched session changed
    else if not switched.1
    then untouched (record session { game_state = record state { map = switched.0 } }) changed
    else record {
      session = record session { game_state = record state { map = switched.0 } };
      changed_doors = changed ++ map (λ d. d.id) switched.0.doors;
      toggled = true;
    }
