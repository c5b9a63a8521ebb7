-- ===== src/Actions/Doors/Toggles.antt =====
-- What the toggles of doors and of the power leave behind.
use prison_break.Shared.{
  ◌<◌, ◌≡◌, ◌≢◌, refl, sym, ap, ◌∙◌, Bool, true, false, not, ◌&&◌, List, [], ◌∷◌, Option, none,
  some, any, All, arith, leb, text_eq, ◌==◌, Bool-cases, inl, inr,
}
use mathlib.Core.Option.{some-injective}
use prison_break.Model.{PlayerState, CellState, CellId, DoorState, DoorId}
use prison_break.GameMap.{can_operate_cell_door, room_power_room}
use prison_break.Prison.{apply_power_state}
use prison_break.Prison.Power.{Powered, apply_power_state-Powered}
use prison_break.Actions.{PlaySession}
use prison_break.Actions.Stash.{find_cell}
use prison_break.Actions.Doors.{
  Toggle, find_door, put_door, open_or_close, try_toggle_door, toggle_cell, try_toggle_cell_door,
  try_toggle_power, forbids,
}

-- Every door is as the power leaves it.
abbrev pub DoorsPowered : PlaySession → Type 0
DoorsPowered s = All (Powered s.game_state.map.power_on) s.game_state.map.doors

find-door_there :
    (P : DoorState → Type 0) (id : DoorId) (doors : List DoorState) (d : DoorState)
    → All P doors
    → find_door id doors ≡ some d
    → P d × (d.id ≡ id)
unfolding find_door
find-door_there P id [] d h e = cc
find-door_there P id (x ∷ doors) d h e = elim (Bool-cases (x.id == id)) [
  | inl same ↦
      let this : x ≡ d = some-injective _ _ (rw same at e) in
      rw (← this) (h.0, ground (arith, same))
  | inr other ↦ find-door_there P id doors d h.1 (rw other at e)
]

put_door-All :
    (P : DoorState → Type 0) (id : DoorId) (v : DoorState) (doors : List DoorState)
    → All P doors
    → P v
    → All P (put_door id v doors)
unfolding put_door
put_door-All P id v [] h p = tt
put_door-All P id v (x ∷ doors) h p = elim (Bool-cases (x.id == id)) [
  | inl same ↦ rw same (p, h.1)
  | inr other ↦ rw other (h.0, put_door-All P id v doors h.1 p)
]

-- With power a door can be closed, whether it stands open or not.
turned-Powered :
    (on : Bool) (d : DoorState)
    → on ≡ true
    → Powered on d
    → Powered on (record d { is_open = not d.is_open })
turned-Powered on d e h = ground arith

-- Without power it stands open.
stands_open : (on : Bool) (d : DoorState) → on ≡ false → Powered on d → d.is_open ≡ true
stands_open on d e h = ground arith

open_or_close-Powered :
    (s : PlaySession) (changed : List DoorId) (id : DoorId) (o : Option DoorState)
    → find_door id s.game_state.map.doors ≡ o
    → DoorsPowered s
    → DoorsPowered (open_or_close s changed id o).session
unfolding open_or_close
open_or_close-Powered s changed id none e h = h
open_or_close-Powered s changed id (some d) e h =
    let m = s.game_state.map in
    let here = find-door_there (Powered m.power_on) id m.doors d h e in
    elim (Bool-cases (not (d.blocked_until_tick == 0) && leb s.tick_id d.blocked_until_tick)) [
      | inl blocked ↦ rw blocked h
      | inr free ↦ elim (Bool-cases m.power_on) [
        | inl on ↦
            rw (free, on)
              (rw (← on) (
                put_door-All (Powered m.power_on) id _ m.doors h
                  (turned-Powered m.power_on d on here.0)))
        | inr off ↦
            let stands = stands_open m.power_on d off here.0 in rw (free, off, stands) (rw off at h)
      ]
    ]

try_toggle_door-Powered :
    (s : PlaySession) (player : PlayerState) (id : DoorId) (changed : List DoorId)
    → DoorsPowered s
    → DoorsPowered (try_toggle_door s player id changed).session
unfolding try_toggle_door
try_toggle_door-Powered s player id changed h =
    elim (Bool-cases (any (forbids player id) s.game_state.map.cells)) [
      | inl e ↦ rw e h
      | inr e ↦
          rw e (open_or_close-Powered s changed id (find_door id s.game_state.map.doors) refl h)
    ]

toggle_cell-Powered :
    (s : PlaySession) (player : PlayerState) (changed : List DoorId) (cells : List CellId)
    (o : Option CellState)
    → DoorsPowered s
    → DoorsPowered (toggle_cell s player changed cells o).0.session
unfolding toggle_cell
toggle_cell-Powered s player changed cells none h = h
toggle_cell-Powered s player changed cells (some cell) h =
    elim (Bool-cases (can_operate_cell_door player cell)) [
      | inl e ↦ rw e (try_toggle_door-Powered s player cell.door_id changed h)
      | inr e ↦ rw e h
    ]

try_toggle_power-Powered :
    (s : PlaySession) (player : PlayerState) (changed : List DoorId)
    → DoorsPowered s
    → DoorsPowered (try_toggle_power s player changed).session
unfolding try_toggle_power
try_toggle_power-Powered s player changed h =
    let m = s.game_state.map in
    let switched = apply_power_state-Powered m (not m.power_on) in
    let after : All (Powered (apply_power_state m (not m.power_on)).0.power_on)
        (apply_power_state m (not m.power_on)).0.doors =
      rw switched.0 switched.1 in
    elim (Bool-cases (text_eq player.current_room_id room_power_room)) [
      | inr e ↦ rw e h
      | inl e ↦ elim (Bool-cases (apply_power_state m (not m.power_on)).1) [
        | inl f ↦ rw (e, f) after
        | inr f ↦ rw (e, f) after
      ]
    ]

-- The toggles of the players, one after the other.
pub data Toggles (s : PlaySession) : PlaySession → Type 0 where
  quiet : Toggles s s
  turns_door :
      {t : PlaySession} (player : PlayerState) (id : DoorId) (changed : List DoorId)
      → Toggles s t
      → Toggles s (try_toggle_door t player id changed).session
  turns_cell_door :
      {t : PlaySession} (player : PlayerState) (id : CellId) (changed : List DoorId)
      (cells : List CellId)
      → Toggles s t
      → Toggles s (try_toggle_cell_door t player id changed cells).0.session
  turns_power :
      {t : PlaySession} (player : PlayerState) (changed : List DoorId)
      → Toggles s t
      → Toggles s (try_toggle_power t player changed).session

-- However players toggle doors, cell doors and the power: if every door was as the power leaves it, every
-- door is. With power each can be closed; without it each stands open and cannot be closed.
pub Toggles-Powered : {s t : PlaySession} → DoorsPowered s → Toggles s t → DoorsPowered t
unfolding try_toggle_cell_door
Toggles-Powered h quiet = h
Toggles-Powered h (turns_door {t = t} player id changed run) =
    try_toggle_door-Powered t player id changed (Toggles-Powered h run)
Toggles-Powered h (turns_cell_door {t = t} player id changed cells run) =
    toggle_cell-Powered t player changed cells (find_cell id t.game_state.map.cells)
      (Toggles-Powered h run)
Toggles-Powered h (turns_power {t = t} player changed run) =
    try_toggle_power-Powered t player changed (Toggles-Powered h run)

find-put_door :
    (id : DoorId) (d v : DoorState) (doors : List DoorState)
    → find_door id doors ≡ some d
    → v.id ≡ d.id
    → find_door id (put_door id v doors) ≡ some v
unfolding find_door put_door
find-put_door id d v [] h e = cc
find-put_door id d v (x ∷ doors) h e = elim (Bool-cases (x.id == id)) [
  | inl same ↦
      let this : x ≡ d = some-injective _ _ (rw same at h) in rw same (rw (e, ← this, same) refl)
  | inr other ↦ rw other (rw other (find-put_door id d v doors (rw other at h) e))
]

-- What a toggle that goes through has done to the door.
abbrev pub Turned : PlaySession → DoorId → Toggle → Type 0
Turned s id r =
    (d : DoorState) × (find_door id s.game_state.map.doors ≡ some d)
    × ((d.blocked_until_tick ≢ 0) → d.blocked_until_tick < s.tick_id)
    × (s.game_state.map.power_on ≡ false → d.is_open ≡ false)
    × (find_door id r.session.game_state.map.doors ≡ some (record d { is_open = not d.is_open }))

open_or_close-Turned :
    (s : PlaySession) (changed : List DoorId) (id : DoorId) (o : Option DoorState)
    → find_door id s.game_state.map.doors ≡ o
    → let r = open_or_close s changed id o in
      (r.toggled ≡ false → r.session ≡ s) × (r.toggled ≡ true → Turned s id r)
unfolding open_or_close
open_or_close-Turned s changed id none e = (λ h. refl, λ h. cc)
open_or_close-Turned s changed id (some d) e =
    let m = s.game_state.map in
    let moved = λ (v : Bool). find-put_door id d (record d { is_open = v }) m.doors e refl in
    elim (Bool-cases (not (d.blocked_until_tick == 0) && leb s.tick_id d.blocked_until_tick)) [
      | inl blocked ↦ rw blocked (λ h. refl, λ h. cc)
      | inr free ↦
          let later : (d.blocked_until_tick ≢ 0) → d.blocked_until_tick < s.tick_id =
            λ ne. ground arith in
          elim (Bool-cases m.power_on) [
            | inl on ↦
                rw (free, on) (λ h. cc, λ h. (d, e, later, λ dark. cc, moved (not d.is_open)))
            | inr off ↦ elim (Bool-cases d.is_open) [
              | inl stands ↦ rw (free, off, stands) (λ h. refl, λ h. cc)
              | inr shut ↦
                  rw (free, off, shut) (λ h. cc, λ h. (d, e, later, λ dark. shut, opened shut))
            ]
          ]
    ]
  where
    opened :
        d.is_open ≡ false
        → find_door id (put_door id (record d { is_open = true }) s.game_state.map.doors)
          ≡ some (record d { is_open = not d.is_open })
    opened shut =
        find-put_door id d (record d { is_open = true }) s.game_state.map.doors e refl
        ∙ ap (λ b. some (record d { is_open = not b })) (sym shut)

-- A toggle of a door that does not go through changes nothing. One that does is by a player whom each cell
-- with the door obeys, of a door that is there, is not blocked any more, and is shut if the power is off;
-- it turns the door from open to shut or back, and nothing else of it.
pub try_toggle_door-Turned :
    (s : PlaySession) (player : PlayerState) (id : DoorId) (changed : List DoorId)
    → let r = try_toggle_door s player id changed in
      (r.toggled ≡ false → r.session ≡ s)
      × (r.toggled ≡ true
          → All (λ c. c.door_id ≡ id → can_operate_cell_door player c ≡ true) s.game_state.map.cells
            × Turned s id r)
unfolding try_toggle_door
try_toggle_door-Turned s player id changed =
    let m = s.game_state.map in
    elim (Bool-cases (any (forbids player id) m.cells)) [
      | inl e ↦ rw e (λ h. refl, λ h. cc)
      | inr e ↦
          let (kept, turned) = open_or_close-Turned s changed id (find_door id m.doors) refl in
          rw e (kept, λ h. (obeyed m.cells e, turned h))
    ]
  where
    obeyed :
        (cells : List CellState)
        → any (forbids player id) cells ≡ false
        → All (λ c. c.door_id ≡ id → can_operate_cell_door player c ≡ true) cells
    obeyed [] h = tt
    obeyed (c ∷ cells) h = (λ e. ground arith, obeyed cells (ground arith))
