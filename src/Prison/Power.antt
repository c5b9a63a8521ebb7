-- ===== src/Prison/Power.antt =====
-- What switching the power does to the doors.
use prison_break.Shared.{
  ◌≡◌, ◌↔◌, refl, sym, ap₂, arith, Bool, true, false, List, [], ◌∷◌, All, map,
}
use prison_break.Model.{MapState, DoorState}
use prison_break.Prison.{power_door, power_doors, apply_power_state, differ}

-- A door as the power leaves it: with power it can be closed, without power it stands open and cannot.
abbrev pub Powered : Bool → DoorState → Type 0
Powered true door = door.can_close ≡ true
Powered false door = (door.can_close ≡ false) × (door.is_open ≡ true)

power_door_lem :
    (on : Bool) (door : DoorState) (changed : Bool)
    → let r = power_door on door changed in
      Powered on r.0
      × (r.0.id ≡ door.id)
      × ((r.1 ≡ false) ↔ ((changed ≡ false) × Powered on door))
      × (Powered on door → r.0 ≡ door)
unfolding power_door
power_door_lem true door changed = ground arith
power_door_lem false door changed = ground arith

power_doors_lem :
    (on : Bool) (doors : List DoorState) (changed : Bool)
    → let r = power_doors on doors changed in
      All (Powered on) r.0
      × (map (λ d. d.id) r.0 ≡ map (λ d. d.id) doors)
      × ((r.1 ≡ false) ↔ ((changed ≡ false) × All (Powered on) doors))
      × (All (Powered on) doors → r.0 ≡ doors)
unfolding power_doors
power_doors_lem on [] changed = ground arith
power_doors_lem on (door ∷ doors) changed =
    let first = power_door_lem on door changed in
    let rest = power_doors_lem on doors (power_door on door changed).1 in
    (
      (first.0, rest.0),
      ap₂ (λ i is. i ∷ is) first.1 rest.1,
      (
        λ e. let x = rest.2.0 e in let y = first.2.0 x.0 in (y.0, (y.1, x.1)),
        λ h. rest.2.1 (first.2.1 (h.0, h.1.0), h.1.1),
      ),
      λ h. ap₂ (λ d ds. d ∷ ds) (first.3 h.0) (rest.3 h.1),
    )

-- After a switch of the power the map has it as asked, and every door as the power leaves it: with
-- power each can be closed, without it each stands open and cannot. The doors keep their order and
-- their ids, and nothing else of the map changes.
pub apply_power_state-Powered :
    (m : MapState) (on : Bool)
    → let after = (apply_power_state m on).0 in
      (after.power_on ≡ on)
      × All (Powered on) after.doors
      × (map (λ d. d.id) after.doors ≡ map (λ d. d.id) m.doors)
      × (after ≡ record m { power_on = after.power_on; doors = after.doors })
unfolding apply_power_state
apply_power_state-Powered m on = let r = power_doors_lem on m.doors _ in (refl, r.0, r.1, refl)

differ_iff : (a b : Bool) → (differ a b ≡ false) ↔ (a ≡ b)
differ_iff true b = ground arith
differ_iff false b = ground arith

-- The switch reports no change exactly when the power and every door were as asked already, and then
-- it leaves the map as it is.
pub apply_power_state-unchanged :
    (m : MapState) (on : Bool)
    → (((apply_power_state m on).1 ≡ false) ↔ ((m.power_on ≡ on) × All (Powered on) m.doors))
      × ((apply_power_state m on).1 ≡ false → (apply_power_state m on).0 ≡ m)
unfolding apply_power_state
apply_power_state-unchanged m on =
    let r = power_doors_lem on m.doors (differ m.power_on on) in
    let same = differ_iff m.power_on on in
    let back : (power_doors on m.doors (differ m.power_on on)).1 ≡ false
        → (m.power_on ≡ on) × All (Powered on) m.doors =
      λ e. let x = r.2.0 e in (same.0 x.0, x.1) in
    (
      (back, λ h. r.2.1 (same.1 h.0, h.1)),
      λ e.
          let h = back e in
          ap₂ (λ on ds. record m { power_on = on; doors = ds }) (sym h.0) (r.3 h.1),
    )

-- A second switch to the same power changes nothing and reports no change.
pub apply_power_state-twice :
    (m : MapState) (on : Bool)
    → apply_power_state (apply_power_state m on).0 on ≡ ((apply_power_state m on).0, false)
apply_power_state-twice m on =
    let first = apply_power_state-Powered m on in
    let again = apply_power_state-unchanged (apply_power_state m on).0 on in
    let quiet = again.0.1 (first.0, first.1) in
    ap₂ (λ after changed. (after, changed)) (again.1 quiet) quiet
