-- ===== src/Combat/Weapons.antt =====
-- What a shot costs, and what an unjust one does.
use prison_break.Shared.{
  ℕ, ◌+◌, ◌-◌, ◌≤◌, ◌<◌, ◌≡◌, ◌≢◌, refl, Bool, true, false, ◌||◌, arith, text_eq, text_eq_refl,
  text_eq_sound, leb, ◌==◌, if◌then◌else◌, Bool-cases, inl, inr,
}
use prison_break.Model.{PlayerState, PhaseState, ItemType, day}
use prison_break.GameMap.{is_authority_player}
use prison_break.Items.Catalog.{
  item_baton, item_shiv, item_pistol, item_hunting_rifle, item_golden_bullet,
}
use prison_break.Items.Inventory.{remove_item}
use prison_break.Items.Inventory.Operations.{holds, remove_item-Removed}
use prison_break.Items.Inventory.Transfer.{holds_of_normal}
use prison_break.Combat.{
  can_use_weapon, is_firearm, consume_shot_cost, golden_shot, apply_unjust_shot_penalty, confine,
  is_action_blocked,
}

confine_lem :
    (shooter : PlayerState) (ends : ℕ)
    → let r = confine shooter ends in
      ((r.1 ≡ false) → r.0 ≡ shooter)
      × (ends ≤ r.0.solitary_until_tick)
      × (shooter.solitary_until_tick ≤ r.0.solitary_until_tick)
      × (shooter.assigned_cell ≢ 0 → r.0.locked_in_cell ≡ shooter.assigned_cell)
unfolding confine
confine_lem shooter ends = ground arith

blocked_lem :
    (p : PlayerState) (tick : ℕ)
    → 0 < tick
    → tick ≤ p.solitary_until_tick
    → is_action_blocked p tick ≡ true
unfolding is_action_blocked
blocked_lem p tick pos le = ground arith

-- When the penalty is reported to change nothing, it changes nothing. By day, before its end, it leaves an
-- authority in solitary at least to the last tick of the day, no shorter than before, locked in the
-- assigned cell if there is one, and unable to act at the current tick, if that is not 0.
pub apply_unjust_shot_penalty-confines :
    (shooter : PlayerState) (phase : PhaseState) (tick : ℕ)
    → let r = apply_unjust_shot_penalty shooter phase tick in
      ((r.1 ≡ false) → r.0 ≡ shooter)
      × (is_authority_player shooter ≡ true
          → phase.current ≡ day
          → tick < phase.ends_tick
          → (phase.ends_tick - 1 ≤ r.0.solitary_until_tick)
            × (shooter.solitary_until_tick ≤ r.0.solitary_until_tick)
            × (shooter.assigned_cell ≢ 0 → r.0.locked_in_cell ≡ shooter.assigned_cell)
            × (0 < tick → is_action_blocked r.0 tick ≡ true))
unfolding apply_unjust_shot_penalty
apply_unjust_shot_penalty-confines shooter phase tick =
    let c = confine_lem shooter (phase.ends_tick - 1) in
    (
      ground (arith, c),
      λ auth daytime later.
          let test : (phase.ends_tick == 0 || leb phase.ends_tick tick) ≡ false = ground arith in
          rw (auth, daytime, test)
            (
              c.1,
              c.2,
              c.3,
              λ pos.
                  blocked_lem (confine shooter (phase.ends_tick - 1)).0 tick pos
                    (omega (arith, c.1)),
            ),
    )

-- A removal that succeeds takes its amount, and one that does not changes nothing.
remove_item-holds :
    (p : PlayerState) (item : ItemType) (amount : ℕ)
    → let r = remove_item p item amount in
      (r.1 ≡ false → r.0 ≡ p) × (r.1 ≡ true → holds r.0 item + amount ≡ holds p item)
remove_item-holds p item amount = elim (remove_item-Removed p item amount) [
  | inl (done, (removed, _), _) ↦ (
    λ e. ground arith,
    λ e. ground (
      arith,
      removed.totals item,
      text_eq_refl item,
      holds_of_normal (remove_item p item amount).0 item removed.normal,
    ),
  )
  | inr (refused, same) ↦ (λ e. same, λ e. ground arith)
]

-- What `consume_shot_cost` promises of the shooter, the damage, and the flag.
abbrev Paid : PlayerState → Bool → PlayerState × ℕ × Bool → Type 0
Paid shooter golden r =
    (r.2 ≡ false → (r.0 ≡ shooter) × (r.1 ≡ 0))
    × (r.2 ≡ true
        → (golden ≡ false → (r.0.bullets + 1 ≡ shooter.bullets) × (r.1 ≡ 2))
          × (golden ≡ true
              → (holds r.0 item_golden_bullet + 1 ≡ holds shooter item_golden_bullet) × (r.1 ≡ 4)))

golden_shot-Paid :
    (shooter : PlayerState)
    → Paid shooter true (golden_shot shooter (remove_item shooter item_golden_bullet 1))
unfolding golden_shot
golden_shot-Paid shooter =
    let r = remove_item-holds shooter item_golden_bullet 1 in
    elim (Bool-cases (remove_item shooter item_golden_bullet 1).1) [
      | inl e ↦ rw e (λ h. cc, λ h. (λ k. cc, λ k. (r.1 e, refl)))
      | inr e ↦ rw e (λ h. (r.0 e, refl), λ h. cc)
    ]

plain_shot-Paid :
    (shooter : PlayerState)
    → Paid shooter false (
        if shooter.bullets == 0
        then (shooter, 0, false)
        else (record shooter { bullets = shooter.bullets - 1 }, 2, true))
plain_shot-Paid shooter = elim (Bool-cases (shooter.bullets == 0)) [
  | inl e ↦ rw e (λ h. (refl, refl), λ h. cc)
  | inr e ↦ rw e (λ h. cc, λ h. (λ k. (ground arith, refl), λ k. cc))
]

firearm_lem :
    (weapon : ItemType)
    → is_firearm weapon ≡ true
    → (text_eq weapon item_baton ≡ false) × (text_eq weapon item_shiv ≡ false)
unfolding is_firearm text_eq
firearm_lem weapon h = elim (Bool-cases (text_eq weapon item_pistol)) [
  | inl e ↦ let same = text_eq_sound weapon item_pistol e in rw same (refl, refl)
  | inr e ↦
      let same = text_eq_sound weapon item_hunting_rifle (ground (arith, e)) in rw same (refl, refl)
]

-- With a firearm that the shooter can use, a shot that is refused costs nothing and does nothing. A fired
-- one costs one bullet and does two halves of damage, or one golden bullet for four.
pub consume_shot_cost-firearm :
    (shooter : PlayerState) (weapon : ItemType) (golden : Bool)
    → is_firearm weapon ≡ true
    → let r = consume_shot_cost shooter weapon golden in
      (r.2 ≡ false → (r.0 ≡ shooter) × (r.1 ≡ 0))
      × (r.2 ≡ true
          → (can_use_weapon shooter weapon ≡ true)
            × (golden ≡ false → (r.0.bullets + 1 ≡ shooter.bullets) × (r.1 ≡ 2))
            × (golden ≡ true
                → (holds r.0 item_golden_bullet + 1 ≡ holds shooter item_golden_bullet)
                  × (r.1 ≡ 4)))
unfolding consume_shot_cost
consume_shot_cost-firearm shooter weapon golden firearm =
    let (not_baton, not_shiv) = firearm_lem weapon firearm in
    elim (Bool-cases (can_use_weapon shooter weapon)) [
      | inr e ↦ rw e (λ h. (refl, refl), λ h. cc)
      | inl e ↦ rw (e, not_baton, not_shiv, firearm) (shot golden)
    ]
  where
    shot :
        (g : Bool)
        → let r =
            if g
            then golden_shot shooter (remove_item shooter item_golden_bullet 1)
            else if shooter.bullets == 0
            then (shooter, 0, false)
            else (record shooter { bullets = shooter.bullets - 1 }, 2, true) in
          (r.2 ≡ false → (r.0 ≡ shooter) × (r.1 ≡ 0))
          × (r.2 ≡ true
              → (true ≡ true)
                × (g ≡ false → (r.0.bullets + 1 ≡ shooter.bullets) × (r.1 ≡ 2))
                × (g ≡ true
                    → (holds r.0 item_golden_bullet + 1 ≡ holds shooter item_golden_bullet)
                      × (r.1 ≡ 4)))
    shot true = let p = golden_shot-Paid shooter in (p.0, λ h. (refl, (p.1 h).0, (p.1 h).1))
    shot false = let p = plain_shot-Paid shooter in (p.0, λ h. (refl, (p.1 h).0, (p.1 h).1))
