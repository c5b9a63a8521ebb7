-- ===== src/Actions/Equip.antt =====
-- manager.go: the weapon that a player holds.
use prison_break.Shared.{
  ℕ, ◌++◌, ◌≡◌, ◌⊎◌, refl, inl, inr, Bool, true, false, not, Bool-cases, codes, [], Text,
  trim_space, ap, sym, ◌∙◌, text_eq, if◌then◌else◌,
}
use prison_break.Model.{PlayerState, ItemType, ActionFeedback}
use prison_break.Combat.{is_supported_weapon, can_use_weapon}
use prison_break.Actions.Market.{feedback_info, feedback_warning}
use prison_break.Actions.Ammo.{apply_action_feedback, same_feedback, feedback_system}

-- The feedback does not undo the change, and is no part of its report.
unfoldable pub equip : PlayerState → ItemType → ℕ → PlayerState × Bool
equip player item tick = (
  (apply_action_feedback (record player { equipped_item = item }) feedback_system feedback_info
      (codes "Equipped " ++ (item ++ codes ".")) tick).0,
  true,
)

unfoldable pub apply_equip_item_command : PlayerState → ItemType → ℕ → PlayerState × Bool
apply_equip_item_command player item tick =
    if not (is_supported_weapon item)
    then (player, false)
    else if not (can_use_weapon player item)
    then apply_action_feedback player feedback_system feedback_warning
        (codes "Cannot equip " ++ (item ++ codes "; not in inventory.")) tick
    else if text_eq player.equipped_item item
    then (player, false)
    else equip player item tick

-- The feedback is all that a message changes.
apply_action_feedback-only :
    (player : PlayerState) (kind level message : Text) (tick : ℕ)
    → let after = (apply_action_feedback player kind level message tick).0 in
      after ≡ record player { last_action_feedback = after.last_action_feedback }
unfolding apply_action_feedback
apply_action_feedback-only player kind level message tick = elim (Bool-cases (text_eq kind [])) [
  | inl e ↦ rw e refl
  | inr named ↦ elim (Bool-cases (text_eq (trim_space message) [])) [
    | inl e ↦ rw (named, e) refl
    | inr said ↦
        let next : ActionFeedback = record {
          kind = kind;
          level = if text_eq level [] then feedback_info else level;
          message = trim_space message;
          tick_id = tick;
        } in
        elim (Bool-cases (same_feedback player.last_action_feedback next)) [
          | inl e ↦ rw (named, said, e) refl
          | inr e ↦ rw (named, said, e) refl
        ]
  ]
]

-- The same, with the weapon in hand as it is afterwards.
weapon_kept :
    (player after : PlayerState)
    → after ≡ record player { last_action_feedback = after.last_action_feedback }
    → after ≡ record player {
      equipped_item = after.equipped_item;
      last_action_feedback = after.last_action_feedback;
    }
weapon_kept player after only =
    only
    ∙ ap
        (λ weapon. record player {
          equipped_item = weapon;
          last_action_feedback = after.last_action_feedback;
        })
        (sym (ap (λ (x : PlayerState). x.equipped_item) only))

-- The command changes nothing of the player but the feedback and the weapon in hand, and that only to the
-- weapon it names, which is one that the player can use.
apply_equip_item_command-usable :
    (player : PlayerState) (item : ItemType) (tick : ℕ)
    → let r = apply_equip_item_command player item tick in
      (r.0 ≡ record player {
        equipped_item = r.0.equipped_item;
        last_action_feedback = r.0.last_action_feedback;
      })
      × ((r.0.equipped_item ≡ player.equipped_item)
          ⊎ ((r.0.equipped_item ≡ item)
              × (is_supported_weapon item ≡ true)
              × (can_use_weapon player item ≡ true)
              × (r.1 ≡ true)))
unfolding apply_equip_item_command equip
apply_equip_item_command-usable player item tick = elim (Bool-cases (is_supported_weapon item)) [
  | inr e ↦ rw e (refl, inl refl)
  | inl weapon ↦ elim (Bool-cases (can_use_weapon player item)) [
    | inr e ↦
        let message = codes "Cannot equip " ++ (item ++ codes "; not in inventory.") in
        let after =
          (apply_action_feedback player feedback_system feedback_warning message tick).0 in
        let only =
          apply_action_feedback-only player feedback_system feedback_warning message tick in
        rw (weapon, e)
          (weapon_kept player after only, inl (ap (λ (x : PlayerState). x.equipped_item) only))
    | inl usable ↦ elim (Bool-cases (text_eq player.equipped_item item)) [
      | inl e ↦ rw (weapon, usable, e) (refl, inl refl)
      | inr other ↦
          let held = record player { equipped_item = item } in
          let message = codes "Equipped " ++ (item ++ codes ".") in
          let after = (apply_action_feedback held feedback_system feedback_info message tick).0 in
          let only = apply_action_feedback-only held feedback_system feedback_info message tick in
          rw (weapon, usable, other)
            (
              weapon_kept held after only,
              inr (ap (λ (x : PlayerState). x.equipped_item) only, refl, refl, refl),
            )
    ]
  ]
]
