-- ===== src/Items/Inventory/Complete.antt =====
-- The operations refuse only what cannot be done.
use prison_break.Shared.{
  ℕ, ◌+◌, ◌≤◌, ◌<◌, ◌≡◌, ◌≢◌, ◌↔◌, refl, true, false, not, ◌||◌, List, Option, none, some, arith,
  text_eq_refl, if◌then◌else◌, length, ◌==◌, Option-cases, inl, inr,
}
use prison_break.Model.{ItemType, ItemStack, PlayerState}
use prison_break.Items.Catalog.{is_known_item, item_satchel}
use prison_break.Items.Inventory.{
  find_stack_index, add_to_inventory, normalize_inventory, stack_limit_for_base,
  base_inventory_stack_limit, base_stack_limit_for_player, put, within_limit, add_item, remove_item,
  remove_from_inventory, store,
}
use prison_break.Items.Inventory.Totals.{total}
use prison_break.Items.Inventory.Normal.{IsNormal, Distinct-of_IsAscending, normalize-IsNormal}
use prison_break.Items.Inventory.Canonical.{normal_ext}
use prison_break.Items.Inventory.Found.{Found, find_stack_index-Found}
use prison_break.Items.Inventory.Adding.{Added, put_lem, kept_total}
use prison_break.Items.Inventory.Removing.{remove_from_inventory-succeeds}
use prison_break.Items.Inventory.Operations.{
  holds, keep_satchel_other, add_item-Added, remove_item-Removed,
}

put-succeeds :
    (m : List ItemStack) (item : ItemType) (amount : ℕ) (o : Option ℕ)
    → Found item m o
    → total item m + amount ≤ 255
    → (stacks : List ItemStack) × (put m item amount o ≡ some stacks)
unfolding put
put-succeeds m item amount none f fits = (_, refl)
put-succeeds m item amount (some i) f fits = elim (Option-cases (put m item amount (some i))) [
  | inl e ↦ absurd (ground (arith, f.0))
  | inr found ↦ found
]

within_limit-succeeds :
    (base : ℕ) (stacks : List ItemStack)
    → length (normalize_inventory stacks)
      ≤ stack_limit_for_base
          (normalize_inventory stacks)
          (if base == 0 then base_inventory_stack_limit else base)
    → within_limit base (some stacks) ≡ some (normalize_inventory stacks)
unfolding within_limit
within_limit-succeeds base stacks room = ground arith

add_to_inventory-succeeds :
    (m next : List ItemStack) (item : ItemType) (amount base : ℕ)
    → IsNormal m
    → amount < 256
    → Added m item amount base next
    → add_to_inventory m item amount base ≡ some next
unfolding add_to_inventory
add_to_inventory-succeeds m next item amount base h small a =
    let test : (amount == 0 || not (is_known_item item)) ≡ false =
      ground (arith, a.known, a.positive) in
    let found = find_stack_index-Found item m (Distinct-of_IsAscending m h.ascending) in
    let (stacks, e) = put-succeeds m item amount (find_stack_index m item) found a.fits in
    let (totals, fits) = put_lem m stacks item amount (find_stack_index m item) found small e in
    let same : normalize_inventory stacks ≡ next =
      normal_ext (normalize_inventory stacks) next (normalize-IsNormal stacks) a.normal (λ k.
        omega (arith, kept_total m stacks item amount k h a.known fits (totals k), a.totals k)) in
    rw (test, e, within_limit-succeeds base stacks (rw same a.room), same)

-- `AddItem` of a uint8 amount succeeds exactly when some inventory is in normal form, has just the
-- amount more of just that known item, within 255 of it, and is within the player's limit of stacks.
pub add_item_iff :
    (player : PlayerState) (item : ItemType) (amount : ℕ)
    → amount < 256
    → ((add_item player item amount).1 ≡ true) ↔ (
        (next : List ItemStack) × Added
          (normalize_inventory player.inventory)
          item
          amount
          (base_stack_limit_for_player player)
          next)
unfolding add_item store
add_item_iff player item amount small = (
  λ done. elim (add_item-Added player item amount small) [
    | inl (_, added, _) ↦ ((add_item player item amount).0.inventory, added)
    | inr (refused, _) ↦ ground arith
  ],
  λ (next, a).
      let test : (amount == 0 || not (is_known_item item)) ≡ false =
        ground (arith, a.known, a.positive) in
      rw
        (
          test,
          add_to_inventory-succeeds (normalize_inventory player.inventory) next item amount
              (base_stack_limit_for_player player) (normalize-IsNormal player.inventory) small a,
        )
        refl,
)

-- `RemoveItem` of anything but satchels succeeds exactly when the item is known, the amount is not 0,
-- and the player holds the amount.
pub remove_item_iff :
    (player : PlayerState) (item : ItemType) (amount : ℕ)
    → item ≢ item_satchel
    → ((remove_item player item amount).1 ≡ true)
      ↔ ((is_known_item item ≡ true) × (0 < amount) × (amount ≤ holds player item))
unfolding remove_item store
remove_item_iff player item amount other =
    let m = normalize_inventory player.inventory in
    (
      λ done. elim (remove_item-Removed player item amount) [
        | inl (_, (r, _), _) ↦
            (r.known, r.positive, ground (arith, r.totals item, text_eq_refl item))
        | inr (refused, _) ↦ ground arith
      ],
      λ (known, pos, le).
          let test : (amount == 0 || not (is_known_item item)) ≡ false =
            ground (arith, known, pos) in
          let (next, e) =
            remove_from_inventory-succeeds m item amount (normalize-IsNormal player.inventory) known
              pos le in
          rw (test, keep_satchel_other player item (remove_from_inventory m item amount) other, e)
            refl,
    )
