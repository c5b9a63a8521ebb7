-- ===== src/Items/Inventory/Removing.antt =====
-- `removeFromInventory` on a normal inventory.
use prison_break.Shared.{
  ℕ, ◌+◌, ◌-◌, ◌≤◌, ◌<◌, ◌≡◌, true, not, ◌||◌, List, Option, none, some, arith, ltb, ◌==◌,
  Bool-cases, Option-cases, inl, inr,
}
use prison_break.Model.{ItemType, ItemStack}
use prison_break.Items.Catalog.{is_known_item}
use prison_break.Items.Inventory.{
  find_stack_index, quantity_at, set_quantity, delete_at, remove_from_inventory,
  normalize_inventory, take_at,
}
use prison_break.Items.Inventory.Totals.{total}
use prison_break.Items.Inventory.Normal.{
  IsNormal, Distinct-of_IsAscending, normalize-IsNormal, total-normalize,
}
use prison_break.Items.Inventory.Canonical.{total_of_IsNormal}
use prison_break.Items.Inventory.Found.{Found, find_stack_index-Found, share, total_same, passes}

-- What a removal amounts to.
pub record Removed (m : List ItemStack) (item : ItemType) (amount : ℕ) (next : List ItemStack)
    : Type 0 where
  pub normal : IsNormal next
  pub totals : (k : ItemType) → total k next + share item amount k ≡ total k m
  pub known : is_known_item item ≡ true
  pub positive : 0 < amount

-- Stacks that hold no more than a normal inventory does are kept by `normalizeInventory`.
less_total :
    (m stacks : List ItemStack) (item : ItemType) (amount : ℕ) (k : ItemType)
    → IsNormal m
    → total k stacks + share item amount k ≡ total k m
    → total k (normalize_inventory stacks) + share item amount k ≡ total k m
less_total m stacks item amount k h e =
    ground (arith, total-normalize k stacks, total_of_IsNormal k m h)

take_at_lem :
    (m next : List ItemStack) (item : ItemType) (amount : ℕ) (o : Option ℕ)
    → Found item m o
    → take_at m amount o ≡ some next
    → (stacks : List ItemStack) × (next ≡ normalize_inventory stacks)
      × ((k : ItemType) → total k stacks + share item amount k ≡ total k m)
unfolding take_at
take_at_lem m next item amount none f e = cc
take_at_lem m next item amount (some i) f e = elim (Bool-cases (ltb (quantity_at m i) amount)) [
  | inl few ↦ ground (arith, rw few at e)
  | inr enough ↦ elim (Bool-cases (quantity_at m i - amount == 0)) [
    | inl all ↦ (
      delete_at m i,
      ground (arith, rw (enough, all) at e),
      λ k. ground (arith, f.0, f.2 k, total_same item k m),
    )
    | inr some_left ↦ (
      set_quantity m i (quantity_at m i - amount),
      ground (arith, rw (enough, some_left) at e),
      λ k. ground (arith, f.0, f.1 k (quantity_at m i - amount), total_same item k m),
    )
  ]
]

pub remove_from_inventory-Removed :
    (m next : List ItemStack) (item : ItemType) (amount : ℕ)
    → IsNormal m
    → remove_from_inventory m item amount ≡ some next
    → Removed m item amount next
unfolding remove_from_inventory
remove_from_inventory-Removed m next item amount h e =
    let tested : (0 < amount) × (is_known_item item ≡ true) = ground arith in
    let (stacks, q, totals) =
      take_at_lem m next item amount (find_stack_index m item)
        (find_stack_index-Found item m (Distinct-of_IsAscending m h.ascending))
        (passes (amount == 0 || not (is_known_item item)) _ next e) in
    record {
      normal = rw q (normalize-IsNormal stacks);
      totals = λ k. rw q (less_total m stacks item amount k h (totals k));
      known = tested.1;
      positive = tested.0;
    }

take_at-succeeds :
    (m : List ItemStack) (item : ItemType) (amount : ℕ) (o : Option ℕ)
    → Found item m o
    → 0 < amount
    → amount ≤ total item m
    → (next : List ItemStack) × (take_at m amount o ≡ some next)
unfolding take_at
take_at-succeeds m item amount none f pos h = absurd (omega arith)
take_at-succeeds m item amount (some i) f pos h = elim (Option-cases (take_at m amount (some i))) [
  | inl e ↦ absurd (ground (arith, f.0))
  | inr found ↦ found
]

-- A removal fails only for want of the item.
pub remove_from_inventory-succeeds :
    (m : List ItemStack) (item : ItemType) (amount : ℕ)
    → IsNormal m
    → is_known_item item ≡ true
    → 0 < amount
    → amount ≤ total item m
    → (next : List ItemStack) × (remove_from_inventory m item amount ≡ some next)
unfolding remove_from_inventory
remove_from_inventory-succeeds m item amount h known pos le =
    let f = find_stack_index-Found item m (Distinct-of_IsAscending m h.ascending) in
    let (next, e) = take_at-succeeds m item amount (find_stack_index m item) f pos le in
    (next, ground (arith, e))
