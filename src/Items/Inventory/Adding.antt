-- ===== src/Items/Inventory/Adding.antt =====
-- `addToInventory` on a normal inventory.
use mathlib.Core.Option.{some-injective}
use prison_break.Shared.{
  ℕ, ◌+◌, ◌≤◌, ◌<◌, ◌≡◌, refl, ap, true, not, ◌||◌, List, [], ◌∷◌, Option, none, some, arith,
  if◌then◌else◌, length, ltb, ◌==◌, u8, Bool-cases, inl, inr,
}
use prison_break.Model.{ItemType, ItemStack}
use prison_break.Items.Catalog.{is_known_item}
use prison_break.Items.Inventory.{
  find_stack_index, quantity_at, add_to_inventory, normalize_inventory, stack_limit_for_base,
  base_inventory_stack_limit, put, within_limit,
}
use prison_break.Items.Inventory.Totals.{total, total-append}
use prison_break.Items.Inventory.Normal.{
  IsNormal, Distinct-of_IsAscending, normalize-IsNormal, total-normalize,
}
use prison_break.Items.Inventory.Canonical.{total_of_IsNormal}
use prison_break.Items.Inventory.Found.{
  Found, find_stack_index-Found, share, total_same, known_same, passes,
}

pub put_lem :
    (m stacks : List ItemStack) (item : ItemType) (amount : ℕ) (o : Option ℕ)
    → Found item m o
    → amount < 256
    → put m item amount o ≡ some stacks
    → ((k : ItemType) → total k stacks ≡ total k m + share item amount k)
      × (total item m + amount ≤ 255)
unfolding put
put_lem m stacks item amount none f small e = (
  λ k. ground (
    arith,
    ap (total k) (some-injective _ _ e),
    total-append k m (record { item = item; quantity = amount } ∷ []),
  ),
  ground arith,
)
put_lem m stacks item amount (some i) f small e =
    elim (Bool-cases (ltb 255 (quantity_at m i + amount))) [
      | inl over ↦ ground (arith, rw over at e)
      | inr fits ↦
          let same = some-injective _ _ (rw fits at e) in
          (
            λ k. ground (
              arith,
              ap (total k) same,
              f.1 k (u8 (quantity_at m i + amount)),
              f.0,
              total_same item k m,
            ),
            ground (arith, f.0),
          )
    ]

-- Stacks that are known, and whose totals fit a stack, are kept by `normalizeInventory`.
pub kept_total :
    (m stacks : List ItemStack) (item : ItemType) (amount : ℕ) (k : ItemType)
    → IsNormal m
    → is_known_item item ≡ true
    → total item m + amount ≤ 255
    → total k stacks ≡ total k m + share item amount k
    → total k (normalize_inventory stacks) ≡ total k m + share item amount k
kept_total m stacks item amount k h known fits e = ground (
  arith,
  total-normalize k stacks,
  total_of_IsNormal k m h,
  total_same item k m,
  known_same item k,
)

-- What an addition amounts to.
pub record Added (m : List ItemStack) (item : ItemType) (amount base : ℕ) (next : List ItemStack)
    : Type 0 where
  pub normal : IsNormal next
  pub totals : (k : ItemType) → total k next ≡ total k m + share item amount k
  pub fits : total item m + amount ≤ 255
  pub known : is_known_item item ≡ true
  pub positive : 0 < amount
  pub room :
      length next
      ≤ stack_limit_for_base next (if base == 0 then base_inventory_stack_limit else base)

within_limit_lem :
    (base : ℕ) (o : Option (List ItemStack)) (next : List ItemStack)
    → within_limit base o ≡ some next
    → (stacks : List ItemStack) × (o ≡ some stacks)
      × (next ≡ normalize_inventory stacks)
      × (length next
          ≤ stack_limit_for_base next (if base == 0 then base_inventory_stack_limit else base))
unfolding within_limit
within_limit_lem base none next e = cc
within_limit_lem base (some stacks) next e = (stacks, refl, ground arith, ground arith)

pub add_to_inventory-Added :
    (m next : List ItemStack) (item : ItemType) (amount base : ℕ)
    → IsNormal m
    → amount < 256
    → add_to_inventory m item amount base ≡ some next
    → Added m item amount base next
unfolding add_to_inventory
add_to_inventory-Added m next item amount base h small e =
    let tested : (0 < amount) × (is_known_item item ≡ true) = ground arith in
    let (stacks, p, q, room) =
      within_limit_lem base _ next (passes (amount == 0 || not (is_known_item item)) _ next e) in
    let (totals, fits) =
      put_lem m stacks item amount (find_stack_index m item)
        (find_stack_index-Found item m (Distinct-of_IsAscending m h.ascending)) small p in
    record {
      normal = rw q (normalize-IsNormal stacks);
      totals = λ k. rw q (kept_total m stacks item amount k h tested.1 fits (totals k));
      fits = fits;
      known = tested.1;
      positive = tested.0;
      room = room;
    }
