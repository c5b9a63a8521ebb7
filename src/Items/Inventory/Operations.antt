-- ===== src/Items/Inventory/Operations.antt =====
-- `HasItem`, `AddItem`, `RemoveItem` and `TransferItem` on players.
use prison_break.Shared.{
  ℕ, ◌≤◌, ◌<◌, ◌≡◌, ◌≢◌, ◌↔◌, ◌⊎◌, refl, Bool, true, false, not, ◌||◌, List, Option, none, some,
  arith, text_eq_refl, text_eq_iff, length, ◌==◌, Bool-cases, inl, inr,
}
use prison_break.Model.{ItemType, ItemStack, PlayerState}
use prison_break.Items.Catalog.{is_known_item, item_satchel}
use prison_break.Items.Inventory.{
  normalize_inventory, find_stack_index, base_stack_limit_for_player, stack_limit_for_player,
  has_item, add_item, remove_item, remove_from_inventory, keep_satchel, store, has_at,
}
use prison_break.Items.Inventory.Totals.{total}
use prison_break.Items.Inventory.Normal.{Distinct-of_IsAscending, normalize-IsNormal}
use prison_break.Items.Inventory.Canonical.{normal_ext, normalize_inventory-canonical}
use prison_break.Items.Inventory.Found.{Found, find_stack_index-Found}
use prison_break.Items.Inventory.Adding.{Added, add_to_inventory-Added}
use prison_break.Items.Inventory.Removing.{
  Removed, remove_from_inventory-Removed, remove_from_inventory-succeeds,
}

-- How many of an item the operations see a player hold.
abbrev pub holds : PlayerState → ItemType → ℕ
holds player item = total item (normalize_inventory player.inventory)

has_at_iff :
    (m : List ItemStack) (item : ItemType) (amount : ℕ) (o : Option ℕ)
    → Found item m o
    → 0 < amount
    → (has_at m o amount ≡ true) ↔ (amount ≤ total item m)
unfolding has_at
has_at_iff m item amount none f pos = ground arith
has_at_iff m item amount (some i) f pos = ground (arith, f.0)

-- `HasItem` says whether the item is known and the player holds the amount of it.
pub has_item_iff :
    (player : PlayerState) (item : ItemType) (amount : ℕ)
    → (has_item player item amount ≡ true)
      ↔ ((is_known_item item ≡ true) × (amount ≤ holds player item))
unfolding has_item
has_item_iff player item amount =
    let m = normalize_inventory player.inventory in
    ground (
      arith,
      has_at_iff m item amount (find_stack_index m item) (
          find_stack_index-Found item m
            (Distinct-of_IsAscending m (normalize-IsNormal player.inventory).ascending)),
    )

-- The result of an operation on a player: a new inventory with a property, or no change.
abbrev pub Outcome : PlayerState → (List ItemStack → Type 0) → PlayerState × Bool → Type 0
Outcome player P r =
    ((r.1 ≡ true) × P r.0.inventory × (r.0 ≡ record player { inventory = r.0.inventory }))
    ⊎ ((r.1 ≡ false) × (r.0 ≡ player))

pub store-Outcome :
    (player : PlayerState) (P : List ItemStack → Type 0) (o : Option (List ItemStack))
    → ((next : List ItemStack) → o ≡ some next → P next)
    → Outcome player P (store player o)
unfolding store
store-Outcome player P none h = inr (refl, refl)
store-Outcome player P (some next) h = inl (refl, h next refl, refl)

-- `AddItem` either refuses and changes nothing, or leaves an inventory in normal form with just the
-- amount more of just that item, which is a known one, within 255 of it and within the player's
-- limit of stacks.
pub add_item-Added :
    (player : PlayerState) (item : ItemType) (amount : ℕ)
    → amount < 256
    → Outcome player
        (Added
          (normalize_inventory player.inventory)
          item
          amount
          (base_stack_limit_for_player player))
        (add_item player item amount)
unfolding add_item
add_item-Added player item amount small =
    elim (Bool-cases (amount == 0 || not (is_known_item item))) [
      | inl e ↦ rw e (inr (refl, refl))
      | inr e ↦ rw e (
          store-Outcome player _ _ (λ next.
            add_to_inventory-Added (normalize_inventory player.inventory) next item amount
              (base_stack_limit_for_player player) (normalize-IsNormal player.inventory) small))
    ]

keep_satchel_lem :
    (player : PlayerState) (item : ItemType) (o : Option (List ItemStack)) (next : List ItemStack)
    → keep_satchel player item o ≡ some next
    → (o ≡ some next) × (item ≡ item_satchel → length next ≤ stack_limit_for_player player next)
unfolding keep_satchel
keep_satchel_lem player item none next e = cc
keep_satchel_lem player item (some m) next e = ground (arith, text_eq_iff item item_satchel)

-- What is left after a removal, the guard on satchels included.
abbrev pub RemovedWithin : PlayerState → ItemType → ℕ → List ItemStack → Type 0
RemovedWithin player item amount next =
    Removed (normalize_inventory player.inventory) item amount next
    × (item ≡ item_satchel → length next ≤ stack_limit_for_player player next)

-- `RemoveItem` either refuses and changes nothing, or leaves an inventory in normal form with just
-- the amount less of just that item; what is left after a satchel is given up is within the limit.
pub remove_item-Removed :
    (player : PlayerState) (item : ItemType) (amount : ℕ)
    → Outcome player (RemovedWithin player item amount) (remove_item player item amount)
unfolding remove_item
remove_item-Removed player item amount =
    elim (Bool-cases (amount == 0 || not (is_known_item item))) [
      | inl e ↦ rw e (inr (refl, refl))
      | inr e ↦ rw e (
          store-Outcome player (RemovedWithin player item amount) _ (λ next k.
            let kept = keep_satchel_lem player item _ next k in
            (
              remove_from_inventory-Removed (normalize_inventory player.inventory) next item amount
                  (normalize-IsNormal player.inventory) kept.0,
              kept.1,
            )))
    ]

pub keep_satchel_other :
    (player : PlayerState) (item : ItemType) (o : Option (List ItemStack))
    → item ≢ item_satchel
    → keep_satchel player item o ≡ o
unfolding keep_satchel
keep_satchel_other player item none h = refl
keep_satchel_other player item (some m) h = ground (arith, text_eq_iff item item_satchel)

taken_back :
    (p : PlayerState) (m : List ItemStack) (item : ItemType) (n : ℕ)
    → Added (normalize_inventory p.inventory) item n (base_stack_limit_for_player p) m
    → item ≢ item_satchel
    → remove_item (record p { inventory = m }) item n
      ≡ (record p { inventory = normalize_inventory p.inventory }, true)
unfolding remove_item store
taken_back p m item n added other =
    let test : (n == 0 || not (is_known_item item)) ≡ false =
      ground (arith, added.known, added.positive) in
    let norm = (normalize_inventory-canonical m).0.0 added.normal in
    let (next, e) =
      remove_from_inventory-succeeds m item n added.normal added.known added.positive
        (ground (arith, added.totals item, text_eq_refl item)) in
    let removed = remove_from_inventory-Removed m next item n added.normal e in
    let same =
      normal_ext next (normalize_inventory p.inventory) removed.normal
        (normalize-IsNormal p.inventory) (λ k. omega (arith, removed.totals k, added.totals k)) in
    rw (
      test,
      norm,
      keep_satchel_other (record p { inventory = m }) item (remove_from_inventory m item n) other,
      e,
      same,
    )

-- Take back what was added: `RemoveItem` after a successful `AddItem` of anything but satchels
-- succeeds, and leaves the player with the normal form of the inventory from before.
pub remove_item-add_item :
    (player : PlayerState) (item : ItemType) (amount : ℕ)
    → amount < 256
    → item ≢ item_satchel
    → (add_item player item amount).1 ≡ true
    → remove_item (add_item player item amount).0 item amount
      ≡ (record player { inventory = normalize_inventory player.inventory }, true)
remove_item-add_item player item amount small other done =
    elim (add_item-Added player item amount small) [
      | inl (_, added, same) ↦
          rw same
            (taken_back player (add_item player item amount).0.inventory item amount added other)
      | inr (refused, _) ↦ ground arith
    ]
