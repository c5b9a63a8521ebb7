-- ===== src/Items/Inventory.antt =====
-- inventory.go: stacks of items, their normal form, and the operations on a player's inventory.
-- Go's map in `normalizeInventory` is an association list here: its keys are distinct, and the sort
-- by item that follows makes the order in which the map is walked immaterial.
pub mod Totals
pub mod Normal
pub mod Canonical
pub mod Found
pub mod Adding
pub mod Removing
pub mod Operations
pub mod Complete
pub mod Transfer
pub mod Crafting
use prison_break.Shared.{
  ℕ, zero, suc, ◌+◌, ◌-◌, ◌*◌, Bool, true, false, not, ◌&&◌, ◌||◌, List, [], ◌∷◌, ◌++◌, Option,
  none, some, codes, text_eq, text_lt, ltb, leb, ◌==◌, if◌then◌else◌, length, keep, sort_by, u8,
  u16,
}
use prison_break.Model.{ItemType, ItemStack, PlayerState}
use prison_break.Items.Catalog.{is_known_item, is_contraband, item_satchel, Recipe, recipe_for}

abbrev pub base_inventory_stack_limit : ℕ
base_inventory_stack_limit = 6

abbrev pub satchel_bonus_stacks : ℕ
satchel_bonus_stacks = 3

-- `aggregated[item] += uint16(quantity)`
unfoldable pub accumulate : ItemType → ℕ → List ItemStack → List ItemStack
accumulate item n [] = record { item = item; quantity = u16 n } ∷ []
accumulate item n (e ∷ m) =
    if text_eq e.item item
    then record e { quantity = u16 (e.quantity + n) } ∷ m
    else e ∷ accumulate item n m

-- The first loop of `normalizeInventory`.
unfoldable pub aggregate : List ItemStack → List ItemStack → List ItemStack
unfolding accumulate
aggregate m [] = m
aggregate m (s ∷ inventory) =
    aggregate
      (if s.quantity == 0 || not (is_known_item s.item) then m else accumulate s.item s.quantity m)
      inventory

-- The second loop: no empty stack, and at most 255 to a stack.
unfoldable pub cap_stacks : List ItemStack → List ItemStack
cap_stacks [] = []
cap_stacks (e ∷ m) =
    if e.quantity == 0
    then cap_stacks m
    else record e { quantity = if ltb 255 e.quantity then 255 else e.quantity } ∷ cap_stacks m

abbrev pub item_lt : ItemStack → ItemStack → Bool
item_lt a b = text_lt a.item b.item

unfoldable pub normalize_inventory : List ItemStack → List ItemStack
unfolding aggregate cap_stacks
normalize_inventory inventory = sort_by item_lt (cap_stacks (aggregate [] inventory))

suc_index : Option ℕ → Option ℕ
suc_index none = none
suc_index (some i) = some (suc i)

-- `none` for the index -1.
unfoldable pub find_stack_index : List ItemStack → ItemType → Option ℕ
unfolding suc_index
find_stack_index [] item = none
find_stack_index (s ∷ inventory) item =
    if text_eq s.item item then some 0 else suc_index (find_stack_index inventory item)

-- Reading, writing and deleting at an index that is in range.
abbrev pub quantity_at : List ItemStack → ℕ → ℕ
quantity_at [] i = 0
quantity_at (s ∷ inventory) zero = s.quantity
quantity_at (s ∷ inventory) (suc i) = quantity_at inventory i

abbrev pub set_quantity : List ItemStack → ℕ → ℕ → List ItemStack
set_quantity [] i n = []
set_quantity (s ∷ inventory) zero n = record s { quantity = n } ∷ inventory
set_quantity (s ∷ inventory) (suc i) n = s ∷ set_quantity inventory i n

abbrev pub delete_at : List ItemStack → ℕ → List ItemStack
delete_at [] i = []
delete_at (s ∷ inventory) zero = inventory
delete_at (s ∷ inventory) (suc i) = s ∷ delete_at inventory i

unfoldable pub satchel_count : List ItemStack → ℕ
satchel_count [] = 0
satchel_count (s ∷ inventory) =
    if not (text_eq s.item item_satchel)
    then satchel_count inventory
    else s.quantity + satchel_count inventory

unfoldable pub stack_limit_for_base : List ItemStack → ℕ → ℕ
unfolding satchel_count
stack_limit_for_base inventory base_limit =
    base_limit + satchel_count inventory * satchel_bonus_stacks

unfoldable pub base_stack_limit_for_player : PlayerState → ℕ
base_stack_limit_for_player player =
    if ltb 0 player.inventory_slots then player.inventory_slots else base_inventory_stack_limit

unfoldable pub stack_limit_for_player : PlayerState → List ItemStack → ℕ
unfolding stack_limit_for_base base_stack_limit_for_player
stack_limit_for_player player inventory =
    stack_limit_for_base inventory (base_stack_limit_for_player player)

unfoldable pub inventory_stack_limit : PlayerState → ℕ
unfolding stack_limit_for_player normalize_inventory
inventory_stack_limit player =
    u8 (stack_limit_for_player player (normalize_inventory player.inventory))

unfoldable pub has_at : List ItemStack → Option ℕ → ℕ → Bool
has_at inventory none amount = false
has_at inventory (some i) amount = leb amount (quantity_at inventory i)

unfoldable pub has_item : PlayerState → ItemType → ℕ → Bool
unfolding has_at normalize_inventory find_stack_index
has_item player item amount =
    if not (is_known_item item)
    then false
    else if amount == 0
    then true
    else (let inventory = normalize_inventory player.inventory in
        has_at inventory (find_stack_index inventory item) amount)

-- The stacks with the new amount, before they are normalized.
unfoldable pub put : List ItemStack → ItemType → ℕ → Option ℕ → Option (List ItemStack)
put inventory item amount none = some (inventory ++ record { item = item; quantity = amount } ∷ [])
put inventory item amount (some i) =
    let n = quantity_at inventory i + amount in
    if ltb 255 n then none else some (set_quantity inventory i (u8 n))

unfoldable pub within_limit : ℕ → Option (List ItemStack) → Option (List ItemStack)
unfolding normalize_inventory stack_limit_for_base
within_limit base none = none
within_limit base (some stacks) =
    let next = normalize_inventory stacks in
    let limit = if base == 0 then base_inventory_stack_limit else base in
    if ltb (stack_limit_for_base next limit) (length next) then none else some next

unfoldable pub add_to_inventory : List ItemStack → ItemType → ℕ → ℕ → Option (List ItemStack)
unfolding put within_limit find_stack_index
add_to_inventory inventory item amount base_stack_limit =
    if amount == 0 || not (is_known_item item)
    then none
    else within_limit base_stack_limit (put inventory item amount (find_stack_index inventory item))

take_at : List ItemStack → ℕ → Option ℕ → Option (List ItemStack)
unfolding normalize_inventory
take_at inventory amount none = none
take_at inventory amount (some i) =
    let left = quantity_at inventory i - amount in
    if ltb (quantity_at inventory i) amount
    then none
    else some (
        normalize_inventory
          (if left == 0 then delete_at inventory i else set_quantity inventory i left))

unfoldable pub remove_from_inventory : List ItemStack → ItemType → ℕ → Option (List ItemStack)
unfolding take_at find_stack_index
remove_from_inventory inventory item amount =
    if amount == 0 || not (is_known_item item)
    then none
    else take_at inventory amount (find_stack_index inventory item)

unfoldable pub store : PlayerState → Option (List ItemStack) → PlayerState × Bool
store player none = (player, false)
store player (some next) = (record player { inventory = next }, true)

-- The operations return the player that the caller's pointer then shows, and the result.
unfoldable pub add_item : PlayerState → ItemType → ℕ → PlayerState × Bool
add_item player item amount =
    if amount == 0 || not (is_known_item item)
    then (player, false)
    else store player (
        add_to_inventory (normalize_inventory player.inventory) item amount
          (base_stack_limit_for_player player))

-- A satchel stays while its extra room is in use.
unfoldable pub keep_satchel :
    PlayerState → ItemType → Option (List ItemStack) → Option (List ItemStack)
unfolding stack_limit_for_player
keep_satchel player item none = none
keep_satchel player item (some next) =
    if text_eq item item_satchel && ltb (stack_limit_for_player player next) (length next)
    then none
    else some next

unfoldable pub remove_item : PlayerState → ItemType → ℕ → PlayerState × Bool
remove_item player item amount =
    if amount == 0 || not (is_known_item item)
    then (player, false)
    else store player (
        keep_satchel player item
          (remove_from_inventory (normalize_inventory player.inventory) item amount))

unfoldable pub store_both :
    PlayerState
    → PlayerState
    → Option (List ItemStack)
    → Option (List ItemStack)
    → PlayerState × PlayerState × Bool
store_both from to none d = (from, to, false)
store_both from to (some s) none = (from, to, false)
store_both from to (some s) (some d) =
    (record from { inventory = s }, record to { inventory = d }, true)

unfoldable pub transfer_item :
    PlayerState → PlayerState → ItemType → ℕ → PlayerState × PlayerState × Bool
transfer_item from to item amount =
    if amount == 0 || not (is_known_item item)
    then (from, to, false)
    else if text_eq from.id to.id
    then (from, to, false)
    else store_both from to (remove_from_inventory (normalize_inventory from.inventory) item amount)
        (add_to_inventory (normalize_inventory to.inventory) item amount
          (base_stack_limit_for_player to))

-- The loop of `Craft` over the inputs of a recipe.
unfoldable pub remove_inputs : List ItemStack → Option (List ItemStack) → Option (List ItemStack)
remove_inputs [] inventory = inventory
remove_inputs (r ∷ inputs) none = none
remove_inputs (r ∷ inputs) (some inventory) =
    remove_inputs inputs (remove_from_inventory inventory r.item r.quantity)

unfoldable pub add_output : PlayerState → Recipe → Option (List ItemStack) → Option (List ItemStack)
add_output player r none = none
add_output player r (some inventory) =
    add_to_inventory inventory r.output r.output_quantity (base_stack_limit_for_player player)

unfoldable pub craft_recipe : PlayerState → Option Recipe → PlayerState × Bool
craft_recipe player none = (player, false)
craft_recipe player (some r) =
    store player
      (add_output player r (remove_inputs r.inputs (some (normalize_inventory player.inventory))))

unfoldable pub craft : PlayerState → ItemType → PlayerState × Bool
craft player output = craft_recipe player (recipe_for output)

unfoldable pub contraband_stacks : PlayerState → List ItemStack
unfolding normalize_inventory
contraband_stacks player = keep (λ s. is_contraband s.item) (normalize_inventory player.inventory)

unfoldable pub has_contraband : PlayerState → Bool
unfolding contraband_stacks
has_contraband player = ltb 0 (length (contraband_stacks player))
