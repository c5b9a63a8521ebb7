-- ===== src/Items/Catalog.antt =====
-- The items of internal/shared/model/types.go, and the tables of inventory.go and market.go over them.
pub mod Recipes
pub mod Offers
use prison_break.Shared.{
  ℕ, Bool, true, false, List, [], ◌∷◌, Option, none, some, codes, text_eq, any, sort_by, order_on,
  if◌then◌else◌,
}
use prison_break.Model.{ItemType, ItemStack}

abbrev pub item_baton : ItemType
item_baton = codes "baton"

abbrev pub item_wood : ItemType
item_wood = codes "wood"

abbrev pub item_metal_slab : ItemType
item_metal_slab = codes "metal_slab"

abbrev pub item_shiv : ItemType
item_shiv = codes "shiv"

abbrev pub item_bullet : ItemType
item_bullet = codes "bullet"

abbrev pub item_pistol : ItemType
item_pistol = codes "pistol"

abbrev pub item_hunting_rifle : ItemType
item_hunting_rifle = codes "hunting_rifle"

abbrev pub item_lock_pick : ItemType
item_lock_pick = codes "lock_pick"

abbrev pub item_wire_cutters : ItemType
item_wire_cutters = codes "wire_cutters"

abbrev pub item_silencer : ItemType
item_silencer = codes "silencer"

abbrev pub item_satchel : ItemType
item_satchel = codes "satchel"

abbrev pub item_door_stop : ItemType
item_door_stop = codes "door_stop"

abbrev pub item_golden_bullet : ItemType
item_golden_bullet = codes "golden_bullet"

abbrev pub item_ladder : ItemType
item_ladder = codes "ladder"

abbrev pub item_shovel : ItemType
item_shovel = codes "shovel"

abbrev pub item_badge : ItemType
item_badge = codes "badge"

abbrev pub item_keys : ItemType
item_keys = codes "keys"

abbrev pub known_items : List ItemType
known_items =
    item_baton ∷ item_wood ∷ item_metal_slab ∷ item_shiv ∷ item_bullet ∷ item_pistol
    ∷ item_hunting_rifle ∷ item_lock_pick ∷ item_wire_cutters ∷ item_silencer ∷ item_satchel
    ∷ item_door_stop ∷ item_golden_bullet ∷ item_ladder ∷ item_shovel ∷ item_badge ∷ item_keys ∷ []

unfoldable pub is_known_item : ItemType → Bool
is_known_item item = any (λ k. text_eq k item) known_items

abbrev pub contraband_items : List ItemType
contraband_items =
    item_shiv ∷ item_pistol ∷ item_hunting_rifle ∷ item_ladder ∷ item_shovel ∷ item_wire_cutters
    ∷ []

unfoldable pub is_contraband : ItemType → Bool
is_contraband item = any (λ k. text_eq k item) contraband_items

pub record Recipe : Type 0 where
  pub output : ItemType
  pub output_quantity : ℕ
  pub inputs : List ItemStack

abbrev pub stack : ItemType → ℕ → ItemStack
stack item n = record { item = item; quantity = n }

abbrev recipe : ItemType → List ItemStack → Recipe
recipe output inputs = record { output = output; output_quantity = 1; inputs = inputs }

abbrev pub recipes_by_output : List Recipe
recipes_by_output =
    recipe item_shiv (stack item_wood 1 ∷ stack item_metal_slab 1 ∷ [])
    ∷ recipe item_door_stop (stack item_wood 1 ∷ stack item_metal_slab 1 ∷ [])
    ∷ recipe item_ladder (stack item_wood 2 ∷ stack item_metal_slab 1 ∷ [])
    ∷ recipe item_shovel (stack item_wood 1 ∷ stack item_metal_slab 2 ∷ [])
    ∷ recipe item_wire_cutters (stack item_metal_slab 2 ∷ stack item_lock_pick 1 ∷ [])
    ∷ []

unfoldable pub find_recipe : ItemType → List Recipe → Option Recipe
find_recipe output [] = none
find_recipe output (r ∷ rs) = if text_eq r.output output then some r else find_recipe output rs

unfoldable pub sort_inputs : Option Recipe → Option Recipe
sort_inputs none = none
sort_inputs (some r) =
    some (record r { inputs = sort_by (order_on (λ (s : ItemStack). s.item)).lt r.inputs })

-- `RecipeFor`: the inputs are sorted by item.
unfoldable pub recipe_for : ItemType → Option Recipe
unfolding find_recipe sort_inputs
recipe_for output = sort_inputs (find_recipe output recipes_by_output)

pub record BlackMarketOffer : Type 0 where
  pub item : ItemType
  pub quantity : ℕ
  pub money_card_cost : ℕ

abbrev offer : ItemType → ℕ → BlackMarketOffer
offer item cost = record { item = item; quantity = 1; money_card_cost = cost }

abbrev pub black_market_offers : List BlackMarketOffer
black_market_offers =
    offer item_wood 1
    ∷ offer item_metal_slab 1
    ∷ offer item_bullet 1
    ∷ offer item_lock_pick 1
    ∷ offer item_shiv 2
    ∷ offer item_door_stop 2
    ∷ offer item_silencer 2
    ∷ offer item_satchel 2
    ∷ offer item_wire_cutters 2
    ∷ offer item_pistol 3
    ∷ offer item_hunting_rifle 3
    ∷ offer item_golden_bullet 3
    ∷ []

find_offer : ItemType → List BlackMarketOffer → Option BlackMarketOffer
find_offer item [] = none
find_offer item (o ∷ os) = if text_eq o.item item then some o else find_offer item os

unfoldable pub black_market_offer_for_item : ItemType → Option BlackMarketOffer
unfolding find_offer
black_market_offer_for_item item = find_offer item black_market_offers

is_some : Option BlackMarketOffer → Bool
is_some none = false
is_some (some o) = true

unfoldable pub is_black_market_item : ItemType → Bool
unfolding black_market_offer_for_item is_some
is_black_market_item item = is_some (black_market_offer_for_item item)
