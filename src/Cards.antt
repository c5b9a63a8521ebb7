-- ===== src/Cards.antt =====
-- internal/gamecore/cards/framework.go: the cards of a player, and what a card grabs.
pub mod Hand
pub mod Grab
use prison_break.Shared.{
  ℕ, ◌*◌, ◌%◌, Bool, true, false, not, ◌||◌, List, [], ◌∷◌, ◌++◌, Text, codes, text_eq, text_lt,
  any, keep, map, leb, ◌==◌, length, get_or, sort_by, fnv64a, le_bytes, if◌then◌else◌,
}
use prison_break.Model.{PlayerState, PlayerId, CardType, ItemType, ItemStack}
use prison_break.Items.Catalog.{
  item_wood, item_metal_slab, item_lock_pick, item_shiv, item_bullet, item_wire_cutters,
}

abbrev pub card_morphine : CardType
card_morphine = codes "morphine"

abbrev pub card_bullet : CardType
card_bullet = codes "bullet"

abbrev pub card_money : CardType
card_money = codes "money"

abbrev pub card_speed : CardType
card_speed = codes "speed"

abbrev pub card_armor_plate : CardType
card_armor_plate = codes "armor_plate"

abbrev pub card_lock_snap : CardType
card_lock_snap = codes "lock_snap"

abbrev pub card_item_steal : CardType
card_item_steal = codes "item_steal"

abbrev pub card_item_grab : CardType
card_item_grab = codes "item_grab"

abbrev pub card_scrap_bundle : CardType
card_scrap_bundle = codes "scrap_bundle"

abbrev pub card_door_stop : CardType
card_door_stop = codes "door_stop"

abbrev pub card_get_out_of_jail_free : CardType
card_get_out_of_jail_free = codes "get_out_of_jail_free"

abbrev pub max_cards_held : ℕ
max_cards_held = 3

abbrev pub speed_duration_seconds : ℕ
speed_duration_seconds = 5

abbrev pub door_stop_duration_seconds : ℕ
door_stop_duration_seconds = 10

-- The catalogue, which lists the keys of the map `knownCards`.
abbrev pub known_cards : List CardType
known_cards =
    card_morphine ∷ card_bullet ∷ card_money ∷ card_speed ∷ card_armor_plate ∷ card_lock_snap
    ∷ card_item_steal ∷ card_item_grab ∷ card_scrap_bundle ∷ card_door_stop
    ∷ card_get_out_of_jail_free ∷ []

abbrev pub deterministic_grab_pool : List ItemType
deterministic_grab_pool =
    item_wood ∷ item_metal_slab ∷ item_lock_pick ∷ item_shiv ∷ item_bullet ∷ item_wire_cutters ∷ []

unfoldable pub is_known_card : CardType → Bool
is_known_card card = any (λ c. text_eq c card) known_cards

unfoldable pub has_card : PlayerState → CardType → Bool
has_card player card = any (λ c. text_eq c card) player.cards

-- `AddCard` and `RemoveCard`, on a player that is not nil: the player, and the result.
unfoldable pub add_card : PlayerState → CardType → PlayerState × Bool
add_card player card =
    if not (is_known_card card)
    then (player, false)
    else if leb max_cards_held (length player.cards)
    then (player, false)
    else (record player { cards = sort_by text_lt (player.cards ++ card ∷ []) }, true)

-- The cards without the first that equals `card`, and whether there was one.
unfoldable pub delete_card : CardType → List CardType → List CardType × Bool
delete_card card [] = ([], false)
delete_card card (c ∷ cards) =
    let rest = delete_card card cards in
    if not (text_eq c card) then (c ∷ rest.0, rest.1) else (cards, true)

unfoldable pub remove_card : PlayerState → CardType → PlayerState × Bool
remove_card player card =
    let rest = delete_card card player.cards in
    if not (is_known_card card) || length player.cards == 0
    then (player, false)
    else if rest.1
    then (record player { cards = rest.0 }, true)
    else (player, false)

-- A constant times a `uint32` is within a `uint64`.
unfoldable pub speed_duration_ticks : ℕ → ℕ
speed_duration_ticks hz = if hz == 0 then 0 else speed_duration_seconds * hz

unfoldable pub door_stop_duration_ticks : ℕ → ℕ
door_stop_duration_ticks hz = if hz == 0 then 0 else door_stop_duration_seconds * hz

-- The pool is a constant list of six, so the test for an empty pool never passes.
unfoldable pub deterministic_grab_item : PlayerId → ℕ → ItemType
unfolding fnv64a le_bytes
deterministic_grab_item player tick =
    get_or deterministic_grab_pool
      (fnv64a (player ++ le_bytes 8 tick) % length deterministic_grab_pool) []

abbrev pub is_candidate : ItemStack → Bool
is_candidate s = not (s.quantity == 0 || text_eq s.item [])

unfoldable pub grab_candidates : List ItemStack → List ItemType
grab_candidates inventory = sort_by text_lt (map (λ s. s.item) (keep is_candidate inventory))

unfoldable pub deterministic_grab_from_inventory :
    PlayerId → PlayerId → ℕ → List ItemStack → ItemType
unfolding fnv64a le_bytes
deterministic_grab_from_inventory actor target tick inventory =
    let candidates = grab_candidates inventory in
    if length candidates == 0
    then []
    else get_or candidates (fnv64a (actor ++ (target ++ le_bytes 8 tick)) % length candidates) []
