-- ===== src/Actions/Ammo.antt =====
-- manager.go: the bullets of the authorities, the inventories that a match starts with, and the feedback
-- to a player.
pub mod Bullets
pub mod Restock
use prison_break.Shared.{
  ℕ, ◌+◌, ◌-◌, ◌*◌, ◌/◌, ◌++◌, leb, u64, decimal, Bool, true, false, not, ◌&&◌, ◌||◌, List, [], ◌∷◌,
  Text, codes, text_eq, text_lt, ltb, map, sort_by, ◌==◌, if◌then◌else◌, trim_space,
}
use prison_break.Model.{GameState, PlayerState, PlayerId, ActionFeedback, ItemType, ItemStack}
use prison_break.Model.Zero.{zero_player, zero_vector}
use prison_break.GameMap.{is_authority_player, room_ammo_room}
use prison_break.Items.Catalog.{item_baton, item_pistol, item_bullet, is_known_item}
use prison_break.Items.Inventory.{add_item, remove_item}
use prison_break.Actions.{PlaySession}
use prison_break.Actions.Market.{ensure_equipped_item, feedback_info, feedback_warning}

abbrev pub player_inventory_slot_count : ℕ
player_inventory_slot_count = 3

abbrev pub authority_ammo_max : ℕ
authority_ammo_max = 3

unfoldable pub inventory_item_quantity : List ItemStack → ItemType → ℕ
inventory_item_quantity [] item = 0
inventory_item_quantity (s ∷ inventory) item =
    let rest = inventory_item_quantity inventory item in
    if not (text_eq s.item item) then rest else s.quantity

-- The removal and the addition of `syncAuthorityBulletStackLocked`, each with the flag so far.
unfoldable pub drop_bullets : PlayerState → Bool → PlayerState × Bool
drop_bullets player changed =
    let current = inventory_item_quantity player.inventory item_bullet in
    let r = remove_item player item_bullet current in
    if ltb 0 current then (r.0, changed || r.1) else (player, changed)

unfoldable pub stock_bullets : PlayerState × Bool → PlayerState × Bool
stock_bullets (player, changed) =
    let r = add_item player item_bullet player.bullets in
    if ltb 0 player.bullets then (r.0, changed || r.1) else (player, changed)

unfoldable pub sync_authority_bullet_stack : PlayerState → PlayerState × Bool
sync_authority_bullet_stack player =
    let over = ltb authority_ammo_max player.bullets in
    let capped = if over then record player { bullets = authority_ammo_max } else player in
    if not (is_authority_player player)
    then (player, false)
    else stock_bullets (drop_bullets capped over)

-- The loop of `normalizeInventoryToPlayerSlotsLocked`, over the stacks in the order of their items.
unfoldable pub rebuild : PlayerState → List ItemStack → PlayerState
rebuild rebuilt [] = rebuilt
rebuild rebuilt (s ∷ stacks) =
    let next =
      if text_eq s.item [] || (s.quantity == 0 || not (is_known_item s.item))
      then rebuilt
      else (add_item rebuilt s.item s.quantity).0 in
    rebuild next stacks

unfoldable pub normalize_inventory_to_player_slots : PlayerState → PlayerState
normalize_inventory_to_player_slots player = record player {
  inventory =
      (rebuild (record zero_player { inventory_slots = player.inventory_slots })
        (sort_by (λ a b. text_lt a.item b.item) player.inventory)).inventory;
}

-- The arms of an authority, with the bullets of the loadout.
unfoldable pub arm_authority : PlayerState → PlayerState
arm_authority player =
    let batoned = (add_item (record player { inventory = [] }) item_baton 1).0 in
    let armed = (add_item batoned item_pistol 1).0 in
    let filled =
      if armed.bullets == 0 then record armed { bullets = authority_ammo_max } else armed in
    let capped =
      if ltb authority_ammo_max filled.bullets
      then record filled { bullets = authority_ammo_max }
      else filled in
    record (sync_authority_bullet_stack capped).0 { equipped_item = item_pistol }

-- The body of the loop of `applyInventoryLoadoutsLocked`.
unfoldable pub apply_inventory_loadout : PlayerState → PlayerState
apply_inventory_loadout player =
    let slotted = record player { inventory_slots = player_inventory_slot_count } in
    if is_authority_player slotted
    then arm_authority slotted
    else (ensure_equipped_item (normalize_inventory_to_player_slots slotted)).0

unfoldable pub apply_inventory_loadouts : GameState → GameState
apply_inventory_loadouts state = record state {
  players = map apply_inventory_loadout state.players;
}

abbrev pub same_feedback : ActionFeedback → ActionFeedback → Bool
same_feedback a b =
    text_eq a.kind b.kind
    && (text_eq a.level b.level && (text_eq a.message b.message && a.tick_id == b.tick_id))

unfoldable pub apply_action_feedback : PlayerState → Text → Text → Text → ℕ → PlayerState × Bool
apply_action_feedback player kind level message tick =
    let trimmed = trim_space message in
    let next : ActionFeedback = record {
      kind = kind;
      level = if text_eq level [] then feedback_info else level;
      message = trimmed;
      tick_id = tick;
    } in
    if text_eq kind []
    then (player, false)
    else if text_eq trimmed []
    then (player, false)
    else if same_feedback player.last_action_feedback next
    then (player, false)
    else (record player { last_action_feedback = next }, true)

abbrev pub feedback_system : Text
feedback_system = codes "system"

abbrev pub authority_restock_seconds : ℕ
authority_restock_seconds = 10

abbrev pub max_tick_rate : ℕ → ℕ
max_tick_rate rate = if rate == 0 then 1 else rate

unfoldable pub is_ammo_restock_in_progress : PlaySession → PlayerId → Bool
is_ammo_restock_in_progress session player =
    let until = session.ammo_restock_until player in
    if text_eq player [] then false else if until == 0 then false else ltb session.tick_id until

-- The feedback of the system to a player, and the session.
abbrev pub tell : PlaySession → PlayerState → Text → Text → (PlaySession × PlayerState) × Bool
tell session player level message =
    let r = apply_action_feedback player feedback_system level message session.tick_id in
    ((session, r.0), r.1)

-- The start of a restock; ten times a `uint32` is not 0 and within a `uint64`.
unfoldable pub start_restock : PlaySession → PlayerState → (PlaySession × PlayerState) × Bool
unfolding apply_action_feedback
start_restock session player =
    let until =
      u64 (session.tick_id + max_tick_rate session.tick_rate_hz * authority_restock_seconds) in
    tell
      (record session {
        ammo_restock_until =
            λ p. if text_eq p player.id then until else session.ammo_restock_until p;
      })
      (record player { velocity = zero_vector }) feedback_info
      (codes "Restocking ammo (10s). Hold position in Ammo Room.")

-- The message about a restock in progress, with the seconds rounded up.
unfoldable pub restock_message : PlaySession → PlayerId → Text
restock_message session player =
    let rate = max_tick_rate session.tick_rate_hz in
    codes "Ammo restock in progress ("
    ++ (decimal 20 (u64 (session.ammo_restock_until player - session.tick_id + rate - 1) / rate)
        ++ codes "s left).")

unfoldable pub apply_reload_command : PlaySession → PlayerState → (PlaySession × PlayerState) × Bool
unfolding apply_action_feedback
apply_reload_command session player =
    if not player.alive
    then ((session, player), false)
    else if not (is_authority_player player)
    then tell session player feedback_warning (codes "Only guards and the warden can restock ammo.")
    else if not (text_eq player.current_room_id room_ammo_room)
    then tell session player feedback_warning (codes "Go to the ammo room to restock.")
    else if leb authority_ammo_max player.bullets
    then tell session player feedback_info (codes "Ammo already full.")
    else if is_ammo_restock_in_progress session player.id
    then tell session player feedback_info (restock_message session player.id)
    else start_restock session player
