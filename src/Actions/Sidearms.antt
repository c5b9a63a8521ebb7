-- ===== src/Actions/Sidearms.antt =====
-- manager.go: the sidearms of the authorities on a new day, the end of a restock, and what a player is told
-- of rooms, doors, hearts and escapes.
use prison_break.Shared.{
  ℕ, ◌/◌, ◌%◌, ◌++◌, ltb, decimal, Bool, true, false, not, ◌&&◌, ◌||◌, List, [], ◌∷◌, Text, codes,
  text_eq, map, ◌==◌, if◌then◌else◌, trim_space, Option, some, none,
}
use prison_break.Model.{
  GameState, PlayerState, PlayerId, DoorId, DoorState, EscapeAttemptFeedback, ItemStack,
}
use prison_break.GameMap.{is_authority_player}
use prison_break.Items.Catalog.{item_baton, item_pistol, item_bullet}
use prison_break.Items.Inventory.{add_item, remove_item, has_item}
use prison_break.Actions.Market.{ensure_equipped_item, feedback_success}
use prison_break.Actions.Ammo.{
  player_inventory_slot_count, authority_ammo_max, sync_authority_bullet_stack,
  normalize_inventory_to_player_slots, apply_action_feedback, feedback_system,
}

-- The first stack, other than the arms, that can be dropped.
unfoldable pub evict_other : PlayerState → List ItemStack → Option PlayerState
evict_other player [] = none
evict_other player (s ∷ stacks) =
    let rest = evict_other player stacks in
    let r = remove_item player s.item s.quantity in
    if text_eq s.item item_baton || (text_eq s.item item_pistol || text_eq s.item item_bullet)
    then rest
    else if r.1
    then some r.0
    else rest

-- Else the first stack of bullets.
unfoldable pub evict_bullets : PlayerState → List ItemStack → PlayerState × Bool
evict_bullets player [] = (player, false)
evict_bullets player (s ∷ stacks) =
    let rest = evict_bullets player stacks in
    if text_eq s.item item_bullet && ltb 0 s.quantity
    then remove_item player s.item s.quantity
    else rest

unfoldable pub evict_authority_overflow_item : PlayerState → PlayerState × Bool
evict_authority_overflow_item player = elim (evict_other player player.inventory) [
  | some p ↦ (p, true)
  | none ↦ evict_bullets player player.inventory
]

-- The baton, and the flag that the player has changed.
unfoldable pub restore_baton : PlayerState → PlayerState × Bool
restore_baton player =
    if has_item player item_baton 1 then (player, false) else add_item player item_baton 1

-- The pistol; when there is no room for it another stack goes.
unfoldable pub restore_pistol : PlayerState × Bool → PlayerState × Bool
restore_pistol (player, updated) =
    let direct = add_item player item_pistol 1 in
    let evicted = evict_authority_overflow_item direct.0 in
    let second = add_item evicted.0 item_pistol 1 in
    if has_item player item_pistol 1
    then (player, updated)
    else if direct.1
    then (direct.0, true)
    else if evicted.1
    then (second.0, second.1 || updated)
    else (evicted.0, updated)

-- The body of the loop of `restoreAuthoritySidearmsForNewDayLocked`.
unfoldable pub restore_sidearms : PlayerState → PlayerState × Bool
restore_sidearms player =
    let slotted =
      normalize_inventory_to_player_slots
        (record player { inventory_slots = player_inventory_slot_count }) in
    let armed = restore_pistol (restore_baton slotted) in
    let loaded = sync_authority_bullet_stack armed.0 in
    let equipped = ensure_equipped_item loaded.0 in
    if not (is_authority_player player)
    then (player, false)
    else (equipped.0, armed.1 || (loaded.1 || equipped.1))

unfoldable pub restored_ids : List PlayerState → List PlayerId
restored_ids [] = []
restored_ids (p ∷ players) =
    let rest = restored_ids players in
    let r = restore_sidearms p in if r.1 then r.0.id ∷ rest else rest

unfoldable pub restore_authority_sidearms : GameState → GameState × List PlayerId
restore_authority_sidearms state = (
  record state { players = map (λ p. (restore_sidearms p).0) state.players },
  restored_ids state.players,
)

-- The bullets of a player whose restock has ended, and whether the player has changed.
unfoldable pub restock : PlayerState → ℕ → PlayerState × Bool
restock player tick =
    let filled = record player { bullets = authority_ammo_max } in
    let short = not (player.bullets == authority_ammo_max) in
    let synced = sync_authority_bullet_stack filled in
    let told =
      apply_action_feedback synced.0 feedback_system feedback_success
        (codes "Ammo restocked to full.") tick in
    if not (player.alive && is_authority_player player)
    then (player, false)
    else (told.0, short || (synced.1 || told.1))

unfoldable pub apply_escape_feedback : PlayerState → Text → Bool → Text → ℕ → PlayerState × Bool
apply_escape_feedback player route success reason tick =
    let next : EscapeAttemptFeedback = record {
      route = route;
      status = if success then codes "success" else codes "failed";
      reason = trim_space reason;
      tick_id = tick;
    } in
    let last = player.last_escape_attempt in
    if text_eq route []
    then (player, false)
    else if text_eq last.route next.route
        && (text_eq last.status next.status
            && (text_eq last.reason next.reason && last.tick_id == next.tick_id))
    then (player, false)
    else (record player { last_escape_attempt = next }, true)

unfoldable pub door_state_for_id : List DoorState → DoorId → Option DoorState
door_state_for_id [] id = none
door_state_for_id (d ∷ doors) id =
    let rest = door_state_for_id doors id in if d.id == id then some d else rest

abbrev pub door_open_label : Bool → Text
door_open_label is_open = if is_open then codes "opened" else codes "closed"

unfoldable pub format_half_hearts : ℕ → Text
format_half_hearts half_hearts =
    let whole = decimal 3 (half_hearts / 2) in
    if half_hearts % 2 == 0 then whole else whole ++ codes ".5"
