-- ===== src/Examples/Play.antt =====
-- A running match: the handlers of server/game/manager.go.
use prison_break.Shared.{
  sort_by, text_lt, map, ℕ, ◌+◌, ◌*◌, ◌<◌, ◌≤◌, ◌≡◌, ◌↔◌, ◌⊎◌, refl, arith, true, false, ◌&&◌, some,
  [], ◌∷◌, codes, All, text_eq, if◌then◌else◌, ltb,
}
use prison_break.Model.{
  PlayerState, CellState, DoorState, ItemType, CardType, EffectType, night, day, gang_member,
  deputy, prisoner, authority,
}
use prison_break.Model.Zero.{zero_player, zero_state}
use prison_break.GameMap.{
  is_authority_player, room_ammo_room, room_courtyard, room_power_room, room_cell_block_a,
  can_operate_cell_door,
}
use prison_break.Items.Catalog.{
  BlackMarketOffer, black_market_offer_for_item, is_known_item, item_baton, item_bullet,
  item_pistol, item_wood, stack,
}
use prison_break.Items.Inventory.{
  normalize_inventory, stack_limit_for_player, base_stack_limit_for_player, stack_limit_for_base,
}
use prison_break.Items.Inventory.Normal.{IsNormal}
use prison_break.Actions.Ammo.{sync_authority_bullet_stack, apply_reload_command}
use prison_break.Actions.Ammo.Bullets.{sync_authority_bullet_stack-Loaded, Loaded}
use prison_break.Actions.Ammo.Restock.{apply_reload_command-restocks, MayRestock, Restocking}
use prison_break.Actions.Sidearms.{format_half_hearts}
use prison_break.Cards.{card_money}
use prison_break.Cards.Hand.{held}
use prison_break.Abilities.{ability_search, cooldown_ticks, daily_use_limit, spec_for}
use prison_break.Actions.{PlaySession}
use prison_break.Actions.Market.{consume_player_cards, apply_black_market_purchase}
use prison_break.Actions.Market.Payment.{consume_player_cards-paid, SameButHand}
use prison_break.Actions.Market.Trade.{apply_black_market_purchase-Settled, Bought, money_known}
use prison_break.Actions.Uses.{
  within_daily_limit, can_use_ability_at_current_tick, register_ability_use,
}
use prison_break.Actions.Uses.Limits.{
  Uses, start, use_ability, times, uses_today, Uses-WithinLimits, register_ability_use-cools_down,
}
use prison_break.Actions.Stash.{find_cell, find_player, apply_cell_stash_interact}
use prison_break.Actions.Stash.Conserves.{
  apply_cell_stash_interact-conserves, Holding, HasRoom, together,
}
use prison_break.Actions.Doors.{try_toggle_door, try_toggle_power}
use prison_break.Actions.Doors.Toggles.{
  DoorsPowered, quiet, turns_power, turns_door, Toggles-Powered, try_toggle_door-Turned, Turned,
}

abbrev convict : PlayerState
convict = record zero_player {
  id = codes "b";
  alive = true;
  role = gang_member;
  faction = prisoner;
  current_room_id = room_courtyard;
  assigned_cell = 3;
  cards = card_money ∷ card_money ∷ card_money ∷ [];
  inventory = stack item_wood 2 ∷ [];
}

abbrev cell_door : DoorState
cell_door = record {
  id = 203;
  room_a = room_cell_block_a;
  room_b = codes "cell_3";
  is_open = false;
  locked = false;
  can_close = true;
  blocked_until_tick = 0;
  locked_by_player_id = [];
}

abbrev third_cell : CellState
third_cell = record {
  id = 3;
  owner_player_id = codes "b";
  door_id = 203;
  occupant_player_ids = codes "b" ∷ [];
  stash = stack item_wood 1 ∷ [];
}

abbrev tonight : PlaySession
tonight = record {
  tick_id = 9100;
  tick_rate_hz = 30;
  game_state = record zero_state {
    phase = record { current = night; started_tick = 9001; ends_tick = 12601 };
    players = convict ∷ [];
    map = record zero_state.map {
      power_on = true;
      black_market_room_id = room_courtyard;
      doors = cell_door ∷ [];
      cells = third_cell ∷ [];
    };
  };
  black_market_golden_bullet_sold = false;
  ability_cooldown_until = λ p a. 0;
  ability_daily_usage = λ p a. record { day_start_tick = 0; use_count = 0 };
  ammo_restock_until = λ p. 0;
}

consume_player_cards-paid_example :
    let r = consume_player_cards convict card_money 2 in
    SameButHand r.0 convict
    × ((r.1 ≡ true) ↔ (2 ≤ held convict card_money))
    × ((k : CardType)
        → held r.0 k + (if r.1 && text_eq card_money k then 2 else 0) ≡ held convict k)
consume_player_cards-paid_example =
    consume_player_cards-paid convict card_money 2 money_known (omega arith)

apply_black_market_purchase-Settled_example :
    let r = apply_black_market_purchase tonight convict item_pistol in
    ((r.bought ≡ false) × (r.player ≡ convict) × (r.session ≡ tonight))
    ⊎ ((offer : BlackMarketOffer) × (black_market_offer_for_item item_pistol ≡ some offer)
        × (r.bought ≡ true)
        × Bought tonight convict offer r)
apply_black_market_purchase-Settled_example =
    apply_black_market_purchase-Settled tonight convict item_pistol (omega arith)

abbrev guard : PlayerState
guard = record zero_player { id = codes "g"; alive = true; role = deputy; faction = authority }

abbrev today : PlaySession
today = record tonight {
  tick_id = 60;
  game_state = record tonight.game_state {
    phase = record { current = day; started_tick = 1; ends_tick = 9001 };
  };
}

search_allowed : (can_use_ability_at_current_tick today guard ability_search).0 ≡ true
unfolding can_use_ability_at_current_tick within_daily_limit daily_use_limit spec_for text_eq
search_allowed = refl

search_cools_down : cooldown_ticks ability_search 30 ≡ 240
unfolding cooldown_ticks spec_for text_eq
search_cools_down = refl

search_limited : 0 < daily_use_limit ability_search
unfolding daily_use_limit spec_for text_eq
search_limited = omega arith

abbrev one_search : Uses today (register_ability_use today guard ability_search)
one_search = use_ability guard ability_search start search_allowed

Uses-WithinLimits_example :
    (uses_today (register_ability_use today guard ability_search) guard.id ability_search
      ≡ uses_today today guard.id ability_search + times one_search guard.id ability_search)
    × (uses_today today guard.id ability_search + times one_search guard.id ability_search
        ≤ daily_use_limit ability_search)
Uses-WithinLimits_example =
    Uses-WithinLimits guard.id ability_search search_limited (omega arith) one_search

register_ability_use-cools_down_example :
    let after = record (register_ability_use today guard ability_search) { tick_id = 100 } in
    (can_use_ability_at_current_tick after guard ability_search).0 ≡ false
register_ability_use-cools_down_example =
    register_ability_use-cools_down today guard ability_search 100
      (omega (arith, search_cools_down)) (omega arith) (omega (arith, search_cools_down))

abbrev speed : EffectType
speed = codes "speed_boost"

found : Holding tonight convict convict third_cell
unfolding find_cell find_player text_eq
found = record { at_cell = refl; at_player = refl }

convict-HasRoom : HasRoom convict
unfolding normalize_inventory stack_limit_for_player base_stack_limit_for_player
    stack_limit_for_base is_known_item text_eq sort_by
convict-HasRoom = omega arith

apply_cell_stash_interact-conserves_example :
    let r = apply_cell_stash_interact tonight convict (codes "deposit") item_wood 2 in
    (after : PlayerState) × (box : CellState) × Holding r.session convict after box
    × ((k : ItemType) → together after box.stash k ≡ together convict third_cell.stash k)
apply_cell_stash_interact-conserves_example =
    apply_cell_stash_interact-conserves tonight convict convict third_cell (codes "deposit")
      item_wood 2 (omega arith) found convict-HasRoom

Toggles-Powered_example :
    DoorsPowered
      (try_toggle_power
        (try_toggle_door tonight convict 203 []).session
        (record convict { current_room_id = room_power_room })
        []).session
Toggles-Powered_example =
    Toggles-Powered (refl, tt)
      (turns_power (record convict { current_room_id = room_power_room }) []
        (turns_door convict 203 [] quiet))

try_toggle_door-Turned_example :
    let r = try_toggle_door tonight convict 203 [] in
    (r.toggled ≡ false → r.session ≡ tonight)
    × (r.toggled ≡ true
        → All
            (λ c. c.door_id ≡ 203 → can_operate_cell_door convict c ≡ true)
            tonight.game_state.map.cells
          × Turned tonight 203 r)
try_toggle_door-Turned_example = try_toggle_door-Turned tonight convict 203 []

-- A guard with two bullets too many, of which one is in the inventory.
abbrev overloaded : PlayerState
overloaded = record guard {
  bullets = 5;
  inventory_slots = 3;
  inventory = stack item_baton 1 ∷ stack item_bullet 1 ∷ stack item_pistol 1 ∷ [];
}

overloaded-IsNormal : IsNormal overloaded.inventory
unfolding is_known_item text_eq text_lt
overloaded-IsNormal = record {
  ascending = ((refl, (refl, tt)), ((refl, tt), (tt, tt)));
  sound = (
    (refl, omega arith, omega arith),
    ((refl, omega arith, omega arith), ((refl, omega arith, omega arith), tt)),
  );
}

sync_authority_bullet_stack-Loaded_example :
    Loaded overloaded 3 (sync_authority_bullet_stack overloaded).0
unfolding is_authority_player
sync_authority_bullet_stack-Loaded_example =
    sync_authority_bullet_stack-Loaded overloaded refl overloaded-IsNormal

abbrev in_ammo_room : PlayerState
in_ammo_room = record guard { current_room_id = room_ammo_room; alive = true; bullets = 1 }

apply_reload_command-restocks_example :
    let after = (apply_reload_command today in_ammo_room).0.0 in
    (MayRestock today in_ammo_room × Restocking today after in_ammo_room)
    ⊎ ((¬ MayRestock today in_ammo_room) × (after ≡ today))
apply_reload_command-restocks_example =
    apply_reload_command-restocks today in_ammo_room (λ h. cc) (omega arith)

hearts_test : format_half_hearts 5 ≡ codes "2.5"
unfolding format_half_hearts prison_break.Shared.decimal
hearts_test = refl
