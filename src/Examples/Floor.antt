-- ===== src/Examples/Floor.antt =====
-- What lies on the floor, and what is done with it: items/inventory.go and escape/routes.go.
use prison_break.Shared.{◌≡◌, ◌↔◌, refl, arith, true, false, some, [], ◌∷◌, text_eq, sort_by}
use prison_break.Model.{PlayerState, EntityState, dropped_item, gang_member, prisoner}
use prison_break.Model.Zero.{zero_player, zero_map}
use prison_break.GameMap.{is_prisoner_player, room_courtyard}
use prison_break.Items.Catalog.{is_known_item, item_shovel, stack}
use prison_break.Items.Inventory.{has_item}
use prison_break.Items.Dropped.{build_dropped_item_tags, parse_dropped_item}
use prison_break.Items.Dropped.Roundtrip.{parse-build_dropped_item_tags}
use prison_break.Escape.{
  can_attempt_route, evaluate_route, route_courtyard_dig, route_badge_escape, route_requirements,
  is_known_route, judge,
}
use prison_break.Escape.Routes.{AtRoute, can_attempt_route_iff}

abbrev litter : EntityState
litter = record {
  id = 12;
  kind = dropped_item;
  owner_player_id = [];
  position = record { x = 0; y = 0 };
  velocity = record { x = 0; y = 0 };
  room_id = room_courtyard;
  hearts_half = 0;
  active = true;
  tags = [];
}

shovel_known : is_known_item item_shovel ≡ true
unfolding is_known_item text_eq
shovel_known = refl

parse-build_dropped_item_tags_example :
    parse_dropped_item
      (record litter { kind = dropped_item; tags = build_dropped_item_tags item_shovel 3 })
    ≡ some (item_shovel, 3)
parse-build_dropped_item_tags_example =
    parse-build_dropped_item_tags litter item_shovel 3 shovel_known (omega arith) (omega arith)

abbrev digger : PlayerState
digger = record zero_player {
  alive = true;
  role = gang_member;
  faction = prisoner;
  current_room_id = room_courtyard;
  inventory = stack item_shovel 1 ∷ [];
}

can_dig : can_attempt_route route_courtyard_dig digger zero_map ≡ true
unfolding can_attempt_route evaluate_route is_known_route text_eq judge is_prisoner_player
    route_requirements has_item is_known_item sort_by
can_dig = refl

can_attempt_route_iff_example : (can_attempt_route route_courtyard_dig digger zero_map ≡ true) ↔ (
    (digger.alive ≡ true)
    × (is_prisoner_player digger ≡ true)
    × AtRoute route_courtyard_dig digger zero_map)
can_attempt_route_iff_example = can_attempt_route_iff route_courtyard_dig digger zero_map

no_badge : can_attempt_route route_badge_escape digger zero_map ≡ false
unfolding can_attempt_route evaluate_route is_known_route text_eq judge is_prisoner_player
    route_requirements
no_badge = refl
