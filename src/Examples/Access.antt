-- ===== src/Examples/Access.antt =====
-- Rooms, doors and the market: map/access_control.go and map/black_market.go.
use prison_break.Shared.{◌≡◌, ◌↔◌, true, codes, []}
use prison_break.Model.{PlayerState, MapState, CellState, gang_member, prisoner}
use prison_break.Model.Zero.{zero_player, zero_map}
use prison_break.GameMap.{can_enter_room, room_courtyard}
use prison_break.GameMap.Access.{MayEnter, can_enter_room_iff}

abbrev inmate : PlayerState
inmate = record zero_player {
  id = codes "p3";
  alive = true;
  role = gang_member;
  faction = prisoner;
}

abbrev market_night : MapState
market_night = record zero_map { power_on = true; black_market_room_id = room_courtyard }

abbrev own_cell : CellState
own_cell = record {
  id = 4;
  owner_player_id = codes "p3";
  door_id = 9;
  occupant_player_ids = [];
  stash = [];
}

can_enter_room_iff_example :
    (can_enter_room inmate room_courtyard market_night ≡ true)
    ↔ MayEnter inmate room_courtyard market_night
can_enter_room_iff_example = can_enter_room_iff inmate market_night room_courtyard
