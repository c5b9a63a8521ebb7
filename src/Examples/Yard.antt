-- ===== src/Examples/Yard.antt =====
-- The power, the restricted rooms and the cards: prison/systems.go and cards/framework.go.
use prison_break.Shared.{◌≡◌, refl, true, false, [], ◌∷◌, codes, text_eq, text_lt, sort_by}
use prison_break.Model.{PlayerState, MapState, DoorState, gang_member, prisoner}
use prison_break.Model.Zero.{zero_player, zero_map}
use prison_break.GameMap.{room_courtyard, room_mail_room, room_ammo_room}
use prison_break.Items.Catalog.{item_shiv, item_wood, stack}
use prison_break.Prison.{apply_power_state, power_doors, power_door}
use prison_break.Cards.{card_money, card_speed, card_bullet, add_card, is_known_card}

abbrev shut : DoorState
shut = record {
  id = 9;
  room_a = room_courtyard;
  room_b = room_mail_room;
  is_open = false;
  locked = false;
  can_close = true;
  blocked_until_tick = 0;
  locked_by_player_id = [];
}

abbrev lit : MapState
lit = record zero_map {
  power_on = true;
  doors = shut ∷ [];
  restricted_zones =
      record { id = 1; room_id = room_ammo_room; restricted = true; name = codes "Ammo" } ∷ [];
}

power_cut : apply_power_state lit false ≡ (
  record lit { power_on = false; doors = record shut { is_open = true; can_close = false } ∷ [] },
  true,
)
unfolding apply_power_state power_doors power_door
power_cut = refl

abbrev thief : PlayerState
thief = record zero_player {
  id = codes "p4";
  alive = true;
  role = gang_member;
  faction = prisoner;
  current_room_id = room_ammo_room;
  cards = card_money ∷ card_bullet ∷ [];
  inventory = stack item_shiv 1 ∷ stack item_wood 0 ∷ [];
}

hand_in_order : (add_card thief card_speed).0.cards ≡ card_bullet ∷ card_money ∷ card_speed ∷ []
unfolding add_card is_known_card text_eq text_lt sort_by
hand_in_order = refl
