-- ===== src/GameMap/Access.antt =====
-- access_control.go: what the verdicts on rooms and cell doors amount to.
use prison_break.Shared.{
  ◌≡◌, refl, ◌≢◌, ◌↔◌, ◌⊎◌, Bool, true, false, ◌&&◌, [], arith, text_eq, text_eq_iff, sym, ap, ◌∙◌,
}
use prison_break.Model.{PlayerState, MapState, CellState, RoomId}
use prison_break.Model.Kinds.{is_warden}
use prison_break.GameMap.{
  room_warden_hq, room_camera_room, room_power_room, room_ammo_room, allow, is_authority_player,
  is_prisoner_player, evaluate_room_entry, can_enter_room, evaluate_cell_door_operation,
  can_operate_cell_door,
}

-- The rules of the house, one for each room, with no order among them.
pub record MayEnter (player : PlayerState) (room : RoomId) (m : MapState) : Type 0 where
  pub named : room ≢ []
  pub hq : room ≡ room_warden_hq → is_warden player.role ≡ true
  pub camera : room ≡ room_camera_room → (m.power_on ≡ true) × (is_authority_player player ≡ true)
  pub power : room ≡ room_power_room → is_authority_player player ≡ true
  pub ammo : room ≡ room_ammo_room → (m.power_on ≡ true) × (is_authority_player player ≡ true)
  pub market :
      room ≢ room_warden_hq
      → room ≢ room_camera_room
      → room ≢ room_power_room
      → room ≢ room_ammo_room
      → room ≡ m.black_market_room_id
      → is_prisoner_player player ≡ true

module _ (player : PlayerState) (m : MapState) where
  enter_unnamed : can_enter_room player [] m ≡ false
  unfolding can_enter_room text_eq
  enter_unnamed = refl

  enter_hq : can_enter_room player room_warden_hq m ≡ is_warden player.role
  unfolding can_enter_room text_eq
  enter_hq = ground arith

  enter_camera :
      can_enter_room player room_camera_room m ≡ (m.power_on && is_authority_player player)
  unfolding can_enter_room text_eq
  enter_camera = ground arith

  enter_power : can_enter_room player room_power_room m ≡ is_authority_player player
  unfolding can_enter_room text_eq
  enter_power = ground arith

  enter_ammo : can_enter_room player room_ammo_room m ≡ (m.power_on && is_authority_player player)
  unfolding can_enter_room text_eq
  enter_ammo = ground arith

  named_of_enter : (room : RoomId) → can_enter_room player room m ≡ true → room ≢ []
  named_of_enter room h e = ground (arith, enter_unnamed, ap (λ r. can_enter_room player r m) e)

  at_room :
      (room there : RoomId) {b : Bool}
      → can_enter_room player there m ≡ b
      → can_enter_room player room m ≡ true
      → room ≡ there
      → b ≡ true
  at_room room there law h e = sym law ∙ ap (λ r. can_enter_room player r m) (sym e) ∙ h

  market_of_enter :
      (room : RoomId)
      → can_enter_room player room m ≡ true
      → room ≢ room_warden_hq
      → room ≢ room_camera_room
      → room ≢ room_power_room
      → room ≢ room_ammo_room
      → room ≡ m.black_market_room_id
      → is_prisoner_player player ≡ true
  unfolding can_enter_room
  market_of_enter room h a b c d e = ground (
    arith,
    text_eq_iff room [],
    text_eq_iff m.black_market_room_id [],
    text_eq_iff room m.black_market_room_id,
    text_eq_iff room room_warden_hq,
    text_eq_iff room room_camera_room,
    text_eq_iff room room_power_room,
    text_eq_iff room room_ammo_room,
  )

  enter_of_MayEnter : (room : RoomId) → MayEnter player room m → can_enter_room player room m ≡ true
  unfolding can_enter_room
  enter_of_MayEnter room h = ground (
    arith,
    text_eq_iff room [],
    text_eq_iff room m.black_market_room_id,
    text_eq_iff room room_warden_hq,
    text_eq_iff room room_camera_room,
    text_eq_iff room room_power_room,
    text_eq_iff room room_ammo_room,
    h.named,
    h.hq,
    h.camera,
    h.power,
    h.ammo,
    h.market,
  )

  -- A player is let into a room exactly when the rules of the house allow it: the room has a name,
  -- the headquarters are for the warden, the camera and ammunition rooms are for the authorities
  -- while there is power, the power room is for the authorities, and a black market that stands in
  -- any other room is for prisoners.
  pub can_enter_room_iff :
      (room : RoomId) → (can_enter_room player room m ≡ true) ↔ MayEnter player room m
  can_enter_room_iff room = (
    λ h. record {
      named = named_of_enter room h;
      hq = at_room room room_warden_hq enter_hq h;
      camera = λ e. ground (arith, at_room room room_camera_room enter_camera h e);
      power = at_room room room_power_room enter_power h;
      ammo = λ e. ground (arith, at_room room room_ammo_room enter_ammo h e);
      market = market_of_enter room h;
    },
    enter_of_MayEnter room,
  )

  -- A decision on a room names the room, and lets the player in exactly by the verdict `allow`.
  pub evaluate_room_entry_consistent :
      (room : RoomId)
      → ((evaluate_room_entry player room m).room_id ≡ room)
        × (((evaluate_room_entry player room m).allowed ≡ true)
            ↔ ((evaluate_room_entry player room m).verdict ≡ allow))
  unfolding evaluate_room_entry
  evaluate_room_entry_consistent room = ground arith

-- A cell door obeys the authorities, and the named owner of the cell, and nobody else; the verdict
-- is `allow` exactly then.
pub can_operate_cell_door_iff :
    (player : PlayerState) (cell : CellState)
    → ((can_operate_cell_door player cell ≡ true) ↔ (
        (is_authority_player player ≡ true)
        ⊎ ((cell.owner_player_id ≢ []) × (cell.owner_player_id ≡ player.id))))
      × (((evaluate_cell_door_operation player cell).verdict ≡ allow)
          ↔ (can_operate_cell_door player cell ≡ true))
unfolding can_operate_cell_door
can_operate_cell_door_iff player cell =
    ground (arith, text_eq_iff cell.owner_player_id [], text_eq_iff cell.owner_player_id player.id)
