-- ===== src/Prison/Restricted.antt =====
-- Whom an alarm looks for.
use prison_break.Shared.{
  ◌≡◌, ◌≢◌, ◌↔◌, true, ◌&&◌, text_eq, List, [], ◌∷◌, arith, Any, IsSorted, keep, map, any,
  text_eq_iff, text_lt, sort_by-Any, sort_by-IsSorted, order_on,
}
use prison_break.Model.{MapState, PlayerState, PlayerId, ZoneState}
use prison_break.GameMap.{is_prisoner_player}
use prison_break.Prison.{is_restricted_room, is_wanted, restricted_prisoner_ids}

-- A room that a restricted zone names.
abbrev pub InRestricted : PlayerState → MapState → Type 0
InRestricted p m =
    (p.current_room_id ≢ [])
    × Any (λ z. (z.restricted ≡ true) × (z.room_id ≡ p.current_room_id)) m.restricted_zones

zones_iff :
    (p : PlayerState) (zones : List ZoneState)
    → (any (λ z. z.restricted && text_eq z.room_id p.current_room_id) zones ≡ true)
      ↔ Any (λ z. (z.restricted ≡ true) × (z.room_id ≡ p.current_room_id)) zones
zones_iff p [] = ground arith
zones_iff p (z ∷ zones) = ground (arith, zones_iff p zones, text_eq_iff z.room_id p.current_room_id)

wanted_iff :
    (m : MapState) (p : PlayerState)
    → (is_wanted m p ≡ true) ↔ ((p.alive ≡ true) × (is_prisoner_player p ≡ true) × InRestricted p m)
unfolding is_restricted_room
wanted_iff m p = ground (arith, zones_iff p m.restricted_zones, text_eq_iff p.current_room_id [])

kept_iff :
    (m : MapState) (players : List PlayerState) (id : PlayerId)
    → Any (λ w. w ≡ id) (map (λ p. p.id) (keep (is_wanted m) players))
      ↔ Any
          (λ p. (p.id ≡ id) × (p.alive ≡ true) × (is_prisoner_player p ≡ true) × InRestricted p m)
          players
kept_iff m [] id = ground arith
kept_iff m (p ∷ players) id = ground (arith, kept_iff m players id, wanted_iff m p)

-- An id is listed exactly when it is that of a living prisoner in a room that has a name and that a
-- restricted zone names, and the list is in order.
pub restricted_prisoner_ids_iff :
    (m : MapState) (players : List PlayerState)
    → ((id : PlayerId)
        → Any (λ w. w ≡ id) (restricted_prisoner_ids players m)
          ↔ Any
              (λ p.
                (p.id ≡ id) × (p.alive ≡ true) × (is_prisoner_player p ≡ true) × InRestricted p m)
              players)
      × IsSorted text_lt (restricted_prisoner_ids players m)
unfolding restricted_prisoner_ids
restricted_prisoner_ids_iff m players =
    let ids = map (λ (p : PlayerState). p.id) (keep (is_wanted m) players) in
    (
      λ id.
          ground (arith, kept_iff m players id, sort_by-Any (λ (w : PlayerId). w ≡ id) text_lt ids),
      sort_by-IsSorted (order_on (λ (w : PlayerId). w)) ids,
    )
