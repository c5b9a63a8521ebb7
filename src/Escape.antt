-- ===== src/Escape.antt =====
-- internal/gamecore/escape/routes.go: what each escape route asks of a player.
pub mod Routes
use prison_break.Shared.{
  ℕ, Bool, true, false, not, List, [], ◌∷◌, ◌++◌, Text, codes, text_eq, any, map, if◌then◌else◌,
}
use prison_break.Model.{PlayerState, MapState, ItemType}
use prison_break.GameMap.{
  is_prisoner_player, room_courtyard, room_corridor_main, room_power_room, room_roof_lookout,
}
use prison_break.Items.Catalog.{item_shovel, item_badge, item_ladder, item_keys}
use prison_break.Items.Inventory.{has_item}

abbrev pub EscapeRouteType : Type 0
EscapeRouteType = Text

abbrev pub route_courtyard_dig : EscapeRouteType
route_courtyard_dig = codes "courtyard_dig"

abbrev pub route_badge_escape : EscapeRouteType
route_badge_escape = codes "badge_escape"

abbrev pub route_power_out_escape : EscapeRouteType
route_power_out_escape = codes "power_out_escape"

abbrev pub route_ladder_escape : EscapeRouteType
route_ladder_escape = codes "ladder_escape"

abbrev pub route_roof_helicopter : EscapeRouteType
route_roof_helicopter = codes "roof_helicopter_escape"

pub record RouteRequirement : Type 0 where
  pub label : Text
  pub met : Bool

pub record RouteEvaluation : Type 0 where
  pub route : EscapeRouteType
  pub route_label : Text
  pub can_attempt : Bool
  pub failure_reason : Text
  pub requirements : List RouteRequirement

abbrev pub known_routes : List EscapeRouteType
known_routes =
    route_courtyard_dig ∷ route_badge_escape ∷ route_power_out_escape ∷ route_ladder_escape
    ∷ route_roof_helicopter ∷ []

unfoldable pub is_known_route : EscapeRouteType → Bool
is_known_route route = any (λ candidate. text_eq candidate route) known_routes

unfoldable pub route_label : EscapeRouteType → Text
route_label route =
    if text_eq route route_courtyard_dig
    then codes "Courtyard Dig"
    else if text_eq route route_badge_escape
    then codes "Badge Escape"
    else if text_eq route route_power_out_escape
    then codes "Power-Out Escape"
    else if text_eq route route_ladder_escape
    then codes "Ladder Escape"
    else if text_eq route route_roof_helicopter
    then codes "Roof Helicopter"
    else codes "Unknown Route"

abbrev requirement : Text → Bool → RouteRequirement
requirement label met = record { label = label; met = met }

-- The requirements that the `switch` on the route appends.
unfoldable pub route_requirements : EscapeRouteType → PlayerState → MapState → List RouteRequirement
route_requirements route player m =
    if text_eq route route_courtyard_dig
    then (requirement (codes "Room: courtyard") (text_eq player.current_room_id room_courtyard)
        ∷ requirement (codes "Item: shovel x1") (has_item player item_shovel 1)
        ∷ [])
    else if text_eq route route_badge_escape
    then (requirement (codes "Room: main corridor")
          (text_eq player.current_room_id room_corridor_main)
        ∷ requirement (codes "Item: badge x1") (has_item player item_badge 1)
        ∷ [])
    else if text_eq route route_power_out_escape
    then (requirement (codes "Room: power room") (text_eq player.current_room_id room_power_room)
        ∷ requirement (codes "Power state: OFF") (not m.power_on)
        ∷ [])
    else if text_eq route route_ladder_escape
    then (requirement (codes "Room: courtyard") (text_eq player.current_room_id room_courtyard)
        ∷ requirement (codes "Item: ladder x2") (has_item player item_ladder 2)
        ∷ [])
    else if text_eq route route_roof_helicopter
    then (requirement (codes "Room: roof lookout")
          (text_eq player.current_room_id room_roof_lookout)
        ∷ requirement (codes "Item: keys x1") (has_item player item_keys 1)
        ∷ [])
    else []

-- The loop over the requirements stops at the first that is not met.
unfoldable pub judge : RouteEvaluation → List RouteRequirement → RouteEvaluation
judge eval [] = record eval { can_attempt = true }
judge eval (r ∷ rest) =
    if r.met
    then judge eval rest
    else record eval { failure_reason = codes "Missing requirement: " ++ (r.label ++ codes ".") }

unfoldable pub evaluate_route : EscapeRouteType → PlayerState → MapState → RouteEvaluation
evaluate_route route player m =
    let eval : RouteEvaluation = record {
      route = route;
      route_label = route_label route;
      can_attempt = false;
      failure_reason = [];
      requirements = [];
    } in
    let requirements =
      requirement (codes "Alive") player.alive
      ∷ requirement (codes "Prisoner faction") (is_prisoner_player player)
      ∷ route_requirements route player m in
    if not (is_known_route route)
    then record eval { failure_reason = codes "Unknown escape route." }
    else judge (record eval { requirements = requirements }) requirements

unfoldable pub can_attempt_route : EscapeRouteType → PlayerState → MapState → Bool
can_attempt_route route player m = (evaluate_route route player m).can_attempt

unfoldable pub evaluate_all_routes : PlayerState → MapState → List RouteEvaluation
evaluate_all_routes player m = map (λ route. evaluate_route route player m) known_routes
