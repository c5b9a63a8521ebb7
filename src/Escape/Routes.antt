-- ===== src/Escape/Routes.antt =====
-- When a route can be attempted, and that every refusal has a reason.
use prison_break.Shared.{
  ◌≤◌, ◌≡◌, ◌≢◌, ◌↔◌, ◌⊎◌, refl, Bool, true, false, not, List, [], ◌∷◌, if◌then◌else◌, arith, All,
  text_eq, text_eq_iff,
}
use prison_break.Model.{PlayerState, MapState}
use prison_break.GameMap.{
  is_prisoner_player, room_courtyard, room_corridor_main, room_power_room, room_roof_lookout,
}
use prison_break.Items.Catalog.{is_known_item, item_shovel, item_badge, item_ladder, item_keys}
use prison_break.Items.Inventory.Operations.{holds, has_item_iff}
use prison_break.Escape.{
  EscapeRouteType, RouteEvaluation, RouteRequirement, route_courtyard_dig, route_badge_escape,
  route_power_out_escape, route_ladder_escape, route_roof_helicopter, is_known_route,
  route_requirements, judge, evaluate_route, can_attempt_route,
}

-- The one thing that each route asks for, beside its room.
abbrev pub AtRoute : EscapeRouteType → PlayerState → MapState → Type 0
AtRoute route p m =
    ((route ≡ route_courtyard_dig)
      × (p.current_room_id ≡ room_courtyard)
      × (1 ≤ holds p item_shovel))
    ⊎ ((route ≡ route_badge_escape)
        × (p.current_room_id ≡ room_corridor_main)
        × (1 ≤ holds p item_badge))
    ⊎ ((route ≡ route_power_out_escape)
        × (p.current_room_id ≡ room_power_room)
        × (m.power_on ≡ false))
    ⊎ ((route ≡ route_ladder_escape)
        × (p.current_room_id ≡ room_courtyard)
        × (2 ≤ holds p item_ladder))
    ⊎ ((route ≡ route_roof_helicopter)
        × (p.current_room_id ≡ room_roof_lookout)
        × (1 ≤ holds p item_keys))

judge_lem :
    (eval : RouteEvaluation) (rs : List RouteRequirement)
    → eval.can_attempt ≡ false
    → ((judge eval rs).can_attempt ≡ true) ↔ All (λ r. r.met ≡ true) rs
unfolding judge
judge_lem eval [] h = ground arith
judge_lem eval (r ∷ rs) h = ground (arith, judge_lem eval rs h)

tools_known :
    (is_known_item item_shovel ≡ true)
    × (is_known_item item_badge ≡ true)
    × (is_known_item item_ladder ≡ true)
    × (is_known_item item_keys ≡ true)
unfolding is_known_item text_eq
tools_known = (refl, refl, refl, refl)

requirements_iff :
    (route : EscapeRouteType) (p : PlayerState) (m : MapState)
    → ((is_known_route route ≡ true) × All (λ r. r.met ≡ true) (route_requirements route p m))
      ↔ AtRoute route p m
unfolding route_requirements is_known_route
requirements_iff route p m = ground (
  arith,
  tools_known,
  text_eq_iff route route_courtyard_dig,
  text_eq_iff route_courtyard_dig route,
  text_eq_iff route route_badge_escape,
  text_eq_iff route_badge_escape route,
  text_eq_iff route route_power_out_escape,
  text_eq_iff route_power_out_escape route,
  text_eq_iff route route_ladder_escape,
  text_eq_iff route_ladder_escape route,
  text_eq_iff route route_roof_helicopter,
  text_eq_iff route_roof_helicopter route,
  text_eq_iff p.current_room_id room_courtyard,
  text_eq_iff p.current_room_id room_corridor_main,
  text_eq_iff p.current_room_id room_power_room,
  text_eq_iff p.current_room_id room_roof_lookout,
  has_item_iff p item_shovel 1,
  has_item_iff p item_badge 1,
  has_item_iff p item_ladder 2,
  has_item_iff p item_keys 1,
)

verdict_iff :
    (known : Bool) (unknown eval : RouteEvaluation) (rs : List RouteRequirement)
    → unknown.can_attempt ≡ false
    → eval.can_attempt ≡ false
    → ((if not known then unknown else judge eval rs).can_attempt ≡ true)
      ↔ ((known ≡ true) × All (λ r. r.met ≡ true) rs)
verdict_iff true unknown eval rs h k = ground (arith, judge_lem eval rs k)
verdict_iff false unknown eval rs h k = ground arith

-- A route can be attempted exactly by a living prisoner who is in the room of the route and has what
-- it takes: a shovel, a badge, two ladders, the keys, or a power cut.
pub can_attempt_route_iff :
    (route : EscapeRouteType) (p : PlayerState) (m : MapState)
    → (can_attempt_route route p m ≡ true)
      ↔ ((p.alive ≡ true) × (is_prisoner_player p ≡ true) × AtRoute route p m)
unfolding can_attempt_route evaluate_route
can_attempt_route_iff route p m =
    let v = verdict_iff (is_known_route route) _ _ _ refl refl in
    let r = requirements_iff route p m in
    (
      λ h. let x = v.0 h in (x.1.0, x.1.1.0, r.0 (x.0, x.1.1.1)),
      λ h. let y = r.1 h.2 in v.1 (y.0, (h.0, (h.1, y.1))),
    )

judge_reason :
    (eval : RouteEvaluation) (rs : List RouteRequirement)
    → (judge eval rs).can_attempt ≡ false
    → eval.can_attempt ≡ false
    → (judge eval rs).failure_reason ≢ []
unfolding judge
judge_reason eval [] h k = cc
judge_reason eval (r ∷ rs) h k = ground (arith, judge_reason eval rs)

reason_of_refusal :
    (known : Bool) (unknown eval : RouteEvaluation) (rs : List RouteRequirement)
    → unknown.failure_reason ≢ []
    → eval.can_attempt ≡ false
    → (if not known then unknown else judge eval rs).can_attempt ≡ false
    → (if not known then unknown else judge eval rs).failure_reason ≢ []
reason_of_refusal true unknown eval rs h k e = judge_reason eval rs e k
reason_of_refusal false unknown eval rs h k e = h

-- A route that cannot be attempted comes with a reason.
pub evaluate_route_reason :
    (route : EscapeRouteType) (p : PlayerState) (m : MapState)
    → can_attempt_route route p m ≡ false
    → (evaluate_route route p m).failure_reason ≢ []
unfolding can_attempt_route evaluate_route
evaluate_route_reason route p m h = reason_of_refusal (is_known_route route) _ _ _ (λ e. cc) refl h
