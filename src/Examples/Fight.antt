-- ===== src/Examples/Fight.antt =====
-- Roles and shots: roles/assignment.go and combat/engine.go.
use prison_break.Shared.{
  ◌+◌, ◌-◌, ◌≤◌, ◌<◌, ◌≡◌, ◌≢◌, ◌↔◌, ◌⊎◌, refl, arith, true, false, none, [], ◌∷◌, codes, List,
  count_if, map, length, ltb, if◌then◌else◌, text_eq, text_lt,
}
use prison_break.Model.{GameState, PlayerState, PhaseState, PlayerId, day, deputy, authority}
use prison_break.Model.Kinds.{is_warden, is_gang_leader}
use prison_break.Model.Zero.{zero_player, zero_state}
use prison_break.GameMap.{is_authority_player}
use prison_break.Items.Catalog.{item_pistol, item_golden_bullet}
use prison_break.Items.Inventory.Operations.{holds}
use prison_break.Roles.Assignment.{
  Assignment, assign, assigned, failed, no_players_provided, duplicate_player_id, apply_assignments,
}
use prison_break.Roles.Assignment.Roster.{Distinct, Distinct-of_IsAscending}
use prison_break.Roles.Assignment.Roster.Deal.{assign-Dealt, Dealt}
use prison_break.Roles.Assignment.Roster.Order.{assign_any_order, occurrences}
use prison_break.Roles.Assignment.Roster.Apply.{apply_assignments-one_warden}
use prison_break.Combat.{
  apply_damage, consume_shot_cost, is_firearm, can_use_weapon, apply_unjust_shot_penalty,
  is_action_blocked,
}
use prison_break.Combat.Damage.{apply_damage-exact}
use prison_break.Combat.Weapons.{consume_shot_cost-firearm, apply_unjust_shot_penalty-confines}

abbrev crew : List PlayerId
crew = codes "b" ∷ codes "a" ∷ codes "c" ∷ []

assign-Dealt_example :
    ((crew ≡ []) × (assign crew (codes "m1") ≡ failed no_players_provided))
    ⊎ ((crew ≢ []) × (¬ Distinct crew) × (assign crew (codes "m1") ≡ failed duplicate_player_id))
    ⊎ (Distinct crew
        × ((out : List Assignment) × (assign crew (codes "m1") ≡ assigned out)
            × Dealt (codes "m1") crew out))
assign-Dealt_example = assign-Dealt crew (codes "m1")

abbrev crew_again : List PlayerId
crew_again = codes "c" ∷ codes "b" ∷ codes "a" ∷ []

same_crew : (k : PlayerId) → occurrences k crew ≡ occurrences k crew_again
same_crew k = ground arith

assign_any_order_example : assign crew (codes "m1") ≡ assign crew_again (codes "m1")
assign_any_order_example = assign_any_order crew crew_again (codes "m1") same_crew

abbrev soldier : PlayerState
soldier = record zero_player {
  id = codes "b";
  alive = true;
  role = deputy;
  faction = authority;
  hearts_half = 8;
  temp_hearts_half = 1;
  bullets = 2;
  assigned_cell = 3;
}

abbrev pair : GameState
pair = record zero_state { players = record soldier { id = codes "a" } ∷ soldier ∷ [] }

pair-Distinct : Distinct (map (λ p. p.id) pair.players)
unfolding text_lt
pair-Distinct = Distinct-of_IsAscending (codes "a" ∷ codes "b" ∷ []) ((refl, tt), (tt, tt))

apply_assignments-one_warden_example :
    let r = apply_assignments pair (codes "m1") in
    (r.1 ≡ none)
    × (map (λ p. p.id) r.0.players ≡ map (λ p. p.id) pair.players)
    × (count_if (λ p. is_warden p.role) r.0.players ≡ 1)
    × (count_if (λ p. is_gang_leader p.role) r.0.players
        ≡ (if ltb (length pair.players) 3 then 0 else 1))
apply_assignments-one_warden_example =
    apply_assignments-one_warden pair (codes "m1") (omega arith) pair-Distinct

apply_damage-exact_example :
    let (after, r) = apply_damage soldier 2 in
    (after.temp_hearts_half ≡ soldier.temp_hearts_half - 2)
    × (after.hearts_half ≡ soldier.hearts_half - (2 - soldier.temp_hearts_half))
    × (after.temp_hearts_half + r.temp_consumed_half ≡ soldier.temp_hearts_half)
    × (after.hearts_half + r.health_consumed_half ≡ soldier.hearts_half)
    × (r.applied_half ≡ r.temp_consumed_half + r.health_consumed_half)
    × ((r.eliminated ≡ true) ↔ (after.hearts_half ≡ 0))
    × ((after.alive ≡ true) ↔ (0 < after.hearts_half))
apply_damage-exact_example = apply_damage-exact soldier 2 (omega arith) refl (omega arith)

survives : (apply_damage soldier 2).0.alive ≡ true
unfolding apply_damage
survives = refl

pistol_fires : is_firearm item_pistol ≡ true
unfolding is_firearm text_eq
pistol_fires = refl

consume_shot_cost-firearm_example :
    let r = consume_shot_cost soldier item_pistol false in
    (r.2 ≡ false → (r.0 ≡ soldier) × (r.1 ≡ 0))
    × (r.2 ≡ true
        → (can_use_weapon soldier item_pistol ≡ true)
          × (false ≡ false → (r.0.bullets + 1 ≡ soldier.bullets) × (r.1 ≡ 2))
          × (false ≡ true
              → (holds r.0 item_golden_bullet + 1 ≡ holds soldier item_golden_bullet) × (r.1 ≡ 4)))
consume_shot_cost-firearm_example = consume_shot_cost-firearm soldier item_pistol false pistol_fires

abbrev noon : PhaseState
noon = record { current = day; started_tick = 1; ends_tick = 9001 }

apply_unjust_shot_penalty-confines_example :
    let r = apply_unjust_shot_penalty soldier noon 77 in
    ((r.1 ≡ false) → r.0 ≡ soldier)
    × (is_authority_player soldier ≡ true
        → noon.current ≡ day
        → 77 < noon.ends_tick
        → (noon.ends_tick - 1 ≤ r.0.solitary_until_tick)
          × (soldier.solitary_until_tick ≤ r.0.solitary_until_tick)
          × (soldier.assigned_cell ≢ 0 → r.0.locked_in_cell ≡ soldier.assigned_cell)
          × (0 < 77 → is_action_blocked r.0 77 ≡ true))
apply_unjust_shot_penalty-confines_example = apply_unjust_shot_penalty-confines soldier noon 77
