-- ===== src/Combat.antt =====
-- internal/gamecore/combat/engine.go: loadouts, weapons, damage and the penalty for an unjust shot. What the
-- file computes in floating point (ranges, targets, knockback) is left out.
pub mod Damage
pub mod Weapons
use prison_break.Shared.{
  ℕ, zero, suc, ◌+◌, ◌-◌, ◌*◌, ◌/◌, ◌%◌, ◌≤◌, ◌<◌, ◌≡◌, ◌≢◌, ◌↔◌, ◌⊎◌, refl, sym, ap, ap₂, subst,
  ◌∙◌, Bool, true, false, not, ◌&&◌, ◌||◌, List, [], ◌∷◌, ◌++◌, Option, none, some, Perm, arith,
  Text, codes, text_eq, text_lt, text_eq_iff, text_eq_refl, text_eq_sound, text_lt_irrefl,
  text_lt_asymm, text_lt_connected, text_lt_trans, text_lt-ne, text_lt_total, any, All, All-imp,
  All-append, Any, keep, map, length, length-append, length-keep-le, get_or, get_elem?, count_if,
  ltb, leb, ◌==◌, ==_iff, if◌then◌else◌, sort_by, insert_by, IsSorted, IsAscending, order_on,
  sort_by-All, sort_by-Any, sort_by-IsSorted, sort_by_of_IsSorted, length-sort_by, sort_by-perm,
  hash_write, fnv64a, le_bytes, u8, u16, u64, bit_xor, Bool-cases, Option-cases, inl, inr,
}
use prison_break.Model.{
  GameState, PlayerState, PhaseState, MapState, ItemType, RoomId, RoleType, warden, deputy,
}
use prison_break.Model.Kinds.{is_day}
use prison_break.Model.Zero.{zero_vector}
use prison_break.GameMap.{is_authority_player}
use prison_break.Items.Catalog.{
  item_baton, item_shiv, item_pistol, item_hunting_rifle, item_golden_bullet, item_ladder,
  item_shovel, item_wire_cutters,
}
use prison_break.Items.Inventory.{has_item, remove_item}

abbrev pub default_player_lives : ℕ
default_player_lives = 3

abbrev pub shiv_damage_half : ℕ
shiv_damage_half = 1

abbrev pub firearm_damage_half : ℕ
firearm_damage_half = 2

abbrev pub golden_bullet_damage_half : ℕ
golden_bullet_damage_half = 4

abbrev pub baton_stun_duration_second : ℕ
baton_stun_duration_second = 3

pub record DamageResult : Type 0 where
  pub applied_half : ℕ
  pub temp_consumed_half : ℕ
  pub health_consumed_half : ℕ
  pub eliminated : Bool

pub record Loadout : Type 0 where
  pub loadout_hearts_half : ℕ
  pub loadout_bullets : ℕ

unfoldable pub loadout_for_role : RoleType → Loadout
loadout_for_role warden = record { loadout_hearts_half = 10; loadout_bullets = 3 }
loadout_for_role deputy = record { loadout_hearts_half = 8; loadout_bullets = 3 }
loadout_for_role _ = record { loadout_hearts_half = 6; loadout_bullets = 0 }

unfoldable pub max_hearts_half_for_role : RoleType → ℕ
unfolding loadout_for_role
max_hearts_half_for_role role = (loadout_for_role role).loadout_hearts_half

-- The body of the loop of `ApplyRoleLoadouts`.
unfoldable pub equip_role : PlayerState → PlayerState
unfolding loadout_for_role
equip_role player =
    let loadout = loadout_for_role player.role in
    record player {
      hearts_half = loadout.loadout_hearts_half;
      bullets = loadout.loadout_bullets;
      lives_remaining = default_player_lives;
      temp_hearts_half = 0;
      alive = ltb 0 loadout.loadout_hearts_half;
      stunned_until_tick = 0;
      solitary_until_tick = 0;
      locked_in_cell = 0;
    }

unfoldable pub apply_role_loadouts : GameState → GameState
apply_role_loadouts state = record state { players = map equip_role state.players }

unfoldable pub is_firearm : ItemType → Bool
is_firearm weapon = text_eq weapon item_pistol || text_eq weapon item_hunting_rifle

unfoldable pub is_supported_weapon : ItemType → Bool
is_supported_weapon weapon =
    text_eq weapon item_baton
    || (text_eq weapon item_shiv
        || (text_eq weapon item_pistol || text_eq weapon item_hunting_rifle))

unfoldable pub can_use_weapon : PlayerState → ItemType → Bool
can_use_weapon player weapon =
    let legacy = is_authority_player player && player.inventory_slots == 0 in
    if not player.alive || not (is_supported_weapon weapon)
    then false
    else if text_eq weapon item_baton
    then (if legacy then true else has_item player item_baton 1)
    else if text_eq weapon item_shiv
    then has_item player item_shiv 1
    else if text_eq weapon item_pistol
    then (if legacy then true else has_item player item_pistol 1)
    else if text_eq weapon item_hunting_rifle
    then (if legacy then true else has_item player item_hunting_rifle 1)
    else false

unfoldable pub is_action_blocked : PlayerState → ℕ → Bool
is_action_blocked player tick =
    if not player.alive
    then true
    else if not (player.stunned_until_tick == 0) && leb tick player.stunned_until_tick
    then true
    else if not (player.solitary_until_tick == 0) && leb tick player.solitary_until_tick
    then true
    else false

-- The cost of a golden round, with the result of `RemoveItem`.
unfoldable pub golden_shot : PlayerState → PlayerState × Bool → PlayerState × ℕ × Bool
golden_shot shooter (after, removed) =
    if not removed then (after, 0, false) else (after, golden_bullet_damage_half, true)

-- `ConsumeShotCostAndResolveDamage`: the shooter, the damage, and whether the shot is fired.
unfoldable pub consume_shot_cost : PlayerState → ItemType → Bool → PlayerState × ℕ × Bool
consume_shot_cost shooter weapon golden =
    if not (can_use_weapon shooter weapon)
    then (shooter, 0, false)
    else if text_eq weapon item_baton
    then (if golden then (shooter, 0, false) else (shooter, 0, true))
    else if text_eq weapon item_shiv
    then (if golden then (shooter, 0, false) else (shooter, shiv_damage_half, true))
    else if is_firearm weapon
    then (if golden
        then golden_shot shooter (remove_item shooter item_golden_bullet 1)
        else if shooter.bullets == 0
        then (shooter, 0, false)
        else (record shooter { bullets = shooter.bullets - 1 }, firearm_damage_half, true))
    else (shooter, 0, false)

unfoldable pub baton_stun_duration_ticks : ℕ → ℕ
baton_stun_duration_ticks hz = if hz == 0 then 0 else hz * baton_stun_duration_second

-- What a pool of hearts gives for the damage that remains.
abbrev pub consumed : ℕ → ℕ → ℕ
consumed remaining pool =
    if ltb 0 pool && ltb 0 remaining then (if ltb pool remaining then pool else remaining) else 0

abbrev pub no_damage : DamageResult
no_damage = record {
  applied_half = 0;
  temp_consumed_half = 0;
  health_consumed_half = 0;
  eliminated = false;
}

-- The end of `ApplyDamage`: a player without hearts is dead.
unfoldable pub finish_damage : PlayerState → ℕ → ℕ → PlayerState × DamageResult
finish_damage target temp health =
    let dead = target.hearts_half == 0 in
    (
      if dead
          then record target { alive = false; velocity = zero_vector; stunned_until_tick = 0 }
          else target,
      record {
        applied_half = u8 (temp + health);
        temp_consumed_half = temp;
        health_consumed_half = health;
        eliminated = dead;
      },
    )

-- `ApplyDamage`, on a target that is not nil.
unfoldable pub apply_damage : PlayerState → ℕ → PlayerState × DamageResult
unfolding finish_damage
apply_damage target damage =
    let temp = consumed damage target.temp_hearts_half in
    let health = consumed (damage - temp) target.hearts_half in
    if damage == 0 || not target.alive
    then (target, no_damage)
    else finish_damage
        (record target {
          temp_hearts_half = target.temp_hearts_half - temp;
          hearts_half = target.hearts_half - health;
        })
        temp health

-- `isRestrictedRoom` of this package.
unfoldable pub in_restricted_room : RoomId → MapState → Bool
in_restricted_room room m =
    if text_eq room []
    then false
    else any (λ zone. if not zone.restricted then false else text_eq zone.room_id room)
        m.restricted_zones

unfoldable pub has_penalty_exempt_contraband : PlayerState → Bool
has_penalty_exempt_contraband target =
    has_item target item_pistol 1
    || (has_item target item_hunting_rifle 1
        || (has_item target item_shiv 1
            || (has_item target item_ladder 1
                || (has_item target item_shovel 1 || has_item target item_wire_cutters 1))))

unfoldable pub is_unjust_authority_shot : PlayerState → MapState → Bool
is_unjust_authority_shot target m =
    if not m.power_on
    then false
    else if in_restricted_room target.current_room_id m
    then false
    else if has_penalty_exempt_contraband target
    then false
    else true

-- The writes of `ApplyUnjustShotPenalty`, each with the flag that it sets.
unfoldable pub confine : PlayerState → ℕ → PlayerState × Bool
confine shooter ends =
    let later = ltb shooter.solitary_until_tick ends in
    let first = if later then record shooter { solitary_until_tick = ends } else shooter in
    if not (first.assigned_cell == 0) && not (first.locked_in_cell == first.assigned_cell)
    then (record first { locked_in_cell = first.assigned_cell }, true)
    else (first, later)

unfoldable pub apply_unjust_shot_penalty : PlayerState → PhaseState → ℕ → PlayerState × Bool
unfolding confine
apply_unjust_shot_penalty shooter phase tick =
    if not (is_authority_player shooter)
    then (shooter, false)
    else if not (is_day phase.current)
    then (shooter, false)
    else if phase.ends_tick == 0 || leb phase.ends_tick tick
    then (shooter, false)
    else confine shooter (phase.ends_tick - 1)
