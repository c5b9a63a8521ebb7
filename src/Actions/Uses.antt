-- ===== src/Actions/Uses.antt =====
-- manager.go: the cooldowns of abilities, and how often a day each may be used.
pub mod Limits
use prison_break.Shared.{
  ℕ, ◌+◌, ◌-◌, Bool, true, false, not, ◌&&◌, ◌++◌, [], Text, codes, text_eq, ltb, leb, ◌==◌,
  if◌then◌else◌, decimal, u8, u64,
}
use prison_break.Model.{PlayerState, AbilityType}
use prison_break.Model.Kinds.{is_day}
use prison_break.Abilities.{cooldown_ticks, daily_use_limit}
use prison_break.Actions.{PlaySession, DailyAbilityUsage}

-- `canUseAbilityAtCurrentTick` after the test of the cooldown.
unfoldable pub within_daily_limit : PlaySession → PlayerState → AbilityType → Bool × Text
within_daily_limit session player ability =
    let limit = daily_use_limit ability in
    let phase = session.game_state.phase in
    let usage = session.ability_daily_usage player.id ability in
    if limit == 0
    then (true, [])
    else if not (is_day phase.current)
    then (false, codes "this ability is only available during day phase")
    else if phase.started_tick == 0
    then (false, codes "day phase has not started yet")
    else if not (usage.day_start_tick == phase.started_tick)
    then (true, [])
    else if leb limit usage.use_count
    then (if limit == 1 then (false, codes "you already used this ability today") else (
      false,
      codes "you already used this ability "
          ++ (decimal 3 usage.use_count
              ++ (codes "/" ++ (decimal 3 limit ++ codes " times today"))),
    ))
    else (true, [])

unfoldable pub can_use_ability_at_current_tick :
    PlaySession → PlayerState → AbilityType → Bool × Text
can_use_ability_at_current_tick session player ability =
    let until = session.ability_cooldown_until player.id ability in
    if not (until == 0) && ltb session.tick_id until
    then (
      false,
      ability
          ++ (codes " is on cooldown for " ++ (decimal 20 (until - session.tick_id) ++ codes "t")),
    )
    else within_daily_limit session player ability

-- A table of players and abilities, after a write.
abbrev pub at_ability {ℓ} : {A : Type ℓ} → (Text → Text → A) → Text → Text → A → Text → Text → A
at_ability f player ability value p a =
    if text_eq p player && text_eq a ability then value else f p a

-- The first half of `registerAbilityUseLocked`.
unfoldable pub start_cooldown : PlaySession → PlayerState → AbilityType → PlaySession
start_cooldown session player ability =
    let ticks = cooldown_ticks ability session.tick_rate_hz in
    if ltb 0 ticks
    then record session {
      ability_cooldown_until =
          at_ability session.ability_cooldown_until player.id ability
            (u64 (session.tick_id + ticks));
    }
    else session

-- The record of a use on a day that began at a tick.
unfoldable pub count_use : DailyAbilityUsage → ℕ → DailyAbilityUsage
count_use usage day_start =
    let today =
      if not (usage.day_start_tick == day_start)
      then record { day_start_tick = day_start; use_count = 0 }
      else usage in
    record today { use_count = u8 (today.use_count + 1) }

unfoldable pub register_ability_use : PlaySession → PlayerState → AbilityType → PlaySession
unfolding start_cooldown
register_ability_use session player ability =
    let cooled = start_cooldown session player ability in
    let phase = session.game_state.phase in
    if ltb 0 (daily_use_limit ability) && is_day phase.current
    then record cooled {
      ability_daily_usage =
          at_ability session.ability_daily_usage player.id ability
            (count_use (session.ability_daily_usage player.id ability) phase.started_tick);
    }
    else cooled
