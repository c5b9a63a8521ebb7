-- ===== src/Actions/Uses/Limits.antt =====
-- How often an ability can be used.
use prison_break.Shared.{
  ℕ, ◌+◌, ◌≤◌, ◌<◌, ◌≡◌, refl, true, false, not, ◌&&◌, arith, text_eq, text_eq_refl, text_eq_sound,
  subst, ltb, ◌==◌, if◌then◌else◌, Bool-cases, inl, inr,
}
use prison_break.Model.{PlayerState, PlayerId, AbilityType}
use prison_break.Model.Kinds.{is_day}
use prison_break.Abilities.{cooldown_ticks, daily_use_limit}
use prison_break.Abilities.Scopes.{daily_use_limit-fits}
use prison_break.Actions.{PlaySession, DailyAbilityUsage}
use prison_break.Actions.Uses.{
  can_use_ability_at_current_tick, within_daily_limit, register_ability_use, start_cooldown,
  count_use,
}

-- The uses of an ability today.
abbrev pub uses_today : PlaySession → PlayerId → AbilityType → ℕ
uses_today s p a =
    let usage = s.ability_daily_usage p a in
    if usage.day_start_tick == s.game_state.phase.started_tick then usage.use_count else 0

allowed_lem :
    (s : PlaySession) (player : PlayerState) (a : AbilityType)
    → (can_use_ability_at_current_tick s player a).0 ≡ true
    → 0 < daily_use_limit a
    → uses_today s player.id a < daily_use_limit a
unfolding can_use_ability_at_current_tick within_daily_limit
allowed_lem s player a h pos = ground arith

counted_lem :
    (usage : DailyAbilityUsage) (start : ℕ)
    → (if usage.day_start_tick == start then usage.use_count else 0) < 255
    → let next = count_use usage start in
      (if next.day_start_tick == start then next.use_count else 0)
      ≡ (if usage.day_start_tick == start then usage.use_count else 0) + 1
unfolding count_use
counted_lem usage start small = ground arith

start_cooldown_lem :
    (s : PlaySession) (player : PlayerState) (a : AbilityType)
    → ((start_cooldown s player a).game_state ≡ s.game_state)
      × ((start_cooldown s player a).ability_daily_usage ≡ s.ability_daily_usage)
unfolding start_cooldown
start_cooldown_lem s player a = ground arith

-- The register of a use on a day has one use more of just that ability by just that player.
registered_lem :
    (s : PlaySession) (player : PlayerState) (a : AbilityType)
    → is_day s.game_state.phase.current ≡ true
    → 0 < daily_use_limit a
    → uses_today s player.id a < 255
    → (p : PlayerId) (b : AbilityType)
    → uses_today (register_ability_use s player a) p b
      ≡ uses_today s p b + (if text_eq p player.id && text_eq b a then 1 else 0)
unfolding register_ability_use
registered_lem s player a daytime pos small p b =
    let limited : (ltb 0 (daily_use_limit a) && is_day s.game_state.phase.current) ≡ true =
      ground arith in
    let (same_state, same_usage) = start_cooldown_lem s player a in
    rw (limited, same_state)
      (elim (Bool-cases (text_eq p player.id && text_eq b a)) [
        | inl e ↦
            let me : p ≡ player.id = text_eq_sound p player.id (ground (arith, e)) in
            let this : b ≡ a = text_eq_sound b a (ground (arith, e)) in
            rw e (
              rw (me, this)
                (counted_lem (s.ability_daily_usage player.id a) s.game_state.phase.started_tick
                  small))
        | inr e ↦ rw e (omega arith)
      ])

cooled_lem :
    (s : PlaySession) (player : PlayerState) (a : AbilityType) (tick : ℕ)
    → s.tick_id + cooldown_ticks a s.tick_rate_hz < 18446744073709551616
    → s.tick_id ≤ tick
    → tick < s.tick_id + cooldown_ticks a s.tick_rate_hz
    → (register_ability_use s player a).ability_cooldown_until player.id a
      ≡ s.tick_id + cooldown_ticks a s.tick_rate_hz
unfolding register_ability_use start_cooldown
cooled_lem s player a tick fits later early =
    let long : ltb 0 (cooldown_ticks a s.tick_rate_hz) ≡ true = ground arith in
    elim (Bool-cases (ltb 0 (daily_use_limit a) && is_day s.game_state.phase.current)) [
      | inl e ↦ rw (long, e, text_eq_refl player.id, text_eq_refl a) (omega arith)
      | inr e ↦ rw (long, e, text_eq_refl player.id, text_eq_refl a) (omega arith)
    ]

allowed_day :
    (s : PlaySession) (player : PlayerState) (a : AbilityType)
    → (can_use_ability_at_current_tick s player a).0 ≡ true
    → 0 < daily_use_limit a
    → is_day s.game_state.phase.current ≡ true
unfolding can_use_ability_at_current_tick within_daily_limit
allowed_day s player a h pos = ground arith

-- An ability with a daily limit that is used when it may be, is used once more by just that player, and
-- not more often than the limit allows.
pub register_ability_use-counted :
    (s : PlaySession) (player : PlayerState) (a : AbilityType)
    → (can_use_ability_at_current_tick s player a).0 ≡ true
    → 0 < daily_use_limit a
    → let after = register_ability_use s player a in
      ((p : PlayerId) (b : AbilityType)
        → uses_today after p b
          ≡ uses_today s p b + (if text_eq p player.id && text_eq b a then 1 else 0))
      × (uses_today after player.id a ≤ daily_use_limit a)
register_ability_use-counted s player a h pos =
    let below = allowed_lem s player a h pos in
    let counts =
      registered_lem s player a (allowed_day s player a h pos) pos
        (omega (arith, below, daily_use_limit-fits a)) in
    (counts, ground (arith, counts player.id a, below, text_eq_refl player.id, text_eq_refl a))

unlimited_lem :
    (s : PlaySession) (player : PlayerState) (a : AbilityType)
    → daily_use_limit a ≡ 0
    → (p : PlayerId) (b : AbilityType)
    → uses_today (register_ability_use s player a) p b ≡ uses_today s p b
unfolding register_ability_use
unlimited_lem s player a free p b =
    let (same_state, same_usage) = start_cooldown_lem s player a in
    let test : (ltb 0 (daily_use_limit a) && is_day s.game_state.phase.current) ≡ false =
      ground arith in
    rw (test, same_state, same_usage) refl

-- After its use, and until the ticks of its cooldown are over, an ability cannot be used again.
pub register_ability_use-cools_down :
    (s : PlaySession) (player : PlayerState) (a : AbilityType) (tick : ℕ)
    → s.tick_id + cooldown_ticks a s.tick_rate_hz < 18446744073709551616
    → s.tick_id ≤ tick
    → tick < s.tick_id + cooldown_ticks a s.tick_rate_hz
    → let after = record (register_ability_use s player a) { tick_id = tick } in
      (can_use_ability_at_current_tick after player a).0 ≡ false
unfolding can_use_ability_at_current_tick
register_ability_use-cools_down s player a tick fits later early =
    let until = cooled_lem s player a tick fits later early in
    let blocked : (not (s.tick_id + cooldown_ticks a s.tick_rate_hz == 0)
          && ltb tick (s.tick_id + cooldown_ticks a s.tick_rate_hz))
        ≡ true =
      ground arith in
    rw (until, blocked) refl

-- The uses of abilities that are allowed, one after the other, with the passing of ticks, on one day.
pub data Uses (s : PlaySession) : PlaySession → Type 0 where
  start : Uses s s
  wait : {t : PlaySession} (tick : ℕ) → Uses s t → Uses s (record t { tick_id = tick })
  use_ability :
      {t : PlaySession} (player : PlayerState) (a : AbilityType)
      → Uses s t
      → (can_use_ability_at_current_tick t player a).0 ≡ true
      → Uses s (register_ability_use t player a)

-- How often a player uses an ability in such a run.
unfoldable pub times : {s t : PlaySession} → Uses s t → PlayerId → AbilityType → ℕ
times start p b = 0
times (wait tick run) p b = times run p b
times (use_ability player a run may) p b =
    times run p b + (if text_eq p player.id && text_eq b a then 1 else 0)

-- However abilities are used during a day, each use when `canUseAbilityAtCurrentTick` allows it: if a player
-- is within the daily limit of an ability at first, the uses of the run are counted one by one on top of
-- those before it, and all of them together are never more than the limit allows.
pub Uses-WithinLimits :
    {s t : PlaySession} (p : PlayerId) (b : AbilityType)
    → 0 < daily_use_limit b
    → uses_today s p b ≤ daily_use_limit b
    → (run : Uses s t)
    → (uses_today t p b ≡ uses_today s p b + times run p b)
      × (uses_today s p b + times run p b ≤ daily_use_limit b)
unfolding times
Uses-WithinLimits p b pos h start = (omega arith, omega (arith, h))
Uses-WithinLimits p b pos h (wait tick run) = Uses-WithinLimits p b pos h run
Uses-WithinLimits p b pos h (use_ability {t = t} player a run may) =
    let (counted, within) = Uses-WithinLimits p b pos h run in
    let after = uses_today (register_ability_use t player a) p b in
    elim (Bool-cases (text_eq p player.id && text_eq b a)) [
      | inr other ↦
          let same : after ≡ uses_today t p b = elim (Bool-cases (daily_use_limit a == 0)) [
            | inl free ↦ unlimited_lem t player a (ground (arith, free)) p b
            | inr limited ↦ ground (
              arith,
              (register_ability_use-counted t player a may (ground (arith, limited))).0 p b,
              other,
            )
          ] in
          rw other (omega (arith, same, counted), omega (arith, within))
      | inl mine ↦
          let me : p ≡ player.id = text_eq_sound p player.id (ground (arith, mine)) in
          let this : b ≡ a = text_eq_sound b a (ground (arith, mine)) in
          let (counts, below) =
            register_ability_use-counted t player a may
              (subst (λ x. 0 < daily_use_limit x) this pos) in
          let one_more : after ≡ uses_today t p b + 1 = ground (arith, counts p b, mine) in
          let fits : after ≤ daily_use_limit b = rw (me, this) below in
          rw mine (omega (arith, one_more, counted), omega (arith, one_more, counted, fits))
    ]
