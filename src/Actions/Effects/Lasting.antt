-- ===== src/Actions/Effects/Lasting.antt =====
-- How long an effect is in force.
use prison_break.Shared.{
  ℕ, ◌≤◌, ◌<◌, ◌≡◌, ◌≢◌, ◌↔◌, refl, ap, true, false, not, ◌&&◌, ◌||◌, List, [], ◌∷◌, arith, text_eq,
  text_eq_refl, text_eq_sound, any, keep, ltb, length, ◌==◌, if◌then◌else◌, Bool-cases, inl, inr,
}
use prison_break.Model.{PlayerState, EffectState, EffectType, PlayerId, EntityId}
use prison_break.Actions.Effects.{
  upsert_effect, upsert_in, refresh_effect, remove_effect, has_active_effect, is_active,
}

-- An entry that is refreshed keeps its effect, and lasts to the tick.
refresh_lem :
    (e : EffectState) (ends : ℕ) (pid : PlayerId) (id : EntityId) (stacks tick : ℕ)
    → 0 < ends
    → tick ≤ ends
    → let r = (refresh_effect e ends pid id stacks).0 in
      (r.effect ≡ e.effect) × ((not (r.ends_tick == 0) && ltb r.ends_tick tick) ≡ false)
unfolding refresh_effect
refresh_lem e ends pid id stacks tick pos le = ground arith

refreshed_effect :
    (e : EffectState) (ends : ℕ) (pid : PlayerId) (id : EntityId) (stacks : ℕ)
    → (refresh_effect e ends pid id stacks).0.effect ≡ e.effect
unfolding refresh_effect
refreshed_effect e ends pid id stacks = refl

upsert_in-lasts :
    (es : List EffectState) (effect : EffectType) (ends : ℕ) (pid : PlayerId) (id : EntityId)
    (stacks tick : ℕ)
    → 0 < ends
    → tick ≤ ends
    → any (is_active effect tick) (upsert_in es effect ends pid id stacks).0 ≡ true
unfolding upsert_in
upsert_in-lasts [] effect ends pid id stacks tick pos le = ground (arith, text_eq_refl effect)
upsert_in-lasts (e ∷ es) effect ends pid id stacks tick pos le =
    let fresh = refresh_lem e ends pid id stacks tick pos le in
    let rest = upsert_in-lasts es effect ends pid id stacks tick pos le in
    elim (Bool-cases (text_eq e.effect effect)) [
      | inl same ↦ rw same (rw (fresh.0, same, fresh.1) refl)
      | inr other ↦ rw other (ground (arith, rest))
    ]

upsert_in-others :
    (es : List EffectState) (effect other : EffectType) (ends : ℕ) (pid : PlayerId) (id : EntityId)
    (stacks tick : ℕ)
    → effect ≢ other
    → any (is_active other tick) (upsert_in es effect ends pid id stacks).0
      ≡ any (is_active other tick) es
unfolding upsert_in
upsert_in-others [] effect other ends pid id stacks tick ne =
    ground (arith, text_eq_sound effect other)
upsert_in-others (e ∷ es) effect other ends pid id stacks tick ne =
    let rest = upsert_in-others es effect other ends pid id stacks tick ne in
    elim (Bool-cases (text_eq e.effect effect)) [
      | inl same ↦
          let apart : text_eq e.effect other ≡ false =
            ground (arith, text_eq_sound e.effect effect, text_eq_sound e.effect other) in
          rw same (rw ((refreshed_effect e ends pid id stacks), apart) refl)
      | inr apart ↦ rw apart (ap (λ b. is_active other tick e || b) rest)
    ]

keep-none :
    (es : List EffectState) (effect : EffectType) (tick : ℕ)
    → any (is_active effect tick) (keep (λ e. not (text_eq e.effect effect)) es) ≡ false
keep-none [] effect tick = refl
keep-none (e ∷ es) effect tick = ground (arith, keep-none es effect tick)

keep-others :
    (es : List EffectState) (effect other : EffectType) (tick : ℕ)
    → effect ≢ other
    → any (is_active other tick) (keep (λ e. not (text_eq e.effect effect)) es)
      ≡ any (is_active other tick) es
keep-others [] effect other tick ne = refl
keep-others (e ∷ es) effect other tick ne = ground (
  arith,
  keep-others es effect other tick ne,
  text_eq_sound e.effect effect,
  text_eq_sound e.effect other,
)

not_there :
    (es : List EffectState) (effect : EffectType) (tick : ℕ)
    → any (λ e. text_eq e.effect effect) es ≡ false
    → any (is_active effect tick) es ≡ false
not_there [] effect tick h = refl
not_there (e ∷ es) effect tick h = ground (arith, not_there es effect tick)

-- An effect that is put on a player until a tick is in force up to that tick, and no other effect is
-- in force or out of force for it.
pub upsert_effect-lasts :
    (player : PlayerState) (effect : EffectType) (ends : ℕ) (pid : PlayerId) (id : EntityId)
    (stacks : ℕ)
    → effect ≢ []
    → 0 < ends
    → let after = (upsert_effect player effect ends pid id stacks).0 in
      ((tick : ℕ) → tick ≤ ends → has_active_effect after effect tick ≡ true)
      × ((other : EffectType) (tick : ℕ)
          → effect ≢ other
          → has_active_effect after other tick ≡ has_active_effect player other tick)
unfolding upsert_effect has_active_effect
upsert_effect-lasts player effect ends pid id stacks ne pos =
    let named : text_eq effect [] ≡ false = ground (arith, text_eq_sound effect []) in
    let depth = if stacks == 0 then 1 else stacks in
    rw named (
      λ tick le. upsert_in-lasts player.effects effect ends pid id depth tick pos le,
      λ other tick apart. upsert_in-others player.effects effect other ends pid id depth tick apart,
    )

-- An effect that is removed is not in force at any tick, and the others are as they were; the result
-- says whether the player had it.
pub remove_effect-gone :
    (player : PlayerState) (effect : EffectType)
    → effect ≢ []
    → let r = remove_effect player effect in
      ((tick : ℕ) → has_active_effect r.0 effect tick ≡ false)
      × ((other : EffectType) (tick : ℕ)
          → effect ≢ other
          → has_active_effect r.0 other tick ≡ has_active_effect player other tick)
      × ((r.1 ≡ true) ↔ (any (λ e. text_eq e.effect effect) player.effects ≡ true))
unfolding remove_effect has_active_effect
remove_effect-gone player effect ne =
    let named : text_eq effect [] ≡ false = ground (arith, text_eq_sound effect []) in
    rw named (elim (Bool-cases (any (λ e. text_eq e.effect effect) player.effects)) [
      | inr gone ↦ rw gone (elim (Bool-cases (length player.effects == 0)) [
        | inl e ↦ rw e (
          λ tick. not_there player.effects effect tick gone,
          λ other tick apart. refl,
          (λ h. cc, λ h. cc),
        )
        | inr e ↦ rw e (
          λ tick. not_there player.effects effect tick gone,
          λ other tick apart. refl,
          (λ h. cc, λ h. cc),
        )
      ])
      | inl there ↦
          let some_there : (length player.effects == 0) ≡ false = nonempty player.effects there in
          rw (there, some_there)
            (
              λ tick. keep-none player.effects effect tick,
              λ other tick apart. keep-others player.effects effect other tick apart,
              (λ h. refl, λ h. refl),
            )
    ])
  where
    nonempty :
        (es : List EffectState)
        → any (λ e. text_eq e.effect effect) es ≡ true
        → (length es == 0) ≡ false
    nonempty [] h = cc
    nonempty (e ∷ es) h = ground arith
