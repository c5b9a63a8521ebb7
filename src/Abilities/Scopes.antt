-- ===== src/Abilities/Scopes.antt =====
-- Who may use what, and how the daily limits fit together.
use prison_break.Shared.{
  ◌≡◌, ◌<◌, ◌↔◌, ◌⊎◌, refl, true, List, [], ◌∷◌, Option, none, some, arith, All, text_eq_sound,
}
use prison_break.Model.{AbilityType, PlayerState}
use prison_break.Model.Kinds.{is_warden}
use prison_break.GameMap.{is_authority_player, is_prisoner_player}
use prison_break.Abilities.{
  Spec, warden_only, authority_scope, prisoner_scope, specs_by_ability, find_spec, spec_for,
  can_player_use, may_use, limit_of, daily_use_limit,
}

find_spec-All :
    (P : Spec → Type 0) (specs : List Spec) (ability : AbilityType) (s : Spec)
    → All P specs
    → find_spec ability specs ≡ some s
    → P s × (s.ability ≡ ability)
unfolding find_spec
find_spec-All P [] ability s h e = cc
find_spec-All P (x ∷ specs) ability s h e =
    ground (arith, find_spec-All P specs ability s h.1, text_eq_sound x.ability ability)

pub spec_for-All :
    (P : Spec → Type 0) (ability : AbilityType) (s : Spec)
    → All P specs_by_ability
    → spec_for ability ≡ some s
    → P s × (s.ability ≡ ability)
unfolding spec_for
spec_for-All P ability s h e = find_spec-All P specs_by_ability ability s h e

-- Whoever can use an ability is an authority or a prisoner, as the scope of the ability says.
pub can_player_use-scope :
    (player : PlayerState) (ability : AbilityType)
    → (can_player_use player ability ≡ true) ↔ (
        (s : Spec) × (spec_for ability ≡ some s)
        × (((s.scope ≡ warden_only) × (is_warden player.role ≡ true))
            ⊎ ((s.scope ≡ authority_scope) × (is_authority_player player ≡ true))
            ⊎ ((s.scope ≡ prisoner_scope) × (is_prisoner_player player ≡ true))))
unfolding can_player_use
can_player_use-scope player ability = from_spec (spec_for ability)
  where
    from_spec :
        (o : Option Spec)
        → (may_use player o ≡ true) ↔ (
            (s : Spec) × (o ≡ some s)
            × (((s.scope ≡ warden_only) × (is_warden player.role ≡ true))
                ⊎ ((s.scope ≡ authority_scope) × (is_authority_player player ≡ true))
                ⊎ ((s.scope ≡ prisoner_scope) × (is_prisoner_player player ≡ true))))
    from_spec none = (λ h. cc, λ (s, e, r). cc)
    from_spec (some s) = (λ h. (s, refl, ground arith), λ (t, e, r). ground arith)

limit_fits : All (λ s. limit_of (some s) < 256) specs_by_ability
unfolding limit_of
limit_fits = ground arith

-- The limit of every ability is within a `uint8`.
pub daily_use_limit-fits : (ability : AbilityType) → daily_use_limit ability < 256
unfolding daily_use_limit
daily_use_limit-fits ability = by_spec (spec_for ability) refl
  where
    by_spec : (o : Option Spec) → spec_for ability ≡ o → limit_of o < 256
    by_spec none e = omega arith
    by_spec (some s) e = (spec_for-All (λ x. limit_of (some x) < 256) ability s limit_fits e).0
