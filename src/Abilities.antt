-- ===== src/Abilities.antt =====
-- internal/gamecore/abilities/framework.go: the table of abilities, and who may use which.
pub mod Scopes
use prison_break.Shared.{
  ℕ, ◌*◌, Bool, true, false, ◌||◌, List, [], ◌∷◌, Option, none, some, codes, text_eq, ltb, ◌==◌,
  keep, if◌then◌else◌,
}
use prison_break.Model.{AbilityType, PlayerState}
use prison_break.Model.Kinds.{is_warden}
use prison_break.GameMap.{is_authority_player, is_prisoner_player}

abbrev pub ability_alarm : AbilityType
ability_alarm = codes "alarm"

abbrev pub ability_search : AbilityType
ability_search = codes "search"

abbrev pub ability_camera_man : AbilityType
ability_camera_man = codes "camera_man"

abbrev pub ability_detainer : AbilityType
ability_detainer = codes "detainer"

abbrev pub ability_tracker : AbilityType
ability_tracker = codes "tracker"

abbrev pub ability_pick_pocket : AbilityType
ability_pick_pocket = codes "pick_pocket"

abbrev pub ability_hacker : AbilityType
ability_hacker = codes "hacker"

abbrev pub ability_disguise : AbilityType
ability_disguise = codes "disguise"

abbrev pub ability_locksmith : AbilityType
ability_locksmith = codes "locksmith"

abbrev pub ability_chameleon : AbilityType
ability_chameleon = codes "chameleon"

pub data ScopeType : Type 0 where
  warden_only authority_scope prisoner_scope : ScopeType

pub record Spec : Type 0 where
  pub ability : AbilityType
  pub scope : ScopeType
  pub cooldown_seconds : ℕ
  pub once_per_day : Bool
  pub daily_use_limit : ℕ

abbrev spec : AbilityType → ScopeType → ℕ → Bool → ℕ → Spec
spec ability scope cooldown once limit = record {
  ability = ability;
  scope = scope;
  cooldown_seconds = cooldown;
  once_per_day = once;
  daily_use_limit = limit;
}

abbrev pub specs_by_ability : List Spec
specs_by_ability =
    spec ability_alarm warden_only 5 true 1
    ∷ spec ability_search authority_scope 8 true 1
    ∷ spec ability_camera_man authority_scope 6 false 0
    ∷ spec ability_detainer authority_scope 6 false 2
    ∷ spec ability_tracker authority_scope 4 false 0
    ∷ spec ability_pick_pocket prisoner_scope 5 false 1
    ∷ spec ability_hacker prisoner_scope 6 false 0
    ∷ spec ability_disguise prisoner_scope 8 false 0
    ∷ spec ability_locksmith prisoner_scope 4 false 1
    ∷ spec ability_chameleon prisoner_scope 8 false 0
    ∷ []

abbrev pub ability_catalog : List AbilityType
ability_catalog =
    ability_alarm ∷ ability_search ∷ ability_camera_man ∷ ability_detainer ∷ ability_tracker
    ∷ ability_pick_pocket ∷ ability_hacker ∷ ability_disguise ∷ ability_locksmith
    ∷ ability_chameleon ∷ []

find_spec : AbilityType → List Spec → Option Spec
find_spec ability [] = none
find_spec ability (s ∷ specs) =
    if text_eq s.ability ability then some s else find_spec ability specs

unfoldable pub spec_for : AbilityType → Option Spec
unfolding find_spec
spec_for ability = find_spec ability specs_by_ability

is_some : Option Spec → Bool
is_some none = false
is_some (some s) = true

unfoldable pub is_known_ability : AbilityType → Bool
unfolding is_some
is_known_ability ability = is_some (spec_for ability)

cooldown_of : ℕ → Option Spec → ℕ
cooldown_of hz none = 0
cooldown_of hz (some s) = if hz == 0 || s.cooldown_seconds == 0 then 0 else s.cooldown_seconds * hz

-- A `uint16` times a `uint32` is within a `uint64`.
unfoldable pub cooldown_ticks : AbilityType → ℕ → ℕ
unfolding cooldown_of
cooldown_ticks ability hz = cooldown_of hz (spec_for ability)

once_of : Option Spec → Bool
once_of none = false
once_of (some s) = s.once_per_day || s.daily_use_limit == 1

unfoldable pub once_per_day : AbilityType → Bool
unfolding once_of
once_per_day ability = once_of (spec_for ability)

limit_of : Option Spec → ℕ
limit_of none = 0
limit_of (some s) =
    if ltb 0 s.daily_use_limit then s.daily_use_limit else if s.once_per_day then 1 else 0

unfoldable pub daily_use_limit : AbilityType → ℕ
unfolding limit_of
daily_use_limit ability = limit_of (spec_for ability)

in_scope : PlayerState → ScopeType → Bool
in_scope player warden_only = is_warden player.role
in_scope player authority_scope = is_authority_player player
in_scope player prisoner_scope = is_prisoner_player player

may_use : PlayerState → Option Spec → Bool
unfolding in_scope
may_use player none = false
may_use player (some s) = in_scope player s.scope

unfoldable pub can_player_use : PlayerState → AbilityType → Bool
unfolding may_use
can_player_use player ability = may_use player (spec_for ability)

unfoldable pub abilities_for_player : PlayerState → List AbilityType
abilities_for_player player = keep (can_player_use player) ability_catalog

unfoldable pub effect_duration_ticks : AbilityType → ℕ → ℕ
effect_duration_ticks ability hz =
    if hz == 0
    then 0
    else if text_eq ability ability_camera_man
    then hz * 15
    else if text_eq ability ability_detainer
    then hz * 15
    else if text_eq ability ability_tracker
    then hz * 30
    else if text_eq ability ability_disguise
    then hz * 20
    else 0
