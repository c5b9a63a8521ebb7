-- ===== src/Actions/Effects.antt =====
-- manager.go: the effects on a player.
pub mod Lasting
use prison_break.Shared.{
  ℕ, Bool, true, false, not, ◌&&◌, ◌||◌, List, [], ◌∷◌, text_eq, any, keep, ltb, leb, length, ◌==◌,
  if◌then◌else◌,
}
use prison_break.Model.{PlayerState, EffectState, EffectType, PlayerId, EntityId}

-- The writes to an effect that is there, and whether one has changed it.
unfoldable pub refresh_effect : EffectState → ℕ → PlayerId → EntityId → ℕ → EffectState × Bool
refresh_effect e ends source_pid source_id stacks =
    let later = ltb e.ends_tick ends in
    let by = not (text_eq source_pid []) && not (text_eq e.source_pid source_pid) in
    let from = not (source_id == 0) && not (e.source_id == source_id) in
    let higher = ltb e.stacks stacks in
    (
      record e {
        ends_tick = if later then ends else e.ends_tick;
        source_pid = if by then source_pid else e.source_pid;
        source_id = if from then source_id else e.source_id;
        stacks = if higher then stacks else e.stacks;
      },
      later || (by || (from || higher)),
    )

-- The loop of `upsertEffectLocked`, and the new effect at its end.
unfoldable pub upsert_in :
    List EffectState → EffectType → ℕ → PlayerId → EntityId → ℕ → List EffectState × Bool
upsert_in [] effect ends source_pid source_id stacks = (
  record {
    effect = effect;
    ends_tick = ends;
    stacks = stacks;
    source_id = source_id;
    source_pid = source_pid;
  }
      ∷ [],
  true,
)
upsert_in (e ∷ es) effect ends source_pid source_id stacks =
    let rest = upsert_in es effect ends source_pid source_id stacks in
    let fresh = refresh_effect e ends source_pid source_id stacks in
    if not (text_eq e.effect effect) then (e ∷ rest.0, rest.1) else (fresh.0 ∷ es, fresh.1)

unfoldable pub upsert_effect :
    PlayerState → EffectType → ℕ → PlayerId → EntityId → ℕ → PlayerState × Bool
upsert_effect player effect ends source_pid source_id stacks =
    let depth = if stacks == 0 then 1 else stacks in
    let r = upsert_in player.effects effect ends source_pid source_id depth in
    if text_eq effect [] then (player, false) else (record player { effects = r.0 }, r.1)

unfoldable pub remove_effect : PlayerState → EffectType → PlayerState × Bool
remove_effect player effect =
    if text_eq effect [] || length player.effects == 0
    then (player, false)
    else if not (any (λ e. text_eq e.effect effect) player.effects)
    then (player, false)
    else (
      record player { effects = keep (λ e. not (text_eq e.effect effect)) player.effects },
      true,
    )

-- Is the effect of an entry in force?
abbrev pub is_active : EffectType → ℕ → EffectState → Bool
is_active effect tick e =
    text_eq e.effect effect && not (not (e.ends_tick == 0) && ltb e.ends_tick tick)

unfoldable pub has_active_effect : PlayerState → EffectType → ℕ → Bool
has_active_effect player effect tick = any (is_active effect tick) player.effects
