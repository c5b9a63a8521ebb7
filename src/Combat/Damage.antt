-- ===== src/Combat/Damage.antt =====
-- What damage does.
use prison_break.Shared.{ℕ, ◌+◌, ◌-◌, ◌<◌, ◌≡◌, ◌↔◌, sym, ap, ◌∙◌, true, arith, ltb}
use prison_break.Model.{PlayerState}
use prison_break.Combat.{apply_damage}

-- Damage to a living player takes what there is of it from the temporary hearts, and only what they leave
-- of it from the hearts; the result tells exactly what each of the two has lost, and their sum. The player
-- dies exactly when no hearts are left.
pub apply_damage-exact :
    (target : PlayerState) (damage : ℕ)
    → damage < 256
    → target.alive ≡ true
    → 0 < damage
    → let (after, r) = apply_damage target damage in
      (after.temp_hearts_half ≡ target.temp_hearts_half - damage)
      × (after.hearts_half ≡ target.hearts_half - (damage - target.temp_hearts_half))
      × (after.temp_hearts_half + r.temp_consumed_half ≡ target.temp_hearts_half)
      × (after.hearts_half + r.health_consumed_half ≡ target.hearts_half)
      × (r.applied_half ≡ r.temp_consumed_half + r.health_consumed_half)
      × ((r.eliminated ≡ true) ↔ (after.hearts_half ≡ 0))
      × ((after.alive ≡ true) ↔ (0 < after.hearts_half))
unfolding apply_damage
apply_damage-exact target damage small alive pos = ground arith

hearts_left :
    (target : PlayerState) (damage : ℕ)
    → target.alive ≡ true
    → 0 < damage
    → let after = (apply_damage target damage).0 in
      (after.temp_hearts_half ≡ target.temp_hearts_half - damage)
      × (after.hearts_half ≡ target.hearts_half - (damage - target.temp_hearts_half))
      × (after.alive ≡ ltb 0 after.hearts_half)
unfolding apply_damage
hearts_left target damage alive pos = ground arith

-- Two hits of which the first is survived leave the hearts that one hit of their sum leaves, and the same
-- life.
pub apply_damage-add :
    (target : PlayerState) (a b : ℕ)
    → target.alive ≡ true
    → 0 < a
    → 0 < b
    → (apply_damage target a).0.alive ≡ true
    → let twice = (apply_damage (apply_damage target a).0 b).0 in
      let once = (apply_damage target (a + b)).0 in
      (twice.hearts_half ≡ once.hearts_half)
      × (twice.temp_hearts_half ≡ once.temp_hearts_half)
      × (twice.alive ≡ once.alive)
apply_damage-add target a b alive pos_a pos_b survived =
    let first = hearts_left target a alive pos_a in
    let second = hearts_left (apply_damage target a).0 b survived pos_b in
    let once = hearts_left target (a + b) alive (omega arith) in
    let temp : (apply_damage (apply_damage target a).0 b).0.temp_hearts_half
        ≡ (apply_damage target (a + b)).0.temp_hearts_half =
      omega (arith, first.0, second.0, once.0) in
    let hearts : (apply_damage (apply_damage target a).0 b).0.hearts_half
        ≡ (apply_damage target (a + b)).0.hearts_half =
      omega (arith, first.0, first.1, second.1, once.1) in
    (hearts, temp, second.2 ∙ ap (ltb 0) hearts ∙ sym once.2)
