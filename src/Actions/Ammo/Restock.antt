-- ===== src/Actions/Ammo/Restock.antt =====
-- When an authority restocks.
use prison_break.Shared.{
  ℕ, ◌+◌, ◌*◌, ◌≤◌, ◌<◌, ◌≡◌, ◌≢◌, ◌⊎◌, ◌↔◌, ◌&&◌, refl, Bool, true, false, not, [], arith, text_eq,
  text_eq_refl, text_eq_sound, ltb, leb, if◌then◌else◌, Bool-cases, inl, inr,
}
use prison_break.Model.{PlayerState, PlayerId}
use prison_break.GameMap.{is_authority_player, room_ammo_room}
use prison_break.Actions.{PlaySession}
use prison_break.Actions.Ammo.{
  apply_reload_command, start_restock, is_ammo_restock_in_progress, max_tick_rate,
  authority_ammo_max,
}

-- Who may restock: a living authority in the ammunition room, with fewer than three bullets, who is not
-- restocking.
pub record MayRestock (session : PlaySession) (player : PlayerState) : Type 0 where
  pub living : player.alive ≡ true
  pub authority : is_authority_player player ≡ true
  pub here : player.current_room_id ≡ room_ammo_room
  pub short : player.bullets < 3
  pub idle : is_ammo_restock_in_progress session player.id ≡ false

-- The restock of a player, and of no other, is in progress from now on for ten seconds of ticks, and then no
-- longer.
pub record Restocking (session after : PlaySession) (player : PlayerState) : Type 0 where
  pub lasts :
      (tick : ℕ)
      → session.tick_id ≤ tick
      → is_ammo_restock_in_progress (record after { tick_id = tick }) player.id
        ≡ ltb tick (session.tick_id + max_tick_rate session.tick_rate_hz * 10)
  pub others :
      (p : PlayerId) → p ≢ player.id → after.ammo_restock_until p ≡ session.ammo_restock_until p

started_lem :
    (s : PlaySession) (player : PlayerState)
    → player.id ≢ []
    → s.tick_id + max_tick_rate s.tick_rate_hz * 10 < 18446744073709551616
    → Restocking s (start_restock s player).0.0 player
unfolding start_restock is_ammo_restock_in_progress
started_lem s player named fits =
    let other : text_eq player.id [] ≡ false = ground (arith, named, text_eq_sound player.id []) in
    record {
      lasts = λ tick later. rw (other, text_eq_refl player.id) (ground (arith, later, fits));
      others = λ p ne. ground (arith, ne, text_eq_sound p player.id);
    }

-- The tests of the command, all together.
abbrev passes : PlaySession → PlayerState → Bool
passes session player =
    player.alive
    && (is_authority_player player
        && (text_eq player.current_room_id room_ammo_room
            && (not (leb authority_ammo_max player.bullets)
                && not (is_ammo_restock_in_progress session player.id))))

passes_lem :
    (session : PlaySession) (player : PlayerState)
    → (apply_reload_command session player).0.0
      ≡ (if passes session player then (start_restock session player).0.0 else session)
unfolding apply_reload_command
passes_lem session player = ground arith

passes_iff :
    (session : PlaySession) (player : PlayerState)
    → (passes session player ≡ true) ↔ MayRestock session player
passes_iff session player = (
  λ e. record {
    living = ground (arith, e);
    authority = ground (arith, e);
    here = text_eq_sound player.current_room_id room_ammo_room (ground (arith, e));
    short = ground (arith, e);
    idle = ground (arith, e);
  },
  λ m.
      let here : text_eq player.current_room_id room_ammo_room ≡ true =
        rw m.here (text_eq_refl room_ammo_room) in
      ground (arith, m.living, m.authority, here, m.short, m.idle),
)

-- For a player with an id, as long as the ticks fit in 64 bits, a reload starts a restock of ten seconds
-- exactly when the player may restock; otherwise it leaves the session as it is.
pub apply_reload_command-restocks :
    (session : PlaySession) (player : PlayerState)
    → player.id ≢ []
    → session.tick_id + max_tick_rate session.tick_rate_hz * 10 < 18446744073709551616
    → let after = (apply_reload_command session player).0.0 in
      (MayRestock session player × Restocking session after player)
      ⊎ ((¬ MayRestock session player) × (after ≡ session))
apply_reload_command-restocks session player named fits =
    rw (passes_lem session player) (elim (Bool-cases (passes session player)) [
      | inl e ↦ rw e (inl ((passes_iff session player).0 e, started_lem session player named fits))
      | inr e ↦ rw e (inr (λ m. absurd (ground (arith, e, (passes_iff session player).1 m)), refl))
    ])
