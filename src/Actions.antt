-- ===== src/Actions.antt =====
-- internal/server/game/manager.go: what a command does to the state of a running match, one handler at a
-- time. A player that a handler gets by a pointer is passed on and returned; the pointer is into the state
-- of the session, which the caller writes back.
pub mod Market
pub mod Uses
pub mod Effects
pub mod Stash
pub mod Doors
pub mod Ammo
pub mod Sidearms
pub mod Equip
use prison_break.Shared.{ℕ, Bool}
use prison_break.Model.{GameState, PlayerId, AbilityType}

pub record DailyAbilityUsage : Type 0 where
  pub day_start_tick : ℕ
  pub use_count : ℕ

-- The part of `matchSession` that the handlers here read and write. A key that a map lacks has the zero
-- value, as a lookup gives.
pub record PlaySession : Type 0 where
  pub tick_id : ℕ
  pub tick_rate_hz : ℕ
  pub game_state : GameState
  pub black_market_golden_bullet_sold : Bool
  pub ability_cooldown_until : PlayerId → AbilityType → ℕ
  pub ability_daily_usage : PlayerId → AbilityType → DailyAbilityUsage
  pub ammo_restock_until : PlayerId → ℕ
