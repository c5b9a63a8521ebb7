-- ===== src/Matches/Clock.antt =====
-- The clock of phase/manager.go as the match manager runs it.
use prison_break.Shared.{ℕ, ◌+◌, ◌*◌, ◌<◌, ◌≡◌, List, some, arith}
use prison_break.Model.{GameState}
use prison_break.Phase
use prison_break.Phase.{Transition, advance, manager_phase_hooks}
use prison_break.Phase.Clock.{InRange, Timeline, manager-KeepsClock}
use prison_break.Phase.Advance.{advance-Timeline}
use prison_break.Matches.{Config, normalized, phase_config, non_zero}

-- A configuration whose numbers are in the ranges of their types.
record InTypes (c : Config) : Type 0 where
  rate : c.tick_rate_hz < 4294967296
  day : c.day_seconds < 65536
  night : c.night_seconds < 65536
  cycles : c.max_cycles < 256

product_lem :
    (a b : ℕ) → 0 < a → 0 < b → a < 65536 → b < 4294967296 → (0 < a * b) × (a * b < 281474976710656)
product_lem a b pa pb ha hb = (grind arith, grind arith)

non_zero_lem : (n d top : ℕ) → 0 < d → d < top → n < top → (0 < non_zero n d) × (non_zero n d < top)
non_zero_lem n d top pos hd hn = ground arith

-- A duration of the clock, after both normalizations.
duration_lem :
    (seconds rate : ℕ)
    → 0 < seconds
    → 0 < rate
    → seconds < 65536
    → rate < 4294967296
    → (Phase.or_default (seconds * rate) 1 ≡ seconds * rate)
      × (0 < seconds * rate)
      × (seconds * rate < 281474976710656)
duration_lem seconds rate ps pr hs hr =
    let (pos, small) = product_lem seconds rate ps pr hs hr in (ground arith, pos, small)

phase_config-InRange :
    (c : Config) (now : ℕ)
    → InTypes c
    → now < 18446462598732840960
    → InRange (Phase.normalized (phase_config c)) now
unfolding phase_config normalized Phase.normalized
phase_config-InRange c now t h =
    let (rate_pos, rate_small) =
      non_zero_lem c.tick_rate_hz 30 4294967296 (omega arith) (omega arith) t.rate in
    let (day_pos, day_small) =
      non_zero_lem c.day_seconds 300 65536 (omega arith) (omega arith) t.day in
    let (night_pos, night_small) =
      non_zero_lem c.night_seconds 120 65536 (omega arith) (omega arith) t.night in
    let (d, d_pos, d_small) =
      duration_lem (non_zero c.day_seconds 300) (non_zero c.tick_rate_hz 30) day_pos rate_pos
        day_small rate_small in
    let (n, n_pos, n_small) =
      duration_lem (non_zero c.night_seconds 120) (non_zero c.tick_rate_hz 30) night_pos rate_pos
        night_small rate_small in
    record {
      day_lasts = rw d d_pos;
      night_lasts = rw n n_pos;
      day_fits = rw d (omega (arith, d_small));
      night_fits = rw n (omega (arith, n_small));
      cycles_fit = ground (arith, t.cycles);
    }

-- With a configuration in the ranges of its types, and until the ticks get near the end of 64 bits, the
-- clock that the match manager runs at each tick returns, with the hooks that it installs: with fuel of
-- two rounds more than the tick, its transitions are a timeline up to the tick.
phase_config-Timeline :
    (c : Config) (state : GameState) (now : ℕ)
    → InTypes c
    → now < 18446462598732840960
    → (last : GameState) × (ts : List Transition) × (advance
          (now + 2)
          state
          now
          (phase_config c)
          (some manager_phase_hooks)
        ≡ some (last, ts))
      × Timeline
          (Phase.normalized (phase_config c))
          now
          state.phase.current
          state.phase.ends_tick
          ts
          last
phase_config-Timeline c state now t h =
    advance-Timeline (now + 2) state now (phase_config c) (some manager_phase_hooks)
      (phase_config-InRange c now t h) manager-KeepsClock (omega arith)
