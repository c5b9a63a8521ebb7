-- ===== src/Phase/Clock.antt =====
-- The timeline that the loop of `Advance` lays out, and the hooks that leave the clock alone.
use prison_break.Shared.{
  ℕ, ◌+◌, ◌≤◌, ◌<◌, ◌≡◌, ◌≢◌, refl, ◌⊎◌, List, [], ◌∷◌, Option, none, some, arith, count_if,
}
use prison_break.Model.{GameState, PhaseType, day, night, no_phase}
use prison_break.Model.Kinds.{is_day}
use prison_break.Phase.{
  Config, Transition, Hooks, run_hooks, round, transition, enter_phase, manager_phase_hooks,
}

-- Hooks that touch neither the phase nor the cycle count.
pub record KeepsClock (hooks : Option Hooks) : Type 0 where
  pub phase : (state : GameState) (t : Transition) → (run_hooks hooks state t).phase ≡ state.phase
  pub cycle :
      (state : GameState) (t : Transition)
      → (run_hooks hooks state t).cycle_count ≡ state.cycle_count

pub none-KeepsClock : KeepsClock none
unfolding run_hooks
none-KeepsClock = record { phase = λ state t. refl; cycle = λ state t. refl }

manager_keeps_phase :
    (to : PhaseType) (state : GameState) (t : Transition)
    → t.to ≡ to
    → ((run_hooks (some manager_phase_hooks) state t).phase ≡ state.phase)
      × ((run_hooks (some manager_phase_hooks) state t).cycle_count ≡ state.cycle_count)
unfolding run_hooks manager_phase_hooks
manager_keeps_phase day state t e = ground arith
manager_keeps_phase night state t e = ground arith
manager_keeps_phase no_phase state t e = ground arith

pub manager-KeepsClock : KeepsClock (some manager_phase_hooks)
manager-KeepsClock = record {
  phase = λ state t. (manager_keeps_phase t.to state t refl).0;
  cycle = λ state t. (manager_keeps_phase t.to state t refl).1;
}

-- How long a phase lasts.
abbrev pub duration : Config → PhaseType → ℕ
duration c day = c.day_duration_ticks
duration c night = c.night_duration_ticks
duration c no_phase = 0

-- A timeline from a phase that ends at `ends`: every transition leaves the phase before it at the
-- tick at which that ends, which is not after `now`, and the next phase lasts its full duration;
-- night gives way to day, and all else to night. At its end stands the clock of the last state.
abbrev pub Timeline : Config → ℕ → PhaseType → ℕ → List Transition → GameState → Type 0
Timeline c now current ends [] last =
    (last.phase.current ≡ current) × (last.phase.ends_tick ≡ ends) × (now < ends)
Timeline c now current ends (t ∷ ts) last =
    ((t.from ≡ current)
      × (t.start_tick ≡ ends)
      × (ends ≤ now)
      × (t.end_tick ≡ ends + duration c t.to)
      × (((t.from ≡ night) × (t.to ≡ day)) ⊎ ((t.from ≢ night) × (t.to ≡ night))))
    × Timeline c now t.to t.end_tick ts last

-- How many of the transitions begin a day.
abbrev pub days : List Transition → ℕ
days = count_if (λ t. is_day t.to)

-- Durations of at least a tick, and no tick in reach that passes the range of a `uint64`.
pub record InRange (c : Config) (now : ℕ) : Type 0 where
  pub day_lasts : 0 < c.day_duration_ticks
  pub night_lasts : 0 < c.night_duration_ticks
  pub day_fits : now + c.day_duration_ticks < 18446744073709551616
  pub night_fits : now + c.night_duration_ticks < 18446744073709551616
  pub cycles_fit : c.max_cycles < 256

-- The clock after one round, whatever the hooks do to the rest of the state.
pub round_clock :
    (c : Config) (hooks : Option Hooks) (state : GameState)
    → KeepsClock hooks
    → ((round c hooks state).phase.current ≡ (transition c state).to)
      × ((round c hooks state).phase.ends_tick ≡ (transition c state).end_tick)
      × ((round c hooks state).cycle_count ≡ (transition c state).cycle)
unfolding round enter_phase
round_clock c hooks state k = ground (
  arith,
  k.phase (enter_phase state (transition c state)) (transition c state),
  k.cycle (enter_phase state (transition c state)) (transition c state),
)

-- What a transition says, at a state whose phase is over.
pub transition_lem :
    (c : Config) (state : GameState) (now : ℕ)
    → InRange c now
    → state.phase.ends_tick ≤ now
    → let t = transition c state in
      (t.from ≡ state.phase.current)
      × (t.start_tick ≡ state.phase.ends_tick)
      × (t.end_tick ≡ state.phase.ends_tick + duration c t.to)
      × (state.phase.ends_tick < t.end_tick)
      × (((t.from ≡ night) × (t.to ≡ day)) ⊎ ((t.from ≢ night) × (t.to ≡ night)))
unfolding transition
transition_lem c state now r h = ground arith
