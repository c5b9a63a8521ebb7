-- ===== src/Phase.antt =====
-- internal/gamecore/phase/manager.go: the day and night clock of a match, with its hooks. The hooks
-- that the match manager installs (internal/server/game/manager.go) are here too.
pub mod Clock
pub mod Advance
pub mod Batching
use prison_break.Shared.{
  ℕ, zero, suc, ◌+◌, ◌*◌, ◌≤◌, Bool, true, false, List, [], ◌∷◌, Option, none, some, leb, ltb, ◌==◌,
  if◌then◌else◌, u8, u64,
}
use prison_break.Model.{
  GameState, PhaseState, PhaseType, AlarmState, MapState, day, night, no_phase,
}
use prison_break.Model.Kinds.{is_night}
use prison_break.Model.Zero.{zero_alarm}
use prison_break.GameMap.{deterministic_nightly_black_market_room}

-- internal/shared/constants/simulation.go
abbrev pub server_tick_rate_hz : ℕ
server_tick_rate_hz = 30

abbrev pub day_phase_duration_seconds : ℕ
day_phase_duration_seconds = 300

abbrev pub night_phase_duration_seconds : ℕ
night_phase_duration_seconds = 120

abbrev pub max_day_night_cycles : ℕ
max_day_night_cycles = 6

pub record Config : Type 0 where
  pub day_duration_ticks : ℕ
  pub night_duration_ticks : ℕ
  pub max_cycles : ℕ

pub record Transition : Type 0 where
  pub from : PhaseType
  pub to : PhaseType
  pub start_tick : ℕ
  pub end_tick : ℕ
  pub cycle : ℕ

-- A hook mutates the state that it is given.
pub record Hooks : Type 0 where
  pub on_day_start : GameState → Transition → GameState
  pub on_night_start : GameState → Transition → GameState

call_hook : Option (GameState → Transition → GameState) → GameState → Transition → GameState
call_hook none state t = state
call_hook (some f) state t = f state t

-- `HookFuncs`: a function that is nil does nothing.
unfoldable pub hook_funcs :
    Option (GameState → Transition → GameState)
    → Option (GameState → Transition → GameState)
    → Hooks
unfolding call_hook
hook_funcs day_start night_start = record {
  on_day_start = call_hook day_start;
  on_night_start = call_hook night_start;
}

-- A tick rate is a `uint32`, so the products do not wrap.
unfoldable pub default_config : ℕ → Config
default_config tick_rate_hz =
    let hz = if tick_rate_hz == 0 then server_tick_rate_hz else tick_rate_hz in
    record {
      day_duration_ticks = day_phase_duration_seconds * hz;
      night_duration_ticks = night_phase_duration_seconds * hz;
      max_cycles = max_day_night_cycles;
    }

abbrev pub or_default : ℕ → ℕ → ℕ
or_default n d = if n == 0 then d else n

unfoldable pub normalized : Config → Config
normalized c = record {
  day_duration_ticks = or_default c.day_duration_ticks 1;
  night_duration_ticks = or_default c.night_duration_ticks 1;
  max_cycles = or_default c.max_cycles max_day_night_cycles;
}

unfoldable pub initial_phase_state : Config → ℕ → PhaseState
unfolding normalized
initial_phase_state config start_tick =
    let start = or_default start_tick 1 in
    record {
      current = day;
      started_tick = start;
      ends_tick = u64 (start + (normalized config).day_duration_ticks);
    }

next_phase : PhaseType → PhaseType
next_phase current = if is_night current then day else night

next_duration : Config → PhaseType → ℕ
next_duration c current = if is_night current then c.day_duration_ticks else c.night_duration_ticks

next_cycle : Config → PhaseType → ℕ → ℕ
next_cycle c current cycle =
    if is_night current then (if ltb cycle c.max_cycles then u8 (cycle + 1) else cycle) else cycle

-- The transition that the body of the loop builds, from a normalized configuration.
unfoldable pub transition : Config → GameState → Transition
unfolding next_phase next_duration next_cycle
transition c state = record {
  from = state.phase.current;
  to = next_phase state.phase.current;
  start_tick = state.phase.ends_tick;
  end_tick = u64 (state.phase.ends_tick + next_duration c state.phase.current);
  cycle = next_cycle c state.phase.current state.cycle_count;
}

-- The writes to the state, before the hooks run.
unfoldable pub enter_phase : GameState → Transition → GameState
enter_phase state t = record state {
  cycle_count = t.cycle;
  phase = record { current = t.to; started_tick = t.start_tick; ends_tick = t.end_tick };
}

dispatch_hook : PhaseType → Hooks → GameState → Transition → GameState
dispatch_hook day h state t = h.on_day_start state t
dispatch_hook night h state t = h.on_night_start state t
dispatch_hook no_phase h state t = state

-- `nil` hooks do nothing.
unfoldable pub run_hooks : Option Hooks → GameState → Transition → GameState
unfolding dispatch_hook
run_hooks none state t = state
run_hooks (some h) state t = dispatch_hook t.to h state t

-- One round of the loop.
unfoldable pub round : Config → Option Hooks → GameState → GameState
unfolding transition enter_phase run_hooks
round c hooks state = let t = transition c state in run_hooks hooks (enter_phase state t) t

pub push_transition :
    Transition → Option (GameState × List Transition) → Option (GameState × List Transition)
push_transition t none = none
push_transition t (some (state, ts)) = some (state, t ∷ ts)

-- The loop, on fuel. `none` means that the fuel ran out.
unfoldable pub advance_loop :
    ℕ → Config → Option Hooks → ℕ → GameState → Option (GameState × List Transition)
unfolding push_transition
advance_loop zero c hooks now state = none
advance_loop (suc fuel) c hooks now state =
    let rest =
      push_transition (transition c state) (advance_loop fuel c hooks now (round c hooks state)) in
    if leb state.phase.ends_tick now then rest else some (state, [])

-- `Advance`, on a state that is not nil.
unfoldable pub advance :
    ℕ → GameState → ℕ → Config → Option Hooks → Option (GameState × List Transition)
unfolding advance_loop normalized
advance fuel state now config hooks = advance_loop fuel (normalized config) hooks now state

-- `managerPhaseHooks`: the alarm ends at daybreak, and the black market moves at nightfall.
manager_day_start : GameState → Transition → GameState
manager_day_start state t = record state { map = record (state.map) { alarm = zero_alarm } }

manager_night_start : GameState → Transition → GameState
manager_night_start state t = record state {
  map = record (state.map) {
    black_market_room_id =
        deterministic_nightly_black_market_room state.match_id t.cycle t.start_tick;
  };
}

unfoldable pub manager_phase_hooks : Hooks
unfolding manager_day_start manager_night_start
manager_phase_hooks = record {
  on_day_start = manager_day_start;
  on_night_start = manager_night_start;
}
