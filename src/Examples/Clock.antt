-- ===== src/Examples/Clock.antt =====
-- The clock of phase/manager.go: a short day and night, with the hooks of the match manager.
use prison_break.Shared.{◌≡◌, refl, arith, some, none, [], ◌∷◌, List}
use prison_break.Model.{GameState, PhaseState, day, night}
use prison_break.Model.Zero.{zero_state, zero_map}
use prison_break.GameMap.{deterministic_nightly_black_market_room}
use prison_break.Phase.{
  Config, Transition, advance, normalized, round, manager_phase_hooks, default_config,
  initial_phase_state,
}
use prison_break.Phase.Clock.{Timeline, InRange, none-KeepsClock}
use prison_break.Phase.Advance.{advance-Timeline}
use prison_break.Phase.Batching.{advance-twice, advance-SameMatch, SameMatch}

abbrev short : Config
short = record { day_duration_ticks = 10; night_duration_ticks = 4; max_cycles = 2 }

abbrev dawn : PhaseState
dawn = record { current = day; started_tick = 1; ends_tick = 11 }

abbrev start : GameState
start = record zero_state { phase = dawn; cycle_count = 1 }

default_day :
    default_config 0
    ≡ record { day_duration_ticks = 9000; night_duration_ticks = 3600; max_cycles = 6 }
unfolding default_config
default_day = refl

dawn_is_initial : initial_phase_state short 0 ≡ dawn
unfolding initial_phase_state
dawn_is_initial = refl

short-InRange : InRange (normalized short) 16
unfolding normalized
short-InRange = omega arith

advance-Timeline_example :
    (last : GameState) × (ts : List Transition) × (advance 18 start 16 short none ≡ some (last, ts))
    × Timeline (normalized short) 16 day 11 ts last
advance-Timeline_example =
    advance-Timeline 18 start 16 short none short-InRange none-KeepsClock (omega arith)

abbrev nightfall : Transition
nightfall = record { from = day; to = night; start_tick = 11; end_tick = 15; cycle = 1 }

abbrev daybreak : Transition
daybreak = record { from = night; to = day; start_tick = 15; end_tick = 25; cycle = 2 }

abbrev evening : GameState
evening = record start { phase = record { current = night; started_tick = 11; ends_tick = 15 } }

abbrev morning : GameState
morning = record start {
  phase = record { current = day; started_tick = 15; ends_tick = 25 };
  cycle_count = 2;
}

run_to_evening : advance 3 start 12 short none ≡ some (evening, nightfall ∷ [])
unfolding advance round
run_to_evening = refl

run_to_morning : advance 3 evening 16 short none ≡ some (morning, daybreak ∷ [])
unfolding advance round
run_to_morning = refl

advance-twice_example : advance 6 start 16 short none ≡ some (morning, nightfall ∷ daybreak ∷ [])
advance-twice_example =
    advance-twice 3 3 start evening morning 12 16 short none (nightfall ∷ []) (daybreak ∷ [])
      (omega arith) run_to_evening run_to_morning

abbrev moved : GameState
moved = record evening {
  map = record zero_map { black_market_room_id = deterministic_nightly_black_market_room [] 1 11 };
}

run_with_hooks : advance 3 start 12 short (some manager_phase_hooks) ≡ some (moved, nightfall ∷ [])
unfolding advance manager_phase_hooks round
run_with_hooks = refl

advance-SameMatch_example : SameMatch start moved
advance-SameMatch_example = advance-SameMatch 3 start moved 12 short (nightfall ∷ []) run_with_hooks
