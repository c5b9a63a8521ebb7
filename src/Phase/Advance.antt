-- ===== src/Phase/Advance.antt =====
-- `Advance` returns, and lays out a timeline that ends after the current tick.
use Prim.Native.Nat.{min}
use prison_break.Shared.{
  ℕ, zero, suc, ◌+◌, ◌≤◌, ◌<◌, ◌≡◌, ◌≢◌, ◌⊎◌, ◌∙◌, refl, Bool-cases, inl, inr, List, [], ◌∷◌,
  Option, none, some, arith, leb,
}
use prison_break.Model.{GameState}
use prison_break.Phase.{
  Config, Transition, Hooks, round, transition, advance_loop, advance, normalized, push_transition,
}
use prison_break.Phase.Clock.{KeepsClock, Timeline, InRange, days, round_clock, transition_lem}

-- The transitions of a round's state, read from the state that its clock was computed for.
cons-Timeline :
    (c : Config) (now : ℕ) (hooks : Option Hooks) (state last : GameState) (ts : List Transition)
    → InRange c now
    → KeepsClock hooks
    → state.phase.ends_tick ≤ now
    → Timeline c now
        (round c hooks state).phase.current
        (round c hooks state).phase.ends_tick
        ts
        last
    → Timeline c now state.phase.current state.phase.ends_tick (transition c state ∷ ts) last
cons-Timeline c now hooks state last ts r k h line =
    let t = transition_lem c state now r h in
    let clock = round_clock c hooks state k in
    ((t.0, t.1, h, t.2, t.4), rw (clock.0, clock.1) at line)

pub fuel_ran_out :
    {last : GameState} {ts : List Transition} (c : Config) (hooks : Option Hooks) (now : ℕ)
    (state : GameState)
    → advance_loop zero c hooks now state ≢ some (last, ts)
unfolding advance_loop
fuel_ran_out c hooks now state e = cc

pub advance_loop_lem :
    (fuel : ℕ) (c : Config) (hooks : Option Hooks) (now : ℕ) (state : GameState)
    → InRange c now
    → KeepsClock hooks
    → 0 < fuel
    → now + 2 ≤ fuel + state.phase.ends_tick
    → (last : GameState) × (ts : List Transition) × (advance_loop fuel c hooks now state
        ≡ some (last, ts))
      × Timeline c now state.phase.current state.phase.ends_tick ts last
unfolding advance_loop
advance_loop_lem zero c hooks now state r k pos enough = absurd (omega arith)
advance_loop_lem (suc fuel) c hooks now state r k pos enough =
    elim (Bool-cases (leb state.phase.ends_tick now)) [
      | inl over ↦
          let h : state.phase.ends_tick ≤ now = ground arith in
          let t = transition_lem c state now r h in
          let clock = round_clock c hooks state k in
          let (last, ts, e, line) =
            advance_loop_lem fuel c hooks now (round c hooks state) r k (omega arith)
              (omega arith) in
          (
            last,
            transition c state ∷ ts,
            rw (over, e),
            cons-Timeline c now hooks state last ts r k h line,
          )
      | inr early ↦ (state, [], rw early, (refl, refl, ground arith))
    ]

-- With hooks that leave the clock alone, durations in range and two rounds of fuel more than the
-- current tick, `Advance` returns. Its transitions are a timeline: each starts at the tick at which
-- the phase before it ended and no later than now, night and day alternate, each phase lasts its
-- configured duration, and the phase in which the state is left ends after the current tick.
pub advance-Timeline :
    (fuel : ℕ) (state : GameState) (now : ℕ) (config : Config) (hooks : Option Hooks)
    → InRange (normalized config) now
    → KeepsClock hooks
    → now + 2 ≤ fuel
    → (last : GameState) × (ts : List Transition) × (advance fuel state now config hooks
        ≡ some (last, ts))
      × Timeline (normalized config) now state.phase.current state.phase.ends_tick ts last
unfolding advance
advance-Timeline fuel state now config hooks r k enough =
    advance_loop_lem fuel (normalized config) hooks now state r k (omega arith) (omega arith)

next_cycle_count :
    (c : Config) (now : ℕ) (hooks : Option Hooks) (state : GameState) (ts : List Transition)
    → InRange c now
    → KeepsClock hooks
    → state.cycle_count ≤ c.max_cycles
    → ((round c hooks state).cycle_count ≤ c.max_cycles)
      × (min c.max_cycles ((round c hooks state).cycle_count + days ts)
          ≡ min c.max_cycles (state.cycle_count + days (transition c state ∷ ts)))
unfolding transition
next_cycle_count c now hooks state ts r k h = ground (arith, round_clock c hooks state k)

pub push_transition-eq-some :
    (t : Transition) (r : Option (GameState × List Transition)) (last : GameState)
    (ts : List Transition)
    → push_transition t r ≡ some (last, ts)
    → (rest : List Transition) × (r ≡ some (last, rest)) × (ts ≡ t ∷ rest)
unfolding push_transition
push_transition-eq-some t none last ts h = cc
push_transition-eq-some t (some (state, rest)) last ts h = (rest, ground arith, ground arith)

-- One round of the loop, read backwards from its result.
pub advance_loop-inv :
    (fuel : ℕ) (c : Config) (hooks : Option Hooks) (now : ℕ) (state last : GameState)
    (ts : List Transition)
    → advance_loop (suc fuel) c hooks now state ≡ some (last, ts)
    → ((now < state.phase.ends_tick) × (last ≡ state) × (ts ≡ []))
      ⊎ ((rest : List Transition) × (state.phase.ends_tick ≤ now)
          × (advance_loop fuel c hooks now (round c hooks state) ≡ some (last, rest))
          × (ts ≡ transition c state ∷ rest))
unfolding advance_loop
advance_loop-inv fuel c hooks now state last ts h =
    elim (Bool-cases (leb state.phase.ends_tick now)) [
      | inl over ↦
          let (rest, e, f) =
            push_transition-eq-some (transition c state)
              (advance_loop fuel c hooks now (round c hooks state)) last ts (rw over at h) in
          inr (rest, ground arith, e, f)
      | inr early ↦ inl (ground arith, ground (arith, rw early at h), ground (arith, rw early at h))
    ]

advance_loop-cycles :
    (fuel : ℕ) (c : Config) (hooks : Option Hooks) (now : ℕ) (state last : GameState)
    (ts : List Transition)
    → InRange c now
    → KeepsClock hooks
    → state.cycle_count ≤ c.max_cycles
    → advance_loop fuel c hooks now state ≡ some (last, ts)
    → last.cycle_count ≡ min c.max_cycles (state.cycle_count + days ts)
advance_loop-cycles zero c hooks now state last ts r k h e =
    absurd (fuel_ran_out c hooks now state e)
advance_loop-cycles (suc fuel) c hooks now state last ts r k h e =
    elim (advance_loop-inv fuel c hooks now state last ts e) [
      | inl (early, same, none_left) ↦ rw (same, none_left) (omega arith)
      | inr (rest, over, f, all) ↦
          let next = next_cycle_count c now hooks state rest r k h in
          rw all (
            advance_loop-cycles fuel c hooks now (round c hooks state) last rest r k next.0 f
            ∙ next.1)
    ]

-- The cycle count grows by one with each day that begins, and stops at the configured maximum.
pub advance-cycles :
    (fuel : ℕ) (state : GameState) (now : ℕ) (config : Config) (hooks : Option Hooks)
    (last : GameState) (ts : List Transition)
    → InRange (normalized config) now
    → KeepsClock hooks
    → state.cycle_count ≤ (normalized config).max_cycles
    → advance fuel state now config hooks ≡ some (last, ts)
    → last.cycle_count ≡ min (normalized config).max_cycles (state.cycle_count + days ts)
unfolding advance
advance-cycles fuel state now config hooks last ts r k h e =
    advance_loop-cycles fuel (normalized config) hooks now state last ts r k h e
