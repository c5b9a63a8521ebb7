-- ===== src/Phase/Batching.antt =====
-- Calling `Advance` on every tick and calling it once after a pause are the same, and the hooks of
-- the match manager keep the black market at one of its candidates.
use prison_break.Shared.{
  ℕ, zero, suc, ◌+◌, ◌≤◌, ◌<◌, ◌≡◌, refl, ap, inl, inr, List, [], ◌∷◌, ◌++◌, Option, some, arith,
  true,
}
use prison_break.Model.{GameState}
use native.Mathlib.Nat.{suc-add, add_comm}
use prison_break.GameMap.{is_nightly_black_market_candidate}
use prison_break.GameMap.Market.{nightly_room-is_candidate}
use prison_break.Phase.{
  manager_phase_hooks, Config, Transition, Hooks, round, transition, advance_loop, advance,
  normalized, push_transition,
}
use prison_break.Phase.Advance.{advance_loop-inv, fuel_ran_out}

advance_loop-early :
    (fuel : ℕ) (c : Config) (hooks : Option Hooks) (now : ℕ) (state : GameState)
    → now < state.phase.ends_tick
    → advance_loop (suc fuel) c hooks now state ≡ some (state, [])
unfolding advance_loop
advance_loop-early fuel c hooks now state h = ground arith

-- A round that is due, and the rest of the loop.
advance_loop-round :
    (fuel : ℕ) (c : Config) (hooks : Option Hooks) (now : ℕ) (state last : GameState)
    (ts : List Transition)
    → state.phase.ends_tick ≤ now
    → advance_loop fuel c hooks now (round c hooks state) ≡ some (last, ts)
    → advance_loop (suc fuel) c hooks now state ≡ some (last, transition c state ∷ ts)
unfolding advance_loop
advance_loop-round fuel c hooks now state last ts h e =
    ground (arith, ap (push_transition (transition c state)) e)

-- More fuel does not change a result.
advance_loop-more :
    (fuel extra : ℕ) (c : Config) (hooks : Option Hooks) (now : ℕ) (state last : GameState)
    (ts : List Transition)
    → advance_loop fuel c hooks now state ≡ some (last, ts)
    → advance_loop (fuel + extra) c hooks now state ≡ some (last, ts)
advance_loop-more zero extra c hooks now state last ts e = absurd (fuel_ran_out c hooks now state e)
advance_loop-more (suc fuel) extra c hooks now state last ts e =
    rw suc-add (elim (advance_loop-inv fuel c hooks now state last ts e) [
      | inl (early, same, none_left) ↦
          rw (same, none_left) (advance_loop-early (fuel + extra) c hooks now state early)
      | inr (rest, over, f, all) ↦ rw all (
          advance_loop-round (fuel + extra) c hooks now state last rest over
            (advance_loop-more fuel extra c hooks now (round c hooks state) last rest f))
    ])

advance_loop-twice :
    (fuel more : ℕ) (c : Config) (hooks : Option Hooks) (now later : ℕ) (state mid last : GameState)
    (ts us : List Transition)
    → now ≤ later
    → advance_loop fuel c hooks now state ≡ some (mid, ts)
    → advance_loop more c hooks later mid ≡ some (last, us)
    → advance_loop (fuel + more) c hooks later state ≡ some (last, ts ++ us)
advance_loop-twice zero more c hooks now later state mid last ts us le e g =
    absurd (fuel_ran_out c hooks now state e)
advance_loop-twice (suc fuel) more c hooks now later state mid last ts us le e g =
    elim (advance_loop-inv fuel c hooks now state mid ts e) [
      | inl (early, same, none_left) ↦
          rw (none_left, add_comm (suc fuel) more)
            (advance_loop-more more (suc fuel) c hooks later state last us (rw same at g))
      | inr (rest, over, f, all) ↦
          rw (all, suc-add)
            (advance_loop-round (fuel + more) c hooks later state last (rest ++ us) (omega arith) (
              advance_loop-twice fuel more c hooks now later (round c hooks state) mid last rest us
                le f g))
    ]

-- `Advance` to one tick and then to a later one leaves the state, and reports the transitions, of a
-- single call at the later tick. So it does not matter at which ticks the clock is polled.
pub advance-twice :
    (fuel more : ℕ) (state mid last : GameState) (now later : ℕ) (config : Config)
    (hooks : Option Hooks) (ts us : List Transition)
    → now ≤ later
    → advance fuel state now config hooks ≡ some (mid, ts)
    → advance more mid later config hooks ≡ some (last, us)
    → advance (fuel + more) state later config hooks ≡ some (last, ts ++ us)
unfolding advance
advance-twice fuel more state mid last now later config hooks ts us le e g =
    advance_loop-twice fuel more (normalized config) hooks now later state mid last ts us le e g

-- What every round keeps, `Advance` keeps.
advance_loop-keeps {ℓ} :
    (P : GameState → Type ℓ) (c : Config) (hooks : Option Hooks)
    → ((state : GameState) → P state → P (round c hooks state))
    → (fuel now : ℕ) (state last : GameState) (ts : List Transition) → P state
    → advance_loop fuel c hooks now state ≡ some (last, ts)
    → P last
advance_loop-keeps P c hooks step zero now state last ts h e =
    absurd (fuel_ran_out c hooks now state e)
advance_loop-keeps P c hooks step (suc fuel) now state last ts h e =
    elim (advance_loop-inv fuel c hooks now state last ts e) [
      | inl (early, same, none_left) ↦ rw same h
      | inr (rest, over, f, all) ↦
          advance_loop-keeps P c hooks step fuel now (round c hooks state) last rest (step state h)
            f
    ]

-- The parts of a state that the clock of a match leaves alone.
pub record SameMatch (before after : GameState) : Type 0 where
  pub players : after.players ≡ before.players
  pub entities : after.entities ≡ before.entities
  pub status : after.status ≡ before.status
  pub doors : after.map.doors ≡ before.map.doors
  pub power : after.map.power_on ≡ before.map.power_on
  pub market :
      is_nightly_black_market_candidate before.map.black_market_room_id ≡ true
      → is_nightly_black_market_candidate after.map.black_market_room_id ≡ true

round-SameMatch :
    (c : Config) (before state : GameState)
    → SameMatch before state
    → SameMatch before (round c (some manager_phase_hooks) state)
unfolding round manager_phase_hooks
round-SameMatch c before state h = ground (
  arith,
  nightly_room-is_candidate state.match_id (transition c state).cycle
      (transition c state).start_tick,
)

-- With the hooks of the match manager, a change of phase leaves the players, the entities, the
-- status, the doors and the power of the match alone, and a black market that stands in one of its
-- candidate rooms moves to another of them at most.
pub advance-SameMatch :
    (fuel : ℕ) (state last : GameState) (now : ℕ) (config : Config) (ts : List Transition)
    → advance fuel state now config (some manager_phase_hooks) ≡ some (last, ts)
    → SameMatch state last
unfolding advance
advance-SameMatch fuel state last now config ts e =
    advance_loop-keeps (SameMatch state) (normalized config) (some manager_phase_hooks)
      (round-SameMatch (normalized config) state) fuel now state last ts
      (record {
        players = refl;
        entities = refl;
        status = refl;
        doors = refl;
        power = refl;
        market = λ h. h;
      })
      e
