-- ===== src/InputQueue/Intake.antt =====
-- The queue over a whole run: commands come in, ticks are consumed, and time passes.
use prison_break.Shared.{
  ℕ, ◌+◌, ◌≤◌, ◌<◌, ◌≡◌, Bool, true, false, ◌&&◌, Option, none, some, arith, inl, inr, text_eq,
  text_eq_sound, text_eq_refl, ◌==◌, Bool-cases, if◌then◌else◌,
}
use prison_break.Model.{InputCommand, PlayerId}
use prison_break.Session.{MatchSession}
use prison_break.InputQueue.{
  submit_input, enqueue, consume_scheduled_inputs, prune_rate_windows, InputError,
}
use prison_break.InputQueue.Schedule.{submit_input-Submitted}
use prison_break.InputQueue.Order.{IsQueue, submit_input-IsQueue, consume_scheduled_inputs-IsQueue}

-- What happens to the queue of a match: a command is submitted, while the numbers fit in 64 bits; the
-- commands of a tick are consumed; the match gets to a later tick.
pub data Intake (s : MatchSession) : MatchSession → Type 0 where
  start : Intake s s
  submit :
      {t : MatchSession} (command : InputCommand) (now : ℕ)
      → Intake s t
      → t.next_ingress_seq + 1 < 18446744073709551616
      → Intake s (submit_input t command now).0
  consume :
      {t : MatchSession} (tick : ℕ) → Intake s t → Intake s (consume_scheduled_inputs t tick).0
  pass :
      {t : MatchSession} (tick : ℕ)
      → Intake s t
      → t.tick_id ≤ tick
      → Intake s (record t { tick_id = tick })

abbrev is_accepted : Option InputError → Bool
is_accepted none = true
is_accepted (some e) = false

-- How many commands of a player have been accepted while the match was at a tick.
unfoldable pub accepted : {s t : MatchSession} → Intake s t → ℕ → PlayerId → ℕ
accepted start w p = 0
accepted (submit {t = t} command now run fits) w p =
    accepted run w p
    + (if (t.tick_id == w && text_eq p command.player_id)
          && is_accepted (submit_input t command now).1
        then 1
        else 0)
accepted (consume tick run) w p = accepted run w p
accepted (pass tick run later) w p = accepted run w p

-- A command that is queued is counted in the window of the tick that the match is at.
counted_lem :
    (s : MatchSession) (command : InputCommand) (now tick w : ℕ) (p : PlayerId)
    → s.accepted_by_tick s.tick_id command.player_id < 8
    → s.tick_id ≤ w
    → (enqueue s command now tick).accepted_by_tick w p
      ≡ s.accepted_by_tick w p + (if s.tick_id == w && text_eq p command.player_id then 1 else 0)
unfolding enqueue prune_rate_windows
counted_lem s command now tick w p few later = elim (Bool-cases (text_eq p command.player_id)) [
  | inr other ↦ rw other (ground (arith, later))
  | inl me ↦
      let same : p ≡ command.player_id = text_eq_sound p command.player_id me in
      rw same (ground (arith, few, later, text_eq_refl command.player_id))
]

same_tick :
    (s : MatchSession) (command : InputCommand) (now tick w : ℕ)
    → (enqueue s command now tick).tick_id ≤ w
    → s.tick_id ≤ w
unfolding enqueue
same_tick s command now tick w h = h

-- The windows of a run, as against those at its start.
abbrev Windows : {s t : MatchSession} → Intake s t → ℕ → PlayerId → Type 0
Windows {s = s} {t = t} run w p =
    (t.tick_id ≤ w → t.accepted_by_tick w p ≡ s.accepted_by_tick w p + accepted run w p)
    × (s.accepted_by_tick w p + accepted run w p ≤ 8)

Intake-Windows :
    {s t : MatchSession} (w : ℕ) (p : PlayerId) → IsQueue s → (run : Intake s t) → Windows run w p
unfolding accepted consume_scheduled_inputs
Intake-Windows w p q start = (λ later. omega arith, omega (arith, q.limited w p))
Intake-Windows w p q (consume tick run) = Intake-Windows w p q run
Intake-Windows w p q (pass tick run later) =
    let (counted, few) = Intake-Windows w p q run in (λ h. counted (omega (arith, later, h)), few)
Intake-Windows {s = s} w p q (submit {t = t} command now run fits) =
    let (counted, few) = Intake-Windows w p q run in
    elim (submit_input-Submitted t command now) [
      | inl (e, r) ↦ rw r (λ later. ground (arith, counted later), ground (arith, few))
      | inr (tick, ok, r) ↦
          rw r (elim (Bool-cases (t.tick_id == w && text_eq p command.player_id)) [
            | inr other ↦ (
              λ h.
                  let later = same_tick t command now tick w h in
                  ground (
                    arith,
                    counted_lem t command now tick w p ok.below_limit later,
                    counted later,
                    other,
                  ),
              ground (arith, few, other),
            )
            | inl mine ↦
                let here : w ≡ t.tick_id = ground (arith, mine) in
                let me : p ≡ command.player_id =
                  text_eq_sound p command.player_id (ground (arith, mine)) in
                let below : t.accepted_by_tick w p < 8 = rw (here, me) ok.below_limit in
                (
                  λ h.
                      let later = same_tick t command now tick w h in
                      ground (
                        arith,
                        counted_lem t command now tick w p ok.below_limit later,
                        counted later,
                        mine,
                      ),
                  ground (arith, below, counted (omega (arith, here)), mine),
                )
          ])
    ]

-- From a queue, whatever comes in, is consumed and passes leaves a queue; and the commands of a player that
-- are accepted while the match is at one tick are, with those counted there before the run, never more
-- than eight.
pub Intake-IsQueue :
    {s t : MatchSession}
    → IsQueue s
    → (run : Intake s t)
    → IsQueue t × ((w : ℕ) (p : PlayerId) → s.accepted_by_tick w p + accepted run w p ≤ 8)
Intake-IsQueue q run = (queue q run, λ w p. (Intake-Windows w p q run).1)
  where
    queue : {s t : MatchSession} → IsQueue s → Intake s t → IsQueue t
    queue q start = q
    queue q (submit {t = t} command now run fits) =
        submit_input-IsQueue t command now fits (queue q run)
    queue q (consume {t = t} tick run) = consume_scheduled_inputs-IsQueue t tick (queue q run)
    queue q (pass tick run later) =
        let r = queue q run in
        record { ordered = r.ordered; numbered = r.numbered; limited = r.limited }
