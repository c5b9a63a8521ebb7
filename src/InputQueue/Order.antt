-- ===== src/InputQueue/Order.antt =====
-- The queue is first in, first out, and its rate windows are bounded.
use prison_break.Shared.{
  ℕ, ◌+◌, ◌≤◌, ◌<◌, ◌≡◌, ◌≢◌, refl, true, false, List, [], ◌∷◌, ◌++◌, arith, inl, inr, All, All-imp,
  All-append, IsSorted, sort_by_of_IsSorted, ◌==◌, Bool-cases, u64,
}
use prison_break.Model.{InputCommand, PlayerId}
use prison_break.Session.{MatchSession}
use prison_break.InputQueue.{
  submit_input, enqueue, consume_scheduled_inputs, sort_input_commands, command_lt,
  prune_rate_windows, stamped,
}
use prison_break.InputQueue.Schedule.{Accepted, submit_input-Submitted}

-- The commands stand in the order of their numbers.
abbrev pub Ascending : List InputCommand → Type 0
Ascending [] = Unit
Ascending (c ∷ cs) = All (λ d. c.ingress_seq < d.ingress_seq) cs × Ascending cs

-- What holds of a queue: each command is queued for its own tick under a number that has been given out,
-- in the order of the numbers, and no window counts more than eight commands of a player.
pub record IsQueue (s : MatchSession) : Type 0 where
  pub ordered : (t : ℕ) → Ascending (s.scheduled_inputs t)
  pub numbered :
      (t : ℕ)
      → All (λ c. (c.ingress_seq ≤ s.next_ingress_seq) × (c.target_tick ≡ t)) (s.scheduled_inputs t)
  pub limited : (t : ℕ) (p : PlayerId) → s.accepted_by_tick t p ≤ 8

Ascending-append :
    (cs : List InputCommand) (d : InputCommand)
    → Ascending cs
    → All (λ c. c.ingress_seq < d.ingress_seq) cs
    → Ascending (cs ++ d ∷ [])
Ascending-append [] d h k = (tt, tt)
Ascending-append (c ∷ cs) d h k = (
  All-append (λ e. c.ingress_seq < e.ingress_seq) cs (d ∷ []) h.0 (k.0, tt),
  Ascending-append cs d h.1 k.1,
)

Ascending-IsSorted : (cs : List InputCommand) → Ascending cs → IsSorted command_lt cs
unfolding command_lt
Ascending-IsSorted [] h = tt
Ascending-IsSorted (c ∷ cs) h = (
  All-imp (λ d. c.ingress_seq < d.ingress_seq) (λ d. command_lt d c ≡ false) (λ d lt. ground arith)
      cs h.0,
  Ascending-IsSorted cs h.1,
)

-- The commands of a tick are consumed in the order in which they were accepted, each once: those queued
-- for the tick are given as they stand, none is left for it, and the other ticks keep theirs.
pub consume_scheduled_inputs-in_order :
    (s : MatchSession) (tick : ℕ)
    → IsQueue s
    → let r = consume_scheduled_inputs s tick in
      (r.1 ≡ s.scheduled_inputs tick)
      × Ascending r.1
      × (r.0.scheduled_inputs tick ≡ [])
      × ((t : ℕ) → t ≢ tick → r.0.scheduled_inputs t ≡ s.scheduled_inputs t)
unfolding consume_scheduled_inputs sort_input_commands
consume_scheduled_inputs-in_order s tick q =
    let same =
      sort_by_of_IsSorted command_lt (s.scheduled_inputs tick)
        (Ascending-IsSorted (s.scheduled_inputs tick) (q.ordered tick)) in
    (same, rw same (q.ordered tick), ground arith, λ t ne. ground arith)

-- The queue stays a queue when the commands of a tick are consumed.
pub consume_scheduled_inputs-IsQueue :
    (s : MatchSession) (tick : ℕ) → IsQueue s → IsQueue (consume_scheduled_inputs s tick).0
unfolding consume_scheduled_inputs
consume_scheduled_inputs-IsQueue s tick q = record {
  ordered = λ t. elim (Bool-cases (t == tick)) [
    | inl same ↦ rw same tt
    | inr other ↦ rw other (q.ordered t)
  ];
  numbered = λ t. elim (Bool-cases (t == tick)) [
    | inl same ↦ rw same tt
    | inr other ↦ rw other (q.numbered t)
  ];
  limited = q.limited;
}

pruned_limit :
    (accepted : ℕ → PlayerId → ℕ) (current t : ℕ) (p : PlayerId)
    → accepted t p ≤ 8
    → prune_rate_windows accepted current t p ≤ 8
unfolding prune_rate_windows
pruned_limit accepted current t p h = ground arith

==_refl : (n : ℕ) → (n == n) ≡ true
==_refl n = ground arith

module _ (s : MatchSession) (command : InputCommand) (tick : ℕ) (q : IsQueue s) where
  appended : ℕ → List InputCommand
  appended next = s.scheduled_inputs tick ++ stamped command next tick ∷ []

  appended-Ascending : (next : ℕ) → s.next_ingress_seq < next → Ascending (appended next)
  unfolding appended
  appended-Ascending next lt =
      Ascending-append (s.scheduled_inputs tick) (stamped command next tick) (q.ordered tick) (
        All-imp (λ c. (c.ingress_seq ≤ s.next_ingress_seq) × (c.target_tick ≡ tick))
          (λ c. c.ingress_seq < next) (λ c h. omega (arith, h.0)) (s.scheduled_inputs tick)
          (q.numbered tick))

  older :
      (next : ℕ)
      → s.next_ingress_seq < next
      → (t : ℕ) → All (λ c. (c.ingress_seq ≤ next) × (c.target_tick ≡ t)) (s.scheduled_inputs t)
  older next lt t =
      All-imp (λ c. (c.ingress_seq ≤ s.next_ingress_seq) × (c.target_tick ≡ t))
        (λ c. (c.ingress_seq ≤ next) × (c.target_tick ≡ t)) (λ c h. (omega (arith, h.0), h.1))
        (s.scheduled_inputs t) (q.numbered t)

  appended_numbered :
      (next : ℕ)
      → s.next_ingress_seq < next
      → All (λ c. (c.ingress_seq ≤ next) × (c.target_tick ≡ tick)) (appended next)
  unfolding appended
  appended_numbered next lt =
      All-append (λ c. (c.ingress_seq ≤ next) × (c.target_tick ≡ tick)) (s.scheduled_inputs tick)
        (stamped command next tick ∷ []) (older next lt tick) ((omega arith, refl), tt)

  enqueue-IsQueue :
      (now : ℕ)
      → s.next_ingress_seq + 1 < 18446744073709551616
      → Accepted s command tick
      → IsQueue (enqueue s command now tick)
  unfolding enqueue appended
  enqueue-IsQueue now fits ok =
      let next = u64 (s.next_ingress_seq + 1) in
      let lt : s.next_ingress_seq < next = ground arith in
      record {
        ordered = λ t. elim (Bool-cases (t == tick)) [
          | inl same ↦ rw same (appended-Ascending next lt)
          | inr other ↦ rw other (q.ordered t)
        ];
        numbered = λ t. elim (Bool-cases (t == tick)) [
          | inl same ↦
              let e : t ≡ tick = ground arith in rw (e, ==_refl tick) (appended_numbered next lt)
          | inr other ↦ rw other (older next lt t)
        ];
        limited = λ t p.
            pruned_limit _ s.tick_id t p
              (ground (arith, q.limited t p, q.limited s.tick_id p, ok.below_limit));
      }

-- Whether a command is accepted or refused, the queue stays a queue, as long as its numbers fit in 64
-- bits.
pub submit_input-IsQueue :
    (s : MatchSession) (command : InputCommand) (now : ℕ)
    → s.next_ingress_seq + 1 < 18446744073709551616
    → IsQueue s
    → IsQueue (submit_input s command now).0
submit_input-IsQueue s command now fits q = elim (submit_input-Submitted s command now) [
  | inl (e, r) ↦ rw r q
  | inr (tick, ok, r) ↦ rw r (enqueue-IsQueue s command tick q now fits ok)
]
