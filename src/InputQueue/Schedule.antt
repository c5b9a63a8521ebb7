-- ===== src/InputQueue/Schedule.antt =====
-- When a command is executed, and which commands are refused.
use prison_break.Shared.{
  ℕ, ◌+◌, ◌≤◌, ◌<◌, ◌≡◌, ◌↔◌, ◌⊎◌, refl, true, false, Option, none, some, arith, inl, inr, text_eq,
  text_eq_refl, leb, Bool-cases,
}
use prison_break.Model.{InputCommand, InputCommandType}
use prison_break.Model.Kinds.{is_running}
use prison_break.Session.{MatchSession, is_member}
use prison_break.InputQueue.{
  compute_scheduled_tick, is_continuous_input, submit_input, schedule, enqueue, InputError,
  match_not_running, player_mismatch, duplicate_input, rate_limited, too_late_dropped,
}

-- As long as the ticks fit in 64 bits, a command is dropped exactly when it asks for a tick that is
-- past, 0 aside, and is not one of the continuous kind; any other is executed in one of the next two
-- ticks, and in the tick that it asks for if that is one of them.
pub compute_scheduled_tick-window :
    (current requested : ℕ) (type : InputCommandType)
    → current + 2 < 18446744073709551616
    → ((compute_scheduled_tick current requested type ≡ none)
        ↔ ((0 < requested) × (requested < current) × (is_continuous_input type ≡ false)))
      × ((t : ℕ)
          → compute_scheduled_tick current requested type ≡ some t
          → (current < t)
            × (t ≤ current + 2)
            × (current < requested → requested ≤ current + 2 → t ≡ requested))
unfolding compute_scheduled_tick
compute_scheduled_tick-window current requested type fits = (ground arith, λ t e. ground arith)

-- The conditions under which a command is queued for a tick.
pub record Accepted (session : MatchSession) (command : InputCommand) (tick : ℕ) : Type 0 where
  pub started : is_running session.status ≡ true
  pub member : is_member command.player_id session.players ≡ true
  pub fresh : session.seen_client_seq command.player_id command.client_seq ≡ false
  pub below_limit : session.accepted_by_tick session.tick_id command.player_id < 8
  pub scheduled :
      compute_scheduled_tick session.tick_id command.target_tick command.type ≡ some tick

abbrev pub Submitted : MatchSession → InputCommand → ℕ → MatchSession × Option InputError → Type 0
Submitted session command now r =
    ((e : InputError) × (r ≡ (session, some e)))
    ⊎ ((tick : ℕ) × Accepted session command tick × (r ≡ (enqueue session command now tick, none)))

schedule-Submitted :
    (session : MatchSession) (command : InputCommand) (now : ℕ) (o : Option ℕ)
    → ((tick : ℕ) → o ≡ some tick → Accepted session command tick)
    → Submitted session command now (schedule session command now o)
unfolding schedule
schedule-Submitted session command now none ready = inl (too_late_dropped, refl)
schedule-Submitted session command now (some tick) ready = inr (tick, ready tick refl, refl)

-- A command is refused, and the session left as it is, or it is queued, under all the conditions.
pub submit_input-Submitted :
    (session : MatchSession) (command : InputCommand) (now : ℕ)
    → Submitted session command now (submit_input session command now)
unfolding submit_input
submit_input-Submitted session command now = elim (Bool-cases (is_running session.status)) [
  | inr e ↦ rw e (inl (match_not_running, refl))
  | inl run ↦ elim (Bool-cases (is_member command.player_id session.players)) [
    | inr e ↦ rw (run, e) (inl (player_mismatch, refl))
    | inl mem ↦ elim (Bool-cases (session.seen_client_seq command.player_id command.client_seq)) [
      | inl e ↦ rw (run, mem, e) (inl (duplicate_input, refl))
      | inr new ↦
          let count = session.accepted_by_tick session.tick_id command.player_id in
          elim (Bool-cases (leb 8 count)) [
            | inl e ↦ rw (run, mem, new, e) (inl (rate_limited, refl))
            | inr few ↦
                rw (run, mem, new, few)
                  (schedule-Submitted session command now _ (λ tick e. record {
                    started = run;
                    member = mem;
                    fresh = new;
                    below_limit = ground arith;
                    scheduled = e;
                  }))
          ]
    ]
  ]
]

resent :
    (session : MatchSession) (command again : InputCommand) (now later tick : ℕ)
    → again.player_id ≡ command.player_id
    → again.client_seq ≡ command.client_seq
    → Accepted session command tick
    → let after = enqueue session command now tick in
      submit_input after again later ≡ (after, some duplicate_input)
unfolding submit_input enqueue
resent session command again now later tick same_player same_seq ok =
    let known : text_eq command.player_id command.player_id ≡ true =
      text_eq_refl command.player_id in
    rw (same_player, same_seq, ok.started, ok.member, known) (ground arith)

-- A command that is accepted is refused as a duplicate when it is sent again at once, whatever of it
-- but the player and the number of the client has changed, and this leaves the session as it is.
pub submit_input-once :
    (session : MatchSession) (command again : InputCommand) (now later : ℕ)
    → again.player_id ≡ command.player_id
    → again.client_seq ≡ command.client_seq
    → (submit_input session command now).1 ≡ none
    → let after = (submit_input session command now).0 in
      submit_input after again later ≡ (after, some duplicate_input)
submit_input-once session command again now later same_player same_seq accepted =
    elim (submit_input-Submitted session command now) [
      | inl (e, r) ↦ cc
      | inr (tick, ok, r) ↦
          rw r (resent session command again now later tick same_player same_seq ok)
    ]
