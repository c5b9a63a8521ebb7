-- ===== src/Examples/Commands.antt =====
-- A queue with two commands: server/game/input_queue.go.
use prison_break.Shared.{
  ℕ, ◌+◌, ◌≤◌, ◌<◌, ◌≡◌, ◌≢◌, ◌↔◌, refl, false, none, some, [], ◌∷◌, codes, text_eq, arith,
}
use prison_break.Model.{InputCommand, PlayerId, running}
use prison_break.Session.{MatchSession}
use prison_break.InputQueue.{
  cmd_reload, cmd_move_intent, submit_input, compute_scheduled_tick, is_continuous_input,
  consume_scheduled_inputs, duplicate_input, schedule, enqueue,
}
use prison_break.InputQueue.Schedule.{compute_scheduled_tick-window, submit_input-once}
use prison_break.InputQueue.Intake.{Intake, start, submit, consume, pass, accepted, Intake-IsQueue}
use prison_break.InputQueue.Order.{
  Ascending, IsQueue, submit_input-IsQueue, consume_scheduled_inputs-in_order,
}

abbrev fresh : MatchSession
fresh = record {
  match_id = codes "match-000001";
  status = running;
  created_at = 5;
  started_at = some 8;
  ended_at = none;
  ended_reason = [];
  tick_id = 40;
  players =
      record { player_id = codes "p1"; name = codes "Ann"; joined_at = 6 }
      ∷ record { player_id = codes "p2"; name = codes "Ben"; joined_at = 7 }
      ∷ [];
  next_ingress_seq = 6;
  scheduled_inputs = λ t. [];
  seen_client_seq = λ p n. false;
  accepted_by_tick = λ t p. 0;
  replay_entries = [];
}

abbrev reload : InputCommand
reload = record {
  player_id = codes "p2";
  client_seq = 3;
  ingress_seq = 0;
  target_tick = 41;
  type = cmd_reload;
  payload = [];
}

fresh-IsQueue : IsQueue fresh
fresh-IsQueue = record { ordered = λ t. tt; numbered = λ t. tt; limited = λ t p. omega arith }

taken : (submit_input fresh reload 0).1 ≡ none
unfolding submit_input text_eq schedule compute_scheduled_tick
taken = refl

one_tick_later : (submit_input fresh reload 0).0.tick_id ≤ 41
unfolding submit_input schedule compute_scheduled_tick enqueue text_eq
one_tick_later = omega arith

submit_input-once_example :
    let after = (submit_input fresh reload 0).0 in
    submit_input after (record reload { target_tick = 42 }) 9 ≡ (after, some duplicate_input)
submit_input-once_example =
    submit_input-once fresh reload (record reload { target_tick = 42 }) 0 9 refl refl taken

-- A command is queued in tick 40, time passes, and the commands of tick 41 are consumed.
abbrev one_tick :
    Intake fresh
      (consume_scheduled_inputs (record (submit_input fresh reload 0).0 { tick_id = 41 }) 41).0
one_tick = consume 41 (pass 41 (submit reload 0 start (omega arith)) one_tick_later)

Intake-IsQueue_example :
    IsQueue
      (consume_scheduled_inputs (record (submit_input fresh reload 0).0 { tick_id = 41 }) 41).0
    × ((w : ℕ) (p : PlayerId) → fresh.accepted_by_tick w p + accepted one_tick w p ≤ 8)
Intake-IsQueue_example = Intake-IsQueue fresh-IsQueue one_tick

reload_counted : accepted one_tick 40 (codes "p2") ≡ 1
unfolding accepted submit_input text_eq schedule compute_scheduled_tick
reload_counted = refl

consume_scheduled_inputs-in_order_example :
    let s = (submit_input fresh reload 0).0 in
    let r = consume_scheduled_inputs s 41 in
    (r.1 ≡ s.scheduled_inputs 41)
    × Ascending r.1
    × (r.0.scheduled_inputs 41 ≡ [])
    × ((t : ℕ) → t ≢ 41 → r.0.scheduled_inputs t ≡ s.scheduled_inputs t)
consume_scheduled_inputs-in_order_example =
    consume_scheduled_inputs-in_order (submit_input fresh reload 0).0 41
      (submit_input-IsQueue fresh reload 0 (omega arith) fresh-IsQueue)

compute_scheduled_tick-window_example :
    ((compute_scheduled_tick 40 7 cmd_move_intent ≡ none)
      ↔ ((0 < 7) × (7 < 40) × (is_continuous_input cmd_move_intent ≡ false)))
    × ((t : ℕ)
        → compute_scheduled_tick 40 7 cmd_move_intent ≡ some t
        → (40 < t) × (t ≤ 40 + 2) × (40 < 7 → 7 ≤ 40 + 2 → t ≡ 7))
compute_scheduled_tick-window_example =
    compute_scheduled_tick-window 40 7 cmd_move_intent (omega arith)
