-- ===== src/InputQueue.antt =====
-- internal/server/game/input_queue.go: commands are queued for a tick to come, and consumed in it.
-- `SubmitInput` is modelled from the check on the status on, for a command whose player id is trimmed
-- and whose payload is found valid.
pub mod Schedule
pub mod Order
pub mod Intake
use prison_break.Shared.{
  ℕ, ◌+◌, ◌-◌, Bool, true, false, not, List, [], ◌∷◌, ◌++◌, Option, none, some, Text, codes,
  text_eq, text_lt, any, ltb, leb, ◌==◌, sort_by, u8, u64, if◌then◌else◌,
}
use prison_break.Session.{MatchSession, PlayerSession, ReplayEntry, is_member}
use prison_break.Model.{MatchStatus, PlayerId, InputCommand, InputCommandType}
use prison_break.Model.Kinds.{is_running}

abbrev pub cmd_move_intent : InputCommandType
cmd_move_intent = codes "move_intent"

abbrev pub cmd_aim_intent : InputCommandType
cmd_aim_intent = codes "aim_intent"

abbrev pub cmd_interact : InputCommandType
cmd_interact = codes "interact"

abbrev pub cmd_use_ability : InputCommandType
cmd_use_ability = codes "use_ability"

abbrev pub cmd_use_card : InputCommandType
cmd_use_card = codes "use_card"

abbrev pub cmd_use_item : InputCommandType
cmd_use_item = codes "use_item"

abbrev pub cmd_black_market_buy : InputCommandType
cmd_black_market_buy = codes "black_market_buy"

abbrev pub cmd_fire_weapon : InputCommandType
cmd_fire_weapon = codes "fire_weapon"

abbrev pub cmd_equip_item : InputCommandType
cmd_equip_item = codes "equip_item"

abbrev pub cmd_reload : InputCommandType
cmd_reload = codes "reload"

abbrev pub cmd_drop_item : InputCommandType
cmd_drop_item = codes "drop_item"

abbrev pub cmd_craft_item : InputCommandType
cmd_craft_item = codes "craft_item"

abbrev pub max_accepted_commands_per_player_per_tick : ℕ
max_accepted_commands_per_player_per_tick = 8

pub data InputError : Type 0 where
  match_not_running player_mismatch duplicate_input rate_limited too_late_dropped : InputError

unfoldable pub is_supported_input_command : InputCommandType → Bool
is_supported_input_command type =
    any (λ c. text_eq c type)
      (cmd_move_intent ∷ cmd_aim_intent ∷ cmd_interact ∷ cmd_use_ability ∷ cmd_use_card
        ∷ cmd_use_item ∷ cmd_black_market_buy ∷ cmd_fire_weapon ∷ cmd_equip_item ∷ cmd_reload
        ∷ cmd_drop_item ∷ cmd_craft_item ∷ [])

unfoldable pub is_continuous_input : InputCommandType → Bool
is_continuous_input type = any (λ c. text_eq c type) (cmd_move_intent ∷ cmd_aim_intent ∷ [])

-- `none` for a command that comes too late.
unfoldable pub compute_scheduled_tick : ℕ → ℕ → InputCommandType → Option ℕ
compute_scheduled_tick current requested type =
    let earliest = u64 (current + 1) in
    let latest = u64 (current + 2) in
    if requested == 0
    then some earliest
    else if ltb requested current
    then (if is_continuous_input type then some earliest else none)
    else if ltb requested earliest
    then some earliest
    else if ltb latest requested
    then some latest
    else some requested

-- The maps after a write at a key.
abbrev pub at_tick {ℓ} : {A : Type ℓ} → (ℕ → A) → ℕ → A → ℕ → A
at_tick f tick value t = if t == tick then value else f t

abbrev pub at_player {ℓ} : {A : Type ℓ} → (PlayerId → A) → PlayerId → A → PlayerId → A
at_player f player value p = if text_eq p player then value else f p

unfoldable pub prune_rate_windows : (ℕ → PlayerId → ℕ) → ℕ → ℕ → PlayerId → ℕ
prune_rate_windows accepted current tick player =
    if leb current 3
    then accepted tick player
    else if ltb tick (current - 3)
    then 0
    else accepted tick player

-- The command as it is queued.
abbrev pub stamped : InputCommand → ℕ → ℕ → InputCommand
stamped command ingress tick = record command { ingress_seq = ingress; target_tick = tick }

-- The writes of `SubmitInput`, for a command that is scheduled for a tick.
unfoldable pub enqueue : MatchSession → InputCommand → ℕ → ℕ → MatchSession
enqueue session command now tick =
    let ingress = u64 (session.next_ingress_seq + 1) in
    let queued = stamped command ingress tick in
    let window = session.accepted_by_tick session.tick_id in
    let counted = at_player window command.player_id (u8 (window command.player_id + 1)) in
    record session {
      next_ingress_seq = ingress;
      scheduled_inputs =
          at_tick session.scheduled_inputs tick (session.scheduled_inputs tick ++ queued ∷ []);
      replay_entries =
          session.replay_entries
          ++ record {
            accepted_tick = tick;
            entry_ingress_seq = ingress;
            accepted_at = now;
            command = queued;
          }
            ∷ [];
      seen_client_seq =
          at_player session.seen_client_seq command.player_id
            (at_tick (session.seen_client_seq command.player_id) command.client_seq true);
      accepted_by_tick =
          prune_rate_windows (at_tick session.accepted_by_tick session.tick_id counted)
            session.tick_id;
    }

unfoldable pub schedule :
    MatchSession → InputCommand → ℕ → Option ℕ → MatchSession × Option InputError
schedule session command now none = (session, some too_late_dropped)
schedule session command now (some tick) = (enqueue session command now tick, none)

-- `SubmitInput` on the session of the match: the session, and the error if there is one.
unfoldable pub submit_input : MatchSession → InputCommand → ℕ → MatchSession × Option InputError
submit_input session command now =
    if not (is_running session.status)
    then (session, some match_not_running)
    else if not (is_member command.player_id session.players)
    then (session, some player_mismatch)
    else if session.seen_client_seq command.player_id command.client_seq
    then (session, some duplicate_input)
    else if leb max_accepted_commands_per_player_per_tick
        (session.accepted_by_tick session.tick_id command.player_id)
    then (session, some rate_limited)
    else schedule session command now
        (compute_scheduled_tick session.tick_id command.target_tick command.type)

-- The order of `sortInputCommands`.
unfoldable pub command_lt : InputCommand → InputCommand → Bool
command_lt left right =
    if not (left.ingress_seq == right.ingress_seq)
    then ltb left.ingress_seq right.ingress_seq
    else if not (text_eq left.player_id right.player_id)
    then text_lt left.player_id right.player_id
    else if not (left.client_seq == right.client_seq)
    then ltb left.client_seq right.client_seq
    else if not (text_eq left.type right.type)
    then text_lt left.type right.type
    else text_lt left.payload right.payload

unfoldable pub sort_input_commands : List InputCommand → List InputCommand
sort_input_commands commands = sort_by command_lt commands

-- `ConsumeScheduledInputs` on the session of the match: the session, and the commands.
unfoldable pub consume_scheduled_inputs : MatchSession → ℕ → MatchSession × List InputCommand
consume_scheduled_inputs session tick = (
  record session { scheduled_inputs = at_tick session.scheduled_inputs tick [] },
  sort_input_commands (session.scheduled_inputs tick),
)
