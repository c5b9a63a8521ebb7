-- ===== src/Model/Zero.antt =====
-- The zero values of Go, from which the examples build their states.
use prison_break.Shared.{false, [], none}
use prison_break.Model.{
  Vector2, PhaseState, AlarmState, EscapeAttemptFeedback, ActionFeedback, PlayerState, MapState,
  EntityState, GameState, MatchStatus, PhaseType, FactionType, AlignmentType, RoleType, EntityKind,
}

abbrev pub zero_vector : Vector2
zero_vector = record { x = 0; y = 0 }

abbrev pub zero_alarm : AlarmState
zero_alarm = record { active = false; ends_tick = 0; triggered_by = [] }

abbrev pub zero_attempt : EscapeAttemptFeedback
zero_attempt = record { route = []; status = []; reason = []; tick_id = 0 }

abbrev pub zero_feedback : ActionFeedback
zero_feedback = record { kind = []; level = []; message = []; tick_id = 0 }

abbrev pub zero_player : PlayerState
zero_player = record {
  id = [];
  name = [];
  connected = false;
  alive = false;
  faction = FactionType.no_faction;
  alignment = AlignmentType.no_alignment;
  role = RoleType.no_role;
  hearts_half = 0;
  temp_hearts_half = 0;
  bullets = 0;
  lives_remaining = 0;
  equipped_item = [];
  inventory_slots = 0;
  position = zero_vector;
  velocity = zero_vector;
  facing = zero_vector;
  current_room_id = [];
  assigned_cell = 0;
  locked_in_cell = 0;
  assigned_ability = [];
  stunned_until_tick = 0;
  solitary_until_tick = 0;
  inventory = [];
  cards = [];
  night_card_choices = [];
  effects = [];
  last_escape_attempt = zero_attempt;
  last_action_feedback = zero_feedback;
}

abbrev pub zero_map : MapState
zero_map = record {
  power_on = false;
  alarm = zero_alarm;
  black_market_room_id = [];
  doors = [];
  cells = [];
  restricted_zones = [];
}

abbrev pub zero_entity : EntityState
zero_entity = record {
  id = 0;
  kind = EntityKind.no_kind;
  owner_player_id = [];
  position = zero_vector;
  velocity = zero_vector;
  hearts_half = 0;
  active = false;
  room_id = [];
  tags = [];
}

abbrev pub zero_phase : PhaseState
zero_phase = record { current = PhaseType.no_phase; started_tick = 0; ends_tick = 0 }

abbrev pub zero_state : GameState
zero_state = record {
  match_id = [];
  tick_id = 0;
  status = MatchStatus.no_status;
  cycle_count = 0;
  phase = zero_phase;
  map = zero_map;
  players = [];
  entities = [];
  game_over = none;
}
