-- ===== src/Model.antt =====
-- internal/shared/model/types.go and state.go: the types of the game state.
-- The string types of the wire (identifiers, items, cards, abilities, effects) are byte strings. The
-- closed enumerations are data types, whose last constructor stands for the zero value "". A
-- `float32` is its bit pattern, since nothing here computes with one; so is the `int16` of an entity.
pub mod Zero
pub mod Kinds
use prison_break.Shared.{ℕ, Bool, List, Option, Text}

abbrev pub MatchId : Type 0
MatchId = Text

abbrev pub PlayerId : Type 0
PlayerId = Text

abbrev pub RoomId : Type 0
RoomId = Text

abbrev pub EntityId : Type 0
EntityId = ℕ

abbrev pub DoorId : Type 0
DoorId = ℕ

abbrev pub CellId : Type 0
CellId = ℕ

abbrev pub ZoneId : Type 0
ZoneId = ℕ

abbrev pub ItemType : Type 0
ItemType = Text

abbrev pub CardType : Type 0
CardType = Text

abbrev pub AbilityType : Type 0
AbilityType = Text

abbrev pub EffectType : Type 0
EffectType = Text

abbrev pub InputCommandType : Type 0
InputCommandType = Text

abbrev pub Float32 : Type 0
Float32 = ℕ

pub data MatchStatus : Type 0 where
  lobby running game_over no_status : MatchStatus

pub data PhaseType : Type 0 where
  day night no_phase : PhaseType

pub data FactionType : Type 0 where
  authority prisoner neutral no_faction : FactionType

pub data AlignmentType : Type 0 where
  good evil neutral no_alignment : AlignmentType

pub data RoleType : Type 0 where
  warden deputy gang_leader gang_member snitch neutral_prisoner no_role : RoleType

pub data EntityKind : Type 0 where
  player npc_guard npc_prisoner projectile dropped_item door_proxy no_kind : EntityKind

pub data WinReason : Type 0 where
  max_cycles_reached warden_died gang_leader_escaped all_gang_members_dead : WinReason
  no_escapes_at_time_limit hitman_target_eliminated escape_artist_first_escape : WinReason
  no_reason : WinReason

pub record Vector2 : Type 0 where
  pub x : Float32
  pub y : Float32

pub record PhaseState : Type 0 where
  pub current : PhaseType
  pub started_tick : ℕ
  pub ends_tick : ℕ

pub record AlarmState : Type 0 where
  pub active : Bool
  pub ends_tick : ℕ
  pub triggered_by : PlayerId

pub record ItemStack : Type 0 where
  pub item : ItemType
  pub quantity : ℕ  -- uint8

pub record EffectState : Type 0 where
  pub effect : EffectType
  pub ends_tick : ℕ
  pub stacks : ℕ
  pub source_id : EntityId
  pub source_pid : PlayerId

pub record EscapeAttemptFeedback : Type 0 where
  pub route : Text
  pub status : Text
  pub reason : Text
  pub tick_id : ℕ

pub record ActionFeedback : Type 0 where
  pub kind : Text
  pub level : Text
  pub message : Text
  pub tick_id : ℕ

pub record PlayerState : Type 0 where
  pub id : PlayerId
  pub name : Text
  pub connected : Bool
  pub alive : Bool
  pub faction : FactionType
  pub alignment : AlignmentType
  pub role : RoleType
  pub hearts_half : ℕ
  pub temp_hearts_half : ℕ
  pub bullets : ℕ
  pub lives_remaining : ℕ
  pub equipped_item : ItemType
  pub inventory_slots : ℕ
  pub position : Vector2
  pub velocity : Vector2
  pub facing : Vector2
  pub current_room_id : RoomId
  pub assigned_cell : CellId
  pub locked_in_cell : CellId
  pub assigned_ability : AbilityType
  pub stunned_until_tick : ℕ
  pub solitary_until_tick : ℕ
  pub inventory : List ItemStack
  pub cards : List CardType
  pub night_card_choices : List CardType
  pub effects : List EffectState
  pub last_escape_attempt : EscapeAttemptFeedback
  pub last_action_feedback : ActionFeedback

pub record DoorState : Type 0 where
  pub id : DoorId
  pub room_a : RoomId
  pub room_b : RoomId
  pub is_open : Bool
  pub locked : Bool
  pub can_close : Bool
  pub blocked_until_tick : ℕ
  pub locked_by_player_id : PlayerId

pub record CellState : Type 0 where
  pub id : CellId
  pub owner_player_id : PlayerId
  pub door_id : DoorId
  pub occupant_player_ids : List PlayerId
  pub stash : List ItemStack

pub record ZoneState : Type 0 where
  pub id : ZoneId
  pub room_id : RoomId
  pub restricted : Bool
  pub name : Text

pub record MapState : Type 0 where
  pub power_on : Bool
  pub alarm : AlarmState
  pub black_market_room_id : RoomId
  pub doors : List DoorState
  pub cells : List CellState
  pub restricted_zones : List ZoneState

pub record EntityState : Type 0 where
  pub id : EntityId
  pub kind : EntityKind
  pub owner_player_id : PlayerId
  pub position : Vector2
  pub velocity : Vector2
  pub hearts_half : ℕ
  pub active : Bool
  pub room_id : RoomId
  pub tags : List Text

pub record GameOverState : Type 0 where
  pub reason : WinReason
  pub ended_tick : ℕ
  pub winner_player_ids : List PlayerId
  pub notes : Text

pub record GameState : Type 0 where
  pub match_id : MatchId
  pub tick_id : ℕ
  pub status : MatchStatus
  pub cycle_count : ℕ  -- uint8
  pub phase : PhaseState
  pub map : MapState
  pub players : List PlayerState
  pub entities : List EntityState
  pub game_over : Option GameOverState

-- internal/shared/model/input.go
pub record InputCommand : Type 0 where
  pub player_id : PlayerId
  pub client_seq : ℕ
  pub ingress_seq : ℕ
  pub target_tick : ℕ
  pub type : InputCommandType
  pub payload : Text
