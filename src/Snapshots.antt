-- ===== src/Snapshots.antt =====
-- internal/client/netclient/snapshot_store.go: the state of the match on a client, which takes full
-- snapshots and changes. A map by id that is read back in the order of the ids is the list of its entries
-- in that order; a copy is the value.
pub mod Agreement
pub mod Refines
use prison_break.Shared.{
  ℕ, Bool, true, false, not, List, [], ◌∷◌, Option, none, some, text_eq, text_lt, any, keep, length,
  ltb, leb, ◌==◌, ◌||◌, if◌then◌else◌, put_entry, put_all,
}
use prison_break.Model.{
  GameState, MapState, PlayerState, PlayerId, EntityState, EntityId, DoorState, CellState,
  ZoneState, PhaseState, MatchStatus, AlarmState, RoomId, GameOverState,
}

pub record PlayerAck : Type 0 where
  pub player_id : PlayerId
  pub last_processed_client_seq : ℕ

pub data SnapshotKind : Type 0 where
  full delta other_kind : SnapshotKind

pub record GameDelta : Type 0 where
  pub changed_players : List PlayerState
  pub removed_player_ids : List PlayerId
  pub changed_entities : List EntityState
  pub removed_entity_ids : List EntityId
  pub changed_doors : List DoorState
  pub changed_cells : List CellState
  pub changed_zones : List ZoneState
  pub phase : Option PhaseState
  pub status : Option MatchStatus
  pub cycle_count : Option ℕ
  pub power_on : Option Bool
  pub alarm : Option AlarmState
  pub black_market_room_id : Option RoomId
  pub game_over : Option GameOverState

pub record Snapshot : Type 0 where
  pub kind : SnapshotKind
  pub tick_id : ℕ
  pub base_tick_id : ℕ
  pub state : Option GameState
  pub changes : Option GameDelta
  pub player_acks : List PlayerAck

pub record SnapshotMeta : Type 0 where
  pub tick_id : ℕ
  pub player_acks : List PlayerAck

pub record SnapshotStore : Type 0 where
  pub state : Option GameState
  pub meta : Option SnapshotMeta

-- The body that the five functions for changed entries share: the entries by id, then in order.
unfoldable pub upsert : {K A : Type 0} → (K → K → Bool) → (A → K) → List A → List A → List A
upsert lt key existing changed =
    if length changed == 0 then existing else put_all lt key changed (put_all lt key existing [])

-- The body that the two functions for removed entries share, with the test for a removed id.
unfoldable pub remove_ids : {K A : Type 0} → (K → K → Bool) → (A → K) → List A → List K → List A
remove_ids same key existing removed =
    if length removed == 0 || length existing == 0
    then existing
    else keep (λ a. not (any (λ id. same id (key a)) removed)) existing

unfoldable pub upsert_players : List PlayerState → List PlayerState → List PlayerState
upsert_players = upsert text_lt (λ p. p.id)

unfoldable pub remove_players : List PlayerState → List PlayerId → List PlayerState
remove_players = remove_ids text_eq (λ p. p.id)

unfoldable pub upsert_entities : List EntityState → List EntityState → List EntityState
upsert_entities = upsert ltb (λ e. e.id)

unfoldable pub remove_entities : List EntityState → List EntityId → List EntityState
remove_entities = remove_ids (λ a b. a == b) (λ e. e.id)

unfoldable pub upsert_doors : List DoorState → List DoorState → List DoorState
upsert_doors = upsert ltb (λ d. d.id)

unfoldable pub upsert_cells : List CellState → List CellState → List CellState
upsert_cells = upsert ltb (λ c. c.id)

unfoldable pub upsert_zones : List ZoneState → List ZoneState → List ZoneState
upsert_zones = upsert ltb (λ z. z.id)

-- A field that is sent where it has changed.
abbrev pub sent_or : {A : Type 0} → Option A → A → A
sent_or none old = old
sent_or (some new) old = new

-- An optional field of which only a value is sent.
abbrev pub sent_or_old : {A : Type 0} → Option A → Option A → Option A
sent_or_old none old = old
sent_or_old (some new) old = some new

unfoldable pub apply_delta : GameState → GameDelta → GameState
apply_delta state d = record state {
  players = remove_players (upsert_players state.players d.changed_players) d.removed_player_ids;
  entities =
      remove_entities (upsert_entities state.entities d.changed_entities) d.removed_entity_ids;
  map = record state.map {
    doors = upsert_doors state.map.doors d.changed_doors;
    cells = upsert_cells state.map.cells d.changed_cells;
    restricted_zones = upsert_zones state.map.restricted_zones d.changed_zones;
    power_on = sent_or d.power_on state.map.power_on;
    alarm = sent_or d.alarm state.map.alarm;
    black_market_room_id = sent_or d.black_market_room_id state.map.black_market_room_id;
  };
  phase = sent_or d.phase state.phase;
  status = sent_or d.status state.status;
  cycle_count = sent_or d.cycle_count state.cycle_count;
  game_over = sent_or_old d.game_over state.game_over;
}

abbrev pub meta_of : Snapshot → SnapshotMeta
meta_of snapshot = record { tick_id = snapshot.tick_id; player_acks = snapshot.player_acks }

-- The case of a full snapshot.
unfoldable pub take_full : SnapshotStore → Snapshot → Option GameState → SnapshotStore × Bool
take_full store snapshot none = (store, false)
take_full store snapshot (some state) =
    (record { state = some state; meta = some (meta_of snapshot) }, true)

-- The case of a snapshot of changes.
unfoldable pub take_delta :
    SnapshotStore → Snapshot → Option GameDelta → Option GameState → SnapshotStore × Bool
take_delta store snapshot none state = (store, false)
take_delta store snapshot (some d) none = (store, false)
take_delta store snapshot (some d) (some state) =
    if leb snapshot.tick_id state.tick_id then (store, false) else (
      record {
        state = some (record (apply_delta state d) { tick_id = snapshot.tick_id });
        meta = some (meta_of snapshot);
      },
      true,
    )

unfoldable pub apply_snapshot : SnapshotStore → Snapshot → SnapshotStore × Bool
apply_snapshot store snapshot = elim snapshot.kind [
  | full ↦ take_full store snapshot snapshot.state
  | delta ↦ take_delta store snapshot snapshot.changes store.state
  | other_kind ↦ (store, false)
]

unfoldable pub current_state : SnapshotStore → Option GameState
current_state store = store.state

unfoldable pub latest_snapshot_meta : SnapshotStore → Option SnapshotMeta
latest_snapshot_meta store = store.meta
