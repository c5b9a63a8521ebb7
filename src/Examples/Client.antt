-- ===== src/Examples/Client.antt =====
-- A client that takes the opening of a door: client/netclient/snapshot_store.go.
use prison_break.Shared.{
  ◌<◌, ◌≡◌, refl, sym, ap, arith, true, false, none, some, [], ◌∷◌, codes, inl, inr, KeyOrder, Bool,
}
use prison_break.Model.{GameState, DoorState}
use prison_break.Model.Zero.{zero_state}
use prison_break.Snapshots.{GameDelta, Snapshot, SnapshotStore, delta, apply_snapshot, meta_of}
use prison_break.Snapshots.Agreement.{Covers}
use prison_break.Snapshots.Refines.{SortedState, Spans, apply_snapshot-agrees, apply_snapshot-later}

abbrev shut_door : DoorState
shut_door = record {
  id = 7;
  room_a = codes "cafeteria";
  room_b = codes "corridor_main";
  is_open = false;
  locked = false;
  can_close = true;
  blocked_until_tick = 0;
  locked_by_player_id = [];
}

abbrev open_door : DoorState
open_door = record shut_door { is_open = true }

abbrev before : GameState
before = record zero_state { tick_id = 4; map = record zero_state.map { doors = shut_door ∷ [] } }

abbrev after : GameState
after = record zero_state {
  tick_id = 5;
  cycle_count = 2;
  map = record zero_state.map { doors = open_door ∷ [] };
}

abbrev opening : GameDelta
opening = record {
  changed_players = [];
  removed_player_ids = [];
  changed_entities = [];
  removed_entity_ids = [];
  changed_doors = open_door ∷ [];
  changed_cells = [];
  changed_zones = [];
  phase = none;
  status = none;
  cycle_count = some 2;
  power_on = none;
  alarm = none;
  black_market_room_id = none;
  game_over = none;
}

abbrev news : Snapshot
news = record {
  kind = delta;
  tick_id = 5;
  base_tick_id = 4;
  state = none;
  changes = some opening;
  player_acks = [];
}

abbrev client : SnapshotStore
client = record { state = some before; meta = none }

empty_covered :
    {K A : Type 0} (lt : K → K → Bool) (o : KeyOrder lt) (key : A → K) (is_removed : K → Bool)
    → Covers lt o key [] [] [] is_removed
empty_covered lt o key is_removed = record {
  sent = λ z i. i;
  needed = λ z i. absurd i;
  present = λ z i. absurd i;
  gone = λ z i. absurd i;
}

spanned : Spans before after opening
spanned = record {
  same_match = refl;
  players = empty_covered _ _ _ _;
  entities = empty_covered _ _ _ _;
  doors = record {
    sent = λ z i. i;
    needed = λ z i. inr i;
    present = λ z i. refl;
    gone = λ z i. elim i [
      | inl e ↦ inr (open_door, inl refl, ap (λ (d : DoorState). d.id) (sym e))
      | inr e ↦ absurd e
    ];
  };
  cells = empty_covered _ _ _ _;
  zones = empty_covered _ _ _ _;
  phase = refl;
  status = refl;
  cycle_count = refl;
  power_on = refl;
  alarm = refl;
  black_market = refl;
  game_over = refl;
}

before-SortedState : SortedState before
before-SortedState = record {
  players = tt;
  entities = tt;
  doors = (tt, tt);
  cells = tt;
  zones = tt;
}

after-SortedState : SortedState after
after-SortedState = record { players = tt; entities = tt; doors = (tt, tt); cells = tt; zones = tt }

apply_snapshot-agrees_example :
    apply_snapshot client news ≡ (record { state = some after; meta = some (meta_of news) }, true)
apply_snapshot-agrees_example =
    apply_snapshot-agrees client news opening before after refl refl refl refl (omega arith)
      before-SortedState after-SortedState spanned

apply_snapshot-later_example :
    let r = apply_snapshot client news in
    (r.1 ≡ false → r.0 ≡ client)
    × (news.kind ≡ delta
        → r.1 ≡ true
        → (old : GameState) × (new : GameState) × (client.state ≡ some old)
          × (r.0.state ≡ some new)
          × (old.tick_id < new.tick_id)
          × (new.tick_id ≡ news.tick_id))
apply_snapshot-later_example = apply_snapshot-later client news
