-- ===== src/Snapshots/Refines.antt =====
-- A client that takes the changes of each tick has the state of the server.
use prison_break.Shared.{
  ℕ, ◌<◌, ◌≡◌, refl, sym, ap, ◌∙◌, Bool, true, false, not, ◌||◌, List, [], ◌∷◌, Option, none, some,
  arith, text_eq, text_lt, any, keep, length, ltb, leb, ◌==◌, Bool-cases, inl, inr, Ascending,
}
use prison_break.Model.{GameState, PlayerState, EntityState, DoorState, CellState, ZoneState}
use prison_break.Snapshots.{
  GameDelta, Snapshot, SnapshotStore, SnapshotKind, full, delta, other_kind, upsert, remove_ids,
  apply_delta, apply_snapshot, take_delta, take_full, meta_of, sent_or, sent_or_old, upsert_players,
  remove_players, upsert_entities, remove_entities, upsert_doors, upsert_cells, upsert_zones,
}
use prison_break.Snapshots.Agreement.{text_order, number_order, Covers, upsert-reaches}

-- The lists of a state are in the order of their ids, each of which occurs once.
pub record SortedState (s : GameState) : Type 0 where
  pub players : Ascending text_lt (λ p. p.id) s.players
  pub entities : Ascending ltb (λ e. e.id) s.entities
  pub doors : Ascending ltb (λ d. d.id) s.map.doors
  pub cells : Ascending ltb (λ c. c.id) s.map.cells
  pub zones : Ascending ltb (λ z. z.id) s.map.restricted_zones

-- The changes are those between two states: each list is covered, each other field is sent or the same.
pub record Spans (old new : GameState) (d : GameDelta) : Type 0 where
  pub same_match : old.match_id ≡ new.match_id
  pub players :
      Covers text_lt text_order
        (λ p. p.id)
        old.players
        new.players
        d.changed_players
        (λ k. any (λ id. text_eq id k) d.removed_player_ids)
  pub entities :
      Covers ltb number_order
        (λ e. e.id)
        old.entities
        new.entities
        d.changed_entities
        (λ k. any (λ id. id == k) d.removed_entity_ids)
  pub doors :
      Covers ltb number_order (λ x. x.id) old.map.doors new.map.doors d.changed_doors (λ k. false)
  pub cells :
      Covers ltb number_order (λ x. x.id) old.map.cells new.map.cells d.changed_cells (λ k. false)
  pub zones :
      Covers ltb number_order
        (λ x. x.id)
        old.map.restricted_zones
        new.map.restricted_zones
        d.changed_zones
        (λ k. false)
  pub phase : sent_or d.phase old.phase ≡ new.phase
  pub status : sent_or d.status old.status ≡ new.status
  pub cycle_count : sent_or d.cycle_count old.cycle_count ≡ new.cycle_count
  pub power_on : sent_or d.power_on old.map.power_on ≡ new.map.power_on
  pub alarm : sent_or d.alarm old.map.alarm ≡ new.map.alarm
  pub black_market :
      sent_or d.black_market_room_id old.map.black_market_room_id ≡ new.map.black_market_room_id
  pub game_over : sent_or_old d.game_over old.game_over ≡ new.game_over

keep-all : {A : Type 0} (xs : List A) → keep (λ a. true) xs ≡ xs
keep-all [] = refl
keep-all (x ∷ xs) = ap (λ ys. x ∷ ys) (keep-all xs)

remove_ids_lem :
    {K A : Type 0} (same : K → K → Bool) (key : A → K) (xs : List A) (removed : List K)
    → remove_ids same key xs removed ≡ keep (λ a. not (any (λ id. same id (key a)) removed)) xs
unfolding remove_ids
remove_ids_lem same key xs [] = sym (keep-all xs)
remove_ids_lem same key [] (id ∷ removed) = ground arith
remove_ids_lem same key (x ∷ xs) (id ∷ removed) =
    let some_there : (length (id ∷ removed) == 0 || length (x ∷ xs) == 0) ≡ false = ground arith in
    rw some_there refl

-- Without removals.
upsert_only :
    {A : Type 0} (key : A → ℕ) (old new changed : List A)
    → Ascending ltb key old
    → Ascending ltb key new
    → Covers ltb number_order key old new changed (λ k. false)
    → upsert ltb key old changed ≡ new
upsert_only key old new changed h k c =
    sym (keep-all (upsert ltb key old changed))
    ∙ upsert-reaches ltb number_order key old new changed (λ k. false) h k c

-- The changes take the one state to the other, up to the tick.
apply_delta-reaches :
    (old new : GameState) (d : GameDelta)
    → SortedState old
    → SortedState new
    → Spans old new d
    → record (apply_delta old d) { tick_id = new.tick_id } ≡ new
unfolding apply_delta upsert_players remove_players upsert_entities remove_entities upsert_doors
    upsert_cells upsert_zones
apply_delta-reaches old new d h k c =
    let players =
      remove_ids_lem text_eq (λ (p : PlayerState). p.id)
        (upsert text_lt (λ p. p.id) old.players d.changed_players) d.removed_player_ids
      ∙ upsert-reaches text_lt text_order (λ p. p.id) old.players new.players d.changed_players _
          h.players k.players c.players in
    let entities =
      remove_ids_lem (λ a b. a == b) (λ (e : EntityState). e.id)
        (upsert ltb (λ e. e.id) old.entities d.changed_entities) d.removed_entity_ids
      ∙ upsert-reaches ltb number_order (λ e. e.id) old.entities new.entities d.changed_entities _
          h.entities k.entities c.entities in
    let doors = upsert_only (λ (x : DoorState). x.id) _ _ _ h.doors k.doors c.doors in
    let cells = upsert_only (λ (x : CellState). x.id) _ _ _ h.cells k.cells c.cells in
    let zones = upsert_only (λ (x : ZoneState). x.id) _ _ _ h.zones k.zones c.zones in
    rw
      (
        players, entities, doors, cells, zones, c.same_match, c.phase, c.status, c.cycle_count,
        c.power_on, c.alarm, c.black_market, c.game_over,
      )
      refl

-- A client that has the state of the server at a tick, and is sent the changes from it to a state of a later
-- tick, has that state, with the acknowledgements that were sent.
pub apply_snapshot-agrees :
    (store : SnapshotStore) (snapshot : Snapshot) (d : GameDelta) (old new : GameState)
    → snapshot.kind ≡ delta
    → snapshot.changes ≡ some d
    → store.state ≡ some old
    → snapshot.tick_id ≡ new.tick_id
    → old.tick_id < new.tick_id
    → SortedState old
    → SortedState new
    → Spans old new d
    → apply_snapshot store snapshot
      ≡ (record { state = some new; meta = some (meta_of snapshot) }, true)
unfolding apply_snapshot take_delta
apply_snapshot-agrees store snapshot d old new kind changes state tick later h k c =
    let fresh : leb new.tick_id old.tick_id ≡ false = ground arith in
    rw (kind, changes, state, tick, fresh, apply_delta-reaches old new d h k c) refl

take_full_lem :
    (store : SnapshotStore) (snapshot : Snapshot) (o : Option GameState)
    → (take_full store snapshot o).1 ≡ false
    → (take_full store snapshot o).0 ≡ store
unfolding take_full
take_full_lem store snapshot none h = refl
take_full_lem store snapshot (some s) h = cc

take_delta_lem :
    (store : SnapshotStore) (snapshot : Snapshot) (d : Option GameDelta) (o : Option GameState)
    → let r = take_delta store snapshot d o in
      (r.1 ≡ false → r.0 ≡ store)
      × (r.1 ≡ true
          → (old : GameState) × (new : GameState) × (o ≡ some old)
            × (r.0.state ≡ some new)
            × (old.tick_id < new.tick_id)
            × (new.tick_id ≡ snapshot.tick_id))
unfolding take_delta
take_delta_lem store snapshot none o = (λ h. refl, λ h. cc)
take_delta_lem store snapshot (some d) none = (λ h. refl, λ h. cc)
take_delta_lem store snapshot (some d) (some s) =
    elim (Bool-cases (leb snapshot.tick_id s.tick_id)) [
      | inl stale ↦ rw stale (λ h. refl, λ h. cc)
      | inr later ↦ rw later (λ h. cc, λ h. (s, _, refl, refl, ground arith, refl))
    ]

-- A snapshot that is refused changes nothing; one with changes that is taken is later than the state that
-- the client had, and the client has its tick then.
pub apply_snapshot-later :
    (store : SnapshotStore) (snapshot : Snapshot)
    → let r = apply_snapshot store snapshot in
      (r.1 ≡ false → r.0 ≡ store)
      × (snapshot.kind ≡ delta
          → r.1 ≡ true
          → (old : GameState) × (new : GameState) × (store.state ≡ some old)
            × (r.0.state ≡ some new)
            × (old.tick_id < new.tick_id)
            × (new.tick_id ≡ snapshot.tick_id))
unfolding apply_snapshot take_full take_delta
apply_snapshot-later store snapshot = by_kind snapshot.kind refl
  where
    by_kind :
        (kind : SnapshotKind)
        → snapshot.kind ≡ kind
        → let r = apply_snapshot store snapshot in
          (r.1 ≡ false → r.0 ≡ store)
          × (snapshot.kind ≡ delta
              → r.1 ≡ true
              → (old : GameState) × (new : GameState) × (store.state ≡ some old)
                × (r.0.state ≡ some new)
                × (old.tick_id < new.tick_id)
                × (new.tick_id ≡ snapshot.tick_id))
    by_kind full e = rw e (take_full_lem store snapshot snapshot.state, λ h. cc)
    by_kind delta e =
        let r = take_delta_lem store snapshot snapshot.changes store.state in rw e (r.0, λ h. r.1)
    by_kind other_kind e = rw e (λ h. refl, λ h k. cc)
