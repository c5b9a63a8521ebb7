-- ===== src/Actions/Stash.antt =====
-- manager.go: `applyCellStashInteractLocked`, from the action in lower case and without white space on.
pub mod Conserves
use prison_break.Shared.{
  ℕ, Bool, true, false, not, ◌&&◌, List, [], ◌∷◌, ◌++◌, Option, none, some, Text, codes, text_eq,
  ◌==◌, if◌then◌else◌, decimal,
}
use prison_break.Model.{PlayerState, PlayerId, CellState, CellId, ItemType, ItemStack}
use prison_break.Model.Zero.{zero_player}
use prison_break.GameMap.{room_cell_block_a}
use prison_break.Items.Inventory.{add_item, remove_item}
use prison_break.Actions.{PlaySession}
use prison_break.Actions.Market.{ensure_equipped_item, feedback_warning, feedback_success}

-- The first cell, or player, with the id.
unfoldable pub find_cell : CellId → List CellState → Option CellState
find_cell id [] = none
find_cell id (c ∷ cells) = let rest = find_cell id cells in if c.id == id then some c else rest

unfoldable pub find_player : PlayerId → List PlayerState → Option PlayerState
find_player id [] = none
find_player id (p ∷ players) =
    let rest = find_player id players in if text_eq p.id id then some p else rest

-- The writes through the pointers to them.
unfoldable pub put_cell : CellId → CellState → List CellState → List CellState
put_cell id v [] = []
put_cell id v (c ∷ cells) =
    let rest = put_cell id v cells in if c.id == id then v ∷ cells else c ∷ rest

unfoldable pub put_live : PlayerId → PlayerState → List PlayerState → List PlayerState
put_live id v [] = []
put_live id v (p ∷ players) =
    let rest = put_live id v players in if text_eq p.id id then v ∷ players else p ∷ rest

-- The player and the stash after an exchange, whether it was made, and the message for it.
pub record Exchange : Type 0 where
  pub live : PlayerState
  pub stash : List ItemStack
  pub made : Bool
  pub note : Text
  pub note_level : Text

abbrev pub stash_carrier : List ItemStack → PlayerState
stash_carrier stash = record zero_player { inventory = stash }

abbrev pub no_exchange : PlayerState → List ItemStack → Text → Exchange
no_exchange live stash note = record {
  live = live;
  stash = stash;
  made = false;
  note = note;
  note_level = feedback_warning;
}

abbrev pub exchanged : PlayerState → List ItemStack → Text → Exchange
exchanged live stash note = record {
  live = (ensure_equipped_item live).0;
  stash = stash;
  made = true;
  note = note;
  note_level = feedback_success;
}

abbrev pub quantity_text : ItemType → ℕ → Text
quantity_text item amount = item ++ (codes " x" ++ (decimal 3 amount ++ codes "."))

unfoldable pub deposit : PlayerState → List ItemStack → ItemType → ℕ → Exchange
deposit live stash item amount =
    let given = remove_item live item amount in
    let stored = add_item (stash_carrier stash) item amount in
    if not given.1
    then no_exchange given.0 stash (codes "Not enough " ++ (item ++ codes " to stash."))
    else if not stored.1
    then no_exchange (add_item given.0 item amount).0 stash (codes "Cell stash is full.")
    else exchanged given.0 stored.0.inventory (codes "Stashed " ++ quantity_text item amount)

unfoldable pub withdraw : PlayerState → List ItemStack → ItemType → ℕ → Exchange
withdraw live stash item amount =
    let taken = remove_item (stash_carrier stash) item amount in
    let got = add_item live item amount in
    if not taken.1
    then no_exchange live stash (codes "No " ++ (item ++ codes " in cell stash."))
    else if not got.1
    then no_exchange got.0 stash (codes "Inventory full; cannot withdraw.")
    else exchanged got.0 taken.0.inventory (codes "Withdrew " ++ quantity_text item amount)

-- The switch over the action.
unfoldable pub stash_action : Text → PlayerState → List ItemStack → ItemType → ℕ → Exchange
stash_action action live stash item amount =
    if text_eq action (codes "deposit")
    then deposit live stash item amount
    else if text_eq action (codes "withdraw")
    then withdraw live stash item amount
    else no_exchange live stash (codes "Stash action failed.")

-- The session after the interaction, whether it was made, the message, and the cell that has changed.
pub record StashResult : Type 0 where
  pub session : PlaySession
  pub done : Bool
  pub message : Text
  pub level : Text
  pub changed_cell : CellId

abbrev pub stash_refused : PlaySession → Text → StashResult
stash_refused session message = record {
  session = session;
  done = false;
  message = message;
  level = feedback_warning;
  changed_cell = 0;
}

-- The end of the interaction, with the writes to the cell and to the player.
unfoldable pub settle_stash : PlaySession → PlayerState → CellState → Exchange → StashResult
settle_stash session player cell e =
    let state = session.game_state in
    let cells = put_cell player.assigned_cell (record cell { stash = e.stash }) state.map.cells in
    record {
      session = record session {
        game_state = record state {
          map = record state.map { cells = cells };
          players = put_live player.id e.live state.players;
        };
      };
      done = e.made;
      message = e.note;
      level = e.note_level;
      changed_cell = if e.made then cell.id else 0;
    }

unfoldable pub stash_with_player :
    PlaySession → PlayerState → Text → ItemType → ℕ → CellState → Option PlayerState → StashResult
stash_with_player session player action item amount cell none =
    stash_refused session (codes "Player state unavailable.")
stash_with_player session player action item amount cell (some live) =
    settle_stash session player cell
      (stash_action action live cell.stash item (if amount == 0 then 1 else amount))

unfoldable pub stash_in_cell :
    PlaySession → PlayerState → Text → ItemType → ℕ → Option CellState → StashResult
stash_in_cell session player action item amount none =
    stash_refused session (codes "Assigned cell was not found.")
stash_in_cell session player action item amount (some cell) =
    if not (text_eq cell.owner_player_id player.id)
    then stash_refused session (codes "Only the cell owner can use this stash.")
    else stash_with_player session player action item amount cell
        (find_player player.id session.game_state.players)

unfoldable pub apply_cell_stash_interact :
    PlaySession → PlayerState → Text → ItemType → ℕ → StashResult
apply_cell_stash_interact session player action item amount =
    if not (text_eq action (codes "deposit")) && not (text_eq action (codes "withdraw"))
    then stash_refused session (codes "Unknown stash action.")
    else if text_eq item []
    then stash_refused session (codes "Select an item for stash action.")
    else if player.assigned_cell == 0
    then stash_refused session (codes "No assigned cell stash.")
    else if not (text_eq player.current_room_id room_cell_block_a)
    then stash_refused session (codes "Go to your cell block to use stash.")
    else stash_in_cell session player action item amount
        (find_cell player.assigned_cell session.game_state.map.cells)
