-- ===== src/Actions/Stash/Conserves.antt =====
-- The stash of a cell neither makes nor loses items.
use prison_break.Shared.{
  ℕ, ◌+◌, ◌≤◌, ◌<◌, ◌≡◌, refl, ap, ◌∙◌, Bool, true, not, ◌&&◌, List, [], ◌∷◌, some, arith, Text,
  codes, text_eq, text_eq_refl, length, ◌==◌, if◌then◌else◌, Bool-cases, inl, inr,
}
use mathlib.Core.Option.{some-injective}
use prison_break.GameMap.{room_cell_block_a}
use prison_break.Model.{PlayerState, PlayerId, CellState, CellId, ItemType, ItemStack}
use prison_break.Items.Inventory.{
  add_item, remove_item, normalize_inventory, stack_limit_for_base, base_inventory_stack_limit,
  base_stack_limit_for_player, stack_limit_for_player,
}
use prison_break.Items.Inventory.Totals.{total}
use prison_break.Items.Inventory.Normal.{normalize-IsNormal}
use prison_break.Items.Inventory.Adding.{Added}
use prison_break.Items.Inventory.Operations.{holds, Outcome, add_item-Added, remove_item-Removed}
use prison_break.Items.Inventory.Transfer.{holds_of_normal}
use prison_break.Items.Inventory.Canonical.{total-le_of_IsNormal}
use prison_break.Actions.Market.Trade.{ensure_lem}
use prison_break.Items.Inventory.Complete.{add_item_iff}
use prison_break.Actions.{PlaySession}
use prison_break.Actions.Stash.{
  Exchange, deposit, withdraw, stash_action, stash_carrier, apply_cell_stash_interact,
  stash_in_cell, stash_with_player, settle_stash, find_cell, find_player, put_cell, put_live,
}

-- Of an item, a player and a stash together.
abbrev pub together : PlayerState → List ItemStack → ItemType → ℕ
together player stash k = holds player k + total k (normalize_inventory stash)

-- The player has no more stacks than the limit.
abbrev pub HasRoom : PlayerState → Type 0
HasRoom p =
    length (normalize_inventory p.inventory)
    ≤ stack_limit_for_player p (normalize_inventory p.inventory)

room_lem :
    (p : PlayerState)
    → HasRoom p
    → let m = normalize_inventory p.inventory in
      let base = base_stack_limit_for_player p in
      length m ≤ stack_limit_for_base m (if base == 0 then base_inventory_stack_limit else base)
unfolding stack_limit_for_player base_stack_limit_for_player
room_lem p h = ground arith

-- What was just removed can be put back.
put_back :
    (player : PlayerState) (item : ItemType) (amount : ℕ)
    → amount < 256
    → HasRoom player
    → (remove_item player item amount).1 ≡ true
    → let given = (remove_item player item amount).0 in
      (k : ItemType) → holds (add_item given item amount).0 k ≡ holds player k
unfolding base_stack_limit_for_player
put_back player item amount small room done k =
    let m = normalize_inventory player.inventory in
    let given = (remove_item player item amount).0 in
    elim (remove_item-Removed player item amount) [
      | inr (refused, _) ↦ absurd (ground (arith, done, refused))
      | inl (_, (removed, _), same) ↦
          let as_left = λ (j : ItemType). holds_of_normal given j removed.normal in
          let same_base : base_stack_limit_for_player given ≡ base_stack_limit_for_player player =
            ap base_stack_limit_for_player same in
          let fitting : Added (normalize_inventory given.inventory) item amount
              (base_stack_limit_for_player given) m =
            record {
              normal = normalize-IsNormal player.inventory;
              totals = λ j. omega (arith, removed.totals j, as_left j);
              fits = ground (
                arith,
                removed.totals item,
                as_left item,
                text_eq_refl item,
                total-le_of_IsNormal item m (normalize-IsNormal player.inventory),
              );
              known = removed.known;
              positive = removed.positive;
              room = rw same_base (room_lem player room);
            } in
          elim (add_item-Added given item amount small) [
            | inr (refused, _) ↦
                absurd
                  (ground (arith, refused, (add_item_iff given item amount small).1 (m, fitting)))
            | inl (_, added, _) ↦
                let again = (add_item given item amount).0 in
                omega (
                  arith,
                  holds_of_normal again k added.normal,
                  added.totals k,
                  as_left k,
                  removed.totals k,
                )
          ]
    ]

carried :
    (stash : List ItemStack) (k : ItemType)
    → holds (stash_carrier stash) k ≡ total k (normalize_inventory stash)
carried stash k = refl

-- An exchange moves items between the player and the stash, or leaves both with what they have.
abbrev pub Conserved : PlayerState → List ItemStack → Exchange → Type 0
Conserved live stash e =
    ((k : ItemType) → together e.live e.stash k ≡ together live stash k) × (e.live.id ≡ live.id)

-- Whether or not an exchange is made, the player keeps the id.
kept_id :
    (p : PlayerState) (P : List ItemStack → Type 0) (r : PlayerState × Bool)
    → Outcome p P r
    → r.0.id ≡ p.id
kept_id p P r (inl (_, _, same)) = ap (λ (x : PlayerState). x.id) same
kept_id p P r (inr (_, same)) = ap (λ (x : PlayerState). x.id) same

deposit-Conserved :
    (live : PlayerState) (stash : List ItemStack) (item : ItemType) (amount : ℕ)
    → amount < 256
    → HasRoom live
    → Conserved live stash (deposit live stash item amount)
unfolding deposit
deposit-Conserved live stash item amount small room =
    let given = remove_item live item amount in
    let stored = add_item (stash_carrier stash) item amount in
    elim (remove_item-Removed live item amount) [
      | inr (kept, same) ↦ rw (kept, same) (λ k. refl, refl)
      | inl (took, (removed, _), same) ↦
          elim (add_item-Added (stash_carrier stash) item amount small) [
            | inr (full, _) ↦
                rw (took, full)
                  (
                    λ k.
                        ap (λ n. n + total k (normalize_inventory stash))
                          (put_back live item amount small room took k),
                    kept_id given.0
                          (Added (normalize_inventory given.0.inventory) item amount
                            (base_stack_limit_for_player given.0))
                          _ (add_item-Added given.0 item amount small)
                        ∙ ap (λ (x : PlayerState). x.id) same,
                  )
            | inl (fits, added, _) ↦
                let (goods, _, id) = ensure_lem given.0 in
                rw (took, fits)
                  (
                    λ k. rw goods (
                        omega (
                          arith,
                          removed.totals k,
                          added.totals k,
                          holds_of_normal given.0 k removed.normal,
                          holds_of_normal stored.0 k added.normal,
                        )),
                    id ∙ ap (λ (x : PlayerState). x.id) same,
                  )
          ]
    ]

withdraw-Conserved :
    (live : PlayerState) (stash : List ItemStack) (item : ItemType) (amount : ℕ)
    → amount < 256
    → Conserved live stash (withdraw live stash item amount)
unfolding withdraw
withdraw-Conserved live stash item amount small =
    let taken = remove_item (stash_carrier stash) item amount in
    let got = add_item live item amount in
    elim (remove_item-Removed (stash_carrier stash) item amount) [
      | inr (kept, same) ↦ rw kept (λ k. refl, refl)
      | inl (took, (removed, _), _) ↦ elim (add_item-Added live item amount small) [
        | inr (full, same) ↦ rw (took, full, same) (λ k. refl, refl)
        | inl (fits, added, same) ↦
            let (goods, _, id) = ensure_lem got.0 in
            rw (took, fits)
              (
                λ k. rw goods (
                    omega (
                      arith,
                      removed.totals k,
                      added.totals k,
                      holds_of_normal got.0 k added.normal,
                      holds_of_normal taken.0 k removed.normal,
                    )),
                id ∙ ap (λ (x : PlayerState). x.id) same,
              )
      ]
    ]

stash_action-Conserved :
    (action : Text) (live : PlayerState) (stash : List ItemStack) (item : ItemType) (amount : ℕ)
    → amount < 256
    → HasRoom live
    → Conserved live stash (stash_action action live stash item amount)
unfolding stash_action
stash_action-Conserved action live stash item amount small room =
    elim (Bool-cases (text_eq action (codes "deposit"))) [
      | inl e ↦ rw e (deposit-Conserved live stash item amount small room)
      | inr e ↦ elim (Bool-cases (text_eq action (codes "withdraw"))) [
        | inl f ↦ rw (e, f) (withdraw-Conserved live stash item amount small)
        | inr f ↦ rw (e, f) (λ k. refl, refl)
      ]
    ]

find-put_cell :
    (id : CellId) (c v : CellState) (cells : List CellState)
    → find_cell id cells ≡ some c
    → v.id ≡ c.id
    → find_cell id (put_cell id v cells) ≡ some v
unfolding find_cell put_cell
find-put_cell id c v [] h e = cc
find-put_cell id c v (x ∷ cells) h e = elim (Bool-cases (x.id == id)) [
  | inl same ↦
      let this : x ≡ c = some-injective _ _ (rw same at h) in rw same (rw (e, ← this, same) refl)
  | inr other ↦ rw other (rw other (find-put_cell id c v cells (rw other at h) e))
]

find-put_live :
    (id : PlayerId) (p v : PlayerState) (players : List PlayerState)
    → find_player id players ≡ some p
    → v.id ≡ p.id
    → find_player id (put_live id v players) ≡ some v
unfolding find_player put_live
find-put_live id p v [] h e = cc
find-put_live id p v (x ∷ players) h e = elim (Bool-cases (text_eq x.id id)) [
  | inl same ↦
      let this : x ≡ p = some-injective _ _ (rw same at h) in rw same (rw (e, ← this, same) refl)
  | inr other ↦ rw other (rw other (find-put_live id p v players (rw other at h) e))
]

-- What an id holds in a session, with a stash.
pub record Holding (session : PlaySession) (player : PlayerState) (live : PlayerState)
    (cell : CellState) : Type 0 where
  pub at_cell : find_cell player.assigned_cell session.game_state.map.cells ≡ some cell
  pub at_player : find_player player.id session.game_state.players ≡ some live

-- For a player with a cell, in a session, who has no more stacks than the limit: after an interaction with
-- the stash of the cell, refused or not, the player and the cell are still there, and of every item the two
-- together hold what they held before (the amount being a uint8).
pub apply_cell_stash_interact-conserves :
    (session : PlaySession) (player live : PlayerState) (cell : CellState) (action : Text)
    (item : ItemType) (amount : ℕ)
    → amount < 256
    → Holding session player live cell
    → HasRoom live
    → let r = apply_cell_stash_interact session player action item amount in
      (after : PlayerState) × (box : CellState) × Holding r.session player after box
      × ((k : ItemType) → together after box.stash k ≡ together live cell.stash k)
unfolding apply_cell_stash_interact stash_in_cell stash_with_player settle_stash
apply_cell_stash_interact-conserves session player live cell action item amount small here room =
    let same : Result session = (live, cell, here, λ k. refl) in
    elim (Bool-cases
      (not (text_eq action (codes "deposit")) && not (text_eq action (codes "withdraw")))) [
        | inl e ↦ rw e same
        | inr known ↦ elim (Bool-cases (text_eq item [])) [
          | inl e ↦ rw (known, e) same
          | inr named ↦ elim (Bool-cases (player.assigned_cell == 0)) [
            | inl e ↦ rw (known, named, e) same
            | inr housed ↦ elim (Bool-cases (text_eq player.current_room_id room_cell_block_a)) [
              | inr e ↦ rw (known, named, housed, e) same
              | inl home ↦ elim (Bool-cases (text_eq cell.owner_player_id player.id)) [
                | inr e ↦ rw (known, named, housed, home, here.at_cell, e) same
                | inl own ↦
                    rw (known, named, housed, home, here.at_cell, own, here.at_player) settled
              ]
            ]
          ]
        ]
      ]
  where
    Result : PlaySession → Type 0
    Result s =
        (after : PlayerState) × (box : CellState) × Holding s player after box
        × ((k : ItemType) → together after box.stash k ≡ together live cell.stash k)

    pieces : ℕ
    pieces = if amount == 0 then 1 else amount

    made : Exchange
    made = stash_action action live cell.stash item pieces

    settled : Result (settle_stash session player cell made).session
    settled =
        let (kept, id) =
          stash_action-Conserved action live cell.stash item pieces (ground arith) room in
        (
          made.live,
          record cell { stash = made.stash },
          record {
            at_cell =
                find-put_cell player.assigned_cell cell _ session.game_state.map.cells here.at_cell
                  refl;
            at_player =
                find-put_live player.id live made.live session.game_state.players here.at_player id;
          },
          kept,
        )
