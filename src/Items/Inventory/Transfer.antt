-- ===== src/Items/Inventory/Transfer.antt =====
-- `TransferItem` between two players.
use prison_break.Shared.{
  ℕ, ◌+◌, ◌<◌, ◌≡◌, ◌⊎◌, refl, ap, Bool, true, false, not, ◌||◌, List, Option, none, some, arith,
  text_eq, ◌==◌, Bool-cases, inl, inr,
}
use prison_break.Model.{ItemType, ItemStack, PlayerState}
use prison_break.Items.Catalog.{is_known_item}
use prison_break.Items.Inventory.{
  normalize_inventory, base_stack_limit_for_player, transfer_item, store_both,
}
use prison_break.Items.Inventory.Totals.{total}
use prison_break.Items.Inventory.Normal.{IsNormal, normalize-IsNormal}
use prison_break.Items.Inventory.Canonical.{normalize_inventory-canonical}
use prison_break.Items.Inventory.Adding.{Added, add_to_inventory-Added}
use prison_break.Items.Inventory.Removing.{Removed, remove_from_inventory-Removed}
use prison_break.Items.Inventory.Operations.{holds}

-- The result of a transfer.
abbrev pub Transferred :
    PlayerState → PlayerState → ItemType → ℕ → PlayerState × PlayerState × Bool → Type 0
Transferred from to item amount r =
    ((r.2 ≡ true)
      × Removed (normalize_inventory from.inventory) item amount r.0.inventory
      × Added (normalize_inventory to.inventory) item amount (base_stack_limit_for_player to)
          r.1.inventory
      × (r.0 ≡ record from { inventory = r.0.inventory })
      × (r.1 ≡ record to { inventory = r.1.inventory }))
    ⊎ ((r.2 ≡ false) × (r.0 ≡ from) × (r.1 ≡ to))

store_both_lem :
    (from to : PlayerState) (item : ItemType) (amount : ℕ) (s d : Option (List ItemStack))
    → ((next : List ItemStack)
        → s ≡ some next
        → Removed (normalize_inventory from.inventory) item amount next)
    → ((next : List ItemStack)
        → d ≡ some next
        → Added
            (normalize_inventory to.inventory)
            item
            amount
            (base_stack_limit_for_player to)
            next)
    → Transferred from to item amount (store_both from to s d)
unfolding store_both
store_both_lem from to item amount none d h k = inr (refl, refl, refl)
store_both_lem from to item amount (some s) none h k = inr (refl, refl, refl)
store_both_lem from to item amount (some s) (some d) h k =
    inl (refl, h s refl, k d refl, refl, refl)

-- `TransferItem` either refuses and changes neither player, or takes the amount of just that item
-- from the one and adds it to the other, of whom both are left in normal form.
pub transfer_item-Transferred :
    (from to : PlayerState) (item : ItemType) (amount : ℕ)
    → amount < 256
    → Transferred from to item amount (transfer_item from to item amount)
unfolding transfer_item
transfer_item-Transferred from to item amount small =
    elim (Bool-cases (amount == 0 || not (is_known_item item))) [
      | inl e ↦ rw e (inr (refl, refl, refl))
      | inr e ↦ elim (Bool-cases (text_eq from.id to.id)) [
        | inl self ↦ rw (e, self) (inr (refl, refl, refl))
        | inr two ↦
            rw (e, two)
              (store_both_lem from to item amount _ _
                (λ next.
                  remove_from_inventory-Removed (normalize_inventory from.inventory) next item
                    amount (normalize-IsNormal from.inventory))
                (λ next.
                  add_to_inventory-Added (normalize_inventory to.inventory) next item amount
                    (base_stack_limit_for_player to) (normalize-IsNormal to.inventory) small))
      ]
    ]

pub holds_of_normal :
    (p : PlayerState) (item : ItemType)
    → IsNormal p.inventory
    → holds p item ≡ total item p.inventory
holds_of_normal p item h = ap (total item) ((normalize_inventory-canonical p.inventory).0.0 h)

-- No transfer makes or destroys an item: of every item, the two players together hold after the
-- call what they held before it, whether it succeeds or not.
pub transfer_item-conserves :
    (from to : PlayerState) (item : ItemType) (amount : ℕ)
    → amount < 256
    → let r = transfer_item from to item amount in
      (k : ItemType) → holds r.0 k + holds r.1 k ≡ holds from k + holds to k
transfer_item-conserves from to item amount small k =
    let r = transfer_item from to item amount in
    elim (transfer_item-Transferred from to item amount small) [
      | inl (_, removed, added, _, _) ↦ omega (
        arith,
        removed.totals k,
        added.totals k,
        holds_of_normal r.0 k removed.normal,
        holds_of_normal r.1 k added.normal,
      )
      | inr (_, same_from, same_to) ↦
          omega (arith, ap (λ p. holds p k) same_from, ap (λ p. holds p k) same_to)
    ]
