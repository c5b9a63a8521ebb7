-- ===== src/Examples/Stacks.antt =====
-- Carrying, passing on and crafting: items/inventory.go.
use prison_break.Shared.{
  List, ◌+◌, ◌≡◌, ◌↔◌, refl, true, [], ◌∷◌, arith, codes, text_eq, text_lt, sort_by,
}
use prison_break.Model.{ItemStack, PlayerState}
use prison_break.Model.Zero.{zero_player}
use prison_break.Items.Catalog.{
  is_known_item, item_wood, item_metal_slab, item_shiv, item_badge, stack, recipe_for,
}
use prison_break.Items.Inventory.{
  normalize_inventory, add_item, remove_item, transfer_item, craft, base_stack_limit_for_player,
  add_to_inventory, remove_from_inventory, store, craft_recipe, remove_inputs, add_output,
}
use prison_break.Items.Inventory.Adding.{Added}
use prison_break.Items.Inventory.Operations.{
  Outcome, RemovedWithin, holds, add_item-Added, remove_item-Removed, remove_item-add_item,
}
use prison_break.Items.Inventory.Complete.{add_item_iff}
use prison_break.Items.Inventory.Transfer.{transfer_item-conserves}
use prison_break.Items.Inventory.Crafting.{Crafted, craft-Crafted}

abbrev carrier : PlayerState
carrier = record zero_player {
  id = codes "p1";
  inventory = stack item_wood 2 ∷ stack item_metal_slab 1 ∷ stack item_wood 3 ∷ [];
}

abbrev friend : PlayerState
friend = record zero_player { id = codes "p2"; inventory = stack item_badge 1 ∷ [] }

merged : normalize_inventory carrier.inventory ≡ stack item_metal_slab 1 ∷ stack item_wood 5 ∷ []
unfolding normalize_inventory is_known_item text_eq text_lt sort_by
merged = refl

shiv_made : (craft carrier item_shiv).0.inventory ≡ stack item_shiv 1 ∷ stack item_wood 4 ∷ []
unfolding craft is_known_item text_eq text_lt sort_by craft_recipe recipe_for store add_output
    remove_inputs remove_from_inventory add_to_inventory base_stack_limit_for_player
shiv_made = refl

add_item-Added_example :
    Outcome carrier
      (Added
        (normalize_inventory carrier.inventory)
        item_wood
        7
        (base_stack_limit_for_player carrier))
      (add_item carrier item_wood 7)
add_item-Added_example = add_item-Added carrier item_wood 7 (omega arith)

remove_item-Removed_example :
    Outcome carrier (RemovedWithin carrier item_wood 4) (remove_item carrier item_wood 4)
remove_item-Removed_example = remove_item-Removed carrier item_wood 4

wood_added : (add_item carrier item_wood 7).1 ≡ true
unfolding add_item is_known_item text_eq store add_to_inventory sort_by text_lt
    base_stack_limit_for_player
wood_added = refl

remove_item-add_item_example :
    remove_item (add_item carrier item_wood 7).0 item_wood 7
    ≡ (record carrier { inventory = normalize_inventory carrier.inventory }, true)
remove_item-add_item_example =
    remove_item-add_item carrier item_wood 7 (omega arith) (λ e. cc) wood_added

transfer_item-conserves_example :
    let r = transfer_item carrier friend item_wood 2 in
    holds r.0 item_wood + holds r.1 item_wood ≡ holds carrier item_wood + holds friend item_wood
transfer_item-conserves_example =
    transfer_item-conserves carrier friend item_wood 2 (omega arith) item_wood

craft-Crafted_example : Outcome carrier (Crafted carrier item_shiv) (craft carrier item_shiv)
craft-Crafted_example = craft-Crafted carrier item_shiv

add_item_iff_example : ((add_item carrier item_wood 7).1 ≡ true) ↔ (
    (next : List ItemStack) × Added
      (normalize_inventory carrier.inventory)
      item_wood
      7
      (base_stack_limit_for_player carrier)
      next)
add_item_iff_example = add_item_iff carrier item_wood 7 (omega arith)
