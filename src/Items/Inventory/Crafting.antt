-- ===== src/Items/Inventory/Crafting.antt =====
-- `Craft`: the inputs of the recipe go, and its output comes.
use prison_break.Shared.{
  ◌+◌, ◌≡◌, refl, List, [], ◌∷◌, Option, none, some, arith, Option-cases, inl, inr,
}
use prison_break.Model.{ItemType, ItemStack, PlayerState}
use prison_break.Items.Catalog.{Recipe, recipe_for}
use prison_break.Items.Catalog.Recipes.{recipe_for-SoundRecipe}
use prison_break.Items.Inventory.{
  normalize_inventory, base_stack_limit_for_player, remove_from_inventory, add_to_inventory,
  remove_inputs, add_output, craft_recipe, craft,
}
use prison_break.Items.Inventory.Totals.{total}
use prison_break.Items.Inventory.Normal.{IsNormal, normalize-IsNormal}
use prison_break.Items.Inventory.Found.{share}
use prison_break.Items.Inventory.Adding.{add_to_inventory-Added}
use prison_break.Items.Inventory.Removing.{remove_from_inventory-Removed}
use prison_break.Items.Inventory.Operations.{Outcome, store-Outcome}

remove_inputs-none : (inputs : List ItemStack) → remove_inputs inputs none ≡ none
unfolding remove_inputs
remove_inputs-none [] = refl
remove_inputs-none (r ∷ inputs) = refl

remove_inputs_lem :
    (inputs m next : List ItemStack)
    → IsNormal m
    → remove_inputs inputs (some m) ≡ some next
    → IsNormal next × ((k : ItemType) → total k next + total k inputs ≡ total k m)
unfolding remove_inputs
remove_inputs_lem [] m next h e =
    let same : m ≡ next = ground arith in rw (← same) (h, λ k. omega arith)
remove_inputs_lem (r ∷ inputs) m next h e =
    elim (Option-cases (remove_from_inventory m r.item r.quantity)) [
      | inl missing ↦ absurd (ground (arith, rw missing at e, remove_inputs-none inputs))
      | inr (rest, found) ↦
          let removed = remove_from_inventory-Removed m rest r.item r.quantity h found in
          let (normal, totals) =
            remove_inputs_lem inputs rest next removed.normal (rw found at e) in
          (normal, λ k. ground (arith, totals k, removed.totals k))
    ]

-- What crafting by a recipe amounts to.
abbrev pub Crafted : PlayerState → ItemType → List ItemStack → Type 0
Crafted player output next =
    (r : Recipe) × (recipe_for output ≡ some r)
    × IsNormal next
    × ((k : ItemType)
        → total k next + total k r.inputs
          ≡ total k (normalize_inventory player.inventory) + share output 1 k)

add_output_lem :
    (player : PlayerState) (r : Recipe) (o : Option (List ItemStack)) (next : List ItemStack)
    → add_output player r o ≡ some next
    → (m : List ItemStack) × (o ≡ some m)
      × (add_to_inventory m r.output r.output_quantity (base_stack_limit_for_player player)
          ≡ some next)
unfolding add_output
add_output_lem player r none next e = cc
add_output_lem player r (some m) next e = (m, refl, e)

Crafted-by :
    (player : PlayerState) (output : ItemType) (r : Recipe) (next : List ItemStack)
    → recipe_for output ≡ some r
    → add_output player r (remove_inputs r.inputs (some (normalize_inventory player.inventory)))
      ≡ some next
    → Crafted player output next
Crafted-by player output r next found e =
    let ((one, _, _), named) = recipe_for-SoundRecipe output r found in
    let (m, removed, added) = add_output_lem player r _ next e in
    let (normal, totals) =
      remove_inputs_lem r.inputs (normalize_inventory player.inventory) m
        (normalize-IsNormal player.inventory) removed in
    let a =
      add_to_inventory-Added m next r.output r.output_quantity (base_stack_limit_for_player player)
        normal (omega arith) added in
    (r, found, a.normal, λ k. ground (arith, totals k, rw (one, named) at a.totals k))

craft_recipe-Outcome :
    (player : PlayerState) (output : ItemType) (o : Option Recipe)
    → recipe_for output ≡ o
    → Outcome player (Crafted player output) (craft_recipe player o)
unfolding craft_recipe
craft_recipe-Outcome player output none found = inr (refl, refl)
craft_recipe-Outcome player output (some r) found =
    store-Outcome player (Crafted player output) _ (λ next. Crafted-by player output r next found)

-- `Craft` either refuses and changes nothing, or there is a recipe for the output, and the inventory
-- is left in normal form with one more of the output and with each input gone in its quantity.
pub craft-Crafted :
    (player : PlayerState) (output : ItemType)
    → Outcome player (Crafted player output) (craft player output)
unfolding craft
craft-Crafted player output = craft_recipe-Outcome player output (recipe_for output) refl
