-- ===== src/Items/Catalog/Recipes.antt =====
-- What the recipes of `recipesByOutput` have in common.
use mathlib.Core.Option.{some-injective}
use prison_break.Shared.{
  subst, ◌≡◌, ◌<◌, refl, true, List, [], ◌∷◌, Option, none, some, arith, All, text_eq,
  text_eq_sound, sort_by-All, order_on,
}
use prison_break.Model.{ItemType, ItemStack}
use prison_break.Items.Catalog.{
  Recipe, recipes_by_output, find_recipe, sort_inputs, recipe_for, is_known_item,
}

find_recipe-All :
    (P : Recipe → Type 0) (rs : List Recipe) (output : ItemType) (r : Recipe)
    → All P rs
    → find_recipe output rs ≡ some r
    → P r × (r.output ≡ output)
unfolding find_recipe
find_recipe-All P [] output r h e = cc
find_recipe-All P (x ∷ rs) output r h e =
    ground (arith, find_recipe-All P rs output r h.1, text_eq_sound x.output output)

-- A recipe makes one piece of a known item out of known items.
abbrev pub SoundRecipe : Recipe → Type 0
SoundRecipe r =
    (r.output_quantity ≡ 1)
    × (is_known_item r.output ≡ true)
    × All (λ s. (is_known_item s.item ≡ true) × (0 < s.quantity)) r.inputs

table_sound : All SoundRecipe recipes_by_output
unfolding is_known_item text_eq
table_sound = ground arith

sort_inputs-SoundRecipe :
    (o : Option Recipe) (r : Recipe) (output : ItemType)
    → sort_inputs o ≡ some r
    → ((x : Recipe) → o ≡ some x → SoundRecipe x × (x.output ≡ output))
    → SoundRecipe r × (r.output ≡ output)
unfolding sort_inputs
sort_inputs-SoundRecipe none r output e h = cc
sort_inputs-SoundRecipe (some x) r output e h =
    let ((one, known, inputs), named) = h x refl in
    subst (λ y. SoundRecipe y × (y.output ≡ output)) (some-injective _ _ e)
      (
        (
          one,
          known,
          sort_by-All (λ (s : ItemStack). (is_known_item s.item ≡ true) × (0 < s.quantity))
              (order_on (λ (s : ItemStack). s.item)).lt x.inputs inputs,
        ),
        named,
      )

pub recipe_for-SoundRecipe :
    (output : ItemType) (r : Recipe)
    → recipe_for output ≡ some r
    → SoundRecipe r × (r.output ≡ output)
unfolding recipe_for
recipe_for-SoundRecipe output r e =
    sort_inputs-SoundRecipe (find_recipe output recipes_by_output) r output e
      (λ x. find_recipe-All SoundRecipe recipes_by_output output x table_sound)
