-- ===== src/Items/Inventory/Found.antt =====
-- What a search for a stack finds, and what the writes at its index do to the totals.
use prison_break.Shared.{
  ℕ, ◌≡◌, refl, ap, Bool, true, false, List, [], ◌∷◌, Option, none, some, arith, text_eq,
  text_eq_sound, if◌then◌else◌, Bool-cases, inl, inr,
}
use prison_break.Model.{ItemType, ItemStack}
use prison_break.Items.Catalog.{is_known_item}
use prison_break.Items.Inventory.{find_stack_index, quantity_at, set_quantity, delete_at, suc_index}
use prison_break.Items.Inventory.Totals.{total, Distinct, total_of_head, text_eq_swap, text_eq_comm}

-- What a search for a stack finds, and what the writes at that index do.
abbrev pub Found : ItemType → List ItemStack → Option ℕ → Type 0
Found item m none = total item m ≡ 0
Found item m (some i) =
    (quantity_at m i ≡ total item m)
    × ((k : ItemType) (n : ℕ)
        → total k (set_quantity m i n) ≡ (if text_eq item k then n else total k m))
    × ((k : ItemType) → total k (delete_at m i) ≡ (if text_eq item k then 0 else total k m))

pub find_stack_index-Found :
    (item : ItemType) (m : List ItemStack) → Distinct m → Found item m (find_stack_index m item)
unfolding find_stack_index
find_stack_index-Found item [] d = refl
find_stack_index-Found item (s ∷ m) d = elim (Bool-cases (text_eq s.item item)) [
  | inl e ↦ rw e (
    ground (arith, total_of_head item s m d.0 e),
    (λ k n. ground (arith, text_eq_swap s.item item k e, total_of_head k s m d.0)),
    (λ k. ground (arith, text_eq_swap s.item item k e, total_of_head k s m d.0)),
  )
  | inr e ↦ rw e (later (find_stack_index m item) (find_stack_index-Found item m d.1) e)
]
  where
    later :
        (o : Option ℕ)
        → Found item m o
        → text_eq s.item item ≡ false
        → Found item (s ∷ m) (suc_index o)
    later none h e = ground (arith, e)
    later (some i) h e = (
      ground (arith, h.0),
      (λ k n. ground (
        arith,
        h.1 k n,
        e,
        text_eq_swap item k s.item,
        text_eq_comm s.item k,
        text_eq_comm s.item item,
      )),
      (λ k. ground (
        arith,
        h.2 k,
        e,
        text_eq_swap item k s.item,
        text_eq_comm s.item k,
        text_eq_comm s.item item,
      )),
    )

-- The amount by which a change of an item by `n` moves the total of another item.
abbrev pub share : ItemType → ℕ → ItemType → ℕ
share item n k = if text_eq item k then n else 0

pub total_same : (a b : ItemType) (m : List ItemStack) → text_eq a b ≡ true → total a m ≡ total b m
total_same a b m e = ap (λ x. total x m) (text_eq_sound a b e)

pub known_same : (a b : ItemType) → text_eq a b ≡ true → is_known_item a ≡ is_known_item b
known_same a b e = ap is_known_item (text_eq_sound a b e)

pub passes :
    (b : Bool) (o : Option (List ItemStack)) (next : List ItemStack)
    → (if b then none else o) ≡ some next
    → o ≡ some next
passes true o next e = cc
passes false o next e = e
