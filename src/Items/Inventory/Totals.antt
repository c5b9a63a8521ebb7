-- ===== src/Items/Inventory/Totals.antt =====
-- How many of an item a list of stacks holds, and what each step of the code does to that number.
use prison_break.Shared.{
  ℕ, ◌+◌, ◌<◌, ◌≡◌, refl, ap, subst, Bool, true, false, not, ◌||◌, List, [], ◌∷◌, ◌++◌, arith, All,
  text_eq, text_eq_iff, Text, u16, if◌then◌else◌, insert_by, sort_by, ◌==◌, Bool-cases, inl, inr,
}
use prison_break.Model.{ItemType, ItemStack}
use prison_break.Items.Catalog.{is_known_item}
use prison_break.Items.Inventory.{accumulate, aggregate}

-- The sum of the quantities in the stacks of an item.
abbrev pub total : ItemType → List ItemStack → ℕ
total item [] = 0
total item (s ∷ inventory) =
    if text_eq s.item item then s.quantity + total item inventory else total item inventory

-- Like `total`, over the stacks that `normalizeInventory` does not skip.
abbrev pub known_total : ItemType → List ItemStack → ℕ
known_total item inventory = if is_known_item item then total item inventory else 0

abbrev pub Lacks : ItemType → List ItemStack → Type 0
Lacks item = All (λ s. text_eq s.item item ≡ false)

-- No item has two stacks.
abbrev pub Distinct : List ItemStack → Type 0
Distinct [] = Unit
Distinct (s ∷ inventory) = Lacks s.item inventory × Distinct inventory

pub total-append :
    (item : ItemType) (xs ys : List ItemStack)
    → total item (xs ++ ys) ≡ total item xs + total item ys
total-append item [] ys = omega arith
total-append item (s ∷ xs) ys = ground (arith, total-append item xs ys)

pub total_of_Lacks : (item : ItemType) (xs : List ItemStack) → Lacks item xs → total item xs ≡ 0
total_of_Lacks item [] h = refl
total_of_Lacks item (s ∷ xs) h = ground (arith, total_of_Lacks item xs h.1)

total-insert_by :
    (item : ItemType) (lt : ItemStack → ItemStack → Bool) (s : ItemStack) (xs : List ItemStack)
    → total item (insert_by lt s xs) ≡ total item (s ∷ xs)
unfolding insert_by
total-insert_by item lt s [] = refl
total-insert_by item lt s (x ∷ xs) = ground (arith, total-insert_by item lt s xs)

pub total-sort_by :
    (item : ItemType) (lt : ItemStack → ItemStack → Bool) (xs : List ItemStack)
    → total item (sort_by lt xs) ≡ total item xs
unfolding sort_by
total-sort_by item lt [] = refl
total-sort_by item lt (x ∷ xs) =
    ground (arith, total-insert_by item lt x (sort_by lt xs), total-sort_by item lt xs)

-- A stack of an item is not one of another.
pub text_eq_swap : (a b c : Text) → text_eq a b ≡ true → text_eq a c ≡ text_eq b c
text_eq_swap a b c h = ap (λ x. text_eq x c) ((text_eq_iff a b).0 h)

pub text_eq_comm : (a b : Text) → text_eq a b ≡ text_eq b a
text_eq_comm a b = ground (arith, text_eq_iff a b, text_eq_iff b a)

accumulate-Lacks :
    (item k : ItemType) (n : ℕ) (m : List ItemStack)
    → Lacks item m
    → text_eq k item ≡ false
    → Lacks item (accumulate k n m)
unfolding accumulate
accumulate-Lacks item k n [] h e = (e, tt)
accumulate-Lacks item k n (s ∷ m) h e = ground (arith, accumulate-Lacks item k n m h.1)

pub accumulate-Distinct :
    (k : ItemType) (n : ℕ) (m : List ItemStack) → Distinct m → Distinct (accumulate k n m)
unfolding accumulate
accumulate-Distinct k n [] h = (tt, tt)
accumulate-Distinct k n (s ∷ m) h =
    ground (
      arith,
      accumulate-Distinct k n m h.1,
      accumulate-Lacks s.item k n m h.0,
      text_eq_comm s.item k,
    )

pub Lacks-same : (a b : ItemType) (m : List ItemStack) → text_eq a b ≡ true → Lacks a m → Lacks b m
Lacks-same a b m e h = subst (λ x. Lacks x m) ((text_eq_iff a b).0 e) h

-- The first stack of an item is all of it.
pub total_of_head :
    (item : ItemType) (s : ItemStack) (m : List ItemStack)
    → Lacks s.item m
    → text_eq s.item item ≡ true
    → total item m ≡ 0
total_of_head item s m h e = total_of_Lacks item m (Lacks-same s.item item m e h)

-- With distinct keys, an addition to the map adds to the item and leaves the others.
pub total-accumulate :
    (item k : ItemType) (n : ℕ) (m : List ItemStack)
    → Distinct m
    → total item (accumulate k n m)
      ≡ (if text_eq k item then u16 (total item m + n) else total item m)
unfolding accumulate
total-accumulate item k n [] h = ground arith
total-accumulate item k n (s ∷ m) h = ground (
  arith,
  total-accumulate item k n m h.1,
  text_eq_swap s.item k item,
  text_eq_swap k item s.item,
  text_eq_comm s.item item,
  text_eq_comm item s.item,
  text_eq_comm s.item k,
  total_of_head item s m h.0,
)

-- An entry of the map keeps within 16 bits.
abbrev pub AllU16 : List ItemStack → Type 0
AllU16 = All (λ s. s.quantity < 65536)

pub accumulate-AllU16 :
    (k : ItemType) (n : ℕ) (m : List ItemStack) → AllU16 m → AllU16 (accumulate k n m)
unfolding accumulate
accumulate-AllU16 k n [] h = (omega arith, tt)
accumulate-AllU16 k n (s ∷ m) h = ground (arith, accumulate-AllU16 k n m h.1)

pub total-lt_of_AllU16 :
    (item : ItemType) (m : List ItemStack) → Distinct m → AllU16 m → total item m < 65536
total-lt_of_AllU16 item [] d h = omega arith
total-lt_of_AllU16 item (s ∷ m) d h =
    ground (arith, total-lt_of_AllU16 item m d.1 h.1, total_of_head item s m d.0)

known_swap : (a b : ItemType) → text_eq a b ≡ true → is_known_item a ≡ is_known_item b
known_swap a b e = ap is_known_item ((text_eq_iff a b).0 e)

pub aggregate-Distinct :
    (m inventory : List ItemStack) → Distinct m → Distinct (aggregate m inventory)
unfolding aggregate
aggregate-Distinct m [] h = h
aggregate-Distinct m (s ∷ inventory) h =
    elim (Bool-cases (s.quantity == 0 || not (is_known_item s.item))) [
      | inl e ↦ rw e (aggregate-Distinct m inventory h)
      | inr e ↦ rw e (
          aggregate-Distinct (accumulate s.item s.quantity m) inventory
            (accumulate-Distinct s.item s.quantity m h))
    ]

-- The map holds of each known item the sum of its stacks, modulo 2 ^ 16.
pub total-aggregate :
    (item : ItemType) (m inventory : List ItemStack)
    → Distinct m
    → AllU16 m
    → total item (aggregate m inventory) ≡ u16 (total item m + known_total item inventory)
unfolding aggregate
total-aggregate item m [] d h = ground (arith, total-lt_of_AllU16 item m d h)
total-aggregate item m (s ∷ inventory) d h =
    elim (Bool-cases (s.quantity == 0 || not (is_known_item s.item))) [
      | inl e ↦ rw e (ground (arith, total-aggregate item m inventory d h, known_swap s.item item))
      | inr e ↦ rw e (
          ground (
            arith,
            total-aggregate item (accumulate s.item s.quantity m) inventory
                (accumulate-Distinct s.item s.quantity m d)
                (accumulate-AllU16 s.item s.quantity m h),
            total-accumulate item s.item s.quantity m d,
            known_swap s.item item,
          ))
    ]
