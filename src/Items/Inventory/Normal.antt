-- ===== src/Items/Inventory/Normal.antt =====
-- The normal form of an inventory, and that `normalizeInventory` computes it.
use Prim.Native.Nat.{min}
use prison_break.Shared.{
  ℕ, ◌≤◌, ◌<◌, ◌≡◌, refl, ◌∙◌, true, false, not, ◌||◌, List, [], ◌∷◌, arith, All, All-imp, text_eq,
  text_lt, text_lt_total, text_lt-ne, u16, insert_by, sort_by, ◌==◌, IsSorted, IsAscending,
  order_on, sort_by-IsSorted, sort_by-All, insert_by-All, Bool-cases, inl, inr,
}
use prison_break.Model.{ItemType, ItemStack}
use prison_break.Items.Catalog.{is_known_item}
use prison_break.Items.Inventory.{accumulate, aggregate, cap_stacks, normalize_inventory, item_lt}
use prison_break.Items.Inventory.Totals.{
  total, known_total, Lacks, Distinct, total-sort_by, text_eq_comm, total_of_head,
  aggregate-Distinct, total-aggregate,
}

-- A stack that a player can hold.
abbrev pub SoundStack : ItemStack → Type 0
SoundStack s = (is_known_item s.item ≡ true) × (0 < s.quantity) × (s.quantity ≤ 255)

-- One stack to an item, in the order of the items, each of a known item and of 1 to 255 pieces.
pub record IsNormal (inventory : List ItemStack) : Type 0 where
  pub ascending : IsAscending (λ s. s.item) inventory
  pub sound : All SoundStack inventory

pub Distinct-of_IsAscending : (m : List ItemStack) → IsAscending (λ s. s.item) m → Distinct m
Distinct-of_IsAscending [] h = tt
Distinct-of_IsAscending (s ∷ m) h = (
  All-imp (λ (t : ItemStack). text_lt s.item t.item ≡ true)
      (λ (t : ItemStack). text_eq t.item s.item ≡ false) (λ t below. text_lt-ne s.item t.item below)
      m h.0,
  Distinct-of_IsAscending m h.1,
)

cap-All {ℓ} :
    (P : ItemType → Type ℓ) (m : List ItemStack)
    → All (λ s. P s.item) m
    → All (λ s. P s.item) (cap_stacks m)
unfolding cap_stacks
cap-All P [] h = tt
cap-All P (s ∷ m) h = elim (Bool-cases (s.quantity == 0)) [
  | inl e ↦ rw e (cap-All P m h.1)
  | inr e ↦ rw e (h.0, cap-All P m h.1)
]

cap-Distinct : (m : List ItemStack) → Distinct m → Distinct (cap_stacks m)
unfolding cap_stacks
cap-Distinct [] h = tt
cap-Distinct (s ∷ m) h =
    ground (arith, cap-Distinct m h.1, cap-All (λ x. text_eq x s.item ≡ false) m h.0)

total-cap :
    (item : ItemType) (m : List ItemStack)
    → Distinct m
    → total item (cap_stacks m) ≡ min 255 (total item m)
unfolding cap_stacks
total-cap item [] d = refl
total-cap item (s ∷ m) d = ground (arith, total-cap item m d.1, total_of_head item s m d.0)

cap-bounds : (m : List ItemStack) → All (λ s. (0 < s.quantity) × (s.quantity ≤ 255)) (cap_stacks m)
unfolding cap_stacks
cap-bounds [] = tt
cap-bounds (s ∷ m) = ground (arith, cap-bounds m)

accumulate-known :
    (k : ItemType) (n : ℕ) (m : List ItemStack)
    → is_known_item k ≡ true
    → All (λ s. is_known_item s.item ≡ true) m
    → All (λ s. is_known_item s.item ≡ true) (accumulate k n m)
unfolding accumulate
accumulate-known k n [] e h = (e, tt)
accumulate-known k n (s ∷ m) e h = ground (arith, accumulate-known k n m e h.1)

aggregate-known :
    (m inventory : List ItemStack)
    → All (λ s. is_known_item s.item ≡ true) m
    → All (λ s. is_known_item s.item ≡ true) (aggregate m inventory)
unfolding aggregate
aggregate-known m [] h = h
aggregate-known m (s ∷ inventory) h =
    elim (Bool-cases (s.quantity == 0 || not (is_known_item s.item))) [
      | inl e ↦ rw e (aggregate-known m inventory h)
      | inr e ↦ rw e (
          aggregate-known (accumulate s.item s.quantity m) inventory
            (accumulate-known s.item s.quantity m (ground arith) h))
    ]

sound_of_parts :
    (m : List ItemStack)
    → All (λ s. is_known_item s.item ≡ true) m
    → All (λ s. (0 < s.quantity) × (s.quantity ≤ 255)) m
    → All SoundStack m
sound_of_parts [] h k = tt
sound_of_parts (s ∷ m) h k = ((h.0, k.0.0, k.0.1), sound_of_parts m h.1 k.1)

insert-Distinct :
    (s : ItemStack) (m : List ItemStack)
    → All (λ t. text_eq s.item t.item ≡ false) m
    → Distinct (s ∷ m)
    → Distinct (insert_by item_lt s m)
unfolding insert_by
insert-Distinct s [] k d = d
insert-Distinct s (t ∷ m) k d = ground (
  arith,
  insert-Distinct s m k.1 (d.0.1, d.1.1),
  insert_by-All (λ (x : ItemStack). text_eq x.item t.item ≡ false) item_lt s m k.0 d.1.0,
)

flip_Lacks :
    (item : ItemType) (m : List ItemStack) → Lacks item m → All (λ t. text_eq item t.item ≡ false) m
flip_Lacks item [] h = tt
flip_Lacks item (t ∷ m) h = (text_eq_comm item t.item ∙ h.0, flip_Lacks item m h.1)

sort-Distinct : (m : List ItemStack) → Distinct m → Distinct (sort_by item_lt m)
unfolding sort_by
sort-Distinct [] d = tt
sort-Distinct (s ∷ m) d =
    let rest = sort_by-All (λ (t : ItemStack). text_eq t.item s.item ≡ false) item_lt m d.0 in
    insert-Distinct s (sort_by item_lt m) (flip_Lacks s.item (sort_by item_lt m) rest)
      (rest, sort-Distinct m d.1)

above_each :
    (s : ItemStack) (m : List ItemStack)
    → All (λ t. item_lt t s ≡ false) m
    → Lacks s.item m
    → All (λ t. text_lt s.item t.item ≡ true) m
above_each s [] h k = tt
above_each s (t ∷ m) h k = (text_lt_total t.item s.item h.0 k.0, above_each s m h.1 k.1)

IsAscending-of_sorted :
    (m : List ItemStack) → IsSorted item_lt m → Distinct m → IsAscending (λ s. s.item) m
IsAscending-of_sorted [] h d = tt
IsAscending-of_sorted (s ∷ m) h d = (above_each s m h.0 d.0, IsAscending-of_sorted m h.1 d.1)

-- Whatever the stacks were, `normalizeInventory` brings them into normal form.
pub normalize-IsNormal : (inventory : List ItemStack) → IsNormal (normalize_inventory inventory)
unfolding normalize_inventory
normalize-IsNormal inventory =
    let capped = cap_stacks (aggregate [] inventory) in
    record {
      ascending =
          IsAscending-of_sorted (sort_by item_lt capped)
            (sort_by-IsSorted (order_on (λ (s : ItemStack). s.item)) capped)
            (sort-Distinct capped
              (cap-Distinct (aggregate [] inventory) (aggregate-Distinct [] inventory tt)));
      sound = sort_by-All SoundStack item_lt capped (
          sound_of_parts capped
            (cap-All (λ x. is_known_item x ≡ true) (aggregate [] inventory)
              (aggregate-known [] inventory tt))
            (cap-bounds (aggregate [] inventory)));
    }

-- It keeps of each known item what all its stacks hold, modulo 2 ^ 16 and at most 255.
pub total-normalize :
    (item : ItemType) (inventory : List ItemStack)
    → total item (normalize_inventory inventory) ≡ min 255 (u16 (known_total item inventory))
unfolding normalize_inventory
total-normalize item inventory = omega (
  arith,
  total-sort_by item item_lt (cap_stacks (aggregate [] inventory)),
  total-cap item (aggregate [] inventory) (aggregate-Distinct [] inventory tt),
  total-aggregate item [] inventory tt tt,
)
