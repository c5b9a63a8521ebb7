-- ===== src/Items/Inventory/Canonical.antt =====
-- A normal inventory is determined by what it holds, so to normalize twice is to normalize once.
use mathlib.Core.Bool.{false≢true}
use prison_break.Shared.{
  subst, ◌↔◌, ◌≤◌, ◌≡◌, refl, ap, ap₂, sym, ◌∙◌, true, false, List, [], ◌∷◌, arith, All, All-imp,
  text_eq, text_eq_sound, text_eq_refl, text_lt, text_lt-ne, text_lt_total, text_lt_trans,
  Bool-cases, inl, inr,
}
use prison_break.Model.{ItemType, ItemStack}
use prison_break.Items.Catalog.{is_known_item}
use prison_break.Items.Inventory.{normalize_inventory}
use prison_break.Items.Inventory.Totals.{
  total, known_total, Lacks, total_of_Lacks, total_of_head, text_eq_comm,
}
use prison_break.Items.Inventory.Normal.{
  SoundStack, IsNormal, Distinct-of_IsAscending, normalize-IsNormal, total-normalize,
}

pub tail-IsNormal : {s : ItemStack} {m : List ItemStack} → IsNormal (s ∷ m) → IsNormal m
tail-IsNormal h = record { ascending = h.ascending.1; sound = h.sound.1 }

-- An item below the first has no stack.
Lacks-below :
    (item : ItemType) (s : ItemStack) (m : List ItemStack)
    → IsNormal (s ∷ m)
    → text_lt item s.item ≡ true
    → Lacks item (s ∷ m)
Lacks-below item s m h e = (
  text_lt-ne item s.item e,
  All-imp (λ (t : ItemStack). text_lt s.item t.item ≡ true)
      (λ (t : ItemStack). text_eq t.item item ≡ false)
      (λ t k. text_lt-ne item t.item (text_lt_trans item s.item t.item e k)) m h.ascending.0,
)

pub total_of_first :
    (s : ItemStack) (m : List ItemStack) → IsNormal (s ∷ m) → total s.item (s ∷ m) ≡ s.quantity
total_of_first s m h = ground (
  arith,
  text_eq_refl s.item,
  total_of_Lacks s.item m (Distinct-of_IsAscending (s ∷ m) h.ascending).0,
)

-- The first item of a normal inventory is held, so it is not below all of another's.
not_below :
    (s t : ItemStack) (m n : List ItemStack)
    → IsNormal (s ∷ m)
    → IsNormal (t ∷ n)
    → total s.item (s ∷ m) ≡ total s.item (t ∷ n)
    → text_lt s.item t.item ≡ false
not_below s t m n h k e = elim (Bool-cases (text_lt s.item t.item)) [
  | inl below ↦ absurd (
      omega (
        arith,
        total_of_first s m h,
        e,
        total_of_Lacks s.item (t ∷ n) (Lacks-below s.item t n k below),
        h.sound.0.1,
      ))
  | inr e' ↦ e'
]

heads_agree :
    (s t : ItemStack) (m n : List ItemStack)
    → IsNormal (s ∷ m)
    → IsNormal (t ∷ n)
    → ((item : ItemType) → total item (s ∷ m) ≡ total item (t ∷ n))
    → s ≡ t
heads_agree s t m n h k e =
    let same : s.item ≡ t.item = sym (text_eq_sound t.item s.item (same_item)) in
    ground
      (arith, total_of_first s m h, total_of_first t n k, e s.item, ap (λ x. total x (t ∷ n)) same)
  where
    same_item : text_eq t.item s.item ≡ true
    same_item = ground (
      arith,
      not_below s t m n h k (e s.item),
      not_below t s n m k h (sym (e t.item)),
      text_lt_total s.item t.item,
      text_eq_comm s.item t.item,
    )

pub normal_ext :
    (a b : List ItemStack)
    → IsNormal a
    → IsNormal b
    → ((item : ItemType) → total item a ≡ total item b)
    → a ≡ b
normal_ext [] [] h k e = refl
normal_ext [] (t ∷ n) h k e = absurd (omega (arith, e t.item, total_of_first t n k, k.sound.0.1))
normal_ext (s ∷ m) [] h k e = absurd (omega (arith, e s.item, total_of_first s m h, h.sound.0.1))
normal_ext (s ∷ m) (t ∷ n) h k e =
    let same = heads_agree s t m n h k e in
    ap₂ ◌∷◌ same (
      normal_ext m n (tail-IsNormal h) (tail-IsNormal k) (λ item.
        ground (arith, e item, ap (λ x. x.quantity) same, ap (λ x. text_eq x.item item) same)))

pub total-le_of_IsNormal : (item : ItemType) (m : List ItemStack) → IsNormal m → total item m ≤ 255
total-le_of_IsNormal item [] h = omega arith
total-le_of_IsNormal item (s ∷ m) h = ground (
  arith,
  total-le_of_IsNormal item m (tail-IsNormal h),
  total_of_head item s m (Distinct-of_IsAscending (s ∷ m) h.ascending).0,
)

unknown_total :
    (item : ItemType) (m : List ItemStack)
    → All SoundStack m
    → is_known_item item ≡ false
    → total item m ≡ 0
unknown_total item [] h e = refl
unknown_total item (s ∷ m) h e = elim (Bool-cases (text_eq s.item item)) [
  | inl same ↦
      let path = ap is_known_item (text_eq_sound s.item item same) in
      absurd (false≢true (sym e ∙ sym path ∙ h.0.0))
  | inr other ↦ rw other (unknown_total item m h.1 e)
]

-- What a normal inventory holds of an item, it holds within the bounds of a stack.
pub total_of_IsNormal :
    (item : ItemType) (m : List ItemStack)
    → IsNormal m
    → (total item m ≤ 255) × (known_total item m ≡ total item m)
total_of_IsNormal item m h =
    ground (arith, total-le_of_IsNormal item m h, unknown_total item m h.sound)

-- The normal inventories are exactly those that `normalizeInventory` leaves as they are. It is so
-- idempotent, and two normal inventories that hold the same of every item are one.
pub normalize_inventory-canonical :
    (m : List ItemStack)
    → (IsNormal m ↔ (normalize_inventory m ≡ m))
      × (normalize_inventory (normalize_inventory m) ≡ normalize_inventory m)
normalize_inventory-canonical m = (
  (fixed m, λ e. subst IsNormal e (normalize-IsNormal m)),
  fixed (normalize_inventory m) (normalize-IsNormal m),
)
  where
    fixed : (n : List ItemStack) → IsNormal n → normalize_inventory n ≡ n
    fixed n h =
        normal_ext (normalize_inventory n) n (normalize-IsNormal n) h
          (λ item. omega (arith, total-normalize item n, total_of_IsNormal item n h))
