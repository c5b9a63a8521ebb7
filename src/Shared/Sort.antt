-- ===== src/Shared/Sort.antt =====
-- `sort.Slice` and `sort.SliceStable`: a stable sort by a strict order given as a Boolean test.
use mathlib.Core.Path.{◌≡◌, refl}
use mathlib.Core.Bool.{Bool, true, false}
use mathlib.Core.List.{List, [], ◌∷◌, Perm}
use mathlib.Core.List.Perm
use prison_break.Shared.Tests.{if◌then◌else◌, Bool-cases}
use prison_break.Shared.Bytes.{Text, text_lt, text_lt_asymm, text_ge_trans}
use prison_break.Shared.Lists.{Any, length, All, All-imp, count_if}
use Prim.Native.Nat.{suc}
use native.Mathlib.Omega.{arith}
use mathlib.Core.Logic.{◌↔◌, ◌⊎◌, inl, inr}

-- What a sort needs of its test: no two entries below each other, and ties that compose.
pub record StrictOrder {ℓ} (A : Type ℓ) : Type ℓ where
  pub lt : A → A → Bool
  pub asymm : (a b : A) → lt a b ≡ true → lt b a ≡ false
  pub ge_trans : (a b c : A) → lt b a ≡ false → lt c b ≡ false → lt c a ≡ false

module _ {ℓ} {A : Type ℓ} where
  -- Put an entry before the first one that is above it.
  unfoldable pub insert_by : (A → A → Bool) → A → List A → List A
  insert_by lt a [] = a ∷ []
  insert_by lt a (x ∷ xs) = if lt x a then x ∷ insert_by lt a xs else a ∷ x ∷ xs

  unfoldable pub sort_by : (A → A → Bool) → List A → List A
  unfolding insert_by
  sort_by lt [] = []
  sort_by lt (x ∷ xs) = insert_by lt x (sort_by lt xs)

  -- No entry is below one that stands before it.
  abbrev pub IsSorted : (A → A → Bool) → List A → Type 0
  IsSorted lt [] = Unit
  IsSorted lt (x ∷ xs) = All (λ y. lt y x ≡ false) xs × IsSorted lt xs

  insert_by-perm : (lt : A → A → Bool) (a : A) (xs : List A) → Perm (insert_by lt a xs) (a ∷ xs)
  unfolding insert_by
  insert_by-perm lt a [] = Perm.refl (a ∷ [])
  insert_by-perm lt a (x ∷ xs) = elim (Bool-cases (lt x a)) [
    | inl h ↦ rw h (Perm.trans (Perm.cons x (insert_by-perm lt a xs)) (Perm.swap a x xs))
    | inr h ↦ rw h (Perm.refl (a ∷ x ∷ xs))
  ]

  pub sort_by-perm : (lt : A → A → Bool) (xs : List A) → Perm (sort_by lt xs) xs
  unfolding sort_by
  sort_by-perm lt [] = Perm.refl []
  sort_by-perm lt (x ∷ xs) =
      Perm.trans (insert_by-perm lt x (sort_by lt xs)) (Perm.cons x (sort_by-perm lt xs))

  pub insert_by-All {κ} :
      (P : A → Type κ) (lt : A → A → Bool) (a : A) (xs : List A)
      → P a
      → All P xs
      → All P (insert_by lt a xs)
  unfolding insert_by
  insert_by-All P lt a [] p h = (p, tt)
  insert_by-All P lt a (x ∷ xs) p h = elim (Bool-cases (lt x a)) [
    | inl e ↦ rw e (h.0, insert_by-All P lt a xs p h.1)
    | inr e ↦ rw e (p, h)
  ]

  pub sort_by-All {κ} :
      (P : A → Type κ) (lt : A → A → Bool) (xs : List A) → All P xs → All P (sort_by lt xs)
  unfolding sort_by
  sort_by-All P lt [] h = tt
  sort_by-All P lt (x ∷ xs) h = insert_by-All P lt x (sort_by lt xs) h.0 (sort_by-All P lt xs h.1)

  insert_by-Any :
      (P : A → Type 0) (lt : A → A → Bool) (a : A) (xs : List A)
      → Any P (insert_by lt a xs) ↔ (P a ⊎ Any P xs)
  unfolding insert_by
  insert_by-Any P lt a [] = ground arith
  insert_by-Any P lt a (x ∷ xs) = ground (arith, insert_by-Any P lt a xs)

  -- Sorting neither loses an entry nor adds one.
  pub sort_by-Any :
      (P : A → Type 0) (lt : A → A → Bool) (xs : List A) → Any P (sort_by lt xs) ↔ Any P xs
  unfolding sort_by
  sort_by-Any P lt [] = ground arith
  sort_by-Any P lt (x ∷ xs) =
      ground (arith, insert_by-Any P lt x (sort_by lt xs), sort_by-Any P lt xs)

  count-insert_by :
      (t : A → Bool) (lt : A → A → Bool) (a : A) (xs : List A)
      → count_if t (insert_by lt a xs) ≡ count_if t (a ∷ xs)
  unfolding insert_by
  count-insert_by t lt a [] = refl
  count-insert_by t lt a (x ∷ xs) = ground (arith, count-insert_by t lt a xs)

  -- As many entries pass a test after sorting as before.
  pub count-sort_by :
      (t : A → Bool) (lt : A → A → Bool) (xs : List A) → count_if t (sort_by lt xs) ≡ count_if t xs
  unfolding sort_by
  count-sort_by t lt [] = refl
  count-sort_by t lt (x ∷ xs) =
      ground (arith, count-insert_by t lt x (sort_by lt xs), count-sort_by t lt xs)

  length-insert_by :
      (lt : A → A → Bool) (a : A) (xs : List A) → length (insert_by lt a xs) ≡ suc (length xs)
  unfolding insert_by
  length-insert_by lt a [] = refl
  length-insert_by lt a (x ∷ xs) = ground (arith, length-insert_by lt a xs)

  pub length-sort_by : (lt : A → A → Bool) (xs : List A) → length (sort_by lt xs) ≡ length xs
  unfolding sort_by
  length-sort_by lt [] = refl
  length-sort_by lt (x ∷ xs) =
      omega (arith, length-insert_by lt x (sort_by lt xs), length-sort_by lt xs)

  -- A list that is in order already is left as it is.
  pub sort_by_of_IsSorted : (lt : A → A → Bool) (xs : List A) → IsSorted lt xs → sort_by lt xs ≡ xs
  unfolding sort_by insert_by
  sort_by_of_IsSorted lt [] h = refl
  sort_by_of_IsSorted lt (x ∷ []) h = refl
  sort_by_of_IsSorted lt (x ∷ y ∷ xs) h = rw (sort_by_of_IsSorted lt (y ∷ xs) h.1, h.0.0)

module _ {ℓ} {A : Type ℓ} (o : StrictOrder A) where
  open o use {lt, asymm, ge_trans}

  pub insert_by-IsSorted : (a : A) (xs : List A) → IsSorted lt xs → IsSorted lt (insert_by lt a xs)
  unfolding insert_by
  insert_by-IsSorted a [] h = (tt, tt)
  insert_by-IsSorted a (x ∷ xs) h = elim (Bool-cases (lt x a)) [
    | inl e ↦
        rw e (
          insert_by-All (λ y. lt y x ≡ false) lt a xs (asymm x a e) h.0,
          insert_by-IsSorted a xs h.1,
        )
    | inr e ↦ rw e (
      (e, All-imp (λ y. lt y x ≡ false) (λ y. lt y a ≡ false) (λ y k. ge_trans a x y e k) xs h.0),
      h,
    )
  ]

  pub sort_by-IsSorted : (xs : List A) → IsSorted lt (sort_by lt xs)
  unfolding sort_by
  sort_by-IsSorted [] = tt
  sort_by-IsSorted (x ∷ xs) = insert_by-IsSorted x (sort_by lt xs) (sort_by-IsSorted xs)

-- Strings, and values that are ordered by a string in them.
abbrev pub order_on {ℓ} : {A : Type ℓ} → (A → Text) → StrictOrder A
order_on key = record {
  lt = λ a b. text_lt (key a) (key b);
  asymm = λ a b. text_lt_asymm (key a) (key b);
  ge_trans = λ a b c. text_ge_trans (key a) (key b) (key c);
}

-- Every entry is strictly below the later ones.
abbrev pub IsAscending {ℓ} : {A : Type ℓ} → (A → Text) → List A → Type 0
IsAscending key [] = Unit
IsAscending key (x ∷ xs) = All (λ y. text_lt (key x) (key y) ≡ true) xs × IsAscending key xs
