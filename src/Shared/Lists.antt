-- ===== src/Shared/Lists.antt =====
-- Lists measured and indexed by native numbers, predicates on all entries, and Boolean filters.
use Prim.Native.Nat.{ℕ, zero, suc, ◌+◌, ◌≤◌}
use mathlib.Core.Path.{◌≡◌}
use mathlib.Core.Logic.{◌⊎◌}
use mathlib.Core.Bool.{Bool, false, ◌||◌}
use mathlib.Core.List.{List, [], ◌∷◌, ◌++◌}
use mathlib.Core.Option.{Option, none, some}
use native.Mathlib.Omega.{arith}
use prison_break.Shared.Tests.{if◌then◌else◌}

module _ {ℓ} {A : Type ℓ} where
  abbrev pub length : List A → ℕ
  length [] = 0
  length (x ∷ xs) = suc (length xs)

  abbrev pub get_elem? : List A → ℕ → Option A
  get_elem? [] i = none
  get_elem? (x ∷ xs) zero = some x
  get_elem? (x ∷ xs) (suc i) = get_elem? xs i

  abbrev pub get_or : List A → ℕ → A → A
  get_or [] i d = d
  get_or (x ∷ xs) zero d = x
  get_or (x ∷ xs) (suc i) d = get_or xs i d

  abbrev pub All {κ} : (A → Type κ) → List A → Type κ
  All Q [] = Unit
  All Q (first ∷ others) = Q first × All Q others

  -- Some entry has the property.
  abbrev pub Any : (A → Type 0) → List A → Type 0
  Any P [] = ⊥
  Any P (x ∷ xs) = P x ⊎ Any P xs

  -- The entries that pass a test, in their order.
  abbrev pub keep : (A → Bool) → List A → List A
  keep t [] = []
  keep t (x ∷ xs) = if t x then x ∷ keep t xs else keep t xs

  -- Is there an entry that passes the test?
  abbrev pub any : (A → Bool) → List A → Bool
  any t [] = false
  any t (x ∷ xs) = t x || any t xs

  -- How many entries pass the test?
  abbrev pub count_if : (A → Bool) → List A → ℕ
  count_if t [] = 0
  count_if t (x ∷ xs) = if t x then suc (count_if t xs) else count_if t xs

module _ {ℓ} {A : Type ℓ} where
  pub length-append : (xs ys : List A) → length (xs ++ ys) ≡ length xs + length ys
  length-append [] ys = omega arith
  length-append (x ∷ xs) ys = omega (arith, length-append xs ys)

  pub length-keep-le : (t : A → Bool) (xs : List A) → length (keep t xs) ≤ length xs
  length-keep-le t [] = omega arith
  length-keep-le t (x ∷ xs) = ground (arith, length-keep-le t xs)

  pub All-append {κ} :
      (Q : A → Type κ) (front back : List A) → All Q front → All Q back → All Q (front ++ back)
  All-append Q [] back of_front of_back = of_back
  All-append Q (first ∷ front) back of_front of_back =
      let rest = All-append Q front back of_front.1 of_back in (of_front.0, rest)

  pub All-imp {κ μ} :
      (P : A → Type κ) (Q : A → Type μ)
      → ((a : A) → P a → Q a)
      → (xs : List A) → All P xs
      → All Q xs
  All-imp P Q f [] h = tt
  All-imp P Q f (x ∷ xs) h = (f x h.0, All-imp P Q f xs h.1)
