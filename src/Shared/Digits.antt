-- ===== src/Shared/Digits.antt =====
-- `strconv.Itoa` and the verb %06d of fmt, on numbers that are not negative.
use Prim.Native.Nat.{ℕ, zero, suc, ◌+◌, ◌-◌, ◌*◌, ◌/◌, ◌%◌, ◌<◌}
use mathlib.Core.Path.{◌≡◌, refl, sym, ap, ◌∙◌}
use mathlib.Core.Logic.{inl, inr}
use mathlib.Core.List.{[], ◌∷◌, ◌++◌}
use native.Mathlib.Omega.{arith}
use prison_break.Shared.Tests.{ltb, if◌then◌else◌, Bool-cases}
use prison_break.Shared.Lists.{length}
use prison_break.Shared.Bytes.{Text}

-- The digits of a number; there are enough where the fuel is.
unfoldable pub decimal : ℕ → ℕ → Text
decimal zero n = []
decimal (suc fuel) n =
    let more = decimal fuel (n / 10) in
    if ltb n 10 then (48 + n) ∷ [] else more ++ (48 + n % 10) ∷ []

abbrev zeros : ℕ → Text
zeros zero = []
zeros (suc n) = 48 ∷ zeros n

-- Digits filled up with zeros to six, of a `uint64`, which has twenty at most.
unfoldable pub six_digits : ℕ → Text
unfolding decimal
six_digits n = let s = decimal 20 n in zeros (6 - length s) ++ s

value : ℕ → Text → ℕ
value n [] = n
value n (c ∷ s) = value (n * 10 + (c - 48)) s

abbrev ten_to : ℕ → ℕ
ten_to zero = 1
ten_to (suc n) = 10 * ten_to n

value-append_one : (n : ℕ) (s : Text) (c : ℕ) → value n (s ++ c ∷ []) ≡ value n s * 10 + (c - 48)
unfolding value
value-append_one n [] c = refl
value-append_one n (d ∷ s) c = value-append_one (n * 10 + (d - 48)) s c

value-decimal : (fuel n : ℕ) → n < ten_to fuel → value 0 (decimal fuel n) ≡ n
unfolding decimal value
value-decimal zero n h = omega arith
value-decimal (suc fuel) n h = elim (Bool-cases (ltb n 10)) [
  | inl e ↦ rw e (omega arith)
  | inr e ↦ rw e (
      omega (
        arith,
        value-append_one 0 (decimal fuel (n / 10)) (48 + n % 10),
        value-decimal fuel (n / 10) (omega arith),
      ))
]

value-zeros : (n : ℕ) (s : Text) → value 0 (zeros n ++ s) ≡ value 0 s
unfolding value
value-zeros zero s = refl
value-zeros (suc n) s = value-zeros n s

-- Different words have different digits.
pub six_digits-injective :
    (m n : ℕ)
    → m < 18446744073709551616
    → n < 18446744073709551616
    → six_digits m ≡ six_digits n
    → m ≡ n
unfolding six_digits
six_digits-injective m n hm hn e = sym (value_of m hm) ∙ ap (value 0) e ∙ value_of n hn
  where
    value_of : (k : ℕ) → k < 18446744073709551616 → value 0 (six_digits k) ≡ k
    value_of k h =
        value-zeros (6 - length (decimal 20 k)) (decimal 20 k) ∙ value-decimal 20 k (omega arith)
