-- ===== src/Shared/Bytes.antt =====
-- Strings as lists of bytes: equality, and the byte-wise order by which `<` compares strings.
use Prim.Native.Nat.{ℕ}
use Prim.Native.Char.{code}
use Prim.Native.String.{String}
use mathlib.Core.Path.{◌≡◌, refl}
use mathlib.Core.Logic.{◌↔◌}
use mathlib.Core.Bool.{Bool, true, false}
use mathlib.Core.List.{List, [], ◌∷◌}
use native.Mathlib.Omega.{arith}
use prison_break.Shared.Tests.{ltb, ◌==◌, if◌then◌else◌}

abbrev pub Text : Type 0
Text = List ℕ

-- The bytes of an ASCII literal.
abbrev pub codes : String → Text
codes String.[] = []
codes (String.◌∷◌ c s) = code c ∷ codes s

unfoldable pub text_eq : Text → Text → Bool
text_eq [] [] = true
text_eq [] (b ∷ t) = false
text_eq (a ∷ s) [] = false
text_eq (a ∷ s) (b ∷ t) = if a == b then text_eq s t else false

unfoldable pub text_lt : Text → Text → Bool
text_lt [] [] = false
text_lt [] (b ∷ t) = true
text_lt (a ∷ s) [] = false
text_lt (a ∷ s) (b ∷ t) = if ltb a b then true else (if a == b then text_lt s t else false)

pub text_eq_refl : (a : Text) → text_eq a a ≡ true
unfolding text_eq
text_eq_refl [] = refl
text_eq_refl (x ∷ a) = ground (arith, text_eq_refl a)

pub text_eq_sound : (a b : Text) → text_eq a b ≡ true → a ≡ b
unfolding text_eq
text_eq_sound [] [] h = refl
text_eq_sound [] (y ∷ b) h = cc
text_eq_sound (x ∷ a) [] h = cc
text_eq_sound (x ∷ a) (y ∷ b) h = ground (arith, text_eq_sound a b)

pub text_eq_iff : (a b : Text) → (text_eq a b ≡ true) ↔ (a ≡ b)
text_eq_iff a b = (text_eq_sound a b, λ e. rw e (text_eq_refl b))

pub text_lt_irrefl : (a : Text) → text_lt a a ≡ false
unfolding text_lt
text_lt_irrefl [] = refl
text_lt_irrefl (x ∷ a) = ground (arith, text_lt_irrefl a)

pub text_lt_asymm : (a b : Text) → text_lt a b ≡ true → text_lt b a ≡ false
unfolding text_lt
text_lt_asymm [] [] h = cc
text_lt_asymm [] (y ∷ b) h = refl
text_lt_asymm (x ∷ a) [] h = cc
text_lt_asymm (x ∷ a) (y ∷ b) h = ground (arith, text_lt_asymm a b)

-- Two texts of which neither is below the other are one.
pub text_lt_connected :
    (a b : Text) → text_lt a b ≡ false → text_lt b a ≡ false → text_eq a b ≡ true
unfolding text_lt text_eq
text_lt_connected [] [] h k = refl
text_lt_connected [] (y ∷ b) h k = cc
text_lt_connected (x ∷ a) [] h k = cc
text_lt_connected (x ∷ a) (y ∷ b) h k = ground (arith, text_lt_connected a b)

pub text_lt_trans : (a b c : Text) → text_lt a b ≡ true → text_lt b c ≡ true → text_lt a c ≡ true
unfolding text_lt
text_lt_trans [] [] c h k = cc
text_lt_trans [] (y ∷ b) [] h k = cc
text_lt_trans [] (y ∷ b) (z ∷ c) h k = refl
text_lt_trans (x ∷ a) [] c h k = cc
text_lt_trans (x ∷ a) (y ∷ b) [] h k = cc
text_lt_trans (x ∷ a) (y ∷ b) (z ∷ c) h k = ground (arith, text_lt_trans a b c)

-- The order with ties, `!(b < a)`, is transitive too.
pub text_ge_trans : (a b c : Text) → text_lt b a ≡ false → text_lt c b ≡ false → text_lt c a ≡ false
unfolding text_lt
text_ge_trans [] b [] h k = refl
text_ge_trans [] b (z ∷ c) h k = refl
text_ge_trans (x ∷ a) [] c h k = cc
text_ge_trans (x ∷ a) (y ∷ b) [] h k = cc
text_ge_trans (x ∷ a) (y ∷ b) (z ∷ c) h k = ground (arith, text_ge_trans a b c)

-- What is below another text is not that text.
pub text_lt-ne : (a b : Text) → text_lt a b ≡ true → text_eq b a ≡ false
unfolding text_lt text_eq
text_lt-ne [] [] h = cc
text_lt-ne [] (y ∷ b) h = refl
text_lt-ne (x ∷ a) [] h = cc
text_lt-ne (x ∷ a) (y ∷ b) h = ground (arith, text_lt-ne a b)

-- Of two different texts one is below the other.
pub text_lt_total : (a b : Text) → text_lt a b ≡ false → text_eq a b ≡ false → text_lt b a ≡ true
unfolding text_lt text_eq
text_lt_total [] [] h k = cc
text_lt_total [] (y ∷ b) h k = cc
text_lt_total (x ∷ a) [] h k = refl
text_lt_total (x ∷ a) (y ∷ b) h k = ground (arith, text_lt_total a b)
