-- ===== src/Shared/Spaces.antt =====
-- `strings.TrimSpace`: the white space of Unicode, in UTF-8, is cut off at both ends.
use Prim.Native.Nat.{ℕ, zero, suc}
use mathlib.Core.List.{List, [], ◌∷◌, reverse, map}
use mathlib.Core.Option.{Option, none, some}
use prison_break.Shared.Tests.{◌==◌, if◌then◌else◌}
use prison_break.Shared.Lists.{length}
use prison_break.Shared.Bytes.{Text}

-- The encodings of the characters of white space.
abbrev spaces : List Text
spaces =
    (9 ∷ [])
    ∷ (10 ∷ [])
    ∷ (11 ∷ [])
    ∷ (12 ∷ [])
    ∷ (13 ∷ [])
    ∷ (32 ∷ [])
    ∷ (194 ∷ 133 ∷ [])
    ∷ (194 ∷ 160 ∷ [])
    ∷ (225 ∷ 154 ∷ 128 ∷ [])
    ∷ (226 ∷ 128 ∷ 128 ∷ [])
    ∷ (226 ∷ 128 ∷ 129 ∷ [])
    ∷ (226 ∷ 128 ∷ 130 ∷ [])
    ∷ (226 ∷ 128 ∷ 131 ∷ [])
    ∷ (226 ∷ 128 ∷ 132 ∷ [])
    ∷ (226 ∷ 128 ∷ 133 ∷ [])
    ∷ (226 ∷ 128 ∷ 134 ∷ [])
    ∷ (226 ∷ 128 ∷ 135 ∷ [])
    ∷ (226 ∷ 128 ∷ 136 ∷ [])
    ∷ (226 ∷ 128 ∷ 137 ∷ [])
    ∷ (226 ∷ 128 ∷ 138 ∷ [])
    ∷ (226 ∷ 128 ∷ 168 ∷ [])
    ∷ (226 ∷ 128 ∷ 169 ∷ [])
    ∷ (226 ∷ 128 ∷ 175 ∷ [])
    ∷ (226 ∷ 129 ∷ 159 ∷ [])
    ∷ (227 ∷ 128 ∷ 128 ∷ [])
    ∷ []

-- The text after a prefix.
after_prefix : Text → Text → Option Text
after_prefix [] s = some s
after_prefix (a ∷ p) [] = none
after_prefix (a ∷ p) (b ∷ s) = if a == b then after_prefix p s else none

after_any : List Text → Text → Option Text
unfolding after_prefix
after_any [] s = none
after_any (p ∷ ps) s = elim (after_prefix p s) [ some rest ↦ some rest | none ↦ after_any ps s ]

-- There are no more spaces than bytes, which are the fuel.
cut_spaces : ℕ → List Text → Text → Text
unfolding after_any
cut_spaces zero ps s = s
cut_spaces (suc fuel) ps s = elim (after_any ps s) [
  | some rest ↦ cut_spaces fuel ps rest
  | none ↦ s
]

unfoldable pub trim_space : Text → Text
unfolding cut_spaces
trim_space s =
    let front = cut_spaces (length s) spaces s in
    reverse (cut_spaces (length front) (map reverse spaces) (reverse front))
