-- ===== src/Roles/Assignment/Roster/Order.antt =====
-- The order of the players does not matter to `Assign`: it sees the players of a match xs a set.
use prison_break.Shared.{
  ℕ, ◌≡◌, refl, sym, ap, ap₂, ◌∙◌, true, false, List, [], ◌∷◌, arith, text_eq, text_lt,
  text_eq_refl, text_eq_sound, text_lt-ne, text_lt_total, All, length, count_if, sort_by, IsSorted,
  order_on, sort_by-IsSorted, length-sort_by, Bool-cases, inl, inr, count-sort_by,
}
use prison_break.Model.{PlayerId, MatchId}
use prison_break.Roles.Assignment.{assign, sort_ids}

abbrev pub occurrences : PlayerId → List PlayerId → ℕ
occurrences k ids = count_if (λ a. text_eq a k) ids

-- Nothing in a sorted list is below its head.
below-occurrences :
    (k a : PlayerId) (ids : List PlayerId)
    → All (λ b. text_lt b a ≡ false) ids
    → text_lt k a ≡ true
    → occurrences k ids ≡ 0
below-occurrences k a [] h e = refl
below-occurrences k a (b ∷ ids) h e = elim (Bool-cases (text_eq b k)) [
  | inl same ↦
      let low : text_lt b a ≡ true = rw (text_eq_sound b k same) e in ground (arith, h.0, low)
  | inr other ↦ rw other (below-occurrences k a ids h.1 e)
]

-- Two sorted lists with the same entries, xs often, are equal.
sorted_ext :
    (xs ys : List PlayerId)
    → IsSorted text_lt xs
    → IsSorted text_lt ys
    → ((k : PlayerId) → occurrences k xs ≡ occurrences k ys)
    → xs ≡ ys
sorted_ext [] [] h k e = refl
sorted_ext [] (b ∷ ys) h k e = absurd (ground (arith, e b, text_eq_refl b))
sorted_ext (a ∷ xs) [] h k e = absurd (ground (arith, e a, text_eq_refl a))
sorted_ext (a ∷ xs) (b ∷ ys) h k e = elim (Bool-cases (text_eq a b)) [
  | inl same ↦
      let heads = text_eq_sound a b same in
      ap₂ (λ x rest. x ∷ rest) heads
        (sorted_ext xs ys h.1 k.1 (λ c. ground (arith, e c, ap (λ x. text_eq x c) heads)))
  | inr other ↦ elim (Bool-cases (text_lt a b)) [
    | inl lt ↦
        absurd
          (ground (arith, e a, text_eq_refl a, text_lt-ne a b lt, below-occurrences a b ys k.0 lt))
    | inr ge ↦
        let lt = text_lt_total a b ge other in
        absurd
          (ground (arith, e b, text_eq_refl b, text_lt-ne b a lt, below-occurrences b a xs h.0 lt))
  ]
]

length_of_occurrences : (xs ys : List PlayerId) → sort_ids xs ≡ sort_ids ys → length xs ≡ length ys
unfolding sort_ids
length_of_occurrences xs ys e =
    sym (length-sort_by text_lt xs) ∙ ap length e ∙ length-sort_by text_lt ys

sort_ids_any_order :
    (xs ys : List PlayerId)
    → ((k : PlayerId) → occurrences k xs ≡ occurrences k ys)
    → sort_ids xs ≡ sort_ids ys
unfolding sort_ids
sort_ids_any_order xs ys h =
    sorted_ext (sort_by text_lt xs) (sort_by text_lt ys)
      (sort_by-IsSorted (order_on (λ (a : PlayerId). a)) xs)
      (sort_by-IsSorted (order_on (λ (a : PlayerId). a)) ys)
      (λ k.
        count-sort_by (λ a. text_eq a k) text_lt xs
        ∙ h k
        ∙ sym (count-sort_by (λ a. text_eq a k) text_lt ys))

-- Two lists with the same players, in any order, are dealt the same roles, or fail with the same error.
pub assign_any_order :
    (ids other : List PlayerId) (match : MatchId)
    → ((k : PlayerId) → occurrences k ids ≡ occurrences k other)
    → assign ids match ≡ assign other match
unfolding assign
assign_any_order ids other match e =
    let same = sort_ids_any_order ids other e in
    rw (same, length_of_occurrences ids other same) refl
