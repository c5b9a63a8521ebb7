-- ===== src/Roles/Assignment/Roster/Balance.antt =====
-- Every template has one warden, one gang leader in a match of three or more, and a profile for each.
use prison_break.Shared.{
  ℕ, zero, suc, ◌%◌, ◌<◌, ◌≡◌, ◌⊎◌, refl, Bool, true, ◌&&◌, List, [], ◌∷◌, arith, length, get_or,
  count_if, ltb, ◌==◌, if◌then◌else◌, Bool-cases, inl, inr,
}
use native.Mathlib.Nat.{mod-lt}
use prison_break.Model.{PlayerId, MatchId}
use prison_break.Model.Kinds.{is_warden, is_gang_leader}
use prison_break.Roles.Assignment.Templates.{RoleProfile, role_templates_by_count}
use prison_break.Roles.Assignment.{template_for, profiles_for_count, fallback, neutrals, hash_seed}

all_pass : {A : Type 0} → (A → Bool) → List A → Bool
all_pass t [] = true
all_pass t (x ∷ xs) = t x && all_pass t xs

all_pass-get_or :
    {A : Type 0} (t : A → Bool) (xs : List A) (i : ℕ) (d : A)
    → all_pass t xs ≡ true
    → i < length xs
    → t (get_or xs i d) ≡ true
unfolding all_pass
all_pass-get_or t [] i d h lt = absurd (omega arith)
all_pass-get_or t (x ∷ xs) zero d h lt = ground arith
all_pass-get_or t (x ∷ xs) (suc i) d h lt = all_pass-get_or t xs i d (ground arith) (omega arith)

abbrev pub plays_warden : RoleProfile → Bool
plays_warden p = is_warden p.role

abbrev pub plays_leader : RoleProfile → Bool
plays_leader p = is_gang_leader p.role

balanced : ℕ → List RoleProfile → Bool
balanced n ps =
    length ps == n
    && (count_if plays_warden ps == 1 && count_if plays_leader ps == (if ltb n 3 then 0 else 1))

-- The templates for a number of players, if there are any, are balanced.
abbrev Templated : ℕ → Type 0
Templated n =
    (role_templates_by_count n ≡ [])
    ⊎ ((all_pass (balanced n) (role_templates_by_count n) ≡ true)
        × (0 < length (role_templates_by_count n)))

templates_balanced :
    Templated 6
    × Templated 7
    × Templated 8
    × Templated 9
    × Templated 10
    × Templated 11
    × Templated 12
unfolding all_pass balanced role_templates_by_count
templates_balanced = (
  inr (refl, omega arith),
  inr (refl, omega arith),
  inr (refl, omega arith),
  inr (refl, omega arith),
  inr (refl, omega arith),
  inr (refl, omega arith),
  inr (refl, omega arith),
)

at_count : (n k : ℕ) → (n == k) ≡ true → Templated k → Templated n
at_count n k e h = let same : n ≡ k = ground arith in rw same h

templates_or_none : (n : ℕ) → Templated n
unfolding role_templates_by_count
templates_or_none n =
    let t = templates_balanced in
    elim (Bool-cases (n == 6)) [
      | inl e ↦ at_count n 6 e t.0
      | inr e6 ↦ elim (Bool-cases (n == 7)) [
        | inl e ↦ at_count n 7 e t.1
        | inr e7 ↦ elim (Bool-cases (n == 8)) [
          | inl e ↦ at_count n 8 e t.2
          | inr e8 ↦ elim (Bool-cases (n == 9)) [
            | inl e ↦ at_count n 9 e t.3
            | inr e9 ↦ elim (Bool-cases (n == 10)) [
              | inl e ↦ at_count n 10 e t.4
              | inr e10 ↦ elim (Bool-cases (n == 11)) [
                | inl e ↦ at_count n 11 e t.5
                | inr e11 ↦ elim (Bool-cases (n == 12)) [
                  | inl e ↦ at_count n 12 e t.6
                  | inr e12 ↦ inl (rw (e6, e7, e8, e9, e10, e11, e12) refl)
                ]
              ]
            ]
          ]
        ]
      ]
    ]

neutrals_lem :
    (n : ℕ)
    → (length (neutrals n) ≡ n)
      × (count_if plays_warden (neutrals n) ≡ 0)
      × (count_if plays_leader (neutrals n) ≡ 0)
neutrals_lem zero = (refl, refl, refl)
neutrals_lem (suc n) = ground (arith, neutrals_lem n)

fallback-balanced : (n : ℕ) → 0 < n → balanced n (fallback n) ≡ true
unfolding balanced
fallback-balanced zero h = absurd (omega arith)
fallback-balanced (suc zero) h = refl
fallback-balanced (suc (suc zero)) h = refl
fallback-balanced (suc (suc (suc n))) h = ground (arith, neutrals_lem n)

profiles_balanced :
    (n : ℕ)
    → 0 < n
    → (all_pass (balanced n) (profiles_for_count n) ≡ true) × (0 < length (profiles_for_count n))
unfolding profiles_for_count all_pass
profiles_balanced n pos = elim (templates_or_none n) [
  | inl none_there ↦ rw none_there (rw (fallback-balanced n pos) (refl, omega arith))
  | inr (ok, some_there) ↦
      let test : ltb 0 (length (role_templates_by_count n)) ≡ true = ground arith in
      rw test (ok, some_there)
]

-- The template that is dealt to a number of players has as many profiles, of which one is the warden,
-- and one the gang leader if there are three players or more.
pub template_for_lem :
    (match : MatchId) (ordered : List PlayerId)
    → 0 < length ordered
    → (length (template_for match ordered) ≡ length ordered)
      × (count_if plays_warden (template_for match ordered) ≡ 1)
      × (count_if plays_leader (template_for match ordered)
          ≡ (if ltb (length ordered) 3 then 0 else 1))
unfolding template_for balanced
template_for_lem match ordered pos =
    let n = length ordered in
    let profiles = profiles_for_count n in
    let (all, some_there) = profiles_balanced n pos in
    let index = if ltb 1 (length profiles) then hash_seed match ordered % length profiles else 0 in
    let lt : index < length profiles =
      index_in_range (hash_seed match ordered) (length profiles) some_there in
    of_balanced n (get_or profiles index []) (all_pass-get_or (balanced n) profiles index [] all lt)
  where
    index_in_range : (seed n : ℕ) → 0 < n → (if ltb 1 n then seed % n else 0) < n
    index_in_range seed n h = ground (arith, mod-lt seed h)

    of_balanced :
        (n : ℕ) (ps : List RoleProfile)
        → balanced n ps ≡ true
        → (length ps ≡ n)
          × (count_if plays_warden ps ≡ 1)
          × (count_if plays_leader ps ≡ (if ltb n 3 then 0 else 1))
    of_balanced n ps e = ground arith
