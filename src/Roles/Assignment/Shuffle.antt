-- ===== src/Roles/Assignment/Shuffle.antt =====
-- Shuffling keeps the profiles.
use prison_break.Shared.{
  ℕ, zero, suc, ◌+◌, ◌-◌, ◌<◌, ◌≡◌, ◌≢◌, ◌⊎◌, refl, ap, ◌∙◌, Bool, List, [], ◌∷◌, arith, length,
  get_or, count_if, ◌==◌, if◌then◌else◌, Bool-cases, inl, inr,
}
use native.Mathlib.Nat.{mod-lt}
use prison_break.Roles.Assignment.Templates.{RoleProfile, warden_good}
use prison_break.Roles.Assignment.{
  set, swap, draw_below, shuffle_from, shuffle_role_profiles, next_random,
}

one_if : Bool → ℕ
one_if b = if b then 1 else 0

length-set : {A : Type 0} (xs : List A) (i : ℕ) (v : A) → length (set xs i v) ≡ length xs
length-set [] i v = refl
length-set (x ∷ xs) zero v = refl
length-set (x ∷ xs) (suc i) v = ap suc (length-set xs i v)

get_or-set_self :
    {A : Type 0} (xs : List A) (i : ℕ) (v d : A) → i < length xs → get_or (set xs i v) i d ≡ v
get_or-set_self [] i v d h = absurd (omega arith)
get_or-set_self (x ∷ xs) zero v d h = refl
get_or-set_self (x ∷ xs) (suc i) v d h = get_or-set_self xs i v d (omega arith)

get_or-set_other :
    {A : Type 0} (xs : List A) (i j : ℕ) (v d : A) → i ≢ j → get_or (set xs i v) j d ≡ get_or xs j d
get_or-set_other [] i j v d h = refl
get_or-set_other (x ∷ xs) zero zero v d h = absurd (h refl)
get_or-set_other (x ∷ xs) zero (suc j) v d h = refl
get_or-set_other (x ∷ xs) (suc i) zero v d h = refl
get_or-set_other (x ∷ xs) (suc i) (suc j) v d h = get_or-set_other xs i j v d (λ e. h (ap suc e))

-- What an exchange reads at its second index after its first write.
get_or-set_again :
    {A : Type 0} (xs : List A) (i j : ℕ) (d : A)
    → i < length xs
    → get_or (set xs i (get_or xs j d)) j d ≡ get_or xs j d
get_or-set_again xs i j d h = elim (Bool-cases (i == j)) [
  | inl e ↦
      let same : i ≡ j = ground arith in
      rw same (get_or-set_self xs j (get_or xs j d) d (rw same at h))
  | inr e ↦ get_or-set_other xs i j (get_or xs j d) d (λ same. ground arith)
]

count-set :
    {A : Type 0} (t : A → Bool) (xs : List A) (i : ℕ) (v d : A)
    → i < length xs
    → count_if t (set xs i v) + one_if (t (get_or xs i d)) ≡ count_if t xs + one_if (t v)
unfolding one_if
count-set t [] i v d h = absurd (omega arith)
count-set t (x ∷ xs) zero v d h = ground arith
count-set t (x ∷ xs) (suc i) v d h = ground (arith, count-set t xs i v d)

count-swap :
    (t : RoleProfile → Bool) (ps : List RoleProfile) (i j : ℕ)
    → i < length ps
    → j < length ps
    → count_if t (swap ps i j) ≡ count_if t ps
unfolding swap
count-swap t ps i j hi hj =
    let v = get_or ps j warden_good in
    let w = get_or ps i warden_good in
    omega (
      arith,
      count-set t ps i v warden_good hi,
      count-set t (set ps i v) j w warden_good (omega (arith, length-set ps i v)),
      ap (λ p. one_if (t p)) (get_or-set_again ps i j warden_good hi),
    )

length-swap : (ps : List RoleProfile) (i j : ℕ) → length (swap ps i j) ≡ length ps
unfolding swap
length-swap ps i j =
    length-set (set ps i (get_or ps j warden_good)) j (get_or ps i warden_good)
    ∙ length-set ps i (get_or ps j warden_good)

draw_below-lt : (limit s : ℕ) → 0 < limit → (draw_below limit s).0 < limit
unfolding draw_below
draw_below-lt limit s h = ground (arith, mod-lt (next_random s) h)

shuffle_from_lem :
    (i : ℕ) (ps : List RoleProfile) (s : ℕ)
    → (i < length ps) ⊎ (i ≡ 0)
    → (length (shuffle_from i ps s) ≡ length ps)
      × ((t : RoleProfile → Bool) → count_if t (shuffle_from i ps s) ≡ count_if t ps)
unfolding shuffle_from
shuffle_from_lem zero ps s h = (refl, λ t. refl)
shuffle_from_lem (suc i) ps s h =
    let drawn = draw_below (suc i + 1) s in
    let lt = draw_below-lt (suc i + 1) s (omega arith) in
    let inside : suc i < length ps = ground arith in
    let same = length-swap ps (suc i) drawn.0 in
    let rest = shuffle_from_lem i (swap ps (suc i) drawn.0) drawn.1 (inl (omega (arith, same))) in
    (rest.0 ∙ same, λ t. rest.1 t ∙ count-swap t ps (suc i) drawn.0 inside (omega arith))

-- A shuffle keeps every profile, as often as it was there, whatever the random numbers.
pub shuffle_role_profiles_lem :
    (ps : List RoleProfile) (s : ℕ)
    → (length (shuffle_role_profiles ps s) ≡ length ps)
      × ((t : RoleProfile → Bool) → count_if t (shuffle_role_profiles ps s) ≡ count_if t ps)
unfolding shuffle_role_profiles
shuffle_role_profiles_lem ps s = shuffle_from_lem (length ps - 1) ps s (ground arith)
