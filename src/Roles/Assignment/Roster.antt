-- ===== src/Roles/Assignment/Roster.antt =====
-- What an assignment deals, and to whom.
pub mod Balance
pub mod Deal
pub mod Order
pub mod Apply
use prison_break.Shared.{
  ℕ, zero, suc, ◌+◌, ◌-◌, ◌*◌, ◌/◌, ◌%◌, ◌≤◌, ◌<◌, ◌≡◌, ◌≢◌, ◌↔◌, ◌⊎◌, refl, sym, ap, ap₂, subst,
  ◌∙◌, Bool, true, false, not, ◌&&◌, ◌||◌, List, [], ◌∷◌, ◌++◌, Option, none, some, Perm, arith,
  Text, codes, text_eq, text_lt, text_eq_iff, text_eq_refl, text_eq_sound, text_lt_irrefl,
  text_lt_asymm, text_lt_connected, text_lt_trans, text_lt-ne, text_lt_total, any, All, All-imp,
  All-append, Any, keep, map, length, length-append, length-keep-le, get_or, get_elem?, count_if,
  ltb, leb, ◌==◌, ==_iff, if◌then◌else◌, sort_by, insert_by, IsSorted, IsAscending, order_on,
  sort_by-All, sort_by-Any, sort_by-IsSorted, sort_by_of_IsSorted, length-sort_by, sort_by-perm,
  hash_write, fnv64a, le_bytes, u8, u16, u64, bit_xor, Bool-cases, Option-cases, inl, inr,
  count-sort_by,
}
use native.Mathlib.Nat.{mod-lt}
use prison_break.Model.{
  GameState, PlayerState, PlayerId, MatchId, RoleType, FactionType, AlignmentType,
}
use prison_break.Model.Kinds.{is_warden, is_gang_leader}
use prison_break.Roles.Assignment.Templates.{RoleProfile, role_templates_by_count}
use prison_break.Roles.Assignment.{
  Assignment, AssignResult, AssignError, assigned, failed, no_players_provided, duplicate_player_id,
  assign, apply_assignments, take_role, take_roles, assignment_of, deal, has_repeat, sort_ids,
  template_for, selected_for, profiles_for_count, fallback, neutrals, shuffle_role_profiles,
  hash_seed, new_deterministic_rng,
}
use prison_break.Roles.Assignment.Shuffle.{shuffle_role_profiles_lem}

-- Every id occurs once at most.
abbrev pub Distinct : List PlayerId → Type 0
Distinct ids = (k : PlayerId) → count_if (λ a. text_eq a k) ids ≤ 1

-- Ids above an id do not contain it.
above-count :
    (a k : PlayerId) (ids : List PlayerId)
    → All (λ b. text_lt a b ≡ true) ids
    → text_eq a k ≡ true
    → count_if (λ b. text_eq b k) ids ≡ 0
above-count a k [] h e = refl
above-count a k (b ∷ ids) h e =
    let same = text_eq_sound a k e in
    let other : text_eq b k ≡ false = rw (← same) (text_lt-ne a b h.0) in
    rw other (above-count a k ids h.1 e)

pub Distinct-of_IsAscending :
    (ids : List PlayerId) → IsAscending (λ (a : PlayerId). a) ids → Distinct ids
Distinct-of_IsAscending [] h k = omega arith
Distinct-of_IsAscending (a ∷ ids) h k =
    ground (arith, above-count a k ids h.0, Distinct-of_IsAscending ids h.1 k)

no_repeat-IsAscending :
    (ids : List PlayerId)
    → IsSorted text_lt ids
    → has_repeat ids ≡ false
    → IsAscending (λ (a : PlayerId). a) ids
unfolding has_repeat
no_repeat-IsAscending [] h e = tt
no_repeat-IsAscending (a ∷ []) h e = (tt, tt)
no_repeat-IsAscending (a ∷ b ∷ ids) h e =
    let lower : text_lt a b ≡ true =
      ground (arith, text_lt_total b a, text_eq_iff a b, text_eq_iff b a) in
    let rest = no_repeat-IsAscending (b ∷ ids) h.1 (ground arith) in
    (
      (
        lower,
        All-imp (λ c. text_lt b c ≡ true) (λ c. text_lt a c ≡ true)
            (λ c k. text_lt_trans a b c lower k) ids rest.0,
      ),
      rest,
    )

repeat-count :
    (ids : List PlayerId)
    → has_repeat ids ≡ true
    → (k : PlayerId) × (1 < count_if (λ a. text_eq a k) ids)
unfolding has_repeat
repeat-count [] e = cc
repeat-count (a ∷ []) e = cc
repeat-count (a ∷ b ∷ ids) e = elim (Bool-cases (text_eq a b)) [
  | inl same ↦ (b, ground (arith, text_eq_refl b, same))
  | inr other ↦
      let (k, more) = repeat-count (b ∷ ids) (ground (arith, other)) in (k, ground (arith, more))
]

pub sort_ids-IsAscending :
    (ids : List PlayerId)
    → has_repeat (sort_ids ids) ≡ false
    → IsAscending (λ (a : PlayerId). a) (sort_ids ids)
unfolding sort_ids
sort_ids-IsAscending ids e =
    no_repeat-IsAscending (sort_by text_lt ids)
      (sort_by-IsSorted (order_on (λ (a : PlayerId). a)) ids) e

-- The check for neighbours in the sorted list finds every repetition.
has_repeat_iff : (ids : List PlayerId) → (has_repeat (sort_ids ids) ≡ false) ↔ Distinct ids
unfolding sort_ids
has_repeat_iff ids = (
  λ e k. omega (
    arith,
    Distinct-of_IsAscending (sort_ids ids) (sort_ids-IsAscending ids e) k,
    count-sort_by (λ a. text_eq a k) text_lt ids,
  ),
  λ d. elim (Bool-cases (has_repeat (sort_ids ids))) [
    | inr e ↦ e
    | inl e ↦
        let (k, more) = repeat-count (sort_ids ids) e in
        absurd (omega (arith, more, d k, count-sort_by (λ a. text_eq a k) text_lt ids))
  ],
)
