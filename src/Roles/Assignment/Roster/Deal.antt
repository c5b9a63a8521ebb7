-- ===== src/Roles/Assignment/Roster/Deal.antt =====
-- The whole of `Assign` and of `ApplyAssignments`.
use prison_break.Shared.{
  ◌<◌, ◌≡◌, ◌≢◌, ◌⊎◌, refl, ap₂, ◌∙◌, Bool, false, List, [], ◌∷◌, arith, text_lt, map, length,
  count_if, ltb, ◌==◌, if◌then◌else◌, length-sort_by, Bool-cases, inl, inr,
}
use prison_break.Model.{PlayerId, MatchId}
use prison_break.Roles.Assignment.Templates.{RoleProfile}
use prison_break.Roles.Assignment.{
  Assignment, assigned, failed, no_players_provided, duplicate_player_id, assign, deal, has_repeat,
  sort_ids, template_for, selected_for,
}
use prison_break.Roles.Assignment.Shuffle.{shuffle_role_profiles_lem}
use prison_break.Roles.Assignment.Roster.{Distinct, has_repeat_iff}
use prison_break.Roles.Assignment.Roster.Balance.{plays_warden, plays_leader, template_for_lem}

-- The profile in an assignment.
abbrev pub profile_of : Assignment → RoleProfile
profile_of a = record { role = a.role; faction = a.faction; alignment = a.alignment }

deal_lem :
    (ids : List PlayerId) (ps : List RoleProfile)
    → length ps ≡ length ids
    → (map (λ a. a.player_id) (deal ids ps) ≡ ids) × (map profile_of (deal ids ps) ≡ ps)
unfolding deal
deal_lem [] [] e = (refl, refl)
deal_lem [] (p ∷ ps) e = absurd (omega arith)
deal_lem (id ∷ ids) [] e = absurd (omega arith)
deal_lem (id ∷ ids) (p ∷ ps) e =
    let rest = deal_lem ids ps (omega arith) in
    (ap₂ (λ x xs. x ∷ xs) refl rest.0, ap₂ (λ x xs. x ∷ xs) refl rest.1)

-- Every id is dealt a role, the ids in order, and the profiles are those of the template.
pub record Dealt (match : MatchId) (ids : List PlayerId) (out : List Assignment) : Type 0 where
  pub everyone : map (λ a. a.player_id) out ≡ sort_ids ids
  pub profiles :
      (t : RoleProfile → Bool)
      → count_if t (map profile_of out) ≡ count_if t (template_for match (sort_ids ids))
  pub one_warden : count_if plays_warden (map profile_of out) ≡ 1
  pub leaders : count_if plays_leader (map profile_of out) ≡ (if ltb (length ids) 3 then 0 else 1)

length-sort_ids : (ids : List PlayerId) → length (sort_ids ids) ≡ length ids
unfolding sort_ids
length-sort_ids ids = length-sort_by text_lt ids

selected_lem :
    (match : MatchId) (ordered : List PlayerId)
    → (length (selected_for match ordered) ≡ length (template_for match ordered))
      × ((t : RoleProfile → Bool)
          → count_if t (selected_for match ordered) ≡ count_if t (template_for match ordered))
unfolding selected_for
selected_lem match ordered = shuffle_role_profiles_lem (template_for match ordered) _

deal-Dealt :
    (match : MatchId) (ids : List PlayerId)
    → 0 < length ids
    → Dealt match ids (deal (sort_ids ids) (selected_for match (sort_ids ids)))
deal-Dealt match ids pos =
    let ordered = sort_ids ids in
    let n = length-sort_ids ids in
    let (size, wardens, leaders) = template_for_lem match ordered (omega (arith, n)) in
    let (same_size, same_counts) = selected_lem match ordered in
    let (who, what) =
      deal_lem ordered (selected_for match ordered) (omega (arith, same_size, size)) in
    record {
      everyone = who;
      profiles = λ t. rw what (same_counts t);
      one_warden = rw what (same_counts plays_warden ∙ wardens);
      leaders = rw what (same_counts plays_leader ∙ (rw n at leaders));
    }

-- Without players, or with a player twice, `Assign` fails with the error for that; otherwise each player
-- is dealt one role, of a template with one warden, and one gang leader if there are three players or
-- more.
pub assign-Dealt :
    (ids : List PlayerId) (match : MatchId)
    → ((ids ≡ []) × (assign ids match ≡ failed no_players_provided))
      ⊎ ((ids ≢ []) × (¬ Distinct ids) × (assign ids match ≡ failed duplicate_player_id))
      ⊎ (Distinct ids
          × ((out : List Assignment) × (assign ids match ≡ assigned out) × Dealt match ids out))
unfolding assign
assign-Dealt [] match = inl (refl, refl)
assign-Dealt (id ∷ ids) match =
    let some_there : (length (id ∷ ids) == 0) ≡ false = ground arith in
    elim (Bool-cases (has_repeat (sort_ids (id ∷ ids)))) [
      | inl e ↦ inr (
          inl (
            λ x. cc,
            λ d. ground (arith, (has_repeat_iff (id ∷ ids)).1 d),
            rw (some_there, e) refl,
          ))
      | inr e ↦ inr (
          inr (
            (has_repeat_iff (id ∷ ids)).0 e,
            (_, rw (some_there, e) refl, deal-Dealt match (id ∷ ids) (omega arith)),
          ))
    ]
