-- ===== src/Roles/Assignment/Roster/Apply.antt =====
-- The roles that the players of a state get.
use prison_break.Shared.{
  suc, ◌<◌, ◌≡◌, refl, sym, ap, ◌∙◌, Bool, true, false, List, [], ◌∷◌, none, arith, text_eq,
  text_lt, text_eq_refl, text_eq_sound, text_lt_irrefl, All, map, length, count_if, ltb, ◌==◌,
  if◌then◌else◌, IsAscending, inl, inr, count-sort_by,
}
use prison_break.Model.{GameState, PlayerState, PlayerId, MatchId}
use prison_break.Model.Kinds.{is_warden, is_gang_leader}
use prison_break.Roles.Assignment.Templates.{RoleProfile}
use prison_break.Roles.Assignment.{
  Assignment, apply_assignments, take_role, take_roles, assignment_of, sort_ids,
}
use prison_break.Roles.Assignment.Roster.{Distinct, sort_ids-IsAscending, has_repeat_iff}
use prison_break.Roles.Assignment.Roster.Balance.{plays_warden, plays_leader}
use prison_break.Roles.Assignment.Roster.Deal.{Dealt, profile_of, assign-Dealt}

-- The profile that an id finds in the assignments.
abbrev found : List Assignment → PlayerId → RoleProfile
found out id = profile_of (assignment_of id out)

-- An assignment for another id does not count for these.
skip :
    (t : RoleProfile → Bool) (a : Assignment) (out : List Assignment) (ids : List PlayerId)
    → All (λ id. text_lt a.player_id id ≡ true) ids
    → count_if (λ id. t (found (a ∷ out) id)) ids ≡ count_if (λ id. t (found out id)) ids
unfolding assignment_of
skip t a out [] h = refl
skip t a out (id ∷ ids) h =
    let other : text_eq a.player_id id ≡ false =
      ground (arith, text_lt_irrefl id, text_eq_sound a.player_id id, h.0) in
    rw other (ap (λ n. if t (found out id) then suc n else n) (skip t a out ids h.1))

above_map :
    (id : PlayerId) (out : List Assignment)
    → All (λ b. text_lt id b.player_id ≡ true) out
    → All (λ x. text_lt id x ≡ true) (map (λ b. b.player_id) out)
above_map id [] h = tt
above_map id (b ∷ out) h = (h.0, above_map id out h.1)

-- What ids in order find, each its own.
find_all :
    (t : RoleProfile → Bool) (out : List Assignment)
    → IsAscending (λ (a : Assignment). a.player_id) out
    → count_if (λ id. t (found out id)) (map (λ a. a.player_id) out)
      ≡ count_if t (map profile_of out)
unfolding assignment_of
find_all t [] h = refl
find_all t (a ∷ out) h = ground (
  arith,
  text_eq_refl a.player_id,
  find_all t out h.1,
  skip t a out (map (λ a. a.player_id) out) (above_map a.player_id out h.0),
)

map-IsAscending :
    (out : List Assignment)
    → IsAscending (λ (a : PlayerId). a) (map (λ a. a.player_id) out)
    → IsAscending (λ (a : Assignment). a.player_id) out
map-IsAscending [] h = tt
map-IsAscending (a ∷ out) h = (of_map a.player_id out h.0, map-IsAscending out h.1)
  where
    of_map :
        (id : PlayerId) (rest : List Assignment)
        → All (λ x. text_lt id x ≡ true) (map (λ b. b.player_id) rest)
        → All (λ b. text_lt id b.player_id ≡ true) rest
    of_map id [] k = tt
    of_map id (b ∷ rest) k = (k.0, of_map id rest k.1)

-- The profile of a player.
abbrev pub role_of : PlayerState → RoleProfile
role_of p = record { role = p.role; faction = p.faction; alignment = p.alignment }

taken_roles :
    (t : RoleProfile → Bool) (out : List Assignment) (players : List PlayerState)
    → (count_if (λ p. t (role_of p)) (map (take_role out) players)
        ≡ count_if (λ id. t (found out id)) (map (λ p. p.id) players))
      × (map (λ p. p.id) (map (take_role out) players) ≡ map (λ p. p.id) players)
unfolding take_role
taken_roles t out [] = (refl, refl)
taken_roles t out (p ∷ players) =
    let rest = taken_roles t out players in
    (ap (λ n. if t (found out p.id) then suc n else n) rest.0, ap (λ ids. p.id ∷ ids) rest.1)

counted :
    (match : MatchId) (t : RoleProfile → Bool) (out : List Assignment) (players : List PlayerState)
    → Distinct (map (λ p. p.id) players)
    → Dealt match (map (λ p. p.id) players) out
    → count_if (λ p. t (role_of p)) (map (take_role out) players) ≡ count_if t (map profile_of out)
unfolding sort_ids
counted match t out players d dealt =
    let ids = map (λ (p : PlayerState). p.id) players in
    let ascending = sort_ids-IsAscending ids ((has_repeat_iff ids).1 d) in
    (taken_roles t out players).0
    ∙ sym (count-sort_by (λ id. t (found out id)) text_lt ids)
    ∙ ap (count_if (λ id. t (found out id))) (sym dealt.everyone)
    ∙ find_all t out (map-IsAscending out (rw (← dealt.everyone) at ascending))

-- A state with players, no two of whom share an id, gets its roles without an error: one player is the
-- warden, one the gang leader if there are three or more, and the players keep their order and ids.
pub apply_assignments-one_warden :
    (state : GameState) (match : MatchId)
    → 0 < length state.players
    → Distinct (map (λ p. p.id) state.players)
    → let r = apply_assignments state match in
      (r.1 ≡ none)
      × (map (λ p. p.id) r.0.players ≡ map (λ p. p.id) state.players)
      × (count_if (λ p. is_warden p.role) r.0.players ≡ 1)
      × (count_if (λ p. is_gang_leader p.role) r.0.players
          ≡ (if ltb (length state.players) 3 then 0 else 1))
unfolding apply_assignments take_roles
apply_assignments-one_warden state match pos distinct =
    let ids = map (λ (p : PlayerState). p.id) state.players in
    let some_there : (length state.players == 0) ≡ false = ground arith in
    elim (assign-Dealt ids match) [
      | inl (empty, _) ↦ absurd (omega (arith, pos, ap length empty, length-ids state.players))
      | inr (inl (_, twice, _)) ↦ absurd (twice distinct)
      | inr (inr (_, (out, e, dealt))) ↦
          rw (some_there, e)
            (
              refl,
              (taken_roles plays_warden out state.players).1,
              counted match plays_warden out state.players distinct dealt ∙ dealt.one_warden,
              counted match plays_leader out state.players distinct dealt
                  ∙ (rw (length-ids state.players) at dealt.leaders),
            )
    ]
  where
    length-ids : (players : List PlayerState) → length (map (λ p. p.id) players) ≡ length players
    length-ids [] = refl
    length-ids (p ∷ players) = ap suc (length-ids players)
