-- ===== src/Roles/Assignment.antt =====
-- assignment.go: who plays which role. A slice that is shuffled in place is a list that is passed on, and
-- so is the state of the random generator. An error of `Assign` is a value.
pub mod Templates
pub mod Shuffle
pub mod Roster
use prison_break.Shared.{
  ℕ, zero, suc, ◌+◌, ◌-◌, ◌*◌, ◌/◌, ◌%◌, ◌≤◌, ◌<◌, ◌≡◌, ◌≢◌, ◌↔◌, ◌⊎◌, refl, sym, ap, ap₂, subst,
  ◌∙◌, Bool, true, false, not, ◌&&◌, ◌||◌, List, [], ◌∷◌, ◌++◌, Option, none, some, Perm, arith,
  Text, codes, text_eq, text_lt, text_eq_iff, text_eq_refl, text_eq_sound, text_lt_irrefl,
  text_lt_asymm, text_lt_connected, text_lt_trans, text_lt-ne, text_lt_total, any, All, All-imp,
  All-append, Any, keep, map, length, length-append, length-keep-le, get_or, get_elem?, count_if,
  ltb, leb, ◌==◌, ==_iff, if◌then◌else◌, sort_by, insert_by, IsSorted, IsAscending, order_on,
  sort_by-All, sort_by-Any, sort_by-IsSorted, sort_by_of_IsSorted, length-sort_by, sort_by-perm,
  hash_write, fnv64a, le_bytes, u8, u16, u64, bit_xor, Bool-cases, Option-cases, inl, inr,
}
use prison_break.Model.{
  GameState, PlayerState, PlayerId, MatchId, RoleType, FactionType, AlignmentType,
}
use prison_break.Roles.Assignment.Templates.{
  RoleProfile, role_templates_by_count, warden_good, deputy_good, leader, neutral_inmate,
}

pub record Assignment : Type 0 where
  pub player_id : PlayerId
  pub role : RoleType
  pub faction : FactionType
  pub alignment : AlignmentType

pub data AssignError : Type 0 where
  no_players_provided duplicate_player_id : AssignError

pub data AssignResult : Type 0 where
  assigned : List Assignment → AssignResult
  failed : AssignError → AssignResult

-- The profiles that pad the fallback.
abbrev neutrals : ℕ → List RoleProfile
neutrals zero = []
neutrals (suc n) = neutral_inmate ∷ neutrals n

-- The profiles that the fallback starts with, for as many players as there are.
abbrev fallback : ℕ → List RoleProfile
fallback zero = []
fallback (suc zero) = warden_good ∷ []
fallback (suc (suc zero)) = warden_good ∷ deputy_good ∷ []
fallback (suc (suc (suc n))) = warden_good ∷ deputy_good ∷ leader ∷ neutrals n

unfoldable pub profiles_for_count : ℕ → List (List RoleProfile)
profiles_for_count n =
    let templates = role_templates_by_count n in
    if ltb 0 (length templates) then templates else fallback n ∷ []

unfoldable pub hashed_players : List PlayerId → Text
hashed_players [] = []
hashed_players (id ∷ ids) = 0 ∷ (id ++ hashed_players ids)

unfoldable pub hash_seed : MatchId → List PlayerId → ℕ
unfolding hashed_players
hash_seed match ids = fnv64a (match ++ hashed_players ids)

abbrev pub new_deterministic_rng : ℕ → ℕ
new_deterministic_rng seed = if seed == 0 then 7640891576956012809 else seed

-- `next`: the new state, which is also the number drawn.
unfoldable pub next_random : ℕ → ℕ
next_random s =
    let x = bit_xor s (u64 (s * 8192)) in
    let y = bit_xor x (x / 128) in bit_xor y (u64 (y * 131072))

-- `Intn`: the number, and the state after it.
unfoldable pub draw_below : ℕ → ℕ → ℕ × ℕ
unfolding next_random
draw_below limit s = if leb limit 1 then (0, s) else (next_random s % limit, next_random s)

abbrev pub set {ℓ} : {A : Type ℓ} → List A → ℕ → A → List A
set [] i v = []
set (x ∷ xs) zero v = v ∷ xs
set (x ∷ xs) (suc i) v = x ∷ set xs i v

-- The exchange of two entries; the default is not read, as the indexes are in range.
unfoldable pub swap : List RoleProfile → ℕ → ℕ → List RoleProfile
swap ps i j = set (set ps i (get_or ps j warden_good)) j (get_or ps i warden_good)

-- The loop of `shuffleRoleProfiles`, from an index down to 1.
unfoldable pub shuffle_from : ℕ → List RoleProfile → ℕ → List RoleProfile
shuffle_from zero ps s = ps
shuffle_from (suc i) ps s =
    let drawn = draw_below (suc i + 1) s in shuffle_from i (swap ps (suc i) drawn.0) drawn.1

unfoldable pub shuffle_role_profiles : List RoleProfile → ℕ → List RoleProfile
unfolding shuffle_from
shuffle_role_profiles ps s = shuffle_from (length ps - 1) ps s

-- Do two neighbours in the list agree?
unfoldable pub has_repeat : List PlayerId → Bool
has_repeat [] = false
has_repeat (a ∷ []) = false
has_repeat (a ∷ b ∷ ids) = text_eq a b || has_repeat (b ∷ ids)

-- The loop over the ordered ids; there are as many profiles as ids.
unfoldable pub deal : List PlayerId → List RoleProfile → List Assignment
deal [] ps = []
deal (id ∷ ids) [] = []
deal (id ∷ ids) (p ∷ ps) =
    record { player_id = id; role = p.role; faction = p.faction; alignment = p.alignment }
    ∷ deal ids ps

unfoldable pub sort_ids : List PlayerId → List PlayerId
sort_ids ids = sort_by text_lt ids

-- The template that the seed selects.
unfoldable pub template_for : MatchId → List PlayerId → List RoleProfile
template_for match ordered =
    let profiles = profiles_for_count (length ordered) in
    let index = if ltb 1 (length profiles) then hash_seed match ordered % length profiles else 0 in
    get_or profiles index []

-- The profiles in the order in which they are dealt.
unfoldable pub selected_for : MatchId → List PlayerId → List RoleProfile
selected_for match ordered =
    shuffle_role_profiles (template_for match ordered)
      (new_deterministic_rng (bit_xor (hash_seed match ordered) 11400714819323198485))

unfoldable pub assign : List PlayerId → MatchId → AssignResult
assign ids match =
    let ordered = sort_ids ids in
    if length ids == 0
    then failed no_players_provided
    else if has_repeat ordered
    then failed duplicate_player_id
    else assigned (deal ordered (selected_for match ordered))

-- `byID`, which has every player of the state.
unfoldable pub assignment_of : PlayerId → List Assignment → Assignment
assignment_of id [] = record {
  player_id = [];
  role = RoleType.no_role;
  faction = FactionType.no_faction;
  alignment = AlignmentType.no_alignment;
}
assignment_of id (a ∷ rest) = if text_eq a.player_id id then a else assignment_of id rest

unfoldable pub take_role : List Assignment → PlayerState → PlayerState
take_role out player =
    let a = assignment_of player.id out in
    record player { role = a.role; faction = a.faction; alignment = a.alignment }

unfoldable pub take_roles : GameState → AssignResult → GameState × Option AssignError
take_roles state (failed e) = (state, some e)
take_roles state (assigned out) =
    (record state { players = map (take_role out) state.players }, none)

unfoldable pub apply_assignments : GameState → MatchId → GameState × Option AssignError
apply_assignments state match =
    if length state.players == 0
    then (state, none)
    else take_roles state (assign (map (λ p. p.id) state.players) match)
