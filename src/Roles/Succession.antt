-- ===== src/Roles/Succession.antt =====
-- succession.go: when no living gang leader remains, a living member of the gang is promoted. The
-- indexes into `state.Players` that the code collects are list positions here.
pub mod Effect
use prison_break.Shared.{
  ℕ, zero, suc, ◌%◌, ◌<◌, Bool, true, false, not, ◌&&◌, ◌||◌, List, [], ◌∷◌, ◌++◌, Option, none,
  some, text_eq, text_lt, sort_by, length, get_or, get_elem?, any, leb, hash_write, fnv64a,
  le_bytes, if◌then◌else◌, Text, map, ◌==◌, keep,
}
use prison_break.Model.{
  GameState, PlayerState, PlayerId, MatchId, RoleType, FactionType, AlignmentType, gang_leader,
  gang_member, prisoner, evil,
}
use prison_break.Model.Kinds.{is_gang_leader, is_gang_member, is_prisoner, is_evil}

unfoldable pub alive_leader_exists : List PlayerState → Bool
alive_leader_exists [] = false
alive_leader_exists (p ∷ players) = is_gang_leader p.role && p.alive || alive_leader_exists players

-- The positions, from `i` on, of the players that pass a test.
unfoldable pub positions : (PlayerState → Bool) → ℕ → List PlayerState → List ℕ
positions test i [] = []
positions test i (p ∷ players) =
    if test p then i ∷ positions test (suc i) players else positions test (suc i) players

abbrev pub is_eligible : PlayerState → Bool
is_eligible p = is_gang_member p.role && p.alive

abbrev pub is_dead_leader : PlayerState → Bool
is_dead_leader p = is_gang_leader p.role && not p.alive

-- The id of the player at a position; the positions are in range.
unfoldable pub id_at : List PlayerState → ℕ → PlayerId
id_at [] i = []
id_at (p ∷ players) zero = p.id
id_at (p ∷ players) (suc i) = id_at players i

-- `sort.Slice(eligibleIndexes, …)`, by the ids of the players.
unfoldable pub sort_eligible : List PlayerState → List ℕ → List ℕ
sort_eligible players indexes = sort_by (λ i j. text_lt (id_at players i) (id_at players j)) indexes

pub hashed_ids : List PlayerState → List ℕ → Text
hashed_ids players [] = []
hashed_ids players (i ∷ indexes) = 0 ∷ (id_at players i ++ hashed_ids players indexes)

unfoldable pub deterministic_successor_index : List PlayerState → MatchId → ℕ → List ℕ → ℕ
unfolding hashed_ids
deterministic_successor_index players match tick eligible =
    if leb (length eligible) 1
    then 0
    else fnv64a (match ++ (le_bytes 8 tick ++ hashed_ids players eligible)) % length eligible

-- The loop over the dead leaders: they step down.
unfoldable pub step_down : List PlayerState → List PlayerState
step_down [] = []
step_down (p ∷ players) =
    (if is_dead_leader p then record p { role = gang_member } else p) ∷ step_down players

-- The writes to the successor.
unfoldable pub promote : PlayerState → PlayerState
promote p = record p {
  role = gang_leader;
  faction = FactionType.prisoner;
  alignment = AlignmentType.evil;
}

unfoldable pub promote_at : ℕ → List PlayerState → List PlayerState
promote_at i [] = []
promote_at zero (p ∷ players) = promote p ∷ players
promote_at (suc i) (p ∷ players) = p ∷ promote_at i players

-- A set of changed ids, as a list in order: the map `changed`, read back sorted.
unfoldable pub add_id : PlayerId → List PlayerId → List PlayerId
add_id id ids = if any (λ x. text_eq x id) ids then ids else id ∷ ids

unfoldable pub dead_leader_ids : List PlayerState → List PlayerId
dead_leader_ids [] = []
dead_leader_ids (p ∷ players) =
    if is_dead_leader p then add_id p.id (dead_leader_ids players) else dead_leader_ids players

-- The successor was a gang member, so its role changes.
unfoldable pub apply_gang_leader_succession : GameState → MatchId → ℕ → GameState × List PlayerId
apply_gang_leader_succession state match tick =
    let players = state.players in
    let eligible = sort_eligible players (positions is_eligible 0 players) in
    let chosen = get_or eligible (deterministic_successor_index players match tick eligible) 0 in
    if alive_leader_exists players || length (positions is_eligible 0 players) == 0
    then (state, [])
    else (
      record state { players = promote_at chosen (step_down players) },
      sort_by text_lt (add_id (id_at players chosen) (dead_leader_ids players)),
    )
