-- ===== src/Roles/Succession/Effect.antt =====
-- What a succession leaves behind.
use native.Mathlib.Nat.{mod-lt, sub-zero}
use mathlib.Core.Bool.{false≢true}
use prison_break.Shared.{
  sym, ℕ, zero, suc, ◌-◌, ◌≤◌, ◌<◌, ◌≡◌, ◌⊎◌, ◌↔◌, refl, subst, map, ◌∙◌, Bool, true, false, List,
  [], ◌∷◌, ◌++◌, arith, All, All-imp, Any, length, get_or, ◌==◌, sort_by-All, length-sort_by,
  count_if, text_lt, fnv64a, le_bytes, Bool-cases, inl, inr,
}
use prison_break.Model.{GameState, PlayerState, MatchId, gang_member}
use prison_break.Model.Kinds.{is_gang_leader}
use prison_break.Roles.Succession.{
  alive_leader_exists, positions, is_eligible, id_at, sort_eligible, deterministic_successor_index,
  step_down, promote, promote_at, apply_gang_leader_succession, hashed_ids,
}

-- Does the player at a position pass the test?
abbrev passes_at : (PlayerState → Bool) → List PlayerState → ℕ → Bool
passes_at test [] i = false
passes_at test (p ∷ players) zero = test p
passes_at test (p ∷ players) (suc i) = passes_at test players i

abbrev PassesFrom : (PlayerState → Bool) → List PlayerState → ℕ → ℕ → Type 0
PassesFrom test players i j = (i ≤ j) × (passes_at test players (j - i) ≡ true)

shift-PassesFrom :
    (test : PlayerState → Bool) (p : PlayerState) (players : List PlayerState) (i j : ℕ)
    → PassesFrom test players (suc i) j
    → PassesFrom test (p ∷ players) i j
shift-PassesFrom test p players i j h =
    let e : j - i ≡ suc (j - suc i) = omega (arith, h.0) in (omega (arith, h.0), rw e h.1)

positions-PassesFrom :
    (test : PlayerState → Bool) (i : ℕ) (players : List PlayerState)
    → All (PassesFrom test players i) (positions test i players)
unfolding positions
positions-PassesFrom test i [] = tt
positions-PassesFrom test i (p ∷ players) =
    let rest =
      All-imp (PassesFrom test players (suc i)) (PassesFrom test (p ∷ players) i)
        (shift-PassesFrom test p players i) (positions test (suc i) players)
        (positions-PassesFrom test (suc i) players) in
    let none_left : i - i ≡ 0 = omega arith in
    elim (Bool-cases (test p)) [
      | inl e ↦ rw e ((omega arith, rw none_left e), rest)
      | inr e ↦ rw e rest
    ]

get_or-All : (P : ℕ → Type 0) (xs : List ℕ) (i d : ℕ) → All P xs → i < length xs → P (get_or xs i d)
get_or-All P [] i d h lt = absurd (omega arith)
get_or-All P (x ∷ xs) zero d h lt = h.0
get_or-All P (x ∷ xs) (suc i) d h lt = get_or-All P xs i d h.1 (omega arith)

-- The index drawn from the hash is in range.
pub deterministic_successor_index-lt :
    (players : List PlayerState) (match : MatchId) (tick : ℕ) (eligible : List ℕ)
    → 0 < length eligible
    → deterministic_successor_index players match tick eligible < length eligible
unfolding deterministic_successor_index
deterministic_successor_index-lt players match tick eligible h =
    ground (arith, mod-lt (fnv64a (match ++ (le_bytes 8 tick ++ hashed_ids players eligible))) h)

-- The position of the successor.
abbrev pub chosen_position : GameState → MatchId → ℕ → ℕ
chosen_position state match tick =
    let eligible = sort_eligible state.players (positions is_eligible 0 state.players) in
    get_or eligible (deterministic_successor_index state.players match tick eligible) 0

chosen_passes :
    (state : GameState) (match : MatchId) (tick : ℕ)
    → 0 < length (positions is_eligible 0 state.players)
    → passes_at is_eligible state.players (chosen_position state match tick) ≡ true
unfolding sort_eligible
chosen_passes state match tick some_left =
    let players = state.players in
    let lt = λ (i : ℕ) (j : ℕ). text_lt (id_at players i) (id_at players j) in
    let eligible = sort_eligible players (positions is_eligible 0 players) in
    let in_range =
      deterministic_successor_index-lt players match tick eligible
        (omega (arith, length-sort_by lt (positions is_eligible 0 players), some_left)) in
    let h =
      get_or-All (PassesFrom is_eligible players 0) eligible
        (deterministic_successor_index players match tick eligible) 0
        (sort_by-All (PassesFrom is_eligible players 0) lt (positions is_eligible 0 players)
          (positions-PassesFrom is_eligible 0 players))
        in_range in
    subst (λ x. passes_at is_eligible players x ≡ true)
      (sub-zero (chosen_position state match tick)) h.1

no_leader_left :
    (players : List PlayerState)
    → alive_leader_exists players ≡ false
    → count_if (λ p. is_gang_leader p.role) (step_down players) ≡ 0
unfolding alive_leader_exists step_down
no_leader_left [] h = refl
no_leader_left (p ∷ players) h = ground (arith, no_leader_left players)

one_leader :
    (players : List PlayerState) (i : ℕ)
    → alive_leader_exists players ≡ false
    → passes_at is_eligible players i ≡ true
    → (count_if (λ p. is_gang_leader p.role) (promote_at i (step_down players)) ≡ 1)
      × (alive_leader_exists (promote_at i (step_down players)) ≡ true)
unfolding alive_leader_exists step_down promote_at promote
one_leader [] i h e = cc
one_leader (p ∷ players) zero h e = ground (arith, no_leader_left players)
one_leader (p ∷ players) (suc i) h e = ground (arith, one_leader players i)

eligible_iff :
    (i : ℕ) (players : List PlayerState)
    → ((length (positions is_eligible i players) == 0) ≡ false)
      ↔ Any (λ p. (p.role ≡ gang_member) × (p.alive ≡ true)) players
unfolding positions
eligible_iff i [] = ground arith
eligible_iff i (p ∷ players) = ground (arith, eligible_iff (suc i) players)

ids_kept :
    (i : ℕ) (players : List PlayerState)
    → (map (λ p. p.id) (promote_at i (step_down players)) ≡ map (λ p. p.id) players)
      × (map (λ p. p.alive) (promote_at i (step_down players)) ≡ map (λ p. p.alive) players)
unfolding step_down promote_at promote
ids_kept i [] = (refl, refl)
ids_kept zero (p ∷ players) = ground (arith, stepped players)
  where
    stepped :
        (ps : List PlayerState)
        → (map (λ p. p.id) (step_down ps) ≡ map (λ p. p.id) ps)
          × (map (λ p. p.alive) (step_down ps) ≡ map (λ p. p.alive) ps)
    stepped [] = (refl, refl)
    stepped (q ∷ ps) = ground (arith, stepped ps)
ids_kept (suc i) (p ∷ players) = ground (arith, ids_kept i players)

-- A gang that has lost its leader and has a living member is left with exactly one leader, who is
-- alive; the players keep their order, their ids and their lives.
pub succession_gives_leader :
    (state : GameState) (match : MatchId) (tick : ℕ)
    → alive_leader_exists state.players ≡ false
    → Any (λ p. (p.role ≡ gang_member) × (p.alive ≡ true)) state.players
    → let after = (apply_gang_leader_succession state match tick).0 in
      (count_if (λ p. is_gang_leader p.role) after.players ≡ 1)
      × (alive_leader_exists after.players ≡ true)
      × (map (λ p. p.id) after.players ≡ map (λ p. p.id) state.players)
      × (map (λ p. p.alive) after.players ≡ map (λ p. p.alive) state.players)
unfolding apply_gang_leader_succession
succession_gives_leader state match tick leaderless members =
    let found = (eligible_iff 0 state.players).1 members in
    let i = chosen_position state match tick in
    let e = chosen_passes state match tick (ground arith) in
    let (one, alive) = one_leader state.players i leaderless e in
    let (ids, lives) = ids_kept i state.players in rw (leaderless, found) (one, alive, ids, lives)

-- A gang with a living leader, or with no living member, is left as it is, and no change is reported.
pub succession_unneeded :
    (state : GameState) (match : MatchId) (tick : ℕ)
    → (alive_leader_exists state.players ≡ true)
      ⊎ (¬ Any (λ p. (p.role ≡ gang_member) × (p.alive ≡ true)) state.players)
    → apply_gang_leader_succession state match tick ≡ (state, [])
unfolding apply_gang_leader_succession
succession_unneeded state match tick h = ground (arith, eligible_iff 0 state.players)

-- A second succession right after a first, whatever the tick, changes nothing more.
pub succession_idempotent :
    (state : GameState) (match : MatchId) (tick later : ℕ)
    → let after = (apply_gang_leader_succession state match tick).0 in
      apply_gang_leader_succession after match later ≡ (after, [])
succession_idempotent state match tick later =
    elim (Bool-cases (alive_leader_exists state.players)) [
      | inl led ↦ unchanged (inl led)
      | inr leaderless ↦ elim (Bool-cases (length (positions is_eligible 0 state.players) == 0)) [
        | inl empty ↦
            unchanged (inr (λ m. false≢true (sym ((eligible_iff 0 state.players).1 m) ∙ empty)))
        | inr some_left ↦
            let r =
              succession_gives_leader state match tick leaderless
                ((eligible_iff 0 state.players).0 some_left) in
            succession_unneeded (apply_gang_leader_succession state match tick).0 match later
              (inl r.1)
      ]
    ]
  where
    unchanged :
        (alive_leader_exists state.players ≡ true)
          ⊎ (¬ Any (λ p. (p.role ≡ gang_member) × (p.alive ≡ true)) state.players)
        → let after = (apply_gang_leader_succession state match tick).0 in
          apply_gang_leader_succession after match later ≡ (after, [])
    unchanged h =
        rw (succession_unneeded state match tick h) (succession_unneeded state match later h)
