-- ===== src/Matches/Steps.antt =====
-- The operations on the matches as steps, and what holds after any number of them.
use prison_break.Shared.{ℕ, ◌+◌, ◌<◌, refl, Option, Text}
use prison_break.Model.{MatchId, PlayerId}
use prison_break.Matches.{
  Config, Manager, create_match, join_match, start_match, end_match, tick_match, new_manager,
}
use prison_break.Matches.Registry.{IsRegistry}
use prison_break.Matches.{resume_player}
use prison_break.Matches.Operations.{
  create_match-IsRegistry, join_match-IsRegistry, resume_player-IsRegistry,
  start_session-IsRegistry, end_session-IsRegistry, tick_session-IsRegistry, new_manager-IsRegistry,
}

-- What the server does to its matches, one call after the other. The sequence of the matches is a
-- `uint64`, and a match is created only while it does not wrap around.
pub data Step (m : Manager) : Manager → Type 0 where
  creates :
      (now : ℕ) → m.next_match_sequence + 1 < 18446744073709551616 → Step m (create_match m now).0
  joins :
      (id : MatchId) (player : PlayerId) (name : Text) (now : ℕ)
      → Step m (join_match m id player name now).0
  starts : (id : MatchId) (now : ℕ) → Step m (start_match m id now).0
  resumes :
      (id : MatchId) (player : PlayerId) (name : Text) → Step m (resume_player m id player name).0
  ends : (id : MatchId) (reason : Text) (now : ℕ) → Step m (end_match m id reason now).0
  ticks : (id : MatchId) (now : ℕ) (outcome : Option Text) → Step m (tick_match m id now outcome)

pub data Reach (c : Config) : Manager → Type 0 where
  fresh : Reach c (new_manager c)
  next : {m n : Manager} → Reach c m → Step m n → Reach c n

Step-IsRegistry : {m n : Manager} → IsRegistry m → Step m n → IsRegistry n
unfolding start_match end_match tick_match
Step-IsRegistry {m} r (creates now fits) = create_match-IsRegistry m now r fits
Step-IsRegistry {m} r (joins id player name now) = join_match-IsRegistry m id player name now r
Step-IsRegistry {m} r (resumes id player name) = resume_player-IsRegistry m id player name r
Step-IsRegistry {m} r (starts id now) = start_session-IsRegistry m id now (m.matches id) r refl
Step-IsRegistry {m} r (ends id reason now) = end_session-IsRegistry m id now _ (m.matches id) r refl
Step-IsRegistry {m} r (ticks id now outcome) =
    tick_session-IsRegistry m id now outcome (m.matches id) r refl

-- From a fresh manager, however matches are created (while their numbers fit in 64 bits), joined, resumed,
-- started, ended and ticked: who is in a match by the map of players is in it and it is open, the players
-- of an open match are in it by that map, no match has more players than the limit and a running one as
-- many as it needs, and the ids of the matches have numbers that were given out.
pub Reach-IsRegistry : {c : Config} {m : Manager} → Reach c m → IsRegistry m
Reach-IsRegistry {c} fresh = new_manager-IsRegistry c
Reach-IsRegistry (next r st) = Step-IsRegistry (Reach-IsRegistry r) st
