-- ===== src/WinConditions/Reasons.antt =====
-- What each reason for the end of a match says of the players, and the order among the reasons.
use prison_break.Shared.{
  ℕ, ◌≤◌, ◌<◌, ◌≡◌, ◌↔◌, ◌⊎◌, Bool, true, false, List, [], ◌∷◌, none, some, arith, All, Any,
  text_eq_iff,
}
use prison_break.Model.{
  GameState, GameOverState, PlayerState, WinReason, warden, gang_leader, gang_member,
  max_cycles_reached, warden_died, gang_leader_escaped, all_gang_members_dead,
}
use prison_break.WinConditions.{
  Config, escaped_room_id, has_escaped_gang_leader, dead_warden_loop, has_dead_warden,
  no_alive_gang_loop, has_no_alive_gang_members, evaluate, normalized, resolve_outcome,
}

-- A living gang leader is in the room of the escaped.
abbrev pub LeaderEscaped : List PlayerState → Type 0
LeaderEscaped =
    Any (λ p. (p.role ≡ gang_leader) × (p.alive ≡ true) × (p.current_room_id ≡ escaped_room_id))

-- There is a warden, and no warden is alive.
abbrev pub WardenDead : List PlayerState → Type 0
WardenDead players =
    Any (λ p. p.role ≡ warden) players × All (λ p. p.role ≡ warden → p.alive ≡ false) players

-- There is a gang, and nobody of it is alive.
abbrev pub GangDead : List PlayerState → Type 0
GangDead players =
    Any (λ p. (p.role ≡ gang_leader) ⊎ (p.role ≡ gang_member)) players
    × All (λ p. (p.role ≡ gang_leader) ⊎ (p.role ≡ gang_member) → p.alive ≡ false) players

has_escaped_gang_leader_iff :
    (players : List PlayerState) → (has_escaped_gang_leader players ≡ true) ↔ LeaderEscaped players
unfolding has_escaped_gang_leader
has_escaped_gang_leader_iff [] = ground arith
has_escaped_gang_leader_iff (p ∷ players) =
    ground
      (arith, has_escaped_gang_leader_iff players, text_eq_iff p.current_room_id escaped_room_id)

warden_loop_iff :
    (seen : Bool) (players : List PlayerState)
    → (dead_warden_loop seen players ≡ true) ↔ (
        ((seen ≡ true) ⊎ Any (λ p. p.role ≡ warden) players)
        × All (λ p. p.role ≡ warden → p.alive ≡ false) players)
unfolding dead_warden_loop
warden_loop_iff seen [] = ground arith
warden_loop_iff seen (p ∷ players) =
    ground (arith, warden_loop_iff seen players, warden_loop_iff true players)

has_dead_warden_iff :
    (players : List PlayerState) → (has_dead_warden players ≡ true) ↔ WardenDead players
unfolding has_dead_warden
has_dead_warden_iff players = ground (arith, warden_loop_iff false players)

gang_loop_iff :
    (seen : Bool) (players : List PlayerState)
    → (no_alive_gang_loop seen players ≡ true) ↔ (
        ((seen ≡ true) ⊎ Any (λ p. (p.role ≡ gang_leader) ⊎ (p.role ≡ gang_member)) players)
        × All (λ p. (p.role ≡ gang_leader) ⊎ (p.role ≡ gang_member) → p.alive ≡ false) players)
unfolding no_alive_gang_loop
gang_loop_iff seen [] = ground arith
gang_loop_iff seen (p ∷ players) =
    ground (arith, gang_loop_iff seen players, gang_loop_iff true players)

has_no_alive_gang_members_iff :
    (players : List PlayerState) → (has_no_alive_gang_members players ≡ true) ↔ GangDead players
unfolding has_no_alive_gang_members
has_no_alive_gang_members_iff players = ground (arith, gang_loop_iff false players)

-- When a reason is the right one: its condition holds, and that of no reason before it.
abbrev pub Justified : List PlayerState → ℕ → ℕ → WinReason → Type 0
Justified players cycles limit gang_leader_escaped = LeaderEscaped players
Justified players cycles limit warden_died = WardenDead players × (¬ LeaderEscaped players)
Justified players cycles limit all_gang_members_dead =
    GangDead players × (¬ WardenDead players) × (¬ LeaderEscaped players)
Justified players cycles limit max_cycles_reached =
    (limit ≤ cycles) × (¬ GangDead players) × (¬ WardenDead players) × (¬ LeaderEscaped players)
Justified players cycles limit _ = ⊥

-- A match that is declared over has a reason that holds, and no reason of higher rank holds: the
-- escape of a gang leader comes first, then the death of every warden, then that of the whole gang,
-- then the limit of cycles. The outcome carries the tick of the state.
pub evaluate-Justified :
    (state : GameState) (config : Config) (outcome : GameOverState)
    → evaluate state config ≡ some outcome
    → Justified state.players state.cycle_count (normalized config).max_cycles outcome.reason
      × (outcome.ended_tick ≡ state.tick_id)
unfolding evaluate resolve_outcome
evaluate-Justified state config outcome h = ground (
  arith,
  has_escaped_gang_leader_iff state.players,
  has_dead_warden_iff state.players,
  has_no_alive_gang_members_iff state.players,
)

-- A match goes on exactly when no gang leader has escaped, a warden is alive or there was none, one
-- of the gang is alive or there was none, and the cycles are below their limit.
pub evaluate-eq-none :
    (state : GameState) (config : Config)
    → (evaluate state config ≡ none) ↔ (
        (¬ LeaderEscaped state.players)
        × (¬ WardenDead state.players)
        × (¬ GangDead state.players)
        × (state.cycle_count < (normalized config).max_cycles))
unfolding evaluate
evaluate-eq-none state config = ground (
  arith,
  has_escaped_gang_leader_iff state.players,
  has_dead_warden_iff state.players,
  has_no_alive_gang_members_iff state.players,
)
