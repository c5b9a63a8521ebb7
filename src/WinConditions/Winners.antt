-- ===== src/WinConditions/Winners.antt =====
-- Who is named as a winner.
use prison_break.Shared.{
  ℕ, ◌≡◌, ◌↔◌, ◌⊎◌, true, List, [], ◌∷◌, arith, Any, IsSorted, text_lt, sort_by-Any,
  sort_by-IsSorted, order_on,
}
use prison_break.Model.{
  GameState, PlayerState, PlayerId, WinReason, gang_leader, gang_member, snitch, neutral_prisoner,
  authority, good, evil, max_cycles_reached, warden_died, gang_leader_escaped,
  all_gang_members_dead, no_escapes_at_time_limit, hitman_target_eliminated,
  escape_artist_first_escape, no_reason,
}
use prison_break.WinConditions.{winners_for_reason, resolve_outcome}

abbrev IsGang : PlayerState → Type 0
IsGang p = (p.role ≡ gang_leader) ⊎ (p.role ≡ gang_member)

abbrev IsLoyal : PlayerState → Type 0
IsLoyal p = ((p.faction ≡ authority) × (p.alignment ≡ good)) ⊎ (p.role ≡ snitch)

-- The sides that win by each reason.
abbrev pub Deserves : WinReason → PlayerState → Type 0
Deserves gang_leader_escaped p = IsGang p ⊎ ((p.faction ≡ authority) × (p.alignment ≡ evil))
Deserves warden_died p = IsGang p
Deserves all_gang_members_dead p = IsLoyal p
Deserves max_cycles_reached p = IsLoyal p
Deserves no_escapes_at_time_limit p = IsLoyal p
Deserves hitman_target_eliminated p = p.role ≡ neutral_prisoner
Deserves escape_artist_first_escape p = p.role ≡ neutral_prisoner
Deserves no_reason p = ⊥

winners_iff :
    (why : WinReason) (players : List PlayerState) (id : PlayerId)
    → Any (λ w. w ≡ id) (winners_for_reason players why)
      ↔ Any (λ p. (p.id ≡ id) × (p.alive ≡ true) × Deserves why p) players
unfolding winners_for_reason
winners_iff why [] id = ground arith
winners_iff gang_leader_escaped (p ∷ players) id =
    ground (arith, winners_iff gang_leader_escaped players id)
winners_iff why (p ∷ players) id = ground (arith, winners_iff why players id)

-- A player is named in an outcome exactly when that player is alive and on a side that wins by the
-- reason. The names are in order, whatever the order of the players.
pub resolve_outcome-winners :
    (state : GameState) (why : WinReason) (tick : ℕ)
    → let winners = (resolve_outcome state why tick).winner_player_ids in
      ((id : PlayerId)
        → Any (λ w. w ≡ id) winners
          ↔ Any (λ p. (p.id ≡ id) × (p.alive ≡ true) × Deserves why p) state.players)
      × IsSorted text_lt winners
unfolding resolve_outcome
resolve_outcome-winners state why tick = (
  λ id. ground (
    arith,
    winners_iff why state.players id,
    sort_by-Any (λ (w : PlayerId). w ≡ id) text_lt (winners_for_reason state.players why),
  ),
  sort_by-IsSorted (order_on (λ (w : PlayerId). w)) (winners_for_reason state.players why),
)
