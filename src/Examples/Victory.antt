-- ===== src/Examples/Victory.antt =====
-- The end of a match: winconditions/evaluator.go.
use prison_break.Shared.{
  ◌≡◌, ◌↔◌, refl, ◌<◌, true, some, none, [], ◌∷◌, Any, IsSorted, text_lt, codes, text_eq, sort_by,
}
use prison_break.Model.{
  GameState, GameOverState, PlayerState, PlayerId, gang_leader, warden, authority,
  gang_leader_escaped,
}
use prison_break.Model.Zero.{zero_player, zero_state}
use prison_break.WinConditions.{
  has_escaped_gang_leader, Config, evaluate, resolve_outcome, normalized, escaped_room_id,
}
use prison_break.WinConditions.Reasons.{
  evaluate-Justified, evaluate-eq-none, Justified, LeaderEscaped, WardenDead, GangDead,
}
use prison_break.WinConditions.Winners.{resolve_outcome-winners, Deserves}

abbrev boss : PlayerState
boss = record zero_player {
  id = codes "p2";
  alive = true;
  role = gang_leader;
  current_room_id = escaped_room_id;
}

abbrev late_warden : PlayerState
late_warden = record zero_player { id = codes "p1"; role = warden; faction = authority }

abbrev final : GameState
final = record zero_state { tick_id = 900; players = late_warden ∷ boss ∷ [] }

abbrev six : Config
six = record { max_cycles = 0 }

abbrev outcome : GameOverState
outcome = record {
  reason = gang_leader_escaped;
  ended_tick = 900;
  winner_player_ids = codes "p2" ∷ [];
  notes = [];
}

boss_wins : evaluate final six ≡ some outcome
unfolding evaluate resolve_outcome has_escaped_gang_leader text_eq sort_by
boss_wins = refl

evaluate-Justified_example :
    Justified final.players 0 6 gang_leader_escaped × (outcome.ended_tick ≡ 900)
unfolding normalized
evaluate-Justified_example = evaluate-Justified final six outcome boss_wins

evaluate-eq-none_example : (evaluate final six ≡ none) ↔ (
    (¬ LeaderEscaped final.players)
    × (¬ WardenDead final.players)
    × (¬ GangDead final.players)
    × (0 < (normalized six).max_cycles))
evaluate-eq-none_example = evaluate-eq-none final six

resolve_outcome-winners_example :
    let winners = (resolve_outcome final gang_leader_escaped 900).winner_player_ids in
    ((id : PlayerId)
      → Any (λ w. w ≡ id) winners
        ↔ Any (λ p. (p.id ≡ id) × (p.alive ≡ true) × Deserves gang_leader_escaped p) final.players)
    × IsSorted text_lt winners
resolve_outcome-winners_example = resolve_outcome-winners final gang_leader_escaped 900
