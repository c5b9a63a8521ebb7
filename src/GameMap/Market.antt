-- ===== src/GameMap/Market.antt =====
-- black_market.go: where the market can stand.
use prison_break.Shared.{
  ℕ, zero, suc, ◌%◌, ◌<◌, ◌≡◌, refl, true, arith, get_or, fnv64a, le_bytes, ◌++◌, ◌∷◌, text_eq,
}
use prison_break.Model.{MatchId}
use prison_break.GameMap.{
  nightly_black_market_candidates, room_black_market, is_nightly_black_market_candidate,
  deterministic_nightly_black_market_room,
}

candidate_at :
    (i : ℕ)
    → i < 5
    → is_nightly_black_market_candidate (get_or nightly_black_market_candidates i room_black_market)
      ≡ true
unfolding is_nightly_black_market_candidate text_eq
candidate_at zero h = refl
candidate_at (suc zero) h = refl
candidate_at (suc (suc zero)) h = refl
candidate_at (suc (suc (suc zero))) h = refl
candidate_at (suc (suc (suc (suc zero)))) h = refl
candidate_at (suc (suc (suc (suc (suc i))))) h = absurd (omega arith)

-- Whatever the hash, the chosen room is a candidate.
pub nightly_room-is_candidate :
    (match : MatchId) (cycle tick : ℕ)
    → is_nightly_black_market_candidate (deterministic_nightly_black_market_room match cycle tick)
      ≡ true
unfolding deterministic_nightly_black_market_room
nightly_room-is_candidate match cycle tick =
    let h = fnv64a (match ++ cycle ∷ le_bytes 8 tick) in candidate_at (h % 5) (omega arith)
