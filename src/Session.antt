-- ===== src/Session.antt =====
-- What manager.go keeps of a match (`matchSession`), without the game state and the records of single
-- commands. A map that is only looked up and written is a function, with the zero value for a key that it
-- lacks; the players are an association list. A time is a number, and `none` for nil.
use prison_break.Shared.{ℕ, Bool, List, Option, Text, any, text_eq}
use prison_break.Model.{MatchStatus, MatchId, PlayerId, InputCommand}

pub record PlayerSession : Type 0 where
  pub player_id : PlayerId
  pub name : Text
  pub joined_at : ℕ

pub record ReplayEntry : Type 0 where
  pub accepted_tick : ℕ
  pub entry_ingress_seq : ℕ
  pub accepted_at : ℕ
  pub command : InputCommand

pub record MatchSession : Type 0 where
  pub match_id : MatchId
  pub status : MatchStatus
  pub created_at : ℕ
  pub started_at : Option ℕ
  pub ended_at : Option ℕ
  pub ended_reason : Text
  pub tick_id : ℕ
  pub players : List PlayerSession
  pub next_ingress_seq : ℕ
  pub scheduled_inputs : ℕ → List InputCommand
  pub seen_client_seq : PlayerId → ℕ → Bool
  pub accepted_by_tick : ℕ → PlayerId → ℕ
  pub replay_entries : List ReplayEntry

-- Has the map of players the key?
abbrev pub is_member : PlayerId → List PlayerSession → Bool
is_member id players = any (λ p. text_eq p.player_id id) players
