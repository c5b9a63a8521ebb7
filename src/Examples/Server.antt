-- ===== src/Examples/Server.antt =====
-- A server with one match: server/game/manager.go.
use prison_break.Shared.{◌≡◌, refl, arith, some, codes, text_eq, trim_space, six_digits}
use prison_break.Model.{MatchId}
use prison_break.Session.{MatchSession}
use prison_break.Matches.{
  Config, Manager, new_manager, create_match, end_match, new_session, commit, match_id_at,
  normalized,
}
use prison_break.Matches.Registry.{IsRegistry}
use prison_break.Matches.Steps.{Reach-IsRegistry, Reach, fresh, next, creates, ends}
use prison_break.Matches.Progress.{Step-Progressed, Progressed}

abbrev settings : Config
settings = record {
  min_player_count = 2;
  max_player_count = 4;
  tick_rate_hz = 30;
  day_seconds = 300;
  night_seconds = 120;
  max_cycles = 6;
  match_id_prefix = codes "match";
}

abbrev open_server : Manager
open_server = (create_match (new_manager settings) 5).0

open_server_reached : Reach settings open_server
unfolding new_manager
open_server_reached = next fresh (creates 5 (omega arith))

Reach-IsRegistry_example : IsRegistry open_server
Reach-IsRegistry_example = Reach-IsRegistry open_server_reached

abbrev first_id : MatchId
first_id = codes "match-000001"

first_match : open_server.matches first_id ≡ some (new_session first_id 5)
unfolding create_match commit text_eq match_id_at new_manager normalized trim_space six_digits
first_match = refl

Step-Progressed_example :
    (v : MatchSession) × ((end_match open_server first_id (codes "done") 9).0.matches first_id
      ≡ some v)
    × Progressed (new_session first_id 5) v
Step-Progressed_example =
    Step-Progressed first_id (new_session first_id 5) open_server_reached
      (ends first_id (codes "done") 9) first_match
