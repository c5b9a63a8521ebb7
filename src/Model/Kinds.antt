-- ===== src/Model/Kinds.antt =====
-- The tests by which the program compares a value of an enumeration with a constant.
use prison_break.Shared.{Bool, true, false}
use prison_break.Model.{
  MatchStatus, PhaseType, FactionType, AlignmentType, RoleType, EntityKind, lobby, running,
  game_over, day, night, authority, prisoner, good, evil, warden, deputy, gang_leader, gang_member,
  snitch, neutral_prisoner, dropped_item,
}

abbrev pub is_running : MatchStatus → Bool
is_running running = true
is_running _ = false

abbrev pub is_game_over : MatchStatus → Bool
is_game_over game_over = true
is_game_over _ = false

abbrev pub is_lobby : MatchStatus → Bool
is_lobby lobby = true
is_lobby _ = false

abbrev pub is_day : PhaseType → Bool
is_day day = true
is_day _ = false

abbrev pub is_night : PhaseType → Bool
is_night night = true
is_night _ = false

abbrev pub is_authority : FactionType → Bool
is_authority authority = true
is_authority _ = false

abbrev pub is_prisoner : FactionType → Bool
is_prisoner prisoner = true
is_prisoner _ = false

abbrev pub is_good : AlignmentType → Bool
is_good good = true
is_good _ = false

abbrev pub is_evil : AlignmentType → Bool
is_evil evil = true
is_evil _ = false

abbrev pub is_warden : RoleType → Bool
is_warden warden = true
is_warden _ = false

abbrev pub is_deputy : RoleType → Bool
is_deputy deputy = true
is_deputy _ = false

abbrev pub is_gang_leader : RoleType → Bool
is_gang_leader gang_leader = true
is_gang_leader _ = false

abbrev pub is_gang_member : RoleType → Bool
is_gang_member gang_member = true
is_gang_member _ = false

abbrev pub is_snitch : RoleType → Bool
is_snitch snitch = true
is_snitch _ = false

abbrev pub is_neutral_prisoner : RoleType → Bool
is_neutral_prisoner neutral_prisoner = true
is_neutral_prisoner _ = false

abbrev pub is_dropped_item : EntityKind → Bool
is_dropped_item dropped_item = true
is_dropped_item _ = false
