-- ===== src/Roles/Visibility.antt =====
-- visibility.go: the players of a snapshot as one of them may see them.
pub mod Secrets
use prison_break.Shared.{Bool, true, false, not, ◌&&◌, List, [], text_eq, map, if◌then◌else◌}
use prison_break.Model.{PlayerState, PlayerId, RoleType, FactionType, AlignmentType}
use prison_break.Model.Kinds.{is_warden}
use prison_break.Model.Zero.{zero_attempt}

unfoldable pub hide_private_player_state : PlayerState → PlayerState
hide_private_player_state player = record player {
  inventory = [];
  cards = [];
  effects = [];
  last_escape_attempt = zero_attempt;
  bullets = 0;
  temp_hearts_half = 0;
  stunned_until_tick = 0;
  solitary_until_tick = 0;
}

-- `clonePlayerState` copies slices, which are values here.
unfoldable pub project_player_for_viewer : PlayerState → PlayerId → PlayerState
unfolding hide_private_player_state
project_player_for_viewer player viewer =
    let hidden = hide_private_player_state player in
    if not (text_eq viewer []) && text_eq player.id viewer
    then player
    else if is_warden player.role
    then record hidden { alignment = AlignmentType.no_alignment }
    else record hidden {
      role = RoleType.no_role;
      faction = FactionType.no_faction;
      alignment = AlignmentType.no_alignment;
    }

-- `ProjectSnapshotForViewer`, on the players of a full state or of a delta.
unfoldable pub project_players : PlayerId → List PlayerState → List PlayerState
project_players viewer players = map (λ p. project_player_for_viewer p viewer) players
