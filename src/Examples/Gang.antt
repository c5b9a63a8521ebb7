-- ===== src/Examples/Gang.antt =====
-- Leaders, secrets and powers: roles/succession.go, roles/visibility.go, abilities/framework.go.
use mathlib.Core.Bool.{false≢true}
use prison_break.Shared.{
  ◌≡◌, refl, true, false, [], ◌∷◌, codes, text_eq, count_if, map, inl, inr, sym, ◌∙◌, text_eq_iff,
}
use prison_break.Model.{
  GameState, PlayerState, gang_leader, gang_member, neutral_prisoner, prisoner,
}
use prison_break.Model.Kinds.{is_gang_leader}
use prison_break.Model.Zero.{zero_player, zero_state}
use prison_break.Items.Catalog.{item_shiv, stack}
use prison_break.Roles.Succession.{alive_leader_exists, apply_gang_leader_succession}
use prison_break.Roles.Succession.Effect.{succession_gives_leader}
use prison_break.Roles.Visibility.{project_player_for_viewer}
use prison_break.Roles.Visibility.Secrets.{LooksLike, project_player_for_viewer-LooksLike}

abbrev fallen : PlayerState
fallen = record zero_player { id = codes "p1"; role = gang_leader; faction = prisoner }

abbrev heir : PlayerState
heir = record zero_player { id = codes "p2"; alive = true; role = gang_member; faction = prisoner }

abbrev mourning : GameState
mourning = record zero_state { players = fallen ∷ heir ∷ [] }

leaderless : alive_leader_exists mourning.players ≡ false
unfolding alive_leader_exists
leaderless = refl

succession_gives_leader_example :
    let after = (apply_gang_leader_succession mourning (codes "m1") 40).0 in
    (count_if (λ p. is_gang_leader p.role) after.players ≡ 1)
    × (alive_leader_exists after.players ≡ true)
    × (map (λ p. p.id) after.players ≡ map (λ p. p.id) mourning.players)
    × (map (λ p. p.alive) after.players ≡ map (λ p. p.alive) mourning.players)
succession_gives_leader_example =
    succession_gives_leader mourning (codes "m1") 40 leaderless (inr (inl (refl, refl)))

abbrev ruled : GameState
ruled = record zero_state { players = record heir { role = gang_leader } ∷ heir ∷ [] }

led : alive_leader_exists ruled.players ≡ true
unfolding alive_leader_exists
led = refl

-- A twin of the heir, with a shiv and on no side.
abbrev armed : PlayerState
armed = record heir { role = neutral_prisoner; inventory = stack item_shiv 1 ∷ [] }

heir_looks_armed : LooksLike heir armed
heir_looks_armed = record { disguise = refl; same_office = refl; warden_public = λ h. cc }

other_viewer : text_eq heir.id (codes "p7") ≡ false
unfolding text_eq
other_viewer = refl

project_player_for_viewer-LooksLike_example :
    project_player_for_viewer heir (codes "p7") ≡ project_player_for_viewer armed (codes "p7")
project_player_for_viewer-LooksLike_example =
    project_player_for_viewer-LooksLike heir armed (codes "p7") heir_looks_armed
      (λ e. false≢true (sym other_viewer ∙ (text_eq_iff heir.id (codes "p7")).1 e))
