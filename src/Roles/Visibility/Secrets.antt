-- ===== src/Roles/Visibility/Secrets.antt =====
-- What a viewer cannot learn from a projection, and what it does not hide.
use prison_break.Shared.{◌≡◌, ◌≢◌, true, arith, text_eq_iff}
use prison_break.Model.{PlayerState, PlayerId}
use prison_break.Model.Kinds.{is_warden}
use prison_break.Roles.Visibility.{project_player_for_viewer}

-- Two players that look alike from outside: they agree on all fields but the secret ones. The
-- faction and the role are secret, unless the role is that of the warden.
pub record LooksLike (p q : PlayerState) : Type 0 where
  pub disguise : p ≡ record q {
    faction = p.faction;
    alignment = p.alignment;
    role = p.role;
    temp_hearts_half = p.temp_hearts_half;
    bullets = p.bullets;
    stunned_until_tick = p.stunned_until_tick;
    solitary_until_tick = p.solitary_until_tick;
    inventory = p.inventory;
    cards = p.cards;
    effects = p.effects;
    last_escape_attempt = p.last_escape_attempt;
  }
  pub same_office : is_warden p.role ≡ is_warden q.role
  pub warden_public : is_warden p.role ≡ true → (p.role ≡ q.role) × (p.faction ≡ q.faction)

-- A viewer cannot tell two players apart that differ only in what is secret: the role and faction of
-- anyone but the warden, the alignment, the inventory, the cards, the effects, the last escape
-- attempt, the ammunition, the temporary hearts and the timers of stun and solitary.
pub project_player_for_viewer-LooksLike :
    (p q : PlayerState) (viewer : PlayerId)
    → LooksLike p q
    → p.id ≢ viewer
    → project_player_for_viewer p viewer ≡ project_player_for_viewer q viewer
unfolding project_player_for_viewer
project_player_for_viewer-LooksLike p q viewer h other =
    ground (arith, text_eq_iff p.id viewer, text_eq_iff q.id viewer)
