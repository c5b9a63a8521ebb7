-- ===== src/Roles/Assignment/Templates.antt =====
-- assignment.go: the profiles of a match, by the number of its players.
use prison_break.Shared.{◌∷◌, [], List, ℕ, ◌==◌, if◌then◌else◌}
use prison_break.Model.{RoleType, FactionType, AlignmentType}

pub record RoleProfile : Type 0 where
  pub role : RoleType
  pub faction : FactionType
  pub alignment : AlignmentType

abbrev pub warden_good : RoleProfile
warden_good = record {
  role = RoleType.warden;
  faction = FactionType.authority;
  alignment = AlignmentType.good;
}

abbrev pub deputy_good : RoleProfile
deputy_good = record {
  role = RoleType.deputy;
  faction = FactionType.authority;
  alignment = AlignmentType.good;
}

abbrev pub deputy_evil : RoleProfile
deputy_evil = record {
  role = RoleType.deputy;
  faction = FactionType.authority;
  alignment = AlignmentType.evil;
}

abbrev pub leader : RoleProfile
leader = record {
  role = RoleType.gang_leader;
  faction = FactionType.prisoner;
  alignment = AlignmentType.evil;
}

abbrev pub member : RoleProfile
member = record {
  role = RoleType.gang_member;
  faction = FactionType.prisoner;
  alignment = AlignmentType.evil;
}

abbrev pub informer : RoleProfile
informer = record {
  role = RoleType.snitch;
  faction = FactionType.prisoner;
  alignment = AlignmentType.good;
}

abbrev pub neutral_inmate : RoleProfile
neutral_inmate = record {
  role = RoleType.neutral_prisoner;
  faction = FactionType.neutral;
  alignment = AlignmentType.neutral;
}

abbrev templates_of_6 : List (List RoleProfile)
templates_of_6 =
    (warden_good ∷ deputy_good ∷ leader ∷ member ∷ member ∷ informer ∷ [])
    ∷ (warden_good ∷ deputy_good ∷ leader ∷ member ∷ neutral_inmate ∷ neutral_inmate ∷ [])
    ∷ (warden_good ∷ deputy_evil ∷ leader ∷ member ∷ informer ∷ neutral_inmate ∷ [])
    ∷ []

abbrev templates_of_7 : List (List RoleProfile)
templates_of_7 =
    (warden_good ∷ deputy_good ∷ deputy_good ∷ leader ∷ member ∷ member ∷ neutral_inmate ∷ [])
    ∷ (warden_good ∷ deputy_good ∷ deputy_evil ∷ leader ∷ member ∷ informer ∷ neutral_inmate ∷ [])
    ∷ []

abbrev templates_of_8 : List (List RoleProfile)
templates_of_8 =
    (warden_good ∷ deputy_good ∷ deputy_good ∷ leader ∷ member ∷ member ∷ member ∷ neutral_inmate
      ∷ [])
    ∷ (warden_good ∷ deputy_good ∷ deputy_evil ∷ leader ∷ member ∷ member ∷ informer
        ∷ neutral_inmate ∷ [])
    ∷ []

abbrev templates_of_9 : List (List RoleProfile)
templates_of_9 =
    (warden_good ∷ deputy_good ∷ deputy_good ∷ leader ∷ member ∷ member ∷ member ∷ neutral_inmate
      ∷ neutral_inmate ∷ [])
    ∷ (warden_good ∷ deputy_good ∷ deputy_evil ∷ leader ∷ member ∷ member ∷ informer
        ∷ neutral_inmate ∷ neutral_inmate ∷ [])
    ∷ []

abbrev templates_of_10 : List (List RoleProfile)
templates_of_10 =
    (warden_good ∷ deputy_good ∷ deputy_good ∷ deputy_evil ∷ leader ∷ member ∷ member ∷ member
      ∷ informer ∷ neutral_inmate ∷ [])
    ∷ (warden_good ∷ deputy_good ∷ deputy_good ∷ deputy_good ∷ leader ∷ member ∷ member ∷ member
        ∷ member ∷ neutral_inmate ∷ [])
    ∷ (warden_good ∷ deputy_good ∷ deputy_evil ∷ deputy_evil ∷ leader ∷ member ∷ informer ∷ informer
        ∷ neutral_inmate ∷ neutral_inmate ∷ [])
    ∷ []

abbrev templates_of_11 : List (List RoleProfile)
templates_of_11 =
    (warden_good ∷ deputy_good ∷ deputy_good ∷ deputy_evil ∷ leader ∷ member ∷ member ∷ member
      ∷ member ∷ informer ∷ neutral_inmate ∷ [])
    ∷ (warden_good ∷ deputy_good ∷ deputy_good ∷ deputy_good ∷ leader ∷ member ∷ member ∷ member
        ∷ member ∷ member ∷ neutral_inmate ∷ [])
    ∷ (warden_good ∷ deputy_good ∷ deputy_evil ∷ deputy_evil ∷ leader ∷ member ∷ member ∷ informer
        ∷ informer ∷ neutral_inmate ∷ neutral_inmate ∷ [])
    ∷ []

abbrev templates_of_12 : List (List RoleProfile)
templates_of_12 =
    (warden_good ∷ deputy_good ∷ deputy_good ∷ deputy_evil ∷ deputy_evil ∷ leader ∷ member ∷ member
      ∷ member ∷ informer ∷ informer ∷ neutral_inmate ∷ [])
    ∷ (warden_good ∷ deputy_good ∷ deputy_good ∷ deputy_good ∷ deputy_good ∷ leader ∷ member
        ∷ member ∷ member ∷ member ∷ member ∷ member ∷ [])
    ∷ (warden_good ∷ deputy_good ∷ deputy_good ∷ deputy_evil ∷ deputy_evil ∷ leader ∷ member
        ∷ member ∷ informer ∷ informer ∷ neutral_inmate ∷ neutral_inmate ∷ [])
    ∷ []

-- No templates for a number that the map lacks.
unfoldable pub role_templates_by_count : ℕ → List (List RoleProfile)
role_templates_by_count n =
    if n == 6
    then templates_of_6
    else if n == 7
    then templates_of_7
    else if n == 8
    then templates_of_8
    else if n == 9
    then templates_of_9
    else if n == 10
    then templates_of_10
    else if n == 11
    then templates_of_11
    else if n == 12
    then templates_of_12
    else []
