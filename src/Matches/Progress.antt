-- ===== src/Matches/Progress.antt =====
-- A match goes from the lobby to the game and to its end, and no way back.
use prison_break.Shared.{
  ℕ, ◌+◌, ◌≤◌, ◌<◌, ◌≡◌, refl, sym, ◌∙◌, true, false, [], Option, none, some, arith, Text, text_eq,
  text_eq_sound, length, ltb, leb, u64, Bool-cases, inl, inr, trim_space,
}
use mathlib.Core.Option.{some-injective}
use prison_break.Model.{MatchStatus, MatchId, PlayerId, lobby, running, game_over, no_status}
use prison_break.Model.Kinds.{is_running, is_lobby, is_game_over}
use prison_break.Session.{MatchSession, is_member}
use prison_break.Matches.{
  resume_player, resume_session, elsewhere, Config, Manager, commit, create_match, match_id_at,
  join_match, join_session, at_key, has_value, start_match, start_session, end_match, end_session,
  close_session, tick_match, tick_session,
}
use prison_break.Matches.Registry.{IsRegistry, fresh_id}
use prison_break.Matches.Steps.{
  Step, Reach, Reach-IsRegistry, creates, joins, resumes, starts, ends, ticks,
}

abbrev pub rank : MatchStatus → ℕ
rank lobby = 0
rank running = 1
rank game_over = 2
rank no_status = 0

-- How a session may have changed: a match that is over is left as it is, and any other goes on in the
-- order of lobby, game and end.
abbrev pub Progressed : MatchSession → MatchSession → Type 0
Progressed s t = (rank s.status ≤ rank t.status) × (is_game_over s.status ≡ true → t ≡ s)

-- The session at one id, after a write at another or at the same.
written :
    (f : MatchId → Option MatchSession) (id k : MatchId) (s t u : MatchSession)
    → f id ≡ some s
    → Progressed s t
    → f k ≡ some u
    → (v : MatchSession) × (at_key f id (some t) k ≡ some v) × Progressed u v
written f id k s t u at forward e = elim (Bool-cases (text_eq k id)) [
  | inr other ↦ (u, rw other e, (omega arith, λ h. refl))
  | inl same ↦
      let path = text_eq_sound k id same in
      let eq = some-injective _ _ (sym at ∙ rw path at e) in (t, rw same refl, rw (← eq) forward)
]

kept :
    (m : Manager) (k : MatchId) (u : MatchSession)
    → m.matches k ≡ some u
    → (v : MatchSession) × (m.matches k ≡ some v) × Progressed u v
kept m k u e = (u, e, (omega arith, λ h. refl))

create_match-Progressed :
    (m : Manager) (now : ℕ) (k : MatchId) (u : MatchSession)
    → IsRegistry m
    → m.next_match_sequence + 1 < 18446744073709551616
    → m.matches k ≡ some u
    → (v : MatchSession) × ((create_match m now).0.matches k ≡ some v) × Progressed u v
unfolding create_match commit
create_match-Progressed m now k u r fits e =
    let id = match_id_at m.config.match_id_prefix (u64 (m.next_match_sequence + 1)) in
    elim (Bool-cases (text_eq k id)) [
      | inr other ↦ (u, rw other e, (omega arith, λ h. refl))
      | inl same ↦ absurd (ground (arith, text_eq_sound k id same, e, fresh_id m r fits))
    ]

lobby_rank : (st : MatchStatus) → is_lobby st ≡ true → (rank st ≡ 0) × (is_game_over st ≡ false)
lobby_rank st h = ground arith

open_rank : (st : MatchStatus) → is_game_over st ≡ false → rank st ≤ 1
open_rank st h = ground arith

join_session-Progressed :
    (m : Manager) (id : MatchId) (player : PlayerId) (name : Text) (now : ℕ)
    (o : Option MatchSession) (k : MatchId) (u : MatchSession)
    → m.matches id ≡ o
    → m.matches k ≡ some u
    → (v : MatchSession) × ((join_session m id player name now o).0.matches k ≡ some v)
      × Progressed u v
unfolding join_session commit
join_session-Progressed m id player name now none k u at e = kept m k u e
join_session-Progressed m id player name now (some s) k u at e =
    elim (Bool-cases (is_lobby s.status)) [
      | inr t ↦ rw t (kept m k u e)
      | inl t ↦ elim (Bool-cases (leb m.config.max_player_count (length s.players))) [
        | inl full ↦ rw (t, full) (kept m k u e)
        | inr room ↦
            let forward = lobby_rank s.status t in
            rw (t, room) (written m.matches id k s _ u at (omega arith, λ h. ground arith) e)
      ]
    ]

start_session-Progressed :
    (m : Manager) (id : MatchId) (now : ℕ) (o : Option MatchSession) (k : MatchId)
    (u : MatchSession)
    → m.matches id ≡ o
    → m.matches k ≡ some u
    → (v : MatchSession) × ((start_session m id now o).0.matches k ≡ some v) × Progressed u v
unfolding start_session commit
start_session-Progressed m id now none k u at e = kept m k u e
start_session-Progressed m id now (some s) k u at e = elim (Bool-cases (is_running s.status)) [
  | inl t ↦ rw t (kept m k u e)
  | inr t ↦ elim (Bool-cases (is_game_over s.status)) [
    | inl over ↦ rw (t, over) (kept m k u e)
    | inr open_ ↦ elim (Bool-cases (ltb (length s.players) m.config.min_player_count)) [
      | inl few ↦ rw (t, open_, few) (kept m k u e)
      | inr enough ↦
          let low = open_rank s.status open_ in
          rw (t, open_, enough) (written m.matches id k s _ u at (low, λ h. ground arith) e)
    ]
  ]
]

close_session-Progressed :
    (m : Manager) (id : MatchId) (s t : MatchSession) (now : ℕ) (reason : Text) (k : MatchId)
    (u : MatchSession)
    → m.matches id ≡ some s
    → is_game_over s.status ≡ false
    → m.matches k ≡ some u
    → (v : MatchSession) × ((close_session m id t now reason).matches k ≡ some v) × Progressed u v
unfolding close_session commit
close_session-Progressed m id s t now reason k u at open_ e =
    let low = open_rank s.status open_ in
    written m.matches id k s _ u at (omega (arith, low), λ h. ground arith) e

end_session-Progressed :
    (m : Manager) (id : MatchId) (now : ℕ) (reason : Text) (o : Option MatchSession) (k : MatchId)
    (u : MatchSession)
    → m.matches id ≡ o
    → m.matches k ≡ some u
    → (v : MatchSession) × ((end_session m id now reason o).0.matches k ≡ some v) × Progressed u v
unfolding end_session
end_session-Progressed m id now reason none k u at e = kept m k u e
end_session-Progressed m id now reason (some s) k u at e =
    elim (Bool-cases (is_game_over s.status)) [
      | inl over ↦ rw over (kept m k u e)
      | inr open_ ↦ rw open_ (close_session-Progressed m id s s now reason k u at open_ e)
    ]

running_open : (st : MatchStatus) → is_running st ≡ true → is_game_over st ≡ false
running_open st h = ground arith

tick_session-Progressed :
    (m : Manager) (id : MatchId) (now : ℕ) (outcome : Option Text) (o : Option MatchSession)
    (k : MatchId) (u : MatchSession)
    → m.matches id ≡ o
    → m.matches k ≡ some u
    → (v : MatchSession) × ((tick_session m id now outcome o).matches k ≡ some v) × Progressed u v
unfolding tick_session
tick_session-Progressed m id now outcome none k u at e = kept m k u e
tick_session-Progressed m id now none (some s) k u at e = elim (Bool-cases (is_running s.status)) [
  | inr t ↦ rw t (kept m k u e)
  | inl t ↦
      let open_ = running_open s.status t in
      rw t (written m.matches id k s _ u at (omega arith, λ h. ground arith) e)
]
tick_session-Progressed m id now (some reason) (some s) k u at e =
    elim (Bool-cases (is_running s.status)) [
      | inr t ↦ rw t (kept m k u e)
      | inl t ↦
          rw t (close_session-Progressed m id s _ now reason k u at (running_open s.status t) e)
    ]

join_match-Progressed :
    (m : Manager) (id : MatchId) (player : PlayerId) (name : Text) (now : ℕ) (k : MatchId)
    (u : MatchSession)
    → m.matches k ≡ some u
    → (v : MatchSession) × ((join_match m id player name now).0.matches k ≡ some v) × Progressed u v
unfolding join_match
join_match-Progressed m id player name now k u e =
    elim (Bool-cases (text_eq (trim_space player) [])) [
      | inl t ↦ rw t (kept m k u e)
      | inr named ↦ elim (Bool-cases (text_eq (trim_space name) [])) [
        | inl t ↦ rw (named, t) (kept m k u e)
        | inr called ↦ elim (Bool-cases (has_value (m.player_to_match player))) [
          | inl taken ↦ rw (named, called, taken) (kept m k u e)
          | inr free ↦
              rw (named, called, free)
                (join_session-Progressed m id player (trim_space name) now (m.matches id) k u refl
                  e)
        ]
      ]
    ]

resume_session-Progressed :
    (m : Manager) (id : MatchId) (player : PlayerId) (name : Text) (o : Option MatchSession)
    (k : MatchId) (u : MatchSession)
    → m.matches id ≡ o
    → m.matches k ≡ some u
    → (v : MatchSession) × ((resume_session m id player name o).0.matches k ≡ some v)
      × Progressed u v
unfolding resume_session
resume_session-Progressed m id player name none k u at e = kept m k u e
resume_session-Progressed m id player name (some s) k u at e =
    elim (Bool-cases (is_game_over s.status)) [
      | inl over ↦ rw over (kept m k u e)
      | inr open_ ↦ elim (Bool-cases (elsewhere (m.player_to_match player) id)) [
        | inl away ↦ rw (open_, away) (kept m k u e)
        | inr home ↦ elim (Bool-cases (is_member player s.players)) [
          | inr out ↦ rw (open_, home, out) (kept m k u e)
          | inl mem ↦
              rw (open_, home, mem)
                (written m.matches id k s _ u at (omega arith, λ h. ground arith) e)
        ]
      ]
    ]

resume_player-Progressed :
    (m : Manager) (id : MatchId) (player : PlayerId) (name : Text) (k : MatchId) (u : MatchSession)
    → m.matches k ≡ some u
    → (v : MatchSession) × ((resume_player m id player name).0.matches k ≡ some v) × Progressed u v
unfolding resume_player
resume_player-Progressed m id player name k u e =
    elim (Bool-cases (text_eq (trim_space player) [])) [
      | inl t ↦ rw t (kept m k u e)
      | inr named ↦ rw named (
          resume_session-Progressed m id (trim_space player) (trim_space name) (m.matches id) k u
            refl e)
    ]

-- After a step of a server that was started fresh, each match is still there; a match that is over is as
-- it was, and any other has gone on in the order of lobby, game and end, or has stayed.
pub Step-Progressed :
    {c : Config} {m n : Manager} (k : MatchId) (u : MatchSession)
    → Reach c m
    → Step m n
    → m.matches k ≡ some u
    → (v : MatchSession) × (n.matches k ≡ some v) × Progressed u v
unfolding start_match end_match tick_match
Step-Progressed {m = m} k u r (creates now fits) e =
    create_match-Progressed m now k u (Reach-IsRegistry r) fits e
Step-Progressed {m = m} k u r (joins id player name now) e =
    join_match-Progressed m id player name now k u e
Step-Progressed {m = m} k u r (resumes id player name) e =
    resume_player-Progressed m id player name k u e
Step-Progressed {m = m} k u r (starts id now) e =
    start_session-Progressed m id now (m.matches id) k u refl e
Step-Progressed {m = m} k u r (ends id reason now) e =
    end_session-Progressed m id now _ (m.matches id) k u refl e
Step-Progressed {m = m} k u r (ticks id now outcome) e =
    tick_session-Progressed m id now outcome (m.matches id) k u refl e
