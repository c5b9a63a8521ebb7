-- ===== src/Matches/Operations.antt =====
-- What each operation does to a registry of matches.
use prison_break.Shared.{
  ℕ, suc, ◌+◌, ◌<◌, ◌≡◌, refl, sym, ap, ◌∙◌, true, false, ◌||◌, List, [], ◌∷◌, Option, none, some,
  arith, Text, text_eq, text_eq_refl, text_eq_sound, map, length, ltb, leb, if◌then◌else◌, u64,
  Bool-cases, Option-cases, inl, inr, trim_space,
}
use mathlib.Core.Option.{some-injective}
use prison_break.Model.{MatchStatus, MatchId, PlayerId}
use prison_break.Model.Kinds.{is_running, is_lobby, is_game_over}
use prison_break.Session.{MatchSession, PlayerSession, is_member}
use prison_break.Matches.{
  Config, Manager, LifecycleEvent, commit, create_match, new_session, match_id_at, put_player,
  join_match, join_session, at_key, start_session, end_session, close_session, tick_session,
  resume_player, resume_session, rename_player, elsewhere, new_manager,
}
use prison_break.Matches.Registry.{
  IsRegistry, Placed, place-IsRegistry, put_player_lem, length-put_player, fresh_id, SoundSession,
}

pub create_match-IsRegistry :
    (m : Manager) (now : ℕ)
    → IsRegistry m
    → m.next_match_sequence + 1 < 18446744073709551616
    → IsRegistry (create_match m now).0
unfolding create_match commit new_session
create_match-IsRegistry m now r fits =
    let next = u64 (m.next_match_sequence + 1) in
    let id = match_id_at m.config.match_id_prefix next in
    place-IsRegistry m id (new_session id now) m.player_to_match next _ r (record {
      later = omega arith;
      home = λ p k e. elim (Bool-cases (text_eq k id)) [
        | inr other ↦ inl (other, e)
        | inl same ↦
            let (t, at, _, _) = r.homes p k e in
            absurd (ground (arith, fresh_id m r fits, text_eq_sound k id same, at))
      ];
      own = λ p o mem. cc;
      others = λ p k other e. e;
      fits = (omega arith, λ h. cc);
      number = (next, omega arith, refl);
    })

-- A session whose players are those of the one that it replaces, and that is open.
same_players-Placed :
    (m : Manager) (id : MatchId) (s t : MatchSession)
    → IsRegistry m
    → m.matches id ≡ some s
    → is_game_over s.status ≡ false
    → is_game_over t.status ≡ false
    → ((p : PlayerId) → is_member p t.players ≡ is_member p s.players)
    → SoundSession m.config t
    → Placed m id t m.player_to_match m.next_match_sequence
same_players-Placed m id s t r at open_s open_t same sound = record {
  later = omega arith;
  home = λ p k e. elim (Bool-cases (text_eq k id)) [
    | inr other ↦ inl (other, e)
    | inl here ↦
        let (u, at_k, mem, _) = r.homes p k e in
        let path = text_eq_sound k id here in
        let eq = some-injective _ _ (sym at ∙ rw path at at_k) in
        inr (path, rw (same p, eq) mem, open_t)
  ];
  own = λ p o mem. r.settled id s p at open_s (rw (same p) at mem);
  others = λ p k other e. e;
  fits = sound;
  number = r.numbered id s at;
}

lobby_lem :
    (st : MatchStatus) → is_lobby st ≡ true → (is_game_over st ≡ false) × (is_running st ≡ false)
lobby_lem st h = ground arith

-- A free player takes a place in a lobby that is not full.
joined-Placed :
    (m : Manager) (id : MatchId) (s : MatchSession) (player : PlayerId) (name : Text) (now : ℕ)
    → IsRegistry m
    → m.player_to_match player ≡ none
    → m.matches id ≡ some s
    → is_lobby s.status ≡ true
    → length s.players < m.config.max_player_count
    → Placed m id
        (record s {
          players =
              put_player (record { player_id = player; name = name; joined_at = now }) s.players;
        })
        (at_key m.player_to_match player (some id))
        m.next_match_sequence
joined-Placed m id s player name now r free at open_ room =
    let entry : PlayerSession = record { player_id = player; name = name; joined_at = now } in
    let (not_over, not_running) = lobby_lem s.status open_ in
    record {
      later = omega arith;
      home = λ p k e. elim (Bool-cases (text_eq p player)) [
        | inl me ↦
            let eq = some-injective _ _ (rw me at e) in
            inr (
              sym eq,
              (put_player_lem entry s.players p).1 (inl (text_eq_sound p player me)),
              not_over,
            )
        | inr you ↦
            let old : m.player_to_match p ≡ some k = rw you at e in
            let (u, at_k, mem, _) = r.homes p k old in
            elim (Bool-cases (text_eq k id)) [
              | inr other ↦ inl (other, old)
              | inl here ↦
                  let path = text_eq_sound k id here in
                  let eq = some-injective _ _ (sym at ∙ rw path at at_k) in
                  inr (path, (put_player_lem entry s.players p).1 (inr (rw eq mem)), not_over)
            ]
      ];
      own = λ p o mem. elim (Bool-cases (text_eq p player)) [
        | inl me ↦ rw me refl
        | inr you ↦ rw you (elim ((put_player_lem entry s.players p).0 mem) [
          | inl same ↦ absurd (ground (arith, same, you, text_eq_refl player))
          | inr old ↦ r.settled id s p at not_over old
        ])
      ];
      others = λ p k other e. elim (Bool-cases (text_eq p player)) [
        | inl me ↦ absurd (ground (arith, text_eq_sound p player me, e, free))
        | inr you ↦ rw you e
      ];
      fits = (omega (arith, length-put_player entry s.players), λ h. ground arith);
      number = r.numbered id s at;
    }

pub join_session-IsRegistry :
    (m : Manager) (id : MatchId) (player : PlayerId) (name : Text) (now : ℕ)
    (o : Option MatchSession)
    → IsRegistry m
    → m.player_to_match player ≡ none
    → m.matches id ≡ o
    → IsRegistry (join_session m id player name now o).0
unfolding join_session commit
join_session-IsRegistry m id player name now none r free at = r
join_session-IsRegistry m id player name now (some s) r free at =
    elim (Bool-cases (is_lobby s.status)) [
      | inr e ↦ rw e r
      | inl open_ ↦ elim (Bool-cases (leb m.config.max_player_count (length s.players))) [
        | inl full ↦ rw (open_, full) r
        | inr room ↦
            rw (open_, room)
              (place-IsRegistry m id _ _ m.next_match_sequence _ r
                (joined-Placed m id s player name now r free at open_ (ground arith)))
      ]
    ]

pub start_session-IsRegistry :
    (m : Manager) (id : MatchId) (now : ℕ) (o : Option MatchSession)
    → IsRegistry m
    → m.matches id ≡ o
    → IsRegistry (start_session m id now o).0
unfolding start_session commit
start_session-IsRegistry m id now none r at = r
start_session-IsRegistry m id now (some s) r at = elim (Bool-cases (is_running s.status)) [
  | inl e ↦ rw e r
  | inr still ↦ elim (Bool-cases (is_game_over s.status)) [
    | inl over ↦ rw (still, over) r
    | inr open_ ↦ elim (Bool-cases (ltb (length s.players) m.config.min_player_count)) [
      | inl few ↦ rw (still, open_, few) r
      | inr enough ↦
          rw (still, open_, enough)
            (place-IsRegistry m id _ m.player_to_match m.next_match_sequence _ r (
              same_players-Placed m id s _ r at open_ refl (λ p. refl)
                ((r.sound id s at).0, λ h. ground arith)))
    ]
  ]
]

close_session-IsRegistry :
    (m : Manager) (id : MatchId) (s t : MatchSession) (now : ℕ) (reason : Text)
    → IsRegistry m
    → m.matches id ≡ some s
    → is_game_over s.status ≡ false
    → t.players ≡ s.players
    → IsRegistry (close_session m id t now reason)
unfolding close_session commit
close_session-IsRegistry m id s t now reason r at open_s same =
    let freed = λ (p : PlayerId). if is_member p t.players then none else m.player_to_match p in
    place-IsRegistry m id _ freed m.next_match_sequence _ r (record {
      later = omega arith;
      home = λ p k e. elim (Bool-cases (is_member p t.players)) [
        | inl mem ↦ absurd (ground (arith, rw mem at e))
        | inr out ↦
            let old : m.player_to_match p ≡ some k = rw out at e in
            let (u, at_k, mem, _) = r.homes p k old in
            elim (Bool-cases (text_eq k id)) [
              | inr other ↦ inl (other, old)
              | inl here ↦
                  let path = text_eq_sound k id here in
                  let eq = some-injective _ _ (sym at ∙ rw path at at_k) in
                  absurd (ground (arith, rw (same, eq) at out, mem))
            ]
      ];
      own = λ p o mem. cc;
      others = λ p k other e. elim (Bool-cases (is_member p t.players)) [
        | inr out ↦ rw out e
        | inl mem ↦
            let here = r.settled id s p at open_s (rw same at mem) in
            absurd (ground (arith, some-injective _ _ (sym e ∙ here), other, text_eq_refl id))
      ];
      fits = (rw same (r.sound id s at).0, λ h. cc);
      number = r.numbered id s at;
    })

pub end_session-IsRegistry :
    (m : Manager) (id : MatchId) (now : ℕ) (reason : Text) (o : Option MatchSession)
    → IsRegistry m
    → m.matches id ≡ o
    → IsRegistry (end_session m id now reason o).0
unfolding end_session
end_session-IsRegistry m id now reason none r at = r
end_session-IsRegistry m id now reason (some s) r at = elim (Bool-cases (is_game_over s.status)) [
  | inl over ↦ rw over r
  | inr open_ ↦ rw open_ (close_session-IsRegistry m id s s now reason r at open_ refl)
]

running_lem : (st : MatchStatus) → is_running st ≡ true → is_game_over st ≡ false
running_lem st h = ground arith

-- Events do not matter.
with_events-IsRegistry :
    (m : Manager) (events : List LifecycleEvent)
    → IsRegistry m
    → IsRegistry (record m { events = events })
with_events-IsRegistry m events r = record {
  homes = r.homes;
  settled = r.settled;
  sound = r.sound;
  numbered = r.numbered;
}

pub tick_session-IsRegistry :
    (m : Manager) (id : MatchId) (now : ℕ) (outcome : Option Text) (o : Option MatchSession)
    → IsRegistry m
    → m.matches id ≡ o
    → IsRegistry (tick_session m id now outcome o)
unfolding tick_session
tick_session-IsRegistry m id now outcome none r at = r
tick_session-IsRegistry m id now none (some s) r at = elim (Bool-cases (is_running s.status)) [
  | inr e ↦ rw e r
  | inl run ↦ rw run (
      with_events-IsRegistry _ _ (
        place-IsRegistry m id _ m.player_to_match m.next_match_sequence m.events r (
          same_players-Placed m id s _ r at (running_lem s.status run) (running_lem s.status run)
            (λ p. refl) (r.sound id s at))))
]
tick_session-IsRegistry m id now (some reason) (some s) r at =
    elim (Bool-cases (is_running s.status)) [
      | inr e ↦ rw e r
      | inl run ↦ rw run (
          with_events-IsRegistry _ _
            (close_session-IsRegistry m id s _ now reason r at (running_lem s.status run) refl))
    ]

pub new_manager-IsRegistry : (c : Config) → IsRegistry (new_manager c)
unfolding new_manager
new_manager-IsRegistry c = record {
  homes = λ p id e. cc;
  settled = λ id s p e o mem. cc;
  sound = λ id s e. cc;
  numbered = λ id s e. cc;
}

pub join_match-IsRegistry :
    (m : Manager) (id : MatchId) (player : PlayerId) (name : Text) (now : ℕ)
    → IsRegistry m
    → IsRegistry (join_match m id player name now).0
unfolding join_match
join_match-IsRegistry m id player name now r = elim (Bool-cases (text_eq (trim_space player) [])) [
  | inl e ↦ rw e r
  | inr named ↦ elim (Bool-cases (text_eq (trim_space name) [])) [
    | inl e ↦ rw (named, e) r
    | inr called ↦ elim (Option-cases (m.player_to_match player)) [
      | inl free ↦
          rw (named, called, free)
            (join_session-IsRegistry m id player (trim_space name) now (m.matches id) r free refl)
      | inr (k, taken) ↦ rw (named, called, taken) r
    ]
  ]
]

renamed_lem :
    (player p : PlayerId) (name : Text) (players : List PlayerSession)
    → let out =
        map (λ q. if text_eq q.player_id player then record q { name = name } else q) players in
      (is_member p out ≡ is_member p players) × (length out ≡ length players)
renamed_lem player p name [] = (refl, refl)
renamed_lem player p name (q ∷ players) =
    let rest = renamed_lem player p name players in
    elim (Bool-cases (text_eq q.player_id player)) [
      | inl e ↦ rw e (ap (λ b. text_eq q.player_id p || b) rest.0, ap suc rest.1)
      | inr e ↦ rw e (ap (λ b. text_eq q.player_id p || b) rest.0, ap suc rest.1)
    ]

rename_player_lem :
    (player p : PlayerId) (name : Text) (players : List PlayerSession)
    → (is_member p (rename_player player name players) ≡ is_member p players)
      × (length (rename_player player name players) ≡ length players)
unfolding rename_player
rename_player_lem player p name players = elim (Bool-cases (text_eq name [])) [
  | inl e ↦ rw e (refl, refl)
  | inr e ↦ rw e (renamed_lem player p name players)
]

-- A write of what is there already.
at_key-same : {A : Type 0} (f : Text → A) (key : Text) (v : A) → f key ≡ v → at_key f key v ≡ f
at_key-same f key v e = λ i k. written k i
  where
    written : (k : Text) → at_key f key v k ≡ f k
    written k = elim (Bool-cases (text_eq k key)) [
      | inl same ↦ rw same (sym e ∙ ap f (sym (text_eq_sound k key same)))
      | inr other ↦ rw other refl
    ]

resume_session-IsRegistry :
    (m : Manager) (id : MatchId) (player : PlayerId) (name : Text) (o : Option MatchSession)
    → IsRegistry m
    → m.matches id ≡ o
    → IsRegistry (resume_session m id player name o).0
unfolding resume_session
resume_session-IsRegistry m id player name none r at = r
resume_session-IsRegistry m id player name (some s) r at =
    elim (Bool-cases (is_game_over s.status)) [
      | inl over ↦ rw over r
      | inr open_ ↦ elim (Bool-cases (elsewhere (m.player_to_match player) id)) [
        | inl away ↦ rw (open_, away) r
        | inr home ↦ elim (Bool-cases (is_member player s.players)) [
          | inr out ↦ rw (open_, home, out) r
          | inl mem ↦
              let here = r.settled id s player at open_ mem in
              rw (open_, home, mem, at_key-same m.player_to_match player (some id) here)
                (place-IsRegistry m id _ m.player_to_match m.next_match_sequence m.events r (
                  same_players-Placed m id s _ r at open_ open_
                    (λ p. (rename_player_lem player p name s.players).0)
                    (rw (rename_player_lem player player name s.players).1 (r.sound id s at))))
        ]
      ]
    ]

pub resume_player-IsRegistry :
    (m : Manager) (id : MatchId) (player : PlayerId) (name : Text)
    → IsRegistry m
    → IsRegistry (resume_player m id player name).0
unfolding resume_player
resume_player-IsRegistry m id player name r = elim (Bool-cases (text_eq (trim_space player) [])) [
  | inl e ↦ rw e r
  | inr named ↦
      rw named
        (resume_session-IsRegistry m id (trim_space player) (trim_space name) (m.matches id) r refl)
]
