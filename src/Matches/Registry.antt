-- ===== src/Matches/Registry.antt =====
-- What holds of the server's matches and players, and that each operation keeps it.
use prison_break.Shared.{
  ℕ, ◌+◌, ◌≤◌, ◌<◌, ◌≡◌, ◌↔◌, ◌⊎◌, refl, sym, ap, ◌∙◌, true, false, List, [], ◌∷◌, ◌++◌, Option,
  none, some, arith, Text, text_eq, text_eq_iff, text_eq_refl, text_eq_sound, length, u64,
  Bool-cases, Option-cases, inl, inr, six_digits-injective,
}
use mathlib.Core.Option.{some-injective}
use prison_break.Model.{MatchId, PlayerId}
use prison_break.Model.Kinds.{is_running, is_game_over}
use prison_break.Session.{MatchSession, PlayerSession, is_member}
use prison_break.Matches.{Config, Manager, LifecycleEvent, match_id_at, put_player, at_key}

-- A player's match is open and has the player.
abbrev pub PlaysIn : Manager → PlayerId → MatchId → Type 0
PlaysIn m p id =
    (s : MatchSession) × (m.matches id ≡ some s)
    × (is_member p s.players ≡ true)
    × (is_game_over s.status ≡ false)

-- A session has no more players than the limit, and a running one as many as it needs.
abbrev pub SoundSession : Config → MatchSession → Type 0
SoundSession c s =
    (length s.players ≤ c.max_player_count)
    × (is_running s.status ≡ true → c.min_player_count ≤ length s.players)

pub record IsRegistry (m : Manager) : Type 0 where
  -- who is in a match according to the map of players is in it
  pub homes : (p : PlayerId) (id : MatchId) → m.player_to_match p ≡ some id → PlaysIn m p id
  -- and the players of an open match are in no other
  pub settled :
      (id : MatchId) (s : MatchSession) (p : PlayerId)
      → m.matches id ≡ some s
      → is_game_over s.status ≡ false
      → is_member p s.players ≡ true
      → m.player_to_match p ≡ some id
  pub sound : (id : MatchId) (s : MatchSession) → m.matches id ≡ some s → SoundSession m.config s
  -- the matches have the numbers given out
  pub numbered :
      (id : MatchId) (s : MatchSession)
      → m.matches id ≡ some s
      → (n : ℕ) × (n ≤ m.next_match_sequence) × (id ≡ match_id_at m.config.match_id_prefix n)

-- A player is in one open match at most.
pub IsRegistry-one_match :
    (m : Manager) (p : PlayerId) (a b : MatchId) (s t : MatchSession)
    → IsRegistry m
    → m.matches a ≡ some s
    → m.matches b ≡ some t
    → is_game_over s.status ≡ false
    → is_game_over t.status ≡ false
    → is_member p s.players ≡ true
    → is_member p t.players ≡ true
    → a ≡ b
IsRegistry-one_match m p a b s t r ha hb oa ob pa pb =
    some-injective _ _ (sym (r.settled a s p ha oa pa) ∙ r.settled b t p hb ob pb)

pub put_player_lem :
    (entry : PlayerSession) (players : List PlayerSession) (p : PlayerId)
    → (is_member p (put_player entry players) ≡ true)
      ↔ ((p ≡ entry.player_id) ⊎ (is_member p players ≡ true))
unfolding put_player
put_player_lem entry [] p = ground (arith, text_eq_iff entry.player_id p)
put_player_lem entry (q ∷ players) p = ground (
  arith,
  put_player_lem entry players p,
  text_eq_iff entry.player_id p,
  text_eq_iff q.player_id p,
  text_eq_iff q.player_id entry.player_id,
)

pub length-put_player :
    (entry : PlayerSession) (players : List PlayerSession)
    → length (put_player entry players) ≤ length players + 1
unfolding put_player
length-put_player entry [] = omega arith
length-put_player entry (q ∷ players) = ground (arith, length-put_player entry players)

append-injective : (prefix a b : Text) → prefix ++ a ≡ prefix ++ b → a ≡ b
append-injective [] a b e = e
append-injective (c ∷ prefix) a b e = append-injective prefix a b (ap tail e)
  where
    tail : Text → Text
    tail [] = []
    tail (x ∷ xs) = xs

match_id_at-injective :
    (prefix : Text) (a b : ℕ)
    → a < 18446744073709551616
    → b < 18446744073709551616
    → match_id_at prefix a ≡ match_id_at prefix b
    → a ≡ b
unfolding match_id_at
match_id_at-injective prefix a b ha hb e =
    six_digits-injective a b ha hb
      (append-injective (b'-' ∷ []) _ _ (append-injective prefix _ _ e))

-- A number that is not given out yet names no match.
pub fresh_id :
    (m : Manager)
    → IsRegistry m
    → m.next_match_sequence + 1 < 18446744073709551616
    → m.matches (match_id_at m.config.match_id_prefix (u64 (m.next_match_sequence + 1))) ≡ none
fresh_id m r fits =
    let next = u64 (m.next_match_sequence + 1) in
    let small : next ≡ m.next_match_sequence + 1 = omega arith in
    elim (Option-cases (m.matches (match_id_at m.config.match_id_prefix next))) [
      | inl e ↦ e
      | inr (s, e) ↦
          let (n, le, same) = r.numbered (match_id_at m.config.match_id_prefix next) s e in
          let eq =
            match_id_at-injective m.config.match_id_prefix next n (omega arith) (omega arith)
              same in
          absurd (omega arith)
    ]

-- What a session that is put in the place of `id`, and the new map of players, must satisfy.
pub record Placed (m : Manager) (id : MatchId) (s : MatchSession) (f : PlayerId → Option MatchId)
    (next : ℕ) : Type 0 where
  pub later : m.next_match_sequence ≤ next
  pub home :
      (p : PlayerId) (k : MatchId)
      → f p ≡ some k
      → ((text_eq k id ≡ false) × (m.player_to_match p ≡ some k))
        ⊎ ((k ≡ id) × (is_member p s.players ≡ true) × (is_game_over s.status ≡ false))
  pub own :
      (p : PlayerId) → is_game_over s.status ≡ false → is_member p s.players ≡ true → f p ≡ some id
  pub others :
      (p : PlayerId) (k : MatchId)
      → text_eq k id ≡ false
      → m.player_to_match p ≡ some k
      → f p ≡ some k
  pub fits : SoundSession m.config s
  pub number : (n : ℕ) × (n ≤ next) × (id ≡ match_id_at m.config.match_id_prefix n)

abbrev pub place :
    Manager
    → MatchId
    → MatchSession
    → (PlayerId → Option MatchId)
    → ℕ
    → List LifecycleEvent
    → Manager
place m id s f next events = record m {
  matches = at_key m.matches id (some s);
  player_to_match = f;
  next_match_sequence = next;
  events = events;
}

pub place-IsRegistry :
    (m : Manager) (id : MatchId) (s : MatchSession) (f : PlayerId → Option MatchId) (next : ℕ)
    (events : List LifecycleEvent)
    → IsRegistry m
    → Placed m id s f next
    → IsRegistry (place m id s f next events)
place-IsRegistry m id s f next events r h = record {
  homes = λ p k e. elim (h.home p k e) [
    | inl (other, old) ↦ let (t, at, mem, open_) = r.homes p k old in (t, rw other at, mem, open_)
    | inr (same, mem, open_) ↦ (s, rw (same, text_eq_refl id) refl, mem, open_)
  ];
  settled = λ k t p e o mem. elim (Bool-cases (text_eq k id)) [
    | inl same ↦
        let eq = some-injective _ _ (rw same at e) in
        let path = text_eq_sound k id same in rw path (h.own p (rw eq o) (rw eq mem))
    | inr other ↦ h.others p k other (r.settled k t p (rw other at e) o mem)
  ];
  sound = λ k t e. elim (Bool-cases (text_eq k id)) [
    | inl same ↦ let eq = some-injective _ _ (rw same at e) in rw (← eq) h.fits
    | inr other ↦ r.sound k t (rw other at e)
  ];
  numbered = λ k t e. elim (Bool-cases (text_eq k id)) [
    | inl same ↦ rw (text_eq_sound k id same) h.number
    | inr other ↦
        let (n, le, eq) = r.numbered k t (rw other at e) in (n, omega (arith, le, h.later), eq)
  ];
}
