-- ===== src/Cards/Hand.antt =====
-- What taking and playing a card do to a hand.
use prison_break.Shared.{
  ℕ, suc, ◌+◌, ◌≤◌, ◌<◌, ◌≡◌, ◌↔◌, refl, Bool, true, false, List, [], ◌∷◌, ◌++◌, arith, text_eq,
  text_eq_iff, text_lt, length, count_if, if◌then◌else◌, leb, sort_by, length-sort_by,
  count-sort_by, length-append, sort_by-IsSorted, order_on, IsSorted, Bool-cases, inl, inr, ◌==◌,
}
use prison_break.Model.{PlayerState, CardType}
use prison_break.Cards.{is_known_card, add_card, remove_card, delete_card, max_cards_held}

-- How many of a card a player holds.
abbrev pub held : PlayerState → CardType → ℕ
held player card = count_if (λ c. text_eq c card) player.cards

count-append_one :
    (t : CardType → Bool) (c : CardType) (cards : List CardType)
    → count_if t (cards ++ c ∷ []) ≡ count_if t (c ∷ cards)
count-append_one t c [] = refl
count-append_one t c (x ∷ cards) = ground (arith, count-append_one t c cards)

taken_hand :
    (card k : CardType) (cards : List CardType)
    → count_if (λ c. text_eq c k) (sort_by text_lt (cards ++ card ∷ []))
      ≡ count_if (λ c. text_eq c k) cards + (if text_eq card k then 1 else 0)
taken_hand card k cards = ground (
  arith,
  count-sort_by (λ c. text_eq c k) text_lt (cards ++ card ∷ []),
  count-append_one (λ c. text_eq c k) card cards,
)

taken_length :
    (card : CardType) (cards : List CardType)
    → length (sort_by text_lt (cards ++ card ∷ [])) ≡ suc (length cards)
taken_length card cards =
    omega (arith, length-sort_by text_lt (cards ++ card ∷ []), length-append cards (card ∷ []))

-- A card is taken exactly by a player with room for it, if it is known. Then the hand is in order, has
-- one more of just that card and at most three cards; otherwise the player is left as is.
pub add_card-taken :
    (player : PlayerState) (card : CardType)
    → let r = add_card player card in
      ((r.1 ≡ true) ↔ ((is_known_card card ≡ true) × (length player.cards < 3)))
      × (r.1 ≡ false → r.0 ≡ player)
      × (r.1 ≡ true
          → (r.0 ≡ record player { cards = r.0.cards })
            × IsSorted text_lt r.0.cards
            × (length r.0.cards ≤ 3)
            × ((k : CardType) → held r.0 k ≡ held player k + (if text_eq card k then 1 else 0)))
unfolding add_card
add_card-taken player card =
    let more = taken_length card player.cards in
    let sorted = sort_by-IsSorted (order_on (λ (c : CardType). c)) (player.cards ++ card ∷ []) in
    elim (Bool-cases (is_known_card card)) [
      | inr e ↦ rw e ((λ h. cc, λ h. cc), λ h. refl, λ h. cc)
      | inl e ↦ elim (Bool-cases (leb max_cards_held (length player.cards))) [
        | inl full ↦ rw (e, full) ((λ h. cc, λ h. ground arith), λ h. refl, λ h. cc)
        | inr room ↦
            rw (e, room)
              (
                (λ h. ground arith, λ h. refl),
                λ h. cc,
                λ h. (refl, sorted, ground arith, λ k. taken_hand card k player.cards),
              )
      ]
    ]

delete_card_lem :
    (card : CardType) (cards : List CardType)
    → let r = delete_card card cards in
      ((r.1 ≡ true) ↔ (0 < count_if (λ c. text_eq c card) cards))
      × ((k : CardType)
          → count_if (λ c. text_eq c k) cards
            ≡ count_if (λ c. text_eq c k) r.0
              + (if r.1 then (if text_eq card k then 1 else 0) else 0))
unfolding delete_card
delete_card_lem card [] = ground arith
delete_card_lem card (c ∷ cards) =
    let rest = delete_card_lem card cards in
    elim (Bool-cases (text_eq c card)) [
      | inl e ↦ rw e (ground arith, λ k. ground (arith, (text_eq_iff c card).0 e))
      | inr e ↦ rw e (rest.0, λ k. ground (arith, rest.1 k))
    ]

empty_hand :
    (t : CardType → Bool) (cards : List CardType)
    → (length cards == 0) ≡ true
    → count_if t cards ≡ 0
empty_hand t [] h = refl
empty_hand t (c ∷ cards) h = ground arith

-- A card is played exactly from a hand that has it, if it is known. Then the hand has one fewer of
-- just that card; otherwise the player is left as is.
pub remove_card-played :
    (player : PlayerState) (card : CardType)
    → let r = remove_card player card in
      ((r.1 ≡ true) ↔ ((is_known_card card ≡ true) × (0 < held player card)))
      × (r.1 ≡ false → r.0 ≡ player)
      × (r.1 ≡ true
          → (r.0 ≡ record player { cards = r.0.cards })
            × ((k : CardType) → held player k ≡ held r.0 k + (if text_eq card k then 1 else 0)))
unfolding remove_card
remove_card-played player card =
    let rest = delete_card_lem card player.cards in
    elim (Bool-cases (is_known_card card)) [
      | inr e ↦ rw e ((λ h. cc, λ h. cc), λ h. refl, λ h. cc)
      | inl e ↦ elim (Bool-cases (length player.cards == 0)) [
        | inl none_left ↦
            let zero_held = empty_hand (λ c. text_eq c card) player.cards none_left in
            rw (e, none_left) ((λ h. cc, λ h. ground arith), λ h. refl, λ h. cc)
        | inr some_left ↦ elim (Bool-cases (delete_card card player.cards).1) [
          | inl found ↦
              rw (e, some_left, found)
                (
                  (λ h. (refl, rest.0.0 found), λ h. refl),
                  λ h. cc,
                  λ h. (refl, λ k. ground (arith, rest.1 k, found)),
                )
          | inr missing ↦
              rw (e, some_left, missing)
                ((λ h. cc, λ h. ground (arith, rest.0, missing)), λ h. refl, λ h. cc)
        ]
      ]
    ]
