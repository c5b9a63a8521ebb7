-- ===== src/Actions/Market/Payment.antt =====
-- What a payment in cards does to a hand.
use prison_break.Shared.{
  ℕ, zero, suc, ◌+◌, ◌≤◌, ◌≡◌, ◌↔◌, refl, ap, ◌∙◌, true, false, not, ◌&&◌, List, [], ◌∷◌, ◌++◌,
  arith, text_eq, text_eq_refl, length, length-append, length-sort_by, text_lt, if◌then◌else◌, leb,
  ◌==◌, Bool-cases, inl, inr, ◌||◌,
}
use prison_break.Model.{PlayerState, CardType}
use prison_break.Cards.{is_known_card, add_card, remove_card, delete_card}
use prison_break.Cards.Hand.{held, add_card-taken, remove_card-played}
use prison_break.Actions.Market.{consume_player_cards, take_cards, give_back}

length-delete_card :
    (card : CardType) (cards : List CardType)
    → (delete_card card cards).1 ≡ true
    → length (delete_card card cards).0 + 1 ≡ length cards
unfolding delete_card
length-delete_card card [] h = cc
length-delete_card card (c ∷ cards) h = elim (Bool-cases (text_eq c card)) [
  | inl e ↦ rw e (omega arith)
  | inr e ↦ rw e (omega (arith, length-delete_card card cards (rw e at h)))
]

length-remove_card :
    (player : PlayerState) (card : CardType)
    → (remove_card player card).1 ≡ true
    → length (remove_card player card).0.cards + 1 ≡ length player.cards
unfolding remove_card
length-remove_card player card h =
    let tested = not (is_known_card card) || length player.cards == 0 in
    elim (Bool-cases tested) [
      | inl e ↦ absurd (ground (arith, rw e at h))
      | inr e ↦ elim (Bool-cases (delete_card card player.cards).1) [
        | inl found ↦ rw (e, found) (length-delete_card card player.cards found)
        | inr gone ↦ absurd (ground (arith, rw (e, gone) at h))
      ]
    ]

length-add_card :
    (player : PlayerState) (card : CardType)
    → (add_card player card).1 ≡ true
    → length (add_card player card).0.cards ≡ length player.cards + 1
unfolding add_card
length-add_card player card h = elim (Bool-cases (is_known_card card)) [
  | inr e ↦ absurd (ground (arith, rw e at h))
  | inl e ↦ elim (Bool-cases (leb 3 (length player.cards))) [
    | inl full ↦ absurd (ground (arith, rw (e, full) at h))
    | inr room ↦
        rw (e, room)
          (omega (
            arith,
            length-sort_by text_lt (player.cards ++ card ∷ []),
            length-append player.cards (card ∷ []),
          ))
  ]
]

-- A player who differs from another only in the hand.
abbrev pub SameButHand : PlayerState → PlayerState → Type 0
SameButHand p q = p ≡ record q { cards = p.cards }

SameButHand-trans : (p q r : PlayerState) → SameButHand p q → SameButHand q r → SameButHand p r
SameButHand-trans p q r first second =
    first ∙ ap (λ (x : PlayerState). record x { cards = p.cards }) second

-- A hand takes back as many of a card as it has room for.
give_back_lem :
    (n : ℕ) (player : PlayerState) (card : CardType)
    → is_known_card card ≡ true
    → length player.cards + n ≤ 3
    → let r = give_back n player card in
      SameButHand r player
      × ((k : CardType) → held r k ≡ held player k + (if text_eq card k then n else 0))
unfolding give_back
give_back_lem zero player card known room = (refl, λ k. ground arith)
give_back_lem (suc n) player card known room =
    let next = (add_card player card).0 in
    let t = add_card-taken player card in
    let taken = t.0.1 (known, omega arith) in
    let (same, _, _, counts) = t.2 taken in
    let rest =
      give_back_lem n next card known (omega (arith, room, length-add_card player card taken)) in
    (
      SameButHand-trans (give_back n next card) next player rest.0 same,
      λ k. ground (arith, rest.1 k, counts k),
    )

-- The loop of a payment, with cards removed already that the hand has room for.
take_cards_lem :
    (n removed : ℕ) (player : PlayerState) (card : CardType)
    → is_known_card card ≡ true
    → length player.cards + removed ≤ 3
    → let r = take_cards n removed player card in
      SameButHand r.0 player
      × ((r.1 ≡ true) ↔ (n ≤ held player card))
      × (r.1 ≡ true
          → (k : CardType) → held r.0 k + (if text_eq card k then n else 0) ≡ held player k)
      × (r.1 ≡ false
          → (k : CardType) → held r.0 k ≡ held player k + (if text_eq card k then removed else 0))
unfolding take_cards
take_cards_lem zero removed player card known room =
    (refl, (λ h. omega arith, λ h. refl), λ h k. ground arith, λ h. cc)
take_cards_lem (suc n) removed player card known room =
    let played = remove_card-played player card in
    let next = (remove_card player card).0 in
    elim (Bool-cases (remove_card player card).1) [
      | inr e ↦
          let back = give_back_lem removed player card known room in
          rw e (back.0, (λ h. cc, λ h. ground (arith, played.0.1, known)), λ h. cc, λ h. back.1)
      | inl e ↦
          let (same, counts) = played.2 e in
          let rest =
            take_cards_lem n (suc removed) next card known
              (omega (arith, room, length-remove_card player card e)) in
          let self = counts card in
          rw e (
            SameButHand-trans (take_cards n (suc removed) next card).0 next player rest.0 same,
            (
              λ h. ground (arith, rest.1.0 h, self, text_eq_refl card),
              λ h. rest.1.1 (ground (arith, self, text_eq_refl card)),
            ),
            λ h k. ground (arith, rest.2 h k, counts k),
            λ h k. ground (arith, rest.3 h k, counts k),
          )
    ]

known_named : (c : CardType) → is_known_card c ≡ true → text_eq c [] ≡ false
unfolding is_known_card text_eq
known_named [] h = cc
known_named (a ∷ c) h = refl

-- With three cards at most in hand, a payment in known cards goes through exactly if the player holds the
-- quantity. Then just that many of the card leave the hand; otherwise the cards that were laid down come
-- back, so that of each card there are as many as before. Nothing but the hand changes.
pub consume_player_cards-paid :
    (player : PlayerState) (card : CardType) (quantity : ℕ)
    → is_known_card card ≡ true
    → length player.cards ≤ 3
    → let r = consume_player_cards player card quantity in
      SameButHand r.0 player
      × ((r.1 ≡ true) ↔ (quantity ≤ held player card))
      × ((k : CardType)
          → held r.0 k + (if r.1 && text_eq card k then quantity else 0) ≡ held player k)
unfolding consume_player_cards
consume_player_cards-paid player card quantity known room =
    let r = take_cards_lem quantity 0 player card known (omega arith) in
    let named : text_eq card [] ≡ false = known_named card known in
    rw named (
      r.0,
      r.1,
      λ k. elim (Bool-cases (take_cards quantity 0 player card).1) [
        | inl e ↦ rw e (r.2 e k)
        | inr e ↦ rw e (ground (arith, r.3 e k))
      ],
    )
