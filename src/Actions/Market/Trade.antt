-- ===== src/Actions/Market/Trade.antt =====
-- What a purchase on the black market does.
use prison_break.Shared.{
  ◌+◌, ◌≤◌, ◌≡◌, ◌⊎◌, refl, ap, ◌∙◌, true, false, not, ◌&&◌, ◌||◌, List, [], ◌∷◌, Option, none,
  some, arith, text_eq, text_eq_sound, length, count_if, if◌then◌else◌, ltb, ◌==◌, Bool-cases, inl,
  inr,
}
use prison_break.Model.{PlayerState, CardType, ItemType}
use prison_break.Model.Kinds.{is_night}
use prison_break.GameMap.{is_prisoner_player}
use prison_break.Items.Catalog.{BlackMarketOffer, black_market_offer_for_item, item_golden_bullet}
use prison_break.Items.Inventory.{add_item}
use prison_break.Items.Catalog.Offers.{SoundOffer, black_market_offer_for_item_lem}
use prison_break.Items.Inventory.Totals.{total}
use prison_break.Items.Inventory.Found.{share}
use prison_break.Items.Inventory.Operations.{holds, add_item-Added}
use prison_break.Cards.{card_money, is_known_card}
use prison_break.Cards.Hand.{held}
use prison_break.Actions.{PlaySession}
use prison_break.Actions.Market.{
  Purchase, apply_black_market_purchase, purchase_offer, pay_offer, bought_offer,
  consume_player_cards, count_player_cards, ensure_equipped_item, match_contains_golden_bullet,
}
use prison_break.Actions.Market.Payment.{consume_player_cards-paid}

-- What a purchase that goes through has done: it was by night in the market room, by a living prisoner,
-- who has the item more and the price less, and a golden bullet was the first of the match and is the last.
pub record Bought (session : PlaySession) (player : PlayerState) (offer : BlackMarketOffer)
    (r : Purchase) : Type 0 where
  pub living : player.alive ≡ true
  pub prisoner : is_prisoner_player player ≡ true
  pub by_night : is_night session.game_state.phase.current ≡ true
  pub in_market : player.current_room_id ≡ session.game_state.map.black_market_room_id
  pub goods :
      (k : ItemType)
      → total k r.player.inventory ≡ holds player k + share offer.item offer.quantity k
  pub price :
      (c : CardType)
      → held r.player c + (if text_eq card_money c then offer.money_card_cost else 0)
        ≡ held player c
  pub golden :
      text_eq offer.item item_golden_bullet ≡ true
      → (session.black_market_golden_bullet_sold ≡ false)
        × (match_contains_golden_bullet session ≡ false)
        × (r.session.black_market_golden_bullet_sold ≡ true)

pub ensure_lem :
    (p : PlayerState)
    → ((ensure_equipped_item p).0.inventory ≡ p.inventory)
      × ((ensure_equipped_item p).0.cards ≡ p.cards)
      × ((ensure_equipped_item p).0.id ≡ p.id)
unfolding ensure_equipped_item
ensure_lem p = ground arith

pub money_known : is_known_card card_money ≡ true
unfolding is_known_card text_eq
money_known = refl

count_lem : (p : PlayerState) → count_player_cards p card_money ≡ held p card_money
unfolding count_player_cards text_eq
count_lem p = ground (arith, empty_hand p.cards)
  where
    empty_hand :
        (cards : List CardType)
        → (length cards == 0) ≡ true
        → 0 ≡ count_if (λ c. text_eq c card_money) cards
    empty_hand [] h = refl
    empty_hand (c ∷ cards) h = absurd (ground arith)

-- What a purchase comes to: nothing at all, or the exchange.
abbrev pub Settled : PlaySession → PlayerState → BlackMarketOffer → Purchase → Type 0
Settled session player offer r =
    ((r.bought ≡ false) × (r.player ≡ player) × (r.session ≡ session))
    ⊎ ((r.bought ≡ true) × Bought session player offer r)

-- A purchase that has passed the tests.
paid_lem :
    (session : PlaySession) (player : PlayerState) (offer : BlackMarketOffer)
    → SoundOffer offer
    → length player.cards ≤ 3
    → (add_item player offer.item offer.quantity).1 ≡ true
    → offer.money_card_cost ≤ held player card_money
    → player.alive ≡ true
    → is_prisoner_player player ≡ true
    → is_night session.game_state.phase.current ≡ true
    → player.current_room_id ≡ session.game_state.map.black_market_room_id
    → (text_eq offer.item item_golden_bullet
        && (session.black_market_golden_bullet_sold || match_contains_golden_bullet session))
      ≡ false
    → let r = pay_offer session (add_item player offer.item offer.quantity).0 offer in
      (r.bought ≡ true) × Bought session player offer r
unfolding pay_offer bought_offer
paid_lem session player offer sound few fits rich living prisoner by_night there golden =
    let added = add_item-Added player offer.item offer.quantity (omega (arith, sound.0)) in
    elim added [
      | inr (refused, _) ↦ absurd (ground (arith, fits))
      | inl (_, goods, same) ↦
          let stocked = (add_item player offer.item offer.quantity).0 in
          let cards_same = ap (λ (x : PlayerState). x.cards) same in
          let (hand, covered, counts) =
            consume_player_cards-paid stocked card_money offer.money_card_cost money_known
              (rw cards_same few) in
          let went = covered.1 (rw cards_same rich) in
          let buyer = (consume_player_cards stocked card_money offer.money_card_cost).0 in
          let kept : buyer.inventory ≡ stocked.inventory =
            ap (λ (x : PlayerState). x.inventory) hand in
          let (same_goods, same_cards, _) = ensure_lem buyer in
          rw went (
            refl,
            record {
              living = living;
              prisoner = prisoner;
              by_night = by_night;
              in_market = there;
              goods = λ k. rw (same_goods, kept) (goods.totals k);
              price = λ c.
                  rw same_cards (rw went at counts c) ∙ ap (count_if (λ x. text_eq x c)) cards_same;
              golden = λ e. ground (arith, golden, e);
            },
          )
    ]

refused_stock :
    (player : PlayerState) (offer : BlackMarketOffer)
    → SoundOffer offer
    → (add_item player offer.item offer.quantity).1 ≡ false
    → (add_item player offer.item offer.quantity).0 ≡ player
refused_stock player offer sound e =
    elim (add_item-Added player offer.item offer.quantity (omega (arith, sound.0))) [
      | inl (fits, _, _) ↦ absurd (ground (arith, fits, e))
      | inr (_, same) ↦ same
    ]

-- A purchase of an offer of the table.
purchase_offer-Settled :
    (session : PlaySession) (player : PlayerState) (offer : BlackMarketOffer)
    → SoundOffer offer
    → length player.cards ≤ 3
    → Settled session player offer (purchase_offer session player (some offer))
unfolding purchase_offer
purchase_offer-Settled session player offer sound few =
    let market = session.game_state.map.black_market_room_id in
    let there =
      text_eq market []
      || (text_eq player.current_room_id [] || not (text_eq player.current_room_id market)) in
    let sold =
      text_eq offer.item item_golden_bullet
      && (session.black_market_golden_bullet_sold || match_contains_golden_bullet session) in
    let real : (offer.quantity == 0 || offer.money_card_cost == 0) ≡ false =
      ground (arith, sound) in
    rw real (elim (Bool-cases (not player.alive || not (is_prisoner_player player))) [
      | inl e ↦ rw e (inl (refl, refl, refl))
      | inr who ↦ elim (Bool-cases (is_night session.game_state.phase.current)) [
        | inr e ↦ rw (who, e) (inl (refl, refl, refl))
        | inl by_night ↦ elim (Bool-cases there) [
          | inl e ↦ elim (Bool-cases (text_eq market [])) [
            | inl unset ↦ rw (who, by_night, e, unset) (inl (refl, refl, refl))
            | inr elsewhere ↦ rw (who, by_night, e, elsewhere) (inl (refl, refl, refl))
          ]
          | inr here ↦ elim (Bool-cases sold) [
            | inl e ↦ rw (who, by_night, here, e) (inl (refl, refl, refl))
            | inr golden ↦
                elim (Bool-cases
                  (ltb (count_player_cards player card_money) offer.money_card_cost)) [
                    | inl e ↦ rw (who, by_night, here, golden, e) (inl (refl, refl, refl))
                    | inr rich ↦ elim (Bool-cases (add_item player offer.item offer.quantity).1) [
                      | inr e ↦
                          rw (who, by_night, here, golden, rich, e)
                            (inl (refl, refused_stock player offer sound e, refl))
                      | inl fits ↦
                          rw (who, by_night, here, golden, rich, fits)
                            (inr (
                              paid_lem session player offer sound few fits
                                (ground (arith, rich, count_lem player)) (ground (arith, who))
                                (ground (arith, who)) by_night
                                (text_eq_sound player.current_room_id market (ground (arith, here)))
                                golden))
                    ]
                  ]
          ]
        ]
      ]
    ])

-- With three cards at most in hand, a purchase either does nothing at all, or there is an offer for the
-- item and the exchange is made: a living prisoner who is in the market room by night has just the piece
-- more and just the price in money cards less, and a golden bullet was neither sold before nor in the match
-- and is marked as sold.
pub apply_black_market_purchase-Settled :
    (session : PlaySession) (player : PlayerState) (item : ItemType)
    → length player.cards ≤ 3
    → let r = apply_black_market_purchase session player item in
      ((r.bought ≡ false) × (r.player ≡ player) × (r.session ≡ session))
      ⊎ ((offer : BlackMarketOffer) × (black_market_offer_for_item item ≡ some offer)
          × (r.bought ≡ true)
          × Bought session player offer r)
unfolding apply_black_market_purchase purchase_offer
apply_black_market_purchase-Settled session player item few =
    settle (black_market_offer_for_item item) refl
  where
    settle :
        (o : Option BlackMarketOffer)
        → black_market_offer_for_item item ≡ o
        → let r = purchase_offer session player o in
          ((r.bought ≡ false) × (r.player ≡ player) × (r.session ≡ session))
          ⊎ ((offer : BlackMarketOffer) × (o ≡ some offer)
              × (r.bought ≡ true)
              × Bought session player offer r)
    settle none e = inl (refl, refl, refl)
    settle (some offer) e =
        elim (purchase_offer-Settled session player offer
          (black_market_offer_for_item_lem item offer e).0 few) [
            | inl refused ↦ inl refused
            | inr (bought, done) ↦ inr (offer, refl, bought, done)
          ]
