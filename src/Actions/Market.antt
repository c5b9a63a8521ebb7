-- ===== src/Actions/Market.antt =====
-- manager.go: `applyBlackMarketPurchaseLocked` and the cards that pay for it.
pub mod Payment
pub mod Trade
use prison_break.Shared.{
  ℕ, zero, suc, ◌+◌, ◌-◌, Bool, true, false, not, ◌&&◌, ◌||◌, List, [], ◌∷◌, ◌++◌, Option, none,
  some, Text, codes, text_eq, any, length, count_if, ltb, ◌==◌, if◌then◌else◌, decimal,
}
use prison_break.Model.{PlayerState, EntityState, CardType, ItemType, RoomId}
use prison_break.Model.Kinds.{is_night}
use prison_break.GameMap.{is_authority_player, is_prisoner_player}
use prison_break.Items.Catalog.{
  BlackMarketOffer, black_market_offer_for_item, item_golden_bullet, item_pistol,
  item_hunting_rifle, item_baton, item_shiv,
}
use prison_break.Items.Inventory.{add_item, remove_item, has_item}
use prison_break.Items.Dropped.{parse_dropped_item}
use prison_break.Cards.{card_money, add_card, remove_card}
use prison_break.Combat.{can_use_weapon}
use prison_break.Actions.{PlaySession}

abbrev pub feedback_info : Text
feedback_info = codes "info"

abbrev pub feedback_success : Text
feedback_success = codes "success"

abbrev pub feedback_warning : Text
feedback_warning = codes "warning"

abbrev pub feedback_error : Text
feedback_error = codes "error"

unfoldable pub count_player_cards : PlayerState → CardType → ℕ
count_player_cards player target =
    if text_eq target [] || length player.cards == 0
    then 0
    else count_if (λ c. text_eq c target) player.cards

-- The loop that gives back what was removed.
unfoldable pub give_back : ℕ → PlayerState → CardType → PlayerState
give_back zero player card = player
give_back (suc removed) player card = give_back removed (add_card player card).0 card

-- The loop of `consumePlayerCards`, with the cards still to be removed and those removed.
unfoldable pub take_cards : ℕ → ℕ → PlayerState → CardType → PlayerState × Bool
take_cards zero removed player card = (player, true)
take_cards (suc left) removed player card =
    let r = remove_card player card in
    let rest = take_cards left (suc removed) r.0 card in
    if not r.1 then (give_back removed player card, false) else rest

unfoldable pub consume_player_cards : PlayerState → CardType → ℕ → PlayerState × Bool
consume_player_cards player target quantity =
    if text_eq target [] then (player, false) else take_cards quantity 0 player target

abbrev pub preferred_weapons : List ItemType
preferred_weapons = item_pistol ∷ item_hunting_rifle ∷ item_baton ∷ item_shiv ∷ []

abbrev pub first_usable : PlayerState → List ItemType → ItemType
first_usable player [] = []
first_usable player (w ∷ weapons) =
    let rest = first_usable player weapons in if can_use_weapon player w then w else rest

unfoldable pub preferred_equipped_weapon : PlayerState → ItemType
preferred_equipped_weapon player = first_usable player preferred_weapons

unfoldable pub ensure_equipped_item : PlayerState → PlayerState × Bool
ensure_equipped_item player =
    let next = preferred_equipped_weapon player in
    if not (text_eq player.equipped_item []) && can_use_weapon player player.equipped_item
    then (player, false)
    else if text_eq player.equipped_item next
    then (player, false)
    else (record player { equipped_item = next }, true)

-- Is an entity a golden bullet on the floor?
abbrev pub is_golden : Option (ItemType × ℕ) → Bool
is_golden none = false
is_golden (some (item, quantity)) = if quantity == 0 then false else text_eq item item_golden_bullet

unfoldable pub match_contains_golden_bullet : PlaySession → Bool
match_contains_golden_bullet session =
    any (λ p. has_item p item_golden_bullet 1) session.game_state.players
    || any (λ e. is_golden (parse_dropped_item e)) session.game_state.entities

-- The session and the player after a purchase, whether it went through, and the message to the player.
pub record Purchase : Type 0 where
  pub session : PlaySession
  pub player : PlayerState
  pub bought : Bool
  pub message : Text
  pub level : Text

abbrev pub refuse : PlaySession → PlayerState → Text → Text → Purchase
refuse session player message level = record {
  session = session;
  player = player;
  bought = false;
  message = message;
  level = level;
}

-- The end of a purchase, once it is paid.
unfoldable pub bought_offer : PlaySession → PlayerState → BlackMarketOffer → Purchase
bought_offer session paid offer =
    let sold = text_eq offer.item item_golden_bullet in
    record {
      session = if sold then record session { black_market_golden_bullet_sold = true } else session;
      player = (ensure_equipped_item paid).0;
      bought = true;
      message =
          codes "Purchased "
          ++ (offer.item
              ++ (codes " x"
                  ++ (decimal 3 offer.quantity
                      ++ (codes " for "
                          ++ (decimal 3 offer.money_card_cost ++ codes " money card(s).")))));
      level = feedback_success;
    }

-- The payment of a purchase, with the player who has the goods.
unfoldable pub pay_offer : PlaySession → PlayerState → BlackMarketOffer → Purchase
unfolding bought_offer
pay_offer session stocked offer =
    let paid = consume_player_cards stocked card_money offer.money_card_cost in
    if not paid.1
    then refuse session (remove_item paid.0 offer.item offer.quantity).0
        (codes "Payment failed; purchase cancelled.") feedback_error
    else bought_offer session paid.0 offer

-- `applyBlackMarketPurchaseLocked` from the check of the offer on.
unfoldable pub purchase_offer : PlaySession → PlayerState → Option BlackMarketOffer → Purchase
unfolding pay_offer
purchase_offer session player none =
    refuse session player (codes "Offer unavailable.") feedback_error
purchase_offer session player (some offer) =
    let market = session.game_state.map.black_market_room_id in
    let stocked = add_item player offer.item offer.quantity in
    if offer.quantity == 0 || offer.money_card_cost == 0
    then refuse session player (codes "Offer unavailable.") feedback_error
    else if not player.alive || not (is_prisoner_player player)
    then refuse session player (codes "Only living prisoners can buy.") feedback_warning
    else if not (is_night session.game_state.phase.current)
    then refuse session player (codes "Market opens at night.") feedback_warning
    else if text_eq market []
        || (text_eq player.current_room_id [] || not (text_eq player.current_room_id market))
    then (if text_eq market []
        then refuse session player (codes "Market room is not set.") feedback_warning
        else refuse session player (codes "Go to " ++ (market ++ codes " to buy."))
            feedback_warning)
    else if text_eq offer.item item_golden_bullet
        && (session.black_market_golden_bullet_sold || match_contains_golden_bullet session)
    then refuse session player (codes "Golden bullet already sold this match.") feedback_warning
    else if ltb (count_player_cards player card_money) offer.money_card_cost
    then refuse session player
        (codes "Need " ++ (decimal 3 offer.money_card_cost ++ codes " money cards."))
        feedback_warning
    else if not stocked.1
    then refuse session stocked.0 (codes "Inventory full; purchase cancelled.") feedback_warning
    else pay_offer session stocked.0 offer

unfoldable pub apply_black_market_purchase : PlaySession → PlayerState → ItemType → Purchase
apply_black_market_purchase session player item =
    purchase_offer session player (black_market_offer_for_item item)
