-- ===== src/Items/Catalog/Offers.antt =====
-- What the offers of `blackMarketOffers` have in common.
use prison_break.Shared.{◌≡◌, ◌<◌, true, List, [], ◌∷◌, some, arith, All, text_eq_sound, text_eq}
use prison_break.Model.{ItemType}
use prison_break.Items.Catalog.{
  BlackMarketOffer, black_market_offers, find_offer, black_market_offer_for_item, is_known_item,
}

-- One piece of a known item, for a price.
abbrev pub SoundOffer : BlackMarketOffer → Type 0
SoundOffer o = (o.quantity ≡ 1) × (0 < o.money_card_cost) × (is_known_item o.item ≡ true)

find_offer-All :
    (P : BlackMarketOffer → Type 0) (os : List BlackMarketOffer) (item : ItemType)
    (o : BlackMarketOffer)
    → All P os
    → find_offer item os ≡ some o
    → P o × (o.item ≡ item)
unfolding find_offer
find_offer-All P [] item o h e = cc
find_offer-All P (x ∷ os) item o h e =
    ground (arith, find_offer-All P os item o h.1, text_eq_sound x.item item)

offers_sound : All SoundOffer black_market_offers
unfolding is_known_item text_eq
offers_sound = ground arith

pub black_market_offer_for_item_lem :
    (item : ItemType) (o : BlackMarketOffer)
    → black_market_offer_for_item item ≡ some o
    → SoundOffer o × (o.item ≡ item)
unfolding black_market_offer_for_item
black_market_offer_for_item_lem item o e =
    find_offer-All SoundOffer black_market_offers item o offers_sound e
