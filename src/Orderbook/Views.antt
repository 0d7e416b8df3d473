-- ===== src/Orderbook/Views.antt =====
-- `get_l1` and `get_l2` of src/orderbook.rs, and `get_orderbook_size` of src/market.rs.
use market_sim_backend.Prelude.{ℕ, ◌+◌, Option, none, some, List, [], ◌∷◌, map, length, add32}
use market_sim_backend.Orderbook.Types.{
  OrderbookEntry, Levels, Orderbook, PriceLevelAggregate, OrderbookL1, OrderbookL2,
}

-- `.map(|o| o.remaining_volume).sum()`, a u32
unfoldable pub sum_volume : ℕ → List OrderbookEntry → ℕ
sum_volume acc [] = acc
sum_volume acc (e ∷ es) = sum_volume (add32 acc e.remaining_volume) es

module _ {P : Type 0} where
  unfoldable pub aggregate : P × List OrderbookEntry → PriceLevelAggregate P
  unfolding sum_volume
  aggregate (price, orders) = record { price = price; volume = sum_volume 0 orders }

  -- `first_key_value` and `last_key_value`
  abbrev pub first_level : Levels P → Option (P × List OrderbookEntry)
  first_level [] = none
  first_level (l ∷ t) = some l

  abbrev pub last_level : Levels P → Option (P × List OrderbookEntry)
  last_level [] = none
  last_level (l ∷ []) = some l
  last_level (l ∷ m ∷ t) = last_level (m ∷ t)

  abbrev pub aggregate? : Option (P × List OrderbookEntry) → Option (PriceLevelAggregate P)
  unfolding aggregate
  aggregate? none = none
  aggregate? (some l) = some (aggregate l)

  unfoldable pub get_l1 : Orderbook P → OrderbookL1 P
  unfolding aggregate
  get_l1 ob = record {
    best_bid = aggregate? (last_level ob.bids);
    best_ask = aggregate? (first_level ob.asks);
  }

  unfoldable pub get_l2 : Orderbook P → OrderbookL2 P
  unfolding aggregate
  get_l2 ob = record { asks = map aggregate ob.asks; bids = map aggregate ob.bids }

  unfoldable pub count_orders : Levels P → ℕ
  count_orders [] = 0
  count_orders ((price, orders) ∷ t) = length orders + count_orders t

  unfoldable pub get_orderbook_size : Orderbook P → ℕ
  unfolding count_orders
  get_orderbook_size ob = count_orders ob.bids + count_orders ob.asks
