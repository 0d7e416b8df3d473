-- ===== src/Tests/Data.antt =====
-- The inputs that the tests share: a book with asks at 5 and 7 and a bid at 3, and orders against it.
use market_sim_backend.Prelude.{ℕ, [], ◌∷◌}
use market_sim_backend.Fixed.Word64.{Word64, word}
use market_sim_backend.Asset.{AssetIdPair}
use market_sim_backend.Order.{OrderType, Side, OrderInsertion, PlacedOrder, OrderExecutionStatus}
use market_sim_backend.Orderbook.Types.{OrderbookEntry, Orderbook, ObTransaction}

abbrev pub pair01 : AssetIdPair
pair01 = record { primary = 0; secondary = 1 }

abbrev pub entry : ℕ → ℕ → ℕ → OrderbookEntry
entry id account volume = record { order_id = id; account_id = account; remaining_volume = volume }

abbrev pub book : Orderbook Word64
book = record {
  bids = (word 3, entry 2 1 4 ∷ []) ∷ [];
  asks = (word 5, entry 0 1 5 ∷ []) ∷ (word 7, entry 1 1 5 ∷ []) ∷ [];
}

abbrev pub order_of : ℕ → ℕ → OrderType → Side → ℕ → Word64 → OrderInsertion Word64
order_of id account order_type side volume price = record {
  id = id;
  account_id = account;
  order_type = order_type;
  pair = pair01;
  side = side;
  volume = volume;
  price = price;
}

abbrev pub trade : Word64 → ℕ → Side → ℕ → ℕ → ObTransaction Word64
trade price volume side maker taker = record {
  price = price;
  volume = volume;
  taker_side = side;
  order_id_maker = maker;
  order_id_taker = taker;
}

abbrev pub placed : ℕ → ℕ → Side → ℕ → PlacedOrder Word64
placed id account side volume = record {
  id = id;
  account_id = account;
  pair = pair01;
  side = side;
  price = word 5;
  volume = volume;
  remaining_volume = volume;
  status = OrderExecutionStatus.awaiting_fill;
}
