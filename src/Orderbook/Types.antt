-- ===== src/Orderbook/Types.antt =====
-- The data types of src/orderbook.rs. A side of the book is a `BTreeMap` from prices to queues, as
-- the list of its entries by ascending price; a `VecDeque` is the list of its entries, front first.
use market_sim_backend.Prelude.{ℕ, Option, List, []}
use market_sim_backend.Order.{Side, OrderExecutionStatus, OrderInsertion}

pub record OrderbookEntry : Type 0 where
  pub order_id : ℕ
  pub account_id : ℕ
  pub remaining_volume : ℕ

abbrev pub entry_of : {P : Type 0} → OrderInsertion P → OrderbookEntry
entry_of o = record { order_id = o.id; account_id = o.account_id; remaining_volume = o.volume }

pub record ObOrderInsertionEffects (P : Type 0) : Type 0 where
  pub status : OrderExecutionStatus
  pub last_traded_price : Option P

pub record ObTransaction (P : Type 0) : Type 0 where
  pub price : P
  pub volume : ℕ
  pub taker_side : Side
  pub order_id_maker : ℕ
  pub order_id_taker : ℕ

pub record PriceLevelAggregate (P : Type 0) : Type 0 where
  pub price : P
  pub volume : ℕ

pub record OrderbookL1 (P : Type 0) : Type 0 where
  pub best_bid : Option (PriceLevelAggregate P)
  pub best_ask : Option (PriceLevelAggregate P)

pub record OrderbookL2 (P : Type 0) : Type 0 where
  pub asks : List (PriceLevelAggregate P)
  pub bids : List (PriceLevelAggregate P)

abbrev pub Levels : Type 0 → Type 0
Levels P = List (P × List OrderbookEntry)

pub record Orderbook (P : Type 0) : Type 0 where
  pub bids : Levels P
  pub asks : Levels P

abbrev pub empty_orderbook : {P : Type 0} → Orderbook P
empty_orderbook = record { bids = []; asks = [] }

abbrev pub book_side : {P : Type 0} → Orderbook P → Side → Levels P
book_side ob Side.bid = ob.bids
book_side ob Side.ask = ob.asks

abbrev pub with_side : {P : Type 0} → Orderbook P → Side → Levels P → Orderbook P
with_side ob Side.bid levels = record ob { bids = levels }
with_side ob Side.ask levels = record ob { asks = levels }
