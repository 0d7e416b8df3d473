-- ===== src/Order.antt =====
-- src/order.rs: orders, the requests that make them, and their conversions; with
-- `OrderExecutionStatus` of src/market.rs. Volumes and account ids are u32, order ids usize.
use market_sim_backend.Prelude.{ℕ, Bool, true, false, sub32}
use market_sim_backend.Asset.{AssetIdPair}

pub data OrderType : Type 0 where
  limit fill_or_kill market : OrderType

pub data Side : Type 0 where
  bid ask : Side

pub data OrderExecutionStatus : Type 0 where
  awaiting_fill partial_fill filled killed cancelled : OrderExecutionStatus

abbrev pub is_bid : Side → Bool
is_bid Side.bid = true
is_bid Side.ask = false

abbrev pub is_market : OrderType → Bool
is_market OrderType.market = true
is_market _ = false

-- The side that an order trades with.
abbrev pub opposite : Side → Side
opposite Side.bid = Side.ask
opposite Side.ask = Side.bid

abbrev pub is_cancelled : OrderExecutionStatus → Bool
is_cancelled OrderExecutionStatus.cancelled = true
is_cancelled _ = false

abbrev pub is_filled : OrderExecutionStatus → Bool
is_filled OrderExecutionStatus.filled = true
is_filled _ = false

pub record OrderInsertionRequest (P : Type 0) : Type 0 where
  pub account_id : ℕ
  pub order_type : OrderType
  pub pair : AssetIdPair
  pub side : Side
  pub volume : ℕ
  pub price : P

pub record OrderInsertion (P : Type 0) : Type 0 where
  pub id : ℕ
  pub account_id : ℕ
  pub order_type : OrderType
  pub pair : AssetIdPair
  pub side : Side
  pub volume : ℕ
  pub price : P

abbrev pub into_insertion : {P : Type 0} → OrderInsertionRequest P → ℕ → OrderInsertion P
into_insertion r id = record {
  id = id;
  account_id = r.account_id;
  order_type = r.order_type;
  pair = r.pair;
  side = r.side;
  volume = r.volume;
  price = r.price;
}

pub record OrderCancellationRequest : Type 0 where
  pub account_id : ℕ
  pub order_id : ℕ

pub record OrderCancellation (P : Type 0) : Type 0 where
  pub pair : AssetIdPair
  pub order_id : ℕ
  pub side : Side
  pub price : P

abbrev pub into_cancellation :
    {P : Type 0} → OrderCancellationRequest → AssetIdPair → Side → P → OrderCancellation P
into_cancellation r pair side price = record {
  pair = pair;
  order_id = r.order_id;
  side = side;
  price = price;
}

pub record OrderModificationRequest : Type 0 where
  pub account_id : ℕ
  pub order_id : ℕ
  pub new_volume : ℕ

pub record OrderModification (P : Type 0) : Type 0 where
  pub pair : AssetIdPair
  pub order_id : ℕ
  pub volume_reduction : ℕ
  pub side : Side
  pub price : P

abbrev pub into_order_modification :
    {P : Type 0} → OrderModificationRequest → AssetIdPair → Side → P → ℕ → OrderModification P
into_order_modification r pair side price original_volume = record {
  pair = pair;
  order_id = r.order_id;
  volume_reduction = sub32 original_volume r.new_volume;
  side = side;
  price = price;
}

pub record PlacedOrder (P : Type 0) : Type 0 where
  pub id : ℕ
  pub account_id : ℕ
  pub pair : AssetIdPair
  pub side : Side
  pub price : P
  pub volume : ℕ
  pub remaining_volume : ℕ
  pub status : OrderExecutionStatus

abbrev pub from_insertion : {P : Type 0} → OrderInsertion P → PlacedOrder P
from_insertion o = record {
  id = o.id;
  account_id = o.account_id;
  pair = o.pair;
  side = o.side;
  price = o.price;
  volume = o.volume;
  remaining_volume = o.volume;
  status = OrderExecutionStatus.awaiting_fill;
}
