-- ===== src/Errors.antt =====
-- src/errors.rs: the error values of each kind of command.
pub data MarketCreationError : Type 0 where
  market_already_exists asset_not_traded no_market_handlers other : MarketCreationError

pub data OrderInsertionError : Type 0 where
  market_does_not_exist account_does_not_exist illegal_parameters order_killed : OrderInsertionError
  inadequate_volume self_trade other : OrderInsertionError

pub data OrderCancellationError : Type 0 where
  order_does_not_exist unauthorized already_filled already_cancelled : OrderCancellationError
  market_does_not_exist not_cancellable : OrderCancellationError

pub data OrderModificationError : Type 0 where
  order_does_not_exist already_filled unauthorized market_does_not_exist : OrderModificationError
  volume_not_lower order_not_found : OrderModificationError

pub data GetOrderbookError : Type 0 where
  market_does_not_exist : GetOrderbookError
