-- ===== src/Exchange/Commands.antt =====
-- The queries of src/exchange.rs, `handle_command`, and the loop of `run_inner` over the messages that
-- the channel hands over. `none` is a panic. Sending a reply has no effect on the exchange.
use market_sim_backend.Prelude.{ℕ, Option, none, some, List, [], ◌∷◌, map, Result, ok, err}
use market_sim_backend.Fixed.{Fixed}
use market_sim_backend.Asset.{Asset, AssetIdPair}
use market_sim_backend.Errors.{
  MarketCreationError, OrderInsertionError, OrderCancellationError, OrderModificationError,
  GetOrderbookError,
}
use market_sim_backend.Order.{
  OrderInsertionRequest, OrderCancellationRequest, OrderModificationRequest,
}
use market_sim_backend.Orderbook.Types.{OrderbookL1, OrderbookL2}
use market_sim_backend.Orderbook.Views.{get_l1, get_l2}
use market_sim_backend.BalanceBook
use market_sim_backend.Market.{OrderInsertionEffects, get_market}
use market_sim_backend.RecentTransactions
use market_sim_backend.Exchange.State.{Transaction, Exchange, add_market}
use market_sim_backend.Exchange.Settle.{◌>>=◌}
use market_sim_backend.Exchange.Orders.{insert_order, cancel_order, modify_order}

pub data Command (P : Type 0) : Type 0 where
  order_insert : OrderInsertionRequest P → Command P
  order_cancel : OrderCancellationRequest → Command P
  order_modify : OrderModificationRequest → Command P
  add_market_command : AssetIdPair → Command P
  get_balance : ℕ → ℕ → Command P
  get_orderbook_l1_command get_orderbook_l2_command : AssetIdPair → Command P
  get_assets get_all_orderbook_l1_command get_last_100_transactions : Command P

pub data CommandResult (P : Type 0) : Type 0 where
  order_insert : Result OrderInsertionError OrderInsertionEffects → CommandResult P
  order_cancel : Result OrderCancellationError (Unit {0}) → CommandResult P
  order_modify : Result OrderModificationError (Unit {0}) → CommandResult P
  add_market_result : Result MarketCreationError (Unit {0}) → CommandResult P
  get_balance : Option P → CommandResult P
  get_orderbook_l1_result : Result GetOrderbookError (OrderbookL1 P) → CommandResult P
  get_orderbook_l2_result : Result GetOrderbookError (OrderbookL2 P) → CommandResult P
  get_assets : List Asset → CommandResult P
  get_all_orderbook_l1_result : List (AssetIdPair × OrderbookL1 P) → CommandResult P
  get_last_100_transactions : List (Transaction P) → CommandResult P

module _ {P : Type 0} where
  unfoldable pub get_orderbook_l1 :
      Exchange P → AssetIdPair → Result GetOrderbookError (OrderbookL1 P)
  get_orderbook_l1 x pair = elim (get_market x.markets pair) [
    | none ↦ err GetOrderbookError.market_does_not_exist
    | some market ↦ ok (get_l1 market.orderbook)
  ]

  unfoldable pub get_orderbook_l2 :
      Exchange P → AssetIdPair → Result GetOrderbookError (OrderbookL2 P)
  get_orderbook_l2 x pair = elim (get_market x.markets pair) [
    | none ↦ err GetOrderbookError.market_does_not_exist
    | some market ↦ ok (get_l2 market.orderbook)
  ]

  unfoldable pub get_all_orderbook_l1 : Exchange P → List (AssetIdPair × OrderbookL1 P)
  get_all_orderbook_l1 x = map (λ m. (m.asset_pair, get_l1 m.orderbook)) x.markets.inner

module _ {P : Type 0} ⦃fx : Fixed P⦄ where
  unfoldable pub handle_command :
      (clock : ℕ → ℕ) → Command P → Exchange P → Option (CommandResult P × Exchange P)
  handle_command clock (Command.order_insert req) x =
      insert_order clock req x >>= λ done. some (CommandResult.order_insert done.0, done.1)
  handle_command clock (Command.order_cancel req) x =
      let (result, x') = cancel_order req x in some (CommandResult.order_cancel result, x')
  handle_command clock (Command.order_modify req) x =
      let (result, x') = modify_order req x in some (CommandResult.order_modify result, x')
  handle_command clock (Command.add_market_command pair) x =
      let (result, x') = add_market pair x in some (CommandResult.add_market_result result, x')
  handle_command clock (Command.get_balance account_id asset_id) x =
      some (CommandResult.get_balance (BalanceBook.get x.balance_book account_id asset_id), x)
  handle_command clock (Command.get_orderbook_l1_command pair) x =
      some (CommandResult.get_orderbook_l1_result (get_orderbook_l1 x pair), x)
  handle_command clock (Command.get_orderbook_l2_command pair) x =
      some (CommandResult.get_orderbook_l2_result (get_orderbook_l2 x pair), x)
  handle_command clock Command.get_assets x = some (CommandResult.get_assets x.traded_assets, x)
  handle_command clock Command.get_all_orderbook_l1_command x =
      some (CommandResult.get_all_orderbook_l1_result (get_all_orderbook_l1 x), x)
  handle_command clock Command.get_last_100_transactions x =
      some (CommandResult.get_last_100_transactions (RecentTransactions.get x.last_100_tx), x)

  -- One message: its commands in order, and a result for each.
  unfoldable pub run_buffer :
      (clock : ℕ → ℕ) → List (Command P) → Exchange P → Option (List (CommandResult P) × Exchange P)
  run_buffer clock [] x = some ([], x)
  run_buffer clock (c ∷ cs) x = handle_command clock c x >>= λ first.
      run_buffer clock cs first.1 >>= λ rest. some (first.0 ∷ rest.0, rest.1)

  -- The messages in the order in which the channel gives them.
  unfoldable pub run_messages :
      (clock : ℕ → ℕ)
      → List (List (Command P))
      → Exchange P
      → Option (List (List (CommandResult P)) × Exchange P)
  run_messages clock [] x = some ([], x)
  run_messages clock (buf ∷ bufs) x = run_buffer clock buf x >>= λ reply.
      run_messages clock bufs reply.1 >>= λ rest. some (reply.0 ∷ rest.0, rest.1)
