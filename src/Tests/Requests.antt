-- ===== src/Tests/Requests.antt =====
-- Tests of the calls of src/exchange.rs that set an exchange up, and of those that it refuses.
use market_sim_backend.Prelude.{◌≡◌, refl, some, List, [], ◌∷◌, err, arith}
use market_sim_backend.Fixed.Word64.{Word64, word, word_fixed}
use market_sim_backend.Errors.{OrderInsertionError, OrderCancellationError, OrderModificationError}
use market_sim_backend.Order.{Side, OrderType, OrderCancellationRequest, OrderModificationRequest}
use market_sim_backend.BalanceBook
use market_sim_backend.BalanceBook.{insert_columns}
use market_sim_backend.Exchange.State.{
  Exchange, new_exchange, is_traded_asset, create_account, add_asset, add_market,
}
use market_sim_backend.Market
use market_sim_backend.Exchange.Orders.{
  find_order, place_order, insert_order, cancel_order, modify_order,
}
use market_sim_backend.Exchange.Setup.{SetupCall, set_up}
use market_sim_backend.Exchange.Liveness.{IsIdle}
use market_sim_backend.Exchange.Opening.{set_up-IsIdle}
use market_sim_backend.Exchange.Refused.{handle_command_refused}
use market_sim_backend.Exchange.Commands.{Command, CommandResult, handle_command}
use market_sim_backend.Tests.Exchanges.{clock, offer, resting}
use market_sim_backend.Orderbook.Matching
use market_sim_backend.Orderbook.Matching.{check_volume}
use market_sim_backend.Orderbook.Volume.{enough_volume_fok, scan_levels_fok, scan_orders}
use market_sim_backend.Market.{find_market, write_market}
use market_sim_backend.Tests.Data.{pair01, placed}

-- One order, of account 0.
abbrev one_order : Exchange Word64
one_order = record new_exchange { session_orders = (0, placed 0 0 Side.ask 5) ∷ [] }

abbrev foreign_cancellation : OrderCancellationRequest
foreign_cancellation = record { account_id = 1; order_id = 0 }

foreign_cancellation_run :
    (cancel_order foreign_cancellation one_order).0 ≡ err OrderCancellationError.unauthorized
unfolding cancel_order find_order
foreign_cancellation_run = refl

abbrev larger : OrderModificationRequest
larger = record { account_id = 0; order_id = 0; new_volume = 6 }

larger_run : (modify_order larger one_order).0 ≡ err OrderModificationError.volume_not_lower
unfolding modify_order find_order
larger_run = refl

-- A FillOrKill bid for 6, where 5 are offered.
abbrev too_much : Command Word64
too_much = Command.order_insert (record offer {
  account_id = 1;
  order_type = OrderType.fill_or_kill;
  side = Side.bid;
  volume = 6;
})

abbrev killed : CommandResult Word64
killed = CommandResult.order_insert (err OrderInsertionError.order_killed)

abbrev kept : Exchange Word64
kept = record resting { transaction_buf = [] }

killed_run : handle_command clock too_much resting ≡ some (killed, kept)
unfolding handle_command insert_order place_order find_market write_market Market.insert_order
    Matching.insert_order check_volume enough_volume_fok scan_levels_fok scan_orders
killed_run = refl

handle_command_refused_example : kept ≡ resting
handle_command_refused_example =
    handle_command_refused clock too_much resting killed kept killed_run (λ e. cc e)

-- Two accounts, before and after the two assets and their market.
abbrev calls : List SetupCall
calls =
    SetupCall.new_account
    ∷ SetupCall.new_asset "Euro" "EUR"
    ∷ SetupCall.new_asset "United States Dollar" "USD"
    ∷ SetupCall.new_market pair01
    ∷ SetupCall.new_account
    ∷ []

abbrev made : Exchange Word64
made = set_up calls new_exchange

made_balances : made.balance_book.balances ≡ word 0 ∷ word 0 ∷ word 0 ∷ word 0 ∷ []
unfolding set_up create_account add_asset add_market is_traded_asset Market.add_market
    BalanceBook.add_asset BalanceBook.add_account insert_columns
made_balances = refl

set_up-IsIdle_example : IsIdle made
set_up-IsIdle_example =
    set_up-IsIdle calls (omega arith) (tt, (tt, (tt, (λ e. absurd (omega (arith, e)), (tt, tt)))))
