-- ===== src/Tests/Exchanges.antt =====
-- Tests of src/exchange.rs: two accounts that trade on one market, after tests/exchange_tests.rs.
use market_sim_backend.Prelude.{
  ℕ, ◌+◌, ◌≤◌, ◌<◌, ◌≡◌, refl, none, some, List, [], ◌∷◌, ok, arith, ◌⊎◌,
}
use market_sim_backend.Fixed.Word64.{Word64, word, word_fixed, word_fixed-IsLawful}
use market_sim_backend.Order.{
  OrderType, Side, OrderInsertionRequest, OrderExecutionStatus, PlacedOrder,
}
use market_sim_backend.Orderbook.Types.{empty_orderbook}
use market_sim_backend.Orderbook.Levels.{level_at, put_level}
use market_sim_backend.Orderbook.Resting.{insert_limit_order_no_matching}
use market_sim_backend.Orderbook.Matching
use market_sim_backend.Orderbook.Matching.{
  match_queue, match_levels, check_volume, rest_order, finish,
}
use market_sim_backend.BalanceBook
use market_sim_backend.BalanceBook.{BalanceBook, get_disjoint}
use market_sim_backend.Market
use market_sim_backend.Market.{Market, Markets, find_market, write_market}
use market_sim_backend.RecentTransactions.{push, with_capacity}
use market_sim_backend.Exchange.State.{Exchange}
use market_sim_backend.Exchange.Settle.{
  transfer, settled, settle_one, settle_all, process_transactions,
}
use market_sim_backend.Exchange.Orders.{modified, place_order, insert_order}
use market_sim_backend.Exchange.Commands.{
  Command, CommandResult, handle_command, run_buffer, run_messages,
}
use market_sim_backend.Exchange.Totals.{asset_total}
use market_sim_backend.Exchange.Conservation.{process_transactions_conserves}
use market_sim_backend.Exchange.Identity.{Indexed, handle_command-Indexed}
use market_sim_backend.Exchange.Modification.{modified_bounds, modified_twice}
use market_sim_backend.Exchange.Panics.{settle_one_same_asset}
use market_sim_backend.Exchange.Supply.{SameSupply, run_messages_keeps_supply}
use market_sim_backend.Exchange.Replies.{AllAnswered, run_buffer-Answers}
use market_sim_backend.Tests.Data.{pair01, entry, trade, placed}

abbrev pub clock : ℕ → ℕ
clock n = 1000 + n

abbrev empty_market : Market Word64
empty_market = record {
  asset_pair = pair01;
  last_traded_price = word 0;
  orderbook = empty_orderbook;
}

-- Two accounts, two assets and their market.
abbrev pub start : Exchange Word64
start = record {
  accounts = (0, record { id = 0; username = "" }) ∷ (1, record { id = 1; username = "" }) ∷ [];
  traded_assets =
      record { id = 0; name = "Euro"; symbol = "EUR" }
      ∷ record { id = 1; name = "Dollar"; symbol = "USD" }
      ∷ [];
  balance_book = record {
    accounts = 2;
    assets = 2;
    balances = word 10 ∷ word 20 ∷ word 30 ∷ word 40 ∷ [];
  };
  markets = record { keys = pair01 ∷ []; inner = empty_market ∷ [] };
  session_orders = [];
  last_100_tx = with_capacity 100;
  transaction_buf = [];
}

-- Account 1 buys 3 of account 0 at a price of 5 units.
abbrev pub traded_exchange : Exchange Word64
traded_exchange = record start {
  session_orders = (0, placed 0 0 Side.ask 5) ∷ (1, placed 1 1 Side.bid 3) ∷ [];
  transaction_buf = trade (word 5) 3 Side.bid 0 1 ∷ [];
}

abbrev value : Word64
value = word_fixed.mul (word_fixed.from_u32 3) (word 5)

abbrev settled_exchange : Exchange Word64
settled_exchange = record start {
  balance_book = record {
    accounts = 2;
    assets = 2;
    balances =
        word_fixed.sub (word 10) (word_fixed.from_u32 3)
        ∷ word_fixed.add (word 20) (word_fixed.from_u32 3)
        ∷ word_fixed.add (word 30) value
        ∷ word_fixed.sub (word 40) value
        ∷ [];
  };
  session_orders =
      (0, record (placed 0 0 Side.ask 5) { remaining_volume = 2 })
      ∷ (
        1,
        record (placed 1 1 Side.bid 3) {
          remaining_volume = 0;
          status = OrderExecutionStatus.filled;
        },
      )
      ∷ [];
  last_100_tx = push start.last_100_tx (record {
    market = pair01;
    price = word 5;
    volume = 3;
    taker_side = Side.bid;
    maker = 0;
    taker = 1;
    timestamp_ms = 1000;
  });
}

process_run : process_transactions clock pair01 traded_exchange ≡ some settled_exchange
unfolding process_transactions settle_all settle_one settled transfer get_disjoint push
process_run = refl

process_transactions_conserves_example :
    asset_total settled_exchange.balance_book 1 ≡ asset_total traded_exchange.balance_book 1
process_transactions_conserves_example =
    process_transactions_conserves word_fixed-IsLawful clock pair01 traded_exchange settled_exchange
      1 (omega arith, (omega arith, tt)) process_run

-- Account 0 offers 5 at 5 units, account 1 bids for 3 at 5 units, and a balance is asked for.
abbrev pub offer : OrderInsertionRequest Word64
offer = record {
  account_id = 0;
  order_type = OrderType.limit;
  pair = pair01;
  side = Side.ask;
  volume = 5;
  price = word 5;
}

abbrev pub message : List (Command Word64)
message =
    Command.order_insert offer
    ∷ Command.order_insert (record offer { account_id = 1; side = Side.bid; volume = 3 })
    ∷ Command.get_balance 1 1
    ∷ []

abbrev pub replies : List (CommandResult Word64)
replies =
    CommandResult.order_insert (ok (record { id = 0; status = OrderExecutionStatus.awaiting_fill }))
    ∷ CommandResult.order_insert (ok (record { id = 1; status = OrderExecutionStatus.filled }))
    ∷ CommandResult.get_balance (some (word_fixed.sub (word 40) value))
    ∷ []

abbrev traded_market : Market Word64
traded_market = record empty_market {
  last_traded_price = word 5;
  orderbook = record { bids = []; asks = (word 5, entry 0 0 2 ∷ []) ∷ [] };
}

abbrev pub ended : Exchange Word64
ended = record settled_exchange {
  markets = record { keys = pair01 ∷ []; inner = traded_market ∷ [] };
}

pub message_run : run_buffer clock message start ≡ some (replies, ended)
unfolding run_buffer handle_command insert_order place_order process_transactions settle_all
    settle_one settled transfer get_disjoint push find_market write_market Market.insert_order
    Matching.insert_order check_volume match_levels match_queue finish rest_order
    insert_limit_order_no_matching level_at put_level BalanceBook.get
message_run = refl

run_buffer-Answers_example : AllAnswered message replies × Indexed 0 ended.session_orders
run_buffer-Answers_example = run_buffer-Answers clock message start replies ended tt message_run

-- The exchange in which the order to sell rests, and a second order is handled.
abbrev second_bid : Command Word64
second_bid = Command.order_insert (record offer { account_id = 1; side = Side.bid; volume = 3 })

abbrev pub resting : Exchange Word64
resting = record start {
  markets = record {
    keys = pair01 ∷ [];
    inner =
        record empty_market {
          orderbook = record { bids = []; asks = (word 5, entry 0 0 5 ∷ []) ∷ [] };
        }
        ∷ [];
  };
  session_orders = (0, placed 0 0 Side.ask 5) ∷ [];
}

second_run :
    handle_command clock second_bid resting
    ≡ some (
      CommandResult.order_insert (ok (record { id = 1; status = OrderExecutionStatus.filled })),
      ended,
    )
unfolding handle_command insert_order place_order process_transactions settle_all settle_one settled
    transfer get_disjoint push find_market write_market Market.insert_order Matching.insert_order
    check_volume match_levels match_queue finish rest_order
second_run = refl

handle_command-Indexed_example : Indexed 0 ended.session_orders
handle_command-Indexed_example =
    handle_command-Indexed clock second_bid resting _ ended (refl, refl, tt) second_run

-- An order for 10 of which 4 are filled, modified to 7.
abbrev part_filled : PlacedOrder Word64
part_filled = record (placed 0 0 Side.ask 10) { remaining_volume = 6 }

modified_bounds_example :
    (4 ≤ (modified 7 part_filled).volume)
    × ((modified 7 part_filled).volume ≤ 10)
    × (((7 < 4)
          × ((modified 7 part_filled).volume ≡ 4)
          × ((modified 7 part_filled).status ≡ OrderExecutionStatus.filled))
        ⊎ ((4 ≤ 7)
            × ((modified 7 part_filled).volume ≡ 7)
            × ((modified 7 part_filled).status ≡ OrderExecutionStatus.awaiting_fill)))
modified_bounds_example = modified_bounds part_filled 7 (omega arith) (omega arith) (omega arith)

-- An order for 10, untouched, modified to 8 and then to 6.
modified_twice_example :
    let o' = modified 6 (modified 8 (placed 0 0 Side.ask 10)) in
    (o'.status ≡ OrderExecutionStatus.filled)
    × (o'.volume ≡ 4294967294)
    × (o'.remaining_volume ≡ 10)
modified_twice_example =
    modified_twice (placed 0 0 Side.ask 10) 8 6 refl (omega arith) (omega arith) (omega arith)

settle_one_same_asset_example :
    settle_one clock
      (record { primary = 1; secondary = 1 })
      (trade (word 5) 3 Side.bid 0 1)
      traded_exchange
    ≡ none
settle_one_same_asset_example =
    settle_one_same_asset clock (record { primary = 1; secondary = 1 })
      (trade (word 5) 3 Side.bid 0 1) traded_exchange refl

pub messages_run : run_messages clock (message ∷ []) start ≡ some (replies ∷ [], ended)
unfolding run_messages run_buffer handle_command insert_order place_order process_transactions
    settle_all settle_one settled transfer get_disjoint push find_market write_market
    Market.insert_order Matching.insert_order check_volume match_levels match_queue finish
    rest_order insert_limit_order_no_matching level_at put_level BalanceBook.get
messages_run = refl

run_messages_keeps_supply_example : SameSupply 1 start ended
run_messages_keeps_supply_example =
    run_messages_keeps_supply word_fixed-IsLawful clock (message ∷ []) start (replies ∷ []) ended 1
      (refl, tt) messages_run
