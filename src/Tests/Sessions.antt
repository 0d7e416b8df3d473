-- ===== src/Tests/Sessions.antt =====
-- Tests of src/exchange.rs where it returns and where it panics, and of src/bin/exchange_server.rs.
use market_sim_backend.Prelude.{
  ℕ, zero, suc, Bool, leb, length, ◌≡◌, refl, none, Option, some, List, [], ◌∷◌, ◌++◌, take, ok,
  ◌⊎◌, arith,
}
use market_sim_backend.Fixed.Word64.{Word64, word, word_fixed}
use market_sim_backend.Order.{Side}
use market_sim_backend.Codec.{encode}
use market_sim_backend.Exchange.State.{Transaction, Exchange}
use market_sim_backend.Exchange.Settle.{process_transactions}
use market_sim_backend.Exchange.Commands.{
  Command, CommandResult, handle_command, run_buffer, run_messages, get_all_orderbook_l1,
}
use market_sim_backend.Exchange.Liveness.{IsIdle, self_trade_reply, run_buffer_returns}
use market_sim_backend.Exchange.Panics.{process_transactions_same_account}
use market_sim_backend.RecentTransactions.{get, push, checked_get, checked_push}
use market_sim_backend.Exchange.Rings.{run_messages-checked_get}
use market_sim_backend.ExchangeClient.{send_commands, call}
use market_sim_backend.ExchangeServer.{
  ExchangeMetrics, ConnectionEnd, handle_connection, exchange_state, exchange_states,
  handle_connection_ws,
}
use market_sim_backend.Tests.Data.{pair01, trade, placed}
use market_sim_backend.Exchange.Books.{BooksOk, run_buffer-BooksOk}
use market_sim_backend.Tests.Exchanges.{
  clock, start, message, traded_exchange, replies, ended, message_run, messages_run,
}

start-IsIdle : IsIdle start
start-IsIdle = (
  record {
    booked = (refl, tt);
    rectangular = record { filled = refl; accounts_fit = omega arith; assets_fit = omega arith };
    listed = (omega arith, (omega arith, tt));
    markets_ok = ((λ e. absurd (omega (arith, e)), omega arith, omega arith, (tt, tt)), tt);
  },
  refl,
)

run_buffer_returns_example :
    ((done : List (CommandResult Word64) × Exchange Word64) × (run_buffer clock message start
        ≡ some done)
      × IsIdle done.1)
    ⊎ ((n : ℕ) × (rs : List (CommandResult Word64)) × (x' : Exchange Word64) × (run_buffer clock
            (take n message)
            start
          ≡ some (rs ++ self_trade_reply ∷ [], x')))
run_buffer_returns_example =
    run_buffer_returns clock message start start-IsIdle (tt, (tt, (tt, tt)))

run_buffer-BooksOk_example : BooksOk ended
run_buffer-BooksOk_example =
    run_buffer-BooksOk clock message start replies ended
      ((record { bids_valid = (tt, tt); asks_valid = (tt, tt) }, tt, (tt, tt)), tt)
      (omega arith, (omega arith, (tt, tt))) message_run
      ((λ e. cc e), ((λ e. cc e), ((λ e. cc e), tt)))

-- A transaction that is to be pushed next.
abbrev next : Transaction Word64
next = record {
  market = pair01;
  price = word 5;
  volume = 1;
  taker_side = Side.bid;
  maker = 0;
  taker = 1;
  timestamp_ms = 9;
}

run_messages-checked_get_example :
    (checked_get ended.last_100_tx ≡ some (get ended.last_100_tx))
    × (checked_push ended.last_100_tx next ≡ some (push ended.last_100_tx next))
run_messages-checked_get_example =
    run_messages-checked_get clock (message ∷ []) start (replies ∷ [], ended) next
      (record { has_room = omega arith; filled = refl }) messages_run

-- Both orders are of account 0.
abbrev own_orders : Exchange Word64
own_orders = record traded_exchange {
  session_orders = (0, placed 0 0 Side.ask 5) ∷ (1, placed 1 0 Side.bid 3) ∷ [];
}

process_transactions_same_account_example : process_transactions clock pair01 own_orders ≡ none
process_transactions_same_account_example =
    process_transactions_same_account clock pair01 [] [] (trade (word 5) 3 Side.bid 0 1) own_orders
      0 refl refl refl

-- The one message that asks for the assets, written as one byte and read from any one.
abbrev asking : List (Command Word64)
asking = Command.get_assets ∷ []

abbrev to_vec : List (Command Word64) → Option (List ℕ)
to_vec (Command.get_assets ∷ []) = some (7 ∷ [])
to_vec _ = none

abbrev from_slice : List ℕ → Option (List (Command Word64))
from_slice (b ∷ []) = some asking
from_slice _ = none

abbrev reply_to_vec : List (CommandResult Word64) → Option (List ℕ)
reply_to_vec rs = some (9 ∷ [])

-- The socket takes the first reply and not the second.
abbrev taken : List ℕ → Bool
taken bytes = leb (length bytes) 3

-- Another client asks between the two messages.
abbrev others : ℕ → List (List (Command Word64))
others (suc zero) = asking ∷ []
others _ = []

cut_off :
    handle_connection clock reply_to_vec taken others 0 (ok asking ∷ ok asking ∷ []) [] start
    ≡ some ((ConnectionEnd.panicked, 0 ∷ 1 ∷ 9 ∷ []), start)
unfolding handle_connection send_commands run_messages run_buffer handle_command encode
cut_off = refl

abbrev quiet : ExchangeMetrics
quiet = record { timestamp = 1; p50 = 2; p90 = 3; p999 = 4 }

shown :
    handle_connection_ws clock others (quiet ∷ []) start
    ≡ some (
      (
        start.traded_assets,
        record { l1s = get_all_orderbook_l1 start; metrics = quiet; last_100_tx = [] } ∷ [],
      ),
      start,
    )
unfolding handle_connection_ws exchange_states exchange_state call send_commands run_messages
    run_buffer handle_command get get_all_orderbook_l1
shown = refl
