-- ===== src/Lib.antt =====
-- Verification of the market simulation backend: an exchange with order books, balances and a
-- command stream, which runs on one thread.
--
-- A client sends buffers of commands over TCP (src/util/mp_command_codec.rs) or through a channel. The
-- exchange (src/exchange.rs) takes them in order and answers each. An order goes to the order book of
-- its market (src/market.rs, src/orderbook.rs), which matches it against the other side, price by price
-- and first come first served, and appends transactions to a buffer. The exchange then settles these: it
-- updates the orders that it tracks, moves the balances (src/balance_book.rs) and notes the
-- transaction in a ring buffer.
--
-- Files, with the code that they model:
--   Fixed, Fixed/Word64   src/util/types.rs. I33F31 of the crate `fixed` is a parameter: a type, its
--                         order as a rank, zero, the conversion from u32, addition, subtraction and
--                         multiplication, with the laws that the proofs use. Word64 is a value of it.
--   Asset, Errors, Order  src/asset.rs, src/errors.rs, src/order.rs: types and conversions.
--   Orderbook             src/orderbook.rs. Types are its data; Levels the operations of BTreeMap; Resting
--                         insert_limit_order_no_matching, cancel_order and modify_order; Volume
--                         enough_volume_fok and enough_volume_market; Matching insert_order; Views
--                         get_l1 and get_l2. Validity, Measure, Placement, Walk, Trim and Flat hold
--                         lemmas and what the theorems compare with; Priority, Insertion, Crossing,
--                         Filling, Capacity, Rejection and Cancellation theorems; Entries and
--                         Appended what holds of all resting orders; Reduction, Upkeep and Summary are
--                         about a book in order.
--   Market                src/market.rs: Market and Markets.
--   BalanceBook           src/balance_book.rs; Matrix holds its theorems.
--   RecentTransactions    RecentTransactions of src/exchange.rs, without and with its panics; Ring holds its
--                         theorems.
--   Exchange              src/exchange.rs. State is its state, add_asset, create_account and add_market;
--                         Settle process_transactions; Orders insert_order, cancel_order and
--                         modify_order; Commands the queries, handle_command and run_inner. Totals holds
--                         lemmas, Untouched some on the markets; Owners, Soundness, Progress and
--                         Placing lemmas on an exchange that does not panic; Setup, Supply, Conservation,
--                         Identity, Replies, Refusal, Refused, Modification, Panics, Liveness, Opening, Books
--                         and Rings theorems.
--   Codec                 src/util/mp_command_codec.rs. `rmp_serde` is a pair of functions, a parameter;
--                         Framing holds theorems on one frame, Stream and Pieces on a stream of them
--                         that comes in pieces.
--   ExchangeConfigs       src/util/exchange_configs.rs. Symbols is about the ids of symbols, Listing and
--                         Custom compare `custom` with what it is to set up; Ready is about the
--                         exchange that it hands over.
--   ExchangeClient        src/exchange_client.rs. Methods lists its methods. Channel is the interface
--                         of the channel, System any number of clients with the channel and the thread
--                         of the exchange, as a step relation;
--                         Order, Pending, Progress, Service and Answers are about the states that it
--                         reaches.
--   ExchangeServer        src/bin/exchange_server.rs: the configuration and the handlers of the two kinds of
--                         connections; Woven, Served and Session hold theorems.
--   Prelude, Tests        shared names and lemmas; runs on small inputs.
--
-- A function of the model has the name of the function that it models, and takes and returns the state that
-- the Rust function mutates. A Vec or VecDeque is a list, a BTreeMap the list of its entries by
-- ascending key, a HashMap an association list. An early return with an error is a Result. A
-- panic (an expect, which ends the thread of the exchange) is none. What get_mut lends is read, and
-- written back by a second function (write_order, write_market). The loops are structural recursions on
-- what they consume, so there is no fuel but in repeated decoding (Codec/Stream), where as many calls as there
-- are bytes are enough. The loops of the order book return how they end, which stands for
-- what they have mutated.
--
-- u32 arithmetic wraps, as in a release build; a checked build panics where the model wraps. A usize is 64
-- bits wide and counts things in memory, so it stays a number. The system clock is a parameter: the time at
-- each push into the ring buffer. The capacity of the ring buffer is the one that with_capacity was asked
-- for.
--
-- The channel of commands is an interface, with the laws that tokio documents: first in, first out, bounded
-- by the capacity, and a receiver that waits just while there is no message. Its messages are handled by
-- `run_buffer`, in one step of the thread: nothing else reads or writes the exchange. A panic ends the thread.
--
-- Not modelled: sockets, the accepting of connections, the histogram of latencies, tracing and the reading of
-- the configuration (src/bin/exchange_server.rs), which are input and output through other crates;
-- src/bin/playground.rs, which prints an encoding; the tables of src/util/statics.rs, which only the
-- benches use; the shutdown of the exchange after its last client; logging, Display, the benches and the
-- Python client.
pub mod Prelude
pub mod Fixed
pub mod Asset
pub mod Errors
pub mod Order
pub mod BalanceBook
pub mod Orderbook
pub mod Market
pub mod RecentTransactions
pub mod Exchange
pub mod ExchangeConfigs
pub mod ExchangeClient
pub mod Codec
pub mod ExchangeServer
pub mod Tests
