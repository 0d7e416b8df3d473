-- ===== src/Tests/Books.antt =====
-- Tests of src/orderbook.rs on small books.
use market_sim_backend.Prelude.{◌↔◌, ◌≤◌, ◌+◌, ◌≡◌, refl, none, some, List, [], ◌∷◌, ok, err, arith}
use market_sim_backend.Fixed.Word64.{Word64, word, word_fixed}
use market_sim_backend.Errors.{OrderInsertionError}
use market_sim_backend.Order.{
  OrderType, Side, OrderInsertion, OrderCancellation, OrderExecutionStatus,
}
use market_sim_backend.Orderbook.Types.{Orderbook, ObTransaction, ObOrderInsertionEffects}
use market_sim_backend.Orderbook.Levels.{level_at, put_level}
use market_sim_backend.Orderbook.Resting.{insert_limit_order_no_matching, cancel_order}
use market_sim_backend.Orderbook.Volume.{
  scan_orders, scan_levels_fok, enough_volume_fok, enough_volume_market,
}
use market_sim_backend.Orderbook.Matching.{
  match_queue, match_levels, check_volume, rest_order, finish, insert_order,
}
use market_sim_backend.Orderbook.Measure.{levels_volume, traded}
use market_sim_backend.Orderbook.Validity.{IsValid, Uncrossed}
use market_sim_backend.Orderbook.Insertion.{insert_order-IsValid, insert_order_conserves}
use market_sim_backend.Orderbook.Flat.{priority}
use market_sim_backend.Orderbook.Priority.{insert_order-fill_flat}
use market_sim_backend.Orderbook.Cancellation.{cancel_order-insert_limit_order_no_matching}
use market_sim_backend.Orderbook.Capacity.{enough_volume_market_lem, enough_volume_fok_bid_lem}
use market_sim_backend.Orderbook.Crossing.{insert_order-Uncrossed}
use market_sim_backend.Orderbook.Filling.{accepted_fills}
use market_sim_backend.Orderbook.Views.{get_l1}
use market_sim_backend.Orderbook.Summary.{IsBest, IsSpread, get_l1_lem}
use market_sim_backend.Orderbook.Rejection.{
  refused_keeps, self_trade_takes_volume, enough_volume_fok_ask_killed,
}
use market_sim_backend.Tests.Data.{pair01, entry, book, order_of, trade}

-- A limit bid for 8 at 6: it takes the ask at 5 and rests with 3.
abbrev limit_bid : OrderInsertion Word64
limit_bid = order_of 3 0 OrderType.limit Side.bid 8 (word 6)

abbrev limit_effects : ObOrderInsertionEffects Word64
limit_effects = record { status = OrderExecutionStatus.awaiting_fill; last_traded_price = none }

abbrev limit_book : Orderbook Word64
limit_book = record {
  bids = (word 3, entry 2 1 4 ∷ []) ∷ (word 6, entry 3 0 3 ∷ []) ∷ [];
  asks = (word 7, entry 1 1 5 ∷ []) ∷ [];
}

abbrev limit_trades : List (ObTransaction Word64)
limit_trades = trade (word 5) 5 Side.bid 0 3 ∷ []

limit_bid_run : insert_order limit_bid book [] ≡ (ok limit_effects, limit_book, limit_trades)
unfolding insert_order check_volume match_levels match_queue finish rest_order
    insert_limit_order_no_matching level_at put_level
limit_bid_run = refl

-- A FillOrKill bid for 7 at 9: it takes the ask at 5 and part of that at 7.
abbrev fok_bid : OrderInsertion Word64
fok_bid = order_of 3 0 OrderType.fill_or_kill Side.bid 7 (word 9)

abbrev fok_effects : ObOrderInsertionEffects Word64
fok_effects = record { status = OrderExecutionStatus.filled; last_traded_price = some (word 7) }

abbrev fok_book : Orderbook Word64
fok_book = record { bids = (word 3, entry 2 1 4 ∷ []) ∷ []; asks = (word 7, entry 1 1 3 ∷ []) ∷ [] }

abbrev fok_trades : List (ObTransaction Word64)
fok_trades = trade (word 5) 5 Side.bid 0 3 ∷ trade (word 7) 2 Side.bid 1 3 ∷ []

fok_bid_run : insert_order fok_bid book [] ≡ (ok fok_effects, fok_book, fok_trades)
unfolding insert_order check_volume enough_volume_fok scan_levels_fok scan_orders match_levels
    match_queue finish rest_order
fok_bid_run = refl

-- A FillOrKill ask for 1 at 4 is killed by the bid at 3.
abbrev killed_ask : OrderInsertion Word64
killed_ask = order_of 3 0 OrderType.fill_or_kill Side.ask 1 (word 4)

killed_ask_run : insert_order killed_ask book [] ≡ (err OrderInsertionError.order_killed, book, [])
unfolding insert_order check_volume enough_volume_fok scan_levels_fok scan_orders match_levels
    match_queue finish rest_order
killed_ask_run = refl

book-IsValid : IsValid book
book-IsValid = omega arith

get_l1_lem_example :
    IsBest (λ p q. word_fixed.rank q ≤ word_fixed.rank p) book.bids (get_l1 book).best_bid
    × IsBest (λ p q. word_fixed.rank p ≤ word_fixed.rank q) book.asks (get_l1 book).best_ask
    × IsSpread (get_l1 book).best_bid (get_l1 book).best_ask
get_l1_lem_example = get_l1_lem book book-IsValid (omega arith) (omega arith) (omega arith)

insert_order-IsValid_example : IsValid limit_book
insert_order-IsValid_example =
    insert_order-IsValid limit_bid book [] limit_effects limit_book limit_trades book-IsValid
      limit_bid_run

insert_order_conserves_example :
    (levels_volume limit_book.asks + traded limit_trades ≡ 10)
    × (levels_volume limit_book.bids + traded limit_trades ≡ 12)
insert_order_conserves_example =
    insert_order_conserves limit_bid book [] limit_effects limit_book limit_trades book-IsValid
      limit_bid_run

insert_order-Uncrossed_example : Uncrossed limit_book
insert_order-Uncrossed_example =
    insert_order-Uncrossed limit_bid book [] limit_effects limit_book limit_trades book-IsValid
      (omega arith) limit_bid_run

accepted_fills_example :
    (fok_effects.status ≡ OrderExecutionStatus.filled)
    × (traded fok_trades ≡ traded {P = Word64} [] + 7)
    × (fok_book.bids ≡ book.bids)
accepted_fills_example =
    accepted_fills fok_bid book [] fok_effects fok_book fok_trades book-IsValid (ground arith)
      fok_bid_run

refused_keeps_example : (book ≡ book) × (◌≡◌ {A = List (ObTransaction Word64)} [] [])
refused_keeps_example =
    refused_keeps killed_ask book [] OrderInsertionError.order_killed book [] killed_ask_run
      (ground arith)

-- A bid of the account whose ask stands at 5.
abbrev own_bid : OrderInsertion Word64
own_bid = order_of 3 1 OrderType.limit Side.bid 5 (word 6)

self_trade_takes_volume_example : insert_order own_bid book [] ≡ (
  err OrderInsertionError.self_trade,
  record book { asks = (word 5, entry 0 1 0 ∷ []) ∷ (word 7, entry 1 1 5 ∷ []) ∷ [] },
  [],
)
self_trade_takes_volume_example =
    self_trade_takes_volume own_bid book [] (word 5) (entry 0 1 5) []
      ((word 7, entry 1 1 5 ∷ []) ∷ []) refl refl refl refl refl

-- Bids at 3 and 9: the ask for 1 at 4 could be filled at 9.
abbrev two_bids : Orderbook Word64
two_bids = record { bids = (word 3, entry 0 1 4 ∷ []) ∷ (word 9, entry 1 1 4 ∷ []) ∷ []; asks = [] }

enough_volume_fok_ask_killed_example :
    enough_volume_fok Side.ask 1 (word 4) two_bids ≡ err OrderInsertionError.order_killed
enough_volume_fok_ask_killed_example =
    enough_volume_fok_ask_killed two_bids 1 (word 4) (word 3) (entry 0 1 4 ∷ [])
      ((word 9, entry 1 1 4 ∷ []) ∷ []) refl refl

insert_order-fill_flat_example :
    (limit_trades ≡ trade (word 5) 5 Side.bid 0 3 ∷ [])
    × (priority Side.ask limit_book.asks ≡ (word 7, entry 1 1 5) ∷ [])
insert_order-fill_flat_example =
    insert_order-fill_flat limit_bid book [] limit_effects limit_book limit_trades book-IsValid
      (omega arith) limit_bid_run

-- The ask for 5 at 7 is cancelled.
abbrev cancellation : OrderCancellation Word64
cancellation = record { pair = pair01; order_id = 1; side = Side.ask; price = word 7 }

-- An ask placed behind the one at 7, with its id, and cancelled.
cancel_order-insert_limit_order_no_matching_example :
    cancel_order cancellation
      (insert_limit_order_no_matching (order_of 1 4 OrderType.limit Side.ask 2 (word 7)) book)
    ≡ (ok tt, book)
cancel_order-insert_limit_order_no_matching_example =
    cancel_order-insert_limit_order_no_matching (order_of 1 4 OrderType.limit Side.ask 2 (word 7))
      book cancellation book-IsValid refl refl refl

enough_volume_market_lem_example :
    (enough_volume_market Side.bid 10 book ≡ ok tt) ↔ (10 ≤ levels_volume book.asks)
enough_volume_market_lem_example =
    enough_volume_market_lem Side.bid 10 book (omega arith) (omega arith)

-- Of the asks for 5 at 5 and at 7, a bid at 6 reaches one.
enough_volume_fok_bid_lem_example : (enough_volume_fok Side.bid 7 (word 6) book ≡ ok tt) ↔ (7 ≤ 5)
enough_volume_fok_bid_lem_example =
    enough_volume_fok_bid_lem 7 (word 6) book book-IsValid (omega arith) (omega arith)
