-- ===== src/Orderbook/Matching.antt =====
-- `insert_order` of src/orderbook.rs: the volume checks, the two nested loops that match an order
-- against the other side, and what is left of it. Levels are walked from the best price on: asks
-- by ascending price, bids by descending price.
use market_sim_backend.Prelude.{
  ℕ, ◌≡◌, ◌≢◌, arith, ◌+◌, ◌-◌, min, Bool, not, ◌&&◌, Option, none, some, List, [], ◌∷◌, ◌++◌,
  reverse, drop, ltb, ◌==◌, if◌then◌else◌, Result, ok, err,
}
use market_sim_backend.Fixed.{Fixed}
use market_sim_backend.Errors.{OrderInsertionError}
use market_sim_backend.Order.{
  OrderType, Side, is_market, opposite, OrderExecutionStatus, OrderInsertion,
}
use market_sim_backend.Orderbook.Types.{
  OrderbookEntry, ObOrderInsertionEffects, ObTransaction, Levels, Orderbook, book_side, with_side,
}
use market_sim_backend.Orderbook.Resting.{insert_limit_order_no_matching}
use market_sim_backend.Orderbook.Volume.{
  price_out_of_reach, enough_volume_fok, enough_volume_market,
}

-- How the loop over one queue ends: with the early return of a self-trade, or with the queue, the
-- volume that remains, `last_traded_price` and the buffer.
pub data QueueMatch (P : Type 0) : Type 0 where
  self_trade : List OrderbookEntry → List (ObTransaction P) → QueueMatch P
  matched : List OrderbookEntry → ℕ → Option P → List (ObTransaction P) → QueueMatch P

-- The same for the loop over the levels, with the count of `price_level_deletions`.
pub data LevelsMatch (P : Type 0) : Type 0 where
  self_trade : Levels P → List (ObTransaction P) → LevelsMatch P
  matched : Levels P → ℕ → Option P → ℕ → List (ObTransaction P) → LevelsMatch P

-- `pop_front` if the front entry has nothing left
abbrev pub pop_filled : OrderbookEntry → List OrderbookEntry → List OrderbookEntry
pop_filled e es = if e.remaining_volume == 0 then es else e ∷ es

-- 1 for an emptied queue, which counts as a deletion.
abbrev pub is_empty : List OrderbookEntry → ℕ
is_empty [] = 1
is_empty (e ∷ es) = 0

-- Where an order has volume left after a trade, the entry it traded with has none, and is popped.
front_popped :
    (remaining volume : ℕ)
    → remaining - min remaining volume ≢ 0
    → volume - min remaining volume ≡ 0
front_popped remaining volume h = ground arith

module _ {P : Type 0} where
  abbrev pub transaction : OrderInsertion P → P → ℕ → OrderbookEntry → ObTransaction P
  transaction order price volume e = record {
    price = price;
    volume = volume;
    taker_side = order.side;
    order_id_maker = e.order_id;
    order_id_taker = order.id;
  }

  -- The `while let`. The subtractions are of a minimum of the two, so they cannot wrap; and where
  -- volume remains, the minimum was the entry's, which has then been popped (`front_popped`).
  unfoldable pub match_queue :
      OrderInsertion P
      → P
      → ℕ
      → Option P
      → List OrderbookEntry
      → List (ObTransaction P)
      → QueueMatch P
  match_queue order price remaining last [] buf = QueueMatch.matched [] remaining last buf
  match_queue order price remaining last (e ∷ es) buf =
      let transaction_volume = min remaining e.remaining_volume in
      let e' : OrderbookEntry = record e {
        remaining_volume = e.remaining_volume - transaction_volume;
      } in
      let remaining' = remaining - transaction_volume in
      let buf' = buf ++ transaction order price transaction_volume e ∷ [] in
      let rest = match_queue order price remaining' last es buf' in
      if order.account_id == e.account_id
      then QueueMatch.self_trade (e' ∷ es) buf
      else if remaining' == 0
      then QueueMatch.matched (pop_filled e' es) remaining' (some price) buf'
      else rest

  -- A level that the walk has passed stays in front of the rest.
  abbrev pub past : P × List OrderbookEntry → LevelsMatch P → LevelsMatch P
  past l (LevelsMatch.self_trade t buf) = LevelsMatch.self_trade (l ∷ t) buf
  past l (LevelsMatch.matched t remaining last deletions buf) =
      LevelsMatch.matched (l ∷ t) remaining last deletions buf

  -- The prices in the order in which the iterator gives them, and back.
  abbrev pub walk_order : Side → Levels P → Levels P
  walk_order Side.ask levels = levels
  walk_order Side.bid levels = reverse levels

module _ {P : Type 0} ⦃fx : Fixed P⦄ where
  -- The `break` before a level whose price the order does not accept.
  abbrev pub stops_at : OrderInsertion P → P → Bool
  stops_at order level =
      not (is_market order.order_type) && price_out_of_reach order.side order.price level

  -- The `for` over the levels, in walk order.
  unfoldable pub match_levels :
      OrderInsertion P → ℕ → Option P → ℕ → Levels P → List (ObTransaction P) → LevelsMatch P
  match_levels order remaining last deletions [] buf =
      LevelsMatch.matched [] remaining last deletions buf
  match_levels order remaining last deletions ((price, orders) ∷ t) buf =
      if stops_at order price
      then LevelsMatch.matched ((price, orders) ∷ t) remaining last deletions buf
      else elim (match_queue order price remaining last orders buf) [
        | QueueMatch.self_trade orders' buf' ↦ LevelsMatch.self_trade ((price, orders') ∷ t) buf'
        | QueueMatch.matched orders' remaining' last' buf' ↦
            let deletions' = deletions + is_empty orders' in
            let rest = match_levels order remaining' last' deletions' t buf' in
            if remaining' == 0
            then LevelsMatch.matched ((price, orders') ∷ t) remaining' last' deletions' buf'
            else past (price, orders') rest
      ]

  -- The volume checks for FillOrKill and Market orders.
  unfoldable pub check_volume :
      OrderInsertion P → Orderbook P → Result OrderInsertionError (Unit {0})
  check_volume order ob = elim order.order_type [
    | OrderType.fill_or_kill ↦ enough_volume_fok order.side order.volume order.price ob
    | OrderType.market ↦ enough_volume_market order.side order.volume ob
    | OrderType.limit ↦ ok tt
  ]

  -- What remains of the order, of whatever type, is entered into the book.
  unfoldable pub rest_order :
      OrderInsertion P → ℕ → Option P → Orderbook P → ObOrderInsertionEffects P × Orderbook P
  rest_order order remaining last ob =
      if ltb 0 remaining
      then (
        record { status = OrderExecutionStatus.awaiting_fill; last_traded_price = last },
        insert_limit_order_no_matching (record order { volume = remaining }) ob,
      )
      else (record { status = OrderExecutionStatus.filled; last_traded_price = last }, ob)

  -- After the loops: the emptied levels are popped, and the rest of the order rests.
  unfoldable pub finish :
      OrderInsertion P
      → Orderbook P
      → LevelsMatch P
      → Result OrderInsertionError (ObOrderInsertionEffects P)
        × Orderbook P
        × List (ObTransaction P)
  finish order ob (LevelsMatch.self_trade levels buf) =
      let side = opposite order.side in
      (err OrderInsertionError.self_trade, with_side ob side (walk_order side levels), buf)
  finish order ob (LevelsMatch.matched levels remaining last deletions buf) =
      let side = opposite order.side in
      let (effects, ob') =
        rest_order order remaining last
          (with_side ob side (walk_order side (drop deletions levels))) in
      (ok effects, ob', buf)

  unfoldable pub insert_order :
      OrderInsertion P
      → Orderbook P
      → List (ObTransaction P)
      → Result OrderInsertionError (ObOrderInsertionEffects P)
        × Orderbook P
        × List (ObTransaction P)
  insert_order order ob buf = elim (check_volume order ob) [
    | err e ↦ (err e, ob, buf)
    | ok _ ↦
        let side = opposite order.side in
        finish order ob
          (match_levels order order.volume none 0 (walk_order side (book_side ob side)) buf)
  ]
