-- ===== src/Exchange/Orders.antt =====
-- `insert_order`, `cancel_order` and `modify_order` of src/exchange.rs. `none` is a panic.
use market_sim_backend.Prelude.{
  ℕ, Option, none, some, List, [], ◌∷◌, ◌++◌, length, ltb, leb, not, ◌==◌, if◌then◌else◌, sub32,
  Result, ok, err,
}
use market_sim_backend.Fixed.{Fixed}
use market_sim_backend.Errors.{OrderInsertionError, OrderCancellationError, OrderModificationError}
use market_sim_backend.Order.{
  OrderExecutionStatus, is_cancelled, is_filled, OrderInsertionRequest, OrderInsertion,
  into_insertion, OrderCancellationRequest, into_cancellation, OrderModificationRequest,
  into_order_modification, PlacedOrder, from_insertion,
}
use market_sim_backend.Orderbook.Types.{ObOrderInsertionEffects}
use market_sim_backend.Market
use market_sim_backend.Market.{OrderInsertionEffects, Market, get_market, put_market}
use market_sim_backend.Exchange.State.{Exchange}
use market_sim_backend.Exchange.Settle.{◌>>=◌, process_transactions}

module _ {P : Type 0} where
  -- `session_orders.iter_mut().find(|(id, _)| id == order_id)`
  unfoldable pub find_order : List (ℕ × PlacedOrder P) → ℕ → Option (PlacedOrder P)
  find_order [] id = none
  find_order ((j, o) ∷ os) id = if j == id then some o else find_order os id

  -- What the caller leaves in the order that was found.
  unfoldable pub write_order :
      List (ℕ × PlacedOrder P) → ℕ → PlacedOrder P → List (ℕ × PlacedOrder P)
  write_order [] id o' = []
  write_order ((j, o) ∷ os) id o' = if j == id then (j, o') ∷ os else (j, o) ∷ write_order os id o'

  -- The update of the order after a modification that the book accepted.
  unfoldable pub modified : ℕ → PlacedOrder P → PlacedOrder P
  modified new_volume o =
      let volume_filled = sub32 o.volume o.remaining_volume in
      if ltb new_volume volume_filled
      then record o { volume = volume_filled; status = OrderExecutionStatus.filled }
      else record o { volume = new_volume }

module _ {P : Type 0} ⦃fx : Fixed P⦄ where
  -- From the book's answer on: an error leaves `insert_order` at once.
  unfoldable pub place_order :
      (clock : ℕ → ℕ)
      → OrderInsertion P
      → Result OrderInsertionError (ObOrderInsertionEffects P)
      → Exchange P
      → Option (Result OrderInsertionError OrderInsertionEffects × Exchange P)
  place_order clock insertion (err e) x = some (err e, x)
  place_order clock insertion (ok effects) x =
      let orders = x.session_orders ++ (insertion.id, from_insertion insertion) ∷ [] in
      process_transactions clock insertion.pair (record x { session_orders = orders }) >>= λ x'.
      some (ok (record { id = insertion.id; status = effects.status }), x')

  unfoldable pub insert_order :
      (clock : ℕ → ℕ)
      → OrderInsertionRequest P
      → Exchange P
      → Option (Result OrderInsertionError OrderInsertionEffects × Exchange P)
  unfolding place_order
  insert_order clock req x = elim (get_market x.markets req.pair) [
    | none ↦ some (err OrderInsertionError.market_does_not_exist, x)
    | some market ↦
        if leb (length x.accounts) req.account_id
        then some (err OrderInsertionError.account_does_not_exist, x)
        else let insertion = into_insertion req (length x.session_orders) in
          let (result, market', buf) = Market.insert_order insertion market x.transaction_buf in
          place_order clock insertion result
            (record x { markets = put_market x.markets req.pair market'; transaction_buf = buf })
  ]

  -- The status of the order after the market's answer.
  abbrev pub cancelled_if_ok :
      Result OrderCancellationError (Unit {0}) → PlacedOrder P → PlacedOrder P
  cancelled_if_ok (ok _) o = record o { status = OrderExecutionStatus.cancelled }
  cancelled_if_ok (err _) o = o

  unfoldable pub cancel_order :
      OrderCancellationRequest → Exchange P → Result OrderCancellationError (Unit {0}) × Exchange P
  cancel_order req x = elim (find_order x.session_orders req.order_id) [
    | none ↦ (err OrderCancellationError.order_does_not_exist, x)
    | some order ↦
        if not (order.account_id == req.account_id)
        then (err OrderCancellationError.unauthorized, x)
        else if is_cancelled order.status
        then (err OrderCancellationError.already_cancelled, x)
        else if is_filled order.status
        then (err OrderCancellationError.already_filled, x)
        else elim (get_market x.markets order.pair) [
          | none ↦ (err OrderCancellationError.market_does_not_exist, x)
          | some market ↦
              let cancellation = into_cancellation req order.pair order.side order.price in
              let (result, market') = Market.cancel_order cancellation market in
              (
                result,
                record x {
                  markets = put_market x.markets order.pair market';
                  session_orders =
                      write_order x.session_orders req.order_id (cancelled_if_ok result order);
                },
              )
        ]
  ]

  abbrev pub modified_if_ok :
      Result OrderModificationError (Unit {0}) → ℕ → PlacedOrder P → PlacedOrder P
  unfolding modified
  modified_if_ok (ok _) new_volume o = modified new_volume o
  modified_if_ok (err _) new_volume o = o

  unfoldable pub modify_order :
      OrderModificationRequest → Exchange P → Result OrderModificationError (Unit {0}) × Exchange P
  unfolding modified
  modify_order req x = elim (find_order x.session_orders req.order_id) [
    | none ↦ (err OrderModificationError.order_does_not_exist, x)
    | some order ↦
        if not (order.account_id == req.account_id)
        then (err OrderModificationError.unauthorized, x)
        else if is_filled order.status
        then (err OrderModificationError.already_filled, x)
        else if ltb order.volume req.new_volume
        then (err OrderModificationError.volume_not_lower, x)
        else elim (get_market x.markets order.pair) [
          | none ↦ (err OrderModificationError.market_does_not_exist, x)
          | some market ↦
              let modification =
                into_order_modification req order.pair order.side order.price order.volume in
              let (result, market') = Market.modify_order modification market in
              (
                result,
                record x {
                  markets = put_market x.markets order.pair market';
                  session_orders =
                      write_order x.session_orders req.order_id
                        (modified_if_ok result req.new_volume order);
                },
              )
        ]
  ]
