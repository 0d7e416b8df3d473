-- ===== src/Orderbook/Resting.antt =====
-- `insert_limit_order_no_matching`, `cancel_order` and `modify_order` of src/orderbook.rs: the calls
-- that place, remove and shrink a resting order.
use market_sim_backend.Prelude.{
  ℕ, ◌+◌, Option, none, some, List, [], ◌∷◌, ◌++◌, erase_idx, leb, ◌==◌, if◌then◌else◌, sub32,
  Result, ok, err,
}
use market_sim_backend.Fixed.{Fixed}
use market_sim_backend.Errors.{OrderCancellationError, OrderModificationError}
use market_sim_backend.Order.{OrderInsertion, OrderCancellation, OrderModification}
use market_sim_backend.Orderbook.Types.{
  OrderbookEntry, entry_of, Levels, Orderbook, book_side, with_side,
}
use market_sim_backend.Orderbook.Levels.{level_at, put_level, remove_level}

-- The loop of `cancel_order`: it does not stop at a match, so the last one counts.
unfoldable pub find_last : ℕ → ℕ → Option ℕ → List OrderbookEntry → Option ℕ
find_last id i index [] = index
find_last id i index (e ∷ es) = find_last id (i + 1) (if e.order_id == id then some i else index) es

-- How the loop of `modify_order` ends: the entry was reduced in place, or it is to be removed, or no
-- entry has the id.
pub data ModifyScan : Type 0 where
  reduced : List OrderbookEntry → ModifyScan
  remove_index : ℕ → ModifyScan
  absent : ModifyScan

-- What the loop has seen of an entry stays in front of the rest.
abbrev pub behind : OrderbookEntry → ModifyScan → ModifyScan
behind e (reduced es) = reduced (e ∷ es)
behind e (remove_index i) = remove_index i
behind e absent = absent

unfoldable pub scan_modify : ℕ → ℕ → ℕ → List OrderbookEntry → ModifyScan
scan_modify id reduction i [] = absent
scan_modify id reduction i (e ∷ es) =
    if e.order_id == id
    then if leb e.remaining_volume reduction
      then remove_index i
      else reduced (record e { remaining_volume = sub32 e.remaining_volume reduction } ∷ es)
    else behind e (scan_modify id reduction (i + 1) es)

module _ {P : Type 0} ⦃fx : Fixed P⦄ where
  unfoldable pub insert_limit_order_no_matching : OrderInsertion P → Orderbook P → Orderbook P
  insert_limit_order_no_matching order ob =
      let side = book_side ob order.side in
      elim (level_at side order.price) [
        | none ↦ with_side ob order.side (put_level side order.price (entry_of order ∷ []))
        | some orders ↦
            with_side ob order.side (put_level side order.price (orders ++ entry_of order ∷ []))
      ]

  -- `orders.remove(index)`, and the whole price level with it if that leaves it empty.
  unfoldable pub remove_order : Levels P → P → List OrderbookEntry → ℕ → Levels P
  remove_order side price orders index = elim (erase_idx orders index) [
    | [] ↦ remove_level (put_level side price []) price
    | e ∷ es ↦ put_level side price (e ∷ es)
  ]

  unfoldable pub cancel_order :
      OrderCancellation P → Orderbook P → Result OrderCancellationError (Unit {0}) × Orderbook P
  unfolding find_last remove_order
  cancel_order c ob =
      let side = book_side ob c.side in
      elim (level_at side c.price) [
        | none ↦ (err OrderCancellationError.already_filled, ob)
        | some orders ↦ elim (find_last c.order_id 0 none orders) [
          | none ↦ (err OrderCancellationError.already_filled, ob)
          | some index ↦ (ok tt, with_side ob c.side (remove_order side c.price orders index))
        ]
      ]

  unfoldable pub modify_order :
      OrderModification P → Orderbook P → Result OrderModificationError (Unit {0}) × Orderbook P
  unfolding scan_modify remove_order
  modify_order m ob =
      let side = book_side ob m.side in
      elim (level_at side m.price) [
        | none ↦ (err OrderModificationError.order_not_found, ob)
        | some orders ↦ elim (scan_modify m.order_id m.volume_reduction 0 orders) [
          | absent ↦ (err OrderModificationError.order_not_found, ob)
          | reduced orders' ↦ (ok tt, with_side ob m.side (put_level side m.price orders'))
          | remove_index idx ↦ (ok tt, with_side ob m.side (remove_order side m.price orders idx))
        ]
      ]
