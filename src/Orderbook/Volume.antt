-- ===== src/Orderbook/Volume.antt =====
-- `enough_volume_fok` and `enough_volume_market` of src/orderbook.rs. Both loops run over the other
-- side by ascending price, whichever side that is. `available_volume` is a u32.
use market_sim_backend.Prelude.{
  ℕ, Bool, true, false, not, ◌&&◌, ◌||◌, Option, none, some, List, [], ◌∷◌, leb, if◌then◌else◌,
  add32, Result, ok, err,
}
use market_sim_backend.Fixed.{Fixed, price_lt}
use market_sim_backend.Errors.{OrderInsertionError}
use market_sim_backend.Order.{Side, is_bid, opposite}
use market_sim_backend.Orderbook.Types.{OrderbookEntry, Levels, Orderbook, book_side}

-- The loop over one queue: `none` if it returned `Ok`, else the volume seen so far.
unfoldable pub scan_orders : ℕ → ℕ → List OrderbookEntry → Option ℕ
scan_orders volume available [] = some available
scan_orders volume available (e ∷ es) =
    let available' = add32 available e.remaining_volume in
    let rest = scan_orders volume available' es in if leb volume available' then none else rest

module _ {P : Type 0} ⦃fx : Fixed P⦄ where
  -- `bid_price_too_high || ask_price_too_low`
  abbrev pub price_out_of_reach : Side → P → P → Bool
  price_out_of_reach side price level =
      (is_bid side && price_lt price level) || (not (is_bid side) && price_lt level price)

  unfoldable pub scan_levels_fok : Side → ℕ → P → ℕ → Levels P → Bool
  scan_levels_fok side volume price available [] = false
  scan_levels_fok side volume price available ((level, orders) ∷ t) =
      if price_out_of_reach side price level
      then false
      else elim (scan_orders volume available orders) [
        | none ↦ true
        | some available' ↦ scan_levels_fok side volume price available' t
      ]

  unfoldable pub enough_volume_fok :
      Side → ℕ → P → Orderbook P → Result OrderInsertionError (Unit {0})
  enough_volume_fok side volume price ob =
      if scan_levels_fok side volume price 0 (book_side ob (opposite side))
      then ok tt
      else err OrderInsertionError.order_killed

module _ {P : Type 0} where
  unfoldable pub scan_levels_market : ℕ → ℕ → Levels P → Bool
  scan_levels_market volume available [] = false
  scan_levels_market volume available ((level, orders) ∷ t) =
      elim (scan_orders volume available orders) [
        | none ↦ true
        | some available' ↦ scan_levels_market volume available' t
      ]

  unfoldable pub enough_volume_market :
      Side → ℕ → Orderbook P → Result OrderInsertionError (Unit {0})
  enough_volume_market side volume ob =
      if scan_levels_market volume 0 (book_side ob (opposite side))
      then ok tt
      else err OrderInsertionError.inadequate_volume
