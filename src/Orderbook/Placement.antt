-- ===== src/Orderbook/Placement.antt =====
-- `insert_limit_order_no_matching` of src/orderbook.rs, and what it leaves of the side that it enters.
use market_sim_backend.Prelude.{
  ◌+◌, ◌<◌, ◌≡◌, refl, Option, none, some, Option-cases, List, [], ◌∷◌, ◌++◌, length-append, All,
  All-append, inl, inr, arith,
}
use market_sim_backend.Fixed.{Fixed}
use market_sim_backend.Order.{Side, opposite, OrderInsertion}
use market_sim_backend.Orderbook.Types.{
  OrderbookEntry, entry_of, Levels, Orderbook, book_side, with_side,
}
use market_sim_backend.Orderbook.Levels.{level_at, put_level}
use market_sim_backend.Orderbook.Resting.{insert_limit_order_no_matching}
use market_sim_backend.Orderbook.Validity.{
  Positive, IsLive, IsSideValid, put_level-SortedBy, put_level-IsLive, level_at-IsLive,
}
use market_sim_backend.Orderbook.Measure.{
  queue_volume, queue_volume-append, found_volume, levels_volume, levels_volume-put_level,
}

abbrev pub queue_of : Option (List OrderbookEntry) → List OrderbookEntry
queue_of none = []
queue_of (some es) = es

queue_volume-queue_of :
    (o : Option (List OrderbookEntry)) → queue_volume (queue_of o) ≡ found_volume o
queue_volume-queue_of none = refl
queue_volume-queue_of (some es) = refl

module _ {P : Type 0} where
  pub book_side-with_side :
      (ob : Orderbook P) (side : Side) (l : Levels P) → book_side (with_side ob side l) side ≡ l
  book_side-with_side ob Side.bid l = refl
  book_side-with_side ob Side.ask l = refl

  pub book_side-with_side-opposite :
      (ob : Orderbook P) (side : Side) (l : Levels P)
      → book_side (with_side ob side l) (opposite side) ≡ book_side ob (opposite side)
  book_side-with_side-opposite ob Side.bid l = refl
  book_side-with_side-opposite ob Side.ask l = refl

module _ {P : Type 0} ⦃fx : Fixed P⦄ where
  -- A side with an entry at the back of the queue at a price.
  abbrev pub add_entry : Levels P → P → OrderbookEntry → Levels P
  add_entry levels p e = put_level levels p (queue_of (level_at levels p) ++ e ∷ [])

  pub insert_limit_order_no_matching_lem :
      (order : OrderInsertion P) (ob : Orderbook P)
      → insert_limit_order_no_matching order ob
        ≡ with_side ob order.side (add_entry (book_side ob order.side) order.price (entry_of order))
  unfolding insert_limit_order_no_matching
  insert_limit_order_no_matching_lem order ob =
      elim (Option-cases (level_at (book_side ob order.side) order.price)) [
        | inl e ↦ rw (e, insert_limit_order_no_matching)
        | inr (es, e) ↦ rw (e, insert_limit_order_no_matching)
      ]

  queue_of-Positive :
      (levels : Levels P) (p : P) → All IsLive levels → Positive (queue_of (level_at levels p))
  queue_of-Positive levels p h = elim (Option-cases (level_at levels p)) [
    | inl e ↦ rw e tt
    | inr (es, e) ↦ rw e (level_at-IsLive levels p es e h).1
  ]

  pub add_entry-IsSideValid :
      (levels : Levels P) (p : P) (e : OrderbookEntry)
      → 0 < e.remaining_volume
      → IsSideValid levels
      → IsSideValid (add_entry levels p e)
  add_entry-IsSideValid levels p e pos h =
      let q = queue_of (level_at levels p) in
      (
        put_level-SortedBy levels p (q ++ e ∷ []) h.0,
        put_level-IsLive levels p (q ++ e ∷ [])
            (
              omega (arith, length-append q (e ∷ [])),
              All-append (λ (x : OrderbookEntry). 0 < x.remaining_volume) q (e ∷ [])
                  (queue_of-Positive levels p h.1) (pos, tt),
            )
            h.1,
      )

  pub levels_volume-add_entry :
      (levels : Levels P) (p : P) (e : OrderbookEntry)
      → IsSideValid levels
      → levels_volume (add_entry levels p e) ≡ levels_volume levels + e.remaining_volume
  levels_volume-add_entry levels p e h =
      let q = queue_of (level_at levels p) in
      omega (
        arith,
        levels_volume-put_level levels p (q ++ e ∷ []) h.0,
        queue_volume-append q (e ∷ []),
        queue_volume-queue_of (level_at levels p),
      )
