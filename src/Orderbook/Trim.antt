-- ===== src/Orderbook/Trim.antt =====
-- From the walk back to the side of the book: the levels that are left after the emptied ones have been
-- popped.
use market_sim_backend.Prelude.{ℕ, ◌≡◌, refl, true, List, [], ◌∷◌, drop, All, All-drop, arith}
use market_sim_backend.Fixed.{Fixed}
use market_sim_backend.Order.{Side, opposite, OrderInsertion}
use market_sim_backend.Orderbook.Types.{Levels}
use market_sim_backend.Orderbook.Matching.{walk_order, stops_at}
use market_sim_backend.Orderbook.Measure.{levels_volume, levels_volume-reverse}
use market_sim_backend.Orderbook.Validity.{
  keys, keys-drop, keys-reverse, SortedBy, SortedBy-drop, SortedBy-reverse, IsLive, IsSideValid,
  Below, All-reverse,
}
use market_sim_backend.Orderbook.Walk.{StopsAtHead}

module _ {P : Type 0} where
  pub levels_volume-walk_order :
      (side : Side) (levels : Levels P)
      → levels_volume (walk_order side levels) ≡ levels_volume levels
  levels_volume-walk_order Side.ask levels = refl
  levels_volume-walk_order Side.bid levels = levels_volume-reverse levels

  pub All-walk_order {κ} :
      (Q : P × List _ → Type κ) (side : Side) (levels : Levels P)
      → All Q levels
      → All Q (walk_order side levels)
  All-walk_order Q Side.ask levels h = h
  All-walk_order Q Side.bid levels h = All-reverse Q levels h

  pub All-keys-walk_order {κ} :
      (Q : P → Type κ) (side : Side) (levels : Levels P)
      → All Q (keys levels)
      → All Q (keys (walk_order side levels))
  All-keys-walk_order Q Side.ask levels h = h
  All-keys-walk_order Q Side.bid levels h = rw (keys-reverse levels) (All-reverse Q (keys levels) h)

  -- What holds of every price of a side holds of every price that is left.
  pub All-keys-trim {κ} :
      (Q : P → Type κ) (side : Side) (levels levels' : Levels P) (d : ℕ)
      → keys levels' ≡ keys (walk_order side levels)
      → All Q (keys levels)
      → All Q (keys (walk_order side (drop d levels')))
  All-keys-trim Q side levels levels' d e h = All-keys-walk_order Q side (drop d levels') (
      rw (keys-drop d levels', e)
        (All-drop Q d (keys (walk_order side levels)) (All-keys-walk_order Q side levels h)))

module _ {P : Type 0} ⦃fx : Fixed P⦄ where
  -- The order of the prices along a walk.
  abbrev pub Ahead : Side → P → P → Type 0
  Ahead Side.ask p q = Below p q
  Ahead Side.bid p q = Below q p

  pub walk_order-SortedBy :
      (side : Side) (levels : Levels P)
      → SortedBy Below (keys levels)
      → SortedBy (Ahead side) (keys (walk_order side levels))
  walk_order-SortedBy Side.ask levels h = h
  walk_order-SortedBy Side.bid levels h =
      rw (keys-reverse levels) (SortedBy-reverse Below (keys levels) h)

  pub unwalk-SortedBy :
      (side : Side) (levels : Levels P)
      → SortedBy (Ahead side) (keys levels)
      → SortedBy Below (keys (walk_order side levels))
  unwalk-SortedBy Side.ask levels h = h
  unwalk-SortedBy Side.bid levels h =
      rw (keys-reverse levels) (SortedBy-reverse (Ahead Side.bid) (keys levels) h)

  -- Prices that are left are sorted along the walk.
  pub trim-SortedBy :
      (side : Side) (levels levels' : Levels P) (d : ℕ)
      → keys levels' ≡ keys (walk_order side levels)
      → SortedBy Below (keys levels)
      → SortedBy (Ahead side) (keys (drop d levels'))
  trim-SortedBy side levels levels' d e h =
      rw (keys-drop d levels', e)
        (SortedBy-drop (Ahead side) d (keys (walk_order side levels))
          (walk_order-SortedBy side levels h))

  pub trim-IsSideValid :
      (side : Side) (levels levels' : Levels P) (d : ℕ)
      → keys levels' ≡ keys (walk_order side levels)
      → All IsLive (drop d levels')
      → IsSideValid levels
      → IsSideValid (walk_order side (drop d levels'))
  trim-IsSideValid side levels levels' d e l h = (
    unwalk-SortedBy side (drop d levels') (trim-SortedBy side levels levels' d e h.0),
    All-walk_order IsLive side (drop d levels') l,
  )

  -- The order accepts a price of the other side only if it would trade at it.
  abbrev pub OutOfReach : OrderInsertion P → P → Type 0
  OutOfReach order q = stops_at order q ≡ true

  OutOfReach-Ahead :
      (order : OrderInsertion P) (p : P) (ps : List P)
      → OutOfReach order p
      → All (λ q. Ahead (opposite order.side) p q) ps
      → All (OutOfReach order) ps
  OutOfReach-Ahead order p [] h a = tt
  OutOfReach-Ahead order p (q ∷ ps) h a = (ground arith, OutOfReach-Ahead order p ps h a.1)

  -- A walk that stops at a level would stop at all that follow.
  pub StopsAtHead-OutOfReach :
      (order : OrderInsertion P) (levels : Levels P)
      → SortedBy (Ahead (opposite order.side)) (keys levels)
      → StopsAtHead order levels
      → All (OutOfReach order) (keys levels)
  StopsAtHead-OutOfReach order [] s h = tt
  StopsAtHead-OutOfReach order ((p, es) ∷ t) s h = (h, OutOfReach-Ahead order p (keys t) h s.0)
