-- ===== src/Orderbook/Levels.antt =====
-- The operations of `BTreeMap` that src/orderbook.rs calls, on the list of its entries by ascending
-- key.
use market_sim_backend.Prelude.{Option, none, some, List, [], ◌∷◌, if◌then◌else◌}
use market_sim_backend.Fixed.{Fixed, price_lt, price_eq}
use market_sim_backend.Orderbook.Types.{OrderbookEntry, Levels}

module _ {P : Type 0} ⦃fx : Fixed P⦄ where
  -- `get`
  unfoldable pub level_at : Levels P → P → Option (List OrderbookEntry)
  level_at [] p = none
  level_at ((q, w) ∷ t) p = if price_eq q p then some w else level_at t p

  -- `insert`, and a write through `get_mut`
  unfoldable pub put_level : Levels P → P → List OrderbookEntry → Levels P
  put_level [] p v = (p, v) ∷ []
  put_level ((q, w) ∷ t) p v =
      if price_eq q p
      then (q, v) ∷ t
      else if price_lt p q
      then (p, v) ∷ (q, w) ∷ t
      else (q, w) ∷ put_level t p v

  -- `remove`
  unfoldable pub remove_level : Levels P → P → Levels P
  remove_level [] p = []
  remove_level ((q, w) ∷ t) p = if price_eq q p then t else (q, w) ∷ remove_level t p
