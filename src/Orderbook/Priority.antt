-- ===== src/Orderbook/Priority.antt =====
-- `insert_order` of src/orderbook.rs against a plain walk over the orders of the other side.
use market_sim_backend.Prelude.{
  ℕ, ◌<◌, ◌≡◌, ap, ◌∙◌, Result-cases, Option, none, List, ◌++◌, drop, ok, inl, inr, arith,
}
use market_sim_backend.Fixed.{Fixed}
use market_sim_backend.Order.{opposite, OrderInsertion}
use market_sim_backend.Orderbook.Types.{
  ObTransaction, ObOrderInsertionEffects, Levels, Orderbook, book_side, with_side,
}
use market_sim_backend.Orderbook.Matching.{
  LevelsMatch, walk_order, check_volume, match_levels, rest_order, finish, insert_order,
}
use market_sim_backend.Orderbook.Validity.{IsLive, IsValid}
use market_sim_backend.Orderbook.Walk.{LevelsDone, match_levels-LevelsDone}
use market_sim_backend.Orderbook.Trim.{All-walk_order}
use market_sim_backend.Orderbook.Placement.{book_side-with_side}
use market_sim_backend.Orderbook.Insertion.{book_side-IsSideValid, rest_order_lem}
use market_sim_backend.Orderbook.Flat.{
  flatten, priority, fill_flat, flatten-drop, walk_order-walk_order, priority-walk_order,
  LevelsFlat, match_levels-LevelsFlat,
}

module _ {P : Type 0} ⦃fx : Fixed P⦄ where
  matched-flat :
      (order : OrderInsertion P) (ob : Orderbook P) (buf : List (ObTransaction P))
      (levels : Levels P) (remaining : ℕ) (last : Option P) (d : ℕ) (b : List (ObTransaction P))
      → let s = opposite order.side in
        let walk = walk_order s (book_side ob s) in
        let m = LevelsMatch.matched levels remaining last d b in
        LevelsDone order order.volume 0 walk buf m
        → LevelsFlat order order.volume walk buf m
        → let (effects, ob') =
            rest_order order remaining last (with_side ob s (walk_order s (drop d levels))) in
          (b ≡ buf ++ (fill_flat order order.volume (flatten walk)).0)
          × (priority s (book_side ob' s) ≡ (fill_flat order order.volume (flatten walk)).1)
  matched-flat order ob buf levels remaining last d b done flat =
      let s = opposite order.side in
      let left = walk_order s (drop d levels) in
      let r = rest_order_lem order remaining last (with_side ob s left) in
      let same : d ≡ done.0 = omega (arith, done.1) in
      (
        flat.0,
        ap (priority s) (r.0 ∙ book_side-with_side ob s left)
            ∙ priority-walk_order s left
            ∙ ap flatten (walk_order-walk_order s (drop d levels))
            ∙ ap (λ (n : ℕ). flatten (drop n levels)) same
            ∙ flatten-drop done.0 levels done.2
            ∙ flat.1,
      )

  finish-flat :
      (order : OrderInsertion P) (ob : Orderbook P) (buf : List (ObTransaction P))
      (m : LevelsMatch P) (effects : ObOrderInsertionEffects P) (ob' : Orderbook P)
      (buf' : List (ObTransaction P))
      → let s = opposite order.side in
        let walk = walk_order s (book_side ob s) in
        LevelsDone order order.volume 0 walk buf m
        → LevelsFlat order order.volume walk buf m
        → finish order ob m ≡ (ok effects, ob', buf')
        → (buf' ≡ buf ++ (fill_flat order order.volume (flatten walk)).0)
          × (priority s (book_side ob' s) ≡ (fill_flat order order.volume (flatten walk)).1)
  unfolding finish
  finish-flat order ob buf (LevelsMatch.self_trade levels b) effects ob' buf' done flat e =
      absurd (ground (arith, ap (λ t. t.0) e))
  finish-flat order ob buf (LevelsMatch.matched levels remaining last d b) effects ob' buf' done
        flat e =
      let same_book = ap (λ t. t.1) e in
      let same_buf : b ≡ buf' = ap (λ t. t.2) e in
      rw (← same_book, ← same_buf) (matched-flat order ob buf levels remaining last d b done flat)

  -- An order with a positive volume that a valid book accepts is matched by price-time priority: the
  -- transactions appended, and the orders left on the other side, are those of a walk over the
  -- resting orders of that side one by one, best price first and first come first served at each
  -- price, which takes from each what it can until the order is filled or the next price is not
  -- acceptable.
  pub insert_order-fill_flat :
      (order : OrderInsertion P) (ob : Orderbook P) (buf : List (ObTransaction P))
      (effects : ObOrderInsertionEffects P) (ob' : Orderbook P) (buf' : List (ObTransaction P))
      → IsValid ob
      → 0 < order.volume
      → insert_order order ob buf ≡ (ok effects, ob', buf')
      → let s = opposite order.side in
        let filled = fill_flat order order.volume (priority s (book_side ob s)) in
        (buf' ≡ buf ++ filled.0) × (priority s (book_side ob' s) ≡ filled.1)
  unfolding insert_order
  insert_order-fill_flat order ob buf effects ob' buf' v l e =
      let s = opposite order.side in
      let walk = walk_order s (book_side ob s) in
      let live = All-walk_order IsLive s (book_side ob s) (book_side-IsSideValid ob s v).1 in
      elim (Result-cases (check_volume order ob)) [
        | inl (_, c) ↦ rw (priority-walk_order s (book_side ob s)) (
            finish-flat order ob buf (match_levels order order.volume none 0 walk buf) effects ob'
              buf' (match_levels-LevelsDone order order.volume none 0 walk buf live)
              (match_levels-LevelsFlat order order.volume none 0 walk buf live l)
              (rw (c, insert_order) at e))
        | inr (x, c) ↦
            let killed = rw (c, insert_order) at e in absurd (ground (arith, ap (λ t. t.0) killed))
      ]
