-- ===== src/Orderbook/Rejection.antt =====
-- `insert_order` of src/orderbook.rs where it refuses the order.
use market_sim_backend.Prelude.{
  ℕ, ◌-◌, ◌≡◌, ◌≢◌, ap, sym, min, Result-cases, true, false, none, List, ◌∷◌, err, inl, inr, arith,
}
use market_sim_backend.Fixed.{Fixed, price_lt}
use market_sim_backend.Errors.{OrderInsertionError}
use market_sim_backend.Order.{OrderType, Side, opposite, OrderInsertion}
use market_sim_backend.Orderbook.Types.{OrderbookEntry, ObTransaction, Levels, Orderbook, book_side}
use market_sim_backend.Orderbook.Volume.{enough_volume_fok, scan_levels_fok}
use market_sim_backend.Orderbook.Matching.{
  LevelsMatch, walk_order, check_volume, match_queue, match_levels, finish, insert_order,
}

module _ {P : Type 0} ⦃fx : Fixed P⦄ where
  finish_keeps :
      (order : OrderInsertion P) (ob : Orderbook P) (m : LevelsMatch P) (x : OrderInsertionError)
      (ob' : Orderbook P) (buf' : List (ObTransaction P))
      → finish order ob m ≡ (err x, ob', buf')
      → x ≡ OrderInsertionError.self_trade
  unfolding finish
  finish_keeps order ob (LevelsMatch.self_trade levels b) x ob' buf' e = cc (ap (λ t. t.0) e)
  finish_keeps order ob (LevelsMatch.matched levels rem last d b) x ob' buf' e =
      absurd (ground (arith, ap (λ t. t.0) e))

  -- An insertion that is refused for any reason but a self-trade has changed neither the book nor the
  -- buffer of transactions.
  pub refused_keeps :
      (order : OrderInsertion P) (ob : Orderbook P) (buf : List (ObTransaction P))
      (x : OrderInsertionError) (ob' : Orderbook P) (buf' : List (ObTransaction P))
      → insert_order order ob buf ≡ (err x, ob', buf')
      → x ≢ OrderInsertionError.self_trade
      → (ob' ≡ ob) × (buf' ≡ buf)
  unfolding insert_order
  refused_keeps order ob buf x ob' buf' e n =
      let s = opposite order.side in
      let walk = walk_order s (book_side ob s) in
      elim (Result-cases (check_volume order ob)) [
        | inl (u, c) ↦ absurd (
            n (
              finish_keeps order ob (match_levels order order.volume none 0 walk buf) x ob' buf'
                (rw (c, insert_order) at e)))
        | inr (y, c) ↦
            let killed = rw (c, insert_order) at e in
            (ap (λ t. t.1) (sym killed), ap (λ t. t.2) (sym killed))
      ]

  -- A limit bid whose price reaches the lowest ask, where an order of its own account is first in the
  -- queue, is refused, and has taken its volume off that ask all the same: the volume is lost without a
  -- transaction, and the ask stays in the book, with volume 0 if the bid's was not smaller.
  pub self_trade_takes_volume :
      (order : OrderInsertion P) (ob : Orderbook P) (buf : List (ObTransaction P)) (p : P)
      (e : OrderbookEntry) (es : List OrderbookEntry) (t : Levels P)
      → order.order_type ≡ OrderType.limit
      → order.side ≡ Side.bid
      → ob.asks ≡ (p, e ∷ es) ∷ t
      → price_lt order.price p ≡ false
      → order.account_id ≡ e.account_id
      → insert_order order ob buf ≡ (
        err OrderInsertionError.self_trade,
        record ob {
          asks =
              (
                p,
                record e {
                  remaining_volume = e.remaining_volume - min order.volume e.remaining_volume;
                }
                    ∷ es,
              )
              ∷ t;
        },
        buf,
      )
  unfolding insert_order check_volume match_levels match_queue finish
  self_trade_takes_volume order ob buf p e es t ot os asks near same = ground arith

  -- A FillOrKill ask is found to lack volume whenever the lowest bid is below its price, whatever the
  -- higher bids offer.
  pub enough_volume_fok_ask_killed :
      (ob : Orderbook P) (volume : ℕ) (price p : P) (es : List OrderbookEntry) (t : Levels P)
      → ob.bids ≡ (p, es) ∷ t
      → price_lt p price ≡ true
      → enough_volume_fok Side.ask volume price ob ≡ err OrderInsertionError.order_killed
  unfolding enough_volume_fok scan_levels_fok
  enough_volume_fok_ask_killed ob volume price p es t bids low = ground arith
