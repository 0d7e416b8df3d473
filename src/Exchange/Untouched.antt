-- ===== src/Exchange/Untouched.antt =====
-- The markets while src/exchange.rs places an order and settles its transactions.
use market_sim_backend.Prelude.{
  ℕ, ◌≡◌, refl, ap, sym, ◌∙◌, Option, none, some, List, [], ◌∷◌, ◌++◌, reverse, Result, ok, err,
}
use market_sim_backend.Fixed.{Fixed}
use market_sim_backend.Asset.{AssetIdPair}
use market_sim_backend.Errors.{OrderInsertionError}
use market_sim_backend.Order.{OrderInsertion, from_insertion}
use market_sim_backend.Orderbook.Types.{ObTransaction, ObOrderInsertionEffects}
use market_sim_backend.BalanceBook.{get_disjoint}
use market_sim_backend.Market.{OrderInsertionEffects}
use market_sim_backend.Exchange.State.{Exchange}
use market_sim_backend.Exchange.Settle.{
  >>=-eq-some, two_orders, four_balances, settled, settle_one, settle_all, process_transactions,
}
use market_sim_backend.Exchange.Orders.{place_order}

module _ {P : Type 0} ⦃fx : Fixed P⦄ where
  settle_all-markets :
      (clock : ℕ → ℕ) (pair : AssetIdPair) (ts : List (ObTransaction P)) (x x' : Exchange P)
      → settle_all clock pair ts x ≡ some x'
      → x'.markets ≡ x.markets
  unfolding settle_all settle_one settled
  settle_all-markets clock pair [] x x' e = let same : x ≡ x' = cc e in rw (← same) refl
  settle_all-markets clock pair (t ∷ ts) x x' e =
      let (y, e1, f) = >>=-eq-some (settle_one clock pair t x) _ e in
      let (found, e2, g) =
        >>=-eq-some (two_orders x.session_orders t.order_id_maker t.order_id_taker) _ e1 in
      let (indices, e3, k) =
        >>=-eq-some (get_disjoint x.balance_book (four_balances pair found)) _ g in
      let same : settled clock pair t found indices x ≡ y = cc k in
      settle_all-markets clock pair ts y x' f ∙ sym (ap (λ (z : Exchange P). z.markets) same)

  pub place_order-markets :
      (clock : ℕ → ℕ) (o : OrderInsertion P) (effects : ObOrderInsertionEffects P) (x : Exchange P)
      (done : Result OrderInsertionError OrderInsertionEffects × Exchange P)
      → place_order clock o (ok effects) x ≡ some done
      → done.1.markets ≡ x.markets
  unfolding place_order process_transactions
  place_order-markets clock o effects x done e =
      let y = record x {
        session_orders = x.session_orders ++ (o.id, from_insertion o) ∷ [];
        transaction_buf = [];
      } in
      let (x', e1, f) = >>=-eq-some (settle_all clock o.pair (reverse x.transaction_buf) y) _ e in
      let same =
        ap
          (λ (d : Option (Result OrderInsertionError OrderInsertionEffects × Exchange P)). elim d [
            | none ↦ x
            | some d' ↦ d'.1
          ])
          f in
      sym (ap (λ (z : Exchange P). z.markets) same)
      ∙ settle_all-markets clock o.pair (reverse x.transaction_buf) y x' e1

  pub place_order_refused :
      (clock : ℕ → ℕ) (o : OrderInsertion P) (z : OrderInsertionError) (x : Exchange P)
      (done : Result OrderInsertionError OrderInsertionEffects × Exchange P)
      → place_order clock o (err z) x ≡ some done
      → (err z, x) ≡ done
  unfolding place_order
  place_order_refused clock o z x done e = cc e
