-- ===== src/Exchange/Identity.antt =====
-- Order ids in src/exchange.rs: the vector `session_orders`, which is indexed by id in one place and
-- searched for the id in others.
use market_sim_backend.Prelude.{
  ℕ, zero, suc, ◌+◌, ◌≡◌, refl, ap, Bool-cases, false, leb, Option, none, some, Option-cases, List,
  [], ◌∷◌, ◌++◌, reverse, length, get_elem?, set, ◌==◌, Result, ok, err, inl, inr, arith,
}
use market_sim_backend.Fixed.{Fixed}
use market_sim_backend.Asset.{AssetIdPair}
use market_sim_backend.Errors.{OrderInsertionError, OrderCancellationError, OrderModificationError}
use market_sim_backend.Order.{
  PlacedOrder, OrderInsertion, OrderInsertionRequest, OrderCancellationRequest,
  OrderModificationRequest, from_insertion, into_insertion, into_cancellation,
  into_order_modification,
}
use market_sim_backend.Orderbook.Types.{ObTransaction, ObOrderInsertionEffects}
use market_sim_backend.BalanceBook.{get_disjoint}
use market_sim_backend.Market
use market_sim_backend.Market.{OrderInsertionEffects, get_market, put_market}
use market_sim_backend.Exchange.State.{Exchange, add_market}
use market_sim_backend.Exchange.Settle.{
  >>=-eq-some, two_orders, four_balances, settled, settle_one, settle_all, process_transactions,
}
use market_sim_backend.Exchange.Orders.{
  find_order, write_order, modified, cancelled_if_ok, modified_if_ok, place_order, insert_order,
  cancel_order, modify_order,
}
use market_sim_backend.Exchange.Commands.{Command, CommandResult, handle_command}
use market_sim_backend.Exchange.Conservation.{two_orders-some}

module _ {P : Type 0} where
  -- The ids count up from n, in the list and in the orders.
  abbrev pub Indexed : ℕ → List (ℕ × PlacedOrder P) → Type 0
  Indexed n [] = Unit
  Indexed n ((j, o) ∷ os) = (j ≡ n) × (o.id ≡ n) × Indexed (suc n) os

  Indexed-append :
      (n : ℕ) (xs : List (ℕ × PlacedOrder P)) (j : ℕ) (o : PlacedOrder P)
      → Indexed n xs
      → j ≡ n + length xs
      → o.id ≡ n + length xs
      → Indexed n (xs ++ (j, o) ∷ [])
  Indexed-append n [] j o h e f = (omega arith, omega arith, tt)
  Indexed-append n ((i, p) ∷ xs) j o h e f =
      (h.0, h.1, Indexed-append (suc n) xs j o h.2 (omega arith) (omega arith))

  Indexed-get_elem? :
      (n : ℕ) (xs : List (ℕ × PlacedOrder P)) (i : ℕ) (v : ℕ × PlacedOrder P)
      → Indexed n xs
      → get_elem? xs i ≡ some v
      → (v.0 ≡ n + i) × (v.1.id ≡ n + i)
  Indexed-get_elem? n [] i v h e = cc
  Indexed-get_elem? n ((j, o) ∷ xs) zero v h e = ground arith
  Indexed-get_elem? n ((j, o) ∷ xs) (suc i) v h e =
      let ih = Indexed-get_elem? (suc n) xs i v h.2 e in (omega (arith, ih.0), omega (arith, ih.1))

  Indexed-set :
      (n : ℕ) (xs : List (ℕ × PlacedOrder P)) (i : ℕ) (v : ℕ × PlacedOrder P)
      → Indexed n xs
      → v.0 ≡ n + i
      → v.1.id ≡ n + i
      → Indexed n (set xs i v)
  Indexed-set n [] i v h e f = tt
  Indexed-set n ((j, o) ∷ xs) zero v h e f = (omega arith, omega arith, h.2)
  Indexed-set n ((j, o) ∷ xs) (suc i) v h e f =
      (h.0, h.1, Indexed-set (suc n) xs i v h.2 (omega arith) (omega arith))

  find_order-id :
      (n : ℕ) (xs : List (ℕ × PlacedOrder P)) (id : ℕ) (o : PlacedOrder P)
      → Indexed n xs
      → find_order xs id ≡ some o
      → o.id ≡ id
  unfolding find_order
  find_order-id n [] id o h e = cc
  find_order-id n ((j, p) ∷ xs) id o h e = ground (arith, find_order-id (suc n) xs id o h.2)

  Indexed-write_order :
      (n : ℕ) (xs : List (ℕ × PlacedOrder P)) (id : ℕ) (o : PlacedOrder P)
      → Indexed n xs
      → o.id ≡ id
      → Indexed n (write_order xs id o)
  unfolding write_order
  Indexed-write_order n [] id o h e = tt
  Indexed-write_order n ((j, p) ∷ xs) id o h e =
      ground (arith, Indexed-write_order (suc n) xs id o h.2 e)

  -- Where the ids count up from n, looking up the id n + i gives the order that stands at index i, and
  -- finds nothing where the list has no such index.
  pub find_order-eq-get_elem? :
      (n : ℕ) (xs : List (ℕ × PlacedOrder P)) (i : ℕ)
      → Indexed n xs
      → find_order xs (n + i) ≡ elim (get_elem? xs i) [ none ↦ none | some v ↦ some v.1 ]
  unfolding find_order
  find_order-eq-get_elem? n [] i h = refl
  find_order-eq-get_elem? n ((j, o) ∷ xs) zero h = ground arith
  find_order-eq-get_elem? n ((j, o) ∷ xs) (suc i) h =
      let shift : n + suc i ≡ suc n + i = omega arith in
      let other : (j == suc n + i) ≡ false = ground arith in
      rw (shift, other) (find_order-eq-get_elem? (suc n) xs i h.2)

module _ {P : Type 0} ⦃fx : Fixed P⦄ where
  settle_all-Indexed :
      (clock : ℕ → ℕ) (pair : AssetIdPair) (ts : List (ObTransaction P)) (x x' : Exchange P)
      → Indexed 0 x.session_orders
      → settle_all clock pair ts x ≡ some x'
      → Indexed 0 x'.session_orders
  unfolding settle_all settle_one settled
  settle_all-Indexed clock pair [] x x' h e = let same : x ≡ x' = cc e in rw (← same) h
  settle_all-Indexed clock pair (t ∷ ts) x x' h e =
      let (y, e1, f) = >>=-eq-some (settle_one clock pair t x) _ e in
      let ((maker, taker), e2, g) =
        >>=-eq-some (two_orders x.session_orders t.order_id_maker t.order_id_taker) _ e1 in
      let (indices, e3, k) =
        >>=-eq-some (get_disjoint x.balance_book (four_balances pair (maker, taker))) _ g in
      let (got_maker, got_taker) = two_orders-some x.session_orders _ _ maker taker e2 in
      let m = Indexed-get_elem? 0 x.session_orders t.order_id_maker maker h got_maker in
      let n = Indexed-get_elem? 0 x.session_orders t.order_id_taker taker h got_taker in
      let same : settled clock pair t (maker, taker) indices x ≡ y = cc k in
      settle_all-Indexed clock pair ts y x'
        (rw (← same) (
          Indexed-set 0 _ t.order_id_taker _
            (Indexed-set 0 x.session_orders t.order_id_maker _ h m.0 m.1) n.0 n.1))
        f

  place_order-Indexed :
      (clock : ℕ → ℕ) (o : OrderInsertion P)
      (r : Result OrderInsertionError (ObOrderInsertionEffects P)) (x : Exchange P)
      (done : Result OrderInsertionError OrderInsertionEffects × Exchange P)
      → Indexed 0 x.session_orders
      → o.id ≡ length x.session_orders
      → place_order clock o r x ≡ some done
      → Indexed 0 done.1.session_orders
  unfolding place_order process_transactions
  place_order-Indexed clock o (err z) x done h i e =
      let same : (err z, x) ≡ done = cc e in rw (← same) h
  place_order-Indexed clock o (ok effects) x done h i e =
      let y = record x {
        session_orders = x.session_orders ++ (o.id, from_insertion o) ∷ [];
        transaction_buf = [];
      } in
      let (x', e1, f) = >>=-eq-some (settle_all clock o.pair (reverse x.transaction_buf) y) _ e in
      let same =
        ap
          (λ (d : Option (Result OrderInsertionError OrderInsertionEffects × Exchange P)). elim d [
            | none ↦ x
            | some d' ↦ d'.1
          ])
          f in
      rw (← same) (
        settle_all-Indexed clock o.pair (reverse x.transaction_buf) y x'
          (Indexed-append 0 x.session_orders o.id (from_insertion o) h (omega arith) (omega arith))
          e1)

  insert_order-Indexed :
      (clock : ℕ → ℕ) (req : OrderInsertionRequest P) (x : Exchange P)
      (done : Result OrderInsertionError OrderInsertionEffects × Exchange P)
      → Indexed 0 x.session_orders
      → insert_order clock req x ≡ some done
      → Indexed 0 done.1.session_orders
  unfolding insert_order
  insert_order-Indexed clock req x done h e = elim (Option-cases (get_market x.markets req.pair)) [
    | inl m ↦
        let e' = rw (m, insert_order) at e in let same : x ≡ done.1 = ground arith in rw (← same) h
    | inr (market, m) ↦ elim (Bool-cases (leb (length x.accounts) req.account_id)) [
      | inl absent ↦
          let e' = rw (m, absent, insert_order) at e in
          let same : x ≡ done.1 = ground arith in rw (← same) h
      | inr known ↦
          let insertion = into_insertion req (length x.session_orders) in
          let r = Market.insert_order insertion market x.transaction_buf in
          place_order-Indexed clock insertion r.0
            (record x { markets = put_market x.markets req.pair r.1; transaction_buf = r.2 }) done h
            refl (rw (m, insert_order, known) at e)
    ]
  ]

  cancelled_if_ok-id :
      (r : Result OrderCancellationError (Unit {0})) (o : PlacedOrder P)
      → (cancelled_if_ok r o).id ≡ o.id
  cancelled_if_ok-id (ok u) o = refl
  cancelled_if_ok-id (err z) o = refl

  modified_if_ok-id :
      (r : Result OrderModificationError (Unit {0})) (n : ℕ) (o : PlacedOrder P)
      → (modified_if_ok r n o).id ≡ o.id
  unfolding modified
  modified_if_ok-id (ok u) n o = ground arith
  modified_if_ok-id (err z) n o = refl

  add_market-Indexed :
      (pair : AssetIdPair) (x : Exchange P)
      → Indexed 0 x.session_orders
      → Indexed 0 (add_market pair x).1.session_orders
  unfolding add_market
  add_market-Indexed pair x h = ground arith

  cancel_order-Indexed :
      (req : OrderCancellationRequest) (x : Exchange P)
      → Indexed 0 x.session_orders
      → Indexed 0 (cancel_order req x).1.session_orders
  unfolding cancel_order
  cancel_order-Indexed req x h = elim (Option-cases (find_order x.session_orders req.order_id)) [
    | inl e ↦ rw (e, cancel_order) h
    | inr (order, e) ↦ elim (Option-cases (get_market x.markets order.pair)) [
      | inl m ↦ ground arith
      | inr (market, m) ↦
          let c = into_cancellation req order.pair order.side order.price in
          let o' = cancelled_if_ok (Market.cancel_order c market).0 order in
          let same_id = cancelled_if_ok-id (Market.cancel_order c market).0 order in
          ground (
            arith,
            Indexed-write_order 0 x.session_orders req.order_id o' h,
            same_id,
            find_order-id 0 x.session_orders req.order_id order h e,
          )
    ]
  ]

  modify_order-Indexed :
      (req : OrderModificationRequest) (x : Exchange P)
      → Indexed 0 x.session_orders
      → Indexed 0 (modify_order req x).1.session_orders
  unfolding modify_order
  modify_order-Indexed req x h = elim (Option-cases (find_order x.session_orders req.order_id)) [
    | inl e ↦ rw (e, modify_order) h
    | inr (order, e) ↦ elim (Option-cases (get_market x.markets order.pair)) [
      | inl m ↦ ground arith
      | inr (market, m) ↦
          let c = into_order_modification req order.pair order.side order.price order.volume in
          let o' = modified_if_ok (Market.modify_order c market).0 req.new_volume order in
          let same_id = modified_if_ok-id (Market.modify_order c market).0 req.new_volume order in
          ground (
            arith,
            Indexed-write_order 0 x.session_orders req.order_id o' h,
            same_id,
            find_order-id 0 x.session_orders req.order_id order h e,
          )
    ]
  ]

  -- If the ids of the orders count up from 0, in the list and in the orders, then they do so after any
  -- command that is handled without a panic.
  pub handle_command-Indexed :
      (clock : ℕ → ℕ) (c : Command P) (x : Exchange P) (reply : CommandResult P) (x' : Exchange P)
      → Indexed 0 x.session_orders
      → handle_command clock c x ≡ some (reply, x')
      → Indexed 0 x'.session_orders
  unfolding handle_command
  handle_command-Indexed clock (Command.order_insert req) x reply x' h e =
      let (done, e1, f) = >>=-eq-some (insert_order clock req x) _ e in
      let same : done.1 ≡ x' = cc f in rw (← same) (insert_order-Indexed clock req x done h e1)
  handle_command-Indexed clock (Command.order_cancel req) x reply x' h e =
      let same : (cancel_order req x).1 ≡ x' = cc e in rw (← same) (cancel_order-Indexed req x h)
  handle_command-Indexed clock (Command.order_modify req) x reply x' h e =
      let same : (modify_order req x).1 ≡ x' = cc e in rw (← same) (modify_order-Indexed req x h)
  handle_command-Indexed clock (Command.add_market_command pair) x reply x' h e =
      let same : (add_market pair x).1 ≡ x' = cc e in rw (← same) (add_market-Indexed pair x h)
  handle_command-Indexed clock _ x reply x' h e = let same : x ≡ x' = cc e in rw (← same) h
