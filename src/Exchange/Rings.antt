-- ===== src/Exchange/Rings.antt =====
-- The ring buffer of the last transactions of src/exchange.rs, under its commands.
use market_sim_backend.Prelude.{
  ℕ, ◌≡◌, some, Option-cases, Bool-cases, List, [], ◌∷◌, ◌++◌, reverse, length, leb, Result, ok,
  err, inl, inr, arith,
}
use market_sim_backend.Fixed.{Fixed}
use market_sim_backend.Asset.{AssetIdPair}
use market_sim_backend.Errors.{OrderInsertionError}
use market_sim_backend.Order.{OrderInsertion, OrderInsertionRequest, from_insertion, into_insertion}
use market_sim_backend.Orderbook.Types.{ObTransaction, ObOrderInsertionEffects}
use market_sim_backend.BalanceBook.{get_disjoint}
use market_sim_backend.RecentTransactions.{get, push, checked_get, checked_push}
use market_sim_backend.RecentTransactions.Ring.{
  IsRing, push-IsRing, checked_get-IsRing, checked_push-IsRing,
}
use market_sim_backend.Market
use market_sim_backend.Market.{Market, OrderInsertionEffects, get_market, put_market}
use market_sim_backend.Exchange.State.{Transaction, Exchange, add_market}
use market_sim_backend.Exchange.Settle.{
  >>=-eq-some, two_orders, four_balances, settled, settle_one, settle_all, process_transactions,
}
use market_sim_backend.Exchange.Orders.{place_order, insert_order, cancel_order, modify_order}
use market_sim_backend.Exchange.Commands.{
  Command, CommandResult, handle_command, run_buffer, run_messages,
}

module _ {P : Type 0} ⦃fx : Fixed P⦄ (clock : ℕ → ℕ) where
  abbrev HasRing : Exchange P → Type 0
  HasRing x = IsRing x.last_100_tx

  settle_one-HasRing :
      (pair : AssetIdPair) (t : ObTransaction P) (x y : Exchange P)
      → HasRing x
      → settle_one clock pair t x ≡ some y
      → HasRing y
  unfolding settle_one settled
  settle_one-HasRing pair t x y h e =
      let (found, e1, f) =
        >>=-eq-some (two_orders x.session_orders t.order_id_maker t.order_id_taker) _ e in
      let (indices, e2, g) =
        >>=-eq-some (get_disjoint x.balance_book (four_balances pair found)) _ f in
      let same : settled clock pair t found indices x ≡ y = cc g in
      rw (← same) (push-IsRing x.last_100_tx _ h)

  settle_all-HasRing :
      (pair : AssetIdPair) (ts : List (ObTransaction P)) (x x' : Exchange P)
      → HasRing x
      → settle_all clock pair ts x ≡ some x'
      → HasRing x'
  unfolding settle_all
  settle_all-HasRing pair [] x x' h e = let same : x ≡ x' = cc e in rw (← same) h
  settle_all-HasRing pair (t ∷ ts) x x' h e =
      let (y, e1, f) = >>=-eq-some (settle_one clock pair t x) _ e in
      settle_all-HasRing pair ts y x' (settle_one-HasRing pair t x y h e1) f

  place_order-HasRing :
      (o : OrderInsertion P) (r : Result OrderInsertionError (ObOrderInsertionEffects P))
      (x : Exchange P) (done : Result OrderInsertionError OrderInsertionEffects × Exchange P)
      → HasRing x
      → place_order clock o r x ≡ some done
      → HasRing done.1
  unfolding place_order process_transactions
  place_order-HasRing o (err z) x done h e = let same : x ≡ done.1 = cc e in rw (← same) h
  place_order-HasRing o (ok effects) x done h e =
      let y = record x {
        session_orders = x.session_orders ++ (o.id, from_insertion o) ∷ [];
        transaction_buf = [];
      } in
      let (x', e1, f) = >>=-eq-some (settle_all clock o.pair (reverse x.transaction_buf) y) _ e in
      let same : x' ≡ done.1 = cc f in
      rw (← same) (settle_all-HasRing o.pair (reverse x.transaction_buf) y x' h e1)

  insert_order-HasRing :
      (req : OrderInsertionRequest P) (x : Exchange P)
      (done : Result OrderInsertionError OrderInsertionEffects × Exchange P)
      → HasRing x
      → insert_order clock req x ≡ some done
      → HasRing done.1
  unfolding insert_order
  insert_order-HasRing req x done h e = elim (Option-cases (get_market x.markets req.pair)) [
    | inl a ↦
        let e' = rw (a, insert_order) at e in let same : x ≡ done.1 = ground arith in rw (← same) h
    | inr (m, a) ↦ elim (Bool-cases (leb (length x.accounts) req.account_id)) [
      | inl absent ↦
          let e' = rw (a, absent, insert_order) at e in
          let same : x ≡ done.1 = ground arith in rw (← same) h
      | inr known ↦
          let o = into_insertion req (length x.session_orders) in
          let r = Market.insert_order o m x.transaction_buf in
          let y = record x { markets = put_market x.markets req.pair r.1; transaction_buf = r.2 } in
          place_order-HasRing o r.0 y done h (rw (a, known, insert_order) at e)
    ]
  ]

  handle_command-HasRing :
      (c : Command P) (x : Exchange P) (done : CommandResult P × Exchange P)
      → HasRing x
      → handle_command clock c x ≡ some done
      → HasRing done.1
  unfolding handle_command cancel_order modify_order add_market
  handle_command-HasRing (Command.order_insert req) x done h e =
      let (placed, e1, f) = >>=-eq-some (insert_order clock req x) _ e in
      let same : placed.1 ≡ done.1 = cc f in rw (← same) (insert_order-HasRing req x placed h e1)
  handle_command-HasRing (Command.order_cancel req) x done h e =
      let same : (cancel_order req x).1 ≡ done.1 = cc e in rw (← same) (ground (arith, h))
  handle_command-HasRing (Command.order_modify req) x done h e =
      let same : (modify_order req x).1 ≡ done.1 = cc e in rw (← same) (ground (arith, h))
  handle_command-HasRing (Command.add_market_command pair) x done h e =
      let same : (add_market pair x).1 ≡ done.1 = cc e in rw (← same) (ground (arith, h))
  handle_command-HasRing _ x done h e = let same : x ≡ done.1 = cc e in rw (← same) h

  run_buffer-HasRing :
      (cs : List (Command P)) (x : Exchange P) (done : List (CommandResult P) × Exchange P)
      → HasRing x
      → run_buffer clock cs x ≡ some done
      → HasRing done.1
  unfolding run_buffer
  run_buffer-HasRing [] x done h e = let same : x ≡ done.1 = cc e in rw (← same) h
  run_buffer-HasRing (c ∷ cs) x done h e =
      let (first, e1, f) = >>=-eq-some (handle_command clock c x) _ e in
      let (rest, e2, g) = >>=-eq-some (run_buffer clock cs first.1) _ f in
      let same : rest.1 ≡ done.1 = cc g in
      rw (← same) (run_buffer-HasRing cs first.1 rest (handle_command-HasRing c x first h e1) e2)

  run_messages-HasRing :
      (ms : List (List (Command P))) (x : Exchange P)
      (done : List (List (CommandResult P)) × Exchange P)
      → HasRing x
      → run_messages clock ms x ≡ some done
      → HasRing done.1
  unfolding run_messages
  run_messages-HasRing [] x done h e = let same : x ≡ done.1 = cc e in rw (← same) h
  run_messages-HasRing (m ∷ ms) x done h e =
      let (first, e1, f) = >>=-eq-some (run_buffer clock m x) _ e in
      let (rest, e2, g) = >>=-eq-some (run_messages clock ms first.1) _ f in
      let same : rest.1 ≡ done.1 = cc g in
      rw (← same) (run_messages-HasRing ms first.1 rest (run_buffer-HasRing m x first h e1) e2)

  -- If the ring buffer has a positive capacity and is filled by its pushes up to that, as that of a new
  -- exchange is: after any messages that are handled, reading it and pushing to it panic nowhere, in the
  -- remainder, the rotation or the unwrap, and give what `get` and `push` give.
  pub run_messages-checked_get :
      (ms : List (List (Command P))) (x : Exchange P)
      (done : List (List (CommandResult P)) × Exchange P) (t : Transaction P)
      → IsRing x.last_100_tx
      → run_messages clock ms x ≡ some done
      → (checked_get done.1.last_100_tx ≡ some (get done.1.last_100_tx))
        × (checked_push done.1.last_100_tx t ≡ some (push done.1.last_100_tx t))
  run_messages-checked_get ms x done t h e =
      let v = run_messages-HasRing ms x done h e in
      (checked_get-IsRing done.1.last_100_tx v, checked_push-IsRing done.1.last_100_tx t v)
