-- ===== src/Exchange/Books.antt =====
-- The order books of all markets of src/exchange.rs, under its commands.
use market_sim_backend.Prelude.{
  ℕ, ◌<◌, ◌≡◌, ◌≢◌, ap, sym, ◌∙◌, Bool-cases, leb, some, Option-cases, List, [], ◌∷◌, length, All,
  All-append, u32_mod, Result, Result-cases, err, inl, inr, arith,
}
use market_sim_backend.Fixed.{Fixed}
use market_sim_backend.Asset.{AssetIdPair}
use market_sim_backend.Errors.{OrderInsertionError}
use market_sim_backend.Order.{
  OrderInsertion, OrderInsertionRequest, OrderCancellation, OrderCancellationRequest,
  OrderModification, OrderModificationRequest, into_insertion, into_cancellation,
  into_order_modification,
}
use market_sim_backend.Orderbook.Types.{ObTransaction}
use market_sim_backend.Orderbook.Upkeep.{
  BookOk, insert_order-BookOk, cancel_order-BookOk, modify_order-BookOk,
}
use market_sim_backend.Market
use market_sim_backend.Market.{
  Market, OrderInsertionEffects, new_market, contains, get_market, put_market,
}
use market_sim_backend.Exchange.State.{Exchange, add_market}
use market_sim_backend.Exchange.Settle.{>>=-eq-some}
use market_sim_backend.Exchange.Orders.{
  find_order, place_order, insert_order, cancel_order, modify_order,
}
use market_sim_backend.Exchange.Commands.{Command, CommandResult, handle_command, run_buffer}
use market_sim_backend.Exchange.Soundness.{find_market-All, write_market-All}
use market_sim_backend.Exchange.Untouched.{place_order-markets, place_order_refused}
use market_sim_backend.Exchange.Liveness.{self_trade_reply}

module _ {P : Type 0} ⦃fx : Fixed P⦄ where
  abbrev MarketBookOk : Market P → Type 0
  MarketBookOk m = BookOk m.orderbook

  -- The book of every market is in order.
  abbrev pub BooksOk : Exchange P → Type 0
  BooksOk x = All MarketBookOk x.markets.inner

  market_insert-BookOk :
      (o : OrderInsertion P) (m : Market P) (buf : List (ObTransaction P))
      → o.volume < u32_mod
      → MarketBookOk m
      → (Market.insert_order o m buf).0 ≢ err OrderInsertionError.self_trade
      → MarketBookOk (Market.insert_order o m buf).1
  unfolding Market.insert_order
  market_insert-BookOk o m buf fits h n = insert_order-BookOk o m.orderbook buf fits h n

  insert_order-BooksOk :
      (clock : ℕ → ℕ) (req : OrderInsertionRequest P) (x : Exchange P)
      (done : Result OrderInsertionError OrderInsertionEffects × Exchange P)
      → BooksOk x
      → req.volume < u32_mod
      → insert_order clock req x ≡ some done
      → done.0 ≢ err OrderInsertionError.self_trade
      → BooksOk done.1
  unfolding insert_order
  insert_order-BooksOk clock req x done h fits e n =
      elim (Option-cases (get_market x.markets req.pair)) [
        | inl a ↦
            let e' = rw (a, insert_order) at e in
            let same : x ≡ done.1 = ground arith in rw (← same) h
        | inr (m, a) ↦ elim (Bool-cases (leb (length x.accounts) req.account_id)) [
          | inl absent ↦
              let e' = rw (a, absent, insert_order) at e in
              let same : x ≡ done.1 = ground arith in rw (← same) h
          | inr known ↦
              let o = into_insertion req (length x.session_orders) in
              let r = Market.insert_order o m x.transaction_buf in
              let y = record x {
                markets = put_market x.markets req.pair r.1;
                transaction_buf = r.2;
              } in
              let placed : place_order clock o r.0 y ≡ some done =
                rw (a, known, insert_order) at e in
              let book = find_market-All MarketBookOk x.markets.inner req.pair m h a in
              let written = λ (k : MarketBookOk r.1).
                write_market-All MarketBookOk x.markets.inner req.pair r.1 h k in
              elim (Result-cases r.0) [
                | inl (effects, f) ↦
                    let placed' = rw f at placed in
                    let same = place_order-markets clock o effects y done placed' in
                    rw same (
                      written (
                        market_insert-BookOk o m x.transaction_buf fits book (λ z. cc (sym f ∙ z))))
                | inr (z, f) ↦
                    let same : (err z, y) ≡ done =
                      place_order_refused clock o z y done (rw f at placed) in
                    let own = λ (g : r.0 ≡ err OrderInsertionError.self_trade).
                      let which : z ≡ OrderInsertionError.self_trade = cc (sym f ∙ g) in
                      n (sym (ap (λ d. d.0) same) ∙ ap err which) in
                    rw (← same) (written (market_insert-BookOk o m x.transaction_buf fits book own))
              ]
        ]
      ]

  market_cancel-BookOk :
      (c : OrderCancellation P) (m : Market P)
      → MarketBookOk m
      → MarketBookOk (Market.cancel_order c m).1
  unfolding Market.cancel_order
  market_cancel-BookOk c m h = cancel_order-BookOk c m.orderbook h

  market_modify-BookOk :
      (c : OrderModification P) (m : Market P)
      → MarketBookOk m
      → MarketBookOk (Market.modify_order c m).1
  unfolding Market.modify_order
  market_modify-BookOk c m h = modify_order-BookOk c m.orderbook h

  cancel_order-BooksOk :
      (req : OrderCancellationRequest) (x : Exchange P) → BooksOk x → BooksOk (cancel_order req x).1
  unfolding cancel_order
  cancel_order-BooksOk req x h = elim (Option-cases (find_order x.session_orders req.order_id)) [
    | inl e ↦ rw (e, cancel_order) h
    | inr (order, e) ↦ elim (Option-cases (get_market x.markets order.pair)) [
      | inl m ↦ ground (arith, h)
      | inr (market, m) ↦
          let c = into_cancellation req order.pair order.side order.price in
          let r = Market.cancel_order c market in
          let book = find_market-All MarketBookOk x.markets.inner order.pair market h m in
          let books =
            write_market-All MarketBookOk x.markets.inner order.pair r.1 h
              (market_cancel-BookOk c market book) in
          ground (arith, h, books)
    ]
  ]

  modify_order-BooksOk :
      (req : OrderModificationRequest) (x : Exchange P) → BooksOk x → BooksOk (modify_order req x).1
  unfolding modify_order
  modify_order-BooksOk req x h = elim (Option-cases (find_order x.session_orders req.order_id)) [
    | inl e ↦ rw (e, modify_order) h
    | inr (order, e) ↦ elim (Option-cases (get_market x.markets order.pair)) [
      | inl m ↦ ground (arith, h)
      | inr (market, m) ↦
          let c = into_order_modification req order.pair order.side order.price order.volume in
          let r = Market.modify_order c market in
          let book = find_market-All MarketBookOk x.markets.inner order.pair market h m in
          let books =
            write_market-All MarketBookOk x.markets.inner order.pair r.1 h
              (market_modify-BookOk c market book) in
          ground (arith, h, books)
    ]
  ]

  new_market-BookOk : (pair : AssetIdPair) → MarketBookOk (new_market pair)
  new_market-BookOk pair = (record { bids_valid = (tt, tt); asks_valid = (tt, tt) }, tt, (tt, tt))

  add_market-BooksOk :
      (pair : AssetIdPair) (x : Exchange P) → BooksOk x → BooksOk (add_market pair x).1
  unfolding add_market Market.add_market
  add_market-BooksOk pair x h =
      let longer =
        All-append MarketBookOk x.markets.inner (new_market pair ∷ []) h
          (new_market-BookOk pair, tt) in
      elim (Bool-cases (contains x.markets.keys pair)) [
        | inl c ↦ ground (arith, h)
        | inr c ↦ ground (arith, h, longer)
      ]

  -- The volume of an order fits a u32.
  abbrev pub VolumeFits : Command P → Type 0
  VolumeFits (Command.order_insert req) = req.volume < u32_mod
  VolumeFits _ = Unit

  handle_command-BooksOk :
      (clock : ℕ → ℕ) (c : Command P) (x : Exchange P) (reply : CommandResult P) (x' : Exchange P)
      → BooksOk x
      → VolumeFits c
      → handle_command clock c x ≡ some (reply, x')
      → reply ≢ self_trade_reply
      → BooksOk x'
  unfolding handle_command
  handle_command-BooksOk clock (Command.order_insert req) x reply x' h fits e n =
      let (done, e1, f) = >>=-eq-some (insert_order clock req x) _ e in
      let same : done.1 ≡ x' = cc f in
      let answer : CommandResult.order_insert done.0 ≡ reply = cc f in
      rw (← same) (
        insert_order-BooksOk clock req x done h fits e1
          (λ own. n (sym answer ∙ ap CommandResult.order_insert own)))
  handle_command-BooksOk clock (Command.order_cancel req) x reply x' h fits e n =
      let same : (cancel_order req x).1 ≡ x' = cc e in rw (← same) (cancel_order-BooksOk req x h)
  handle_command-BooksOk clock (Command.order_modify req) x reply x' h fits e n =
      let same : (modify_order req x).1 ≡ x' = cc e in rw (← same) (modify_order-BooksOk req x h)
  handle_command-BooksOk clock (Command.add_market_command pair) x reply x' h fits e n =
      let same : (add_market pair x).1 ≡ x' = cc e in rw (← same) (add_market-BooksOk pair x h)
  handle_command-BooksOk clock _ x reply x' h fits e n = let same : x ≡ x' = cc e in rw (← same) h

  -- If in every market's book prices ascend, no level is empty and no volume 0, every bid is below every
  -- ask and volumes fit a u32: all this holds after any commands that are handled without a panic, of which
  -- none inserts a volume beyond a u32 and none is answered with self-trade.
  pub run_buffer-BooksOk :
      (clock : ℕ → ℕ) (cs : List (Command P)) (x : Exchange P) (rs : List (CommandResult P))
      (x' : Exchange P)
      → BooksOk x
      → All VolumeFits cs
      → run_buffer clock cs x ≡ some (rs, x')
      → All (λ (r : CommandResult P). r ≢ self_trade_reply) rs
      → BooksOk x'
  unfolding run_buffer
  run_buffer-BooksOk clock [] x rs x' h fits e n = let same : x ≡ x' = cc e in rw (← same) h
  run_buffer-BooksOk clock (c ∷ cs) x rs x' h fits e n =
      let (first, e1, f) = >>=-eq-some (handle_command clock c x) _ e in
      let (rest, e2, g) = >>=-eq-some (run_buffer clock cs first.1) _ f in
      let same : rest.1 ≡ x' = cc g in
      let replies : first.0 ∷ rest.0 ≡ rs = cc g in
      let n' = rw (← replies) at n in
      rw (← same) (
        run_buffer-BooksOk clock cs first.1 rest.0 rest.1
          (handle_command-BooksOk clock c x first.0 first.1 h fits.0 e1 n'.0) fits.1 e2 n'.1)
