-- ===== src/Exchange/Liveness.antt =====
-- `handle_command` of src/exchange.rs, and the loop over the commands of a message, on an exchange that is
-- sound and has no transaction left to process.
use market_sim_backend.Prelude.{
  ℕ, suc, ◌≡◌, ◌≢◌, refl, ap, Bool-cases, some, Option-cases, List, [], ◌∷◌, ◌++◌, take, All,
  All-append, if◌then◌else◌, err, ◌⊎◌, inl, inr, arith,
}
use market_sim_backend.Fixed.{Fixed}
use market_sim_backend.Asset.{AssetIdPair}
use market_sim_backend.Errors.{OrderInsertionError}
use market_sim_backend.Order.{
  PlacedOrder, OrderCancellation, OrderModification, OrderCancellationRequest,
  OrderModificationRequest, into_cancellation, into_order_modification,
}
use market_sim_backend.Orderbook.Entries.{cancel_order-BookAll, modify_order-BookAll}
use market_sim_backend.Market
use market_sim_backend.Market.{Market, Markets, new_market, contains, get_market, put_market}
use market_sim_backend.Exchange.State.{Exchange, any_id, is_traded_asset, add_market}
use market_sim_backend.Exchange.Settle.{◌>>=◌}
use market_sim_backend.Exchange.Orders.{
  find_order, write_order, cancelled_if_ok, modified_if_ok, cancel_order, modify_order,
}
use market_sim_backend.Exchange.Commands.{Command, CommandResult, handle_command, run_buffer}
use market_sim_backend.Exchange.Owners.{Covers-write_order}
use market_sim_backend.Exchange.Supply.{
  find_order-KnownIn, write_order-KnownIn, cancelled_if_ok-account, modified_if_ok-account,
}
use market_sim_backend.Exchange.Soundness.{
  IsTracked, MarketOk, IsSound, BookAll-Covers, any_id-listed, markets-Covers, find_market-All,
  write_market-All,
}
use market_sim_backend.Exchange.Placing.{insert_order_returns}

module _ {P : Type 0} where
  -- An order and its market are written back, the order to the same account.
  rewritten-IsSound :
      (x : Exchange P) (id : ℕ) (o o' : PlacedOrder P) (m : Market P)
      → IsSound x
      → find_order x.session_orders id ≡ some o
      → o'.account_id ≡ o.account_id
      → MarketOk x.balance_book.assets x.session_orders m
      → IsSound (record x {
        markets = put_market x.markets o.pair m;
        session_orders = write_order x.session_orders id o';
      })
  rewritten-IsSound x id o o' m s found same k =
      let os = x.session_orders in
      let os' = write_order os id o' in
      let n : ℕ = x.balance_book.assets in
      let a : ℕ = x.balance_book.accounts in
      let c = Covers-write_order os id o o' found same in
      record {
        booked = (
          s.booked.0,
          write_order-KnownIn a os id o' s.booked.1
              (rw same (find_order-KnownIn a os id o s.booked.1 found)),
        );
        rectangular = s.rectangular;
        listed = s.listed;
        markets_ok =
            write_market-All (MarketOk n os') x.markets.inner o.pair m
              (markets-Covers n os os' x.markets.inner c s.markets_ok)
              (k.0, k.1, k.2, BookAll-Covers os os' m.orderbook c k.3);
      }

module _ {P : Type 0} ⦃fx : Fixed P⦄ where
  -- Sound, and nothing is left to process.
  abbrev pub IsIdle : Exchange P → Type 0
  IsIdle x = IsSound x × (x.transaction_buf ≡ [])

  market_cancel-MarketOk :
      (n : ℕ) (os : List (ℕ × PlacedOrder P)) (c : OrderCancellation P) (m : Market P)
      → MarketOk n os m
      → MarketOk n os (Market.cancel_order c m).1
  unfolding Market.cancel_order
  market_cancel-MarketOk n os c m k =
      (k.0, k.1, k.2, cancel_order-BookAll (IsTracked os) c m.orderbook k.3)

  market_modify-MarketOk :
      (n : ℕ) (os : List (ℕ × PlacedOrder P)) (c : OrderModification P) (m : Market P)
      → MarketOk n os m
      → MarketOk n os (Market.modify_order c m).1
  unfolding Market.modify_order
  market_modify-MarketOk n os c m k =
      (k.0, k.1, k.2, modify_order-BookAll (IsTracked os) (λ e v l q. q) c m.orderbook k.3)

  cancel_order-IsIdle :
      (req : OrderCancellationRequest) (x : Exchange P) → IsIdle x → IsIdle (cancel_order req x).1
  unfolding cancel_order
  cancel_order-IsIdle req x (s, none_left) =
      elim (Option-cases (find_order x.session_orders req.order_id)) [
        | inl e ↦ rw (e, cancel_order) (s, none_left)
        | inr (order, e) ↦ elim (Option-cases (get_market x.markets order.pair)) [
          | inl m ↦ ground (arith, s, none_left)
          | inr (market, m) ↦
              let n : ℕ = x.balance_book.assets in
              let os = x.session_orders in
              let c = into_cancellation req order.pair order.side order.price in
              let r = Market.cancel_order c market in
              let o' = cancelled_if_ok r.0 order in
              let sound =
                rewritten-IsSound x req.order_id order o' r.1 s e
                  (cancelled_if_ok-account r.0 order)
                  (market_cancel-MarketOk n os c market (
                    find_market-All (MarketOk n os) x.markets.inner order.pair market s.markets_ok
                      m)) in
              ground (arith, s, none_left, sound)
        ]
      ]

  modify_order-IsIdle :
      (req : OrderModificationRequest) (x : Exchange P) → IsIdle x → IsIdle (modify_order req x).1
  unfolding modify_order
  modify_order-IsIdle req x (s, none_left) =
      elim (Option-cases (find_order x.session_orders req.order_id)) [
        | inl e ↦ rw (e, modify_order) (s, none_left)
        | inr (order, e) ↦ elim (Option-cases (get_market x.markets order.pair)) [
          | inl m ↦ ground (arith, s, none_left)
          | inr (market, m) ↦
              let n : ℕ = x.balance_book.assets in
              let os = x.session_orders in
              let c = into_order_modification req order.pair order.side order.price order.volume in
              let r = Market.modify_order c market in
              let o' = modified_if_ok r.0 req.new_volume order in
              let sound =
                rewritten-IsSound x req.order_id order o' r.1 s e
                  (modified_if_ok-account r.0 req.new_volume order)
                  (market_modify-MarketOk n os c market (
                    find_market-All (MarketOk n os) x.markets.inner order.pair market s.markets_ok
                      m)) in
              ground (arith, s, none_left, sound)
        ]
      ]

  pub add_market-IsIdle :
      (pair : AssetIdPair) (x : Exchange P)
      → pair.primary ≢ pair.secondary
      → IsIdle x
      → IsIdle (add_market pair x).1
  unfolding add_market is_traded_asset Market.add_market
  add_market-IsIdle pair x ne (s, none_left) =
      let n : ℕ = x.balance_book.assets in
      let os = x.session_orders in
      elim (Bool-cases (any_id x.traded_assets pair.primary)) [
        | inr a ↦ ground (arith, s, none_left)
        | inl a ↦ elim (Bool-cases (any_id x.traded_assets pair.secondary)) [
          | inr b ↦ ground (arith, s, none_left)
          | inl b ↦
              let fresh : MarketOk n os (new_market pair) = (
                ne,
                any_id-listed n pair.primary x.traded_assets s.listed a,
                any_id-listed n pair.secondary x.traded_assets s.listed b,
                (tt, tt),
              ) in
              let longer =
                All-append (MarketOk n os) x.markets.inner (new_market pair ∷ []) s.markets_ok
                  (fresh, tt) in
              elim (Bool-cases (contains x.markets.keys pair)) [
                | inl c ↦ rw (a, b, add_market) (rw (c, if◌then◌else◌) (s, none_left))
                | inr c ↦
                    rw (a, b, add_market)
                      (rw (c, if◌then◌else◌)
                        (
                          record {
                            booked = s.booked;
                            rectangular = s.rectangular;
                            listed = s.listed;
                            markets_ok = longer;
                          },
                          none_left,
                        ))
              ]
        ]
      ]

  -- The command does not ask for a market of an asset with itself.
  abbrev pub IsSafe : Command P → Type 0
  IsSafe (Command.add_market_command pair) = pair.primary ≢ pair.secondary
  IsSafe _ = Unit

  abbrev pub self_trade_reply : CommandResult P
  self_trade_reply = CommandResult.order_insert (err OrderInsertionError.self_trade)

  handle_command_returns :
      (clock : ℕ → ℕ) (c : Command P) (x : Exchange P)
      → IsIdle x
      → IsSafe c
      → (done : CommandResult P × Exchange P) × (handle_command clock c x ≡ some done)
        × IsSound done.1
        × ((done.1.transaction_buf ≡ []) ⊎ (done.0 ≡ self_trade_reply))
  unfolding handle_command
  handle_command_returns clock (Command.order_insert req) x h safe =
      let (done, e, (s, left)) = insert_order_returns clock req x h.0 h.1 in
      (
        (CommandResult.order_insert done.0, done.1),
        rw (e, ◌>>=◌) refl,
        s,
        elim left [ inl a ↦ inl a | inr a ↦ inr (ap CommandResult.order_insert a) ],
      )
  handle_command_returns clock (Command.order_cancel req) x h safe =
      let (s, none_left) = cancel_order-IsIdle req x h in (_, refl, s, inl none_left)
  handle_command_returns clock (Command.order_modify req) x h safe =
      let (s, none_left) = modify_order-IsIdle req x h in (_, refl, s, inl none_left)
  handle_command_returns clock (Command.add_market_command pair) x h safe =
      let (s, none_left) = add_market-IsIdle pair x safe h in (_, refl, s, inl none_left)
  handle_command_returns clock _ x h safe = (_, refl, h.0, inl h.1)

  -- On an exchange that has processed all transactions and in which accounts have their balances, orders
  -- their accounts, every market trades two different listed assets and every resting order is recorded,
  -- commands of which none asks for a market of an asset with itself: either all of them are answered and
  -- the exchange is as described again, or some of them, from the first on, are, the last with self-trade.
  pub run_buffer_returns :
      (clock : ℕ → ℕ) (cs : List (Command P)) (x : Exchange P)
      → IsIdle x
      → All IsSafe cs
      → ((done : List (CommandResult P) × Exchange P) × (run_buffer clock cs x ≡ some done)
          × IsIdle done.1)
        ⊎ ((n : ℕ) × (rs : List (CommandResult P)) × (x' : Exchange P) × (run_buffer clock
                (take n cs)
                x
              ≡ some (rs ++ self_trade_reply ∷ [], x')))
  unfolding run_buffer
  run_buffer_returns clock [] x h safe = inl (([], x), refl, h)
  run_buffer_returns clock (c ∷ cs) x h safe =
      let (first, e, s, left) = handle_command_returns clock c x h safe.0 in
      elim left [
        | inr own ↦ inr (1, [], first.1, rw (e, ◌>>=◌) (ap (λ r. some (r ∷ [], first.1)) own))
        | inl none_left ↦ elim (run_buffer_returns clock cs first.1 (s, none_left) safe.1) [
          | inl (done, f, idle) ↦
              inl ((first.0 ∷ done.0, done.1), rw (e, ◌>>=◌) (rw (f, ◌>>=◌) refl), idle)
          | inr (n, rs, x', f) ↦ inr (suc n, first.0 ∷ rs, x', rw (e, ◌>>=◌) (rw (f, ◌>>=◌) refl))
        ]
      ]
