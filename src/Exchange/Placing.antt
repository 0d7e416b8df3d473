-- ===== src/Exchange/Placing.antt =====
-- `insert_order` of src/exchange.rs on an exchange that is sound and has no transaction left to process.
use market_sim_backend.Prelude.{
  ℕ, ◌<◌, ◌≡◌, ◌≢◌, refl, ap, sym, ◌∙◌, Bool-cases, leb, some, Option-cases, List, [], ◌∷◌, ◌++◌,
  reverse, length, All, All-append, Result, Result-cases, ok, err, ◌⊎◌, inl, inr, arith, false,
}
use market_sim_backend.Fixed.{Fixed}
use market_sim_backend.Asset.{AssetIdPair}
use market_sim_backend.Errors.{OrderInsertionError}
use market_sim_backend.Order.{
  PlacedOrder, OrderInsertion, OrderInsertionRequest, from_insertion, into_insertion,
}
use market_sim_backend.Orderbook.Types.{ObTransaction, ObOrderInsertionEffects, Orderbook}
use market_sim_backend.Orderbook.Matching
use market_sim_backend.Orderbook.Validity.{All-reverse}
use market_sim_backend.Orderbook.Entries.{BookAll}
use market_sim_backend.Orderbook.Rejection.{refused_keeps}
use market_sim_backend.Orderbook.Appended.{insert_order-OutcomeAll, insert_order_refused-BookAll}
use market_sim_backend.Market
use market_sim_backend.Market.{Market, OrderInsertionEffects, get_market, put_market}
use market_sim_backend.Exchange.State.{Exchange}
use market_sim_backend.Exchange.Settle.{◌>>=◌, process_transactions}
use market_sim_backend.Exchange.Orders.{place_order, insert_order}
use market_sim_backend.Exchange.Owners.{owner, Covers-append, owner-append}
use market_sim_backend.Exchange.Progress.{Traded, settle_all_returns}
use market_sim_backend.Exchange.Soundness.{
  IsTracked, MarketOk, IsSound, BookAll-Covers, markets-Covers, find_market-pair, find_market-All,
  write_market-All,
}

self_trade-cases :
    (z : OrderInsertionError)
    → (z ≡ OrderInsertionError.self_trade) ⊎ (z ≢ OrderInsertionError.self_trade)
self_trade-cases OrderInsertionError.self_trade = inl refl
self_trade-cases _ = inr (λ e. cc e)

leb-false : (a b : ℕ) → leb a b ≡ false → b < a
leb-false a b h = ground arith

module _ {P : Type 0} ⦃fx : Fixed P⦄ where
  process_transactions_returns :
      (clock : ℕ → ℕ) (pair : AssetIdPair) (y : Exchange P)
      → IsSound y
      → pair.primary ≢ pair.secondary
      → pair.primary < y.balance_book.assets
      → pair.secondary < y.balance_book.assets
      → All (Traded y.session_orders) y.transaction_buf
      → (x' : Exchange P) × (process_transactions clock pair y ≡ some x')
        × IsSound x'
        × (x'.transaction_buf ≡ [])
  unfolding process_transactions
  process_transactions_returns clock pair y s ne lp ls all =
      let ts = reverse y.transaction_buf in
      let z = record y { transaction_buf = [] } in
      let (x', e, u) =
        settle_all_returns clock pair ts z s.booked s.rectangular ne lp ls
          (All-reverse (Traded y.session_orders) y.transaction_buf all) in
      let n : ℕ = y.balance_book.assets in
      (
        x',
        e,
        record {
          booked = u.booked;
          rectangular = u.rectangular;
          listed = rw (u.same_assets, u.same_listing) s.listed;
          markets_ok =
              rw (u.same_assets, u.same_markets)
                (markets-Covers n y.session_orders x'.session_orders y.markets.inner u.covers
                  s.markets_ok);
        },
        u.same_buffer,
      )

  -- The exchange between the book's answer and the settlement.
  appended-IsSound :
      (o : OrderInsertion P) (x : Exchange P) (m : Market P)
      → IsSound x
      → o.account_id < x.balance_book.accounts
      → MarketOk x.balance_book.assets (x.session_orders ++ (o.id, from_insertion o) ∷ []) m
      → (buf : List (ObTransaction P))
      → IsSound (record x {
        markets = put_market x.markets o.pair m;
        transaction_buf = buf;
        session_orders = x.session_orders ++ (o.id, from_insertion o) ∷ [];
      })
  appended-IsSound o x m s known k buf =
      let os = x.session_orders in
      let new = (o.id, from_insertion o) ∷ [] in
      let n : ℕ = x.balance_book.assets in
      record {
        booked = (
          s.booked.0,
          All-append (λ (p : ℕ × PlacedOrder P). p.1.account_id < x.balance_book.accounts) os new
              s.booked.1 (known, tt),
        );
        rectangular = s.rectangular;
        listed = s.listed;
        markets_ok =
            write_market-All (MarketOk n (os ++ new)) x.markets.inner o.pair m
              (markets-Covers n os (os ++ new) x.markets.inner (Covers-append os new) s.markets_ok)
              k;
      }

  accepted-All :
      (o : OrderInsertion P) (os : List (ℕ × PlacedOrder P)) (ob : Orderbook P)
      (buf : List (ObTransaction P))
      → o.id ≡ length os
      → BookAll (IsTracked os) ob
      → buf ≡ []
      → let os' = os ++ (o.id, from_insertion o) ∷ [] in
        let (r, ob', buf') = Matching.insert_order o ob buf in
        BookAll (IsTracked os') ob' × All (Traded os') buf'
  accepted-All o os ob buf next h none_left =
      let new = (o.id, from_insertion o) ∷ [] in
      let os' = os ++ new in
      let tracked : owner os' o.id ≡ some o.account_id =
        ap (owner os') next ∙ owner-append os o.id (from_insertion o) in
      insert_order-OutcomeAll (IsTracked os') (Traded os') (λ e v l q. q) o
        (λ p v e q n. (e.account_id, o.account_id, q, tracked, λ same. n (sym same))) ob buf
        (BookAll-Covers os os' ob (Covers-append os new) h) tracked (rw none_left tt)

  -- What a sound exchange has come to by an insertion.
  abbrev pub IsPlaced : Result OrderInsertionError OrderInsertionEffects × Exchange P → Type 0
  IsPlaced done =
      IsSound done.1
      × ((done.1.transaction_buf ≡ []) ⊎ (done.0 ≡ err OrderInsertionError.self_trade))

  refused_returns :
      (clock : ℕ → ℕ) (o : OrderInsertion P) (x : Exchange P) (m : Market P)
      (z : OrderInsertionError)
      → IsSound x
      → x.transaction_buf ≡ []
      → MarketOk x.balance_book.assets x.session_orders m
      → let r = Market.insert_order o m x.transaction_buf in
        r.0 ≡ err z
        → IsPlaced
            (err z, record x { markets = put_market x.markets o.pair r.1; transaction_buf = r.2 })
  unfolding Market.insert_order
  refused_returns clock o x m z s none_left k e =
      let os = x.session_orders in
      let n : ℕ = x.balance_book.assets in
      let r = Matching.insert_order o m.orderbook x.transaction_buf in
      let resting =
        insert_order_refused-BookAll (IsTracked os) (λ e v l q. q) o m.orderbook x.transaction_buf z
          k.3 e in
      (
        record {
          booked = s.booked;
          rectangular = s.rectangular;
          listed = s.listed;
          markets_ok =
              write_market-All (MarketOk n os) x.markets.inner o.pair _ s.markets_ok
                (k.0, k.1, k.2, resting);
        },
        elim (self_trade-cases z) [
          | inl self ↦ inr (ap err self)
          | inr other ↦
              let kept =
                refused_keeps o m.orderbook x.transaction_buf z r.1 r.2 (ap (λ t. (t, r.1, r.2)) e)
                  other in
              inl (kept.1 ∙ none_left)
        ],
      )

  accepted_returns :
      (clock : ℕ → ℕ) (o : OrderInsertion P) (x : Exchange P) (m : Market P)
      (effects : ObOrderInsertionEffects P)
      → IsSound x
      → x.transaction_buf ≡ []
      → o.id ≡ length x.session_orders
      → o.account_id < x.balance_book.accounts
      → m.asset_pair ≡ o.pair
      → MarketOk x.balance_book.assets x.session_orders m
      → let r = Market.insert_order o m x.transaction_buf in
        (done : Result OrderInsertionError OrderInsertionEffects × Exchange P) × (place_order clock
            o
            (ok effects)
            (record x { markets = put_market x.markets o.pair r.1; transaction_buf = r.2 })
          ≡ some done)
        × IsPlaced done
  unfolding Market.insert_order place_order
  accepted_returns clock o x m effects s none_left next known same k =
      let os = x.session_orders in
      let new = (o.id, from_insertion o) ∷ [] in
      let r = Market.insert_order o m x.transaction_buf in
      let (resting, traded) = accepted-All o os m.orderbook x.transaction_buf next k.3 none_left in
      let y = record x {
        markets = put_market x.markets o.pair r.1;
        transaction_buf = r.2;
        session_orders = os ++ new;
      } in
      let sound = appended-IsSound o x r.1 s known (k.0, k.1, k.2, resting) r.2 in
      let (x', e, s', flushed) =
        process_transactions_returns clock o.pair y sound (rw (← same) k.0) (rw (← same) k.1)
          (rw (← same) k.2) traded in
      (
        (ok (record { id = o.id; status = effects.status }), x'),
        rw (e, ◌>>=◌) refl,
        (s', inl flushed),
      )

  -- The exchange has processed all transactions, accounts have their balances, orders their accounts,
  -- every market trades two different listed assets and every resting order is one that the exchange has
  -- recorded: `insert_order` then returns, and all this holds again, save that transactions can be left
  -- where it answers self-trade.
  pub insert_order_returns :
      (clock : ℕ → ℕ) (req : OrderInsertionRequest P) (x : Exchange P)
      → IsSound x
      → x.transaction_buf ≡ []
      → (done : Result OrderInsertionError OrderInsertionEffects × Exchange P) × (insert_order clock
            req x
          ≡ some done)
        × IsPlaced done
  unfolding insert_order place_order
  insert_order_returns clock req x s none_left =
      elim (Option-cases (get_market x.markets req.pair)) [
        | inl a ↦ (
          (err OrderInsertionError.market_does_not_exist, x),
          rw (a, insert_order) refl,
          (s, inl none_left),
        )
        | inr (m, a) ↦ elim (Bool-cases (leb (length x.accounts) req.account_id)) [
          | inl absent ↦ (
            (err OrderInsertionError.account_does_not_exist, x),
            rw (a, absent, insert_order) refl,
            (s, inl none_left),
          )
          | inr known ↦
              let o = into_insertion req (length x.session_orders) in
              let r = Market.insert_order o m x.transaction_buf in
              let k =
                find_market-All (MarketOk x.balance_book.assets x.session_orders) x.markets.inner
                  req.pair m s.markets_ok a in
              let same = find_market-pair x.markets.inner req.pair m a in
              elim (Result-cases r.0) [
                | inl (effects, e) ↦
                    let (done, f, p) =
                      accepted_returns clock o x m effects s none_left refl
                        (omega
                          (arith, s.booked.0, leb-false (length x.accounts) req.account_id known))
                        same k in
                    (done, rw (a, known, insert_order) (rw e f), p)
                | inr (z, e) ↦ (
                  (
                    err z,
                    record x { markets = put_market x.markets req.pair r.1; transaction_buf = r.2 },
                  ),
                  rw (a, known, insert_order) (rw (e, place_order) refl),
                  refused_returns clock o x m z s none_left k e,
                )
              ]
        ]
      ]
