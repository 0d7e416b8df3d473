-- ===== src/Exchange/Refused.antt =====
-- The commands of src/exchange.rs that are answered with an error.
use market_sim_backend.Prelude.{
  ℕ, ◌≡◌, ◌≢◌, sym, ap, ap₂, ◌∙◌, Bool-cases, some, Option-cases, List, [], ◌∷◌, ◌++◌, length, leb,
  Result-cases, ok, err, inl, inr, arith,
}
use market_sim_backend.Fixed.{Fixed}
use market_sim_backend.Asset.{AssetIdPair}
use market_sim_backend.Errors.{OrderInsertionError, MarketCreationError}
use market_sim_backend.Order.{OrderInsertion, OrderInsertionRequest, into_insertion, from_insertion}
use market_sim_backend.Orderbook.Types.{ObTransaction, ObOrderInsertionEffects}
use market_sim_backend.Orderbook.Matching
use market_sim_backend.Orderbook.Rejection.{refused_keeps}
use market_sim_backend.Market
use market_sim_backend.Market.{
  Market, OrderInsertionEffects, contains, get_market, put_market, note_price,
}
use market_sim_backend.Exchange.State.{Exchange, add_market}
use market_sim_backend.Exchange.Settle.{>>=-eq-some, process_transactions}
use market_sim_backend.Exchange.Orders.{place_order, insert_order, cancel_order, modify_order}
use market_sim_backend.Exchange.Commands.{Command, CommandResult, handle_command}
use market_sim_backend.Exchange.Refusal.{
  write_market_same, cancel_order_refused, modify_order_refused,
}
use market_sim_backend.Exchange.Untouched.{place_order_refused}

module _ {P : Type 0} ⦃fx : Fixed P⦄ where
  market_insert_refused :
      (o : OrderInsertion P) (m : Market P) (buf : List (ObTransaction P)) (z : OrderInsertionError)
      → (Market.insert_order o m buf).0 ≡ err z
      → z ≢ OrderInsertionError.self_trade
      → ((Market.insert_order o m buf).1 ≡ m) × ((Market.insert_order o m buf).2 ≡ buf)
  unfolding Market.insert_order
  market_insert_refused o m buf z e n =
      let r = Matching.insert_order o m.orderbook buf in
      let (book, same) = refused_keeps o m.orderbook buf z r.1 r.2 (ap (λ t. (t, r.1, r.2)) e) n in
      (
        ap₂
            (λ ob t. record m {
              orderbook = ob;
              last_traded_price = note_price t m.last_traded_price;
            })
            book e,
        same,
      )

  placed_answer :
      (clock : ℕ → ℕ) (o : OrderInsertion P) (effects : ObOrderInsertionEffects P)
      (y x' : Exchange P) (z : OrderInsertionError)
      → place_order clock o (ok effects) y ≢ some (err z, x')
  unfolding place_order
  placed_answer clock o effects y x' z e =
      let orders = y.session_orders ++ (o.id, from_insertion o) ∷ [] in
      let (done, e1, f) =
        >>=-eq-some (process_transactions clock o.pair (record y { session_orders = orders })) _
          e in
      cc f

  insert_order_refused :
      (clock : ℕ → ℕ) (req : OrderInsertionRequest P) (x : Exchange P) (z : OrderInsertionError)
      (x' : Exchange P)
      → insert_order clock req x ≡ some (err z, x')
      → z ≢ OrderInsertionError.self_trade
      → x' ≡ x
  unfolding insert_order
  insert_order_refused clock req x z x' e n = elim (Option-cases (get_market x.markets req.pair)) [
    | inl a ↦ let e' = rw (a, insert_order) at e in ground arith
    | inr (m, a) ↦ elim (Bool-cases (leb (length x.accounts) req.account_id)) [
      | inl absent ↦ let e' = rw (a, absent, insert_order) at e in ground arith
      | inr known ↦
          let o = into_insertion req (length x.session_orders) in
          let r = Market.insert_order o m x.transaction_buf in
          let y = record x { markets = put_market x.markets req.pair r.1; transaction_buf = r.2 } in
          let placed : place_order clock o r.0 y ≡ some (err z, x') =
            rw (a, known, insert_order) at e in
          elim (Result-cases r.0) [
            | inl (effects, f) ↦ absurd (placed_answer clock o effects y x' z (rw f at placed))
            | inr (w, f) ↦
                let same : (err w, y) ≡ (err z, x') =
                  place_order_refused clock o w y (err z, x') (rw f at placed) in
                let reason : w ≡ z = cc (ap (λ d. d.0) same) in
                let (market, buf) =
                  market_insert_refused o m x.transaction_buf w f (λ g. n (sym reason ∙ g)) in
                sym (ap (λ d. d.1) same)
                ∙ ap₂
                    (λ k b. record x {
                      markets = put_market x.markets req.pair k;
                      transaction_buf = b;
                    })
                    market buf
                ∙ ap (λ ms. record x { markets = record x.markets { inner = ms } })
                    (write_market_same x.markets.inner req.pair m a)
          ]
    ]
  ]

  add_market_refused :
      (pair : AssetIdPair) (x : Exchange P) (z : MarketCreationError)
      → (add_market pair x).0 ≡ err z
      → (add_market pair x).1 ≡ x
  unfolding add_market Market.add_market
  add_market_refused pair x z e = ground arith

  -- Every error but self-trade.
  abbrev pub IsRefused : CommandResult P → Type 0
  IsRefused (CommandResult.order_insert (err z)) = z ≢ OrderInsertionError.self_trade
  IsRefused (CommandResult.order_cancel (err z)) = Unit
  IsRefused (CommandResult.order_modify (err z)) = Unit
  IsRefused (CommandResult.add_market_result (err z)) = Unit
  IsRefused (CommandResult.get_orderbook_l1_result (err z)) = Unit
  IsRefused (CommandResult.get_orderbook_l2_result (err z)) = Unit
  IsRefused _ = ⊥

  -- A command that is answered with an error, other than self-trade, changes nothing.
  pub handle_command_refused :
      (clock : ℕ → ℕ) (c : Command P) (x : Exchange P) (reply : CommandResult P) (x' : Exchange P)
      → handle_command clock c x ≡ some (reply, x')
      → IsRefused reply
      → x' ≡ x
  unfolding handle_command
  handle_command_refused clock (Command.order_insert req) x reply x' e r =
      let (done, e1, f) = >>=-eq-some (insert_order clock req x) _ e in
      let answer : CommandResult.order_insert done.0 ≡ reply = cc f in
      let after : done.1 ≡ x' = cc f in
      let r' = rw (← answer) at r in
      elim (Result-cases done.0) [
        | inl (effects, g) ↦ absurd (rw g at r')
        | inr (z, g) ↦
            sym after
            ∙ insert_order_refused clock req x z done.1 (e1 ∙ ap (λ t. some (t, done.1)) g)
                (rw g at r')
      ]
  handle_command_refused clock (Command.order_cancel req) x reply x' e r =
      let answer : CommandResult.order_cancel (cancel_order req x).0 ≡ reply = cc e in
      let after : (cancel_order req x).1 ≡ x' = cc e in
      let r' = rw (← answer) at r in
      elim (Result-cases (cancel_order req x).0) [
        | inl (done, g) ↦ absurd (rw g at r')
        | inr (z, g) ↦ sym after ∙ cancel_order_refused req x z g
      ]
  handle_command_refused clock (Command.order_modify req) x reply x' e r =
      let answer : CommandResult.order_modify (modify_order req x).0 ≡ reply = cc e in
      let after : (modify_order req x).1 ≡ x' = cc e in
      let r' = rw (← answer) at r in
      elim (Result-cases (modify_order req x).0) [
        | inl (done, g) ↦ absurd (rw g at r')
        | inr (z, g) ↦ sym after ∙ modify_order_refused req x z g
      ]
  handle_command_refused clock (Command.add_market_command pair) x reply x' e r =
      let answer : CommandResult.add_market_result (add_market pair x).0 ≡ reply = cc e in
      let after : (add_market pair x).1 ≡ x' = cc e in
      let r' = rw (← answer) at r in
      elim (Result-cases (add_market pair x).0) [
        | inl (done, g) ↦ absurd (rw g at r')
        | inr (z, g) ↦ sym after ∙ add_market_refused pair x z g
      ]
  handle_command_refused clock _ x reply x' e r = let same : x ≡ x' = cc e in sym same
