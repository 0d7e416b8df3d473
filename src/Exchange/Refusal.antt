-- ===== src/Exchange/Refusal.antt =====
-- `cancel_order` and `modify_order` of src/exchange.rs where they answer with an error.
use market_sim_backend.Prelude.{
  ℕ, ◌≡◌, refl, ap, ap₂, Bool-cases, none, some, Option-cases, List, [], ◌∷◌, err, inl, inr, arith,
  ◌==◌, ltb,
}
use market_sim_backend.Fixed.{Fixed}
use market_sim_backend.Asset.{AssetIdPair, pair_eq}
use market_sim_backend.Errors.{OrderCancellationError, OrderModificationError}
use market_sim_backend.Order.{
  PlacedOrder, OrderCancellation, OrderModification, OrderCancellationRequest,
  OrderModificationRequest, into_cancellation, into_order_modification, is_cancelled, is_filled,
}
use market_sim_backend.Orderbook.Types.{Orderbook, book_side}
use market_sim_backend.Orderbook.Levels.{level_at}
use market_sim_backend.Orderbook.Resting
use market_sim_backend.Orderbook.Resting.{find_last, ModifyScan, scan_modify, remove_order}
use market_sim_backend.Orderbook.Entries.{ModifyScan-cases}
use market_sim_backend.Market
use market_sim_backend.Market.{Market, get_market, put_market, find_market, write_market}
use market_sim_backend.Exchange.State.{Exchange}
use market_sim_backend.Exchange.Orders.{
  find_order, write_order, cancelled_if_ok, modified_if_ok, cancel_order, modify_order,
}

module _ {P : Type 0} where
  -- Writing back what was found.
  pub write_market_same :
      (ms : List (Market P)) (key : AssetIdPair) (m : Market P)
      → find_market ms key ≡ some m
      → write_market ms key m ≡ ms
  unfolding find_market write_market
  write_market_same [] key m e = refl
  write_market_same (n ∷ ms) key m e = elim (Bool-cases (pair_eq n.asset_pair key)) [
    | inl here ↦
        let e' : some n ≡ some m = rw (here, find_market) at e in
        let same : n ≡ m = cc e' in rw (here, write_market) (ap (λ z. z ∷ ms) (cc same))
    | inr later ↦
        rw (later, write_market)
          (ap (λ l. n ∷ l) (write_market_same ms key m (rw (later, find_market) at e)))
  ]

  write_order_same :
      (os : List (ℕ × PlacedOrder P)) (id : ℕ) (o : PlacedOrder P)
      → find_order os id ≡ some o
      → write_order os id o ≡ os
  unfolding find_order write_order
  write_order_same [] id o e = refl
  write_order_same ((j, p) ∷ os) id o e = elim (Bool-cases (j == id)) [
    | inl here ↦
        let e' : some p ≡ some o = rw (here, find_order) at e in
        let same : o ≡ p = cc e' in rw (here, write_order) (ap (λ z. (j, z) ∷ os) same)
    | inr later ↦
        rw (later, write_order)
          (ap (λ l. (j, p) ∷ l) (write_order_same os id o (rw (later, find_order) at e)))
  ]

  written_back :
      (x : Exchange P) (id : ℕ) (pair : AssetIdPair) (o o' : PlacedOrder P) (m m' : Market P)
      → find_order x.session_orders id ≡ some o
      → get_market x.markets pair ≡ some m
      → o' ≡ o
      → m' ≡ m
      → record x {
        markets = put_market x.markets pair m';
        session_orders = write_order x.session_orders id o';
      }
        ≡ x
  written_back x id pair o o' m m' a b e f =
      rw (e, f)
        (ap₂ (λ ms os. record x { markets = record x.markets { inner = ms }; session_orders = os })
          (write_market_same x.markets.inner pair m b) (write_order_same x.session_orders id o a))

module _ {P : Type 0} ⦃fx : Fixed P⦄ where
  book_cancel_refused :
      (c : OrderCancellation P) (ob : Orderbook P) (z : OrderCancellationError)
      → (Resting.cancel_order c ob).0 ≡ err z
      → (Resting.cancel_order c ob).1 ≡ ob
  unfolding Resting.cancel_order
  book_cancel_refused c ob z e = elim (Option-cases (level_at (book_side ob c.side) c.price)) [
    | inl a ↦ rw (a, Resting.cancel_order) refl
    | inr (es, a) ↦ elim (Option-cases (find_last c.order_id 0 none es)) [
      | inl f ↦ rw (a, f, Resting.cancel_order) refl
      | inr (i, f) ↦ let e' = rw (a, f, Resting.cancel_order) at e in absurd (ground (arith, e'))
    ]
  ]

  market_cancel_refused :
      (c : OrderCancellation P) (m : Market P) (z : OrderCancellationError)
      → (Market.cancel_order c m).0 ≡ err z
      → (Market.cancel_order c m).1 ≡ m
  unfolding Market.cancel_order
  market_cancel_refused c m z e =
      ap (λ ob. record m { orderbook = ob }) (book_cancel_refused c m.orderbook z e)

  -- A cancellation that is answered with an error changes nothing.
  pub cancel_order_refused :
      (req : OrderCancellationRequest) (x : Exchange P) (z : OrderCancellationError)
      → (cancel_order req x).0 ≡ err z
      → (cancel_order req x).1 ≡ x
  unfolding cancel_order
  cancel_order_refused req x z e = elim (Option-cases (find_order x.session_orders req.order_id)) [
    | inl a ↦ rw (a, cancel_order) refl
    | inr (o, a) ↦ elim (Bool-cases (o.account_id == req.account_id)) [
      | inr u ↦ rw (a, u, cancel_order) refl
      | inl u ↦ elim (Bool-cases (is_cancelled o.status)) [
        | inl c ↦ rw (a, u, c, cancel_order) refl
        | inr c ↦ elim (Bool-cases (is_filled o.status)) [
          | inl f ↦ rw (a, u, c, f, cancel_order) refl
          | inr f ↦ elim (Option-cases (get_market x.markets o.pair)) [
            | inl b ↦ rw (a, u, c, f, b, cancel_order) refl
            | inr (m, b) ↦
                let cancellation = into_cancellation req o.pair o.side o.price in
                let r = Market.cancel_order cancellation m in
                let e' : r.0 ≡ err z = rw (a, u, c, f, b, cancel_order) at e in
                rw (a, u, c, f, b, cancel_order)
                  (written_back x req.order_id o.pair o (cancelled_if_ok r.0 o) m r.1 a b
                    (ap (λ t. cancelled_if_ok t o) e') (market_cancel_refused cancellation m z e'))
          ]
        ]
      ]
    ]
  ]

  book_modify_refused :
      (c : OrderModification P) (ob : Orderbook P) (z : OrderModificationError)
      → (Resting.modify_order c ob).0 ≡ err z
      → (Resting.modify_order c ob).1 ≡ ob
  unfolding Resting.modify_order
  book_modify_refused c ob z e = elim (Option-cases (level_at (book_side ob c.side) c.price)) [
    | inl a ↦ rw (a, Resting.modify_order) refl
    | inr (es, a) ↦ elim (ModifyScan-cases (scan_modify c.order_id c.volume_reduction 0 es)) [
      | inl f ↦ rw (a, f, Resting.modify_order) refl
      | inr (inl (es', f)) ↦
          let e' = rw (a, f, Resting.modify_order) at e in absurd (ground (arith, e'))
      | inr (inr (i, f)) ↦
          let e' = rw (a, f, Resting.modify_order) at e in absurd (ground (arith, e'))
    ]
  ]

  market_modify_refused :
      (c : OrderModification P) (m : Market P) (z : OrderModificationError)
      → (Market.modify_order c m).0 ≡ err z
      → (Market.modify_order c m).1 ≡ m
  unfolding Market.modify_order
  market_modify_refused c m z e =
      ap (λ ob. record m { orderbook = ob }) (book_modify_refused c m.orderbook z e)

  -- A modification that is answered with an error changes nothing.
  pub modify_order_refused :
      (req : OrderModificationRequest) (x : Exchange P) (z : OrderModificationError)
      → (modify_order req x).0 ≡ err z
      → (modify_order req x).1 ≡ x
  unfolding modify_order
  modify_order_refused req x z e = elim (Option-cases (find_order x.session_orders req.order_id)) [
    | inl a ↦ rw (a, modify_order) refl
    | inr (o, a) ↦ elim (Bool-cases (o.account_id == req.account_id)) [
      | inr u ↦ rw (a, u, modify_order) refl
      | inl u ↦ elim (Bool-cases (is_filled o.status)) [
        | inl f ↦ rw (a, u, f, modify_order) refl
        | inr f ↦ elim (Bool-cases (ltb o.volume req.new_volume)) [
          | inl c ↦ rw (a, u, f, c, modify_order) refl
          | inr c ↦ elim (Option-cases (get_market x.markets o.pair)) [
            | inl b ↦ rw (a, u, f, c, b, modify_order) refl
            | inr (m, b) ↦
                let modification = into_order_modification req o.pair o.side o.price o.volume in
                let r = Market.modify_order modification m in
                let e' : r.0 ≡ err z = rw (a, u, f, c, b, modify_order) at e in
                rw (a, u, f, c, b, modify_order)
                  (written_back x req.order_id o.pair o (modified_if_ok r.0 req.new_volume o) m r.1
                    a b (ap (λ t. modified_if_ok t req.new_volume o) e')
                    (market_modify_refused modification m z e'))
          ]
        ]
      ]
    ]
  ]
