-- ===== src/Orderbook/Capacity.antt =====
-- `enough_volume_market` and `enough_volume_fok` of src/orderbook.rs against the sum of the volume that the
-- order can reach.
use market_sim_backend.Prelude.{
  ℕ, ◌+◌, ◌<◌, ◌≤◌, ◌≡◌, ◌↔◌, refl, ◌∙◌, Bool-cases, false, none, some, List, [], ◌∷◌, All, leb,
  add32, u32_mod, if◌then◌else◌, ok, inl, inr, arith,
}
use market_sim_backend.Fixed.{Fixed, price_lt}
use market_sim_backend.Order.{Side, opposite}
use market_sim_backend.Orderbook.Types.{OrderbookEntry, Levels, Orderbook, book_side}
use market_sim_backend.Orderbook.Volume.{
  scan_orders, scan_levels_fok, scan_levels_market, price_out_of_reach, enough_volume_fok,
  enough_volume_market,
}
use market_sim_backend.Orderbook.Validity.{keys, SortedBy, Below, All-Below-trans, IsValid}
use market_sim_backend.Orderbook.Measure.{queue_volume, levels_volume}

-- Where nothing wraps, the scan of a queue counts what is there.
scan_orders-exact :
    (volume available : ℕ) (es : List OrderbookEntry)
    → available < volume
    → available + queue_volume es < u32_mod
    → scan_orders volume available es ≡ (
        if leb volume (available + queue_volume es)
        then none
        else some (available + queue_volume es))
unfolding scan_orders
scan_orders-exact volume available [] l f = ground arith
scan_orders-exact volume available (e ∷ es) l f =
    ground (arith, scan_orders-exact volume (add32 available e.remaining_volume) es)

module _ {P : Type 0} where
  scan_levels_market-exact :
      (volume available : ℕ) (levels : Levels P)
      → available < volume
      → available + levels_volume levels < u32_mod
      → scan_levels_market volume available levels ≡ leb volume (available + levels_volume levels)
  unfolding scan_levels_market
  scan_levels_market-exact volume available [] l f = ground arith
  scan_levels_market-exact volume available ((p, es) ∷ t) l f =
      let sum : ℕ = available + queue_volume es in
      let exact = scan_orders-exact volume available es l (omega arith) in
      elim (Bool-cases (leb volume sum)) [
        | inl enough ↦
            let found : scan_orders volume available es ≡ none =
              exact ∙ rw (enough, if◌then◌else◌) refl in
            rw (found, scan_levels_market) (ground arith)
        | inr short ↦
            let found : scan_orders volume available es ≡ some sum =
              exact ∙ rw (short, if◌then◌else◌) refl in
            rw (found, scan_levels_market)
              (scan_levels_market-exact volume sum t (ground arith) (omega arith) ∙ ground arith)
      ]

  -- Where the volume on the other side fits a u32, a Market order with a positive volume passes its
  -- check just where that side holds its volume.
  pub enough_volume_market_lem :
      (side : Side) (volume : ℕ) (ob : Orderbook P)
      → 0 < volume
      → levels_volume (book_side ob (opposite side)) < u32_mod
      → (enough_volume_market side volume ob ≡ ok tt)
        ↔ (volume ≤ levels_volume (book_side ob (opposite side)))
  unfolding enough_volume_market
  enough_volume_market_lem side volume ob l f =
      let levels = book_side ob (opposite side) in
      let exact = scan_levels_market-exact volume 0 levels l (omega arith) in
      rw exact (ground arith)

module _ {P : Type 0} ⦃fx : Fixed P⦄ where
  -- The asks whose price a bid at `price` accepts.
  abbrev pub reach_volume : P → Levels P → ℕ
  reach_volume price [] = 0
  reach_volume price ((p, es) ∷ t) =
      (if price_lt price p then 0 else queue_volume es) + reach_volume price t

  reach_volume_none :
      (price : P) (levels : Levels P)
      → All (λ p. Below price p) (keys levels)
      → reach_volume price levels ≡ 0
  reach_volume_none price [] h = refl
  reach_volume_none price ((p, es) ∷ t) h = ground (arith, reach_volume_none price t h.1)

  scan_levels_fok-exact :
      (volume available : ℕ) (price : P) (levels : Levels P)
      → available < volume
      → available + levels_volume levels < u32_mod
      → SortedBy Below (keys levels)
      → scan_levels_fok Side.bid volume price available levels
        ≡ leb volume (available + reach_volume price levels)
  unfolding scan_levels_fok
  scan_levels_fok-exact volume available price [] l f s = ground arith
  scan_levels_fok-exact volume available price ((p, es) ∷ t) l f s =
      let sum : ℕ = available + queue_volume es in
      let exact = scan_orders-exact volume available es l (omega arith) in
      elim (Bool-cases (price_lt price p)) [
        | inl out ↦
            let none_behind =
              reach_volume_none price t (All-Below-trans price p (keys t) (ground arith) s.0) in
            ground (arith, none_behind)
        | inr near ↦
            let reach : price_out_of_reach Side.bid price p ≡ false = ground arith in
            elim (Bool-cases (leb volume sum)) [
              | inl enough ↦
                  let found : scan_orders volume available es ≡ none =
                    exact ∙ rw (enough, if◌then◌else◌) refl in
                  rw (reach, found, scan_levels_fok, near, if◌then◌else◌) (ground arith)
              | inr short ↦
                  let found : scan_orders volume available es ≡ some sum =
                    exact ∙ rw (short, if◌then◌else◌) refl in
                  rw (reach, found, scan_levels_fok, near, if◌then◌else◌)
                    (scan_levels_fok-exact volume sum price t (ground arith) (omega arith) s.1
                      ∙ ground arith)
            ]
      ]

  -- Where a valid book's asks fit a u32, a FillOrKill bid with a positive volume passes its check just
  -- where the asks at prices up to its own hold its volume.
  pub enough_volume_fok_bid_lem :
      (volume : ℕ) (price : P) (ob : Orderbook P)
      → IsValid ob
      → 0 < volume
      → levels_volume ob.asks < u32_mod
      → (enough_volume_fok Side.bid volume price ob ≡ ok tt) ↔ (volume ≤ reach_volume price ob.asks)
  unfolding enough_volume_fok
  enough_volume_fok_bid_lem volume price ob v l f =
      let exact = scan_levels_fok-exact volume 0 price ob.asks l (omega arith) v.asks_valid.0 in
      rw exact (ground arith)
