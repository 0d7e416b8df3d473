-- ===== src/Orderbook/Filling.antt =====
-- FillOrKill and Market orders of src/orderbook.rs: the volume checks against the matching loops.
use market_sim_backend.Prelude.{
  ℕ, zero, suc, ◌+◌, ◌≤◌, ◌≡◌, ◌≢◌, refl, ap, ◌∙◌, Bool-cases, Option-cases, Result-cases, true,
  false, Option, none, some, List, [], ◌∷◌, ◌++◌, reverse, reverse-append, drop, All, ltb, add32,
  if◌then◌else◌, ok, inl, inr, arith,
}
use market_sim_backend.Fixed.{Fixed}
use market_sim_backend.Order.{
  OrderType, Side, is_market, opposite, OrderInsertion, OrderExecutionStatus,
}
use market_sim_backend.Orderbook.Types.{
  OrderbookEntry, ObTransaction, ObOrderInsertionEffects, Levels, Orderbook, book_side,
}
use market_sim_backend.Orderbook.Volume.{
  scan_orders, scan_levels_fok, scan_levels_market, price_out_of_reach, enough_volume_fok,
  enough_volume_market,
}
use market_sim_backend.Orderbook.Matching.{walk_order, stops_at, check_volume, insert_order}
use market_sim_backend.Orderbook.Validity.{keys, IsValid}
use market_sim_backend.Orderbook.Measure.{
  queue_volume, levels_volume, traded, LeadingEmpty, levels_volume-drop,
}
use market_sim_backend.Orderbook.Walk.{out_volume}
use market_sim_backend.Orderbook.Trim.{
  levels_volume-walk_order, trim-SortedBy, OutOfReach, StopsAtHead-OutOfReach,
}
use market_sim_backend.Orderbook.Insertion.{book_side-IsSideValid, Accepted, insert_order-Accepted}

-- What the scan of a queue has counted is at most what there is: the counter may wrap, never exceed.
abbrev ScanBound : ℕ → ℕ → List OrderbookEntry → Option ℕ → Type 0
ScanBound volume available es none = volume ≤ available + queue_volume es
ScanBound volume available es (some available') = available' ≤ available + queue_volume es

scan_orders-ScanBound :
    (volume available : ℕ) (es : List OrderbookEntry)
    → ScanBound volume available es (scan_orders volume available es)
unfolding scan_orders
scan_orders-ScanBound volume available [] = omega arith
scan_orders-ScanBound volume available (e ∷ es) =
    ground (arith, scan_orders-ScanBound volume (add32 available e.remaining_volume) es)

module _ {P : Type 0} where
  scan_levels_market_sound :
      (volume available : ℕ) (levels : Levels P)
      → scan_levels_market volume available levels ≡ true
      → volume ≤ available + levels_volume levels
  unfolding scan_levels_market
  scan_levels_market_sound volume available [] h = cc
  scan_levels_market_sound volume available ((p, es) ∷ t) h =
      let bound = scan_orders-ScanBound volume available es in
      elim (Option-cases (scan_orders volume available es)) [
        | inl e ↦ let b = rw e at bound in omega (arith, b)
        | inr (a, e) ↦
            let b = rw e at bound in
            omega (arith, b, scan_levels_market_sound volume a t (rw (e, scan_levels_market) at h))
      ]

module _ {P : Type 0} ⦃fx : Fixed P⦄ where
  out_volume_le :
      (order : OrderInsertion P) (levels : Levels P)
      → out_volume order levels ≤ levels_volume levels
  out_volume_le order [] = omega arith
  out_volume_le order ((p, es) ∷ t) = ground (arith, out_volume_le order t)

  out_volume_market :
      (order : OrderInsertion P) (levels : Levels P)
      → is_market order.order_type ≡ true
      → out_volume order levels ≡ 0
  out_volume_market order [] h = refl
  out_volume_market order ((p, es) ∷ t) h = ground (arith, out_volume_market order t h)

  scan_levels_fok_sound :
      (order : OrderInsertion P) (volume available : ℕ) (levels : Levels P)
      → is_market order.order_type ≡ false
      → scan_levels_fok order.side volume order.price available levels ≡ true
      → volume + out_volume order levels ≤ available + levels_volume levels
  unfolding scan_levels_fok
  scan_levels_fok_sound order volume available [] m h = cc
  scan_levels_fok_sound order volume available ((p, es) ∷ t) m h =
      let bound = scan_orders-ScanBound volume available es in
      elim (Bool-cases (price_out_of_reach order.side order.price p)) [
        | inl out ↦ let stopped = rw (out, scan_levels_fok) at h in cc stopped
        | inr near ↦
            let go : stops_at order p ≡ false = rw (m, near) refl in
            elim (Option-cases (scan_orders volume available es)) [
              | inl e ↦
                  let b = rw e at bound in
                  rw (go, if◌then◌else◌) (omega (arith, b, out_volume_le order t))
              | inr (a, e) ↦
                  let b = rw e at bound in
                  let ih =
                    scan_levels_fok_sound order volume a t m (rw (near, scan_levels_fok, e) at h) in
                  rw (go, if◌then◌else◌) (omega (arith, b, ih))
            ]
      ]

  -- An order that passes its volume check finds its volume at prices that it accepts.
  check_volume_sound :
      (order : OrderInsertion P) (ob : Orderbook P)
      → order.order_type ≢ OrderType.limit
      → check_volume order ob ≡ ok tt
      → order.volume + out_volume order (book_side ob (opposite order.side))
        ≤ levels_volume (book_side ob (opposite order.side))
  unfolding check_volume enough_volume_fok enough_volume_market
  check_volume_sound order ob nl h =
      let side = book_side ob (opposite order.side) in
      ground (
        arith,
        scan_levels_market_sound order.volume 0 side,
        scan_levels_fok_sound order order.volume 0 side,
        out_volume_market order side,
      )

  out_volume-append :
      (order : OrderInsertion P) (xs ys : Levels P)
      → out_volume order (xs ++ ys) ≡ out_volume order xs + out_volume order ys
  out_volume-append order [] ys = omega arith
  out_volume-append order ((p, es) ∷ xs) ys = ground (arith, out_volume-append order xs ys)

  out_volume-reverse :
      (order : OrderInsertion P) (xs : Levels P)
      → out_volume order (reverse xs) ≡ out_volume order xs
  out_volume-reverse order [] = refl
  out_volume-reverse order ((p, es) ∷ xs) =
      ap (out_volume order) (reverse-append ((p, es) ∷ []) xs)
      ∙ omega
          (arith, out_volume-append order (reverse xs) ((p, es) ∷ []), out_volume-reverse order xs)

  out_volume-walk_order :
      (order : OrderInsertion P) (side : Side) (levels : Levels P)
      → out_volume order (walk_order side levels) ≡ out_volume order levels
  out_volume-walk_order order Side.ask levels = refl
  out_volume-walk_order order Side.bid levels = out_volume-reverse order levels

  out_volume-drop :
      (order : OrderInsertion P) (k : ℕ) (xs : Levels P)
      → LeadingEmpty k xs
      → out_volume order (drop k xs) ≡ out_volume order xs
  out_volume-drop order zero xs h = refl
  out_volume-drop order (suc k) [] h = refl
  out_volume-drop order (suc k) ((p, es) ∷ t) h =
      ground (arith, ap queue_volume h.0, out_volume-drop order k t h.1)

  out_volume-All :
      (order : OrderInsertion P) (levels : Levels P)
      → All (OutOfReach order) (keys levels)
      → out_volume order levels ≡ levels_volume levels
  out_volume-All order [] h = refl
  out_volume-All order ((p, es) ∷ t) h = ground (arith, out_volume-All order t h.1)

  -- Enough volume at acceptable prices leaves nothing of the order.
  Accepted-remaining :
      (order : OrderInsertion P) (ob : Orderbook P) (buf : List (ObTransaction P))
      (effects : ObOrderInsertionEffects P) (ob' : Orderbook P) (buf' : List (ObTransaction P))
      → IsValid ob
      → order.volume + out_volume order (book_side ob (opposite order.side))
        ≤ levels_volume (book_side ob (opposite order.side))
      → (r : Accepted order ob buf effects ob' buf') → r.remaining ≡ 0
  Accepted-remaining order ob buf effects ob' buf' v enough r =
      let s = opposite order.side in
      let side = book_side ob s in
      elim r.stops [
        | inl z ↦ z
        | inr stop ↦
            let reach =
              StopsAtHead-OutOfReach order (drop r.d r.levels)
                (trim-SortedBy s side r.levels r.d r.same_keys (book_side-IsSideValid ob s v).0)
                stop in
            omega (
              arith,
              enough,
              out_volume-All order (drop r.d r.levels) reach,
              out_volume-drop order r.d r.levels r.emptied,
              levels_volume-drop r.d r.levels r.emptied,
              r.out_volumes,
              out_volume-walk_order order s side,
              levels_volume-walk_order s side,
              r.levels_volumes,
              r.order_volume,
            )
      ]

  accepted_check :
      (order : OrderInsertion P) (ob : Orderbook P) (buf : List (ObTransaction P))
      (effects : ObOrderInsertionEffects P) (ob' : Orderbook P) (buf' : List (ObTransaction P))
      → insert_order order ob buf ≡ (ok effects, ob', buf')
      → check_volume order ob ≡ ok tt
  unfolding insert_order
  accepted_check order ob buf effects ob' buf' e = elim (Result-cases (check_volume order ob)) [
    | inl (u, c) ↦ c
    | inr (x, c) ↦
        let killed = rw (c, insert_order) at e in absurd (ground (arith, ap (λ t. t.0) killed))
  ]

  -- A FillOrKill or Market order that a valid book accepts trades its whole volume, is reported as
  -- filled, and leaves nothing on its own side of the book.
  pub accepted_fills :
      (order : OrderInsertion P) (ob : Orderbook P) (buf : List (ObTransaction P))
      (effects : ObOrderInsertionEffects P) (ob' : Orderbook P) (buf' : List (ObTransaction P))
      → IsValid ob
      → order.order_type ≢ OrderType.limit
      → insert_order order ob buf ≡ (ok effects, ob', buf')
      → (effects.status ≡ OrderExecutionStatus.filled)
        × (traded buf' ≡ traded buf + order.volume)
        × (book_side ob' order.side ≡ book_side ob order.side)
  accepted_fills order ob buf effects ob' buf' v nl e =
      let r = insert_order-Accepted order ob buf effects ob' buf' v e in
      let done =
        Accepted-remaining order ob buf effects ob' buf' v
          (check_volume_sound order ob nl (accepted_check order ob buf effects ob' buf' e)) r in
      let test : ltb 0 r.remaining ≡ false = ground arith in
      (r.status ∙ rw test refl, omega (arith, r.order_volume), r.own ∙ rw test refl)
