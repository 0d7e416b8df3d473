-- ===== src/Orderbook/Entries.antt =====
-- The calls of src/orderbook.rs and what holds of every resting order, whatever that is; and what
-- `insert_order` appends to the buffer.
use market_sim_backend.Prelude.{
  ℕ, ◌+◌, ◌<◌, sub32, ◌≡◌, refl, Bool-cases, none, some, Option-cases, List, [], ◌∷◌, leb,
  erase_idx, All, All-append, ◌==◌, inl, inr, ◌⊎◌, arith,
}
use market_sim_backend.Fixed.{Fixed}
use market_sim_backend.Order.{Side, OrderInsertion, OrderCancellation, OrderModification}
use market_sim_backend.Orderbook.Types.{
  OrderbookEntry, entry_of, Levels, Orderbook, book_side, with_side,
}
use market_sim_backend.Orderbook.Levels.{level_at, put_level, remove_level}
use market_sim_backend.Orderbook.Resting
use market_sim_backend.Orderbook.Resting.{
  find_last, ModifyScan, behind, scan_modify, remove_order, insert_limit_order_no_matching,
}
use market_sim_backend.Orderbook.Cancellation.{erase_idx-All}

module _ {P : Type 0} (Q : OrderbookEntry → Type 0) where
  abbrev pub AllEntries : Levels P → Type 0
  AllEntries levels = All (λ (l : P × List OrderbookEntry). All Q l.1) levels

  abbrev pub BookAll : Orderbook P → Type 0
  BookAll ob = AllEntries ob.bids × AllEntries ob.asks

  pub book_side-AllEntries :
      (ob : Orderbook P) (s : Side) → BookAll ob → AllEntries (book_side ob s)
  book_side-AllEntries ob Side.bid h = h.0
  book_side-AllEntries ob Side.ask h = h.1

  pub with_side-BookAll :
      (ob : Orderbook P) (s : Side) (l : Levels P)
      → BookAll ob
      → AllEntries l
      → BookAll (with_side ob s l)
  with_side-BookAll ob Side.bid l h k = (k, h.1)
  with_side-BookAll ob Side.ask l h k = (h.0, k)

module _ {P : Type 0} ⦃fx : Fixed P⦄ (Q : OrderbookEntry → Type 0) where
  pub level_at-All :
      (levels : Levels P) (p : P) (es : List OrderbookEntry)
      → AllEntries Q levels
      → level_at levels p ≡ some es
      → All Q es
  unfolding level_at
  level_at-All [] p es h e = cc
  level_at-All ((q, w) ∷ t) p es h e = ground (arith, level_at-All t p es h.1)

  put_level-AllEntries :
      (levels : Levels P) (p : P) (es : List OrderbookEntry)
      → AllEntries Q levels
      → All Q es
      → AllEntries Q (put_level levels p es)
  unfolding put_level
  put_level-AllEntries [] p es h k = (k, tt)
  put_level-AllEntries ((q, w) ∷ t) p es h k = ground (arith, put_level-AllEntries t p es h.1 k)

  remove_level-AllEntries :
      (levels : Levels P) (p : P) → AllEntries Q levels → AllEntries Q (remove_level levels p)
  unfolding remove_level
  remove_level-AllEntries [] p h = tt
  remove_level-AllEntries ((q, w) ∷ t) p h = ground (arith, remove_level-AllEntries t p h.1)

  pub insert_limit-BookAll :
      (order : OrderInsertion P) (ob : Orderbook P)
      → BookAll Q ob
      → Q (entry_of order)
      → BookAll Q (insert_limit_order_no_matching order ob)
  unfolding insert_limit_order_no_matching
  insert_limit-BookAll order ob h k =
      let side = book_side ob order.side in
      let all = book_side-AllEntries Q ob order.side h in
      elim (Option-cases (level_at side order.price)) [
        | inl e ↦
            rw (e, insert_limit_order_no_matching)
              (with_side-BookAll Q ob order.side _ h
                (put_level-AllEntries side order.price _ all (k, tt)))
        | inr (es, e) ↦
            rw (e, insert_limit_order_no_matching)
              (with_side-BookAll Q ob order.side _ h (
                put_level-AllEntries side order.price _ all (
                  All-append Q es (entry_of order ∷ []) (level_at-All side order.price es all e)
                    (k, tt))))
      ]

  left-AllEntries :
      (levels : Levels P) (p : P) (es : List OrderbookEntry)
      → AllEntries Q levels
      → All Q es
      → AllEntries Q (elim es [
        | [] ↦ remove_level (put_level levels p []) p
        | e ∷ es' ↦ put_level levels p (e ∷ es')
      ])
  left-AllEntries levels p [] h k =
      remove_level-AllEntries (put_level levels p []) p (put_level-AllEntries levels p [] h tt)
  left-AllEntries levels p (e ∷ es) h k = put_level-AllEntries levels p (e ∷ es) h k

  pub cancel_order-BookAll :
      (c : OrderCancellation P) (ob : Orderbook P)
      → BookAll Q ob
      → BookAll Q (Resting.cancel_order c ob).1
  unfolding Resting.cancel_order remove_order
  cancel_order-BookAll c ob h =
      let side = book_side ob c.side in
      let all = book_side-AllEntries Q ob c.side h in
      elim (Option-cases (level_at side c.price)) [
        | inl e ↦ rw (e, Resting.cancel_order) h
        | inr (es, e) ↦ elim (Option-cases (find_last c.order_id 0 none es)) [
          | inl f ↦ rw (e, f, Resting.cancel_order) h
          | inr (i, f) ↦
              rw (e, f, Resting.cancel_order)
                (with_side-BookAll Q ob c.side _ h (
                  left-AllEntries side c.price (erase_idx es i) all
                    (erase_idx-All Q es i (level_at-All side c.price es all e))))
        ]
      ]

pub ModifyScan-cases :
    (m : ModifyScan)
    → (m ≡ ModifyScan.absent)
      ⊎ (((es : List OrderbookEntry) × (m ≡ ModifyScan.reduced es))
          ⊎ ((i : ℕ) × (m ≡ ModifyScan.remove_index i)))
ModifyScan-cases ModifyScan.absent = inl refl
ModifyScan-cases (ModifyScan.reduced es) = inr (inl (es, refl))
ModifyScan-cases (ModifyScan.remove_index i) = inr (inr (i, refl))

abbrev ScanAll : (OrderbookEntry → Type 0) → ModifyScan → Type 0
ScanAll Q (ModifyScan.reduced es) = All Q es
ScanAll Q (ModifyScan.remove_index i) = Unit
ScanAll Q ModifyScan.absent = Unit

behind-ScanAll :
    (Q : OrderbookEntry → Type 0) (e : OrderbookEntry) (m : ModifyScan)
    → Q e
    → ScanAll Q m
    → ScanAll Q (behind e m)
behind-ScanAll Q e (ModifyScan.reduced es) q h = (q, h)
behind-ScanAll Q e (ModifyScan.remove_index i) q h = tt
behind-ScanAll Q e ModifyScan.absent q h = tt

-- `Q` holds after a reduction too.
module _ (Q : OrderbookEntry → Type 0)
    (keeps : (e : OrderbookEntry) (reduction : ℕ)
      → reduction < e.remaining_volume
      → Q e
      → Q (record e { remaining_volume = sub32 e.remaining_volume reduction })) where
  scan_modify-ScanAll :
      (id reduction i : ℕ) (es : List OrderbookEntry)
      → All Q es
      → ScanAll Q (scan_modify id reduction i es)
  unfolding scan_modify
  scan_modify-ScanAll id reduction i [] h = tt
  scan_modify-ScanAll id reduction i (e ∷ es) h = elim (Bool-cases (e.order_id == id)) [
    | inl here ↦ elim (Bool-cases (leb e.remaining_volume reduction)) [
      | inl all ↦ rw (here, all, scan_modify) tt
      | inr part ↦ rw (here, part, scan_modify) (keeps e reduction (ground arith) h.0, h.1)
    ]
    | inr later ↦
        rw (later, scan_modify)
          (behind-ScanAll Q e (scan_modify id reduction (i + 1) es) h.0
            (scan_modify-ScanAll id reduction (i + 1) es h.1))
  ]

module _ {P : Type 0} ⦃fx : Fixed P⦄ (Q : OrderbookEntry → Type 0)
    (keeps : (e : OrderbookEntry) (reduction : ℕ)
      → reduction < e.remaining_volume
      → Q e
      → Q (record e { remaining_volume = sub32 e.remaining_volume reduction })) where
  pub modify_order-BookAll :
      (m : OrderModification P) (ob : Orderbook P)
      → BookAll Q ob
      → BookAll Q (Resting.modify_order m ob).1
  unfolding Resting.modify_order remove_order
  modify_order-BookAll m ob h =
      let side = book_side ob m.side in
      let all = book_side-AllEntries Q ob m.side h in
      elim (Option-cases (level_at side m.price)) [
        | inl e ↦ rw (e, Resting.modify_order) h
        | inr (es, e) ↦
            let here = level_at-All Q side m.price es all e in
            let scanned = scan_modify-ScanAll Q keeps m.order_id m.volume_reduction 0 es here in
            elim (ModifyScan-cases (scan_modify m.order_id m.volume_reduction 0 es)) [
              | inl f ↦ rw (e, f, Resting.modify_order) h
              | inr (inl (es', f)) ↦
                  rw (e, f, Resting.modify_order)
                    (with_side-BookAll Q ob m.side _ h
                      (put_level-AllEntries Q side m.price es' all (rw f at scanned)))
              | inr (inr (i, f)) ↦
                  rw (e, f, Resting.modify_order)
                    (with_side-BookAll Q ob m.side _ h (
                      left-AllEntries Q side m.price (erase_idx es i) all
                        (erase_idx-All Q es i here)))
            ]
      ]
