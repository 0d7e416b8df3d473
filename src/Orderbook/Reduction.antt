-- ===== src/Orderbook/Reduction.antt =====
-- `cancel_order` and `modify_order` of src/orderbook.rs on a book that is in order: valid, uncrossed, and
-- with volumes of 32 bits.
use market_sim_backend.Prelude.{
  ℕ, ◌+◌, ◌<◌, ◌≡◌, Bool-cases, some, Option-cases, List, [], ◌∷◌, length, erase_idx, All, leb,
  ◌==◌, u32_mod, sub32, inl, inr, arith,
}
use market_sim_backend.Fixed.{Fixed}
use market_sim_backend.Order.{Side, opposite, OrderModification}
use market_sim_backend.Orderbook.Types.{OrderbookEntry, Levels, Orderbook, book_side, with_side}
use market_sim_backend.Orderbook.Levels.{level_at, put_level, remove_level}
use market_sim_backend.Orderbook.Resting.{
  ModifyScan, behind, scan_modify, remove_order, modify_order,
}
use market_sim_backend.Orderbook.Validity.{
  keys, Positive, SortedBy, Below, IsValid, Uncrossed, level_at-Below, All-Below-trans,
  level_at-IsLive, All-keys-remove_level, put_level-SortedBy, put_level-IsLive,
}
use market_sim_backend.Orderbook.Insertion.{book_side-IsSideValid}
use market_sim_backend.Orderbook.Crossing.{SidesApart, Uncrossed-SidesApart, SidesApart-Uncrossed}
use market_sim_backend.Orderbook.Cancellation.{
  erase_idx-All, with_side-IsValid, left-IsSideValid, remove_level-put_level_old,
}
use market_sim_backend.Orderbook.Entries.{
  BookAll, book_side-AllEntries, level_at-All, ModifyScan-cases,
}

-- A remaining volume that fits a u32.
abbrev pub FitsWord : OrderbookEntry → Type 0
FitsWord e = e.remaining_volume < u32_mod

-- What a scan that reduces an entry leaves of a queue.
abbrev IsReducedLive : ModifyScan → Type 0
IsReducedLive (ModifyScan.reduced es) = (0 < length es) × Positive es
IsReducedLive (ModifyScan.remove_index i) = Unit
IsReducedLive ModifyScan.absent = Unit

behind-IsReducedLive :
    (e : OrderbookEntry) (m : ModifyScan)
    → 0 < e.remaining_volume
    → IsReducedLive m
    → IsReducedLive (behind e m)
behind-IsReducedLive e (ModifyScan.reduced es) p h = (omega arith, (p, h.1))
behind-IsReducedLive e (ModifyScan.remove_index i) p h = tt
behind-IsReducedLive e ModifyScan.absent p h = tt

scan_modify-IsReducedLive :
    (id reduction i : ℕ) (es : List OrderbookEntry)
    → Positive es
    → All FitsWord es
    → IsReducedLive (scan_modify id reduction i es)
unfolding scan_modify
scan_modify-IsReducedLive id reduction i [] h f = tt
scan_modify-IsReducedLive id reduction i (e ∷ es) h f = elim (Bool-cases (e.order_id == id)) [
  | inl here ↦ elim (Bool-cases (leb e.remaining_volume reduction)) [
    | inl all ↦ rw (here, all, scan_modify) tt
    | inr part ↦
        let less : reduction < e.remaining_volume = ground arith in
        let left : 0 < sub32 e.remaining_volume reduction = omega (arith, less, f.0) in
        rw (here, part, scan_modify) (omega arith, (left, h.1))
  ]
  | inr later ↦
      rw (later, scan_modify)
        (behind-IsReducedLive e (scan_modify id reduction (i + 1) es) h.0
          (scan_modify-IsReducedLive id reduction (i + 1) es h.1 f.1))
]

module _ {P : Type 0} ⦃fx : Fixed P⦄ where
  keys-put_level :
      (levels : Levels P) (p : P) (w es : List OrderbookEntry)
      → SortedBy Below (keys levels)
      → level_at levels p ≡ some w
      → keys (put_level levels p es) ≡ keys levels
  unfolding level_at put_level
  keys-put_level [] p w es s h = cc
  keys-put_level ((q, v) ∷ t) p w es s h =
      ground (arith, keys-put_level t p w es s.1, level_at-Below t p, All-Below-trans p q (keys t))

  -- A side with a queue replaced by a shorter one keeps what holds of all prices.
  left-keys :
      (Q : P → Type 0) (levels : Levels P) (p : P) (w es : List OrderbookEntry)
      → SortedBy Below (keys levels)
      → level_at levels p ≡ some w
      → All Q (keys levels)
      → All Q (
          keys (elim es [
            | [] ↦ remove_level (put_level levels p []) p
            | e ∷ es' ↦ put_level levels p (e ∷ es')
          ]))
  left-keys Q levels p w [] s a h =
      rw (remove_level-put_level_old levels p w [] s a) (All-keys-remove_level Q levels p h)
  left-keys Q levels p w (e ∷ es) s a h = rw (keys-put_level levels p w (e ∷ es) s a) h

  with_side-Uncrossed :
      (ob : Orderbook P) (s : Side) (l : Levels P)
      → SidesApart s l (book_side ob (opposite s))
      → Uncrossed (with_side ob s l)
  with_side-Uncrossed ob Side.bid l h = SidesApart-Uncrossed (with_side ob Side.bid l) Side.bid h
  with_side-Uncrossed ob Side.ask l h = SidesApart-Uncrossed (with_side ob Side.ask l) Side.ask h

  abbrev pub InOrder : Orderbook P → Type 0
  InOrder ob = IsValid ob × Uncrossed ob

  -- A queue that is left with these entries, of which there may be none.
  pub removed-InOrder :
      (ob : Orderbook P) (s : Side) (p : P) (w : List OrderbookEntry) (i : ℕ)
      → InOrder ob
      → level_at (book_side ob s) p ≡ some w
      → InOrder (with_side ob s (remove_order (book_side ob s) p w i))
  unfolding remove_order
  removed-InOrder ob s p w i (v, u) a =
      let side = book_side ob s in
      let valid = book_side-IsSideValid ob s v in
      let live = level_at-IsLive side p w a valid.1 in
      let es = erase_idx w i in
      (
        with_side-IsValid ob s _ v (
            left-IsSideValid side p w es valid a
              (erase_idx-All (λ (e : OrderbookEntry). 0 < e.remaining_volume) w i live.1)),
        with_side-Uncrossed ob s _
            (left-keys _ side p w es valid.0 a (Uncrossed-SidesApart ob s u)),
      )

  reduced-InOrder :
      (ob : Orderbook P) (s : Side) (p : P) (w es : List OrderbookEntry)
      → InOrder ob
      → level_at (book_side ob s) p ≡ some w
      → (0 < length es) × Positive es
      → InOrder (with_side ob s (put_level (book_side ob s) p es))
  reduced-InOrder ob s p w es (v, u) a live =
      let side = book_side ob s in
      let valid = book_side-IsSideValid ob s v in
      (
        with_side-IsValid ob s _ v
            (put_level-SortedBy side p es valid.0, put_level-IsLive side p es live valid.1),
        with_side-Uncrossed ob s _
            (rw (keys-put_level side p w es valid.0 a) (Uncrossed-SidesApart ob s u)),
      )

  -- Modifying any order, or one that is not there, by any volume, keeps a book in which volumes fit a u32
  -- valid and every bid below every ask.
  pub modify_order-IsValid :
      (m : OrderModification P) (ob : Orderbook P)
      → IsValid ob
      → Uncrossed ob
      → BookAll FitsWord ob
      → IsValid (modify_order m ob).1 × Uncrossed (modify_order m ob).1
  unfolding modify_order
  modify_order-IsValid m ob v u f =
      let side = book_side ob m.side in
      elim (Option-cases (level_at side m.price)) [
        | inl e ↦ rw (e, modify_order) (v, u)
        | inr (es, e) ↦
            let live = level_at-IsLive side m.price es e (book_side-IsSideValid ob m.side v).1 in
            let fits =
              level_at-All FitsWord side m.price es (book_side-AllEntries FitsWord ob m.side f) e in
            let left = scan_modify-IsReducedLive m.order_id m.volume_reduction 0 es live.1 fits in
            elim (ModifyScan-cases (scan_modify m.order_id m.volume_reduction 0 es)) [
              | inl scan ↦ rw (e, scan, modify_order) (v, u)
              | inr (inl (es', scan)) ↦
                  rw (e, scan, modify_order)
                    (reduced-InOrder ob m.side m.price es es' (v, u) e (rw scan at left))
              | inr (inr (i, scan)) ↦
                  rw (e, scan, modify_order) (removed-InOrder ob m.side m.price es i (v, u) e)
            ]
      ]
