-- ===== src/Orderbook/Cancellation.antt =====
-- `cancel_order` of src/orderbook.rs: what it leaves of a book, and of an order that has just been placed.
use market_sim_backend.Prelude.{
  ℕ, zero, suc, ◌+◌, ◌<◌, ◌≡◌, refl, ap, sym, ◌∙◌, Option, none, some, Option-cases, List, [], ◌∷◌,
  ◌++◌, length, erase_idx, All, ok, inl, inr, arith, if◌then◌else◌, ◌==◌,
}
use market_sim_backend.Fixed.{Fixed}
use market_sim_backend.Order.{Side, OrderInsertion, OrderCancellation}
use market_sim_backend.Orderbook.Types.{
  OrderbookEntry, entry_of, Levels, Orderbook, book_side, with_side,
}
use market_sim_backend.Orderbook.Levels.{level_at, put_level, remove_level}
use market_sim_backend.Orderbook.Resting.{
  find_last, remove_order, insert_limit_order_no_matching, cancel_order,
}
use market_sim_backend.Orderbook.Validity.{
  keys, Positive, SortedBy, Below, IsSideValid, IsValid, put_level-SortedBy, put_level-IsLive,
  remove_level-SortedBy, remove_level-IsLive, level_at-IsLive, level_at-Below, All-Below-trans,
}
use market_sim_backend.Orderbook.Placement.{
  queue_of, book_side-with_side, add_entry, insert_limit_order_no_matching_lem,
}
use market_sim_backend.Orderbook.Insertion.{book_side-IsSideValid}

pub erase_idx-All {ℓ κ} :
    {A : Type ℓ} (Q : A → Type κ) (xs : List A) (i : ℕ) → All Q xs → All Q (erase_idx xs i)
erase_idx-All Q [] i h = tt
erase_idx-All Q (x ∷ xs) zero h = h.1
erase_idx-All Q (x ∷ xs) (suc i) h = (h.0, erase_idx-All Q xs i h.1)

erase_idx-length {ℓ} :
    {A : Type ℓ} (xs : List A) (x : A) → erase_idx (xs ++ x ∷ []) (length xs) ≡ xs
erase_idx-length [] x = refl
erase_idx-length (y ∷ xs) x = ap (λ l. y ∷ l) (erase_idx-length xs x)

-- The search finds the last entry with the id.
find_last-append :
    (id i n : ℕ) (index : Option ℕ) (es : List OrderbookEntry) (e : OrderbookEntry)
    → e.order_id ≡ id
    → n ≡ i + length es
    → find_last id i index (es ++ e ∷ []) ≡ some n
unfolding find_last
find_last-append id i n index [] e h m = ground arith
find_last-append id i n index (x ∷ es) e h m =
    find_last-append id (i + 1) n (if x.order_id == id then some i else index) es e h (omega arith)

module _ {P : Type 0} where
  with_side-with_side :
      (ob : Orderbook P) (s : Side) (l l' : Levels P)
      → with_side (with_side ob s l) s l' ≡ with_side ob s l'
  with_side-with_side ob Side.bid l l' = refl
  with_side-with_side ob Side.ask l l' = refl

  with_side-book_side : (ob : Orderbook P) (s : Side) → with_side ob s (book_side ob s) ≡ ob
  with_side-book_side ob Side.bid = refl
  with_side-book_side ob Side.ask = refl

module _ {P : Type 0} ⦃fx : Fixed P⦄ where
  pub with_side-IsValid :
      (ob : Orderbook P) (s : Side) (l : Levels P)
      → IsValid ob
      → IsSideValid l
      → IsValid (with_side ob s l)
  with_side-IsValid ob Side.bid l v h = record { bids_valid = h; asks_valid = v.asks_valid }
  with_side-IsValid ob Side.ask l v h = record { bids_valid = v.bids_valid; asks_valid = h }

  level_at-put_level :
      (levels : Levels P) (p : P) (es : List OrderbookEntry)
      → level_at (put_level levels p es) p ≡ some es
  unfolding level_at put_level
  level_at-put_level [] p es = ground arith
  level_at-put_level ((q, w) ∷ t) p es = ground (arith, level_at-put_level t p es)

  put_level-put_level :
      (levels : Levels P) (p : P) (es es' : List OrderbookEntry)
      → put_level (put_level levels p es) p es' ≡ put_level levels p es'
  unfolding put_level
  put_level-put_level [] p es es' = ground arith
  put_level-put_level ((q, w) ∷ t) p es es' = ground (arith, put_level-put_level t p es es')

  -- A level that was not there.
  remove_level-put_level_new :
      (levels : Levels P) (p : P) (es : List OrderbookEntry)
      → level_at levels p ≡ none
      → remove_level (put_level levels p es) p ≡ levels
  unfolding level_at put_level remove_level
  remove_level-put_level_new [] p es h = ground arith
  remove_level-put_level_new ((q, w) ∷ t) p es h = ground (arith, remove_level-put_level_new t p es)

  -- A level that was there.
  pub remove_level-put_level_old :
      (levels : Levels P) (p : P) (w es : List OrderbookEntry)
      → SortedBy Below (keys levels)
      → level_at levels p ≡ some w
      → remove_level (put_level levels p es) p ≡ remove_level levels p
  unfolding level_at put_level remove_level
  remove_level-put_level_old [] p w es s h = cc
  remove_level-put_level_old ((q, v) ∷ t) p w es s h = ground (
    arith,
    remove_level-put_level_old t p w es s.1,
    level_at-Below t p,
    All-Below-trans p q (keys t),
  )

  put_level-level_at :
      (levels : Levels P) (p : P) (w : List OrderbookEntry)
      → SortedBy Below (keys levels)
      → level_at levels p ≡ some w
      → put_level levels p w ≡ levels
  unfolding level_at put_level
  put_level-level_at [] p w s h = cc
  put_level-level_at ((q, v) ∷ t) p w s h =
      ground (arith, put_level-level_at t p w s.1, level_at-Below t p, All-Below-trans p q (keys t))

  -- The side after a queue has been replaced by a shorter one, which may be empty.
  pub left-IsSideValid :
      (levels : Levels P) (p : P) (w es : List OrderbookEntry)
      → IsSideValid levels
      → level_at levels p ≡ some w
      → Positive es
      → IsSideValid (elim es [
        | [] ↦ remove_level (put_level levels p []) p
        | e ∷ es' ↦ put_level levels p (e ∷ es')
      ])
  left-IsSideValid levels p w [] h a pos =
      rw (remove_level-put_level_old levels p w [] h.0 a)
        (remove_level-SortedBy levels p h.0, remove_level-IsLive levels p h.1)
  left-IsSideValid levels p w (e ∷ es') h a pos = (
    put_level-SortedBy levels p (e ∷ es') h.0,
    put_level-IsLive levels p (e ∷ es') (omega arith, pos) h.1,
  )

  -- Cancelling any order, or one that is not there, keeps a valid book valid.
  pub cancel_order-IsValid :
      (c : OrderCancellation P) (ob : Orderbook P) → IsValid ob → IsValid (cancel_order c ob).1
  unfolding cancel_order remove_order
  cancel_order-IsValid c ob v =
      let side = book_side ob c.side in
      elim (Option-cases (level_at side c.price)) [
        | inl e ↦ rw (e, cancel_order) v
        | inr (es, e) ↦ elim (Option-cases (find_last c.order_id 0 none es)) [
          | inl f ↦ rw (e, f, cancel_order) v
          | inr (i, f) ↦
              rw (e, f, cancel_order)
                (with_side-IsValid ob c.side _ v (
                  left-IsSideValid side c.price es (erase_idx es i)
                    (book_side-IsSideValid ob c.side v) e
                    (erase_idx-All (λ (x : OrderbookEntry). 0 < x.remaining_volume) es i
                      (level_at-IsLive side c.price es e (book_side-IsSideValid ob c.side v).1).1)))
        ]
      ]

  -- The side after the entry at the back of a queue has been taken out again.
  back_again :
      (levels : Levels P) (p : P) (e : OrderbookEntry) (q : List OrderbookEntry)
      → IsSideValid levels
      → q ≡ queue_of (level_at levels p)
      → (elim q [
        | [] ↦ remove_level (put_level (add_entry levels p e) p []) p
        | x ∷ es ↦ put_level (add_entry levels p e) p (x ∷ es)
      ])
        ≡ levels
  back_again levels p e [] h same = elim (Option-cases (level_at levels p)) [
    | inl a ↦
        ap (λ l. remove_level l p)
          (put_level-put_level levels p (queue_of (level_at levels p) ++ e ∷ []) [])
        ∙ remove_level-put_level_new levels p [] a
    | inr (w, a) ↦
        let live = level_at-IsLive levels p w a h.1 in
        let empty : [] ≡ w = same ∙ ap queue_of a in
        absurd (omega (arith, live.0, ap (λ (l : List OrderbookEntry). length l) empty))
  ]
  back_again levels p e (x ∷ es) h same = elim (Option-cases (level_at levels p)) [
    | inl a ↦ absurd (ground (arith, same, a))
    | inr (w, a) ↦
        let whole : x ∷ es ≡ w = same ∙ ap queue_of a in
        put_level-put_level levels p (queue_of (level_at levels p) ++ e ∷ []) (x ∷ es)
        ∙ put_level-level_at levels p (x ∷ es) h.0 (a ∙ ap some (sym whole))
  ]

  remove_back :
      (levels : Levels P) (p : P) (e : OrderbookEntry)
      → IsSideValid levels
      → let q = queue_of (level_at levels p) in
        remove_order (add_entry levels p e) p (q ++ e ∷ []) (length q) ≡ levels
  unfolding remove_order
  remove_back levels p e v =
      let q = queue_of (level_at levels p) in
      rw (erase_idx-length q e, remove_order) (back_again levels p e q v refl)

  cancel_back :
      (c : OrderCancellation P) (ob : Orderbook P) (e : OrderbookEntry)
      → IsSideValid (book_side ob c.side)
      → e.order_id ≡ c.order_id
      → cancel_order c (with_side ob c.side (add_entry (book_side ob c.side) c.price e))
        ≡ (ok tt, ob)
  unfolding cancel_order
  cancel_back c ob e v same =
      let side = book_side ob c.side in
      let q = queue_of (level_at side c.price) in
      let placed = add_entry side c.price e in
      rw
        (
          book_side-with_side ob c.side placed,
          level_at-put_level side c.price (q ++ e ∷ []),
          find_last-append c.order_id 0 (length q) none q e same (omega arith),
          cancel_order,
        )
        (rw (book_side-with_side ob c.side placed, remove_back side c.price e v)
          (ap (λ b. (ok tt, b))
            (with_side-with_side ob c.side placed side ∙ with_side-book_side ob c.side)))

  -- Cancelling an order right after it has been placed in a valid book succeeds, and gives the book back
  -- as it was: also where its price level was made for it, and where its id was in use.
  pub cancel_order-insert_limit_order_no_matching :
      (order : OrderInsertion P) (ob : Orderbook P) (c : OrderCancellation P)
      → IsValid ob
      → c.order_id ≡ order.id
      → c.side ≡ order.side
      → c.price ≡ order.price
      → cancel_order c (insert_limit_order_no_matching order ob) ≡ (ok tt, ob)
  cancel_order-insert_limit_order_no_matching order ob c v i s p =
      rw (insert_limit_order_no_matching_lem order ob, ← s, ← p)
        (cancel_back c ob (entry_of order) (book_side-IsSideValid ob c.side v) (sym i))
