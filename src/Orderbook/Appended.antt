-- ===== src/Orderbook/Appended.antt =====
-- `insert_order` of src/orderbook.rs, accepted or not: what holds of every order in the book after it, and
-- of every transaction in the buffer.
use market_sim_backend.Prelude.{
  ℕ, ◌-◌, ◌≤◌, ◌≡◌, ◌≢◌, Bool-cases, Option, none, List, [], ◌∷◌, ◌++◌, drop, min, ltb, All,
  All-append, All-drop, ◌==◌, if◌then◌else◌, Result-cases, err, inl, inr, arith, ◌+◌,
}
use market_sim_backend.Fixed.{Fixed}
use market_sim_backend.Errors.{OrderInsertionError}
use market_sim_backend.Order.{opposite, OrderInsertion}
use market_sim_backend.Orderbook.Types.{
  OrderbookEntry, entry_of, ObTransaction, Levels, Orderbook, book_side, with_side,
}
use market_sim_backend.Orderbook.Matching.{
  QueueMatch, LevelsMatch, transaction, past, is_empty, walk_order, stops_at, check_volume,
  match_queue, match_levels, rest_order, finish, insert_order,
}
use market_sim_backend.Orderbook.Trim.{All-walk_order}
use market_sim_backend.Orderbook.Entries.{
  AllEntries, BookAll, book_side-AllEntries, with_side-BookAll, insert_limit-BookAll,
}

-- `Q` holds with a smaller volume too, and `R` holds of any trade of the order with an entry of which `Q` holds
-- and which is of another account.
module _ {P : Type 0} ⦃fx : Fixed P⦄ (Q : OrderbookEntry → Type 0) (R : ObTransaction P → Type 0)
    (keeps : (e : OrderbookEntry) (v : ℕ)
      → v ≤ e.remaining_volume
      → Q e
      → Q (record e { remaining_volume = v }))
    (order : OrderInsertion P)
    (makes : (p : P) (v : ℕ) (e : OrderbookEntry)
      → Q e
      → order.account_id ≢ e.account_id
      → R (transaction order p v e)) where
  abbrev QueueAll : QueueMatch P → Type 0
  QueueAll (QueueMatch.self_trade es buf) = All Q es × All R buf
  QueueAll (QueueMatch.matched es remaining last buf) =
      All Q es × All R buf × (remaining ≤ order.volume)

  match_queue-QueueAll :
      (price : P) (remaining : ℕ) (last : Option P) (es : List OrderbookEntry)
      (buf : List (ObTransaction P))
      → remaining ≤ order.volume
      → All Q es
      → All R buf
      → QueueAll (match_queue order price remaining last es buf)
  unfolding match_queue
  match_queue-QueueAll price remaining last [] buf f h r = (tt, r, f)
  match_queue-QueueAll price remaining last (e ∷ es) buf f h r =
      let v = min remaining e.remaining_volume in
      let q = keeps e (e.remaining_volume - v) (omega arith) h.0 in
      elim (Bool-cases (order.account_id == e.account_id)) [
        | inl own ↦ rw (own, match_queue) ((q, h.1), r)
        | inr other ↦
            let r' =
              All-append R buf (transaction order price v e ∷ []) r
                (makes price v e h.0 (ground arith), tt) in
            elim (Bool-cases ((remaining - v) == 0)) [
              | inl done ↦ elim (Bool-cases ((e.remaining_volume - v) == 0)) [
                | inl used ↦
                    rw (other, done, match_queue) (rw (used, if◌then◌else◌) (h.1, r', omega arith))
                | inr kept ↦
                    rw (other, done, match_queue)
                      (rw (kept, if◌then◌else◌) ((q, h.1), r', omega arith))
              ]
              | inr more ↦
                  rw (other, more, match_queue)
                    (match_queue-QueueAll price (remaining - v) last es
                      (buf ++ transaction order price v e ∷ []) (omega arith) h.1 r')
            ]
      ]

  abbrev LevelsAll : LevelsMatch P → Type 0
  LevelsAll (LevelsMatch.self_trade levels buf) = AllEntries Q levels × All R buf
  LevelsAll (LevelsMatch.matched levels remaining last d buf) =
      AllEntries Q levels × All R buf × (remaining ≤ order.volume)

  past-LevelsAll :
      (l : P × List OrderbookEntry) (m : LevelsMatch P)
      → All Q l.1
      → LevelsAll m
      → LevelsAll (past l m)
  past-LevelsAll l (LevelsMatch.self_trade t buf) q h = ((q, h.0), h.1)
  past-LevelsAll l (LevelsMatch.matched t remaining last d buf) q h = ((q, h.0), h.1, h.2)

  level-LevelsAll :
      (p : P) (deletions : ℕ) (t : Levels P) (q : QueueMatch P)
      (go_on : ℕ → Option P → ℕ → List (ObTransaction P) → LevelsMatch P)
      → AllEntries Q t
      → QueueAll q
      → ((rem : ℕ) (last : Option P) (d : ℕ) (b : List (ObTransaction P))
          → rem ≤ order.volume
          → All R b
          → LevelsAll (go_on rem last d b))
      → LevelsAll (elim q [
        | QueueMatch.self_trade orders' buf' ↦ LevelsMatch.self_trade ((p, orders') ∷ t) buf'
        | QueueMatch.matched orders' remaining' last' buf' ↦
            let deletions' = deletions + is_empty orders' in
            let rest = go_on remaining' last' deletions' buf' in
            if remaining' == 0
            then LevelsMatch.matched ((p, orders') ∷ t) remaining' last' deletions' buf'
            else past (p, orders') rest
      ])
  level-LevelsAll p deletions t (QueueMatch.self_trade es buf) go_on l h ih = ((h.0, l), h.1)
  level-LevelsAll p deletions t (QueueMatch.matched es remaining last buf) go_on l h ih =
      elim (Bool-cases (remaining == 0)) [
        | inl done ↦ rw (done, if◌then◌else◌) ((h.0, l), h.1, h.2)
        | inr more ↦
            let d : ℕ = deletions + is_empty es in
            rw (more, if◌then◌else◌)
              (past-LevelsAll (p, es) (go_on remaining last d buf) h.0
                (ih remaining last d buf h.2 h.1))
      ]

  match_levels-LevelsAll :
      (remaining : ℕ) (last : Option P) (deletions : ℕ) (levels : Levels P)
      (buf : List (ObTransaction P))
      → remaining ≤ order.volume
      → AllEntries Q levels
      → All R buf
      → LevelsAll (match_levels order remaining last deletions levels buf)
  unfolding match_levels
  match_levels-LevelsAll remaining last deletions [] buf f h r = (tt, r, f)
  match_levels-LevelsAll remaining last deletions ((p, es) ∷ t) buf f h r =
      elim (Bool-cases (stops_at order p)) [
        | inl stop ↦ rw (stop, match_levels) (h, r, f)
        | inr go ↦
            rw (go, match_levels)
              (level-LevelsAll p deletions t (match_queue order p remaining last es buf)
                (λ rem last' d b. match_levels order rem last' d t b) h.1
                (match_queue-QueueAll p remaining last es buf f h.0 r)
                (λ rem last' d b f' r'. match_levels-LevelsAll rem last' d t b f' h.1 r'))
      ]

  abbrev OutcomeAll : Orderbook P → List (ObTransaction P) → Type 0
  OutcomeAll ob buf = BookAll Q ob × All R buf

  rest_order-BookAll :
      (remaining : ℕ) (last : Option P) (ob : Orderbook P)
      → remaining ≤ order.volume
      → BookAll Q ob
      → Q (entry_of order)
      → BookAll Q (rest_order order remaining last ob).1
  unfolding rest_order
  rest_order-BookAll remaining last ob f h q = elim (Bool-cases (ltb 0 remaining)) [
    | inl rests ↦
        rw (rests, rest_order)
          (insert_limit-BookAll Q (record order { volume = remaining }) ob h
            (keeps (entry_of order) remaining f q))
    | inr done ↦ rw (done, rest_order) h
  ]

  finish-OutcomeAll :
      (ob : Orderbook P) (m : LevelsMatch P)
      → BookAll Q ob
      → Q (entry_of order)
      → LevelsAll m
      → let (result, ob', buf') = finish order ob m in OutcomeAll ob' buf'
  unfolding finish
  finish-OutcomeAll ob (LevelsMatch.self_trade levels buf) h q l =
      let s = opposite order.side in
      (with_side-BookAll Q ob s _ h (All-walk_order _ s levels l.0), l.1)
  finish-OutcomeAll ob (LevelsMatch.matched levels remaining last d buf) h q l =
      let s = opposite order.side in
      let E = λ (x : P × List OrderbookEntry). All Q x.1 in
      (
        rest_order-BookAll remaining last (with_side ob s (walk_order s (drop d levels))) l.2
            (with_side-BookAll Q ob s _ h
              (All-walk_order E s (drop d levels) (All-drop E d levels l.0)))
            q,
        l.1,
      )

  pub insert_order-OutcomeAll :
      (ob : Orderbook P) (buf : List (ObTransaction P))
      → BookAll Q ob
      → Q (entry_of order)
      → All R buf
      → let (result, ob', buf') = insert_order order ob buf in BookAll Q ob' × All R buf'
  unfolding insert_order
  insert_order-OutcomeAll ob buf h q r =
      let s = opposite order.side in
      let walk = walk_order s (book_side ob s) in
      elim (Result-cases (check_volume order ob)) [
        | inl (_, c) ↦
            rw (c, insert_order)
              (finish-OutcomeAll ob (match_levels order order.volume none 0 walk buf) h q (
                match_levels-LevelsAll order.volume none 0 walk buf (omega arith)
                  (All-walk_order (λ (x : P × List OrderbookEntry). All Q x.1) s (book_side ob s)
                    (book_side-AllEntries Q ob s h))
                  r))
        | inr (x, c) ↦ rw (c, insert_order) (h, r)
      ]

-- An insertion that is refused lets no order rest.
module _ {P : Type 0} ⦃fx : Fixed P⦄ (Q : OrderbookEntry → Type 0)
    (keeps : (e : OrderbookEntry) (v : ℕ)
      → v ≤ e.remaining_volume
      → Q e
      → Q (record e { remaining_volume = v }))
    (order : OrderInsertion P) where
  abbrev AnyTransaction : ObTransaction P → Type 0
  AnyTransaction t = Unit

  finish_refused-BookAll :
      (ob : Orderbook P) (m : LevelsMatch P) (z : OrderInsertionError)
      → BookAll Q ob
      → LevelsAll Q AnyTransaction keeps order (λ p v e q n. tt) m
      → (finish order ob m).0 ≡ err z
      → BookAll Q (finish order ob m).1
  unfolding finish
  finish_refused-BookAll ob (LevelsMatch.self_trade levels buf) z h l e =
      with_side-BookAll Q ob (opposite order.side) _ h
        (All-walk_order _ (opposite order.side) levels l.0)
  finish_refused-BookAll ob (LevelsMatch.matched levels remaining last d buf) z h l e =
      absurd (ground (arith, e))

  All-AnyTransaction : (buf : List (ObTransaction P)) → All AnyTransaction buf
  All-AnyTransaction [] = tt
  All-AnyTransaction (t ∷ ts) = (tt, All-AnyTransaction ts)

  pub insert_order_refused-BookAll :
      (ob : Orderbook P) (buf : List (ObTransaction P)) (z : OrderInsertionError)
      → BookAll Q ob
      → (insert_order order ob buf).0 ≡ err z
      → BookAll Q (insert_order order ob buf).1
  unfolding insert_order
  insert_order_refused-BookAll ob buf z h e =
      let s = opposite order.side in
      let walk = walk_order s (book_side ob s) in
      elim (Result-cases (check_volume order ob)) [
        | inl (_, c) ↦
            rw (c, insert_order)
              (finish_refused-BookAll ob (match_levels order order.volume none 0 walk buf) z h
                (match_levels-LevelsAll Q AnyTransaction keeps order (λ p v e q n. tt) order.volume
                  none 0 walk buf (omega arith)
                  (All-walk_order (λ (x : P × List OrderbookEntry). All Q x.1) s (book_side ob s)
                    (book_side-AllEntries Q ob s h))
                  (All-AnyTransaction buf))
                (rw (c, insert_order) at e))
        | inr (x, c) ↦ rw (c, insert_order) h
      ]
