-- ===== src/Orderbook/Flat.antt =====
-- A plain walk over the orders of a side one by one, best price first and first come first served, for
-- the two loops of `insert_order` in src/orderbook.rs to be compared with.
use market_sim_backend.Prelude.{
  ℕ, zero, suc, ◌+◌, ◌-◌, ◌<◌, ◌≡◌, refl, ap, sym, ◌∙◌, false, Bool-cases, Option, List, [], ◌∷◌,
  ◌++◌, append-nil, append_assoc, reverse, reverse-reverse, drop, All, min, ◌==◌, if◌then◌else◌,
  inl, inr, arith,
}
use market_sim_backend.Fixed.{Fixed}
use market_sim_backend.Order.{Side, OrderInsertion}
use market_sim_backend.Orderbook.Types.{OrderbookEntry, ObTransaction, Levels}
use market_sim_backend.Orderbook.Matching.{
  QueueMatch, LevelsMatch, pop_filled, transaction, past, is_empty, walk_order, stops_at,
  match_queue, match_levels,
}
use market_sim_backend.Orderbook.Validity.{IsLive}
use market_sim_backend.Orderbook.Measure.{LeadingEmpty}

-- Resting orders, each with its price, in the order of their priority.
abbrev pub Flat : Type 0 → Type 0
Flat P = List (P × OrderbookEntry)

module _ {P : Type 0} where
  abbrev pub tag : P → List OrderbookEntry → Flat P
  tag p [] = []
  tag p (e ∷ es) = (p, e) ∷ tag p es

  abbrev pub flatten : Levels P → Flat P
  flatten [] = []
  flatten ((p, es) ∷ t) = tag p es ++ flatten t

  -- The resting orders of a side: asks from the lowest price on, bids from the highest price on, and
  -- those at one price as they came.
  abbrev pub priority : Side → Levels P → Flat P
  priority Side.ask levels = flatten levels
  priority Side.bid levels = flatten (reverse levels)

  pub priority-walk_order :
      (side : Side) (levels : Levels P) → priority side levels ≡ flatten (walk_order side levels)
  priority-walk_order Side.ask levels = refl
  priority-walk_order Side.bid levels = refl

  pub flatten-drop :
      (k : ℕ) (levels : Levels P) → LeadingEmpty k levels → flatten (drop k levels) ≡ flatten levels
  flatten-drop zero levels h = refl
  flatten-drop (suc k) [] h = refl
  flatten-drop (suc k) ((p, es) ∷ t) h =
      flatten-drop k t h.1 ∙ sym (ap (λ l. tag p l ++ flatten t) h.0)

  pub walk_order-walk_order :
      (side : Side) (levels : Levels P) → walk_order side (walk_order side levels) ≡ levels
  walk_order-walk_order Side.ask levels = refl
  walk_order-walk_order Side.bid levels = reverse-reverse levels

module _ {P : Type 0} ⦃fx : Fixed P⦄ where
  -- The trades of an order for `remaining`, and the resting orders that they leave.
  abbrev pub fill_flat : OrderInsertion P → ℕ → Flat P → List (ObTransaction P) × Flat P
  fill_flat order remaining [] = ([], [])
  fill_flat order remaining ((p, e) ∷ q) =
      let v = min remaining e.remaining_volume in
      let e' : OrderbookEntry = record e { remaining_volume = e.remaining_volume - v } in
      let t = transaction order p v e in
      let rest = fill_flat order (remaining - v) q in
      if stops_at order p
      then ([], (p, e) ∷ q)
      else if (remaining - v) == 0
      then (t ∷ [], tag p (pop_filled e' []) ++ q)
      else (t ∷ rest.0, rest.1)

  -- Going on with what is behind a queue, after the loop over it.
  abbrev after :
      OrderInsertion P
      → ℕ
      → List (ObTransaction P)
      → Flat P
      → Flat P
      → List (ObTransaction P) × Flat P
  after order remaining new left q =
      let rest = fill_flat order remaining q in
      if remaining == 0 then (new, left ++ q) else (new ++ rest.0, left ++ rest.1)

  abbrev QueueFlat :
      OrderInsertion P
      → P
      → ℕ
      → List OrderbookEntry
      → List (ObTransaction P)
      → QueueMatch P
      → Type 0
  QueueFlat order p remaining es buf (QueueMatch.self_trade es' buf') = Unit
  QueueFlat order p remaining es buf (QueueMatch.matched es' remaining' last' buf') =
      (new : List (ObTransaction P)) × (buf' ≡ buf ++ new)
      × ((q : Flat P)
          → fill_flat order remaining (tag p es ++ q) ≡ after order remaining' new (tag p es') q)

  -- One more trade in front.
  next-QueueFlat :
      (order : OrderInsertion P) (p : P) (remaining : ℕ) (e : OrderbookEntry)
      (es : List OrderbookEntry) (buf : List (ObTransaction P)) (m : QueueMatch P)
      → stops_at order p ≡ false
      → let v = min remaining e.remaining_volume in
        ((remaining - v) == 0) ≡ false
        → QueueFlat order p (remaining - v) es (buf ++ transaction order p v e ∷ []) m
        → QueueFlat order p remaining (e ∷ es) buf m
  next-QueueFlat order p remaining e es buf (QueueMatch.self_trade es' buf') go more h = tt
  next-QueueFlat order p remaining e es buf (QueueMatch.matched es' remaining' last' buf') go more
        (new, same, flat) =
      let t = transaction order p (min remaining e.remaining_volume) e in
      (
        t ∷ new,
        same ∙ append_assoc buf (t ∷ []) new,
        λ q. elim (Bool-cases (remaining' == 0)) [
          | inl done ↦ rw (go, more, flat q, done, if◌then◌else◌) refl
          | inr goes_on ↦ rw (go, more, flat q, goes_on, if◌then◌else◌) refl
        ],
      )

  match_queue-QueueFlat :
      (order : OrderInsertion P) (p : P) (remaining : ℕ) (last : Option P)
      (es : List OrderbookEntry) (buf : List (ObTransaction P))
      → 0 < remaining
      → stops_at order p ≡ false
      → QueueFlat order p remaining es buf (match_queue order p remaining last es buf)
  unfolding match_queue
  match_queue-QueueFlat order p remaining last [] buf l go =
      let more : (remaining == 0) ≡ false = ground arith in
      ([], sym (append-nil buf), λ q. rw (more, if◌then◌else◌) refl)
  match_queue-QueueFlat order p remaining last (e ∷ es) buf l go =
      let v = min remaining e.remaining_volume in
      let t = transaction order p v e in
      elim (Bool-cases (order.account_id == e.account_id)) [
        | inl own ↦ rw (own, match_queue) tt
        | inr other ↦ elim (Bool-cases ((remaining - v) == 0)) [
          | inl done ↦
              rw (other, done, match_queue)
                (
                  t ∷ [],
                  refl,
                  λ q. elim (Bool-cases ((e.remaining_volume - v) == 0)) [
                    | inl used ↦ rw (go, done, used, if◌then◌else◌) refl
                    | inr kept ↦ rw (go, done, kept, if◌then◌else◌) refl
                  ],
                )
          | inr more ↦
              rw (other, more, match_queue)
                (next-QueueFlat order p remaining e es buf _ go more (
                  match_queue-QueueFlat order p (remaining - v) last es (buf ++ t ∷ [])
                    (ground arith) go))
        ]
      ]

  abbrev pub LevelsFlat :
      OrderInsertion P → ℕ → Levels P → List (ObTransaction P) → LevelsMatch P → Type 0
  LevelsFlat order remaining levels buf (LevelsMatch.self_trade levels' buf') = Unit
  LevelsFlat order remaining levels buf (LevelsMatch.matched levels' remaining' last d buf') =
      (buf' ≡ buf ++ (fill_flat order remaining (flatten levels)).0)
      × (flatten levels' ≡ (fill_flat order remaining (flatten levels)).1)

  past-LevelsFlat :
      (order : OrderInsertion P) (p : P) (es es' : List OrderbookEntry) (remaining remaining' : ℕ)
      (t : Levels P) (buf buf' new : List (ObTransaction P)) (m : LevelsMatch P)
      → (remaining' == 0) ≡ false
      → buf' ≡ buf ++ new
      → ((q : Flat P)
          → fill_flat order remaining (tag p es ++ q) ≡ after order remaining' new (tag p es') q)
      → LevelsFlat order remaining' t buf' m
      → LevelsFlat order remaining ((p, es) ∷ t) buf (past (p, es') m)
  past-LevelsFlat order p es es' remaining remaining' t buf buf' new (LevelsMatch.self_trade l b)
        more same flat h =
      tt
  past-LevelsFlat order p es es' remaining remaining' t buf buf' new
        (LevelsMatch.matched l r last d b) more same flat h =
      rw (flat (flatten t), more, if◌then◌else◌)
        (
          h.0
              ∙ ap (λ x. x ++ (fill_flat order remaining' (flatten t)).0) same
              ∙ append_assoc buf new (fill_flat order remaining' (flatten t)).0,
          ap (λ x. tag p es' ++ x) h.1,
        )

  level-LevelsFlat :
      (order : OrderInsertion P) (p : P) (es : List OrderbookEntry) (remaining deletions : ℕ)
      (t : Levels P) (buf : List (ObTransaction P)) (q : QueueMatch P)
      (go_on : ℕ → Option P → ℕ → List (ObTransaction P) → LevelsMatch P)
      → QueueFlat order p remaining es buf q
      → ((rem : ℕ) (last : Option P) (d : ℕ) (b : List (ObTransaction P))
          → 0 < rem
          → LevelsFlat order rem t b (go_on rem last d b))
      → LevelsFlat order remaining ((p, es) ∷ t) buf (elim q [
        | QueueMatch.self_trade orders' buf' ↦ LevelsMatch.self_trade ((p, orders') ∷ t) buf'
        | QueueMatch.matched orders' remaining' last' buf' ↦
            let deletions' = deletions + is_empty orders' in
            let rest = go_on remaining' last' deletions' buf' in
            if remaining' == 0
            then LevelsMatch.matched ((p, orders') ∷ t) remaining' last' deletions' buf'
            else past (p, orders') rest
      ])
  level-LevelsFlat order p es remaining deletions t buf (QueueMatch.self_trade es' buf') go_on h
        ih =
      tt
  level-LevelsFlat order p es remaining deletions t buf
        (QueueMatch.matched es' remaining' last' buf') go_on (new, same, flat) ih =
      elim (Bool-cases (remaining' == 0)) [
        | inl done ↦
            rw (done, if◌then◌else◌) (rw (flat (flatten t), done, if◌then◌else◌) (same, refl))
        | inr more ↦
            let d : ℕ = deletions + is_empty es' in
            rw (more, if◌then◌else◌)
              (past-LevelsFlat order p es es' remaining remaining' t buf buf' new
                (go_on remaining' last' d buf') more same flat
                (ih remaining' last' d buf' (ground arith)))
      ]

  pub match_levels-LevelsFlat :
      (order : OrderInsertion P) (remaining : ℕ) (last : Option P) (deletions : ℕ)
      (levels : Levels P) (buf : List (ObTransaction P))
      → All IsLive levels
      → 0 < remaining
      → LevelsFlat order remaining levels buf
          (match_levels order remaining last deletions levels buf)
  unfolding match_levels
  match_levels-LevelsFlat order remaining last deletions [] buf h l = (sym (append-nil buf), refl)
  match_levels-LevelsFlat order remaining last deletions ((p, []) ∷ t) buf h l =
      absurd (omega arith)
  match_levels-LevelsFlat order remaining last deletions ((p, e ∷ es) ∷ t) buf h l =
      elim (Bool-cases (stops_at order p)) [
        | inl stop ↦ rw (stop, match_levels) (rw (stop, if◌then◌else◌) (sym (append-nil buf), refl))
        | inr go ↦
            rw (go, match_levels)
              (level-LevelsFlat order p (e ∷ es) remaining deletions t buf
                (match_queue order p remaining last (e ∷ es) buf)
                (λ rem last' d b. match_levels order rem last' d t b)
                (match_queue-QueueFlat order p remaining last (e ∷ es) buf l go)
                (λ rem last' d b r. match_levels-LevelsFlat order rem last' d t b h.1 r))
      ]
