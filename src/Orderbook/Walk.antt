-- ===== src/Orderbook/Walk.antt =====
-- The two loops of `insert_order` in src/orderbook.rs: what they leave of the levels, of the order and
-- in the buffer.
use market_sim_backend.Prelude.{
  ℕ, suc, ◌+◌, ◌-◌, ◌≡◌, refl, true, false, Option, List, [], ◌∷◌, ◌++◌, min, Bool-cases, ap,
  ==_iff, All, ◌==◌, ◌⊎◌, if◌then◌else◌, arith, inl, inr, drop,
}
use market_sim_backend.Fixed.{Fixed}
use market_sim_backend.Order.{OrderInsertion}
use market_sim_backend.Orderbook.Types.{OrderbookEntry, ObTransaction, Levels}
use market_sim_backend.Orderbook.Matching.{
  QueueMatch, LevelsMatch, transaction, match_queue, match_levels, stops_at, is_empty, past,
}
use market_sim_backend.Orderbook.Validity.{keys, Positive, IsLive}
use market_sim_backend.Orderbook.Measure.{
  queue_volume, levels_volume, traded, traded-append, LeadingEmpty,
}

module _ {P : Type 0} where
  -- Where the loop over a queue ends normally: the remaining volume and the queue have both lost
  -- what was traded, volume remains only if the queue is empty, and no entry is used up.
  abbrev pub QueueDone : ℕ → List OrderbookEntry → List (ObTransaction P) → QueueMatch P → Type 0
  QueueDone remaining es buf (QueueMatch.self_trade es' buf') = Unit
  QueueDone remaining es buf (QueueMatch.matched es' remaining' last' buf') =
      (remaining' + traded buf' ≡ remaining + traded buf)
      × (queue_volume es' + traded buf' ≡ queue_volume es + traded buf)
      × ((remaining' ≡ 0) ⊎ (es' ≡ []))
      × Positive es'

  pub match_queue-QueueDone :
      (order : OrderInsertion P) (price : P) (remaining : ℕ) (last : Option P)
      (es : List OrderbookEntry) (buf : List (ObTransaction P))
      → Positive es
      → QueueDone remaining es buf (match_queue order price remaining last es buf)
  unfolding match_queue
  match_queue-QueueDone order price remaining last [] buf h = (refl, refl, inr refl, tt)
  match_queue-QueueDone order price remaining last (e ∷ es) buf h =
      let v = min remaining e.remaining_volume in
      let t = transaction order price v e in
      ground (
        arith,
        traded-append buf (t ∷ []),
        match_queue-QueueDone order price (remaining - v) last es (buf ++ t ∷ []) h.1,
      )

module _ {P : Type 0} ⦃fx : Fixed P⦄ where
  -- The volume at the prices that the order does not accept.
  abbrev pub out_volume : OrderInsertion P → Levels P → ℕ
  out_volume order [] = 0
  out_volume order ((p, es) ∷ t) =
      (if stops_at order p then queue_volume es else 0) + out_volume order t

  -- Where the walk has ended: the order accepts no level that is left.
  abbrev pub StopsAtHead : OrderInsertion P → Levels P → Type 0
  StopsAtHead order [] = Unit
  StopsAtHead order ((p, es) ∷ t) = stops_at order p ≡ true

  -- Where the loop over the levels ends, k levels later: prices are as before, the deletions are the
  -- k emptied levels at the front, the others are live, volume is conserved, and volume remains only
  -- if the order accepts none of the levels left.
  abbrev pub LevelsDone :
      OrderInsertion P → ℕ → ℕ → Levels P → List (ObTransaction P) → LevelsMatch P → Type 0
  LevelsDone order remaining deletions levels buf (LevelsMatch.self_trade levels' buf') =
      keys levels' ≡ keys levels
  LevelsDone order remaining deletions levels buf
        (LevelsMatch.matched levels' remaining' last deletions' buf') =
      (k : ℕ) × (deletions' ≡ deletions + k)
      × LeadingEmpty k levels'
      × (keys levels' ≡ keys levels)
      × All IsLive (drop k levels')
      × (remaining' + traded buf' ≡ remaining + traded buf)
      × (levels_volume levels' + traded buf' ≡ levels_volume levels + traded buf)
      × ((remaining' ≡ 0) ⊎ StopsAtHead order (drop k levels'))
      × (out_volume order levels' ≡ out_volume order levels)

  -- Going on behind a level whose queue was emptied.
  past-LevelsDone :
      (order : OrderInsertion P) (p : P) (es : List OrderbookEntry)
      (remaining remaining' deletions : ℕ) (t : Levels P) (buf buf' : List (ObTransaction P))
      (r : LevelsMatch P)
      → stops_at order p ≡ false
      → remaining' + traded buf' ≡ remaining + traded buf
      → traded buf' ≡ queue_volume es + traded buf
      → LevelsDone order remaining' (deletions + 1) t buf' r
      → LevelsDone order remaining deletions ((p, es) ∷ t) buf (past (p, []) r)
  past-LevelsDone order p es remaining remaining' deletions t buf buf'
        (LevelsMatch.self_trade levels' b) go e f h =
      ap (λ l. p ∷ l) h
  past-LevelsDone order p es remaining remaining' deletions t buf buf'
        (LevelsMatch.matched levels' rem last d b) go e f h =
      (
        suc h.0,
        omega (arith, h.1),
        (refl, h.2),
        ap (λ l. p ∷ l) h.3,
        h.4,
        omega (arith, h.5),
        omega (arith, h.6),
        h.7,
        rw (go, if◌then◌else◌) (ap (λ (n : ℕ). 0 + n) h.8),
      )

  -- One level of the walk, from the end of its queue's loop.
  level-LevelsDone :
      (order : OrderInsertion P) (p : P) (es : List OrderbookEntry) (remaining deletions : ℕ)
      (t : Levels P) (buf : List (ObTransaction P)) (q : QueueMatch P)
      (go_on : ℕ → Option P → ℕ → List (ObTransaction P) → LevelsMatch P)
      → stops_at order p ≡ false
      → All IsLive t
      → QueueDone remaining es buf q
      → ((rem : ℕ) (last : Option P) (d : ℕ) (b : List (ObTransaction P))
          → LevelsDone order rem d t b (go_on rem last d b))
      → LevelsDone order remaining deletions ((p, es) ∷ t) buf (elim q [
        | QueueMatch.self_trade orders' buf' ↦ LevelsMatch.self_trade ((p, orders') ∷ t) buf'
        | QueueMatch.matched orders' remaining' last' buf' ↦
            let deletions' = deletions + is_empty orders' in
            let rest = go_on remaining' last' deletions' buf' in
            if remaining' == 0
            then LevelsMatch.matched ((p, orders') ∷ t) remaining' last' deletions' buf'
            else past (p, orders') rest
      ])
  level-LevelsDone order p es remaining deletions t buf (QueueMatch.self_trade orders' buf') go_on
        go l h ih =
      refl
  level-LevelsDone order p es remaining deletions t buf
        (QueueMatch.matched [] remaining' last' buf') go_on go l h ih =
      elim (Bool-cases (remaining' == 0)) [
        | inl done ↦
            rw (done, if◌then◌else◌)
              (
                1,
                refl,
                (refl, tt),
                refl,
                l,
                h.0,
                omega (arith, h.1),
                inl ((==_iff remaining' 0).0 done),
                rw (go, if◌then◌else◌) refl,
              )
        | inr more ↦
            rw (more, if◌then◌else◌)
              (past-LevelsDone order p es remaining remaining' deletions t buf buf'
                (go_on remaining' last' (deletions + 1) buf') go h.0 (omega (arith, h.1))
                (ih remaining' last' (deletions + 1) buf'))
      ]
  level-LevelsDone order p es remaining deletions t buf
        (QueueMatch.matched (e ∷ orders') remaining' last' buf') go_on go l h ih =
      let drained : remaining' ≡ 0 = ground arith in
      let done : (remaining' == 0) ≡ true = (==_iff remaining' 0).1 drained in
      rw (done, if◌then◌else◌)
        (
          0,
          refl,
          tt,
          refl,
          ((omega arith, h.3), l),
          h.0,
          omega (arith, h.1),
          inl drained,
          rw (go, if◌then◌else◌) refl,
        )

  pub match_levels-LevelsDone :
      (order : OrderInsertion P) (remaining : ℕ) (last : Option P) (deletions : ℕ)
      (levels : Levels P) (buf : List (ObTransaction P))
      → All IsLive levels
      → LevelsDone order remaining deletions levels buf
          (match_levels order remaining last deletions levels buf)
  unfolding match_levels
  match_levels-LevelsDone order remaining last deletions [] buf h =
      (0, omega arith, tt, refl, tt, refl, refl, inr tt, refl)
  match_levels-LevelsDone order remaining last deletions ((p, es) ∷ t) buf h =
      elim (Bool-cases (stops_at order p)) [
        | inl stop ↦
            rw (stop, if◌then◌else◌) (0, omega arith, tt, refl, h, refl, refl, inr stop, refl)
        | inr go ↦
            rw (go, if◌then◌else◌)
              (level-LevelsDone order p es remaining deletions t buf
                (match_queue order p remaining last es buf)
                (λ rem last' d b. match_levels order rem last' d t b) go h.1
                (match_queue-QueueDone order p remaining last es buf h.0.1)
                (λ rem last' d b. match_levels-LevelsDone order rem last' d t b h.1))
      ]
