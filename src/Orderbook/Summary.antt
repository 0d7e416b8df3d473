-- ===== src/Orderbook/Summary.antt =====
-- `get_l1` of src/orderbook.rs against the levels of the book.
use market_sim_backend.Prelude.{
  ℕ, Bool-cases, inl, inr, ◌+◌, ◌<◌, ◌≤◌, ◌≡◌, refl, Option, none, some, List, [], ◌∷◌, All, length,
  u32_mod, add32, arith,
}
use market_sim_backend.Fixed.{Fixed, price_eq}
use market_sim_backend.Orderbook.Types.{OrderbookEntry, Levels, Orderbook, PriceLevelAggregate}
use market_sim_backend.Orderbook.Levels.{level_at}
use market_sim_backend.Orderbook.Validity.{keys, Positive, Below, IsSideValid, IsValid, Uncrossed}
use market_sim_backend.Orderbook.Measure.{queue_volume, levels_volume}
use market_sim_backend.Orderbook.Views.{
  sum_volume, aggregate, aggregate?, first_level, last_level, get_l1,
}

-- Where nothing wraps, the sum of the volumes is what the queue holds.
sum_volume-exact :
    (acc : ℕ) (es : List OrderbookEntry)
    → acc + queue_volume es < u32_mod
    → sum_volume acc es ≡ acc + queue_volume es
unfolding sum_volume
sum_volume-exact acc [] f = omega arith
sum_volume-exact acc (e ∷ es) f =
    omega (arith, sum_volume-exact (add32 acc e.remaining_volume) es (omega arith))

queue_volume-Positive :
    (es : List OrderbookEntry) → 0 < length es → Positive es → 0 < queue_volume es
queue_volume-Positive [] l h = absurd (omega (arith, l))
queue_volume-Positive (e ∷ es) l h = omega (arith, h.0)

module _ {P : Type 0} ⦃fx : Fixed P⦄ where
  -- What a summary of one level says: its price is one of the side that R puts before all others, and its
  -- volume, which is not 0, that of the queue there. There is none just for an empty side.
  abbrev pub IsBest : (P → P → Type 0) → Levels P → Option (PriceLevelAggregate P) → Type 0
  IsBest R levels none = levels ≡ []
  IsBest R levels (some a) =
      All (λ p. R a.price p) (keys levels)
      × (0 < a.volume)
      × (es : List OrderbookEntry) × (level_at levels a.price ≡ some es)
      × (a.volume ≡ queue_volume es)

  abbrev pub IsSpread : Option (PriceLevelAggregate P) → Option (PriceLevelAggregate P) → Type 0
  IsSpread (some b) (some a) = Below b.price a.price
  IsSpread _ _ = Unit

  All-Below-≤ :
      (p : P) (ps : List P) → All (λ q. Below p q) ps → All (λ q. fx.rank p ≤ fx.rank q) ps
  All-Below-≤ p [] h = tt
  All-Below-≤ p (q ∷ ps) h = (omega (arith, h.0), All-Below-≤ p ps h.1)

  first_level-IsBest :
      (levels : Levels P)
      → IsSideValid levels
      → levels_volume levels < u32_mod
      → IsBest (λ p q. fx.rank p ≤ fx.rank q) levels (aggregate? (first_level levels))
  unfolding aggregate level_at
  first_level-IsBest [] v f = refl
  first_level-IsBest ((p, es) ∷ t) v f =
      let exact = sum_volume-exact 0 es (omega arith) in
      let positive = queue_volume-Positive es v.1.0.0 v.1.0.1 in
      ((omega arith, All-Below-≤ p (keys t) v.0.0), omega arith, es, ground arith, omega arith)

  -- A level before all others does not change which is the last.
  IsBest-cons :
      (p : P) (es : List OrderbookEntry) (l : P × List OrderbookEntry) (t : Levels P)
      (best : Option (PriceLevelAggregate P))
      → All (λ q. Below p q) (keys (l ∷ t))
      → IsBest (λ q r. fx.rank r ≤ fx.rank q) (l ∷ t) best
      → IsBest (λ q r. fx.rank r ≤ fx.rank q) ((p, es) ∷ l ∷ t) best
  unfolding level_at
  IsBest-cons p es l t none b h = absurd (cc h)
  IsBest-cons p es (q, fs) t (some a) b (bound, positive, gs, found, exact) = (
    (omega (arith, b.0, bound.0), bound),
    positive,
    gs,
    ground (arith, b.0, bound.0, found),
    exact,
  )

  last_level-IsBest :
      (levels : Levels P)
      → IsSideValid levels
      → levels_volume levels < u32_mod
      → IsBest (λ p q. fx.rank q ≤ fx.rank p) levels (aggregate? (last_level levels))
  unfolding aggregate
  last_level-IsBest [] v f = refl
  last_level-IsBest ((p, es) ∷ []) v f =
      let (bound, positive, gs, found, exact) = first_level-IsBest ((p, es) ∷ []) v f in
      (bound, positive, gs, found, exact)
  last_level-IsBest ((p, es) ∷ (q, fs) ∷ t) v f =
      IsBest-cons p es (q, fs) t (aggregate? (last_level ((q, fs) ∷ t))) v.0.0
        (last_level-IsBest ((q, fs) ∷ t) (v.0.1, v.1.1) (omega arith))

  All-found :
      (Q : P → Type 0) (levels : Levels P) (p : P) (es : List OrderbookEntry)
      → All Q (keys levels)
      → level_at levels p ≡ some es
      → (q : P) × Q q × (fx.rank q ≡ fx.rank p)
  unfolding level_at
  All-found Q [] p es h e = absurd (cc e)
  All-found Q ((q, w) ∷ t) p es h e = elim (Bool-cases (price_eq q p)) [
    | inl here ↦ (q, h.0, ground (arith, here))
    | inr later ↦ All-found Q t p es h.1 (rw (later, level_at) at e)
  ]

  best-IsSpread :
      (ob : Orderbook P) (R S : P → P → Type 0) (b a : Option (PriceLevelAggregate P))
      → Uncrossed ob
      → IsBest R ob.bids b
      → IsBest S ob.asks a
      → IsSpread b a
  best-IsSpread ob R S none a u hb ha = tt
  best-IsSpread ob R S (some b) none u hb ha = tt
  best-IsSpread ob R S (some b) (some a) u (bb, pb, es, fb, eb) (ba, pa, fs, fa, ea) =
      let (p, below, same) =
        All-found (λ p. All (λ q. Below p q) (keys ob.asks)) ob.bids b.price es u fb in
      let (q, above, same') = All-found (λ q. Below p q) ob.asks a.price fs below fa in
      omega (arith, above, same, same')

  -- In a valid book where every bid is below every ask and the volume of each side fits a u32, L1 has the
  -- highest bid and the lowest ask, each with the volume of the queue at its price, which is positive; it
  -- has none just where the side is empty, and its bid is below its ask.
  pub get_l1_lem :
      (ob : Orderbook P)
      → IsValid ob
      → Uncrossed ob
      → levels_volume ob.bids < u32_mod
      → levels_volume ob.asks < u32_mod
      → IsBest (λ p q. fx.rank q ≤ fx.rank p) ob.bids (get_l1 ob).best_bid
        × IsBest (λ p q. fx.rank p ≤ fx.rank q) ob.asks (get_l1 ob).best_ask
        × IsSpread (get_l1 ob).best_bid (get_l1 ob).best_ask
  unfolding get_l1
  get_l1_lem ob v u fb fa =
      let bid = last_level-IsBest ob.bids v.bids_valid fb in
      let ask = first_level-IsBest ob.asks v.asks_valid fa in
      (bid, ask, best-IsSpread ob _ _ _ _ u bid ask)
