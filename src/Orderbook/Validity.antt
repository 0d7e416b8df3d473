-- ===== src/Orderbook/Validity.antt =====
-- Well-formed books of src/orderbook.rs, and what the operations on price levels do to this, and to
-- prices.
use market_sim_backend.Prelude.{
  ℕ, zero, suc, ◌<◌, ◌≡◌, refl, ap, sym, ◌∙◌, none, some, List, [], ◌∷◌, ◌++◌, reverse,
  reverse-append, length, drop, All, All-append, arith,
}
use market_sim_backend.Fixed.{Fixed}
use market_sim_backend.Orderbook.Types.{OrderbookEntry, Levels, Orderbook}
use market_sim_backend.Orderbook.Levels.{level_at, put_level, remove_level}

abbrev pub Positive : List OrderbookEntry → Type 0
Positive es = All (λ e. 0 < e.remaining_volume) es

module _ {P : Type 0} where
  abbrev pub keys : Levels P → List P
  keys [] = []
  keys ((p, es) ∷ t) = p ∷ keys t

  -- A level that holds an order, and no order that is used up.
  abbrev pub IsLive : P × List OrderbookEntry → Type 0
  IsLive (p, es) = (0 < length es) × Positive es

  -- Each value is related to all that follow it.
  abbrev pub SortedBy : (P → P → Type 0) → List P → Type 0
  SortedBy R [] = Unit
  SortedBy R (p ∷ ps) = All (λ q. R p q) ps × SortedBy R ps

  pub SortedBy-append :
      (R : P → P → Type 0) (xs ys : List P)
      → SortedBy R xs
      → SortedBy R ys
      → All (λ x. All (λ y. R x y) ys) xs
      → SortedBy R (xs ++ ys)
  SortedBy-append R [] ys hx hy h = hy
  SortedBy-append R (x ∷ xs) ys hx hy h =
      (All-append (λ q. R x q) xs ys hx.0 h.0, SortedBy-append R xs ys hx.1 hy h.1)

  pub SortedBy-drop :
      (R : P → P → Type 0) (k : ℕ) (xs : List P) → SortedBy R xs → SortedBy R (drop k xs)
  SortedBy-drop R zero xs h = h
  SortedBy-drop R (suc k) [] h = tt
  SortedBy-drop R (suc k) (x ∷ xs) h = SortedBy-drop R k xs h.1

  pub keys-append : (xs ys : Levels P) → keys (xs ++ ys) ≡ keys xs ++ keys ys
  keys-append [] ys = refl
  keys-append ((p, es) ∷ xs) ys = ap (λ l. p ∷ l) (keys-append xs ys)

  pub keys-drop : (k : ℕ) (xs : Levels P) → keys (drop k xs) ≡ drop k (keys xs)
  keys-drop zero xs = refl
  keys-drop (suc k) [] = refl
  keys-drop (suc k) ((p, es) ∷ xs) = keys-drop k xs

  pub keys-reverse : (xs : Levels P) → keys (reverse xs) ≡ reverse (keys xs)
  keys-reverse [] = refl
  keys-reverse ((p, es) ∷ xs) =
      ap keys (reverse-append ((p, es) ∷ []) xs)
      ∙ keys-append (reverse xs) ((p, es) ∷ [])
      ∙ ap (λ l. l ++ p ∷ []) (keys-reverse xs)
      ∙ sym (reverse-append (p ∷ []) (keys xs))

module _ {ℓ κ} {A : Type ℓ} (Q : A → Type κ) where
  pub All-reverse : (xs : List A) → All Q xs → All Q (reverse xs)
  All-reverse [] h = tt
  All-reverse (x ∷ xs) h =
      rw (reverse-append (x ∷ []) xs)
        (All-append Q (reverse xs) (x ∷ []) (All-reverse xs h.1) (h.0, tt))

module _ {P : Type 0} where
  pub All-singletons :
      (R : P → P → Type 0) (x : P) (xs : List P)
      → All (λ y. R x y) xs
      → All (λ y. All (λ z. R z y) (x ∷ [])) xs
  All-singletons R x [] h = tt
  All-singletons R x (y ∷ ys) h = ((h.0, tt), All-singletons R x ys h.1)

  pub SortedBy-reverse :
      (R : P → P → Type 0) (xs : List P) → SortedBy R xs → SortedBy (λ p q. R q p) (reverse xs)
  SortedBy-reverse R [] h = tt
  SortedBy-reverse R (x ∷ xs) h = rw (reverse-append (x ∷ []) xs) (
      SortedBy-append (λ p q. R q p) (reverse xs) (x ∷ []) (SortedBy-reverse R xs h.1) (tt, tt)
        (All-reverse (λ y. All (λ z. R z y) (x ∷ [])) xs (All-singletons R x xs h.0)))

module _ {P : Type 0} ⦃fx : Fixed P⦄ where
  abbrev pub Below : P → P → Type 0
  Below p q = fx.rank p < fx.rank q

  abbrev pub IsSideValid : Levels P → Type 0
  IsSideValid levels = SortedBy Below (keys levels) × All IsLive levels

  pub record IsValid (ob : Orderbook P) : Type 0 where
    pub bids_valid : IsSideValid ob.bids
    pub asks_valid : IsSideValid ob.asks

  -- Every bid is below every ask.
  abbrev pub Uncrossed : Orderbook P → Type 0
  Uncrossed ob = All (λ b. All (λ a. Below b a) (keys ob.asks)) (keys ob.bids)

  pub All-keys-put_level :
      (Q : P → Type 0) (levels : Levels P) (p : P) (es : List OrderbookEntry)
      → Q p
      → All Q (keys levels)
      → All Q (keys (put_level levels p es))
  unfolding put_level
  All-keys-put_level Q [] p es q h = (q, tt)
  All-keys-put_level Q ((r, w) ∷ t) p es q h = ground (arith, All-keys-put_level Q t p es q h.1)

  pub All-keys-remove_level :
      (Q : P → Type 0) (levels : Levels P) (p : P)
      → All Q (keys levels)
      → All Q (keys (remove_level levels p))
  unfolding remove_level
  All-keys-remove_level Q [] p h = tt
  All-keys-remove_level Q ((r, w) ∷ t) p h = ground (arith, All-keys-remove_level Q t p h.1)

  -- A bound on the first price of a sorted list bounds them all.
  pub All-Below-trans :
      (p q : P) (ps : List P) → Below p q → All (λ r. Below q r) ps → All (λ r. Below p r) ps
  All-Below-trans p q [] h a = tt
  All-Below-trans p q (r ∷ ps) h a = (omega arith, All-Below-trans p q ps h a.1)

  pub level_at-Below :
      (levels : Levels P) (p : P) → All (λ q. Below p q) (keys levels) → level_at levels p ≡ none
  unfolding level_at
  level_at-Below [] p h = refl
  level_at-Below ((q, w) ∷ t) p h = ground (arith, level_at-Below t p h.1)

  pub put_level-SortedBy :
      (levels : Levels P) (p : P) (es : List OrderbookEntry)
      → SortedBy Below (keys levels)
      → SortedBy Below (keys (put_level levels p es))
  unfolding put_level
  put_level-SortedBy [] p es h = (tt, tt)
  put_level-SortedBy ((q, w) ∷ t) p es h = ground (
    arith,
    put_level-SortedBy t p es h.1,
    All-keys-put_level (λ r. Below q r) t p es,
    All-Below-trans p q (keys t),
  )

  pub remove_level-SortedBy :
      (levels : Levels P) (p : P)
      → SortedBy Below (keys levels)
      → SortedBy Below (keys (remove_level levels p))
  unfolding remove_level
  remove_level-SortedBy [] p h = tt
  remove_level-SortedBy ((q, w) ∷ t) p h =
      ground (arith, remove_level-SortedBy t p h.1, All-keys-remove_level (λ r. Below q r) t p h.0)

  pub put_level-IsLive :
      (levels : Levels P) (p : P) (es : List OrderbookEntry)
      → IsLive (p, es)
      → All IsLive levels
      → All IsLive (put_level levels p es)
  unfolding put_level
  put_level-IsLive [] p es l h = (l, tt)
  put_level-IsLive ((q, w) ∷ t) p es l h = ground (arith, put_level-IsLive t p es l h.1)

  pub remove_level-IsLive :
      (levels : Levels P) (p : P) → All IsLive levels → All IsLive (remove_level levels p)
  unfolding remove_level
  remove_level-IsLive [] p h = tt
  remove_level-IsLive ((q, w) ∷ t) p h = ground (arith, remove_level-IsLive t p h.1)

  -- The queue at a price of a valid side.
  pub level_at-IsLive :
      (levels : Levels P) (p : P) (es : List OrderbookEntry)
      → level_at levels p ≡ some es
      → All IsLive levels
      → IsLive (p, es)
  unfolding level_at
  level_at-IsLive [] p es e h = cc
  level_at-IsLive ((q, w) ∷ t) p es e h = ground (arith, level_at-IsLive t p es)
