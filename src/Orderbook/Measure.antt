-- ===== src/Orderbook/Measure.antt =====
-- The volume in a queue, on a side and in a list of transactions, as plain sums that do not wrap, and
-- what the operations on price levels do to it.
use market_sim_backend.Prelude.{
  ℕ, zero, suc, ◌+◌, ◌≡◌, refl, Option, none, some, List, [], ◌∷◌, ◌++◌, reverse, reverse-append,
  drop, arith, ap, ◌∙◌,
}
use market_sim_backend.Fixed.{Fixed}
use market_sim_backend.Orderbook.Types.{OrderbookEntry, ObTransaction, Levels}
use market_sim_backend.Orderbook.Validity.{keys, SortedBy, Below, All-Below-trans, level_at-Below}
use market_sim_backend.Orderbook.Levels.{level_at, put_level, remove_level}

abbrev pub queue_volume : List OrderbookEntry → ℕ
queue_volume [] = 0
queue_volume (e ∷ es) = e.remaining_volume + queue_volume es

pub queue_volume-append :
    (xs ys : List OrderbookEntry) → queue_volume (xs ++ ys) ≡ queue_volume xs + queue_volume ys
queue_volume-append [] ys = omega arith
queue_volume-append (x ∷ xs) ys = omega (arith, queue_volume-append xs ys)

-- The volume of the queue that `level_at` finds.
abbrev pub found_volume : Option (List OrderbookEntry) → ℕ
found_volume none = 0
found_volume (some es) = queue_volume es

module _ {P : Type 0} where
  abbrev pub levels_volume : Levels P → ℕ
  levels_volume [] = 0
  levels_volume ((p, es) ∷ t) = queue_volume es + levels_volume t

  abbrev pub traded : List (ObTransaction P) → ℕ
  traded [] = 0
  traded (t ∷ ts) = t.volume + traded ts

  pub traded-append : (xs ys : List (ObTransaction P)) → traded (xs ++ ys) ≡ traded xs + traded ys
  traded-append [] ys = omega arith
  traded-append (x ∷ xs) ys = omega (arith, traded-append xs ys)

  pub levels_volume-append :
      (xs ys : Levels P) → levels_volume (xs ++ ys) ≡ levels_volume xs + levels_volume ys
  levels_volume-append [] ys = omega arith
  levels_volume-append ((p, es) ∷ xs) ys = omega (arith, levels_volume-append xs ys)

  pub levels_volume-reverse : (xs : Levels P) → levels_volume (reverse xs) ≡ levels_volume xs
  levels_volume-reverse [] = refl
  levels_volume-reverse ((p, es) ∷ xs) =
      ap levels_volume (reverse-append ((p, es) ∷ []) xs)
      ∙ omega (arith, levels_volume-append (reverse xs) ((p, es) ∷ []), levels_volume-reverse xs)

  -- The first k levels have lost their queues.
  abbrev pub LeadingEmpty : ℕ → Levels P → Type 0
  LeadingEmpty zero levels = Unit
  LeadingEmpty (suc k) [] = ⊥
  LeadingEmpty (suc k) ((p, es) ∷ t) = (es ≡ []) × LeadingEmpty k t

  pub levels_volume-drop :
      (k : ℕ) (xs : Levels P) → LeadingEmpty k xs → levels_volume (drop k xs) ≡ levels_volume xs
  levels_volume-drop zero xs h = refl
  levels_volume-drop (suc k) [] h = refl
  levels_volume-drop (suc k) ((p, es) ∷ t) h =
      omega (arith, ap queue_volume h.0, levels_volume-drop k t h.1)

module _ {P : Type 0} ⦃fx : Fixed P⦄ where
  pub levels_volume-put_level :
      (levels : Levels P) (p : P) (es : List OrderbookEntry)
      → SortedBy Below (keys levels)
      → levels_volume (put_level levels p es) + found_volume (level_at levels p)
        ≡ levels_volume levels + queue_volume es
  unfolding put_level level_at
  levels_volume-put_level [] p es h = omega arith
  levels_volume-put_level ((q, w) ∷ t) p es h =
      ground (
        arith,
        levels_volume-put_level t p es h.1,
        level_at-Below t p,
        All-Below-trans p q (keys t),
      )

  pub levels_volume-remove_level :
      (levels : Levels P) (p : P)
      → levels_volume (remove_level levels p) + found_volume (level_at levels p)
        ≡ levels_volume levels
  unfolding remove_level level_at
  levels_volume-remove_level [] p = omega arith
  levels_volume-remove_level ((q, w) ∷ t) p = ground (arith, levels_volume-remove_level t p)
