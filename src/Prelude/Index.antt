-- ===== src/Prelude/Index.antt =====
-- Reading a list by index after an insertion, an append and a fill.
use Prim.Native.Nat.{ℕ, zero, suc, ◌+◌, ◌<◌, ◌≤◌}
use mathlib.Core.Path.{◌≡◌, refl, ap}
use mathlib.Core.List.{List, [], ◌∷◌, ◌++◌}
use mathlib.Core.Option.{none, some}
use native.Mathlib.Omega.{arith}
use market_sim_backend.Prelude.Lists.{length, get_elem?, replicate, insert_idx}

module _ {ℓ} {A : Type ℓ} where
  pub get_elem?-append_lt :
      (xs ys : List A) (i : ℕ) → i < length xs → get_elem? (xs ++ ys) i ≡ get_elem? xs i
  get_elem?-append_lt [] ys i h = elim h [ ]
  get_elem?-append_lt (x ∷ xs) ys zero h = refl
  get_elem?-append_lt (x ∷ xs) ys (suc i) h = get_elem?-append_lt xs ys i (omega arith)

  pub get_elem?-append_ge :
      (xs ys : List A) (i j : ℕ) → i ≡ length xs + j → get_elem? (xs ++ ys) i ≡ get_elem? ys j
  get_elem?-append_ge [] ys i j h = ground arith
  get_elem?-append_ge (x ∷ xs) ys zero j h = absurd (omega arith)
  get_elem?-append_ge (x ∷ xs) ys (suc i) j h = get_elem?-append_ge xs ys i j (omega arith)

  pub get_elem?_ge : (xs : List A) (i : ℕ) → length xs ≤ i → get_elem? xs i ≡ none
  get_elem?_ge [] i h = refl
  get_elem?_ge (x ∷ xs) zero h = absurd (omega arith)
  get_elem?_ge (x ∷ xs) (suc i) h = get_elem?_ge xs i (omega arith)

  pub get_elem?-replicate : (n i : ℕ) (v : A) → i < n → get_elem? (replicate n v) i ≡ some v
  get_elem?-replicate zero i v h = elim h [ ]
  get_elem?-replicate (suc n) zero v h = refl
  get_elem?-replicate (suc n) (suc i) v h = get_elem?-replicate n i v (omega arith)

  pub get_elem?-insert_idx_lt :
      (xs : List A) (k j : ℕ) (v : A)
      → j < k
      → k ≤ length xs
      → get_elem? (insert_idx xs k v) j ≡ get_elem? xs j
  get_elem?-insert_idx_lt [] k j v h r = absurd (omega arith)
  get_elem?-insert_idx_lt (x ∷ xs) zero j v h r = elim h [ ]
  get_elem?-insert_idx_lt (x ∷ xs) (suc k) zero v h r = refl
  get_elem?-insert_idx_lt (x ∷ xs) (suc k) (suc j) v h r =
      get_elem?-insert_idx_lt xs k j v (omega arith) (omega arith)

  pub get_elem?-insert_idx_self :
      (xs : List A) (k j : ℕ) (v : A)
      → j ≡ k
      → k ≤ length xs
      → get_elem? (insert_idx xs k v) j ≡ some v
  get_elem?-insert_idx_self [] k zero v h r = refl
  get_elem?-insert_idx_self [] k (suc j) v h r = absurd (omega arith)
  get_elem?-insert_idx_self (x ∷ xs) zero zero v h r = refl
  get_elem?-insert_idx_self (x ∷ xs) zero (suc j) v h r = absurd (omega arith)
  get_elem?-insert_idx_self (x ∷ xs) (suc k) zero v h r = absurd (omega arith)
  get_elem?-insert_idx_self (x ∷ xs) (suc k) (suc j) v h r =
      get_elem?-insert_idx_self xs k j v (omega arith) (omega arith)

  -- Behind the insertion, element i of the old list stands at i + 1.
  pub get_elem?-insert_idx_gt :
      (xs : List A) (k j i : ℕ) (v : A)
      → j ≡ i + 1
      → k ≤ i
      → k ≤ length xs
      → get_elem? (insert_idx xs k v) j ≡ get_elem? xs i
  get_elem?-insert_idx_gt xs k zero i v h r s = absurd (omega arith)
  get_elem?-insert_idx_gt [] k (suc j) i v h r s = refl
  get_elem?-insert_idx_gt (x ∷ xs) zero (suc zero) zero v h r s = refl
  get_elem?-insert_idx_gt (x ∷ xs) zero (suc zero) (suc i) v h r s = absurd (omega arith)
  get_elem?-insert_idx_gt (x ∷ xs) zero (suc (suc j)) zero v h r s = absurd (omega arith)
  get_elem?-insert_idx_gt (x ∷ xs) zero (suc (suc j)) (suc i) v h r s =
      let same : j ≡ i = omega arith in ap (get_elem? xs) same
  get_elem?-insert_idx_gt (x ∷ xs) (suc k) (suc j) zero v h r s = absurd (omega arith)
  get_elem?-insert_idx_gt (x ∷ xs) (suc k) (suc j) (suc i) v h r s =
      get_elem?-insert_idx_gt xs k j i v (omega arith) (omega arith) (omega arith)
