-- ===== src/Exchange/Owners.antt =====
-- The account that placed the order at an index of `session_orders` in src/exchange.rs, and what the writes
-- to that vector do to it.
use market_sim_backend.Prelude.{
  ℕ, zero, suc, ◌≡◌, refl, ap, sym, ◌∙◌, Bool-cases, Option, none, some, List, [], ◌∷◌, ◌++◌,
  length, get_elem?, set, ◌==◌, inl, inr, arith,
}
use market_sim_backend.Order.{PlacedOrder}
use market_sim_backend.Exchange.Orders.{find_order, write_order}

module _ {P : Type 0} where
  abbrev pub owner : List (ℕ × PlacedOrder P) → ℕ → Option ℕ
  owner [] i = none
  owner ((j, o) ∷ os) zero = some o.account_id
  owner ((j, o) ∷ os) (suc i) = owner os i

  -- Whoever placed an order in the first vector placed it in the second.
  abbrev pub Covers : List (ℕ × PlacedOrder P) → List (ℕ × PlacedOrder P) → Type 0
  Covers os os' = (i a : ℕ) → owner os i ≡ some a → owner os' i ≡ some a

  pub Covers-refl : (os : List (ℕ × PlacedOrder P)) → Covers os os
  Covers-refl os i a h = h

  pub Covers-trans :
      (os os' os'' : List (ℕ × PlacedOrder P)) → Covers os os' → Covers os' os'' → Covers os os''
  Covers-trans os os' os'' f g i a h = g i a (f i a h)

  pub Covers-append : (os ys : List (ℕ × PlacedOrder P)) → Covers os (os ++ ys)
  Covers-append [] ys i a h = cc
  Covers-append ((j, o) ∷ os) ys zero a h = h
  Covers-append ((j, o) ∷ os) ys (suc i) a h = Covers-append os ys i a h

  pub owner-append :
      (os : List (ℕ × PlacedOrder P)) (j : ℕ) (o : PlacedOrder P)
      → owner (os ++ (j, o) ∷ []) (length os) ≡ some o.account_id
  owner-append [] j o = refl
  owner-append (p ∷ os) j o = owner-append os j o

  -- The order at an index that has an owner.
  pub owner-get_elem? :
      (os : List (ℕ × PlacedOrder P)) (i a : ℕ)
      → owner os i ≡ some a
      → (v : ℕ × PlacedOrder P) × (get_elem? os i ≡ some v) × (v.1.account_id ≡ a)
  owner-get_elem? [] i a h = absurd (ground (arith, h))
  owner-get_elem? ((j, o) ∷ os) zero a h = ((j, o), refl, ground arith)
  owner-get_elem? ((j, o) ∷ os) (suc i) a h = owner-get_elem? os i a h

  pub Covers-set :
      (os : List (ℕ × PlacedOrder P)) (i : ℕ) (v : ℕ × PlacedOrder P)
      → owner os i ≡ some v.1.account_id
      → Covers os (set os i v)
  Covers-set [] i v e k a h = h
  Covers-set ((j, o) ∷ os) zero v e zero a h = sym e ∙ h
  Covers-set ((j, o) ∷ os) zero v e (suc k) a h = h
  Covers-set ((j, o) ∷ os) (suc i) v e zero a h = h
  Covers-set ((j, o) ∷ os) (suc i) v e (suc k) a h = Covers-set os i v e k a h

  head_changes :
      (j : ℕ) (p : PlacedOrder P) (os : List (ℕ × PlacedOrder P)) (o : PlacedOrder P)
      → o.account_id ≡ p.account_id
      → Covers ((j, p) ∷ os) ((j, o) ∷ os)
  head_changes j p os o e zero a h = ap some e ∙ h
  head_changes j p os o e (suc i) a h = h

  tail_changes :
      (v : ℕ × PlacedOrder P) (os os' : List (ℕ × PlacedOrder P))
      → Covers os os'
      → Covers (v ∷ os) (v ∷ os')
  tail_changes (j, p) os os' f zero a h = h
  tail_changes (j, p) os os' f (suc i) a h = f i a h

  pub Covers-write_order :
      (os : List (ℕ × PlacedOrder P)) (id : ℕ) (o o' : PlacedOrder P)
      → find_order os id ≡ some o
      → o'.account_id ≡ o.account_id
      → Covers os (write_order os id o')
  unfolding find_order write_order
  Covers-write_order [] id o o' e s i a h = h
  Covers-write_order ((j, p) ∷ os) id o o' e s i a h = elim (Bool-cases (j == id)) [
    | inl here ↦
        let e' : some p ≡ some o = rw (here, find_order) at e in
        let same : p ≡ o = cc e' in
        rw (here, write_order)
          (head_changes j p os o' (s ∙ sym (ap (λ (z : PlacedOrder P). z.account_id) same)) i a h)
    | inr later ↦
        rw (later, write_order)
          (tail_changes (j, p) os (write_order os id o')
            (Covers-write_order os id o o' (rw (later, find_order) at e) s) i a h)
  ]
