-- ===== src/Orderbook/Crossing.antt =====
-- `insert_order` of src/orderbook.rs and the order of bids and asks.
use market_sim_backend.Prelude.{
  ℕ, ◌≡◌, Bool-cases, List, [], ◌∷◌, drop, All, ltb, if◌then◌else◌, ok, inl, inr, ◌⊎◌, arith,
}
use market_sim_backend.Fixed.{Fixed}
use market_sim_backend.Order.{Side, opposite, OrderInsertion}
use market_sim_backend.Orderbook.Types.{
  ObTransaction, ObOrderInsertionEffects, Levels, Orderbook, book_side,
}
use market_sim_backend.Orderbook.Matching.{walk_order, insert_order}
use market_sim_backend.Orderbook.Validity.{
  keys, SortedBy, IsValid, Below, Uncrossed, All-keys-put_level,
}
use market_sim_backend.Orderbook.Walk.{StopsAtHead}
use market_sim_backend.Orderbook.Trim.{
  All-keys-trim, trim-SortedBy, OutOfReach, StopsAtHead-OutOfReach, All-keys-walk_order,
}
use market_sim_backend.Orderbook.Insertion.{book_side-IsSideValid, rested, insert_order-Accepted}

module _ {ℓ κ} {A : Type ℓ} {Q R : A → Type κ} where
  All-imp : ((a : A) → Q a → R a) → (xs : List A) → All Q xs → All R xs
  All-imp f [] h = tt
  All-imp f (x ∷ xs) h = (f x h.0, All-imp f xs h.1)

module _ {P : Type 0} where
  All-nil : (R : P → P → Type 0) (xs : List P) → All (λ x. All (λ y. R y x) []) xs
  All-nil R [] = tt
  All-nil R (x ∷ xs) = (tt, All-nil R xs)

  All-cons :
      (R : P → P → Type 0) (y : P) (ys xs : List P)
      → All (λ x. R y x) xs
      → All (λ x. All (λ z. R z x) ys) xs
      → All (λ x. All (λ z. R z x) (y ∷ ys)) xs
  All-cons R y ys [] h k = tt
  All-cons R y ys (x ∷ xs) h k = ((h.0, k.0), All-cons R y ys xs h.1 k.1)

  All-swap :
      (R : P → P → Type 0) (xs ys : List P)
      → All (λ y. All (λ x. R y x) xs) ys
      → All (λ x. All (λ y. R y x) ys) xs
  All-swap R xs [] h = All-nil R xs
  All-swap R xs (y ∷ ys) h = All-cons R y ys xs h.0 (All-swap R xs ys h.1)

module _ {P : Type 0} ⦃fx : Fixed P⦄ where
  -- A price of the given side and one of the other that do not cross.
  abbrev pub Apart : Side → P → P → Type 0
  Apart Side.bid p q = Below p q
  Apart Side.ask p q = Below q p

  abbrev pub SidesApart : Side → Levels P → Levels P → Type 0
  SidesApart s own other = All (λ p. All (λ q. Apart s p q) (keys other)) (keys own)

  pub Uncrossed-SidesApart :
      (ob : Orderbook P) (s : Side)
      → Uncrossed ob
      → SidesApart s (book_side ob s) (book_side ob (opposite s))
  Uncrossed-SidesApart ob Side.bid h = h
  Uncrossed-SidesApart ob Side.ask h = All-swap Below (keys ob.asks) (keys ob.bids) h

  pub SidesApart-Uncrossed :
      (ob : Orderbook P) (s : Side)
      → SidesApart s (book_side ob s) (book_side ob (opposite s))
      → Uncrossed ob
  SidesApart-Uncrossed ob Side.bid h = h
  SidesApart-Uncrossed ob Side.ask h = All-swap (λ p q. Below q p) (keys ob.bids) (keys ob.asks) h

  -- A price that the order does not accept is apart from the order's own.
  OutOfReach-Apart :
      (order : OrderInsertion P) (q : P) → OutOfReach order q → Apart order.side order.price q
  OutOfReach-Apart order q h = ground arith

  SidesApart-rested :
      (order : OrderInsertion P) (remaining : ℕ) (own other : Levels P)
      → SidesApart order.side own other
      → ((remaining ≡ 0) ⊎ All (λ q. Apart order.side order.price q) (keys other))
      → SidesApart order.side (rested order remaining own) other
  SidesApart-rested order remaining own other h k = elim (Bool-cases (ltb 0 remaining)) [
    | inl rests ↦
        rw (rests, if◌then◌else◌)
          (All-keys-put_level (λ p. All (λ q. Apart order.side p q) (keys other)) own order.price _
            (elim k [ inl z ↦ absurd (ground arith) | inr a ↦ a ]) h)
    | inr done ↦ rw (done, if◌then◌else◌) h
  ]

  -- What an order that still has volume does not reach.
  left-Apart :
      (order : OrderInsertion P) (side levels : Levels P) (d remaining : ℕ)
      → keys levels ≡ keys (walk_order (opposite order.side) side)
      → SortedBy Below (keys side)
      → ((remaining ≡ 0) ⊎ StopsAtHead order (drop d levels))
      → (remaining ≡ 0)
        ⊎ All
            (λ q. Apart order.side order.price q)
            (keys (walk_order (opposite order.side) (drop d levels)))
  left-Apart order side levels d remaining e h (inl z) = inl z
  left-Apart order side levels d remaining e h (inr stop) =
      let s = opposite order.side in
      inr (
        All-keys-walk_order (λ q. Apart order.side order.price q) s (drop d levels)
          (All-imp (OutOfReach-Apart order) (keys (drop d levels)) (
            StopsAtHead-OutOfReach order (drop d levels) (trim-SortedBy s side levels d e h) stop)))

  -- In a valid book where every bid is below every ask, that stays so after any insertion that is
  -- accepted, of whatever type.
  pub insert_order-Uncrossed :
      (order : OrderInsertion P) (ob : Orderbook P) (buf : List (ObTransaction P))
      (effects : ObOrderInsertionEffects P) (ob' : Orderbook P) (buf' : List (ObTransaction P))
      → IsValid ob
      → Uncrossed ob
      → insert_order order ob buf ≡ (ok effects, ob', buf')
      → Uncrossed ob'
  insert_order-Uncrossed order ob buf effects ob' buf' v u e =
      let s = opposite order.side in
      let own = book_side ob order.side in
      let other = book_side ob s in
      let r = insert_order-Accepted order ob buf effects ob' buf' v e in
      let left = walk_order s (drop r.d r.levels) in
      SidesApart-Uncrossed ob' order.side (
        rw (r.own, r.other)
          (SidesApart-rested order r.remaining own left
            (All-imp
              (λ p. All-keys-trim (λ q. Apart order.side p q) s other r.levels r.d r.same_keys)
              (keys own) (Uncrossed-SidesApart ob order.side u))
            (left-Apart order other r.levels r.d r.remaining r.same_keys
              (book_side-IsSideValid ob s v).0 r.stops)))
