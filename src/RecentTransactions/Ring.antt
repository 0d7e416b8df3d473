-- ===== src/RecentTransactions/Ring.antt =====
-- `RecentTransactions` of src/exchange.rs against the list of all that was pushed: lemmas on rotation
-- and overwriting.
use market_sim_backend.Prelude.{
  ℕ, zero, suc, ◌+◌, ◌-◌, ◌%◌, ◌≤◌, ◌<◌, ◌≡◌, refl, ap, ap₂, sym, ◌∙◌, min, Bool-cases, List, [],
  ◌∷◌, ◌++◌, append-nil, append_assoc, length, length-append, length-set, length-take, length-drop,
  set, take, drop, ltb, if◌then◌else◌, inl, inr, ◌⊎◌, some, arith,
}
use market_sim_backend.RecentTransactions.{
  RecentTransactions, with_capacity, rotate_left, get, push, checked_get, checked_push,
}

mod_step : (w c i : ℕ) → 0 < c → i ≡ w % c → i + 1 < c → (w + 1) % c ≡ i + 1
mod_step w c i h e l = grind arith

mod_wrap : (w c i : ℕ) → 0 < c → i ≡ w % c → i + 1 ≡ c → (w + 1) % c ≡ 0
mod_wrap w c i h e l = grind arith

mod_bound : (w c : ℕ) → 0 < c → w % c < c
mod_bound w c h = omega arith

mod_small : (w c : ℕ) → w < c → w % c ≡ w
mod_small w c h = grind arith

-- Where the next push goes.
next_index :
    (w c : ℕ)
    → 0 < c
    → ((w % c + 1 < c) × ((w + 1) % c ≡ w % c + 1)) ⊎ ((w % c + 1 ≡ c) × ((w + 1) % c ≡ 0))
next_index w c h = elim (Bool-cases (ltb (w % c + 1) c)) [
  | inl less ↦ inl (ground arith, mod_step w c (w % c) h refl (ground arith))
  | inr last ↦
      let whole : w % c + 1 ≡ c = ground (arith, mod_bound w c h) in
      inr (whole, mod_wrap w c (w % c) h refl whole)
]

-- The vector is filled by the pushes, up to the capacity.
pub record IsRing {T : Type 0} (r : RecentTransactions T) : Type 0 where
  pub has_room : 0 < r.capacity
  pub filled : length r.inner ≡ min r.write_idx r.capacity

-- The last n elements.
abbrev pub last_n {ℓ} : {A : Type ℓ} → ℕ → List A → List A
last_n n xs = drop (length xs - n) xs

module _ {T : Type 0} where
  drop-set : (xs : List T) (i : ℕ) (t : T) → drop (suc i) (set xs i t) ≡ drop (suc i) xs
  drop-set [] i t = refl
  drop-set (x ∷ xs) zero t = refl
  drop-set (x ∷ xs) (suc i) t = drop-set xs i t

  take-set :
      (xs : List T) (i : ℕ) (t : T)
      → i < length xs
      → take (suc i) (set xs i t) ≡ take i xs ++ t ∷ []
  take-set [] i t h = elim h [ ]
  take-set (x ∷ xs) zero t h = refl
  take-set (x ∷ xs) (suc i) t h = ap (λ l. x ∷ l) (take-set xs i t (omega arith))

  drop_all : (n : ℕ) (xs : List T) → length xs ≤ n → drop n xs ≡ []
  drop_all zero [] h = refl
  drop_all zero (x ∷ xs) h = absurd (omega arith)
  drop_all (suc n) [] h = refl
  drop_all (suc n) (x ∷ xs) h = drop_all n xs (omega arith)

  take_all : (n : ℕ) (xs : List T) → length xs ≤ n → take n xs ≡ xs
  take_all zero [] h = refl
  take_all zero (x ∷ xs) h = absurd (omega arith)
  take_all (suc n) [] h = refl
  take_all (suc n) (x ∷ xs) h = ap (λ l. x ∷ l) (take_all n xs (omega arith))

  drop-drop_one :
      (i : ℕ) (xs ys : List T) → i < length xs → drop 1 (drop i xs ++ ys) ≡ drop (suc i) xs ++ ys
  drop-drop_one i [] ys h = elim h [ ]
  drop-drop_one zero (x ∷ xs) ys h = refl
  drop-drop_one (suc i) (x ∷ xs) ys h = drop-drop_one i xs ys (omega arith)

  -- A rotation by nothing, or by everything.
  rotate_whole : (xs : List T) (k : ℕ) → ((k ≡ 0) ⊎ (length xs ≤ k)) → rotate_left xs k ≡ xs
  rotate_whole xs k (inl z) = rw z (append-nil xs)
  rotate_whole xs k (inr l) = ap₂ ◌++◌ (drop_all k xs l) (take_all k xs l)

  length-rotate_left : (xs : List T) (k : ℕ) → length (rotate_left xs k) ≡ length xs
  length-rotate_left xs k =
      omega (arith, length-append (drop k xs) (take k xs), length-drop k xs, length-take k xs)

  drop_one-rotate_left :
      (xs : List T) (i : ℕ) (t : T)
      → i < length xs
      → drop 1 (rotate_left xs i ++ t ∷ []) ≡ drop (suc i) xs ++ take i xs ++ t ∷ []
  drop_one-rotate_left xs i t h =
      ap (drop 1) (append_assoc (drop i xs) (take i xs) (t ∷ []))
      ∙ drop-drop_one i xs (take i xs ++ t ∷ []) h
      ∙ sym (append_assoc (drop (suc i) xs) (take i xs) (t ∷ []))

  -- Overwriting the oldest element of a full ring drops it and appends the new one.
  rotate_left-set :
      (xs : List T) (i j : ℕ) (t : T)
      → i < length xs
      → (((i + 1 < length xs) × (j ≡ i + 1)) ⊎ ((i + 1 ≡ length xs) × (j ≡ 0)))
      → rotate_left (set xs i t) j ≡ drop 1 (rotate_left xs i ++ t ∷ [])
  rotate_left-set xs i j t h (inl (more, e)) =
      let next : j ≡ suc i = omega arith in
      rw (drop_one-rotate_left xs i t h, next, drop-set xs i t, take-set xs i t h)
        (sym (append_assoc (drop (suc i) xs) (take i xs) (t ∷ [])))
  rotate_left-set xs i j t h (inr (whole, e)) =
      rotate_whole (set xs i t) j (inl e)
      ∙ sym (take_all (suc i) (set xs i t) (omega (arith, length-set xs i t)))
      ∙ take-set xs i t h
      ∙ ap (λ l. (l ++ take i xs) ++ t ∷ []) (sym (drop_all (suc i) xs (omega arith)))
      ∙ sym (drop_one-rotate_left xs i t h)

  -- A push appends the transaction, and keeps the last ones up to the capacity.
  pub get-push :
      (r : RecentTransactions T) (t : T)
      → IsRing r
      → get (push r t) ≡ last_n r.capacity (get r ++ t ∷ [])
  unfolding get push
  get-push r t v =
      let xs = r.inner in
      let w : ℕ = r.write_idx in
      let c : ℕ = r.capacity in
      elim (Bool-cases (ltb (length xs) c)) [
        | inl room ↦
            let here : w ≡ length xs = ground (arith, v.filled) in
            let small : w % c ≡ w = mod_small w c (ground (arith, v.filled)) in
            let old : rotate_left xs (w % c) ≡ xs = rotate_whole xs (w % c) (inr (omega arith)) in
            let none_lost : length (xs ++ t ∷ []) - c ≡ 0 =
              ground (arith, length-append xs (t ∷ [])) in
            rw (room, if◌then◌else◌, old, none_lost)
              (rotate_whole (xs ++ t ∷ []) ((w + 1) % c) (elim (next_index w c v.has_room) [
                | inl (less, e) ↦ inr (omega (arith, length-append xs (t ∷ [])))
                | inr (last, e) ↦ inl e
              ]))
        | inr full ↦
            let whole : length xs ≡ c = ground (arith, v.filled) in
            let one_lost : length (rotate_left xs (w % c) ++ t ∷ []) - c ≡ 1 = omega (
              arith,
              length-append (rotate_left xs (w % c)) (t ∷ []),
              length-rotate_left xs (w % c),
            ) in
            rw (full, if◌then◌else◌, one_lost)
              (rotate_left-set xs (w % c) ((w + 1) % c) t (omega (arith, mod_bound w c v.has_room))
                (rw whole (next_index w c v.has_room)))
      ]

  pub push-IsRing : (r : RecentTransactions T) (t : T) → IsRing r → IsRing (push r t)
  unfolding push
  push-IsRing r t v =
      ground
        (arith, length-append r.inner (t ∷ []), length-set r.inner (r.write_idx % r.capacity) t)

  -- The oldest element is within the vector.
  pub checked_get-IsRing : (r : RecentTransactions T) → IsRing r → checked_get r ≡ some (get r)
  unfolding checked_get get
  checked_get-IsRing r v = ground (
    arith,
    v.has_room,
    v.filled,
    mod_bound r.write_idx r.capacity v.has_room,
    mod_small r.write_idx r.capacity,
  )

  pub checked_push-IsRing :
      (r : RecentTransactions T) (t : T) → IsRing r → checked_push r t ≡ some (push r t)
  unfolding checked_push push
  checked_push-IsRing r t v =
      ground (arith, v.has_room, v.filled, mod_bound r.write_idx r.capacity v.has_room)

  abbrev pub push_all : RecentTransactions T → List T → RecentTransactions T
  push_all r [] = r
  push_all r (t ∷ ts) = push_all (push r t) ts

  drop-append_le : (k : ℕ) (xs ys : List T) → k ≤ length xs → drop k (xs ++ ys) ≡ drop k xs ++ ys
  drop-append_le zero xs ys h = refl
  drop-append_le (suc k) [] ys h = absurd (omega arith)
  drop-append_le (suc k) (x ∷ xs) ys h = drop-append_le k xs ys (omega arith)

  last_n-last_n :
      (n : ℕ) (us : List T) (t : T)
      → 0 < n
      → last_n n (last_n n us ++ t ∷ []) ≡ last_n n (us ++ t ∷ [])
  last_n-last_n n us t h = elim (Bool-cases (ltb n (length us))) [
    | inl more ↦
        let k : ℕ = length us - n in
        let more' : n < length us = ground arith in
        let one : length (drop k us ++ t ∷ []) - n ≡ 1 =
          omega (arith, length-append (drop k us) (t ∷ []), length-drop k us) in
        let next : length (us ++ t ∷ []) - n ≡ suc k = omega (arith, length-append us (t ∷ [])) in
        rw (one, next)
          (drop-drop_one k us (t ∷ []) (omega arith)
            ∙ sym (drop-append_le (suc k) us (t ∷ []) (omega arith)))
    | inr fits ↦ let none_lost : length us - n ≡ 0 = ground arith in rw none_lost refl
  ]

  get-push_all_from :
      (ts us : List T) (r : RecentTransactions T)
      → IsRing r
      → get r ≡ last_n r.capacity us
      → get (push_all r ts) ≡ last_n r.capacity (us ++ ts)
  unfolding push
  get-push_all_from [] us r v e = rw (append-nil us) e
  get-push_all_from (t ∷ ts) us r v e =
      let c : ℕ = r.capacity in
      get-push_all_from ts (us ++ t ∷ []) (push r t) (push-IsRing r t v)
        (get-push r t v ∙ ap (λ l. last_n c (l ++ t ∷ [])) e ∙ last_n-last_n c us t v.has_room)
      ∙ ap (last_n c) (append_assoc us (t ∷ []) ts)

  -- A buffer of positive capacity reads, after any pushes, as the last of them, oldest first, as many as
  -- its capacity.
  pub get-push_all :
      (capacity : ℕ) (ts : List T)
      → 0 < capacity
      → get (push_all (with_capacity capacity) ts) ≡ last_n capacity ts
  unfolding get
  get-push_all capacity ts h =
      get-push_all_from ts [] (with_capacity capacity)
        (record { has_room = h; filled = omega arith })
        (rotate_whole [] (0 % capacity) (inr (omega arith))
          ∙ sym (drop_all (0 - capacity) [] (omega arith)))
