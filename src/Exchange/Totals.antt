-- ===== src/Exchange/Totals.antt =====
-- The sum of the balances in an asset, and what the balance updates of `process_transactions` in
-- src/exchange.rs do to it.
use market_sim_backend.Prelude.{
  ℕ, zero, suc, ◌+◌, ◌-◌, ◌*◌, ◌≤◌, ◌<◌, ◌≡◌, ◌≢◌, refl, ap, ap₂, sym, ◌∙◌, Bool, Bool-cases, ltb,
  leb, ◌&&◌, true, false, Option, none, some, Option-cases, List, [], ◌∷◌, length, get_elem?, set,
  ◌==◌, length-set, get_elem?-set_self, get_elem?-set_ne, get_elem?_lt, ==_iff, index_in_range,
  if◌then◌else◌, inl, inr, ◌⊎◌, arith,
}
use market_sim_backend.Fixed.{Fixed, IsLawful}
use market_sim_backend.Order.{Side}
use market_sim_backend.BalanceBook.{BalanceBook}
use market_sim_backend.Exchange.Settle.{update_balance, transfer}

abbrev in_row : ℕ → ℕ → ℕ → Bool
in_row i n j = leb i j && ltb j (i + n)

-- A balance lies in the row of its own asset alone.
in_row_iff :
    (width asset account s : ℕ)
    → account < width
    → in_row (width * s) width (width * asset + account) ≡ (asset == s)
in_row_iff width asset account s h = ground (
  arith,
  ap (λ (n : ℕ). width * n),
  index_in_range width s asset account,
  index_in_range width asset s (width - 1),
)

module _ {P : Type 0} ⦃fx : Fixed P⦄ where
  abbrev pub value_or_zero : Option P → P
  value_or_zero none = fx.zero_value
  value_or_zero (some p) = p

  -- The sum of n balances from index i on.
  abbrev pub sum_from : List P → ℕ → ℕ → P
  sum_from bs i zero = fx.zero_value
  sum_from bs i (suc n) = fx.add (value_or_zero (get_elem? bs i)) (sum_from bs (i + 1) n)

  -- The sum of what all accounts hold of an asset.
  abbrev pub asset_total : BalanceBook P → ℕ → P
  asset_total b s = sum_from b.balances (b.accounts * s) b.accounts

  -- A change of one balance outside the range.
  sum_from-set_out :
      (bs : List P) (i n j : ℕ) (v : P)
      → ((j < i) ⊎ (i + n ≤ j))
      → sum_from (set bs j v) i n ≡ sum_from bs i n
  sum_from-set_out bs i zero j v h = refl
  sum_from-set_out bs i (suc n) j v h =
      ap₂ fx.add (ap value_or_zero (get_elem?-set_ne bs j i v (ground arith)))
        (sum_from-set_out bs (i + 1) n j v (omega arith))

  -- A function of a balance that shifts any sum which the balance is part of.
  pub record IsShift (f : P → P) : Type 0 where
    pub left : (p r : P) → fx.add (f p) r ≡ f (fx.add p r)
    pub right : (r p : P) → fx.add r (f p) ≡ f (fx.add r p)

  sum_from-set_in :
      (bs : List P) (i n j : ℕ) (f : P → P) (p : P)
      → IsShift f
      → get_elem? bs j ≡ some p
      → i ≤ j
      → j < i + n
      → j < length bs
      → sum_from (set bs j (f p)) i n ≡ f (sum_from bs i n)
  sum_from-set_in bs i zero j f p sh e l r t = absurd (omega arith)
  sum_from-set_in bs i (suc n) j f p sh e l r t = elim (Bool-cases (i == j)) [
    | inl here ↦
        let same : i ≡ j = (==_iff i j).0 here in
        ap₂ fx.add
          (ap value_or_zero
            (ap (get_elem? (set bs j (f p))) same ∙ get_elem?-set_self bs j (f p) t))
          (sum_from-set_out bs (i + 1) n j (f p) (inl (omega arith)))
        ∙ sh.left p (sum_from bs (i + 1) n)
        ∙ ap f (ap₂ fx.add (sym (ap value_or_zero (ap (get_elem? bs) same ∙ e))) refl)
    | inr later ↦
        let other : j ≢ i = ground arith in
        ap₂ fx.add (ap value_or_zero (get_elem?-set_ne bs j i (f p) other))
          (sum_from-set_in bs (i + 1) n j f p sh e (ground arith) (omega arith) t)
        ∙ sh.right (value_or_zero (get_elem? bs i)) (sum_from bs (i + 1) n)
  ]

  pub length-update_balance :
      (bs : List P) (j : ℕ) (f : P → P) → length (update_balance bs j f) ≡ length bs
  length-update_balance bs j f = elim (Option-cases (get_elem? bs j)) [
    | inl e ↦ rw (e, update_balance) refl
    | inr (p, e) ↦ rw (e, update_balance) (length-set bs j (f p))
  ]

  -- A shift of one balance in the range shifts the sum.
  sum_from-update_in :
      (bs : List P) (i n j : ℕ) (f : P → P)
      → IsShift f
      → i ≤ j
      → j < i + n
      → j < length bs
      → sum_from (update_balance bs j f) i n ≡ f (sum_from bs i n)
  sum_from-update_in bs i n j f sh l r t =
      let (p, e) = get_elem?_lt bs j t in
      rw (e, update_balance) (sum_from-set_in bs i n j f p sh e l r t)

  sum_from-update_out :
      (bs : List P) (i n j : ℕ) (f : P → P)
      → ((j < i) ⊎ (i + n ≤ j))
      → sum_from (update_balance bs j f) i n ≡ sum_from bs i n
  sum_from-update_out bs i n j f h = elim (Option-cases (get_elem? bs j)) [
    | inl e ↦ rw (e, update_balance) refl
    | inr (p, e) ↦ rw (e, update_balance) (sum_from-set_out bs i n j (f p) h)
  ]

  -- What an update of one balance does to the sum over a row.
  sum_from-update :
      (bs : List P) (i n j : ℕ) (f : P → P)
      → IsShift f
      → j < length bs
      → sum_from (update_balance bs j f) i n
        ≡ (if in_row i n j then f (sum_from bs i n) else sum_from bs i n)
  sum_from-update bs i n j f sh t = elim (Bool-cases (in_row i n j)) [
    | inl inside ↦
        rw (inside, if◌then◌else◌)
          (sum_from-update_in bs i n j f sh (ground arith) (ground arith) t)
    | inr outside ↦ rw (outside, if◌then◌else◌) (sum_from-update_out bs i n j f (ground arith))
  ]

  -- The updates that reach a row cancel, if no row takes those of both assets.
  cancel_rows :
      (in_p in_q : Bool) (f g h k : P → P)
      → ((x : P) → h (f x) ≡ x)
      → ((x : P) → k (g x) ≡ x)
      → (in_p && in_q) ≡ false
      → (x : P)
      → let x1 = if in_p then f x else x in
        let x2 = if in_q then g x1 else x1 in
        let x3 = if in_p then h x2 else x2 in (if in_q then k x3 else x3) ≡ x
  cancel_rows true true f g h k hf kg e x = cc
  cancel_rows true false f g h k hf kg e x = hf x
  cancel_rows false true f g h k hf kg e x = kg x
  cancel_rows false false f g h k hf kg e x = refl

  -- Four updates in two rows, where those in each row cancel, keep the sum over every row.
  sum_from-four_updates :
      (bs : List P) (w p q m t s : ℕ) (f g h k : P → P)
      → p ≢ q
      → m < w
      → t < w
      → w * p + m < length bs
      → w * p + t < length bs
      → w * q + m < length bs
      → w * q + t < length bs
      → IsShift f × IsShift g × IsShift h × IsShift k
      → ((x : P) → h (f x) ≡ x)
      → ((x : P) → k (g x) ≡ x)
      → sum_from
          (update_balance
            (update_balance
              (update_balance (update_balance bs (w * p + t) f) (w * q + t) g)
              (w * p + m)
              h)
            (w * q + m)
            k)
          (w * s)
          w
        ≡ sum_from bs (w * s) w
  sum_from-four_updates bs w p q m t s f g h k ne lm lt pm pt qm qt sh hf kg =
      let b1 = update_balance bs (w * p + t) f in
      let b2 = update_balance b1 (w * q + t) g in
      let b3 = update_balance b2 (w * p + m) h in
      let e1 = length-update_balance bs (w * p + t) f in
      let e2 = length-update_balance b1 (w * q + t) g in
      let e3 = length-update_balance b2 (w * p + m) h in
      let s1 = sum_from-update bs (w * s) w (w * p + t) f sh.0 pt in
      let s2 = sum_from-update b1 (w * s) w (w * q + t) g sh.1 (omega arith) in
      let s3 = sum_from-update b2 (w * s) w (w * p + m) h sh.2 (omega arith) in
      let s4 = sum_from-update b3 (w * s) w (w * q + m) k sh.3 (omega arith) in
      let one_row : ((p == s) && (q == s)) ≡ false = ground arith in
      rw
        (
          s4,
          s3,
          s2,
          s1,
          in_row_iff w p m s lm,
          in_row_iff w p t s lt,
          in_row_iff w q m s lm,
          in_row_iff w q t s lt,
        )
        (cancel_rows (p == s) (q == s) f g h k hf kg one_row (sum_from bs (w * s) w))

  module _ (lawful : IsLawful fx) where
    -- (p - q) + r = (p + r) - q
    sub-add_comm : (p q r : P) → fx.add (fx.sub p q) r ≡ fx.sub (fx.add p r) q
    sub-add_comm p q r =
        sym (lawful.add-sub (fx.add (fx.sub p q) r) q)
        ∙ ap (λ t. fx.sub t q)
            (lawful.add_assoc (fx.sub p q) r q
              ∙ ap (fx.add (fx.sub p q)) (lawful.add_comm r q)
              ∙ sym (lawful.add_assoc (fx.sub p q) q r)
              ∙ ap (λ t. fx.add t r) (lawful.sub-add p q))

    -- r + (p - q) = (r + p) - q
    add-sub_assoc : (r p q : P) → fx.add r (fx.sub p q) ≡ fx.sub (fx.add r p) q
    add-sub_assoc r p q =
        lawful.add_comm r (fx.sub p q)
        ∙ sub-add_comm p q r
        ∙ ap (λ t. fx.sub t q) (lawful.add_comm p r)

    add-IsShift : (v : P) → IsShift (λ p. fx.add p v)
    add-IsShift v = record {
      left = λ p r.
          lawful.add_assoc p v r
          ∙ ap (fx.add p) (lawful.add_comm v r)
          ∙ sym (lawful.add_assoc p r v);
      right = λ r p. sym (lawful.add_assoc r p v);
    }

    sub-IsShift : (v : P) → IsShift (λ p. fx.sub p v)
    sub-IsShift v = record { left = λ p r. sub-add_comm p v r; right = λ r p. add-sub_assoc r p v }

    -- A transfer between two accounts keeps the sum in every asset.
    pub sum_from-transfer :
        (side : Side) (vp vs : P) (bs : List P) (width primary secondary maker taker s : ℕ)
        → primary ≢ secondary
        → maker < width
        → taker < width
        → width * primary + maker < length bs
        → width * primary + taker < length bs
        → width * secondary + maker < length bs
        → width * secondary + taker < length bs
        → sum_from
            (transfer side vp vs bs (
              (width * primary + maker)
              ∷ (width * primary + taker)
              ∷ (width * secondary + maker)
              ∷ (width * secondary + taker)
              ∷ []))
            (width * s)
            width
          ≡ sum_from bs (width * s) width
    unfolding transfer
    sum_from-transfer Side.ask vp vs bs w p q m t s ne lm lt pm pt qm qt =
        sum_from-four_updates bs w p q m t s (λ b. fx.sub b vp) (λ b. fx.add b vs)
          (λ b. fx.add b vp) (λ b. fx.sub b vs) ne lm lt pm pt qm qt
          (sub-IsShift vp, add-IsShift vs, add-IsShift vp, sub-IsShift vs)
          (λ x. lawful.sub-add x vp) (λ x. lawful.add-sub x vs)
    sum_from-transfer Side.bid vp vs bs w p q m t s ne lm lt pm pt qm qt =
        sum_from-four_updates bs w p q m t s (λ b. fx.add b vp) (λ b. fx.sub b vs)
          (λ b. fx.sub b vp) (λ b. fx.add b vs) ne lm lt pm pt qm qt
          (add-IsShift vp, sub-IsShift vs, sub-IsShift vp, add-IsShift vs)
          (λ x. lawful.add-sub x vp) (λ x. lawful.sub-add x vs)
