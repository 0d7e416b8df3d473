-- ===== src/Exchange/Conservation.antt =====
-- `process_transactions` of src/exchange.rs and the sum of the balances in each asset.
use market_sim_backend.Prelude.{
  ℕ, zero, suc, ◌*◌, ◌<◌, ◌≡◌, ◌≢◌, refl, ap, ◌∙◌, true, some, List, [], ◌∷◌, map, reverse, length,
  get_elem?, set, All, arith,
}
use market_sim_backend.Fixed.{Fixed, IsLawful}
use market_sim_backend.Asset.{AssetIdPair}
use market_sim_backend.Order.{PlacedOrder}
use market_sim_backend.Orderbook.Types.{ObTransaction}
use market_sim_backend.BalanceBook.{BalanceBook, get_index, get_disjoint, are_disjoint}
use market_sim_backend.Exchange.State.{Exchange}
use market_sim_backend.Exchange.Settle.{
  >>=-eq-some, two_orders, four_balances, settled, settle_one, settle_all, process_transactions,
}
use market_sim_backend.Exchange.Totals.{asset_total, sum_from-transfer}

module _ {ℓ κ} {A : Type ℓ} (Q : A → Type κ) where
  pub All-set : (xs : List A) (i : ℕ) (v : A) → All Q xs → Q v → All Q (set xs i v)
  All-set [] i v h q = tt
  All-set (x ∷ xs) zero v h q = (q, h.1)
  All-set (x ∷ xs) (suc i) v h q = (h.0, All-set xs i v h.1 q)

  pub All-get_elem? : (xs : List A) (i : ℕ) (v : A) → All Q xs → get_elem? xs i ≡ some v → Q v
  All-get_elem? [] i v h e = cc
  All-get_elem? (x ∷ xs) zero v h e = let same : x ≡ v = cc in rw same at h.0
  All-get_elem? (x ∷ xs) (suc i) v h e = All-get_elem? xs i v h.1 e

module _ {P : Type 0} where
  pub two_orders-some :
      (orders : List (ℕ × PlacedOrder P)) (i j : ℕ) (a b : ℕ × PlacedOrder P)
      → two_orders orders i j ≡ some (a, b)
      → (get_elem? orders i ≡ some a) × (get_elem? orders j ≡ some b)
  two_orders-some orders i j a b e = ground arith

  get_disjoint-some :
      (b : BalanceBook P) (pairs : List (ℕ × ℕ)) (indices : List ℕ)
      → get_disjoint b pairs ≡ some indices
      → (map (λ p. get_index b p.0 p.1) pairs ≡ indices)
        × (are_disjoint (length b.balances) (map (λ p. get_index b p.0 p.1) pairs) ≡ true)
  unfolding get_disjoint
  get_disjoint-some b pairs indices e = ground arith

  -- The account ids of the orders are those of accounts that the balance book has.
  abbrev pub KnownAccounts : Exchange P → Type 0
  KnownAccounts x =
      All (λ (o : ℕ × PlacedOrder P). o.1.account_id < x.balance_book.accounts) x.session_orders

module _ {P : Type 0} ⦃fx : Fixed P⦄ where
  -- The balances that the slice lends are those of two accounts in two assets.
  lent_balances :
      (b : BalanceBook P) (primary secondary maker taker : ℕ)
      → are_disjoint (length b.balances) (
          get_index b primary maker
          ∷ get_index b primary taker
          ∷ get_index b secondary maker
          ∷ get_index b secondary taker
          ∷ [])
        ≡ true
      → (primary ≢ secondary)
        × (get_index b primary maker < length b.balances)
        × (get_index b primary taker < length b.balances)
        × (get_index b secondary maker < length b.balances)
        × (get_index b secondary taker < length b.balances)
  lent_balances b p q m t e = (
    ground (arith, ap (λ (n : ℕ). b.accounts * n)),
    ground arith,
    ground arith,
    ground arith,
    ground arith,
  )

  settled_conserves :
      IsLawful fx
      → (clock : ℕ → ℕ) (pair : AssetIdPair) (t : ObTransaction P) (x : Exchange P) (s : ℕ)
        (maker taker : ℕ × PlacedOrder P)
      → KnownAccounts x
      → maker.1.account_id < x.balance_book.accounts
      → taker.1.account_id < x.balance_book.accounts
      → are_disjoint
          (length x.balance_book.balances)
          (map (λ p. get_index x.balance_book p.0 p.1) (four_balances pair (maker, taker)))
        ≡ true
      → let x' =
          settled clock pair t
            (maker, taker)
            (map (λ p. get_index x.balance_book p.0 p.1) (four_balances pair (maker, taker)))
            x in
        KnownAccounts x' × (asset_total x'.balance_book s ≡ asset_total x.balance_book s)
  unfolding settled
  settled_conserves lawful clock pair t x s maker taker known mk tk e =
      let b = x.balance_book in
      let (ne, pm, pt, qm, qt) =
        lent_balances b pair.primary pair.secondary maker.1.account_id taker.1.account_id e in
      let Q = λ (o : ℕ × PlacedOrder P). o.1.account_id < b.accounts in
      (
        All-set Q _ t.order_id_taker _ (All-set Q x.session_orders t.order_id_maker _ known mk) tk,
        sum_from-transfer lawful t.taker_side (fx.from_u32 t.volume)
            (fx.mul (fx.from_u32 t.volume) t.price) b.balances b.accounts pair.primary
            pair.secondary maker.1.account_id taker.1.account_id s ne mk tk pm pt qm qt,
      )

  -- One round of the loop keeps the sum in every asset, and what it rests on.
  settle_one_conserves :
      IsLawful fx
      → (clock : ℕ → ℕ) (pair : AssetIdPair) (t : ObTransaction P) (x x' : Exchange P) (s : ℕ)
      → KnownAccounts x
      → settle_one clock pair t x ≡ some x'
      → KnownAccounts x' × (asset_total x'.balance_book s ≡ asset_total x.balance_book s)
  unfolding settle_one
  settle_one_conserves lawful clock pair t x x' s known e =
      let ((maker, taker), e1, f) =
        >>=-eq-some (two_orders x.session_orders t.order_id_maker t.order_id_taker) _ e in
      let pairs = four_balances pair (maker, taker) in
      let (indices, e2, g) = >>=-eq-some (get_disjoint x.balance_book pairs) _ f in
      let (listed, disjoint) = get_disjoint-some x.balance_book pairs indices e2 in
      let (got_maker, got_taker) =
        two_orders-some x.session_orders t.order_id_maker t.order_id_taker maker taker e1 in
      let Q = λ (o : ℕ × PlacedOrder P). o.1.account_id < x.balance_book.accounts in
      let same : settled clock pair t (maker, taker) indices x ≡ x' = cc g in
      rw (← same, ← listed)
        (settled_conserves lawful clock pair t x s maker taker known
          (All-get_elem? Q x.session_orders t.order_id_maker maker known got_maker)
          (All-get_elem? Q x.session_orders t.order_id_taker taker known got_taker) disjoint)

  pub settle_all_conserves :
      IsLawful fx
      → (clock : ℕ → ℕ) (pair : AssetIdPair) (ts : List (ObTransaction P)) (x x' : Exchange P)
        (s : ℕ)
      → KnownAccounts x
      → settle_all clock pair ts x ≡ some x'
      → KnownAccounts x' × (asset_total x'.balance_book s ≡ asset_total x.balance_book s)
  unfolding settle_all
  settle_all_conserves lawful clock pair [] x x' s known e =
      let same : x ≡ x' = cc e in rw (← same) (known, refl)
  settle_all_conserves lawful clock pair (t ∷ ts) x x' s known e =
      let (y, e1, f) = >>=-eq-some (settle_one clock pair t x) _ e in
      let (known_y, total_y) = settle_one_conserves lawful clock pair t x y s known e1 in
      let (known', total') = settle_all_conserves lawful clock pair ts y x' s known_y f in
      (known', total' ∙ total_y)

  -- Where balances add and subtract as in a commutative group, and every order is of an account that
  -- the balance book has: processing the buffered transactions, if it does not panic, leaves the sum
  -- of all balances in each asset as it is.
  pub process_transactions_conserves :
      IsLawful fx
      → (clock : ℕ → ℕ) (pair : AssetIdPair) (x x' : Exchange P) (s : ℕ) → KnownAccounts x
      → process_transactions clock pair x ≡ some x'
      → asset_total x'.balance_book s ≡ asset_total x.balance_book s
  unfolding process_transactions
  process_transactions_conserves lawful clock pair x x' s known e =
      (settle_all_conserves lawful clock pair (reverse x.transaction_buf)
        (record x { transaction_buf = [] }) x' s known e).1
