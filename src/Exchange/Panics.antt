-- ===== src/Exchange/Panics.antt =====
-- Where `process_transactions` of src/exchange.rs panics.
use market_sim_backend.Prelude.{
  ℕ, zero, suc, ◌≡◌, ◌∙◌, refl, ap, sym, none, some, Option-cases, List, [], ◌∷◌, ◌++◌, reverse,
  reverse-append, get_elem?, set, append_assoc, inl, inr, arith,
}
use market_sim_backend.Fixed.{Fixed}
use market_sim_backend.Asset.{AssetIdPair}
use market_sim_backend.Orderbook.Types.{ObTransaction}
use market_sim_backend.BalanceBook.{BalanceBook, get_disjoint}
use market_sim_backend.Exchange.State.{Exchange}
use market_sim_backend.Exchange.Settle.{
  >>=-eq-some, ◌>>=◌, two_orders, fill_order, four_balances, settled, settle_one, settle_all,
  process_transactions,
}
use market_sim_backend.Exchange.Conservation.{two_orders-some}
use market_sim_backend.Exchange.Owners.{owner, Covers, Covers-trans, Covers-set, owner-get_elem?}
use market_sim_backend.Order.{PlacedOrder}

module _ {P : Type 0} where
  overlap :
      (b : BalanceBook P) (asset maker taker : ℕ)
      → get_disjoint b ((asset, maker) ∷ (asset, taker) ∷ (asset, maker) ∷ (asset, taker) ∷ [])
        ≡ none
  unfolding get_disjoint
  overlap b asset maker taker = ground arith

  same_holder :
      (b : BalanceBook P) (primary secondary account : ℕ)
      → get_disjoint b (
          (primary, account)
          ∷ (primary, account)
          ∷ (secondary, account)
          ∷ (secondary, account)
          ∷ [])
        ≡ none
  unfolding get_disjoint
  same_holder b primary secondary account = ground arith

  get_elem?-owner :
      (os : List (ℕ × PlacedOrder P)) (i : ℕ) (v : ℕ × PlacedOrder P)
      → get_elem? os i ≡ some v
      → owner os i ≡ some v.1.account_id
  get_elem?-owner [] i v e = cc
  get_elem?-owner ((j, o) ∷ os) zero v e =
      ap (λ z. elim z [ none ↦ none | some w ↦ some w.1.account_id ]) e
  get_elem?-owner ((j, o) ∷ os) (suc i) v e = get_elem?-owner os i v e

module _ {P : Type 0} ⦃fx : Fixed P⦄ where
  -- A transaction of a market that trades an asset with itself is never settled: the round panics,
  -- whatever the state.
  pub settle_one_same_asset :
      (clock : ℕ → ℕ) (pair : AssetIdPair) (t : ObTransaction P) (x : Exchange P)
      → pair.primary ≡ pair.secondary
      → settle_one clock pair t x ≡ none
  unfolding settle_one
  settle_one_same_asset clock pair t x e =
      elim (Option-cases (two_orders x.session_orders t.order_id_maker t.order_id_taker)) [
        | inl n ↦ rw (n, settle_one)
        | inr ((maker, taker), f) ↦
            rw (f, ← e, overlap x.balance_book pair.primary maker.1.account_id taker.1.account_id)
      ]

  -- A round between two orders of one account panics.
  settle_one_same_account :
      (clock : ℕ → ℕ) (pair : AssetIdPair) (t : ObTransaction P) (x : Exchange P) (a : ℕ)
      → owner x.session_orders t.order_id_maker ≡ some a
      → owner x.session_orders t.order_id_taker ≡ some a
      → settle_one clock pair t x ≡ none
  unfolding settle_one
  settle_one_same_account clock pair t x a om ot =
      let os = x.session_orders in
      let (v, gv, va) = owner-get_elem? os t.order_id_maker a om in
      let (w, gw, wa) = owner-get_elem? os t.order_id_taker a ot in
      elim (Option-cases (two_orders os t.order_id_maker t.order_id_taker)) [
        | inl n ↦ rw (n, settle_one)
        | inr ((maker, taker), f) ↦
            let (got_maker, got_taker) =
              two_orders-some os t.order_id_maker t.order_id_taker maker taker f in
            let m : maker.1.account_id ≡ a = cc (sym (get_elem?-owner os _ maker got_maker) ∙ om) in
            let k : taker.1.account_id ≡ a = cc (sym (get_elem?-owner os _ taker got_taker) ∙ ot) in
            rw (f, m, k, same_holder x.balance_book pair.primary pair.secondary a)
      ]

  settle_one-Covers :
      (clock : ℕ → ℕ) (pair : AssetIdPair) (t : ObTransaction P) (x x' : Exchange P)
      → settle_one clock pair t x ≡ some x'
      → Covers x.session_orders x'.session_orders
  unfolding settle_one settled
  settle_one-Covers clock pair t x x' e =
      let os = x.session_orders in
      let i : ℕ = t.order_id_maker in
      let j : ℕ = t.order_id_taker in
      let ((v, w), e1, f) = >>=-eq-some (two_orders os i j) _ e in
      let (indices, e2, g) =
        >>=-eq-some (get_disjoint x.balance_book (four_balances pair (v, w))) _ f in
      let (gv, gw) = two_orders-some os i j v w e1 in
      let v' : ℕ × PlacedOrder P = (v.0, fill_order t.volume v.1) in
      let w' : ℕ × PlacedOrder P = (w.0, fill_order t.volume w.1) in
      let same : settled clock pair t (v, w) indices x ≡ x' = cc g in
      let first = Covers-set os i v' (get_elem?-owner os i v gv) in
      rw (← same) (
        Covers-trans os (set os i v') (set (set os i v') j w') first
          (Covers-set (set os i v') j w' (first j _ (get_elem?-owner os j w gw))))

  settle_all_same_account :
      (clock : ℕ → ℕ) (pair : AssetIdPair) (us vs : List (ObTransaction P)) (t : ObTransaction P)
      (x : Exchange P) (a : ℕ)
      → owner x.session_orders t.order_id_maker ≡ some a
      → owner x.session_orders t.order_id_taker ≡ some a
      → settle_all clock pair (us ++ t ∷ vs) x ≡ none
  unfolding settle_all
  settle_all_same_account clock pair [] vs t x a om ot =
      rw (settle_one_same_account clock pair t x a om ot, ◌>>=◌) refl
  settle_all_same_account clock pair (u ∷ us) vs t x a om ot =
      elim (Option-cases (settle_one clock pair u x)) [
        | inl e ↦ rw (e, ◌>>=◌) refl
        | inr (y, e) ↦
            let c = settle_one-Covers clock pair u x y e in
            rw (e, ◌>>=◌)
              (settle_all_same_account clock pair us vs t y a (c t.order_id_maker a om)
                (c t.order_id_taker a ot))
      ]

  -- If the buffer has, anywhere, a transaction between two orders of one account, processing it panics.
  pub process_transactions_same_account :
      (clock : ℕ → ℕ) (pair : AssetIdPair) (us vs : List (ObTransaction P)) (t : ObTransaction P)
      (x : Exchange P) (a : ℕ)
      → x.transaction_buf ≡ us ++ t ∷ vs
      → owner x.session_orders t.order_id_maker ≡ some a
      → owner x.session_orders t.order_id_taker ≡ some a
      → process_transactions clock pair x ≡ none
  unfolding process_transactions
  process_transactions_same_account clock pair us vs t x a buf om ot =
      let split : reverse x.transaction_buf ≡ reverse vs ++ t ∷ reverse us =
        ap reverse buf
        ∙ reverse-append us (t ∷ vs)
        ∙ ap (λ z. z ++ reverse us) (reverse-append (t ∷ []) vs)
        ∙ append_assoc (reverse vs) (t ∷ []) (reverse us) in
      rw split (
        settle_all_same_account clock pair (reverse vs) (reverse us) t
          (record x { transaction_buf = [] }) a om ot)
