-- ===== src/Exchange/Progress.antt =====
-- `process_transactions` of src/exchange.rs between accounts and orders that the exchange has.
use market_sim_backend.Prelude.{
  ℕ, ◌<◌, ◌≡◌, ◌≢◌, refl, ap, sym, ◌∙◌, some, List, [], ◌∷◌, map, length, get_elem?, set, All,
  arith,
}
use market_sim_backend.Fixed.{Fixed}
use market_sim_backend.Asset.{AssetIdPair}
use market_sim_backend.Order.{Side, PlacedOrder}
use market_sim_backend.Orderbook.Types.{ObTransaction}
use market_sim_backend.BalanceBook.{get_index}
use market_sim_backend.BalanceBook.Matrix.{IsRectangular, get_disjoint_lem}
use market_sim_backend.Exchange.State.{Exchange}
use market_sim_backend.Exchange.Settle.{
  ◌>>=◌, two_orders, fill_order, transfer, four_balances, settled, settle_one, settle_all,
}
use market_sim_backend.Exchange.Totals.{length-update_balance}
use market_sim_backend.Exchange.Conservation.{All-set, All-get_elem?}
use market_sim_backend.Exchange.Owners.{
  owner, Covers, Covers-refl, Covers-trans, Covers-set, owner-get_elem?,
}
use market_sim_backend.Exchange.Supply.{KnownIn, Booked}

module _ {P : Type 0} where
  -- A transaction between orders of two accounts.
  abbrev pub Traded : List (ℕ × PlacedOrder P) → ObTransaction P → Type 0
  Traded os t =
      (a : ℕ) × (b : ℕ) × (owner os t.order_id_maker ≡ some a)
      × (owner os t.order_id_taker ≡ some b)
      × (a ≢ b)

  pub All-Traded :
      (os os' : List (ℕ × PlacedOrder P)) (ts : List (ObTransaction P))
      → Covers os os'
      → All (Traded os) ts
      → All (Traded os') ts
  All-Traded os os' [] c h = tt
  All-Traded os os' (t ∷ ts) c ((a, b, m, k, n), h) =
      ((a, b, c t.order_id_maker a m, c t.order_id_taker b k, n), All-Traded os os' ts c h)

  pub owner-KnownIn :
      (n : ℕ) (os : List (ℕ × PlacedOrder P)) (i a : ℕ) → KnownIn n os → owner os i ≡ some a → a < n
  owner-KnownIn n os i a h e =
      let (v, got, same) = owner-get_elem? os i a e in
      rw same at (All-get_elem? (λ (o : ℕ × PlacedOrder P). o.1.account_id < n) os i v h got)

  -- What settling leaves of the exchange.
  pub record IsSettled (x x' : Exchange P) : Type 0 where
    pub covers : Covers x.session_orders x'.session_orders
    pub booked : Booked x'
    pub rectangular : IsRectangular x'.balance_book
    pub same_assets : x'.balance_book.assets ≡ x.balance_book.assets
    pub same_markets : x'.markets ≡ x.markets
    pub same_listing : x'.traded_assets ≡ x.traded_assets
    pub same_buffer : x'.transaction_buf ≡ x.transaction_buf

module _ {P : Type 0} ⦃fx : Fixed P⦄ where
  length-transfer :
      (side : Side) (vp vs : P) (bs : List P) (i j k l : ℕ)
      → length (transfer side vp vs bs (i ∷ j ∷ k ∷ l ∷ [])) ≡ length bs
  unfolding transfer
  length-transfer Side.ask vp vs bs i j k l = simp length-update_balance
  length-transfer Side.bid vp vs bs i j k l = simp length-update_balance

  two_orders_found :
      (os : List (ℕ × PlacedOrder P)) (i j : ℕ) (v w : ℕ × PlacedOrder P)
      → i ≢ j
      → get_elem? os i ≡ some v
      → get_elem? os j ≡ some w
      → two_orders os i j ≡ some (v, w)
  two_orders_found os i j v w n e f = ground arith

  settle_one_returns :
      (clock : ℕ → ℕ) (pair : AssetIdPair) (t : ObTransaction P) (x : Exchange P)
      → Booked x
      → IsRectangular x.balance_book
      → pair.primary ≢ pair.secondary
      → pair.primary < x.balance_book.assets
      → pair.secondary < x.balance_book.assets
      → Traded x.session_orders t
      → (x' : Exchange P) × (settle_one clock pair t x ≡ some x') × IsSettled x x'
  unfolding settle_one settled
  settle_one_returns clock pair t x h r ne lp ls (a, b, om, ot, nab) =
      let os = x.session_orders in
      let i : ℕ = t.order_id_maker in
      let j : ℕ = t.order_id_taker in
      let bb = x.balance_book in
      let (v, gv, va) = owner-get_elem? os i a om in
      let (w, gw, wb) = owner-get_elem? os j b ot in
      let distinct : i ≢ j =
        λ e. let both : some a ≡ some b = sym om ∙ ap (owner os) e ∙ ot in nab (cc both) in
      let la : v.1.account_id < bb.accounts = rw va (owner-KnownIn bb.accounts os i a h.1 om) in
      let lb : w.1.account_id < bb.accounts = rw wb (owner-KnownIn bb.accounts os j b h.1 ot) in
      let other : v.1.account_id ≢ w.1.account_id = rw (va, wb) nab in
      let lent =
        get_disjoint_lem bb pair.primary pair.secondary v.1.account_id w.1.account_id r ne other lp
          ls la lb in
      let indices = map (λ (p : ℕ × ℕ). get_index bb p.0 p.1) (four_balances pair (v, w)) in
      let v' : ℕ × PlacedOrder P = (v.0, fill_order t.volume v.1) in
      let w' : ℕ × PlacedOrder P = (w.0, fill_order t.volume w.1) in
      let Q = λ (o : ℕ × PlacedOrder P). o.1.account_id < bb.accounts in
      let first = Covers-set os i v' (om ∙ ap some (sym va)) in
      (
        settled clock pair t (v, w) indices x,
        rw (two_orders_found os i j v w distinct gv gw, lent, ◌>>=◌) refl,
        record {
          covers =
              Covers-trans os (set os i v') (set (set os i v') j w') first
                (Covers-set (set os i v') j w' (first j _ (ot ∙ ap some (sym wb))));
          booked = (h.0, All-set Q (set os i v') j w' (All-set Q os i v' h.1 la) lb);
          rectangular = record {
            filled = length-transfer t.taker_side _ _ bb.balances _ _ _ _ ∙ r.filled;
            accounts_fit = r.accounts_fit;
            assets_fit = r.assets_fit;
          };
          same_assets = refl;
          same_markets = refl;
          same_listing = refl;
          same_buffer = refl;
        },
      )

  pub settle_all_returns :
      (clock : ℕ → ℕ) (pair : AssetIdPair) (ts : List (ObTransaction P)) (x : Exchange P)
      → Booked x
      → IsRectangular x.balance_book
      → pair.primary ≢ pair.secondary
      → pair.primary < x.balance_book.assets
      → pair.secondary < x.balance_book.assets
      → All (Traded x.session_orders) ts
      → (x' : Exchange P) × (settle_all clock pair ts x ≡ some x') × IsSettled x x'
  unfolding settle_all
  settle_all_returns clock pair [] x h r ne lp ls all = (
    x,
    refl,
    record {
      covers = Covers-refl x.session_orders;
      booked = h;
      rectangular = r;
      same_assets = refl;
      same_markets = refl;
      same_listing = refl;
      same_buffer = refl;
    },
  )
  settle_all_returns clock pair (t ∷ ts) x h r ne lp ls all =
      let (y, e, s) = settle_one_returns clock pair t x h r ne lp ls all.0 in
      let (z, f, u) =
        settle_all_returns clock pair ts y s.booked s.rectangular ne (rw s.same_assets lp)
          (rw s.same_assets ls) (All-Traded x.session_orders y.session_orders ts s.covers all.1) in
      (
        z,
        rw (e, ◌>>=◌) f,
        record {
          covers =
              Covers-trans x.session_orders y.session_orders z.session_orders s.covers u.covers;
          booked = u.booked;
          rectangular = u.rectangular;
          same_assets = u.same_assets ∙ s.same_assets;
          same_markets = u.same_markets ∙ s.same_markets;
          same_listing = u.same_listing ∙ s.same_listing;
          same_buffer = u.same_buffer ∙ s.same_buffer;
        },
      )
