-- ===== src/Exchange/Soundness.antt =====
-- The exchange of src/exchange.rs as it stands between two commands: its markets trade two of its assets,
-- and its books hold orders that it tracks.
use market_sim_backend.Prelude.{
  ℕ, ◌<◌, ◌≡◌, ◌≢◌, ap, sym, ◌∙◌, Bool-cases, true, some, List, [], ◌∷◌, All, inl, inr, arith,
}
use market_sim_backend.Asset.{Asset, AssetIdPair, pair_eq, eq_of_pair_eq}
use market_sim_backend.Order.{PlacedOrder}
use market_sim_backend.Orderbook.Types.{OrderbookEntry, Levels, Orderbook}
use market_sim_backend.Orderbook.Entries.{AllEntries, BookAll}
use market_sim_backend.BalanceBook.Matrix.{IsRectangular}
use market_sim_backend.Market.{Market, find_market, write_market}
use market_sim_backend.Exchange.State.{Exchange, any_id}
use market_sim_backend.Exchange.Owners.{owner, Covers}
use market_sim_backend.Exchange.Supply.{Booked}

pub any_id-listed :
    (n id : ℕ) (assets : List Asset) → All (λ a. a.id < n) assets → any_id assets id ≡ true → id < n
any_id-listed n id [] h e = cc
any_id-listed n id (a ∷ as_) h e = ground (arith, any_id-listed n id as_ h.1)

module _ {P : Type 0} where
  -- A resting order is one of those that the exchange tracks, of the same account.
  abbrev pub IsTracked : List (ℕ × PlacedOrder P) → OrderbookEntry → Type 0
  IsTracked os e = owner os e.order_id ≡ some e.account_id

  abbrev pub MarketOk : ℕ → List (ℕ × PlacedOrder P) → Market P → Type 0
  MarketOk assets os m =
      (m.asset_pair.primary ≢ m.asset_pair.secondary)
      × (m.asset_pair.primary < assets)
      × (m.asset_pair.secondary < assets)
      × BookAll (IsTracked os) m.orderbook

  -- Accounts have their balances and orders their accounts; the assets listed have their balances; and
  -- every market trades two different assets of these, with tracked orders in its book.
  pub record IsSound (x : Exchange P) : Type 0 where
    pub booked : Booked x
    pub rectangular : IsRectangular x.balance_book
    pub listed : All (λ a. a.id < x.balance_book.assets) x.traded_assets
    pub markets_ok : All (MarketOk x.balance_book.assets x.session_orders) x.markets.inner

  queue-Covers :
      (os os' : List (ℕ × PlacedOrder P)) (es : List OrderbookEntry)
      → Covers os os'
      → All (IsTracked os) es
      → All (IsTracked os') es
  queue-Covers os os' [] c h = tt
  queue-Covers os os' (e ∷ es) c h = (c e.order_id e.account_id h.0, queue-Covers os os' es c h.1)

  levels-Covers :
      (os os' : List (ℕ × PlacedOrder P)) (levels : Levels P)
      → Covers os os'
      → AllEntries (IsTracked os) levels
      → AllEntries (IsTracked os') levels
  levels-Covers os os' [] c h = tt
  levels-Covers os os' ((p, es) ∷ t) c h =
      (queue-Covers os os' es c h.0, levels-Covers os os' t c h.1)

  pub BookAll-Covers :
      (os os' : List (ℕ × PlacedOrder P)) (ob : Orderbook P)
      → Covers os os'
      → BookAll (IsTracked os) ob
      → BookAll (IsTracked os') ob
  BookAll-Covers os os' ob c h =
      (levels-Covers os os' ob.bids c h.0, levels-Covers os os' ob.asks c h.1)

  pub markets-Covers :
      (n : ℕ) (os os' : List (ℕ × PlacedOrder P)) (ms : List (Market P))
      → Covers os os'
      → All (MarketOk n os) ms
      → All (MarketOk n os') ms
  markets-Covers n os os' [] c h = tt
  markets-Covers n os os' (m ∷ ms) c ((ne, lp, ls, b), h) =
      ((ne, lp, ls, BookAll-Covers os os' m.orderbook c b), markets-Covers n os os' ms c h)

  pub find_market-pair :
      (ms : List (Market P)) (key : AssetIdPair) (m : Market P)
      → find_market ms key ≡ some m
      → m.asset_pair ≡ key
  unfolding find_market
  find_market-pair [] key m e = cc
  find_market-pair (n ∷ ms) key m e = elim (Bool-cases (pair_eq n.asset_pair key)) [
    | inl here ↦
        let e' : some n ≡ some m = rw (here, find_market) at e in
        let same : n ≡ m = cc e' in
        sym (ap (λ (z : Market P). z.asset_pair) same) ∙ eq_of_pair_eq n.asset_pair key here
    | inr later ↦ find_market-pair ms key m (rw (later, find_market) at e)
  ]

  module _ {κ} (F : Market P → Type κ) where
    pub find_market-All :
        (ms : List (Market P)) (key : AssetIdPair) (m : Market P)
        → All F ms
        → find_market ms key ≡ some m
        → F m
    unfolding find_market
    find_market-All [] key m h e = cc
    find_market-All (n ∷ ms) key m h e = elim (Bool-cases (pair_eq n.asset_pair key)) [
      | inl here ↦
          let e' : some n ≡ some m = rw (here, find_market) at e in
          let same : n ≡ m = cc e' in rw same at h.0
      | inr later ↦ find_market-All ms key m h.1 (rw (later, find_market) at e)
    ]

    pub write_market-All :
        (ms : List (Market P)) (key : AssetIdPair) (m : Market P)
        → All F ms
        → F m
        → All F (write_market ms key m)
    unfolding write_market
    write_market-All [] key m h k = tt
    write_market-All (n ∷ ms) key m h k = elim (Bool-cases (pair_eq n.asset_pair key)) [
      | inl here ↦ rw (here, write_market) (k, h.1)
      | inr later ↦ rw (later, write_market) (h.0, write_market-All ms key m h.1 k)
    ]
