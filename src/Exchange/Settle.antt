-- ===== src/Exchange/Settle.antt =====
-- `process_transactions` of src/exchange.rs: it takes the buffered transactions from the back, and
-- for each one updates the two orders, the four balances and the recent transactions. `none` is a
-- panic, which ends the thread of the exchange.
use market_sim_backend.Prelude.{
  ◌≡◌, refl, ℕ, Option, none, some, List, [], ◌∷◌, reverse, get_elem?, set, ◌==◌, if◌then◌else◌,
  sub32,
}
use market_sim_backend.Fixed.{Fixed}
use market_sim_backend.Asset.{AssetIdPair}
use market_sim_backend.Order.{Side, OrderExecutionStatus, PlacedOrder}
use market_sim_backend.Orderbook.Types.{ObTransaction}
use market_sim_backend.BalanceBook.{get_disjoint}
use market_sim_backend.RecentTransactions.{push}
use market_sim_backend.Exchange.State.{Exchange}

infixl 5 ◌>>=◌
abbrev pub ◌>>=◌ {ℓ κ} : {A : Type ℓ} {B : Type κ} → Option A → (A → Option B) → Option B
none >>= f = none
some a >>= f = f a

-- The parts of a run that does not panic.
pub >>=-eq-some {ℓ κ} :
    {A : Type ℓ} {B : Type κ} (m : Option A) (f : A → Option B) {b : B}
    → (m >>= f) ≡ some b
    → (a : A) × (m ≡ some a) × (f a ≡ some b)
>>=-eq-some none f e = cc
>>=-eq-some (some a) f e = (a, refl, e)

module _ {P : Type 0} where
  -- A fill of `volume`, and the status where nothing is left.
  abbrev pub fill_order : ℕ → PlacedOrder P → PlacedOrder P
  fill_order volume o =
      let remaining = sub32 o.remaining_volume volume in
      record o {
        remaining_volume = remaining;
        status = if remaining == 0 then OrderExecutionStatus.filled else o.status;
      }

  -- `session_orders.get_disjoint_mut([i, j])`
  abbrev pub two_orders :
      List (ℕ × PlacedOrder P) → ℕ → ℕ → Option ((ℕ × PlacedOrder P) × (ℕ × PlacedOrder P))
  two_orders orders i j =
      if i == j then none else get_elem? orders i >>= λ a. get_elem? orders j >>= λ b. some (a, b)

module _ {P : Type 0} ⦃fx : Fixed P⦄ where
  -- `balances[i] = f(balances[i])` for an index that `get_disjoint_mut` has lent
  abbrev pub update_balance : List P → ℕ → (P → P) → List P
  update_balance balances i f = elim (get_elem? balances i) [
    | none ↦ balances
    | some p ↦ set balances i (f p)
  ]

  -- The four balances: of the primary asset for maker and taker, then of the secondary asset.
  unfoldable pub transfer : Side → P → P → List P → List ℕ → List P
  transfer Side.ask volume_primary volume_secondary bs (pm ∷ pt ∷ sm ∷ st ∷ []) =
      let bs1 = update_balance bs pt (λ b. fx.sub b volume_primary) in
      let bs2 = update_balance bs1 st (λ b. fx.add b volume_secondary) in
      let bs3 = update_balance bs2 pm (λ b. fx.add b volume_primary) in
      update_balance bs3 sm (λ b. fx.sub b volume_secondary)
  transfer Side.bid volume_primary volume_secondary bs (pm ∷ pt ∷ sm ∷ st ∷ []) =
      let bs1 = update_balance bs pt (λ b. fx.add b volume_primary) in
      let bs2 = update_balance bs1 st (λ b. fx.sub b volume_secondary) in
      let bs3 = update_balance bs2 pm (λ b. fx.sub b volume_primary) in
      update_balance bs3 sm (λ b. fx.add b volume_secondary)
  transfer _ volume_primary volume_secondary bs _ = bs

  -- The state after one round, from the two orders and the indices of the four balances.
  -- `clock n` is the time that the system clock gives at the n-th push.
  unfoldable pub settled :
      (clock : ℕ → ℕ)
      → AssetIdPair
      → ObTransaction P
      → (ℕ × PlacedOrder P) × (ℕ × PlacedOrder P)
      → List ℕ
      → Exchange P
      → Exchange P
  settled clock pair t found indices x =
      let volume_primary = fx.from_u32 t.volume in
      let volume_secondary = fx.mul volume_primary t.price in
      let (maker_id, maker) = found.0 in
      let (taker_id, taker) = found.1 in
      let orders1 = set x.session_orders t.order_id_maker (maker_id, fill_order t.volume maker) in
      let orders2 = set orders1 t.order_id_taker (taker_id, fill_order t.volume taker) in
      let b = x.balance_book in
      record x {
        session_orders = orders2;
        balance_book = record b {
          balances = transfer t.taker_side volume_primary volume_secondary b.balances indices;
        };
        last_100_tx = push x.last_100_tx (record {
          market = pair;
          price = t.price;
          volume = t.volume;
          taker_side = t.taker_side;
          maker = maker.account_id;
          taker = taker.account_id;
          timestamp_ms = clock x.last_100_tx.write_idx;
        });
      }

  -- `get_disjoint_mut` for the primary and the secondary asset of maker and taker
  abbrev pub four_balances : AssetIdPair → (ℕ × PlacedOrder P) × (ℕ × PlacedOrder P) → List (ℕ × ℕ)
  four_balances pair found =
      let maker_id = found.0.1.account_id in
      let taker_id = found.1.1.account_id in
      (pair.primary, maker_id)
      ∷ (pair.primary, taker_id)
      ∷ (pair.secondary, maker_id)
      ∷ (pair.secondary, taker_id)
      ∷ []

  -- One round of the loop.
  unfoldable pub settle_one :
      (clock : ℕ → ℕ) → AssetIdPair → ObTransaction P → Exchange P → Option (Exchange P)
  settle_one clock pair t x =
      two_orders x.session_orders t.order_id_maker t.order_id_taker >>= λ found.
      get_disjoint x.balance_book (four_balances pair found) >>= λ indices.
      some (settled clock pair t found indices x)

  -- The transactions in the order in which `pop` gives them.
  unfoldable pub settle_all :
      (clock : ℕ → ℕ) → AssetIdPair → List (ObTransaction P) → Exchange P → Option (Exchange P)
  settle_all clock pair [] x = some x
  settle_all clock pair (t ∷ ts) x = settle_one clock pair t x >>= λ x'. settle_all clock pair ts x'

  unfoldable pub process_transactions :
      (clock : ℕ → ℕ) → AssetIdPair → Exchange P → Option (Exchange P)
  process_transactions clock pair x =
      settle_all clock pair (reverse x.transaction_buf) (record x { transaction_buf = [] })
