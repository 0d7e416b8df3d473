-- ===== src/Market.antt =====
-- src/market.rs: one market, which is an order book with its pair, and the markets of an exchange.
use market_sim_backend.Prelude.{
  ℕ, Bool, false, ◌||◌, Option, none, some, List, [], ◌∷◌, ◌++◌, if◌then◌else◌, Result, ok, err,
}
use market_sim_backend.Fixed.{Fixed}
use market_sim_backend.Asset.{AssetIdPair, pair_eq}
use market_sim_backend.Errors.{
  MarketCreationError, OrderInsertionError, OrderCancellationError, OrderModificationError,
}
use market_sim_backend.Order.{
  OrderExecutionStatus, OrderInsertion, OrderCancellation, OrderModification,
}
use market_sim_backend.Orderbook.Types.{
  ObOrderInsertionEffects, ObTransaction, Orderbook, empty_orderbook,
}
use market_sim_backend.Orderbook.Resting
use market_sim_backend.Orderbook.Matching

pub record OrderInsertionEffects : Type 0 where
  pub id : ℕ
  pub status : OrderExecutionStatus

pub record Market (P : Type 0) : Type 0 where
  pub asset_pair : AssetIdPair
  pub last_traded_price : P
  pub orderbook : Orderbook P

pub record Markets (P : Type 0) : Type 0 where
  pub keys : List AssetIdPair
  pub inner : List (Market P)

abbrev pub empty_markets : {P : Type 0} → Markets P
empty_markets = record { keys = []; inner = [] }

-- `keys.contains(key)`
abbrev pub contains : List AssetIdPair → AssetIdPair → Bool
contains [] key = false
contains (k ∷ ks) key = pair_eq k key || contains ks key

module _ {P : Type 0} where
  -- The loop of `get` and `get_mut`.
  unfoldable pub find_market : List (Market P) → AssetIdPair → Option (Market P)
  find_market [] key = none
  find_market (m ∷ ms) key = if pair_eq m.asset_pair key then some m else find_market ms key

  -- What the caller leaves in the market that `get_mut` lent.
  unfoldable pub write_market : List (Market P) → AssetIdPair → Market P → List (Market P)
  write_market [] key m' = []
  write_market (m ∷ ms) key m' =
      if pair_eq m.asset_pair key then m' ∷ ms else m ∷ write_market ms key m'

  abbrev pub get_market : Markets P → AssetIdPair → Option (Market P)
  get_market markets key = find_market markets.inner key

  abbrev pub put_market : Markets P → AssetIdPair → Market P → Markets P
  put_market markets key m' = record markets { inner = write_market markets.inner key m' }

  -- `last_traded_price` moves only if the insertion reports a price.
  abbrev pub note_price : Result OrderInsertionError (ObOrderInsertionEffects P) → P → P
  note_price (ok effects) old = elim effects.last_traded_price [ none ↦ old | some p ↦ p ]
  note_price (err _) old = old

module _ {P : Type 0} ⦃fx : Fixed P⦄ where
  abbrev pub new_market : AssetIdPair → Market P
  new_market pair = record {
    asset_pair = pair;
    last_traded_price = fx.zero_value;
    orderbook = empty_orderbook;
  }

  unfoldable pub add_market :
      AssetIdPair → Markets P → Result MarketCreationError (Unit {0}) × Markets P
  add_market pair markets =
      if contains markets.keys pair
      then (err MarketCreationError.market_already_exists, markets)
      else (
        ok tt,
        record { keys = markets.keys ++ pair ∷ []; inner = markets.inner ++ new_market pair ∷ [] },
      )

  unfoldable pub insert_order :
      OrderInsertion P
      → Market P
      → List (ObTransaction P)
      → Result OrderInsertionError (ObOrderInsertionEffects P) × Market P × List (ObTransaction P)
  insert_order order m buf =
      let (result, ob, buf') = Matching.insert_order order m.orderbook buf in
      (
        result,
        record m { orderbook = ob; last_traded_price = note_price result m.last_traded_price },
        buf',
      )

  unfoldable pub cancel_order :
      OrderCancellation P → Market P → Result OrderCancellationError (Unit {0}) × Market P
  cancel_order c m =
      let (result, ob) = Resting.cancel_order c m.orderbook in (result, record m { orderbook = ob })

  unfoldable pub modify_order :
      OrderModification P → Market P → Result OrderModificationError (Unit {0}) × Market P
  modify_order o m =
      let (result, ob) = Resting.modify_order o m.orderbook in (result, record m { orderbook = ob })
