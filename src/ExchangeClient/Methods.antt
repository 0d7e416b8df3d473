-- ===== src/ExchangeClient/Methods.antt =====
-- The methods of src/exchange_client.rs, as data, with what each returns.
use market_sim_backend.Prelude.{ℕ, Option, List, Result}
use market_sim_backend.Asset.{Asset, AssetIdPair}
use market_sim_backend.Errors.{OrderInsertionError}
use market_sim_backend.Order.{OrderInsertionRequest}
use market_sim_backend.Orderbook.Types.{OrderbookL1}
use market_sim_backend.Market.{OrderInsertionEffects}
use market_sim_backend.Exchange.State.{Transaction}
use market_sim_backend.ExchangeClient
use market_sim_backend.ExchangeClient.{Call, send_commands, call}

pub data Method (P : Type 0) : Type 0 where
  insert_order : OrderInsertionRequest P → Method P
  get_assets get_all_l1 get_last_100_transactions : Method P
  get_balance : ℕ → ℕ → Method P

module _ {P : Type 0} where
  abbrev pub Returned : Method P → Type 0
  Returned (Method.insert_order req) = Result OrderInsertionError OrderInsertionEffects
  Returned Method.get_assets = List Asset
  Returned Method.get_all_l1 = List (AssetIdPair × OrderbookL1 P)
  Returned Method.get_last_100_transactions = List (Transaction P)
  Returned (Method.get_balance account asset) = Option P

  abbrev pub call_of : (m : Method P) → Call P (Returned m)
  call_of (Method.insert_order req) = ExchangeClient.insert_order req
  call_of Method.get_assets = ExchangeClient.get_assets
  call_of Method.get_all_l1 = ExchangeClient.get_all_l1
  call_of Method.get_last_100_transactions = ExchangeClient.get_last_100_transactions
  call_of (Method.get_balance account asset) = ExchangeClient.get_balance account asset
