-- ===== src/Exchange/State.antt =====
-- The state of `Exchange` in src/exchange.rs, and the calls that list assets, accounts and markets.
-- The command channel is no part of the state: `Exchange.Commands.run_buffer` is given what it holds.
use Prim.Native.String.{String}
use market_sim_backend.Prelude.{
  ℕ, ◌%◌, Bool, false, not, ◌||◌, List, [], ◌∷◌, ◌++◌, length, ◌==◌, if◌then◌else◌, u32_mod, Result,
  err,
}
use market_sim_backend.Fixed.{Fixed}
use market_sim_backend.Asset.{Asset, AssetIdPair}
use market_sim_backend.Errors.{MarketCreationError}
use market_sim_backend.Order.{Side, PlacedOrder}
use market_sim_backend.Orderbook.Types.{ObTransaction}
use market_sim_backend.BalanceBook
use market_sim_backend.BalanceBook.{BalanceBook, empty_book}
use market_sim_backend.Market
use market_sim_backend.Market.{Markets, empty_markets}
use market_sim_backend.RecentTransactions.{RecentTransactions, with_capacity}

pub record Transaction (P : Type 0) : Type 0 where
  pub market : AssetIdPair
  pub price : P
  pub volume : ℕ
  pub taker_side : Side
  pub maker : ℕ
  pub taker : ℕ
  pub timestamp_ms : ℕ

pub record Account : Type 0 where
  pub id : ℕ
  pub username : String

pub record Exchange (P : Type 0) : Type 0 where
  pub accounts : List (ℕ × Account)
  pub traded_assets : List Asset
  pub balance_book : BalanceBook P
  pub markets : Markets P
  pub session_orders : List (ℕ × PlacedOrder P)
  pub last_100_tx : RecentTransactions (Transaction P)
  pub transaction_buf : List (ObTransaction P)

abbrev pub new_exchange : {P : Type 0} → Exchange P
new_exchange = record {
  accounts = [];
  traded_assets = [];
  balance_book = empty_book;
  markets = empty_markets;
  session_orders = [];
  last_100_tx = with_capacity 100;
  transaction_buf = [];
}

-- `HashMap::insert`, on the association list of the map's entries.
abbrev pub insert_account : List (ℕ × Account) → ℕ → Account → List (ℕ × Account)
insert_account [] k a = (k, a) ∷ []
insert_account ((j, b) ∷ m) k a = if j == k then (k, a) ∷ m else (j, b) ∷ insert_account m k a

abbrev pub any_id : List Asset → ℕ → Bool
any_id [] id = false
any_id (a ∷ as_) id = (a.id == id) || any_id as_ id

module _ {P : Type 0} where
  unfoldable pub is_traded_asset : Exchange P → ℕ → Bool
  is_traded_asset x asset_id = any_id x.traded_assets asset_id

  -- Does not touch the balance book.
  unfoldable pub create_account_with_name : String → Exchange P → ℕ × Exchange P
  create_account_with_name username x =
      let new_id = length x.accounts % u32_mod in
      (
        new_id,
        record x {
          accounts = insert_account x.accounts new_id (record { id = new_id; username = username });
        },
      )

module _ {P : Type 0} ⦃fx : Fixed P⦄ where
  unfoldable pub add_asset : String → String → Exchange P → ℕ × Exchange P
  add_asset name symbol x =
      let new_id = length x.traded_assets % u32_mod in
      (
        new_id,
        record x {
          traded_assets =
              x.traded_assets ++ record { id = new_id; name = name; symbol = symbol } ∷ [];
          balance_book = BalanceBook.add_asset x.balance_book;
        },
      )

  unfoldable pub create_account : Exchange P → ℕ × Exchange P
  create_account x =
      let new_id = length x.accounts % u32_mod in
      (
        new_id,
        record x {
          accounts = insert_account x.accounts new_id (record { id = new_id; username = "" });
          balance_book = BalanceBook.add_account x.balance_book;
        },
      )

  unfoldable pub add_market :
      AssetIdPair → Exchange P → Result MarketCreationError (Unit {0}) × Exchange P
  unfolding is_traded_asset
  add_market pair x =
      if not (is_traded_asset x pair.primary) || not (is_traded_asset x pair.secondary)
      then (err MarketCreationError.asset_not_traded, x)
      else let (result, markets) = Market.add_market pair x.markets in
        (result, record x { markets = markets })
