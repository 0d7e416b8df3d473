-- ===== src/Tests/Configs.antt =====
-- Tests of src/util/exchange_configs.rs, after src/Config.toml.
use Prim.Native.String.{String}
use market_sim_backend.Prelude.{ℕ, ◌≡◌, refl, none, some, List, [], ◌∷◌, arith}
use market_sim_backend.Fixed.Word64.{Word64, word_fixed}
use market_sim_backend.Asset.{NewAsset, AssetPairSymbolic, AssetIdPair}
use market_sim_backend.Market
use market_sim_backend.Exchange.State.{create_account, add_asset, add_market, is_traded_asset}
use market_sim_backend.Exchange.Settle.{◌>>=◌}
use market_sim_backend.ExchangeConfigs.{
  custom, find_symbol, pair_of, create_accounts, add_assets, add_market_unwrap,
  add_symbolic_markets, add_markets, markets_5_accs_5,
}
use market_sim_backend.ExchangeConfigs.Custom.{custom_result, custom_lem}

-- The symbols are in upper case already.
abbrev upper : String → String
upper s = s

abbrev assets : List NewAsset
assets = record { name = "Euro"; symbol = "EUR" } ∷ record { name = "Dollar"; symbol = "USD" } ∷ []

abbrev markets : List AssetPairSymbolic
markets = record { primary = "EUR"; secondary = "USD" } ∷ []

custom_lem_example :
    custom {P = Word64} upper assets markets 2 ≡ custom_result upper assets markets 2
custom_lem_example = custom_lem upper assets markets 2 (omega arith)

-- The pairs of the second set-up: a primary asset against the dollar or the euro.
five_markets :
    ◌>>=◌ {B = List AssetIdPair × List ℕ} (markets_5_accs_5 {P = Word64}) (λ d. some (d.1, d.2))
    ≡ some (
      record { primary = 1; secondary = 0 }
          ∷ record { primary = 2; secondary = 0 }
          ∷ record { primary = 3; secondary = 0 }
          ∷ record { primary = 3; secondary = 1 }
          ∷ record { primary = 2; secondary = 1 }
          ∷ [],
      0 ∷ 1 ∷ 2 ∷ 3 ∷ 4 ∷ [],
    )
unfolding markets_5_accs_5 create_accounts create_account add_asset add_markets add_market_unwrap
    add_market is_traded_asset Market.add_market
five_markets = refl

-- A symbol that is not listed.
unlisted :
    custom {P = Word64} upper assets (record { primary = "EUR"; secondary = "JPY" } ∷ []) 0 ≡ none
unfolding custom create_accounts add_assets add_asset add_symbolic_markets pair_of find_symbol
unlisted = refl
