-- ===== src/ExchangeConfigs.antt =====
-- src/util/exchange_configs.rs: set-ups of an exchange. An exchange stands for its handle, `none` for a
-- panic, and `to_uppercase`, which is Rust's, is a parameter.
pub mod Symbols
pub mod Listing
pub mod Custom
pub mod Ready
use Prim.Native.String.{String}
use text.Mathlib.Text.{◌==◌}
use market_sim_backend.Prelude.{
  ℕ, zero, suc, Bool, true, false, Option, none, some, List, [], ◌∷◌, if◌then◌else◌, Result, ok,
  err,
}
use market_sim_backend.Fixed.{Fixed}
use market_sim_backend.Asset.{NewAsset, Asset, AssetPairSymbolic, AssetIdPair}
use market_sim_backend.Exchange.State.{
  Exchange, new_exchange, create_account, add_asset, add_market,
}
use market_sim_backend.Exchange.Settle.{◌>>=◌}

abbrev pub text_eq : String → String → Bool
text_eq s t = s == t

-- `assets.iter().find(|a| a.symbol == symbol)`
unfoldable pub find_symbol : List Asset → String → Option Asset
find_symbol [] symbol = none
find_symbol (a ∷ as_) symbol = if text_eq a.symbol symbol then some a else find_symbol as_ symbol

-- The pair of ids of a market that is given by its symbols.
unfoldable pub pair_of :
    (to_uppercase : String → String) → List Asset → AssetPairSymbolic → Option AssetIdPair
pair_of to_uppercase assets market = find_symbol assets (to_uppercase market.primary) >>= λ p.
    find_symbol assets (to_uppercase market.secondary) >>= λ s.
    some (record { primary = p.id; secondary = s.id })

module _ {P : Type 0} ⦃fx : Fixed P⦄ where
  -- `for _ in 0..n`
  unfoldable pub create_accounts : ℕ → Exchange P → List ℕ × Exchange P
  create_accounts zero x = ([], x)
  create_accounts (suc n) x =
      let (new_acc_id, x') = create_account x in
      let (accounts, x'') = create_accounts n x' in (new_acc_id ∷ accounts, x'')

  unfoldable pub add_assets :
      (to_uppercase : String → String) → List NewAsset → Exchange P → List Asset × Exchange P
  add_assets to_uppercase [] x = ([], x)
  add_assets to_uppercase (a ∷ as_) x =
      let (new_asset_id, x') = add_asset a.name (to_uppercase a.symbol) x in
      let (assets, x'') = add_assets to_uppercase as_ x' in
      (record { id = new_asset_id; name = a.name; symbol = to_uppercase a.symbol } ∷ assets, x'')

  -- `exchange.add_market(pair).unwrap()`
  unfoldable pub add_market_unwrap : AssetIdPair → Exchange P → Option (Exchange P)
  add_market_unwrap pair x =
      let (result, x') = add_market pair x in elim result [ ok _ ↦ some x' | err _ ↦ none ]

  unfoldable pub add_symbolic_markets :
      (to_uppercase : String → String)
      → List Asset
      → List AssetPairSymbolic
      → Exchange P
      → Option (List AssetIdPair × Exchange P)
  add_symbolic_markets to_uppercase assets [] x = some ([], x)
  add_symbolic_markets to_uppercase assets (m ∷ ms) x =
      pair_of to_uppercase assets m >>= λ new_market. add_market_unwrap new_market x >>= λ x'.
      add_symbolic_markets to_uppercase assets ms x' >>= λ rest. some (new_market ∷ rest.0, rest.1)

  -- `for pair in &pairs`
  unfoldable pub add_markets : List AssetIdPair → Exchange P → Option (Exchange P)
  add_markets [] x = some x
  add_markets (pair ∷ pairs) x = add_market_unwrap pair x >>= λ x'. add_markets pairs x'

  unfoldable pub custom :
      (to_uppercase : String → String)
      → List NewAsset
      → List AssetPairSymbolic
      → ℕ
      → Option (Exchange P × List AssetIdPair × List ℕ)
  custom to_uppercase create_assets create_markets num_accounts =
      let (accounts, x1) = create_accounts num_accounts new_exchange in
      let (assets, x2) = add_assets to_uppercase create_assets x1 in
      add_symbolic_markets to_uppercase assets create_markets x2 >>= λ made.
      some (made.1, made.0, accounts)

  unfoldable pub market_eur_usd : Option (Exchange P × List AssetIdPair × List ℕ)
  market_eur_usd =
      let (eur_id, x1) = add_asset "Euro" "EUR" new_exchange in
      let (usd_id, x2) = add_asset "United States Dollar" "USD" x1 in
      let pair : AssetIdPair = record { primary = eur_id; secondary = usd_id } in
      add_market_unwrap pair x2 >>= λ x3. some (x3, pair ∷ [], [])

  unfoldable pub market_eur_usd_accs_2 : Option (Exchange P × List AssetIdPair × List ℕ)
  market_eur_usd_accs_2 =
      let (id_1, x1) = create_account new_exchange in
      let (id_2, x2) = create_account x1 in
      let (eur_id, x3) = add_asset "Euro" "EUR" x2 in
      let (usd_id, x4) = add_asset "United States Dollar" "USD" x3 in
      let pair : AssetIdPair = record { primary = eur_id; secondary = usd_id } in
      add_market_unwrap pair x4 >>= λ x5. some (x5, pair ∷ [], id_1 ∷ id_2 ∷ [])

  unfoldable pub markets_5_accs_5 : Option (Exchange P × List AssetIdPair × List ℕ)
  markets_5_accs_5 =
      let (accounts, x1) = create_accounts 5 new_exchange in
      let (usd_id, x2) = add_asset "United States Dollar" "USD" x1 in
      let (eur_id, x3) = add_asset "Euro" "EUR" x2 in
      let (jpy_id, x4) = add_asset "Japanese Yen" "JPY" x3 in
      let (chf_id, x5) = add_asset "Swiss Frank" "CHF" x4 in
      let pairs : List AssetIdPair =
        record { primary = eur_id; secondary = usd_id }
        ∷ record { primary = jpy_id; secondary = usd_id }
        ∷ record { primary = chf_id; secondary = usd_id }
        ∷ record { primary = chf_id; secondary = eur_id }
        ∷ record { primary = jpy_id; secondary = eur_id }
        ∷ [] in
      add_markets pairs x5 >>= λ x6. some (x6, pairs, accounts)
