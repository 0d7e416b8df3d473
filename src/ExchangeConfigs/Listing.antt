-- ===== src/ExchangeConfigs/Listing.antt =====
-- What `custom` of src/util/exchange_configs.rs is to set up, and its loops over accounts and assets.
use Prim.Native.String.{String}
use market_sim_backend.Prelude.{
  ℕ, zero, suc, ◌+◌, ◌%◌, ◌<◌, ◌≡◌, refl, ap, sym, ◌∙◌, List, [], ◌∷◌, ◌++◌, replicate, length,
  append-nil, append_assoc, u32_mod, arith,
}
use market_sim_backend.Fixed.{Fixed}
use market_sim_backend.Asset.{NewAsset, AssetIdPair}
use market_sim_backend.Exchange.State.{Exchange, create_account, add_asset, add_market}
use market_sim_backend.Exchange.Setup.{
  SetupCall, set_up, IsReady, create_account-IsReady, add_asset-IsReady,
}
use market_sim_backend.ExchangeConfigs.Symbols.{listing}
use market_sim_backend.ExchangeConfigs.{create_accounts, add_assets}

abbrev pub count_from : ℕ → ℕ → List ℕ
count_from k zero = []
count_from k (suc n) = k ∷ count_from (suc k) n

abbrev pub asset_calls : (String → String) → List NewAsset → List SetupCall
asset_calls up [] = []
asset_calls up (a ∷ as_) = SetupCall.new_asset a.name (up a.symbol) ∷ asset_calls up as_

abbrev pub market_calls : List AssetIdPair → List SetupCall
market_calls [] = []
market_calls (p ∷ ps) = SetupCall.new_market p ∷ market_calls ps

abbrev pub custom_calls : (String → String) → List NewAsset → List AssetIdPair → ℕ → List SetupCall
custom_calls up assets pairs n =
    replicate n SetupCall.new_account ++ (asset_calls up assets ++ market_calls pairs)

module _ {P : Type 0} ⦃fx : Fixed P⦄ where
  pub set_up-append :
      (as_ bs : List SetupCall) (x : Exchange P) → set_up (as_ ++ bs) x ≡ set_up bs (set_up as_ x)
  unfolding set_up
  set_up-append [] bs x = refl
  set_up-append (SetupCall.new_account ∷ as_) bs x = set_up-append as_ bs (create_account x).1
  set_up-append (SetupCall.new_asset name symbol ∷ as_) bs x =
      set_up-append as_ bs (add_asset name symbol x).1
  set_up-append (SetupCall.new_market pair ∷ as_) bs x = set_up-append as_ bs (add_market pair x).1

  create_account-id :
      (x : Exchange P) → length x.accounts < u32_mod → (create_account x).0 ≡ length x.accounts
  unfolding create_account
  create_account-id x h = omega arith

  create_account_frame :
      (x : Exchange P)
      → ((create_account x).1.traded_assets ≡ x.traded_assets)
        × ((create_account x).1.markets ≡ x.markets)
  unfolding create_account
  create_account_frame x = (refl, refl)

  pub create_accounts_lem :
      (n : ℕ) (x : Exchange P)
      → IsReady x
      → length x.accounts + n < u32_mod
      → (create_accounts n x
          ≡ (count_from (length x.accounts) n, set_up (replicate n SetupCall.new_account) x))
        × ((set_up (replicate n SetupCall.new_account) x).traded_assets ≡ x.traded_assets)
        × ((set_up (replicate n SetupCall.new_account) x).markets ≡ x.markets)
  unfolding create_accounts set_up
  create_accounts_lem zero x r h = (refl, refl, refl)
  create_accounts_lem (suc n) x r h =
      let (r', longer) = create_account-IsReady x r (omega arith) in
      let next : length (create_account x).1.accounts ≡ suc (length x.accounts) =
        omega (arith, longer) in
      let (same, assets, ms) =
        create_accounts_lem n (create_account x).1 r' (omega (arith, longer)) in
      let (assets0, ms0) = create_account_frame x in
      (rw (same, next, create_account-id x (omega arith)) refl, assets ∙ assets0, ms ∙ ms0)

  add_asset-id :
      (name symbol : String) (x : Exchange P)
      → length x.traded_assets < u32_mod
      → ((add_asset name symbol x).0 ≡ length x.traded_assets)
        × ((add_asset name symbol x).1.traded_assets
            ≡ x.traded_assets
              ++ record { id = length x.traded_assets; name = name; symbol = symbol } ∷ [])
        × ((add_asset name symbol x).1.markets ≡ x.markets)
  unfolding add_asset
  add_asset-id name symbol x h =
      let exact : length x.traded_assets % u32_mod ≡ length x.traded_assets = omega arith in
      (exact, rw exact refl, refl)

  pub add_assets_lem :
      (up : String → String) (as_ : List NewAsset) (x : Exchange P)
      → IsReady x
      → length x.traded_assets + length as_ < u32_mod
      → (add_assets up as_ x
          ≡ (listing up (length x.traded_assets) as_, set_up (asset_calls up as_) x))
        × ((set_up (asset_calls up as_) x).traded_assets
            ≡ x.traded_assets ++ listing up (length x.traded_assets) as_)
        × ((set_up (asset_calls up as_) x).markets ≡ x.markets)
  unfolding add_assets set_up
  add_assets_lem up [] x r h = (refl, sym (append-nil x.traded_assets), refl)
  add_assets_lem up (a ∷ as_) x r h =
      let y = (add_asset a.name (up a.symbol) x).1 in
      let (r', longer) = add_asset-IsReady a.name (up a.symbol) x r (omega arith) in
      let next : length y.traded_assets ≡ suc (length x.traded_assets) = omega (arith, longer) in
      let (same, assets, ms) = add_assets_lem up as_ y r' (omega (arith, longer)) in
      let (id0, assets0, ms0) = add_asset-id a.name (up a.symbol) x (omega arith) in
      (
        rw (same, next, id0) refl,
        assets
            ∙ ap (λ k. y.traded_assets ++ listing up k as_) next
            ∙ ap (λ z. z ++ listing up (suc (length x.traded_assets)) as_) assets0
            ∙ append_assoc x.traded_assets _ (listing up (suc (length x.traded_assets)) as_),
        ms ∙ ms0,
      )
