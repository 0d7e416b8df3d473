-- ===== src/ExchangeConfigs/Ready.antt =====
-- The exchange that `custom` of src/util/exchange_configs.rs hands over, before its first command.
use Prim.Native.String.{String}
use market_sim_backend.Prelude.{
  ℕ, zero, suc, ◌+◌, ◌<◌, ◌≡◌, ◌≢◌, refl, ap, sym, ◌∙◌, Bool-cases, some, List, [], ◌∷◌, ◌++◌,
  replicate, length, length-append, length-replicate, All, All-append, if◌then◌else◌, u32_mod, inl,
  inr, arith,
}
use market_sim_backend.Fixed.{Fixed}
use market_sim_backend.Asset.{NewAsset, AssetPairSymbolic, AssetIdPair}
use market_sim_backend.Exchange.State.{Exchange, new_exchange}
use market_sim_backend.Exchange.Settle.{>>=-eq-some}
use market_sim_backend.Exchange.Setup.{SetupCall, set_up}
use market_sim_backend.Exchange.Liveness.{IsIdle}
use market_sim_backend.Exchange.Opening.{IsSafeCall, set_up-IsIdle}
use market_sim_backend.ExchangeConfigs.{custom}
use market_sim_backend.ExchangeConfigs.Symbols.{pairs_of, distinct_from}
use market_sim_backend.ExchangeConfigs.Listing.{asset_calls, market_calls, custom_calls}
use market_sim_backend.ExchangeConfigs.Custom.{custom_lem}

replicate-IsSafeCall : (n : ℕ) → All IsSafeCall (replicate n SetupCall.new_account)
replicate-IsSafeCall zero = tt
replicate-IsSafeCall (suc n) = (tt, replicate-IsSafeCall n)

asset_calls-IsSafeCall :
    (up : String → String) (assets : List NewAsset)
    → All IsSafeCall (asset_calls up assets) × (length (asset_calls up assets) ≡ length assets)
asset_calls-IsSafeCall up [] = (tt, refl)
asset_calls-IsSafeCall up (a ∷ as_) =
    let (safe, same) = asset_calls-IsSafeCall up as_ in ((tt, safe), ap suc same)

market_calls-IsSafeCall :
    (pairs : List AssetIdPair)
    → All (λ (p : AssetIdPair). p.primary ≢ p.secondary) pairs
    → All IsSafeCall (market_calls pairs) × (length (market_calls pairs) ≡ length pairs)
market_calls-IsSafeCall [] h = (tt, refl)
market_calls-IsSafeCall (p ∷ ps) h =
    let (safe, same) = market_calls-IsSafeCall ps h.1 in ((h.0, safe), ap suc same)

custom_calls-IsSafeCall :
    (up : String → String) (assets : List NewAsset) (pairs : List AssetIdPair) (n : ℕ)
    → All (λ (p : AssetIdPair). p.primary ≢ p.secondary) pairs
    → All IsSafeCall (custom_calls up assets pairs n)
      × (length (custom_calls up assets pairs n) ≡ n + (length assets + length pairs))
custom_calls-IsSafeCall up assets pairs n h =
    let (safe1, same1) = asset_calls-IsSafeCall up assets in
    let (safe2, same2) = market_calls-IsSafeCall pairs h in
    let as_ = asset_calls up assets in
    let ms = market_calls pairs in
    let accounts = replicate n SetupCall.new_account in
    (
      All-append IsSafeCall accounts (as_ ++ ms) (replicate-IsSafeCall n)
          (All-append IsSafeCall as_ ms safe1 safe2),
      omega (
        arith,
        length-append accounts (as_ ++ ms),
        length-append as_ ms,
        length-replicate n SetupCall.new_account,
        same1,
        same2,
      ),
    )

module _ {P : Type 0} ⦃fx : Fixed P⦄ where
  -- The exchange of a custom set-up that does not panic, of fewer than 2 ^ 32 accounts, assets and markets
  -- in all, none of them a market of an asset with itself, has its balances for all accounts and assets,
  -- markets of two different listed assets each, and nothing left to process.
  pub custom-IsIdle :
      (up : String → String) (assets : List NewAsset) (markets : List AssetPairSymbolic) (n : ℕ)
      (x : Exchange P) (pairs : List AssetIdPair) (accounts : List ℕ)
      → custom up assets markets n ≡ some (x, pairs, accounts)
      → All (λ (p : AssetIdPair). p.primary ≢ p.secondary) pairs
      → n + (length assets + length pairs) < u32_mod
      → IsIdle x
  custom-IsIdle up assets markets n x pairs accounts e h fits =
      let known = sym (custom_lem up assets markets n (omega arith)) ∙ e in
      let (ps, e1, f) = >>=-eq-some (pairs_of up assets markets) _ known in
      elim (Bool-cases (distinct_from [] ps)) [
        | inr twice ↦ let f' = rw (twice, if◌then◌else◌) at f in absurd (ground (arith, f'))
        | inl once ↦
            let f' = rw (once, if◌then◌else◌) at f in
            let same : set_up (custom_calls up assets ps n) new_exchange ≡ x = cc f' in
            let pairs_same : pairs ≡ ps = cc f' in
            let (safe, long) = custom_calls-IsSafeCall up assets ps n (rw (← pairs_same) h) in
            rw (← same) (
              set_up-IsIdle (custom_calls up assets ps n)
                (omega (arith, long, ap length pairs_same)) safe)
      ]
