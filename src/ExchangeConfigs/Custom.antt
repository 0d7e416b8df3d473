-- ===== src/ExchangeConfigs/Custom.antt =====
-- `custom` of src/util/exchange_configs.rs against what it is to set up: the symbols of its markets, and the whole.
use Prim.Native.String.{String}
use market_sim_backend.Prelude.{
  ℕ, ◌+◌, ◌<◌, ◌≡◌, refl, ap, sym, ◌∙◌, true, false, Bool-cases, Option, none, some, Option-cases,
  List, [], ◌∷◌, ◌++◌, replicate, length, length-replicate, All, if◌then◌else◌, u32_mod, inl, inr,
  arith,
}
use market_sim_backend.Fixed.{Fixed}
use market_sim_backend.Asset.{NewAsset, Asset, AssetPairSymbolic, AssetIdPair}
use market_sim_backend.Market
use market_sim_backend.Market.{Markets, contains}
use market_sim_backend.Exchange.State.{Exchange, new_exchange, add_market, any_id, is_traded_asset}
use market_sim_backend.Exchange.Settle.{◌>>=◌, >>=-eq-some}
use market_sim_backend.Exchange.Setup.{SetupCall, set_up, new_exchange-IsReady, set_up-IsReady}
use market_sim_backend.ExchangeConfigs.{
  text_eq, find_symbol, pair_of, add_assets, add_market_unwrap, add_symbolic_markets, custom,
}
use market_sim_backend.ExchangeConfigs.Symbols.{
  listing, pairs_of, distinct_from, occurs-contains, pair_of-both_ids,
}
use market_sim_backend.ExchangeConfigs.Listing.{
  count_from, asset_calls, market_calls, custom_calls, set_up-append, create_accounts_lem,
  add_assets_lem,
}

module _ {κ} (F : Asset → Type κ) where
  find_symbol-All :
      (assets : List Asset) (symbol : String) (a : Asset)
      → All F assets
      → find_symbol assets symbol ≡ some a
      → F a
  unfolding find_symbol
  find_symbol-All [] symbol a h e = cc
  find_symbol-All (b ∷ bs) symbol a h e = elim (Bool-cases (text_eq b.symbol symbol)) [
    | inl here ↦
        let e' : some b ≡ some a = rw (here, find_symbol) at e in
        let same : b ≡ a = cc e' in rw same at h.0
    | inr later ↦ find_symbol-All bs symbol a h.1 (rw (later, find_symbol) at e)
  ]

-- Both ids of a pair that is found are listed.
pair_of-listed :
    (up : String → String) (zs assets : List Asset) (m : AssetPairSymbolic) (p : AssetIdPair)
    → All (λ (a : Asset). any_id zs a.id ≡ true) assets
    → pair_of up assets m ≡ some p
    → (any_id zs p.primary ≡ true) × (any_id zs p.secondary ≡ true)
unfolding pair_of
pair_of-listed up zs assets m p h e =
    let F = λ (a : Asset). any_id zs a.id ≡ true in
    let (a, e1, f) = >>=-eq-some (find_symbol assets (up m.primary)) _ e in
    let (b, e2, g) = >>=-eq-some (find_symbol assets (up m.secondary)) _ f in
    let same : record { primary = a.id; secondary = b.id } ≡ p = cc g in
    rw (← same) (
      find_symbol-All F assets (up m.primary) a h e1,
      find_symbol-All F assets (up m.secondary) b h e2,
    )

any_id_self :
    (zs xs : List Asset)
    → ((id : ℕ) → any_id xs id ≡ true → any_id zs id ≡ true)
    → All (λ (a : Asset). any_id zs a.id ≡ true) xs
any_id_self zs [] f = tt
any_id_self zs (x ∷ xs) f =
    (f x.id (ground arith), any_id_self zs xs (λ id h. f id (ground (arith, h))))

module _ {P : Type 0} ⦃fx : Fixed P⦄ where
  add_market_known :
      (pair : AssetIdPair) (x : Exchange P)
      → any_id x.traded_assets pair.primary ≡ true
      → any_id x.traded_assets pair.secondary ≡ true
      → contains x.markets.keys pair ≡ true
      → add_market_unwrap pair x ≡ none
  unfolding add_market_unwrap add_market is_traded_asset Market.add_market
  add_market_known pair x a b c = ground arith

  add_market_new :
      (pair : AssetIdPair) (x : Exchange P)
      → any_id x.traded_assets pair.primary ≡ true
      → any_id x.traded_assets pair.secondary ≡ true
      → contains x.markets.keys pair ≡ false
      → (add_market_unwrap pair x ≡ some (add_market pair x).1)
        × ((add_market pair x).1.markets.keys ≡ x.markets.keys ++ pair ∷ [])
        × ((add_market pair x).1.traded_assets ≡ x.traded_assets)
  unfolding add_market_unwrap add_market is_traded_asset Market.add_market
  add_market_new pair x a b c = ground arith

  -- The markets of these pairs, unless one of them is there.
  abbrev markets_made : List AssetIdPair → Exchange P → Option (List AssetIdPair × Exchange P)
  markets_made pairs x =
      if distinct_from x.markets.keys pairs
      then some (pairs, set_up (market_calls pairs) x)
      else none

  markets_made_known :
      (p : AssetIdPair) (ps : List AssetIdPair) (x : Exchange P)
      → contains x.markets.keys p ≡ true
      → markets_made (p ∷ ps) x ≡ none
  markets_made_known p ps x c = rw (occurs-contains x.markets.keys p ∙ c) refl

  markets_made_new :
      (p : AssetIdPair) (ps : List AssetIdPair) (x : Exchange P)
      → contains x.markets.keys p ≡ false
      → (add_market p x).1.markets.keys ≡ x.markets.keys ++ p ∷ []
      → (markets_made ps (add_market p x).1 >>= λ rest. some (p ∷ rest.0, rest.1))
        ≡ markets_made (p ∷ ps) x
  unfolding set_up
  markets_made_new p ps x c e =
      let c' = occurs-contains x.markets.keys p ∙ c in
      elim (Bool-cases (distinct_from (x.markets.keys ++ p ∷ []) ps)) [
        | inl d ↦ rw (c', e, d) refl
        | inr d ↦ rw (c', e, d) refl
      ]

  add_symbolic_markets_lem :
      (up : String → String) (assets : List NewAsset) (ms : List AssetPairSymbolic) (x : Exchange P)
      → All (λ (a : Asset). any_id x.traded_assets a.id ≡ true) (listing up 0 assets)
      → add_symbolic_markets up (listing up 0 assets) ms x
        ≡ (pairs_of up assets ms >>= λ ps. markets_made ps x)
  unfolding add_symbolic_markets set_up
  add_symbolic_markets_lem up assets [] x h = refl
  add_symbolic_markets_lem up assets (m ∷ ms) x h =
      let found = sym (pair_of-both_ids up assets m) in
      elim (Option-cases (pair_of up (listing up 0 assets) m)) [
        | inl e ↦ let none_found = found ∙ e in rw (e, none_found, ◌>>=◌) refl
        | inr (p, e) ↦
            let ids = found ∙ e in
            let (a, b) = pair_of-listed up x.traded_assets (listing up 0 assets) m p h e in
            elim (Bool-cases (contains x.markets.keys p)) [
              | inl c ↦ elim (Option-cases (pairs_of up assets ms)) [
                | inl f ↦ rw (e, ids, ◌>>=◌) (rw (add_market_known p x a b c, f) refl)
                | inr (ps, f) ↦
                    rw (e, ids, ◌>>=◌)
                      (rw (add_market_known p x a b c, f) (sym (markets_made_known p ps x c)))
              ]
              | inr c ↦
                  let (made, keys, same) = add_market_new p x a b c in
                  let ih = add_symbolic_markets_lem up assets ms (add_market p x).1 (rw same h) in
                  elim (Option-cases (pairs_of up assets ms)) [
                    | inl f ↦ rw (e, ids, ◌>>=◌) (rw (made, ◌>>=◌) (rw (ih, f) refl))
                    | inr (ps, f) ↦
                        rw (e, ids, ◌>>=◌)
                          (rw (made, ◌>>=◌) (rw (ih, f) (markets_made_new p ps x c keys)))
                  ]
            ]
      ]

  abbrev with_markets :
      (String → String)
      → List AssetPairSymbolic
      → List ℕ
      → List Asset × Exchange P
      → Option (Exchange P × List AssetIdPair × List ℕ)
  with_markets up markets accounts d =
      add_symbolic_markets up d.0 markets d.1 >>= λ made. some (made.1, made.0, accounts)

  with_markets_lem :
      (up : String → String) (markets : List AssetPairSymbolic) (assets : List NewAsset)
      (accounts : List ℕ) (x : Exchange P) (result : List AssetIdPair → Exchange P)
      → All (λ (a : Asset). any_id x.traded_assets a.id ≡ true) (listing up 0 assets)
      → x.markets.keys ≡ []
      → ((pairs : List AssetIdPair) → set_up (market_calls pairs) x ≡ result pairs)
      → with_markets up markets accounts (listing up 0 assets, x) ≡ (
          pairs_of up assets markets >>= λ pairs.
          if distinct_from [] pairs then some (result pairs, pairs, accounts) else none)
  with_markets_lem up markets assets accounts x result known keys same =
      let made = add_symbolic_markets_lem up assets markets x known in
      elim (Option-cases (pairs_of up assets markets)) [
        | inl e ↦ rw (made, e) refl
        | inr (pairs, e) ↦ elim (Bool-cases (distinct_from [] pairs)) [
          | inl d ↦
              let d' = ap (λ k. distinct_from k pairs) keys ∙ d in
              rw (made, e, ◌>>=◌)
                (rw (d', d, if◌then◌else◌) (ap (λ y. some (y, pairs, accounts)) (same pairs)))
          | inr d ↦
              let d' = ap (λ k. distinct_from k pairs) keys ∙ d in
              rw (made, e, ◌>>=◌) (rw (d', d) refl)
        ]
      ]

  -- What `custom` is to give.
  abbrev pub custom_result :
      (String → String)
      → List NewAsset
      → List AssetPairSymbolic
      → ℕ
      → Option (Exchange P × List AssetIdPair × List ℕ)
  custom_result up assets markets n = pairs_of up assets markets >>= λ pairs.
      if distinct_from [] pairs
      then some (set_up (custom_calls up assets pairs n) new_exchange, pairs, count_from 0 n)
      else none

  -- Where the counts of accounts and assets fit a u32 together, `custom` gives accounts with ids from 0 on,
  -- the assets in their order with symbols in upper case, and each market as the pair of the places that its
  -- symbols have among the assets, whatever their case, by the set-up calls in that order; it panics where a
  -- symbol is not listed or a pair is asked for twice.
  pub custom_lem :
      (up : String → String) (assets : List NewAsset) (markets : List AssetPairSymbolic) (n : ℕ)
      → n + length assets < u32_mod
      → custom up assets markets n ≡ custom_result up assets markets n
  unfolding custom
  custom_lem up assets markets n h =
      let x0 : Exchange P = new_exchange in
      let accounts = replicate n SetupCall.new_account in
      let x1 = set_up accounts x0 in
      let x2 = set_up (asset_calls up assets) x1 in
      let r1 =
        set_up-IsReady accounts x0 new_exchange-IsReady
          (omega (arith, length-replicate n SetupCall.new_account))
          (omega (arith, length-replicate n SetupCall.new_account)) in
      let (same1, assets1, markets1) =
        create_accounts_lem n x0 new_exchange-IsReady (omega arith) in
      let empty : length x1.traded_assets ≡ 0 = ap length assets1 in
      let (same2, assets2, markets2) = add_assets_lem up assets x1 r1 (omega (arith, empty)) in
      let listed : x2.traded_assets ≡ listing up 0 assets =
        assets2
        ∙ ap (λ z. z ++ listing up (length x1.traded_assets) assets) assets1
        ∙ ap (λ k. listing up k assets) empty in
      let known : All (λ (a : Asset). any_id x2.traded_assets a.id ≡ true) (listing up 0 assets) =
        rw listed (any_id_self (listing up 0 assets) (listing up 0 assets) (λ id e. e)) in
      let keys : x2.markets.keys ≡ [] = ap (λ (z : Markets P). z.keys) (markets2 ∙ markets1) in
      let laid_out = λ (pairs : List AssetIdPair).
        set_up-append accounts (asset_calls up assets ++ market_calls pairs) x0
        ∙ set_up-append (asset_calls up assets) (market_calls pairs) x1 in
      ap (λ (c : List ℕ × Exchange P). with_markets up markets c.0 (add_assets up assets c.1)) same1
      ∙ ap (with_markets up markets (count_from 0 n)) same2
      ∙ ap (λ k. with_markets up markets (count_from 0 n) (listing up k assets, x2)) empty
      ∙ with_markets_lem up markets assets (count_from 0 n) x2
          (λ pairs. set_up (custom_calls up assets pairs n) x0) known keys
          (λ pairs. sym (laid_out pairs))
