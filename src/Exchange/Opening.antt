-- ===== src/Exchange/Opening.antt =====
-- The set-up calls of src/exchange.rs, and the exchange that they lead to.
use Prim.Native.String.{String}
use market_sim_backend.Prelude.{
  ℕ, ◌+◌, ◌%◌, ◌<◌, ◌≡◌, ◌≢◌, refl, List, [], ◌∷◌, length, All, All-append, u32_mod, add32,
  add32_one, arith,
}
use market_sim_backend.Fixed.{Fixed}
use market_sim_backend.Asset.{Asset}
use market_sim_backend.Order.{PlacedOrder}
use market_sim_backend.Market.{Market}
use market_sim_backend.BalanceBook
use market_sim_backend.Exchange.State.{
  Exchange, new_exchange, create_account, add_asset, add_market,
}
use market_sim_backend.Exchange.Soundness.{MarketOk}
use market_sim_backend.Exchange.Liveness.{IsIdle, add_market-IsIdle}
use market_sim_backend.Exchange.Setup.{
  SetupCall, set_up, IsReady, new_exchange-IsReady, create_account-IsReady, add_asset-IsReady,
  add_market-IsReady,
}

-- The call does not ask for a market of an asset with itself.
abbrev pub IsSafeCall : SetupCall → Type 0
IsSafeCall (SetupCall.new_market pair) = pair.primary ≢ pair.secondary
IsSafeCall _ = Unit

listed-add_one :
    (n : ℕ) (assets : List Asset)
    → All (λ (a : Asset). a.id < n) assets
    → All (λ (a : Asset). a.id < n + 1) assets
listed-add_one n [] h = tt
listed-add_one n (a ∷ as_) h = (omega (arith, h.0), listed-add_one n as_ h.1)

module _ {P : Type 0} ⦃fx : Fixed P⦄ where
  markets-add_one :
      (n : ℕ) (os : List (ℕ × PlacedOrder P)) (ms : List (Market P))
      → All (MarketOk n os) ms
      → All (MarketOk (n + 1) os) ms
  markets-add_one n os [] h = tt
  markets-add_one n os (m ∷ ms) ((ne, lp, ls, b), h) =
      ((ne, omega (arith, lp), omega (arith, ls), b), markets-add_one n os ms h)

  ready-IsIdle :
      (x : Exchange P)
      → IsReady x
      → All (λ (a : Asset). a.id < x.balance_book.assets) x.traded_assets
      → All (MarketOk x.balance_book.assets x.session_orders) x.markets.inner
      → x.transaction_buf ≡ []
      → IsIdle x
  ready-IsIdle x r listed ok_markets none_left = (
    record {
      booked = (r.accounts_match, rw r.no_orders tt);
      rectangular = r.rectangular;
      listed = listed;
      markets_ok = ok_markets;
    },
    none_left,
  )

  create_account-IsIdle :
      (x : Exchange P) → IsReady (create_account x).1 → IsIdle x → IsIdle (create_account x).1
  unfolding create_account BalanceBook.add_account
  create_account-IsIdle x r (s, none_left) =
      ready-IsIdle (create_account x).1 r s.listed s.markets_ok none_left

  add_asset-IsIdle :
      (name symbol : String) (x : Exchange P)
      → IsReady x
      → IsReady (add_asset name symbol x).1
      → length x.traded_assets + 1 < u32_mod
      → IsIdle x
      → IsIdle (add_asset name symbol x).1
  unfolding add_asset BalanceBook.add_asset
  add_asset-IsIdle name symbol x r r' h (s, none_left) =
      let n : ℕ = x.balance_book.assets in
      let one_more : add32 n 1 ≡ n + 1 = add32_one n (omega (arith, r.assets_match)) in
      let asset : Asset = record {
        id = length x.traded_assets % u32_mod;
        name = name;
        symbol = symbol;
      } in
      ready-IsIdle (add_asset name symbol x).1 r'
        (rw one_more (
          All-append (λ (a : Asset). a.id < n + 1) x.traded_assets (asset ∷ [])
            (listed-add_one n x.traded_assets s.listed) (omega (arith, r.assets_match), tt)))
        (rw one_more (markets-add_one n x.session_orders x.markets.inner s.markets_ok)) none_left

  set_up_from-IsIdle :
      (calls : List SetupCall) (x : Exchange P)
      → IsReady x
      → length x.accounts + length calls < u32_mod
      → length x.traded_assets + length calls < u32_mod
      → All IsSafeCall calls
      → IsIdle x
      → IsIdle (set_up calls x)
  unfolding set_up create_account add_asset
  set_up_from-IsIdle [] x r h k safe s = s
  set_up_from-IsIdle (SetupCall.new_account ∷ calls) x r h k safe s =
      let (r', longer) = create_account-IsReady x r (omega arith) in
      set_up_from-IsIdle calls (create_account x).1 r' (omega (arith, longer)) (omega arith) safe.1
        (create_account-IsIdle x r' s)
  set_up_from-IsIdle (SetupCall.new_asset name symbol ∷ calls) x r h k safe s =
      let (r', longer) = add_asset-IsReady name symbol x r (omega arith) in
      set_up_from-IsIdle calls (add_asset name symbol x).1 r' (omega arith) (omega (arith, longer))
        safe.1 (add_asset-IsIdle name symbol x r r' (omega arith) s)
  set_up_from-IsIdle (SetupCall.new_market pair ∷ calls) x r h k safe s =
      let (r', accounts, assets) = add_market-IsReady pair x r in
      set_up_from-IsIdle calls (add_market pair x).1 r' (omega (arith, accounts))
        (omega (arith, assets)) safe.1 (add_market-IsIdle pair x safe.0 s)

  -- An exchange that is set up by fewer than 2 ^ 32 calls of `create_account`, `add_asset` and
  -- `add_market`, none of which asks for a market of an asset with itself, has its balances for all
  -- accounts and assets, markets of two different listed assets each, and nothing left to process.
  pub set_up-IsIdle :
      (calls : List SetupCall)
      → length calls < u32_mod
      → All IsSafeCall calls
      → IsIdle (set_up calls (new_exchange {P = P}))
  set_up-IsIdle calls h safe =
      set_up_from-IsIdle calls new_exchange new_exchange-IsReady (omega arith) (omega arith) safe
        (ready-IsIdle new_exchange new_exchange-IsReady tt tt refl)
