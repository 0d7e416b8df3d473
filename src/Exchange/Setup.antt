-- ===== src/Exchange/Setup.antt =====
-- The calls of src/exchange.rs that set an exchange up before it runs, as src/util/exchange_configs.rs
-- makes them: `create_account`, `add_asset` and `add_market`.
use Prim.Native.String.{String}
use market_sim_backend.Prelude.{
  ℕ, suc, ◌+◌, ◌%◌, ◌<◌, ◌≡◌, refl, ◌∙◌, false, List, [], ◌∷◌, ◌++◌, length, length-append, ◌==◌,
  if◌then◌else◌, u32_mod, add32, add32_one, arith,
}
use market_sim_backend.Fixed.{Fixed}
use market_sim_backend.Asset.{Asset, AssetIdPair}
use market_sim_backend.BalanceBook
use market_sim_backend.BalanceBook.{BalanceBook}
use market_sim_backend.BalanceBook.Matrix.{
  IsRectangular, add_account-IsRectangular, add_asset-IsRectangular,
}
use market_sim_backend.Exchange.State.{
  Account, Exchange, new_exchange, insert_account, create_account, add_asset, add_market,
}
use market_sim_backend.Exchange.Supply.{Booked}

-- The ids of the accounts count up from n.
abbrev pub Counted : ℕ → List (ℕ × Account) → Type 0
Counted n [] = Unit
Counted n ((k, a) ∷ m) = (k ≡ n) × Counted (suc n) m

insert_account-Counted :
    (n k : ℕ) (m : List (ℕ × Account)) (a : Account)
    → Counted n m
    → k ≡ n + length m
    → Counted n (insert_account m k a) × (length (insert_account m k a) ≡ length m + 1)
insert_account-Counted n k [] a h e = ((omega arith, tt), refl)
insert_account-Counted n k ((j, b) ∷ m) a h e =
    let other : (j == k) ≡ false = ground arith in
    let (counted, longer) = insert_account-Counted (suc n) k m a h.1 (omega arith) in
    rw (other, if◌then◌else◌) ((h.0, counted), omega (arith, longer))

-- A call of the set-up.
pub data SetupCall : Type 0 where
  new_account : SetupCall
  new_asset : String → String → SetupCall
  new_market : AssetIdPair → SetupCall

module _ {P : Type 0} ⦃fx : Fixed P⦄ where
  unfoldable pub set_up : List SetupCall → Exchange P → Exchange P
  set_up [] x = x
  set_up (SetupCall.new_account ∷ calls) x = set_up calls (create_account x).1
  set_up (SetupCall.new_asset name symbol ∷ calls) x = set_up calls (add_asset name symbol x).1
  set_up (SetupCall.new_market pair ∷ calls) x = set_up calls (add_market pair x).1

  -- What the set-up has reached: a balance for every account in every asset, and no orders.
  pub record IsReady (x : Exchange P) : Type 0 where
    pub counted : Counted 0 x.accounts
    pub accounts_match : length x.accounts ≡ x.balance_book.accounts
    pub assets_match : length x.traded_assets ≡ x.balance_book.assets
    pub rectangular : IsRectangular x.balance_book
    pub no_orders : x.session_orders ≡ []

  pub create_account-IsReady :
      (x : Exchange P)
      → IsReady x
      → length x.accounts + 1 < u32_mod
      → IsReady (create_account x).1
        × (length (create_account x).1.accounts ≡ length x.accounts + 1)
  unfolding create_account BalanceBook.add_account
  create_account-IsReady x r h =
      let id : ℕ = length x.accounts % u32_mod in
      let exact : id ≡ length x.accounts = omega arith in
      let (counted, longer) =
        insert_account-Counted 0 id x.accounts (record { id = id; username = "" }) r.counted
          (omega arith) in
      let e : add32 x.balance_book.accounts 1 ≡ x.balance_book.accounts + 1 =
        add32_one x.balance_book.accounts (omega (arith, r.accounts_match)) in
      (
        record {
          counted = counted;
          accounts_match = omega (arith, longer, e, r.accounts_match);
          assets_match = r.assets_match;
          rectangular =
              add_account-IsRectangular x.balance_book r.rectangular
                (omega (arith, r.accounts_match));
          no_orders = r.no_orders;
        },
        longer,
      )

  pub add_asset-IsReady :
      (name symbol : String) (x : Exchange P)
      → IsReady x
      → length x.traded_assets + 1 < u32_mod
      → IsReady (add_asset name symbol x).1
        × (length (add_asset name symbol x).1.traded_assets ≡ length x.traded_assets + 1)
  unfolding add_asset BalanceBook.add_asset
  add_asset-IsReady name symbol x r h =
      let asset : Asset = record {
        id = length x.traded_assets % u32_mod;
        name = name;
        symbol = symbol;
      } in
      let longer : length (x.traded_assets ++ asset ∷ []) ≡ length x.traded_assets + 1 =
        length-append x.traded_assets (asset ∷ []) ∙ omega arith in
      let e : add32 x.balance_book.assets 1 ≡ x.balance_book.assets + 1 =
        add32_one x.balance_book.assets (omega (arith, r.assets_match)) in
      (
        record {
          counted = r.counted;
          accounts_match = r.accounts_match;
          assets_match = omega (arith, longer, e, r.assets_match);
          rectangular =
              add_asset-IsRectangular x.balance_book r.rectangular (omega (arith, r.assets_match));
          no_orders = r.no_orders;
        },
        longer,
      )

  pub add_market-IsReady :
      (pair : AssetIdPair) (x : Exchange P)
      → IsReady x
      → IsReady (add_market pair x).1
        × (length (add_market pair x).1.accounts ≡ length x.accounts)
        × (length (add_market pair x).1.traded_assets ≡ length x.traded_assets)
  unfolding add_market
  add_market-IsReady pair x r = ground (
    arith, r.counted, r.accounts_match, r.assets_match, r.rectangular.filled,
    r.rectangular.accounts_fit, r.rectangular.assets_fit, r.no_orders,
  )

  pub set_up-IsReady :
      (calls : List SetupCall) (x : Exchange P)
      → IsReady x
      → length x.accounts + length calls < u32_mod
      → length x.traded_assets + length calls < u32_mod
      → IsReady (set_up calls x)
  unfolding set_up create_account add_asset
  set_up-IsReady [] x r h k = r
  set_up-IsReady (SetupCall.new_account ∷ calls) x r h k =
      let (r', longer) = create_account-IsReady x r (omega arith) in
      set_up-IsReady calls (create_account x).1 r' (omega (arith, longer)) (omega arith)
  set_up-IsReady (SetupCall.new_asset name symbol ∷ calls) x r h k =
      let (r', longer) = add_asset-IsReady name symbol x r (omega arith) in
      set_up-IsReady calls (add_asset name symbol x).1 r' (omega arith) (omega (arith, longer))
  set_up-IsReady (SetupCall.new_market pair ∷ calls) x r h k =
      let (r', accounts, assets) = add_market-IsReady pair x r in
      set_up-IsReady calls (add_market pair x).1 r' (omega (arith, accounts))
        (omega (arith, assets))

  pub new_exchange-IsReady : IsReady (new_exchange {P = P})
  new_exchange-IsReady = record {
    counted = tt;
    accounts_match = refl;
    assets_match = refl;
    rectangular = record { filled = refl; accounts_fit = omega arith; assets_fit = omega arith };
    no_orders = refl;
  }

  -- An exchange that is set up by fewer than 2 ^ 32 calls of `create_account`, `add_asset` and
  -- `add_market`, in any order, has one balance for each of its accounts in each of its assets, and no
  -- orders.
  pub set_up-new_exchange :
      (calls : List SetupCall)
      → length calls < u32_mod
      → let x = set_up calls (new_exchange {P = P}) in
        Booked x × IsRectangular x.balance_book × (length x.traded_assets ≡ x.balance_book.assets)
  set_up-new_exchange calls h =
      let r = set_up-IsReady calls new_exchange new_exchange-IsReady (omega arith) (omega arith) in
      ((r.accounts_match, rw r.no_orders tt), r.rectangular, r.assets_match)
