-- ===== src/ExchangeConfigs/Symbols.antt =====
-- The markets that src/util/exchange_configs.rs is asked for by symbols: which pairs of ids they are.
use Prim.Native.String.{String}
use text.Mathlib.Text.{◌==◌ as ◌==ₜ◌}
use market_sim_backend.Prelude.{
  ℕ, suc, ◌≡◌, refl, ap, Bool, true, false, not, ◌&&◌, ◌||◌, ◌==◌, if◌then◌else◌, Bool-cases,
  Option, none, some, List, [], ◌∷◌, ◌++◌, ◌⊎◌, inl, inr,
}
use market_sim_backend.Asset.{NewAsset, Asset, AssetPairSymbolic, AssetIdPair}
use market_sim_backend.Market.{contains}
use market_sim_backend.Exchange.Settle.{◌>>=◌}
use market_sim_backend.ExchangeConfigs.{find_symbol, pair_of}

-- The assets with their ids from k on and their symbols in upper case.
abbrev pub listing : (String → String) → ℕ → List NewAsset → List Asset
listing up k [] = []
listing up k (a ∷ as_) =
    record { id = k; name = a.name; symbol = up a.symbol } ∷ listing up (suc k) as_

-- The id of a symbol: its place among the assets, counted from k, where case does not matter.
abbrev pub id_of : (String → String) → ℕ → List NewAsset → String → Option ℕ
id_of up k [] symbol = none
id_of up k (a ∷ as_) symbol =
    if up a.symbol ==ₜ up symbol then some k else id_of up (suc k) as_ symbol

abbrev pub both_ids : Option ℕ → Option ℕ → Option AssetIdPair
both_ids (some p) (some s) = some (record { primary = p; secondary = s })
both_ids _ _ = none

-- The pairs of all markets, unless one has a symbol that is not listed.
abbrev pub pairs_of :
    (String → String) → List NewAsset → List AssetPairSymbolic → Option (List AssetIdPair)
pairs_of up assets [] = some []
pairs_of up assets (m ∷ ms) =
    both_ids (id_of up 0 assets m.primary) (id_of up 0 assets m.secondary) >>= λ p.
    pairs_of up assets ms >>= λ ps. some (p ∷ ps)

abbrev pub occurs : List AssetIdPair → AssetIdPair → Bool
occurs [] p = false
occurs (k ∷ ks) p = ((k.primary == p.primary) && (k.secondary == p.secondary)) || occurs ks p

-- No pair is in the first list or twice in the second.
abbrev pub distinct_from : List AssetIdPair → List AssetIdPair → Bool
distinct_from keys [] = true
distinct_from keys (p ∷ ps) = not (occurs keys p) && distinct_from (keys ++ p ∷ []) ps

pub occurs-contains : (ks : List AssetIdPair) (p : AssetIdPair) → occurs ks p ≡ contains ks p
occurs-contains [] p = refl
occurs-contains (k ∷ ks) p =
    ap (λ b. ((k.primary == p.primary) && (k.secondary == p.secondary)) || b) (occurs-contains ks p)

-- What is found in the list by its symbol has the id of that symbol.
find_symbol-id_of :
    (up : String → String) (k : ℕ) (assets : List NewAsset) (symbol : String)
    → ((find_symbol (listing up k assets) (up symbol) ≡ none) × (id_of up k assets symbol ≡ none))
      ⊎ ((a : Asset) × (find_symbol (listing up k assets) (up symbol) ≡ some a)
          × (id_of up k assets symbol ≡ some a.id))
unfolding find_symbol
find_symbol-id_of up k [] symbol = inl (refl, refl)
find_symbol-id_of up k (a ∷ as_) symbol = elim (Bool-cases (up a.symbol ==ₜ up symbol)) [
  | inl here ↦
      inr (record { id = k; name = a.name; symbol = up a.symbol }, rw here refl, rw here refl)
  | inr later ↦ rw later (find_symbol-id_of up (suc k) as_ symbol)
]

pub pair_of-both_ids :
    (up : String → String) (assets : List NewAsset) (m : AssetPairSymbolic)
    → pair_of up (listing up 0 assets) m
      ≡ both_ids (id_of up 0 assets m.primary) (id_of up 0 assets m.secondary)
unfolding pair_of
pair_of-both_ids up assets m = elim (find_symbol-id_of up 0 assets m.primary) [
  | inl (e, f) ↦ rw (e, f, ◌>>=◌) refl
  | inr (a, e, f) ↦ elim (find_symbol-id_of up 0 assets m.secondary) [
    | inl (g, h) ↦ rw (e, f, g, h, ◌>>=◌) refl
    | inr (b, g, h) ↦ rw (e, f, g, h, ◌>>=◌) refl
  ]
]
