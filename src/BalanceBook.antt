-- ===== src/BalanceBook.antt =====
-- src/balance_book.rs: the balances of every account in every asset, in one vector, row by row: row
-- `s` holds the balances in asset `s`, one for each account.
pub mod Matrix
use market_sim_backend.Prelude.{
  ℕ, zero, suc, ◌+◌, ◌*◌, Bool, true, not, ◌&&◌, Option, none, some, List, [], ◌∷◌, ◌++◌, map,
  length, get_elem?, replicate, insert_idx, ltb, ◌==◌, if◌then◌else◌, add32,
}
use market_sim_backend.Fixed.{Fixed}

pub record BalanceBook (P : Type 0) : Type 0 where
  pub accounts : ℕ
  pub assets : ℕ
  pub balances : List P

abbrev pub empty_book : {P : Type 0} → BalanceBook P
empty_book = record { accounts = 0; assets = 0; balances = [] }

-- The indices that `get_disjoint_mut` of a slice lends: all in range, no two equal.
abbrev pub not_among : ℕ → List ℕ → Bool
not_among i [] = true
not_among i (j ∷ js) = not (i == j) && not_among i js

abbrev pub are_disjoint : ℕ → List ℕ → Bool
are_disjoint len [] = true
are_disjoint len (i ∷ is) = ltb i len && (not_among i is && are_disjoint len is)

module _ {P : Type 0} where
  -- Both ids are u32, so neither the product nor the sum leaves a 64-bit usize.
  abbrev pub get_index : BalanceBook P → ℕ → ℕ → ℕ
  get_index b asset_id account_id = b.accounts * asset_id + account_id

  unfoldable pub get : BalanceBook P → ℕ → ℕ → Option P
  get b account_id asset_id = get_elem? b.balances (get_index b asset_id account_id)

  -- `get_disjoint_mut`: the indices at which the caller may write, `none` for its error.
  unfoldable pub get_disjoint : BalanceBook P → List (ℕ × ℕ) → Option (List ℕ)
  get_disjoint b indexing_pairs =
      let indices = map (λ p. get_index b p.0 p.1) indexing_pairs in
      if are_disjoint (length b.balances) indices then some indices else none

module _ {P : Type 0} ⦃fx : Fixed P⦄ where
  unfoldable pub add_asset : BalanceBook P → BalanceBook P
  add_asset b = record b {
    balances = b.balances ++ replicate b.accounts fx.zero_value;
    assets = add32 b.assets 1;
  }

  -- The loop of `add_account`: `n` rounds from row `i` on.
  unfoldable pub insert_columns : ℕ → ℕ → ℕ → List P → List P
  insert_columns zero i accounts balances = balances
  insert_columns (suc n) i accounts balances =
      insert_columns n (i + 1) accounts (insert_idx balances ((i + 1) * accounts + i) fx.zero_value)

  unfoldable pub add_account : BalanceBook P → BalanceBook P
  add_account b = record b {
    balances = insert_columns b.assets 0 b.accounts b.balances;
    accounts = add32 b.accounts 1;
  }
