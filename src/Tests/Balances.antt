-- ===== src/Tests/Balances.antt =====
-- Tests of src/balance_book.rs on a book of two accounts and two assets.
use market_sim_backend.Prelude.{◌≡◌, refl, some, [], ◌∷◌, arith}
use market_sim_backend.Fixed.Word64.{Word64, word, word_fixed}
use market_sim_backend.BalanceBook.{
  BalanceBook, get, get_disjoint, add_asset, insert_columns, add_account,
}
use market_sim_backend.BalanceBook.Matrix.{
  IsRectangular, get-add_account, get-add_asset, get_disjoint_lem, get_past_accounts,
}

-- Two accounts and two assets.
abbrev two_by_two : BalanceBook Word64
two_by_two = record {
  accounts = 2;
  assets = 2;
  balances = word 10 ∷ word 20 ∷ word 30 ∷ word 40 ∷ [];
}

two_by_two-IsRectangular : IsRectangular two_by_two
two_by_two-IsRectangular = record {
  filled = refl;
  accounts_fit = omega arith;
  assets_fit = omega arith;
}

three_accounts :
    (add_account two_by_two).balances ≡ word 10 ∷ word 20 ∷ word 0 ∷ word 30 ∷ word 40 ∷ word 0 ∷ []
unfolding add_account insert_columns
three_accounts = refl

get-add_account_example : get (add_account two_by_two) 1 1 ≡ get two_by_two 1 1
get-add_account_example =
    get-add_account two_by_two 1 1 two_by_two-IsRectangular (omega arith) (omega arith)
      (omega arith)

get-add_asset_example : get (add_asset two_by_two) 1 2 ≡ some (word 0)
get-add_asset_example =
    get-add_asset two_by_two 1 2 two_by_two-IsRectangular (omega arith) (omega arith)

get_disjoint_lem_example :
    get_disjoint two_by_two ((0, 0) ∷ (0, 1) ∷ (1, 0) ∷ (1, 1) ∷ []) ≡ some (0 ∷ 1 ∷ 2 ∷ 3 ∷ [])
get_disjoint_lem_example =
    get_disjoint_lem two_by_two 0 1 0 1 two_by_two-IsRectangular (omega arith) (omega arith)
      (omega arith) (omega arith) (omega arith) (omega arith)

-- The balance of account 2, which there is not, is that of account 0 in the next asset.
get_past_accounts_example : get two_by_two 2 0 ≡ get two_by_two 0 1
get_past_accounts_example = get_past_accounts two_by_two 0 0
