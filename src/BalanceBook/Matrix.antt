-- ===== src/BalanceBook/Matrix.antt =====
-- src/balance_book.rs: what `get` and `get_disjoint_mut` give in a book that is a full matrix.
use market_sim_backend.Prelude.{
  ℕ, zero, suc, ◌+◌, ◌*◌, ◌≤◌, ◌<◌, ◌≡◌, ◌≢◌, map, refl, inl, inr, some, List, [], ◌∷◌, length,
  get_elem?, replicate, insert_idx, length-append, length-replicate, length-insert_idx, ◌==◌,
  if◌then◌else◌, u32_mod, arith, ◌∙◌, ap, add32, add32_one, index_in_range, Bool-cases, ==_iff,
}
use market_sim_backend.Prelude.Index.{
  get_elem?-append_lt, get_elem?-append_ge, get_elem?-replicate, get_elem?-insert_idx_lt,
  get_elem?-insert_idx_self, get_elem?-insert_idx_gt,
}
use market_sim_backend.Fixed.{Fixed}
use market_sim_backend.BalanceBook.{
  BalanceBook, get, get_index, get_disjoint, add_asset, insert_columns, add_account,
}

-- One balance for each account in each asset, with counts that fit a u32.
pub record IsRectangular {P : Type 0} (b : BalanceBook P) : Type 0 where
  pub filled : length b.balances ≡ b.accounts * b.assets
  pub accounts_fit : b.accounts < u32_mod
  pub assets_fit : b.assets < u32_mod

module _ {P : Type 0} ⦃fx : Fixed P⦄ where
  length-insert_columns :
      (n i w : ℕ) (xs : List P) → length (insert_columns n i w xs) ≡ length xs + n
  unfolding insert_columns
  length-insert_columns zero i w xs = omega arith
  length-insert_columns (suc n) i w xs =
      let ys = insert_idx xs ((i + 1) * w + i) fx.zero_value in
      omega (
        arith,
        length-insert_columns n (i + 1) w ys,
        length-insert_idx xs ((i + 1) * w + i) fx.zero_value,
      )

  -- The rows before the point of insertion stay as they are.
  insert_columns_frame :
      (n i w : ℕ) (xs : List P) (j : ℕ)
      → i * w + i + n * w ≤ length xs
      → j < i * w + w + i
      → get_elem? (insert_columns n i w xs) j ≡ get_elem? xs j
  unfolding insert_columns
  insert_columns_frame zero i w xs j r h = refl
  insert_columns_frame (suc n) i w xs j r h =
      let ys = insert_idx xs ((i + 1) * w + i) fx.zero_value in
      insert_columns_frame n (i + 1) w ys j
        (omega (arith, length-insert_idx xs ((i + 1) * w + i) fx.zero_value)) (omega arith)
      ∙ get_elem?-insert_idx_lt xs ((i + 1) * w + i) j fx.zero_value (omega arith) (omega arith)

  -- Row i + k of the result is row i + k of the list ...
  insert_columns_old :
      (n i w : ℕ) (xs : List P) (k a j m : ℕ)
      → i * w + i + n * w ≤ length xs
      → k < n
      → a < w
      → j ≡ (w + 1) * (i + k) + a
      → m ≡ i * w + i + k * w + a
      → get_elem? (insert_columns n i w xs) j ≡ get_elem? xs m
  unfolding insert_columns
  insert_columns_old zero i w xs k a j m r h l e f = elim h [ ]
  insert_columns_old (suc n) i w xs zero a j m r h l e f =
      let same : j ≡ m = omega arith in
      insert_columns_frame (suc n) i w xs j r (omega arith) ∙ ap (get_elem? xs) same
  insert_columns_old (suc n) i w xs (suc k) a j m r h l e f =
      let ys = insert_idx xs ((i + 1) * w + i) fx.zero_value in
      insert_columns_old n (i + 1) w ys k a j (m + 1)
        (omega (arith, length-insert_idx xs ((i + 1) * w + i) fx.zero_value)) (omega arith) l
        (omega arith) (omega arith)
      ∙ get_elem?-insert_idx_gt xs ((i + 1) * w + i) (m + 1) m fx.zero_value refl (omega arith)
          (omega arith)

  -- ... with a zero at its end.
  insert_columns_new :
      (n i w : ℕ) (xs : List P) (k j : ℕ)
      → i * w + i + n * w ≤ length xs
      → k < n
      → j ≡ (w + 1) * (i + k) + w
      → get_elem? (insert_columns n i w xs) j ≡ some fx.zero_value
  unfolding insert_columns
  insert_columns_new zero i w xs k j r h e = elim h [ ]
  insert_columns_new (suc n) i w xs zero j r h e =
      let c : ℕ = (i + 1) * w + i in
      let ys = insert_idx xs c fx.zero_value in
      insert_columns_frame n (i + 1) w ys j (omega (arith, length-insert_idx xs c fx.zero_value))
        (omega arith)
      ∙ get_elem?-insert_idx_self xs c j fx.zero_value (omega arith) (omega arith)
  insert_columns_new (suc n) i w xs (suc k) j r h e =
      let ys = insert_idx xs ((i + 1) * w + i) fx.zero_value in
      insert_columns_new n (i + 1) w ys k j
        (omega (arith, length-insert_idx xs ((i + 1) * w + i) fx.zero_value)) (omega arith)
        (omega arith)

  -- A rectangular book stays rectangular with a new account, if the count of accounts fits a u32.
  pub add_account-IsRectangular :
      (b : BalanceBook P)
      → IsRectangular b
      → b.accounts + 1 < u32_mod
      → IsRectangular (add_account b)
  unfolding add_account
  add_account-IsRectangular b v h =
      let e : add32 b.accounts 1 ≡ b.accounts + 1 = add32_one b.accounts h in
      record {
        filled =
            rw e (omega (arith, length-insert_columns b.assets 0 b.accounts b.balances, v.filled));
        accounts_fit = rw e h;
        assets_fit = v.assets_fit;
      }

  -- After an account is added to a rectangular book, whose count of accounts still fits a u32: the new
  -- account reads zero in every asset, and every other account what it held before.
  pub get-add_account :
      (b : BalanceBook P) (a s : ℕ)
      → IsRectangular b
      → b.accounts + 1 < u32_mod
      → a ≤ b.accounts
      → s < b.assets
      → get (add_account b) a s ≡ (if a == b.accounts then some fx.zero_value else get b a s)
  unfolding add_account get
  get-add_account b a s v h ha hs =
      let fits : 0 * b.accounts + 0 + b.assets * b.accounts ≤ length b.balances =
        omega (arith, v.filled) in
      elim (Bool-cases (a == b.accounts)) [
        | inl new ↦
            rw (new, if◌then◌else◌)
              (insert_columns_new b.assets 0 b.accounts b.balances s _ fits hs (ground arith))
        | inr old ↦
            rw (old, if◌then◌else◌)
              (insert_columns_old b.assets 0 b.accounts b.balances s a _ _ fits hs (ground arith)
                (ground arith) (omega arith))
      ]

  -- A rectangular book stays rectangular with a new asset, if the count of assets fits a u32.
  pub add_asset-IsRectangular :
      (b : BalanceBook P) → IsRectangular b → b.assets + 1 < u32_mod → IsRectangular (add_asset b)
  unfolding add_asset
  add_asset-IsRectangular b v h =
      let zeros = replicate b.accounts fx.zero_value in
      let e : add32 b.assets 1 ≡ b.assets + 1 = add32_one b.assets h in
      record {
        filled = rw e (
            omega (
              arith,
              length-append b.balances zeros,
              length-replicate b.accounts fx.zero_value,
              v.filled,
            ));
        accounts_fit = v.accounts_fit;
        assets_fit = rw e h;
      }

  -- After an asset is added to a rectangular book: every account reads zero in the new asset, and in
  -- every other asset what it held before.
  pub get-add_asset :
      (b : BalanceBook P) (a s : ℕ)
      → IsRectangular b
      → a < b.accounts
      → s ≤ b.assets
      → get (add_asset b) a s ≡ (if s == b.assets then some fx.zero_value else get b a s)
  unfolding add_asset get
  get-add_asset b a s v ha hs =
      let zeros = replicate b.accounts fx.zero_value in
      let i : ℕ = b.accounts * s + a in
      elim (Bool-cases (s == b.assets)) [
        | inl new ↦
            rw (new, if◌then◌else◌)
              (get_elem?-append_ge b.balances zeros i a (grind (arith, ==_iff))
                ∙ get_elem?-replicate b.accounts a fx.zero_value ha)
        | inr old ↦
            rw (old, if◌then◌else◌)
              (get_elem?-append_lt b.balances zeros i
                (ground (arith, v.filled, index_in_range b.accounts b.assets s a)))
      ]

rows_apart :
    (w p q m t : ℕ) → p ≢ q → m < w → t < w → (w * p + m ≢ w * q + t) × (w * p + m ≢ w * q + m)
rows_apart w p q m t np lm lt = (
  ground (arith, index_in_range w q p m, index_in_range w p q t),
  ground (arith, index_in_range w q p m, index_in_range w p q m),
)

module _ {P : Type 0} where
  -- `get` does not check the account id: the id of an account past the last one reads the balance of
  -- an account in the next asset, which may be one that the book has.
  pub get_past_accounts :
      (b : BalanceBook P) (account_id asset_id : ℕ)
      → get b (b.accounts + account_id) asset_id ≡ get b account_id (asset_id + 1)
  unfolding get
  get_past_accounts b account_id asset_id =
      let same : b.accounts * asset_id + (b.accounts + account_id)
          ≡ b.accounts * (asset_id + 1) + account_id =
        omega arith in
      ap (get_elem? b.balances) same

  -- In a rectangular book, the balances of two different accounts in two different assets, all known to
  -- the book, are lent together, each at its own index.
  pub get_disjoint_lem :
      (b : BalanceBook P) (primary secondary maker taker : ℕ)
      → IsRectangular b
      → primary ≢ secondary
      → maker ≢ taker
      → primary < b.assets
      → secondary < b.assets
      → maker < b.accounts
      → taker < b.accounts
      → let pairs : List (ℕ × ℕ) =
          (primary, maker) ∷ (primary, taker) ∷ (secondary, maker) ∷ (secondary, taker) ∷ [] in
        get_disjoint b pairs ≡ some (map (λ p. get_index b p.0 p.1) pairs)
  unfolding get_disjoint
  get_disjoint_lem b p q m t v np nm lp lq lm lt =
      let w : ℕ = b.accounts in
      let (o1, o2) = rows_apart w p q m t np lm lt in
      let (o3, o4) = rows_apart w p q t m np lt lm in
      let l1 = index_in_range w b.assets p m lp lm in
      let l2 = index_in_range w b.assets p t lp lt in
      let l3 = index_in_range w b.assets q m lq lm in
      let l4 = index_in_range w b.assets q t lq lt in
      ground (arith, v.filled, o1, o2, o3, o4, l1, l2, l3, l4)
