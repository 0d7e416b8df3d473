-- ===== src/RecentTransactions.antt =====
-- `RecentTransactions` of src/exchange.rs: a ring buffer of the last transactions. Its capacity, the
-- vector's, is a field here; `write_idx` is a usize that counts the pushes.
use market_sim_backend.Prelude.{
  ℕ, ◌+◌, ◌%◌, List, [], ◌∷◌, ◌++◌, length, set, take, drop, ltb, leb, ◌==◌, Option, none, some,
  if◌then◌else◌,
}
pub mod Ring

pub record RecentTransactions (T : Type 0) : Type 0 where
  pub inner : List T
  pub write_idx : ℕ
  pub capacity : ℕ

module _ {T : Type 0} where
  abbrev pub with_capacity : ℕ → RecentTransactions T
  with_capacity capacity = record { inner = []; write_idx = 0; capacity = capacity }

  -- `Vec::rotate_left`
  abbrev pub rotate_left : List T → ℕ → List T
  rotate_left xs mid = drop mid xs ++ take mid xs

  unfoldable pub get : RecentTransactions T → List T
  get r = rotate_left r.inner (r.write_idx % r.capacity)

  unfoldable pub push : RecentTransactions T → T → RecentTransactions T
  push r t = record r {
    inner =
        if ltb (length r.inner) r.capacity
        then r.inner ++ t ∷ []
        else set r.inner (r.write_idx % r.capacity) t;
    write_idx = r.write_idx + 1;
  }

  -- `rotate_left`, which panics if `mid` is beyond the length.
  abbrev checked_rotate_left : List T → ℕ → Option (List T)
  checked_rotate_left xs mid = if leb mid (length xs) then some (rotate_left xs mid) else none

  -- `get` and `push` with the panics of `%`, `rotate_left` and `unwrap`.
  unfoldable pub checked_get : RecentTransactions T → Option (List T)
  checked_get r =
      if r.capacity == 0 then none else checked_rotate_left r.inner (r.write_idx % r.capacity)

  unfoldable pub checked_push : RecentTransactions T → T → Option (RecentTransactions T)
  checked_push r t =
      if ltb (length r.inner) r.capacity
      then some (record r { inner = r.inner ++ t ∷ []; write_idx = r.write_idx + 1 })
      else if r.capacity == 0
      then none
      else if ltb (r.write_idx % r.capacity) (length r.inner)
      then some (record r {
        inner = set r.inner (r.write_idx % r.capacity) t;
        write_idx = r.write_idx + 1;
      })
      else none
