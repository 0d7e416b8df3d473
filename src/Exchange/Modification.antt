-- ===== src/Exchange/Modification.antt =====
-- `modify_order` of src/exchange.rs on the order that it tracks.
use market_sim_backend.Prelude.{
  ℕ, ◌+◌, ◌-◌, ◌≤◌, ◌<◌, ◌≡◌, refl, arith, ltb, if◌then◌else◌, u32_mod, sub32, sub32_le, Bool-cases,
  ◌⊎◌, inl, inr,
}
use market_sim_backend.Order.{PlacedOrder, OrderExecutionStatus}
use market_sim_backend.Exchange.Orders.{modified}

module _ {P : Type 0} where
  -- Where the tracked volumes are in order and the new volume is not above the old one: the volume goes
  -- to the new one, but never below what is filled, and the order is marked as filled just where the
  -- new volume is below that.
  pub modified_bounds :
      (o : PlacedOrder P) (new_volume : ℕ)
      → o.remaining_volume ≤ o.volume
      → o.volume < u32_mod
      → new_volume ≤ o.volume
      → let filled = o.volume - o.remaining_volume in
        let o' = modified new_volume o in
        (filled ≤ o'.volume)
        × (o'.volume ≤ o.volume)
        × (((new_volume < filled)
              × (o'.volume ≡ filled)
              × (o'.status ≡ OrderExecutionStatus.filled))
            ⊎ ((filled ≤ new_volume) × (o'.volume ≡ new_volume) × (o'.status ≡ o.status)))
  unfolding modified
  modified_bounds o new_volume h r l =
      let filled : ℕ = o.volume - o.remaining_volume in
      let exact : sub32 o.volume o.remaining_volume ≡ filled =
        sub32_le o.volume o.remaining_volume h r in
      elim (Bool-cases (ltb new_volume filled)) [
        | inl below ↦
            rw (exact, below, if◌then◌else◌)
              (omega arith, omega arith, inl (ground arith, refl, refl))
        | inr above ↦
            rw (exact, above, if◌then◌else◌) (ground arith, l, inr (ground arith, refl, refl))
      ]

  -- An order of which nothing is traded, modified to a lower volume and then to a second one that lies
  -- below the wrapped difference of the first and the old volume: the order is marked as filled, its
  -- volume is that difference, near 2 ^ 32, and its remaining volume is still the old volume.
  pub modified_twice :
      (o : PlacedOrder P) (first second : ℕ)
      → o.remaining_volume ≡ o.volume
      → o.volume < u32_mod
      → first < o.volume
      → second + o.volume < u32_mod + first
      → let o' = modified second (modified first o) in
        (o'.status ≡ OrderExecutionStatus.filled)
        × (o'.volume ≡ u32_mod + first - o.volume)
        × (o'.remaining_volume ≡ o.volume)
  unfolding modified
  modified_twice o first second h r l s = ground arith
