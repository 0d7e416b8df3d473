-- ===== src/Orderbook/Insertion.antt =====
-- `insert_order` of src/orderbook.rs where it accepts the order: what it leaves of the two sides, of the
-- order and of the buffer.
use market_sim_backend.Prelude.{
  ℕ, ◌+◌, ◌≡◌, refl, ap, ◌∙◌, Bool-cases, Result-cases, Option, none, List, drop, All, ltb, ltb→lt,
  if◌then◌else◌, ok, ◌⊎◌, inl, inr, arith,
}
use market_sim_backend.Fixed.{Fixed}
use market_sim_backend.Order.{Side, opposite, OrderInsertion, OrderExecutionStatus}
use market_sim_backend.Orderbook.Types.{
  entry_of, ObTransaction, ObOrderInsertionEffects, Levels, Orderbook, book_side, with_side,
}
use market_sim_backend.Orderbook.Matching.{
  LevelsMatch, walk_order, check_volume, match_levels, rest_order, finish, insert_order,
}
use market_sim_backend.Orderbook.Validity.{keys, IsLive, IsSideValid, IsValid}
use market_sim_backend.Orderbook.Measure.{levels_volume, traded, levels_volume-drop, LeadingEmpty}
use market_sim_backend.Orderbook.Walk.{StopsAtHead, out_volume, LevelsDone, match_levels-LevelsDone}
use market_sim_backend.Orderbook.Trim.{levels_volume-walk_order, trim-IsSideValid, All-walk_order}
use market_sim_backend.Orderbook.Placement.{
  book_side-with_side, add_entry, insert_limit_order_no_matching_lem, add_entry-IsSideValid,
  levels_volume-add_entry,
}

-- The status that the insertion reports.
abbrev pub status_of : ℕ → OrderExecutionStatus
status_of remaining =
    if ltb 0 remaining then OrderExecutionStatus.awaiting_fill else OrderExecutionStatus.filled

module _ {P : Type 0} where
  own-with_side :
      (ob : Orderbook P) (s : Side) (l : Levels P)
      → book_side (with_side ob (opposite s) l) s ≡ book_side ob s
  own-with_side ob Side.bid l = refl
  own-with_side ob Side.ask l = refl

  other-with_side :
      (ob : Orderbook P) (s : Side) (l : Levels P)
      → book_side (with_side ob s l) (opposite s) ≡ book_side ob (opposite s)
  other-with_side ob Side.bid l = refl
  other-with_side ob Side.ask l = refl

module _ {P : Type 0} ⦃fx : Fixed P⦄ where
  pub book_side-IsSideValid :
      (ob : Orderbook P) (s : Side) → IsValid ob → IsSideValid (book_side ob s)
  book_side-IsSideValid ob Side.bid v = v.bids_valid
  book_side-IsSideValid ob Side.ask v = v.asks_valid

  sides-IsValid :
      (ob : Orderbook P) (s : Side)
      → IsSideValid (book_side ob s)
      → IsSideValid (book_side ob (opposite s))
      → IsValid ob
  sides-IsValid ob Side.bid h k = record { bids_valid = h; asks_valid = k }
  sides-IsValid ob Side.ask h k = record { bids_valid = k; asks_valid = h }

  -- The order's own side, with what remains of the order.
  abbrev pub rested : OrderInsertion P → ℕ → Levels P → Levels P
  rested order remaining own =
      if ltb 0 remaining
      then add_entry own order.price (entry_of (record order { volume = remaining }))
      else own

  -- What is known of an accepted order: `levels` is the walk after the loops, its first `d` levels
  -- are popped, and `remaining` of the order is entered into its own side.
  pub record Accepted (order : OrderInsertion P) (ob : Orderbook P) (buf : List (ObTransaction P))
      (effects : ObOrderInsertionEffects P) (ob' : Orderbook P) (buf' : List (ObTransaction P))
      : Type 0 where
    pub levels : Levels P
    pub remaining : ℕ
    pub d : ℕ
    pub other :
        book_side ob' (opposite order.side) ≡ walk_order (opposite order.side) (drop d levels)
    pub own : book_side ob' order.side ≡ rested order remaining (book_side ob order.side)
    pub status : effects.status ≡ status_of remaining
    pub emptied : LeadingEmpty d levels
    pub same_keys :
        keys levels ≡ keys (walk_order (opposite order.side) (book_side ob (opposite order.side)))
    pub live : All IsLive (drop d levels)
    pub order_volume : remaining + traded buf' ≡ order.volume + traded buf
    pub levels_volumes :
        levels_volume levels + traded buf'
        ≡ levels_volume (walk_order (opposite order.side) (book_side ob (opposite order.side)))
          + traded buf
    pub stops : (remaining ≡ 0) ⊎ StopsAtHead order (drop d levels)
    pub out_volumes :
        out_volume order levels
        ≡ out_volume order (walk_order (opposite order.side) (book_side ob (opposite order.side)))

  pub rest_order_lem :
      (order : OrderInsertion P) (remaining : ℕ) (last : Option P) (ob : Orderbook P)
      → let (effects, ob') = rest_order order remaining last ob in
        (book_side ob' (opposite order.side) ≡ book_side ob (opposite order.side))
        × (book_side ob' order.side ≡ rested order remaining (book_side ob order.side))
        × (effects.status ≡ status_of remaining)
  unfolding rest_order
  rest_order_lem order remaining last ob =
      let order' = record order { volume = remaining } in
      let s = order.side in
      let l = add_entry (book_side ob s) order.price (entry_of order') in
      elim (Bool-cases (ltb 0 remaining)) [
        | inl rests ↦
            rw (rests, rest_order, insert_limit_order_no_matching_lem order' ob)
              (other-with_side ob s l, book_side-with_side ob s l, refl)
        | inr done ↦ rw (done, rest_order) (refl, refl, refl)
      ]

  matched-Accepted :
      (order : OrderInsertion P) (ob : Orderbook P) (buf : List (ObTransaction P))
      (levels : Levels P) (remaining : ℕ) (last : Option P) (d : ℕ) (b : List (ObTransaction P))
      → LevelsDone order order.volume 0
          (walk_order (opposite order.side) (book_side ob (opposite order.side)))
          buf
          (LevelsMatch.matched levels remaining last d b)
      → let s = opposite order.side in
        let (effects, ob') =
          rest_order order remaining last (with_side ob s (walk_order s (drop d levels))) in
        Accepted order ob buf effects ob' b
  matched-Accepted order ob buf levels remaining last d b h =
      let s = opposite order.side in
      let left = walk_order s (drop d levels) in
      let r = rest_order_lem order remaining last (with_side ob s left) in
      let same : d ≡ h.0 = omega (arith, h.1) in
      record {
        levels = levels;
        remaining = remaining;
        d = h.0;
        other =
            r.0 ∙ book_side-with_side ob s left ∙ ap (λ (n : ℕ). walk_order s (drop n levels)) same;
        own = r.1 ∙ ap (rested order remaining) (own-with_side ob order.side left);
        status = r.2;
        emptied = h.2;
        same_keys = h.3;
        live = h.4;
        order_volume = h.5;
        levels_volumes = h.6;
        stops = h.7;
        out_volumes = h.8;
      }

  finish-Accepted :
      (order : OrderInsertion P) (ob : Orderbook P) (buf : List (ObTransaction P))
      (m : LevelsMatch P) (effects : ObOrderInsertionEffects P) (ob' : Orderbook P)
      (buf' : List (ObTransaction P))
      → LevelsDone order order.volume 0
          (walk_order (opposite order.side) (book_side ob (opposite order.side)))
          buf
          m
      → finish order ob m ≡ (ok effects, ob', buf')
      → Accepted order ob buf effects ob' buf'
  unfolding finish
  finish-Accepted order ob buf (LevelsMatch.self_trade levels b) effects ob' buf' h e =
      absurd (ground (arith, ap (λ t. t.0) e))
  finish-Accepted order ob buf (LevelsMatch.matched levels remaining last d b) effects ob' buf' h
        e =
      let s = opposite order.side in
      let r = rest_order order remaining last (with_side ob s (walk_order s (drop d levels))) in
      let same_effects : r.0 ≡ effects = cc (ap (λ t. t.0) e) in
      let same_book : r.1 ≡ ob' = ap (λ t. t.1) e in
      let same_buf : b ≡ buf' = ap (λ t. t.2) e in
      rw (← same_effects, ← same_book, ← same_buf)
        (matched-Accepted order ob buf levels remaining last d b h)

  -- What an accepted insertion has done.
  pub insert_order-Accepted :
      (order : OrderInsertion P) (ob : Orderbook P) (buf : List (ObTransaction P))
      (effects : ObOrderInsertionEffects P) (ob' : Orderbook P) (buf' : List (ObTransaction P))
      → IsValid ob
      → insert_order order ob buf ≡ (ok effects, ob', buf')
      → Accepted order ob buf effects ob' buf'
  unfolding insert_order
  insert_order-Accepted order ob buf effects ob' buf' v e =
      let s = opposite order.side in
      let walk = walk_order s (book_side ob s) in
      elim (Result-cases (check_volume order ob)) [
        | inl (_, c) ↦
            finish-Accepted order ob buf (match_levels order order.volume none 0 walk buf) effects
              ob' buf'
              (match_levels-LevelsDone order order.volume none 0 walk buf
                (All-walk_order IsLive s (book_side ob s) (book_side-IsSideValid ob s v).1))
              (rw (c, insert_order) at e)
        | inr (x, c) ↦
            let killed = rw (c, insert_order) at e in absurd (ground (arith, ap (λ t. t.0) killed))
      ]

  rested-IsSideValid :
      (order : OrderInsertion P) (remaining : ℕ) (own : Levels P)
      → IsSideValid own
      → IsSideValid (rested order remaining own)
  rested-IsSideValid order remaining own h = elim (Bool-cases (ltb 0 remaining)) [
    | inl rests ↦
        rw (rests, if◌then◌else◌)
          (add_entry-IsSideValid own order.price (entry_of (record order { volume = remaining }))
            (ltb→lt 0 remaining rests) h)
    | inr done ↦ rw (done, if◌then◌else◌) h
  ]

  levels_volume-rested :
      (order : OrderInsertion P) (remaining : ℕ) (own : Levels P)
      → IsSideValid own
      → levels_volume (rested order remaining own) ≡ levels_volume own + remaining
  levels_volume-rested order remaining own h = elim (Bool-cases (ltb 0 remaining)) [
    | inl rests ↦
        rw (rests, if◌then◌else◌)
          (levels_volume-add_entry own order.price (entry_of (record order { volume = remaining }))
            h)
    | inr done ↦ rw (done, if◌then◌else◌) (ground arith)
  ]

  -- An insertion that a valid book accepts leaves it valid: prices ascend, no level is empty, and no
  -- resting order has volume 0.
  pub insert_order-IsValid :
      (order : OrderInsertion P) (ob : Orderbook P) (buf : List (ObTransaction P))
      (effects : ObOrderInsertionEffects P) (ob' : Orderbook P) (buf' : List (ObTransaction P))
      → IsValid ob
      → insert_order order ob buf ≡ (ok effects, ob', buf')
      → IsValid ob'
  insert_order-IsValid order ob buf effects ob' buf' v e =
      let s = opposite order.side in
      let r = insert_order-Accepted order ob buf effects ob' buf' v e in
      sides-IsValid ob' order.side
        (rw r.own (
          rested-IsSideValid order r.remaining (book_side ob order.side)
            (book_side-IsSideValid ob order.side v)))
        (rw r.other (
          trim-IsSideValid s (book_side ob s) r.levels r.d r.same_keys r.live
            (book_side-IsSideValid ob s v)))

  -- An insertion that a valid book accepts conserves volume: the other side loses exactly what the new
  -- transactions trade, and the order's own side gains the order's volume less what they trade.
  pub insert_order_conserves :
      (order : OrderInsertion P) (ob : Orderbook P) (buf : List (ObTransaction P))
      (effects : ObOrderInsertionEffects P) (ob' : Orderbook P) (buf' : List (ObTransaction P))
      → IsValid ob
      → insert_order order ob buf ≡ (ok effects, ob', buf')
      → (levels_volume (book_side ob' (opposite order.side)) + traded buf'
          ≡ levels_volume (book_side ob (opposite order.side)) + traded buf)
        × (levels_volume (book_side ob' order.side) + traded buf'
            ≡ levels_volume (book_side ob order.side) + order.volume + traded buf)
  insert_order_conserves order ob buf effects ob' buf' v e =
      let s = opposite order.side in
      let r = insert_order-Accepted order ob buf effects ob' buf' v e in
      (
        omega (
          arith,
          ap levels_volume r.other,
          levels_volume-walk_order s (drop r.d r.levels),
          levels_volume-walk_order s (book_side ob s),
          levels_volume-drop r.d r.levels r.emptied,
          r.levels_volumes,
        ),
        omega (
          arith,
          ap levels_volume r.own,
          levels_volume-rested order r.remaining (book_side ob order.side)
              (book_side-IsSideValid ob order.side v),
          r.order_volume,
        ),
      )
