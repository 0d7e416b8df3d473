-- ===== src/Orderbook/Upkeep.antt =====
-- The calls of src/orderbook.rs that change a book, on a book that is in order.
use market_sim_backend.Prelude.{
  ◌<◌, ◌≡◌, ◌≢◌, ap, ◌∙◌, none, Option-cases, List, [], ◌∷◌, All, u32_mod, Result-cases, ok, err,
  inl, inr, arith,
}
use market_sim_backend.Fixed.{Fixed}
use market_sim_backend.Errors.{OrderInsertionError}
use market_sim_backend.Order.{OrderInsertion, OrderCancellation, OrderModification}
use market_sim_backend.Orderbook.Types.{ObTransaction, Orderbook, book_side}
use market_sim_backend.Orderbook.Levels.{level_at}
use market_sim_backend.Orderbook.Resting
use market_sim_backend.Orderbook.Resting.{find_last}
use market_sim_backend.Orderbook.Matching.{insert_order}
use market_sim_backend.Orderbook.Validity.{IsValid, Uncrossed}
use market_sim_backend.Orderbook.Insertion.{insert_order-IsValid}
use market_sim_backend.Orderbook.Crossing.{insert_order-Uncrossed}
use market_sim_backend.Orderbook.Rejection.{refused_keeps}
use market_sim_backend.Orderbook.Entries.{BookAll, cancel_order-BookAll, modify_order-BookAll}
use market_sim_backend.Orderbook.Appended.{insert_order-OutcomeAll}
use market_sim_backend.Orderbook.Reduction.{FitsWord, removed-InOrder, modify_order-IsValid}

module _ {P : Type 0} ⦃fx : Fixed P⦄ where
  -- Prices ascend, no level is empty and no volume 0, every bid is below every ask, and volumes fit a u32.
  abbrev pub BookOk : Orderbook P → Type 0
  BookOk ob = IsValid ob × Uncrossed ob × BookAll FitsWord ob

  any_transactions : (ts : List (ObTransaction P)) → All (λ (t : ObTransaction P). Unit {0}) ts
  any_transactions [] = tt
  any_transactions (t ∷ ts) = (tt, any_transactions ts)

  pub insert_order-BookOk :
      (order : OrderInsertion P) (ob : Orderbook P) (buf : List (ObTransaction P))
      → order.volume < u32_mod
      → BookOk ob
      → (insert_order order ob buf).0 ≢ err OrderInsertionError.self_trade
      → BookOk (insert_order order ob buf).1
  insert_order-BookOk order ob buf fits (v, u, f) n =
      let r = insert_order order ob buf in
      elim (Result-cases r.0) [
        | inl (effects, e) ↦
            let accepted : r ≡ (ok effects, r.1, r.2) = ap (λ t. (t, r.1, r.2)) e in
            let all =
              insert_order-OutcomeAll FitsWord (λ (t : ObTransaction P). Unit {0})
                (λ e v l q. omega (arith, l, q)) order (λ p v e q n. tt) ob buf f fits
                (any_transactions buf) in
            (
              insert_order-IsValid order ob buf effects r.1 r.2 v accepted,
              insert_order-Uncrossed order ob buf effects r.1 r.2 v u accepted,
              all.0,
            )
        | inr (z, e) ↦
            let same =
              refused_keeps order ob buf z r.1 r.2 (ap (λ t. (t, r.1, r.2)) e)
                (λ own. n (e ∙ ap err own)) in
            rw same.0 (v, u, f)
      ]

  pub cancel_order-BookOk :
      (c : OrderCancellation P) (ob : Orderbook P)
      → BookOk ob
      → BookOk (Resting.cancel_order c ob).1
  unfolding Resting.cancel_order
  cancel_order-BookOk c ob (v, u, f) =
      let side = book_side ob c.side in
      let all = cancel_order-BookAll FitsWord c ob f in
      elim (Option-cases (level_at side c.price)) [
        | inl e ↦ rw (e, Resting.cancel_order) (v, u, f)
        | inr (es, e) ↦ elim (Option-cases (find_last c.order_id 0 none es)) [
          | inl i ↦ rw (e, i, Resting.cancel_order) (v, u, f)
          | inr (i, found) ↦
              let all' = rw (e, found, Resting.cancel_order) at all in
              let (v', u') = removed-InOrder ob c.side c.price es i (v, u) e in
              rw (e, found, Resting.cancel_order) (v', u', all')
        ]
      ]

  pub modify_order-BookOk :
      (m : OrderModification P) (ob : Orderbook P)
      → BookOk ob
      → BookOk (Resting.modify_order m ob).1
  modify_order-BookOk m ob (v, u, f) =
      let (v', u') = modify_order-IsValid m ob v u f in
      (v', u', modify_order-BookAll FitsWord (λ e r l q. omega (arith, l, q)) m ob f)
