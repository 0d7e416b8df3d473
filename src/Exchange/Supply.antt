-- ===== src/Exchange/Supply.antt =====
-- The commands of src/exchange.rs and the sum of the balances in each asset: `insert_order` is the one
-- that settles transactions.
use market_sim_backend.Prelude.{
  ℕ, ◌<◌, ◌≡◌, refl, ap, sym, ◌∙◌, Bool-cases, leb, Option, none, some, Option-cases, List, [], ◌∷◌,
  ◌++◌, reverse, length, All, All-append, Result, ok, err, inl, inr, arith,
}
use market_sim_backend.Fixed.{Fixed, IsLawful}
use market_sim_backend.Asset.{AssetIdPair}
use market_sim_backend.Errors.{OrderInsertionError, OrderCancellationError, OrderModificationError}
use market_sim_backend.Order.{
  PlacedOrder, OrderInsertion, OrderInsertionRequest, OrderCancellationRequest,
  OrderModificationRequest, from_insertion, into_insertion, into_cancellation,
  into_order_modification,
}
use market_sim_backend.Orderbook.Types.{ObTransaction, ObOrderInsertionEffects}
use market_sim_backend.BalanceBook.{get_disjoint}
use market_sim_backend.Market
use market_sim_backend.Market.{OrderInsertionEffects, get_market, put_market}
use market_sim_backend.Exchange.State.{Exchange, add_market}
use market_sim_backend.Exchange.Settle.{
  >>=-eq-some, two_orders, four_balances, settled, settle_one, settle_all, process_transactions,
}
use market_sim_backend.Exchange.Orders.{
  find_order, write_order, modified, cancelled_if_ok, modified_if_ok, place_order, insert_order,
  cancel_order, modify_order,
}
use market_sim_backend.Exchange.Commands.{
  Command, CommandResult, handle_command, run_buffer, run_messages,
}
use market_sim_backend.Exchange.Totals.{asset_total}
use market_sim_backend.Exchange.Conservation.{KnownAccounts, settle_all_conserves}

module _ {P : Type 0} where
  abbrev pub KnownIn : ℕ → List (ℕ × PlacedOrder P) → Type 0
  KnownIn n os = All (λ (o : ℕ × PlacedOrder P). o.1.account_id < n) os

  -- Every account has its balances in the book, and every order is of an account.
  abbrev pub Booked : Exchange P → Type 0
  Booked x =
      (length x.accounts ≡ x.balance_book.accounts)
      × KnownIn x.balance_book.accounts x.session_orders

  pub find_order-KnownIn :
      (n : ℕ) (os : List (ℕ × PlacedOrder P)) (id : ℕ) (o : PlacedOrder P)
      → KnownIn n os
      → find_order os id ≡ some o
      → o.account_id < n
  unfolding find_order
  find_order-KnownIn n [] id o h e = cc
  find_order-KnownIn n ((j, p) ∷ os) id o h e = ground (arith, find_order-KnownIn n os id o h.1)

  pub write_order-KnownIn :
      (n : ℕ) (os : List (ℕ × PlacedOrder P)) (id : ℕ) (o : PlacedOrder P)
      → KnownIn n os
      → o.account_id < n
      → KnownIn n (write_order os id o)
  unfolding write_order
  write_order-KnownIn n [] id o h l = tt
  write_order-KnownIn n ((j, p) ∷ os) id o h l = ground (arith, write_order-KnownIn n os id o h.1 l)

module _ {P : Type 0} ⦃fx : Fixed P⦄ where
  -- The same accounts, and the same sum of the balances in asset s.
  abbrev pub SameSupply : ℕ → Exchange P → Exchange P → Type 0
  SameSupply s x x' = Booked x' × (asset_total x'.balance_book s ≡ asset_total x.balance_book s)

  settle_all-accounts :
      (clock : ℕ → ℕ) (pair : AssetIdPair) (ts : List (ObTransaction P)) (x x' : Exchange P)
      → settle_all clock pair ts x ≡ some x'
      → (x'.accounts ≡ x.accounts) × (x'.balance_book.accounts ≡ x.balance_book.accounts)
  unfolding settle_all settle_one settled
  settle_all-accounts clock pair [] x x' e = let same : x ≡ x' = cc e in rw (← same) (refl, refl)
  settle_all-accounts clock pair (t ∷ ts) x x' e =
      let (y, e1, f) = >>=-eq-some (settle_one clock pair t x) _ e in
      let (found, e2, g) =
        >>=-eq-some (two_orders x.session_orders t.order_id_maker t.order_id_taker) _ e1 in
      let (indices, e3, k) =
        >>=-eq-some (get_disjoint x.balance_book (four_balances pair found)) _ g in
      let same : settled clock pair t found indices x ≡ y = cc k in
      let (a, b) = settle_all-accounts clock pair ts y x' f in
      (
        a ∙ sym (ap (λ (z : Exchange P). z.accounts) same),
        b ∙ sym (ap (λ (z : Exchange P). z.balance_book.accounts) same),
      )

  place_order_keeps_supply :
      IsLawful fx
      → (clock : ℕ → ℕ) (o : OrderInsertion P)
        (r : Result OrderInsertionError (ObOrderInsertionEffects P)) (x : Exchange P)
        (done : Result OrderInsertionError OrderInsertionEffects × Exchange P) (s : ℕ)
      → Booked x
      → o.account_id < length x.accounts
      → place_order clock o r x ≡ some done
      → SameSupply s x done.1
  unfolding place_order process_transactions
  place_order_keeps_supply lawful clock o (err z) x done s h l e =
      let same : (err z, x) ≡ done = cc e in rw (← same) (h, refl)
  place_order_keeps_supply lawful clock o (ok effects) x done s h l e =
      let y = record x {
        session_orders = x.session_orders ++ (o.id, from_insertion o) ∷ [];
        transaction_buf = [];
      } in
      let (x', e1, f) = >>=-eq-some (settle_all clock o.pair (reverse x.transaction_buf) y) _ e in
      let same =
        ap
          (λ (d : Option (Result OrderInsertionError OrderInsertionEffects × Exchange P)). elim d [
            | none ↦ x
            | some d' ↦ d'.1
          ])
          f in
      let known : KnownAccounts y =
        All-append (λ (p : ℕ × PlacedOrder P). p.1.account_id < x.balance_book.accounts)
          x.session_orders ((o.id, from_insertion o) ∷ []) h.1 (omega (arith, h.0), tt) in
      let (a, b) = settle_all-accounts clock o.pair (reverse x.transaction_buf) y x' e1 in
      let (known', total) =
        settle_all_conserves lawful clock o.pair (reverse x.transaction_buf) y x' s known e1 in
      rw (← same) ((ap length a ∙ h.0 ∙ sym b, known'), total)

  insert_order_keeps_supply :
      IsLawful fx
      → (clock : ℕ → ℕ) (req : OrderInsertionRequest P) (x : Exchange P)
        (done : Result OrderInsertionError OrderInsertionEffects × Exchange P) (s : ℕ)
      → Booked x
      → insert_order clock req x ≡ some done
      → SameSupply s x done.1
  unfolding insert_order
  insert_order_keeps_supply lawful clock req x done s h e =
      elim (Option-cases (get_market x.markets req.pair)) [
        | inl m ↦
            let e' = rw (m, insert_order) at e in
            let same : x ≡ done.1 = ground arith in rw (← same) (h, refl)
        | inr (market, m) ↦ elim (Bool-cases (leb (length x.accounts) req.account_id)) [
          | inl absent ↦
              let e' = rw (m, absent, insert_order) at e in
              let same : x ≡ done.1 = ground arith in rw (← same) (h, refl)
          | inr known ↦
              let insertion = into_insertion req (length x.session_orders) in
              let r = Market.insert_order insertion market x.transaction_buf in
              place_order_keeps_supply lawful clock insertion r.0
                (record x { markets = put_market x.markets req.pair r.1; transaction_buf = r.2 })
                done s h (ground arith) (rw (m, insert_order, known) at e)
        ]
      ]

  pub cancelled_if_ok-account :
      (r : Result OrderCancellationError (Unit {0})) (o : PlacedOrder P)
      → (cancelled_if_ok r o).account_id ≡ o.account_id
  cancelled_if_ok-account (ok u) o = refl
  cancelled_if_ok-account (err z) o = refl

  pub modified_if_ok-account :
      (r : Result OrderModificationError (Unit {0})) (n : ℕ) (o : PlacedOrder P)
      → (modified_if_ok r n o).account_id ≡ o.account_id
  unfolding modified
  modified_if_ok-account (ok u) n o = ground arith
  modified_if_ok-account (err z) n o = refl

  add_market_keeps_supply :
      (pair : AssetIdPair) (x : Exchange P) (s : ℕ)
      → Booked x
      → SameSupply s x (add_market pair x).1
  unfolding add_market
  add_market_keeps_supply pair x s h = ground arith

  cancel_order_keeps_supply :
      (req : OrderCancellationRequest) (x : Exchange P) (s : ℕ)
      → Booked x
      → SameSupply s x (cancel_order req x).1
  unfolding cancel_order
  cancel_order_keeps_supply req x s h =
      elim (Option-cases (find_order x.session_orders req.order_id)) [
        | inl e ↦ rw (e, cancel_order) (h, refl)
        | inr (order, e) ↦ elim (Option-cases (get_market x.markets order.pair)) [
          | inl m ↦ ground arith
          | inr (market, m) ↦
              let n : ℕ = x.balance_book.accounts in
              let c = into_cancellation req order.pair order.side order.price in
              let o' = cancelled_if_ok (Market.cancel_order c market).0 order in
              ground (
                arith,
                write_order-KnownIn n x.session_orders req.order_id o' h.1,
                cancelled_if_ok-account (Market.cancel_order c market).0 order,
                find_order-KnownIn n x.session_orders req.order_id order h.1 e,
              )
        ]
      ]

  modify_order_keeps_supply :
      (req : OrderModificationRequest) (x : Exchange P) (s : ℕ)
      → Booked x
      → SameSupply s x (modify_order req x).1
  unfolding modify_order
  modify_order_keeps_supply req x s h =
      elim (Option-cases (find_order x.session_orders req.order_id)) [
        | inl e ↦ rw (e, modify_order) (h, refl)
        | inr (order, e) ↦ elim (Option-cases (get_market x.markets order.pair)) [
          | inl m ↦ ground arith
          | inr (market, m) ↦
              let n : ℕ = x.balance_book.accounts in
              let c = into_order_modification req order.pair order.side order.price order.volume in
              let o' = modified_if_ok (Market.modify_order c market).0 req.new_volume order in
              ground (
                arith,
                write_order-KnownIn n x.session_orders req.order_id o' h.1,
                modified_if_ok-account (Market.modify_order c market).0 req.new_volume order,
                find_order-KnownIn n x.session_orders req.order_id order h.1 e,
              )
        ]
      ]

  handle_command_keeps_supply :
      IsLawful fx
      → (clock : ℕ → ℕ) (c : Command P) (x : Exchange P) (reply : CommandResult P) (x' : Exchange P)
        (s : ℕ)
      → Booked x
      → handle_command clock c x ≡ some (reply, x')
      → SameSupply s x x'
  unfolding handle_command
  handle_command_keeps_supply lawful clock (Command.order_insert req) x reply x' s h e =
      let (done, e1, f) = >>=-eq-some (insert_order clock req x) _ e in
      let same : done.1 ≡ x' = cc f in
      rw (← same) (insert_order_keeps_supply lawful clock req x done s h e1)
  handle_command_keeps_supply lawful clock (Command.order_cancel req) x reply x' s h e =
      let same : (cancel_order req x).1 ≡ x' = cc e in
      rw (← same) (cancel_order_keeps_supply req x s h)
  handle_command_keeps_supply lawful clock (Command.order_modify req) x reply x' s h e =
      let same : (modify_order req x).1 ≡ x' = cc e in
      rw (← same) (modify_order_keeps_supply req x s h)
  handle_command_keeps_supply lawful clock (Command.add_market_command pair) x reply x' s h e =
      let same : (add_market pair x).1 ≡ x' = cc e in
      rw (← same) (add_market_keeps_supply pair x s h)
  handle_command_keeps_supply lawful clock _ x reply x' s h e =
      let same : x ≡ x' = cc e in rw (← same) (h, refl)

  run_buffer_keeps_supply :
      IsLawful fx
      → (clock : ℕ → ℕ) (cs : List (Command P)) (x : Exchange P) (rs : List (CommandResult P))
        (x' : Exchange P) (s : ℕ)
      → Booked x
      → run_buffer clock cs x ≡ some (rs, x')
      → SameSupply s x x'
  unfolding run_buffer
  run_buffer_keeps_supply lawful clock [] x rs x' s h e =
      let same : x ≡ x' = cc e in rw (← same) (h, refl)
  run_buffer_keeps_supply lawful clock (c ∷ cs) x rs x' s h e =
      let (first, e1, f) = >>=-eq-some (handle_command clock c x) _ e in
      let (rest, e2, g) = >>=-eq-some (run_buffer clock cs first.1) _ f in
      let (h1, t1) = handle_command_keeps_supply lawful clock c x first.0 first.1 s h e1 in
      let (h2, t2) = run_buffer_keeps_supply lawful clock cs first.1 rest.0 rest.1 s h1 e2 in
      let same : rest.1 ≡ x' = cc g in rw (← same) (h2, t2 ∙ t1)

  -- Where balances add and subtract as in a commutative group, every account has its balances in the
  -- book and every order is of an account: after any messages that are handled without a panic, the
  -- latter two still hold, and the sum of all balances in each asset is what it was.
  pub run_messages_keeps_supply :
      IsLawful fx
      → (clock : ℕ → ℕ) (bufs : List (List (Command P))) (x : Exchange P)
        (replies : List (List (CommandResult P))) (x' : Exchange P) (s : ℕ)
      → Booked x
      → run_messages clock bufs x ≡ some (replies, x')
      → SameSupply s x x'
  unfolding run_messages
  run_messages_keeps_supply lawful clock [] x replies x' s h e =
      let same : x ≡ x' = cc e in rw (← same) (h, refl)
  run_messages_keeps_supply lawful clock (buf ∷ bufs) x replies x' s h e =
      let (first, e1, f) = >>=-eq-some (run_buffer clock buf x) _ e in
      let (rest, e2, g) = >>=-eq-some (run_messages clock bufs first.1) _ f in
      let (h1, t1) = run_buffer_keeps_supply lawful clock buf x first.0 first.1 s h e1 in
      let (h2, t2) = run_messages_keeps_supply lawful clock bufs first.1 rest.0 rest.1 s h1 e2 in
      let same : rest.1 ≡ x' = cc g in rw (← same) (h2, t2 ∙ t1)
