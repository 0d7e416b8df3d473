-- ===== src/Exchange/Replies.antt =====
-- The replies of `run_inner` in src/exchange.rs, which `set_len` counts on there and the client's matches
-- on their kind.
use market_sim_backend.Prelude.{ℕ, ◌≡◌, some, List, [], ◌∷◌, arith}
use market_sim_backend.Fixed.{Fixed}
use market_sim_backend.Exchange.State.{Exchange}
use market_sim_backend.Exchange.Settle.{>>=-eq-some}
use market_sim_backend.Exchange.Orders.{insert_order, cancel_order, modify_order}
use market_sim_backend.Exchange.Commands.{Command, CommandResult, handle_command, run_buffer}
use market_sim_backend.Exchange.Identity.{Indexed, handle_command-Indexed}

module _ {P : Type 0} where
  -- A reply of the kind that the command asks for.
  abbrev pub Answers : Command P → CommandResult P → Type 0
  Answers (Command.order_insert req) (CommandResult.order_insert r) = Unit
  Answers (Command.order_cancel req) (CommandResult.order_cancel r) = Unit
  Answers (Command.order_modify req) (CommandResult.order_modify r) = Unit
  Answers (Command.add_market_command pair) (CommandResult.add_market_result r) = Unit
  Answers (Command.get_balance a s) (CommandResult.get_balance r) = Unit
  Answers (Command.get_orderbook_l1_command pair) (CommandResult.get_orderbook_l1_result r) = Unit
  Answers (Command.get_orderbook_l2_command pair) (CommandResult.get_orderbook_l2_result r) = Unit
  Answers Command.get_assets (CommandResult.get_assets r) = Unit
  Answers Command.get_all_orderbook_l1_command (CommandResult.get_all_orderbook_l1_result r) = Unit
  Answers Command.get_last_100_transactions (CommandResult.get_last_100_transactions r) = Unit
  Answers _ _ = ⊥

  abbrev pub AllAnswered : List (Command P) → List (CommandResult P) → Type 0
  AllAnswered [] [] = Unit
  AllAnswered (c ∷ cs) (r ∷ rs) = Answers c r × AllAnswered cs rs
  AllAnswered _ _ = ⊥

module _ {P : Type 0} ⦃fx : Fixed P⦄ where
  handle_command-Answers :
      (clock : ℕ → ℕ) (c : Command P) (x : Exchange P) (reply : CommandResult P) (x' : Exchange P)
      → handle_command clock c x ≡ some (reply, x')
      → Answers c reply
  unfolding handle_command
  handle_command-Answers clock (Command.order_insert req) x reply x' e =
      let (done, e1, f) = >>=-eq-some (insert_order clock req x) _ e in
      let same : CommandResult.order_insert done.0 ≡ reply = cc f in rw (← same) tt
  handle_command-Answers clock (Command.order_cancel req) x reply x' e =
      let same : CommandResult.order_cancel (cancel_order req x).0 ≡ reply = cc e in rw (← same) tt
  handle_command-Answers clock (Command.order_modify req) x reply x' e =
      let same : CommandResult.order_modify (modify_order req x).0 ≡ reply = cc e in rw (← same) tt
  handle_command-Answers clock _ x reply x' e = ground arith

  -- A message that is handled without a panic is answered by one reply to each command, in order, each
  -- of its command's kind. If the orders stood at their ids before it, they do after it.
  pub run_buffer-Answers :
      (clock : ℕ → ℕ) (cs : List (Command P)) (x : Exchange P) (rs : List (CommandResult P))
      (x' : Exchange P)
      → Indexed 0 x.session_orders
      → run_buffer clock cs x ≡ some (rs, x')
      → AllAnswered cs rs × Indexed 0 x'.session_orders
  unfolding run_buffer
  run_buffer-Answers clock [] x rs x' h e =
      let none_left : [] ≡ rs = cc e in let same : x ≡ x' = cc e in rw (← none_left, ← same) (tt, h)
  run_buffer-Answers clock (c ∷ cs) x rs x' h e =
      let (first, e1, f) = >>=-eq-some (handle_command clock c x) _ e in
      let (rest, e2, g) = >>=-eq-some (run_buffer clock cs first.1) _ f in
      let kept = handle_command-Indexed clock c x first.0 first.1 h e1 in
      let (answered, h') = run_buffer-Answers clock cs first.1 rest.0 rest.1 kept e2 in
      let replies : first.0 ∷ rest.0 ≡ rs = cc g in
      let same : rest.1 ≡ x' = cc g in
      rw (← replies, ← same) ((handle_command-Answers clock c x first.0 first.1 e1, answered), h')
