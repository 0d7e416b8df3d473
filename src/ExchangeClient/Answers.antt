-- ===== src/ExchangeClient/Answers.antt =====
-- What the clients of src/exchange_client.rs receive, in every state that they and the exchange can reach.
use market_sim_backend.Prelude.{
  ℕ, ◌≡◌, refl, Bool-cases, some, List, [], ◌∷◌, ◌==◌, inl, inr, arith,
}
use market_sim_backend.Fixed.{Fixed}
use market_sim_backend.Exchange.State.{Exchange}
use market_sim_backend.Exchange.Commands.{Command, CommandResult}
use market_sim_backend.Exchange.Identity.{Indexed}
use market_sim_backend.Exchange.Replies.{AllAnswered, run_buffer-Answers}
use market_sim_backend.ExchangeClient.Methods.{Method, Returned, call_of}
use market_sim_backend.ExchangeClient.Channel.{Mpsc}
use market_sim_backend.ExchangeClient.System.{
  Message, ClientState, update, System, Step, sends, runs, receives, serves, panics, takes, Reach,
  start, later,
}

module _ {P : Type 0} where
  -- Results of the kinds that a method's command asks for are what the method can take.
  receive-AllAnswered :
      (m : Method P) (rs : List (CommandResult P))
      → AllAnswered (call_of m).command_buf rs
      → (r : Returned m) × ((call_of m).receive rs ≡ some r)
  receive-AllAnswered (Method.insert_order req) (CommandResult.order_insert r ∷ []) h = (r, refl)
  receive-AllAnswered Method.get_assets (CommandResult.get_assets r ∷ []) h = (r, refl)
  receive-AllAnswered Method.get_all_l1 (CommandResult.get_all_orderbook_l1_result r ∷ []) h =
      (r, refl)
  receive-AllAnswered Method.get_last_100_transactions
        (CommandResult.get_last_100_transactions r ∷ []) h =
      (r, refl)
  receive-AllAnswered (Method.get_balance a s) (CommandResult.get_balance r ∷ []) h = (r, refl)
  receive-AllAnswered _ _ h = ground arith

  -- Results that a client holds are of the kinds that it asked for.
  abbrev AnswersHeld : (ℕ → ClientState P) → Type 0
  AnswersHeld f =
      (i : ℕ) (buf : List (Command P)) (rs : List (CommandResult P))
      → f i ≡ ClientState.answered buf rs
      → AllAnswered buf rs

  AnswersHeld-update :
      (f : ℕ → ClientState P) (i : ℕ) (a : ClientState P)
      → ((buf : List (Command P)) (rs : List (CommandResult P))
          → a ≡ ClientState.answered buf rs
          → AllAnswered buf rs)
      → AnswersHeld f
      → AnswersHeld (update f i a)
  AnswersHeld-update f i a new h j buf rs e = elim (Bool-cases (i == j)) [
    | inl same ↦ new buf rs (rw same at e)
    | inr other ↦ h j buf rs (rw other at e)
  ]

module _ {P : Type 0} ⦃fx : Fixed P⦄ (ch : Mpsc (Message P)) (clock : ℕ → ℕ) where
  -- The orders of the exchange stand at their ids.
  abbrev IsIndexed : System P ch → Type 0
  IsIndexed s = (x : Exchange P) → s.exchange ≡ some x → Indexed 0 x.session_orders

  Step-AnswersHeld :
      {sent : List (Message P)} {s t : System P ch}
      → Step ch clock s sent t
      → IsIndexed s
      → AnswersHeld s.clients
      → IsIndexed t × AnswersHeld t.clients
  Step-AnswersHeld {sent} {s} (sends i buf live idle sent_m) k h =
      (k, AnswersHeld-update s.clients i (ClientState.waiting buf) (λ b rs e. cc e) h)
  Step-AnswersHeld {sent} {s} (takes i has) k h =
      (k, AnswersHeld-update s.clients i ClientState.idle (λ b rs e. cc e) h)
  Step-AnswersHeld (runs (receives live none_left got)) k h = (k, h)
  Step-AnswersHeld (runs (panics i live next run)) k h = (λ x e. cc e, h)
  Step-AnswersHeld {sent} {s} (runs (serves i {buf} {rest} {x} {x'} {rs} live next run)) k h =
      let (answered, indexed) = run_buffer-Answers clock buf x rs x' (k x live) run in
      let new = ClientState.answered buf rs in
      (
        λ y e. let same : x' ≡ y = cc e in rw (← same) indexed,
        AnswersHeld-update s.clients i new
            (λ b r e.
              let bufs : buf ≡ b = cc e in
              let replies : rs ≡ r = cc e in rw (← bufs, ← replies) answered)
            h,
      )

  Reach-AnswersHeld :
      (x0 : Exchange P) (log : List (Message P)) (s : System P ch)
      → Indexed 0 x0.session_orders
      → Reach ch clock x0 log s
      → IsIndexed s × AnswersHeld s.clients
  Reach-AnswersHeld x0 _ _ k start =
      (λ x e. let same : x0 ≡ x = cc e in rw (← same) k, λ i buf rs e. cc e)
  Reach-AnswersHeld x0 _ _ k (later {log} {sent} {s} {t} r st) =
      let (indexed, held) = Reach-AnswersHeld x0 log s k r in Step-AnswersHeld st indexed held

  -- If the orders stand at their ids at the start: in every state that can be reached, results that a
  -- client holds answer the commands that it sent, one by one, and the method that sent them can take
  -- them, so that its `unreachable!` is not reached.
  pub Reach-receive :
      (x0 : Exchange P) (log : List (Message P)) (s : System P ch) (i : ℕ) (m : Method P)
      (rs : List (CommandResult P))
      → Indexed 0 x0.session_orders
      → Reach ch clock x0 log s
      → s.clients i ≡ ClientState.answered (call_of m).command_buf rs
      → AllAnswered (call_of m).command_buf rs
        × ((r : Returned m) × ((call_of m).receive rs ≡ some r))
  Reach-receive x0 log s i m rs k r e =
      let answered = (Reach-AnswersHeld x0 log s k r).1 i (call_of m).command_buf rs e in
      (answered, receive-AllAnswered m rs answered)
