-- ===== src/ExchangeClient.antt =====
-- src/exchange_client.rs: the client's methods, each of which sends one command and takes the last of the
-- results. `none` is a panic, of `unreachable!` or of an exchange that has ended.
pub mod Methods
pub mod Channel
pub mod System
pub mod Pending
pub mod Order
pub mod Progress
pub mod Service
pub mod Answers
use market_sim_backend.Prelude.{ℕ, Option, none, some, List, [], ◌∷◌, Result}
use market_sim_backend.Fixed.{Fixed}
use market_sim_backend.Asset.{Asset, AssetIdPair}
use market_sim_backend.Errors.{OrderInsertionError}
use market_sim_backend.Order.{OrderInsertionRequest}
use market_sim_backend.Orderbook.Types.{OrderbookL1}
use market_sim_backend.Market.{OrderInsertionEffects}
use market_sim_backend.Exchange.State.{Transaction, Exchange}
use market_sim_backend.Exchange.Settle.{◌>>=◌}
use market_sim_backend.Exchange.Commands.{Command, CommandResult, run_buffer}

-- `Vec::pop`
abbrev pub pop : {A : Type 0} → List A → Option A
pop [] = none
pop (x ∷ []) = some x
pop (x ∷ y ∷ ys) = pop (y ∷ ys)

-- A method: the commands that it sends, and what it makes of the results.
pub record Call (P R : Type 0) : Type 0 where
  pub command_buf : List (Command P)
  pub receive : List (CommandResult P) → Option R

module _ {P : Type 0} where
  abbrev pub insert_order :
      OrderInsertionRequest P → Call P (Result OrderInsertionError OrderInsertionEffects)
  insert_order order_insertion_req = record {
    command_buf = Command.order_insert order_insertion_req ∷ [];
    receive = λ result_buf. elim (pop result_buf) [
      | some (CommandResult.order_insert result) ↦ some result
      | _ ↦ none
    ];
  }

  abbrev pub get_assets : Call P (List Asset)
  get_assets = record {
    command_buf = Command.get_assets ∷ [];
    receive = λ result_buf. elim (pop result_buf) [
      | some (CommandResult.get_assets result) ↦ some result
      | _ ↦ none
    ];
  }

  abbrev pub get_all_l1 : Call P (List (AssetIdPair × OrderbookL1 P))
  get_all_l1 = record {
    command_buf = Command.get_all_orderbook_l1_command ∷ [];
    receive = λ result_buf. elim (pop result_buf) [
      | some (CommandResult.get_all_orderbook_l1_result result) ↦ some result
      | _ ↦ none
    ];
  }

  abbrev pub get_last_100_transactions : Call P (List (Transaction P))
  get_last_100_transactions = record {
    command_buf = Command.get_last_100_transactions ∷ [];
    receive = λ result_buf. elim (pop result_buf) [
      | some (CommandResult.get_last_100_transactions result) ↦ some result
      | _ ↦ none
    ];
  }

  -- Any other result is answered by `None`.
  abbrev pub get_balance : ℕ → ℕ → Call P (Option P)
  get_balance account_id asset_id = record {
    command_buf = Command.get_balance account_id asset_id ∷ [];
    receive = λ result_buf. elim (pop result_buf) [
      | some (CommandResult.get_balance balance) ↦ some balance
      | _ ↦ some none
    ];
  }

module _ {P : Type 0} ⦃fx : Fixed P⦄ where
  -- `send_commands` by the one client of an exchange, which runs the message between sending and reply.
  unfoldable pub send_commands :
      (clock : ℕ → ℕ) → List (Command P) → Exchange P → Option (List (CommandResult P) × Exchange P)
  send_commands clock command_buf x = run_buffer clock command_buf x

  unfoldable pub call :
      {R : Type 0} → (clock : ℕ → ℕ) → Call P R → Exchange P → Option (R × Exchange P)
  call clock c x = send_commands clock c.command_buf x >>= λ reply.
      c.receive reply.0 >>= λ result. some (result, reply.1)
