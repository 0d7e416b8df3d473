-- ===== src/ExchangeServer.antt =====
-- src/bin/exchange_server.rs: the configuration, what a connection of a client does with the frames of its
-- stream, and what a WebSocket is sent. The stream's answers are a list: its end is a disconnect. What the
-- socket takes is a parameter, and so are the messages of other clients that the exchange handles meanwhile:
-- `others n` come just before the n-th message of this client. `none` is a panic of the exchange.
pub mod Woven
pub mod Served
pub mod Session
use Prim.Native.String.{String}
use market_sim_backend.Prelude.{
  ℕ, suc, ◌+◌, ◌/◌, Bool, if◌then◌else◌, Option, none, some, List, [], ◌∷◌, Result, ok, err,
}
use market_sim_backend.Fixed.{Fixed}
use market_sim_backend.Asset.{NewAsset, Asset, AssetIdPair, AssetPairSymbolic}
use market_sim_backend.Orderbook.Types.{OrderbookL1}
use market_sim_backend.Codec.{CodecError, encode}
use market_sim_backend.Exchange.State.{Transaction, Exchange}
use market_sim_backend.Exchange.Settle.{◌>>=◌}
use market_sim_backend.Exchange.Commands.{Command, CommandResult, run_messages}
use market_sim_backend.ExchangeConfigs.{custom}
use market_sim_backend.ExchangeClient.{
  Call, send_commands, call, get_assets, get_all_l1, get_last_100_transactions,
}

-- MB of src/util/statics.rs
abbrev pub mb : ℕ
mb = 1048576

pub record ExchangeServerConfig : Type 0 where
  pub tcp_buffer_size : ℕ
  pub metrics_interval_ms : ℕ
  pub ws_send_interval_ms : ℕ
  pub bind_address_client : String
  pub bind_address_websocket : String
  pub starting_accounts : ℕ
  pub starting_assets : List NewAsset
  pub starting_markets : List AssetPairSymbolic

abbrev pub default_config : ExchangeServerConfig
default_config = record {
  tcp_buffer_size = mb / 2;
  metrics_interval_ms = 1000;
  ws_send_interval_ms = 500;
  bind_address_client = "127.0.0.1:5555";
  bind_address_websocket = "127.0.0.1:5556";
  starting_accounts = 2;
  starting_assets = [];
  starting_markets = [];
}

pub record ExchangeMetrics : Type 0 where
  pub timestamp : ℕ
  pub p50 : ℕ
  pub p90 : ℕ
  pub p999 : ℕ

pub record ExchangeState (P : Type 0) : Type 0 where
  pub l1s : List (AssetIdPair × OrderbookL1 P)
  pub metrics : ExchangeMetrics
  pub last_100_tx : List (Transaction P)

pub data ConnectionEnd : Type 0 where
  disconnected panicked : ConnectionEnd

module _ {P : Type 0} ⦃fx : Fixed P⦄ where
  -- The exchange that `main` starts.
  unfoldable pub start_exchange :
      (to_uppercase : String → String)
      → ExchangeServerConfig
      → Option (Exchange P × List AssetIdPair × List ℕ)
  start_exchange to_uppercase config =
      custom to_uppercase config.starting_assets config.starting_markets config.starting_accounts

  -- The task of a connection: how it ends, the bytes that the socket has taken after `out`, and the exchange.
  -- The `unwrap` of a reply that is not encoded, or not taken by the socket, is a panic of the task.
  unfoldable pub handle_connection :
      (clock : ℕ → ℕ) (to_vec : List (CommandResult P) → Option (List ℕ)) (taken : List ℕ → Bool)
      (others : ℕ → List (List (Command P)))
      → ℕ
      → List (Result CodecError (List (Command P)))
      → List ℕ
      → Exchange P
      → Option ((ConnectionEnd × List ℕ) × Exchange P)
  handle_connection clock to_vec taken others n [] out x = some ((disconnected, out), x)
  handle_connection clock to_vec taken others n (err e ∷ frames) out x =
      some ((disconnected, out), x)
  handle_connection clock to_vec taken others n (ok decoded_commands ∷ frames) out x =
      run_messages clock (others n) x >>= λ before.
      send_commands clock decoded_commands before.1 >>= λ reply. elim (encode to_vec reply.0 out) [
        | err e ↦ some ((panicked, out), reply.1)
        | ok dst ↦
            let rest = handle_connection clock to_vec taken others (suc n) frames dst reply.1 in
            if taken dst then rest else some ((panicked, out), reply.1)
      ]

  -- A call of the client after the messages of others.
  abbrev pub call_after :
      {R : Type 0}
      → (clock : ℕ → ℕ) → List (List (Command P))
      → Call P R
      → Exchange P
      → Option (R × Exchange P)
  call_after clock others c x = run_messages clock others x >>= λ before. call clock c before.1

  -- One round of the loop of `handle_connection_ws`, with the metrics that the `watch` channel holds.
  unfoldable pub exchange_state :
      (clock : ℕ → ℕ)
      → (others : ℕ → List (List (Command P))) → ℕ
      → ExchangeMetrics
      → Exchange P
      → Option (ExchangeState P × Exchange P)
  exchange_state clock others n metrics x = call_after clock (others n) get_all_l1 x >>= λ l1s.
      call_after clock (others (n + 1)) get_last_100_transactions l1s.1 >>= λ last_100_tx.
      some (record { l1s = l1s.0; metrics = metrics; last_100_tx = last_100_tx.0 }, last_100_tx.1)

  -- The states that a WebSocket is sent, one for each of the metrics.
  unfoldable pub exchange_states :
      (clock : ℕ → ℕ)
      → (others : ℕ → List (List (Command P))) → ℕ
      → List ExchangeMetrics
      → Exchange P
      → Option (List (ExchangeState P) × Exchange P)
  exchange_states clock others n [] x = some ([], x)
  exchange_states clock others n (metrics ∷ rounds) x =
      exchange_state clock others n metrics x >>= λ state.
      exchange_states clock others (n + 2) rounds state.1 >>= λ later.
      some (state.0 ∷ later.0, later.1)

  -- The assets, then the states.
  unfoldable pub handle_connection_ws :
      (clock : ℕ → ℕ)
      → (others : ℕ → List (List (Command P))) → List ExchangeMetrics
      → Exchange P
      → Option ((List Asset × List (ExchangeState P)) × Exchange P)
  handle_connection_ws clock others rounds x =
      call_after clock (others 0) get_assets x >>= λ all_assets.
      exchange_states clock others 1 rounds all_assets.1 >>= λ states.
      some ((all_assets.0, states.0), states.1)
