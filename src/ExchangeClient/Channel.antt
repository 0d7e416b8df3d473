-- ===== src/ExchangeClient/Channel.antt =====
-- The channel of commands, which src/exchange.rs and src/exchange_client.rs take from tokio (`mpsc`): what
-- they rely on, as an interface and its laws.
use market_sim_backend.Prelude.{ℕ, ◌≤◌, ◌≡◌, ◌≢◌, List, [], ◌∷◌, ◌++◌, length}

-- MPSC_CAPACITY of src/util/statics.rs
abbrev pub mpsc_capacity : ℕ
mpsc_capacity = 32

pub record Mpsc (A : Type 0) : Type 1 where
  pub Channel : Type 0
  -- The messages that are sent and not yet received, oldest first.
  pub contents : Channel → List A
  -- `mpsc::channel(capacity)`
  pub channel : ℕ → Channel
  -- `send`, when it goes through.
  pub Sends : Channel → A → Channel → Type 0
  -- `blocking_recv_many` with a limit, when it gives messages.
  pub Receives : ℕ → Channel → List A → Channel → Type 0

-- First in, first out, and bounded. A receiver waits just while there is no message.
pub record IsFifo {A : Type 0} (ch : Mpsc A) (capacity limit : ℕ) : Type 0 where
  pub empty : ch.contents (ch.channel capacity) ≡ []
  pub sends :
      {c c' : ch.Channel} {a : A} → ch.Sends c a c' → ch.contents c' ≡ ch.contents c ++ a ∷ []
  pub bounded : {c c' : ch.Channel} {a : A} → ch.Sends c a c' → length (ch.contents c') ≤ capacity
  pub receives :
      {c c' : ch.Channel} {ms : List A}
      → ch.Receives limit c ms c'
      → ch.contents c ≡ ms ++ ch.contents c'
  pub limited : {c c' : ch.Channel} {ms : List A} → ch.Receives limit c ms c' → length ms ≤ limit
  pub given : {c c' : ch.Channel} {ms : List A} → ch.Receives limit c ms c' → ms ≢ []
  pub ready :
      (c : ch.Channel)
      → ch.contents c ≢ []
      → (ms : List A) × (c' : ch.Channel) × ch.Receives limit c ms c'
