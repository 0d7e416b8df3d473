-- ===== src/ExchangeClient/System.antt =====
-- The clients of src/exchange_client.rs and the thread of the exchange of src/exchange.rs, with the channel
-- between them, as steps in any order. A client has one message under way: `send_commands` awaits the
-- reply. The oneshot channel of a reply is the state of its client.
use market_sim_backend.Prelude.{
  ℕ, ◌+◌, ◌≡◌, Option, none, some, List, [], ◌∷◌, ◌++◌, ◌==◌, if◌then◌else◌,
}
use market_sim_backend.Fixed.{Fixed}
use market_sim_backend.Exchange.State.{Exchange}
use market_sim_backend.Exchange.Commands.{Command, CommandResult, run_buffer}
use market_sim_backend.ExchangeClient.Channel.{Mpsc, mpsc_capacity}

-- A message, with the number of the client that awaits the reply.
abbrev pub Message : Type 0 → Type 0
Message P = ℕ × List (Command P)

pub data ClientState (P : Type 0) : Type 0 where
  idle : ClientState P
  waiting : List (Command P) → ClientState P
  answered : List (Command P) → List (CommandResult P) → ClientState P

abbrev pub update : {A : Type 0} → (ℕ → A) → ℕ → A → ℕ → A
update f i a j = if i == j then a else f j

-- `exchange` is `none` once its thread has ended; `channel_buf` is what it has received and not yet handled.
pub record System (P : Type 0) (ch : Mpsc (Message P)) : Type 0 where
  pub exchange : Option (Exchange P)
  pub channel : ch.Channel
  pub channel_buf : List (Message P)
  pub clients : ℕ → ClientState P

-- A step of the thread of the exchange, in `run_inner`.
pub data ThreadStep {P : Type 0} ⦃fx : Fixed P⦄ (ch : Mpsc (Message P)) (clock : ℕ → ℕ)
    (s : System P ch) : System P ch → Type 0 where
  receives :
      {ms : List (Message P)} {x : Exchange P} {c : ch.Channel}
      → s.exchange ≡ some x
      → s.channel_buf ≡ []
      → ch.Receives mpsc_capacity s.channel ms c
      → ThreadStep ch clock s (record s { channel = c; channel_buf = ms })
  serves :
      (i : ℕ) {buf : List (Command P)} {rest : List (Message P)} {x x' : Exchange P}
      {rs : List (CommandResult P)}
      → s.exchange ≡ some x
      → s.channel_buf ≡ (i, buf) ∷ rest
      → run_buffer clock buf x ≡ some (rs, x')
      → ThreadStep ch clock s (record s {
        exchange = some x';
        channel_buf = rest;
        clients = update s.clients i (ClientState.answered buf rs);
      })
  panics :
      (i : ℕ) {buf : List (Command P)} {rest : List (Message P)} {x : Exchange P}
      → s.exchange ≡ some x
      → s.channel_buf ≡ (i, buf) ∷ rest
      → run_buffer clock buf x ≡ none
      → ThreadStep ch clock s (record s { exchange = none; channel_buf = [] })

-- A step, with the message that it sends, if it sends one.
pub data Step {P : Type 0} ⦃fx : Fixed P⦄ (ch : Mpsc (Message P)) (clock : ℕ → ℕ) (s : System P ch)
    : List (Message P) → System P ch → Type 0 where
  sends :
      (i : ℕ) (buf : List (Command P)) {x : Exchange P} {c : ch.Channel}
      → s.exchange ≡ some x
      → s.clients i ≡ ClientState.idle
      → ch.Sends s.channel (i, buf) c
      → Step ch clock s
          ((i, buf) ∷ [])
          (record s { channel = c; clients = update s.clients i (ClientState.waiting buf) })
  takes :
      (i : ℕ) {buf : List (Command P)} {rs : List (CommandResult P)}
      → s.clients i ≡ ClientState.answered buf rs
      → Step ch clock s [] (record s { clients = update s.clients i ClientState.idle })
  runs : {t : System P ch} → ThreadStep ch clock s t → Step ch clock s [] t

-- The steps of the thread among these: one or none.
abbrev pub thread_steps :
    {P : Type 0} ⦃fx : Fixed P⦄ {ch : Mpsc (Message P)} {clock : ℕ → ℕ} {sent : List (Message P)}
    {s t : System P ch}
    → Step ch clock s sent t
    → ℕ
thread_steps (sends i buf live free sent_m) = 0
thread_steps (takes i has) = 0
thread_steps (runs step) = 1

-- Steps of the clients and the thread in any order, with how many are the thread's.
pub data Run {P : Type 0} ⦃fx : Fixed P⦄ (ch : Mpsc (Message P)) (clock : ℕ → ℕ)
    : System P ch → ℕ → System P ch → Type 0 where
  at_end : {s : System P ch} → Run ch clock s 0 s
  and_then :
      {sent : List (Message P)} {k : ℕ} {s t u : System P ch}
      → (step : Step ch clock s sent t) → Run ch clock t k u
      → Run ch clock s (thread_steps step + k) u

-- `Exchange::new` with the exchange as it is set up, and no message sent.
abbrev pub started : {P : Type 0} → (ch : Mpsc (Message P)) → Exchange P → System P ch
started ch x0 = record {
  exchange = some x0;
  channel = ch.channel mpsc_capacity;
  channel_buf = [];
  clients = λ _. ClientState.idle;
}

-- The states that can be reached, with the messages in the order in which they were sent.
pub data Reach {P : Type 0} ⦃fx : Fixed P⦄ (ch : Mpsc (Message P)) (clock : ℕ → ℕ) (x0 : Exchange P)
    : List (Message P) → System P ch → Type 0 where
  start : Reach ch clock x0 [] (started ch x0)
  later :
      {log sent : List (Message P)} {s t : System P ch}
      → Reach ch clock x0 log s
      → Step ch clock s sent t
      → Reach ch clock x0 (log ++ sent) t
