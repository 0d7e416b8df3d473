-- ===== src/Tests/Clients.antt =====
-- Tests of src/exchange_client.rs: a client asks for the assets.
use market_sim_backend.Prelude.{◌≤◌, ◌≡◌, ◌≢◌, refl, some, List, [], ◌∷◌, ◌++◌, length, arith}
use market_sim_backend.Fixed.Word64.{Word64, word_fixed}
use market_sim_backend.Exchange.Commands.{Command, CommandResult, handle_command, run_buffer}
use market_sim_backend.Exchange.Replies.{AllAnswered}
use market_sim_backend.ExchangeClient.Methods.{Method, Returned, call_of}
use market_sim_backend.ExchangeClient.Channel.{Mpsc, IsFifo, mpsc_capacity}
use market_sim_backend.ExchangeClient.System.{
  Message, ClientState, update, System, ThreadStep, Run, at_end, and_then, sends, runs, receives,
  serves, Reach, start as at_start, later,
}
use market_sim_backend.ExchangeClient.Order.{under_way, HandledInOrder, Reach-HandledInOrder}
use market_sim_backend.ExchangeClient.Pending.{IsPending}
use market_sim_backend.ExchangeClient.Progress.{Reach-IsPending}
use market_sim_backend.ExchangeClient.Service.{IsAnswered, Meets, Reach-IsAnswered}
use market_sim_backend.ExchangeClient.Answers.{Reach-receive}
use market_sim_backend.Tests.Exchanges.{clock, start}

-- A list for the channel.
abbrev queue : Mpsc (Message Word64)
queue = record {
  Channel = List (Message Word64);
  contents = λ c. c;
  channel = λ capacity. [];
  Sends = λ c m c'. (c' ≡ c ++ m ∷ []) × (length c' ≤ 32);
  Receives = λ limit c ms c'. (c ≡ ms ++ c') × (ms ≢ []) × (length ms ≤ limit);
}

first_ready :
    (c : List (Message Word64))
    → c ≢ []
    → (ms : List (Message Word64)) × (c' : List (Message Word64)) × ((c ≡ ms ++ c')
        × (ms ≢ [])
        × (length ms ≤ 32))
first_ready [] n = absurd (n refl)
first_ready (m ∷ c) n = (m ∷ [], c, (refl, (λ e. cc e), omega arith))

queue-IsFifo : IsFifo queue mpsc_capacity mpsc_capacity
queue-IsFifo = record {
  empty = refl;
  sends = λ s. s.0;
  bounded = λ s. s.1;
  receives = λ r. r.0;
  limited = λ r. r.2;
  given = λ r. r.1;
  ready = first_ready;
}

abbrev question : Method Word64
question = Method.get_assets

abbrev asked : List (Command Word64)
asked = (call_of question).command_buf

abbrev log : List (Message Word64)
log = (0, asked) ∷ []

abbrev state1 : System Word64 queue
state1 = record {
  exchange = some start;
  channel = log;
  channel_buf = [];
  clients = update (λ _. ClientState.idle) 0 (ClientState.waiting asked);
}

reach1 : Reach queue clock start log state1
reach1 = later at_start (sends 0 asked refl refl (refl, omega arith))

abbrev state2 : System Word64 queue
state2 = record state1 { channel = []; channel_buf = log }

received : ThreadStep queue clock state1 state2
received = receives refl refl (refl, (λ e. cc e), omega arith)

reach2 : Reach queue clock start log state2
reach2 = later reach1 (runs received)

abbrev answer : List (CommandResult Word64)
answer = CommandResult.get_assets start.traded_assets ∷ []

abbrev state3 : System Word64 queue
state3 = record state2 {
  channel_buf = [];
  clients = update state2.clients 0 (ClientState.answered asked answer);
}

answer_run : run_buffer clock asked start ≡ some (answer, start)
unfolding run_buffer handle_command
answer_run = refl

reach3 : Reach queue clock start log state3
reach3 = later reach2 (runs (serves 0 refl refl answer_run))

Reach-HandledInOrder_example : HandledInOrder clock start log (under_way state3) start
Reach-HandledInOrder_example =
    Reach-HandledInOrder queue clock queue-IsFifo start log state3 reach3 start refl

Reach-IsPending_example : IsPending state2
Reach-IsPending_example =
    Reach-IsPending queue clock queue-IsFifo start log state2 reach2 start refl

-- Client 1 sends while the thread has the message of client 0, which it then handles.
abbrev state4 : System Word64 queue
state4 = record state2 {
  channel = (1, asked) ∷ [];
  clients = update state2.clients 1 (ClientState.waiting asked);
}

abbrev state5 : System Word64 queue
state5 = record state4 {
  channel_buf = [];
  clients = update state4.clients 0 (ClientState.answered asked answer);
}

abbrev two_clients : Run queue clock state1 2 state5
two_clients = and_then (runs received) (
    and_then (sends 1 asked refl refl (refl, omega arith))
      (and_then (runs (serves 0 refl refl answer_run)) at_end))

Reach-IsAnswered_example :
    ((t : System Word64 queue) × ThreadStep queue clock state1 t)
    × Meets queue clock (λ t. IsAnswered queue clock t 0 asked) two_clients
Reach-IsAnswered_example =
    Reach-IsAnswered queue clock queue-IsFifo 0 asked start log state1 reach1 start refl refl
      two_clients (omega arith)

Reach-receive_example :
    AllAnswered asked answer
    × ((r : Returned question) × ((call_of question).receive answer ≡ some r))
Reach-receive_example = Reach-receive queue clock start log state3 0 question answer tt reach3 refl
