-- ===== src/ExchangeClient/Progress.antt =====
-- The clients of src/exchange_client.rs and the thread of src/exchange.rs, in every state that they can
-- reach: who waits, how much is under way, what is answered.
use market_sim_backend.Prelude.{
  ℕ, ◌≤◌, ◌≡◌, ap, sym, ◌∙◌, some, List, ◌++◌, length, length-append, append_assoc, arith,
}
use market_sim_backend.Fixed.{Fixed}
use market_sim_backend.Exchange.State.{Exchange}
use market_sim_backend.ExchangeClient.Channel.{Mpsc, IsFifo, mpsc_capacity}
use market_sim_backend.ExchangeClient.System.{
  Message, ClientState, update, System, Step, sends, runs, receives, serves, panics, takes, Reach,
  start, later,
}
use market_sim_backend.ExchangeClient.Order.{under_way}
use market_sim_backend.ExchangeClient.Pending.{
  IsPending, Awaited-update, NoneFrom-Awaited, Awaited-append, Covered-update, Covered-append,
  Covered-tail, update_self,
}

module _ {P : Type 0} ⦃fx : Fixed P⦄ (ch : Mpsc (Message P)) (clock : ℕ → ℕ)
    (fifo : IsFifo ch mpsc_capacity mpsc_capacity) where
  pub Step-IsPending :
      {sent : List (Message P)} {s t : System P ch}
      → Step ch clock s sent t
      → ((x : Exchange P) → s.exchange ≡ some x → IsPending s)
      → (x : Exchange P) → t.exchange ≡ some x
      → IsPending t
  Step-IsPending {sent} {s} (sends i buf {c} live idle sent_m) h z e =
      let (awaited, covered) = h z e in
      let pending = under_way s in
      let grown : s.channel_buf ++ ch.contents c ≡ pending ++ sent =
        ap (λ l. s.channel_buf ++ l) (fifo.sends sent_m)
        ∙ sym (append_assoc s.channel_buf (ch.contents s.channel) sent) in
      let new = update s.clients i (ClientState.waiting buf) in
      let none_from = NoneFrom-Awaited s.clients i pending (λ b w. cc (sym idle ∙ w)) awaited in
      rw grown (
        Awaited-append new i buf pending none_from
            (Awaited-update s.clients i (ClientState.waiting buf) pending none_from awaited)
            (update_self s.clients i (ClientState.waiting buf)),
        Covered-append s.clients i buf pending covered,
      )
  Step-IsPending {sent} {s} (runs (receives live none_left got)) h z e =
      rw (ap (λ l. l ++ ch.contents s.channel) none_left ∙ fifo.receives got) at h z e
  Step-IsPending {sent} {s} (runs (serves i {buf} {rest} {x} {x'} {rs} live next run)) h z e =
      let pending = rest ++ ch.contents s.channel in
      let answer = ClientState.answered buf rs in
      let (awaited, covered) = rw (ap (λ l. l ++ ch.contents s.channel) next) at h x live in
      (
        Awaited-update s.clients i answer pending awaited.1 awaited.2,
        Covered-tail s.clients i buf answer pending (λ b. cc) covered,
      )
  Step-IsPending (runs (panics i live next run)) h z e = cc e
  Step-IsPending {sent} {s} (takes i {buf} {rs} has) h z e =
      let (awaited, covered) = h z e in
      let pending = under_way s in
      let none_from = NoneFrom-Awaited s.clients i pending (λ b w. cc (sym has ∙ w)) awaited in
      (
        Awaited-update s.clients i ClientState.idle pending none_from awaited,
        Covered-update s.clients i ClientState.idle pending (λ b. cc) covered,
      )

  -- As long as the thread of the exchange has not ended, each message under way is the one that its client
  -- waits for, no client has two, and a client that waits has its message under way.
  pub Reach-IsPending :
      (x0 : Exchange P) (log : List (Message P)) (s : System P ch)
      → Reach ch clock x0 log s
      → (x : Exchange P) → s.exchange ≡ some x
      → IsPending s
  Reach-IsPending x0 _ _ start x e = rw fifo.empty (tt, λ i buf w. cc w)
  Reach-IsPending x0 _ _ (later {log} {sent} {s} {t} r st) x e =
      Step-IsPending st (Reach-IsPending x0 log s r) x e

  abbrev IsBounded : System P ch → Type 0
  IsBounded s =
      (length (ch.contents s.channel) ≤ mpsc_capacity) × (length s.channel_buf ≤ mpsc_capacity)

  Step-IsBounded :
      {sent : List (Message P)} {s t : System P ch}
      → Step ch clock s sent t
      → IsBounded s
      → IsBounded t
  Step-IsBounded (sends i buf live idle sent_m) h = (fifo.bounded sent_m, h.1)
  Step-IsBounded (takes i has) h = h
  Step-IsBounded (runs (receives {ms} {x} {c} live none_left got)) h = (
    omega (arith, h.0, ap length (fifo.receives got), length-append ms (ch.contents c)),
    fifo.limited got,
  )
  Step-IsBounded (runs (serves i live next run)) h = (h.0, omega (arith, h.1, ap length next))
  Step-IsBounded (runs (panics i live next run)) h = (h.0, omega arith)

  -- In every state that can be reached, neither the channel nor what the thread has received from it holds
  -- more messages than the capacity of 32.
  pub Reach-IsBounded :
      (x0 : Exchange P) (log : List (Message P)) (s : System P ch)
      → Reach ch clock x0 log s
      → (length (ch.contents s.channel) ≤ 32) × (length s.channel_buf ≤ 32)
  Reach-IsBounded x0 _ _ start = (rw fifo.empty (omega arith), omega arith)
  Reach-IsBounded x0 _ _ (later {log} {sent} {s} {t} r st) =
      Step-IsBounded st (Reach-IsBounded x0 log s r)
