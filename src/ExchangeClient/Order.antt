-- ===== src/ExchangeClient/Order.antt =====
-- The thread of src/exchange.rs among any number of clients against `run_messages`, which handles one
-- message after the other.
use market_sim_backend.Prelude.{
  ℕ, ◌≡◌, refl, ap, sym, ◌∙◌, some, List, [], ◌∷◌, ◌++◌, map, append-nil, append_assoc,
}
use market_sim_backend.Fixed.{Fixed}
use market_sim_backend.Exchange.State.{Exchange}
use market_sim_backend.Exchange.Settle.{◌>>=◌, >>=-eq-some}
use market_sim_backend.Exchange.Commands.{Command, CommandResult, run_buffer, run_messages}
use market_sim_backend.ExchangeClient.Channel.{Mpsc, IsFifo, mpsc_capacity}
use market_sim_backend.ExchangeClient.System.{
  Message, System, Step, sends, runs, receives, serves, panics, takes, Reach, start, later,
}

-- The messages that are sent and not yet answered, oldest first.
abbrev pub under_way : {P : Type 0} {ch : Mpsc (Message P)} → System P ch → List (Message P)
under_way {ch = ch} s = s.channel_buf ++ ch.contents s.channel

abbrev pub buffers : {P : Type 0} → List (Message P) → List (List (Command P))
buffers ms = map (λ m. m.1) ms

buffers-append :
    {P : Type 0} (ms ns : List (Message P)) → buffers (ms ++ ns) ≡ buffers ms ++ buffers ns
buffers-append [] ns = refl
buffers-append (m ∷ ms) ns = ap (λ l. m.1 ∷ l) (buffers-append ms ns)

module _ {P : Type 0} ⦃fx : Fixed P⦄ where
  -- One more message.
  run_messages-append :
      (clock : ℕ → ℕ) (bufs : List (List (Command P))) (buf : List (Command P)) (x y z : Exchange P)
      (replies : List (List (CommandResult P))) (rs : List (CommandResult P))
      → run_messages clock bufs x ≡ some (replies, y)
      → run_buffer clock buf y ≡ some (rs, z)
      → run_messages clock (bufs ++ buf ∷ []) x ≡ some (replies ++ rs ∷ [], z)
  unfolding run_messages
  run_messages-append clock [] buf x y z replies rs e f =
      let same : x ≡ y = cc e in
      let none_before : [] ≡ replies = cc e in rw (same, f, ← none_before, ◌>>=◌) refl
  run_messages-append clock (b ∷ bufs) buf x y z replies rs e f =
      let (first, e1, g) = >>=-eq-some (run_buffer clock b x) _ e in
      let (rest, e2, h) = >>=-eq-some (run_messages clock bufs first.1) _ g in
      let same : rest.1 ≡ y = cc h in
      let all : first.0 ∷ rest.0 ≡ replies = cc h in
      let ih = run_messages-append clock bufs buf first.1 rest.1 z rest.0 rs e2 (rw same f) in
      rw (e1, ◌>>=◌) (rw (ih, ← all) refl)

  -- The exchange has handled the messages of a first part of the log, one after the other.
  abbrev pub HandledInOrder :
      (clock : ℕ → ℕ) → Exchange P → List (Message P) → List (Message P) → Exchange P → Type 0
  HandledInOrder clock x0 log pending x =
      (handled : List (Message P)) × (replies : List (List (CommandResult P))) × (log
        ≡ handled ++ pending)
      × (run_messages clock (buffers handled) x0 ≡ some (replies, x))

  handled_next :
      (clock : ℕ → ℕ) (x0 x x' : Exchange P) (log pending : List (Message P)) (m : Message P)
      (rs : List (CommandResult P))
      → HandledInOrder clock x0 log (m ∷ pending) x
      → run_buffer clock m.1 x ≡ some (rs, x')
      → HandledInOrder clock x0 log pending x'
  handled_next clock x0 x x' log pending m rs (handled, replies, split, run) e = (
    handled ++ m ∷ [],
    replies ++ rs ∷ [],
    split ∙ sym (append_assoc handled (m ∷ []) pending),
    rw (buffers-append handled (m ∷ []))
        (run_messages-append clock (buffers handled) m.1 x0 x x' replies rs run e),
  )

module _ {P : Type 0} ⦃fx : Fixed P⦄ (ch : Mpsc (Message P)) (clock : ℕ → ℕ)
    (fifo : IsFifo ch mpsc_capacity mpsc_capacity) where
  Step-HandledInOrder :
      (x0 : Exchange P) {log sent : List (Message P)} {s t : System P ch}
      → Step ch clock s sent t
      → ((x : Exchange P) → s.exchange ≡ some x → HandledInOrder clock x0 log (under_way s) x)
      → (x : Exchange P) → t.exchange ≡ some x
      → HandledInOrder clock x0 (log ++ sent) (under_way t) x
  Step-HandledInOrder x0 {log} {sent} {s} (sends i buf {c} live idle sent_m) h z e =
      let (handled, replies, split, run) = h z e in
      let pending = s.channel_buf ++ ch.contents s.channel in
      let grown : s.channel_buf ++ ch.contents c ≡ pending ++ sent =
        ap (λ l. s.channel_buf ++ l) (fifo.sends sent_m)
        ∙ sym (append_assoc s.channel_buf (ch.contents s.channel) sent) in
      (
        handled,
        replies,
        ap (λ l. l ++ sent) split
            ∙ append_assoc handled pending sent
            ∙ ap (λ l. handled ++ l) (sym grown),
        run,
      )
  Step-HandledInOrder x0 {log} {sent} {s} (runs (receives live none_left got)) h z e =
      let (handled, replies, split, run) = h z e in
      let same = ap (λ l. l ++ ch.contents s.channel) none_left ∙ fifo.receives got in
      (handled, replies, append-nil log ∙ split ∙ ap (λ l. handled ++ l) same, run)
  Step-HandledInOrder x0 {log} {sent} {s} (runs (serves i {buf} {rest} {x} {x'} {rs} live next run))
        h z e =
      let pending = rest ++ ch.contents s.channel in
      let before : HandledInOrder clock x0 log ((i, buf) ∷ pending) x =
        rw (ap (λ l. l ++ ch.contents s.channel) next) at h x live in
      let after = handled_next clock x0 x x' log pending (i, buf) rs before run in
      let same : x' ≡ z = cc e in rw (append-nil log, ← same) after
  Step-HandledInOrder x0 (runs (panics i live next run)) h z e = cc e
  Step-HandledInOrder x0 {log} (takes i has) h z e = rw (append-nil log) (h z e)

  -- Whatever the order of the steps, a channel that is first in, first out, and as long as the thread of
  -- the exchange has not ended: the messages sent are, in their order, those that the exchange has handled
  -- and those that are under way, and its state is the one that `run_messages` reaches on the former.
  pub Reach-HandledInOrder :
      (x0 : Exchange P) (log : List (Message P)) (s : System P ch)
      → Reach ch clock x0 log s
      → (x : Exchange P) → s.exchange ≡ some x
      → HandledInOrder clock x0 log (under_way s) x
  unfolding run_messages
  Reach-HandledInOrder x0 _ _ start x e =
      ([], [], ap (λ l. l) (sym fifo.empty), ap (λ y. some ([], y)) (cc e))
  Reach-HandledInOrder x0 _ _ (later {log} {sent} {s} {t} r st) x e =
      Step-HandledInOrder x0 st (Reach-HandledInOrder x0 log s r) x e
