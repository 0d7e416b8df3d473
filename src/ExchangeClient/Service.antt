-- ===== src/ExchangeClient/Service.antt =====
-- A client of src/exchange_client.rs that waits, and the thread of src/exchange.rs that is to answer it, among
-- whatever the other clients do.
use market_sim_backend.Prelude.{
  ℕ, suc, ◌+◌, ◌*◌, ◌≤◌, ◌<◌, ◌≡◌, ◌≢◌, refl, ap, sym, ◌∙◌, Bool-cases, Option-cases, none, some,
  List, [], ◌∷◌, ◌++◌, append_assoc, append-nil, length, ◌==◌, if◌then◌else◌, ◌⊎◌, inl, inr, arith,
}
use mathlib.Core.Logic.Or
use mathlib.Core.List.{Mem, Mem-prop, not-mem-nil, eq-or-mem_of_mem-cons}
use market_sim_backend.Fixed.{Fixed}
use market_sim_backend.Exchange.State.{Exchange}
use market_sim_backend.Exchange.Commands.{Command, CommandResult, run_buffer}
use market_sim_backend.ExchangeClient.Channel.{Mpsc, IsFifo, mpsc_capacity}
use market_sim_backend.ExchangeClient.System.{
  Message, ClientState, update, System, Step, ThreadStep, Run, at_end, and_then, thread_steps,
  sends, takes, runs, receives, serves, panics, Reach,
}
use market_sim_backend.ExchangeClient.Order.{under_way}
use market_sim_backend.ExchangeClient.Pending.{IsPending, update_self, update_other}
use market_sim_backend.ExchangeClient.Progress.{Step-IsPending, Reach-IsPending}

List-cases : {A : Type 0} (xs : List A) → (xs ≡ []) ⊎ ((y : A) × (ys : List A) × (xs ≡ y ∷ ys))
List-cases [] = inl refl
List-cases (y ∷ ys) = inr (y, ys, refl)

module _ {P : Type 0} where
  -- The messages ahead of the first one of client i.
  abbrev ahead : ℕ → List (Message P) → ℕ
  ahead i [] = 0
  ahead i (m ∷ ms) = if m.0 == i then 0 else suc (ahead i ms)

  -- Messages that are sent later do not get ahead.
  ahead-append :
      (i : ℕ) (buf : List (Command P)) (ms ns : List (Message P))
      → Mem (i, buf) ms
      → ahead i (ms ++ ns) ≡ ahead i ms
  ahead-append i buf [] ns h = absurd (not-mem-nil h)
  ahead-append i buf ((j, b) ∷ ms) ns h = elim (Bool-cases (j == i)) [
    | inl same ↦ rw same refl
    | inr other ↦
        let tail : Mem (i, buf) ms =
          Or.elim Mem-prop (eq-or-mem_of_mem-cons h)
            (λ head. absurd (ground (arith, ap (λ (m : Message P). m.0) head))) (λ t. t) in
        rw other (ap suc (ahead-append i buf ms ns tail))
  ]

  ahead-length :
      (i : ℕ) (buf : List (Command P)) (ms : List (Message P))
      → Mem (i, buf) ms
      → ahead i ms < length ms
  ahead-length i buf [] h = absurd (not-mem-nil h)
  ahead-length i buf ((j, b) ∷ ms) h = elim (Bool-cases (j == i)) [
    | inl same ↦ rw same (omega arith)
    | inr other ↦
        let tail : Mem (i, buf) ms =
          Or.elim Mem-prop (eq-or-mem_of_mem-cons h)
            (λ head. absurd (ground (arith, ap (λ (m : Message P). m.0) head))) (λ t. t) in
        rw other (omega (arith, ahead-length i buf ms tail))
  ]

  -- One more step where nothing is received.
  abbrev to_receive : List (Message P) → ℕ
  to_receive [] = 1
  to_receive (m ∷ ms) = 0

  to_receive_le : (ms : List (Message P)) → to_receive ms ≤ 1
  to_receive_le [] = omega arith
  to_receive_le (m ∷ ms) = omega arith

  to_receive_none : (ms : List (Message P)) → ms ≢ [] → to_receive ms ≡ 0
  to_receive_none [] n = absurd (n refl)
  to_receive_none (m ∷ ms) n = refl

module _ {P : Type 0} ⦃fx : Fixed P⦄ (ch : Mpsc (Message P)) (clock : ℕ → ℕ) where
  -- The thread has answered client i, or has ended.
  abbrev pub IsAnswered : System P ch → ℕ → List (Command P) → Type 0
  IsAnswered s i buf =
      ((rs : List (CommandResult P)) × (s.clients i ≡ ClientState.answered buf rs))
      ⊎ (s.exchange ≡ none)

  -- A state of the run, from its first to its last, has that property.
  abbrev pub Meets :
      (System P ch → Type 0) → {s u : System P ch} {k : ℕ} → Run ch clock s k u → Type 0
  Meets Q {s} at_end = Q s
  Meets Q {s} (and_then step run) = Q s ⊎ Meets Q run

  -- The steps of the thread until client i is answered.
  abbrev due : System P ch → ℕ → ℕ
  due s i = 2 * ahead i (under_way s) + to_receive s.channel_buf

module _ {P : Type 0} ⦃fx : Fixed P⦄ (ch : Mpsc (Message P)) (clock : ℕ → ℕ)
    (fifo : IsFifo ch mpsc_capacity mpsc_capacity) (i : ℕ) (buf : List (Command P)) where
  -- What a step leaves: an answer, or client i waiting, the nearer to it for a step of the thread.
  abbrev Nearer : System P ch → ℕ → System P ch → Type 0
  Nearer s k t =
      IsAnswered ch clock t i buf
      ⊎ ((y : Exchange P) × (t.exchange ≡ some y)
          × (t.clients i ≡ ClientState.waiting buf)
          × (due ch clock t i + k ≤ due ch clock s i))

  -- A step that changes another client only, with messages added at most.
  others_step :
      (s : System P ch) (x : Exchange P) (c : ch.Channel) (more : List (Message P)) (j : ℕ)
      (a : ClientState P)
      → s.exchange ≡ some x
      → ch.contents c ≡ ch.contents s.channel ++ more
      → IsPending s
      → s.clients i ≡ ClientState.waiting buf
      → i ≢ j
      → Nearer s 0 (record s { channel = c; clients = update s.clients j a })
  others_step s x c more j a live grown h w n =
      let pending : s.channel_buf ++ ch.contents c ≡ under_way s ++ more =
        ap (λ l. s.channel_buf ++ l) grown
        ∙ sym (append_assoc s.channel_buf (ch.contents s.channel) more) in
      let same = ap (ahead i) pending ∙ ahead-append i buf (under_way s) more (h.1 i buf w) in
      inr (x, live, update_other s.clients j i a n ∙ w, omega (arith, same))

  thread_step :
      {s t : System P ch}
      → ThreadStep ch clock s t
      → IsPending s
      → s.clients i ≡ ClientState.waiting buf
      → Nearer s 1 t
  thread_step {s} (receives {ms} {x} {c} live none_left got) h w =
      let same : ms ++ ch.contents c ≡ under_way s =
        sym (ap (λ l. l ++ ch.contents s.channel) none_left ∙ fifo.receives got) in
      inr (
        x,
        live,
        w,
        omega (
          arith,
          ap (ahead i) same,
          ap to_receive none_left,
          to_receive_none ms (fifo.given got),
        ),
      )
  thread_step {s} (serves j {buf = b} {rest} {x} {x'} {rs} live next run) h w =
      let c = ch.contents s.channel in
      let answer = ClientState.answered b rs in
      let first : s.clients j ≡ ClientState.waiting b = (rw (ap (λ l. l ++ c) next) at h.0).0 in
      elim (Bool-cases (j == i)) [
        | inl same ↦
            let id_same : j ≡ i = ground arith in
            let both : ClientState.waiting b ≡ ClientState.waiting buf =
              sym first ∙ ap s.clients id_same ∙ w in
            let buf_same : b ≡ buf = cc both in
            inl (
              inl (
                rs,
                ap (update s.clients j answer) (sym id_same)
                    ∙ update_self s.clients j answer
                    ∙ ap (λ z. ClientState.answered z rs) buf_same,
              ))
        | inr other ↦
            let further : ahead i ((j, b) ∷ rest ++ c) ≡ suc (ahead i (rest ++ c)) =
              rw other refl in
            inr (
              x',
              refl,
              update_other s.clients j i answer (λ z. absurd (ground (arith, z))) ∙ w,
              omega (arith, ap (λ l. ahead i (l ++ c)) next, further, to_receive_le rest),
            )
      ]
  thread_step (panics j live next run) h w = inl (inr refl)

  comes_closer :
      {sent : List (Message P)} {s t : System P ch}
      → (step : Step ch clock s sent t) → IsPending s
      → (x : Exchange P) → s.exchange ≡ some x
      → s.clients i ≡ ClientState.waiting buf
      → Nearer s (thread_steps step) t
  comes_closer {sent} {s} (sends j b {c} live free sent_m) h x e w =
      others_step s x c sent j (ClientState.waiting b) e (fifo.sends sent_m) h w
        (λ same. cc (sym w ∙ ap s.clients same ∙ free))
  comes_closer {sent} {s} (takes j has) h x e w =
      others_step s x s.channel [] j ClientState.idle e (sym (append-nil (ch.contents s.channel))) h
        w (λ same. cc (sym w ∙ ap s.clients same ∙ has))
  comes_closer (runs step) h x e w = thread_step step h w

  met_at_once :
      (Q : System P ch → Type 0) {s u : System P ch} {k : ℕ} (run : Run ch clock s k u)
      → Q s
      → Meets ch clock Q run
  met_at_once Q at_end q = q
  met_at_once Q (and_then step run) q = inl q

  run_answers :
      {s u : System P ch} {k : ℕ}
      → (run : Run ch clock s k u) → due ch clock s i < k
      → IsPending s
      → (x : Exchange P) → s.exchange ≡ some x
      → s.clients i ≡ ClientState.waiting buf
      → Meets ch clock (λ t. IsAnswered ch clock t i buf) run
  run_answers at_end few h x e w = absurd (omega (arith, few))
  run_answers (and_then step run) few h x e w = elim (comes_closer step h x e w) [
    | inl done ↦ inr (met_at_once (λ t. IsAnswered ch clock t i buf) run done)
    | inr (y, e', w', less) ↦ inr (
        run_answers run (omega (arith, less, few))
          (Step-IsPending ch clock fifo step (λ z q. h) y e') y e' w')
  ]

  thread_can_step :
      (s : System P ch) (x : Exchange P)
      → s.exchange ≡ some x
      → under_way s ≢ []
      → (t : System P ch) × ThreadStep ch clock s t
  thread_can_step s x live some_left = elim (List-cases s.channel_buf) [
    | inl none_left ↦
        let (ms, c, got) =
          fifo.ready s.channel
            (λ e. some_left (ap (λ l. l ++ ch.contents s.channel) none_left ∙ e)) in
        (_, receives live none_left got)
    | inr ((j, b), rest, next) ↦ elim (Option-cases (run_buffer clock b x)) [
      | inl e ↦ (_, panics j live next e)
      | inr ((rs, x'), e) ↦ (_, serves j live next e)
    ]
  ]

  -- With a channel that is first in, first out and ready while it holds a message: in every state that can be
  -- reached with the thread of the exchange not ended, where a client waits, the thread can take a step, and in every run from there, whatever the clients do in it, in which the thread
  -- takes twice as many steps as messages are under way, it has answered the message of that client in some
  -- state of the run, or has ended by a panic.
  pub Reach-IsAnswered :
      (x0 : Exchange P) (log : List (Message P)) (s : System P ch)
      → Reach ch clock x0 log s
      → (x : Exchange P) → s.exchange ≡ some x
      → s.clients i ≡ ClientState.waiting buf
      → {u : System P ch} {k : ℕ} → (run : Run ch clock s k u) → 2 * length (under_way s) ≤ k
      → ((t : System P ch) × ThreadStep ch clock s t)
        × Meets ch clock (λ t. IsAnswered ch clock t i buf) run
  Reach-IsAnswered x0 log s r x live w run enough =
      let h = Reach-IsPending ch clock fifo x0 log s r x live in
      let mine = h.1 i buf w in
      (
        thread_can_step s x live (λ e. not-mem-nil (rw e at mine)),
        run_answers run
            (omega
              (arith, enough, ahead-length i buf (under_way s) mine, to_receive_le s.channel_buf))
            h x live w,
      )
