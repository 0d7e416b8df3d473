-- ===== src/ExchangeServer/Served.antt =====
-- What a connection of src/bin/exchange_server.rs makes of the messages of its client, against the run of the
-- exchange with the messages of all clients in their order.
use market_sim_backend.Prelude.{
  ℕ, suc, ◌≡◌, refl, ap, ◌∙◌, Bool, false, Bool-cases, Option, none, some, Option-cases, List, [],
  ◌∷◌, ◌++◌, map, Result-cases, ok, err, ◌⊎◌, inl, inr,
}
use market_sim_backend.Fixed.{Fixed}
use market_sim_backend.Codec.{CodecError, encode}
use market_sim_backend.Codec.Pieces.{encode_all}
use market_sim_backend.Exchange.State.{Exchange}
use market_sim_backend.Exchange.Settle.{◌>>=◌}
use market_sim_backend.Exchange.Commands.{Command, CommandResult, run_buffer, run_messages}
use market_sim_backend.ExchangeClient.{send_commands}
use market_sim_backend.ExchangeServer.{ConnectionEnd, handle_connection}
use market_sim_backend.ExchangeServer.Woven.{
  weave, own, woven_none, woven_some, others_panic, own_panic, own_woven,
}

module _ {P : Type 0} ⦃fx : Fixed P⦄ (clock : ℕ → ℕ)
    (to_vec : List (CommandResult P) → Option (List ℕ)) (taken : List ℕ → Bool)
    (others : ℕ → List (List (Command P))) where
  -- A reply that is not encoded, or that the socket does not take.
  abbrev pub IsUnsent : List (CommandResult P) → List ℕ → Type 0
  IsUnsent r out =
      ((z : CodecError) × (encode to_vec r out ≡ err z))
      ⊎ ((dst : List ℕ) × (encode to_vec r out ≡ ok dst) × (taken dst ≡ false))

  -- All messages are handled, the replies to them written, and the connection ends when the client does.
  abbrev pub IsServed :
      ℕ
      → List (List (Command P))
      → List ℕ
      → Exchange P
      → Option ((ConnectionEnd × List ℕ) × Exchange P)
      → Type 0
  IsServed n ms out x result =
      (all : List (List (CommandResult P))) × (x' : Exchange P) × (out' : List ℕ) × (run_messages
          clock (weave others n ms) x
        ≡ some (all, x'))
      × (encode_all to_vec (own others n ms all) out ≡ ok out')
      × (result ≡ some ((ConnectionEnd.disconnected, out'), x'))

  -- The messages up to one are handled, but the reply to that one is not sent: the connection panics, and
  -- leaves what the client has sent behind it.
  abbrev pub IsCutOff :
      ℕ
      → List (List (Command P))
      → List ℕ
      → Exchange P
      → Option ((ConnectionEnd × List ℕ) × Exchange P)
      → Type 0
  IsCutOff n ms out x result =
      (served unread : List (List (Command P))) × (all rs : List (List (CommandResult P)))
      × (r : List (CommandResult P)) × (x' : Exchange P) × (out' : List ℕ) × (ms ≡ served ++ unread)
      × (run_messages clock (weave others n served) x ≡ some (all, x'))
      × (own others n served all ≡ rs ++ r ∷ [])
      × (encode_all to_vec rs out ≡ ok out')
      × IsUnsent r out'
      × (result ≡ some ((ConnectionEnd.panicked, out'), x'))

  -- The exchange panics at one of the messages.
  abbrev pub IsLost :
      ℕ
      → List (List (Command P))
      → Exchange P
      → Option ((ConnectionEnd × List ℕ) × Exchange P)
      → Type 0
  IsLost n ms x result =
      (served unread : List (List (Command P))) × (ms ≡ served ++ unread)
      × (run_messages clock (weave others n served) x ≡ none)
      × (result ≡ none)

  abbrev pub IsOutcome :
      ℕ
      → List (List (Command P))
      → List ℕ
      → Exchange P
      → Option ((ConnectionEnd × List ℕ) × Exchange P)
      → Type 0
  IsOutcome n ms out x result =
      IsServed n ms out x result ⊎ (IsCutOff n ms out x result ⊎ IsLost n ms x result)

  -- A message whose reply is sent.
  sent_reply :
      (n : ℕ) (m : List (Command P)) (ms : List (List (Command P))) (out dst : List ℕ)
      (x y z : Exchange P) (before : List (List (CommandResult P))) (r : List (CommandResult P))
      (result : Option ((ConnectionEnd × List ℕ) × Exchange P))
      → run_messages clock (others n) x ≡ some (before, y)
      → run_buffer clock m y ≡ some (r, z)
      → encode to_vec r out ≡ ok dst
      → IsOutcome (suc n) ms dst z result
      → IsOutcome n (m ∷ ms) out x result
  unfolding encode_all
  sent_reply n m ms out dst x y z before r result e f g (inl (all, x', out', run, written, done)) =
      inl (
        before ++ r ∷ all,
        x',
        out',
        woven_some clock (others n) (weave others (suc n) ms) m x y z x' before all r e f run,
        rw (own_woven clock others n m ms x y before all r e, g, encode_all) written,
        done,
      )
  sent_reply n m ms out dst x y z before r result e f g
        (inr
          (inl (served, unread, all, rs, last, x', out', split, run, mine, written, bad, done))) =
      inr (
        inl (
          m ∷ served,
          unread,
          before ++ r ∷ all,
          r ∷ rs,
          last,
          x',
          out',
          ap (λ l. m ∷ l) split,
          woven_some clock (others n) (weave others (suc n) served) m x y z x' before all r e f run,
          own_woven clock others n m served x y before all r e ∙ ap (λ l. r ∷ l) mine,
          rw (g, encode_all) written,
          bad,
          done,
        ))
  sent_reply n m ms out dst x y z before r result e f g
        (inr (inr (served, unread, split, run, done))) =
      inr (
        inr (
          m ∷ served,
          unread,
          ap (λ l. m ∷ l) split,
          woven_none clock (others n) (weave others (suc n) served) m x y z before r e f run,
          done,
        ))

  unsent_reply :
      (n : ℕ) (m : List (Command P)) (ms : List (List (Command P))) (out : List ℕ)
      (x y z : Exchange P) (before : List (List (CommandResult P))) (r : List (CommandResult P))
      (result : Option ((ConnectionEnd × List ℕ) × Exchange P))
      → run_messages clock (others n) x ≡ some (before, y)
      → run_buffer clock m y ≡ some (r, z)
      → IsUnsent r out
      → result ≡ some ((ConnectionEnd.panicked, out), z)
      → IsOutcome n (m ∷ ms) out x result
  unfolding encode_all run_messages
  unsent_reply n m ms out x y z before r result e f bad done = inr (
      inl (
        m ∷ [],
        ms,
        before ++ r ∷ [],
        [],
        r,
        z,
        out,
        refl,
        woven_some clock (others n) [] m x y z z before [] r e f refl,
        own_woven clock others n m [] x y before [] r e,
        refl,
        bad,
        done,
      ))

  pub handle_connection-IsOutcome :
      (n : ℕ) (ms : List (List (Command P))) (out : List ℕ) (x : Exchange P)
      → IsOutcome n ms out x
          (handle_connection clock to_vec taken others n (map (λ m. ok m) ms) out x)
  unfolding handle_connection send_commands encode_all run_messages
  handle_connection-IsOutcome n [] out x = inl ([], x, out, refl, refl, refl)
  handle_connection-IsOutcome n (m ∷ ms) out x =
      elim (Option-cases (run_messages clock (others n) x)) [
        | inl e ↦
            inr (inr (m ∷ [], ms, refl, others_panic clock (others n) (m ∷ []) x e, rw e refl))
        | inr ((before, y), e) ↦ elim (Option-cases (run_buffer clock m y)) [
          | inl f ↦ inr (
              inr (
                m ∷ [],
                ms,
                refl,
                own_panic clock (others n) [] m x y before e f,
                rw (e, ◌>>=◌) (rw f refl),
              ))
          | inr ((r, z), f) ↦ elim (Result-cases (encode to_vec r out)) [
            | inr (bad, g) ↦
                unsent_reply n m ms out x y z before r _ e f (inl (bad, g))
                  (rw (e, ◌>>=◌) (rw (f, ◌>>=◌) (rw g refl)))
            | inl (dst, g) ↦ elim (Bool-cases (taken dst)) [
              | inr bad ↦
                  unsent_reply n m ms out x y z before r _ e f (inr (dst, g, bad))
                    (rw (e, ◌>>=◌) (rw (f, ◌>>=◌) (rw (g, bad) refl)))
              | inl good ↦
                  let result =
                    handle_connection clock to_vec taken others (suc n) (map (λ k. ok k) ms) dst
                      z in
                  let same : handle_connection clock to_vec taken others n
                        (ok m ∷ map (λ k. ok k) ms) out x
                      ≡ result =
                    rw (e, ◌>>=◌) (rw (f, ◌>>=◌) (rw (g, good) refl)) in
                  rw same (
                    sent_reply n m ms out dst x y z before r result e f g
                      (handle_connection-IsOutcome (suc n) ms dst z))
            ]
          ]
        ]
      ]
