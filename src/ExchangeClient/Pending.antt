-- ===== src/ExchangeClient/Pending.antt =====
-- The messages under way between the clients of src/exchange_client.rs and the exchange, and who awaits them.
use market_sim_backend.Prelude.{
  ℕ, ◌≡◌, ◌≢◌, refl, ap, sym, ◌∙◌, true, false, Bool-cases, List, [], ◌∷◌, ◌++◌, All, ◌==◌, inl,
  inr, arith,
}
use mathlib.Core.Logic.Or
use mathlib.Core.List.{
  Mem, Mem-prop, mem-cons_self, mem-append_left, mem-append_right, eq-or-mem_of_mem-cons,
}
use market_sim_backend.Exchange.Commands.{Command}
use market_sim_backend.ExchangeClient.Channel.{Mpsc}
use market_sim_backend.ExchangeClient.System.{Message, ClientState, update, System}
use market_sim_backend.ExchangeClient.Order.{under_way}

pub update_self : {A : Type 0} (f : ℕ → A) (i : ℕ) (a : A) → update f i a i ≡ a
update_self f i a = let same : (i == i) ≡ true = ground arith in rw same refl

pub update_other : {A : Type 0} (f : ℕ → A) (i j : ℕ) (a : A) → j ≢ i → update f i a j ≡ f j
update_other f i j a n = let other : (i == j) ≡ false = ground arith in rw other refl

module _ {P : Type 0} where
  -- No message is from client i.
  abbrev pub NoneFrom : ℕ → List (Message P) → Type 0
  NoneFrom i ms = All (λ (n : Message P). n.0 ≢ i) ms

  -- Each message is the one that its client waits for, and no client has two.
  abbrev pub Awaited : (ℕ → ClientState P) → List (Message P) → Type 0
  Awaited f [] = Unit
  Awaited f (m ∷ ms) = (f m.0 ≡ ClientState.waiting m.1) × NoneFrom m.0 ms × Awaited f ms

  pub Awaited-update :
      (f : ℕ → ClientState P) (i : ℕ) (a : ClientState P) (ms : List (Message P))
      → NoneFrom i ms
      → Awaited f ms
      → Awaited (update f i a) ms
  Awaited-update f i a [] n h = tt
  Awaited-update f i a (m ∷ ms) n h =
      (update_other f i m.0 a n.0 ∙ h.0, h.1, Awaited-update f i a ms n.1 h.2)

  -- A client that waits for nothing has no message.
  pub NoneFrom-Awaited :
      (f : ℕ → ClientState P) (i : ℕ) (ms : List (Message P))
      → ((buf : List (Command P)) → f i ≢ ClientState.waiting buf)
      → Awaited f ms
      → NoneFrom i ms
  NoneFrom-Awaited f i [] n h = tt
  NoneFrom-Awaited f i (m ∷ ms) n h =
      (λ e. n m.1 (ap f (sym e) ∙ h.0), NoneFrom-Awaited f i ms n h.2)

  NoneFrom-append :
      (k i : ℕ) (buf : List (Command P)) (ms : List (Message P))
      → NoneFrom k ms
      → i ≢ k
      → NoneFrom k (ms ++ (i, buf) ∷ [])
  NoneFrom-append k i buf [] h n = (n, tt)
  NoneFrom-append k i buf (m ∷ ms) h n = (h.0, NoneFrom-append k i buf ms h.1 n)

  pub Awaited-append :
      (f : ℕ → ClientState P) (i : ℕ) (buf : List (Command P)) (ms : List (Message P))
      → NoneFrom i ms
      → Awaited f ms
      → f i ≡ ClientState.waiting buf
      → Awaited f (ms ++ (i, buf) ∷ [])
  Awaited-append f i buf [] n h e = (e, tt, tt)
  Awaited-append f i buf (m ∷ ms) n h e = (
    h.0,
    NoneFrom-append m.0 i buf ms h.1 (λ same. n.0 (sym same)),
    Awaited-append f i buf ms n.1 h.2 e,
  )

  -- Whoever waits has a message among these.
  abbrev pub Covered : (ℕ → ClientState P) → List (Message P) → Type 0
  Covered f ms = (i : ℕ) (buf : List (Command P)) → f i ≡ ClientState.waiting buf → Mem (i, buf) ms

  pub Covered-update :
      (f : ℕ → ClientState P) (i : ℕ) (a : ClientState P) (ms : List (Message P))
      → ((buf : List (Command P)) → a ≢ ClientState.waiting buf)
      → Covered f ms
      → Covered (update f i a) ms
  Covered-update f i a ms n h j buf e = elim (Bool-cases (i == j)) [
    | inl same ↦ absurd (n buf (rw same at e))
    | inr other ↦ h j buf (rw other at e)
  ]

  pub Covered-append :
      (f : ℕ → ClientState P) (i : ℕ) (buf : List (Command P)) (ms : List (Message P))
      → Covered f ms
      → Covered (update f i (ClientState.waiting buf)) (ms ++ (i, buf) ∷ [])
  Covered-append f i buf ms h j b e = elim (Bool-cases (i == j)) [
    | inl same ↦
        let e' : ClientState.waiting buf ≡ ClientState.waiting b = rw same at e in
        let buf_same : buf ≡ b = cc e' in
        let id_same : i ≡ j = ground arith in
        rw (← buf_same, ← id_same) (mem-append_right ms mem-cons_self)
    | inr other ↦ mem-append_left ((i, buf) ∷ []) (h j b (rw other at e))
  ]

  pub Covered-tail :
      (f : ℕ → ClientState P) (i : ℕ) (buf : List (Command P)) (a : ClientState P)
      (ms : List (Message P))
      → ((b : List (Command P)) → a ≢ ClientState.waiting b)
      → Covered f ((i, buf) ∷ ms)
      → Covered (update f i a) ms
  Covered-tail f i buf a ms n h j b e = elim (Bool-cases (i == j)) [
    | inl same ↦ absurd (n b (rw same at e))
    | inr other ↦
        Or.elim Mem-prop (eq-or-mem_of_mem-cons (h j b (rw other at e)))
          (λ head. absurd (ground (arith, ap (λ (m : Message P). m.0) head))) (λ tail. tail)
  ]

-- Between the clients and what is under way.
abbrev pub IsPending : {P : Type 0} {ch : Mpsc (Message P)} → System P ch → Type 0
IsPending s = Awaited s.clients (under_way s) × Covered s.clients (under_way s)
