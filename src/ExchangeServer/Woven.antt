-- ===== src/ExchangeServer/Woven.antt =====
-- The messages of one client of src/bin/exchange_server.rs among those of others, in a run of the exchange.
use market_sim_backend.Prelude.{
  ℕ, suc, ◌≡◌, refl, ap, sym, ◌∙◌, none, some, Option-cases, List, [], ◌∷◌, ◌++◌, length, drop,
  drop-append, inl, inr,
}
use market_sim_backend.Fixed.{Fixed}
use market_sim_backend.Exchange.State.{Exchange}
use market_sim_backend.Exchange.Settle.{◌>>=◌, >>=-eq-some}
use market_sim_backend.Exchange.Commands.{Command, CommandResult, run_buffer, run_messages}

module _ {P : Type 0} where
  -- The messages of this client, from the n-th on, each behind those of others.
  abbrev pub weave :
      (ℕ → List (List (Command P))) → ℕ → List (List (Command P)) → List (List (Command P))
  weave others n [] = []
  weave others n (m ∷ ms) = others n ++ m ∷ weave others (suc n) ms

  -- The replies to this client, of the replies to all.
  abbrev pub own :
      (ℕ → List (List (Command P)))
      → ℕ
      → List (List (Command P))
      → List (List (CommandResult P))
      → List (List (CommandResult P))
  own others n [] all = []
  own others n (m ∷ ms) all = elim (drop (length (others n)) all) [
    | [] ↦ []
    | r ∷ rest ↦ r ∷ own others (suc n) ms rest
  ]

module _ {P : Type 0} ⦃fx : Fixed P⦄ (clock : ℕ → ℕ) where
  run_messages-length :
      (ms : List (List (Command P))) (x : Exchange P)
      (done : List (List (CommandResult P)) × Exchange P)
      → run_messages clock ms x ≡ some done
      → length done.0 ≡ length ms
  unfolding run_messages
  run_messages-length [] x done e = let same : [] ≡ done.0 = cc e in sym (ap length same)
  run_messages-length (m ∷ ms) x done e =
      let (first, e1, f) = >>=-eq-some (run_buffer clock m x) _ e in
      let (rest, e2, g) = >>=-eq-some (run_messages clock ms first.1) _ f in
      let same : first.0 ∷ rest.0 ≡ done.0 = cc g in
      sym (ap length same) ∙ ap suc (run_messages-length ms first.1 rest e2)

  run_messages-compose :
      (ms ns : List (List (Command P))) (x : Exchange P)
      → run_messages clock (ms ++ ns) x ≡ (
          run_messages clock ms x >>= λ a.
          run_messages clock ns a.1 >>= λ b. some (a.0 ++ b.0, b.1))
  unfolding run_messages
  run_messages-compose [] ns x = elim (Option-cases (run_messages clock ns x)) [
    | inl e ↦ rw (e, ◌>>=◌) refl
    | inr (b, e) ↦ rw (e, ◌>>=◌) refl
  ]
  run_messages-compose (m ∷ ms) ns x = elim (Option-cases (run_buffer clock m x)) [
    | inl e ↦ rw (e, ◌>>=◌) refl
    | inr (r, e) ↦ elim (Option-cases (run_messages clock ms r.1)) [
      | inl f ↦ rw (e, ◌>>=◌) (rw (run_messages-compose ms ns r.1, f) refl)
      | inr (a, f) ↦ elim (Option-cases (run_messages clock ns a.1)) [
        | inl g ↦ rw (e, ◌>>=◌) (rw (run_messages-compose ms ns r.1, f, ◌>>=◌) (rw (g) refl))
        | inr (b, g) ↦ rw (e, ◌>>=◌) (rw (run_messages-compose ms ns r.1, f, ◌>>=◌) (rw (g) refl))
      ]
    ]
  ]

  -- One more message of this client, with those of others before it.
  pub woven_none :
      (others bs : List (List (Command P))) (m : List (Command P)) (x y z : Exchange P)
      (before : List (List (CommandResult P))) (r : List (CommandResult P))
      → run_messages clock others x ≡ some (before, y)
      → run_buffer clock m y ≡ some (r, z)
      → run_messages clock bs z ≡ none
      → run_messages clock (others ++ m ∷ bs) x ≡ none
  unfolding run_messages
  woven_none others bs m x y z before r e f g =
      run_messages-compose others (m ∷ bs) x ∙ rw (e, ◌>>=◌) (rw (f, ◌>>=◌) (rw g refl))

  pub woven_some :
      (others bs : List (List (Command P))) (m : List (Command P)) (x y z z' : Exchange P)
      (before after : List (List (CommandResult P))) (r : List (CommandResult P))
      → run_messages clock others x ≡ some (before, y)
      → run_buffer clock m y ≡ some (r, z)
      → run_messages clock bs z ≡ some (after, z')
      → run_messages clock (others ++ m ∷ bs) x ≡ some (before ++ r ∷ after, z')
  unfolding run_messages
  woven_some others bs m x y z z' before after r e f g =
      run_messages-compose others (m ∷ bs) x ∙ rw (e, ◌>>=◌) (rw (f, ◌>>=◌) (rw g refl))

  pub others_panic :
      (others bs : List (List (Command P))) (x : Exchange P)
      → run_messages clock others x ≡ none
      → run_messages clock (others ++ bs) x ≡ none
  others_panic others bs x e = run_messages-compose others bs x ∙ rw e refl

  pub own_panic :
      (others bs : List (List (Command P))) (m : List (Command P)) (x y : Exchange P)
      (before : List (List (CommandResult P)))
      → run_messages clock others x ≡ some (before, y)
      → run_buffer clock m y ≡ none
      → run_messages clock (others ++ m ∷ bs) x ≡ none
  unfolding run_messages
  own_panic others bs m x y before e f =
      run_messages-compose others (m ∷ bs) x ∙ rw (e, ◌>>=◌) (rw f refl)

  pub own_woven :
      (others : ℕ → List (List (Command P))) (n : ℕ) (m : List (Command P))
      (ms : List (List (Command P))) (x y : Exchange P)
      (before after : List (List (CommandResult P))) (r : List (CommandResult P))
      → run_messages clock (others n) x ≡ some (before, y)
      → own others n (m ∷ ms) (before ++ r ∷ after) ≡ r ∷ own others (suc n) ms after
  own_woven others n m ms x y before after r e =
      let there : drop (length (others n)) (before ++ r ∷ after) ≡ r ∷ after =
        ap (λ k. drop k (before ++ r ∷ after))
          (sym (run_messages-length (others n) x (before, y) e))
        ∙ drop-append before (r ∷ after) in
      rw (there, own) refl
