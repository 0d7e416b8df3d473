-- ===== src/Codec/Stream.antt =====
-- `decode` of src/util/mp_command_codec.rs called again and again, as the reader of a stream calls it, on
-- bytes that come in pieces.
use market_sim_backend.Prelude.{
  ℕ, zero, suc, ◌+◌, ◌≤◌, ◌<◌, ◌≡◌, refl, ap, sym, ◌∙◌, Bool-cases, Option, none, some,
  Option-cases, List, [], ◌∷◌, ◌++◌, false, length, length-append, length-drop, take, drop, ltb,
  if◌then◌else◌, Result, ok, err, ◌⊎◌, inl, inr, arith,
}
use market_sim_backend.Codec.{CodecError, from_be_bytes, decode_body, decode}

pub pred : (m : ℕ) → 0 < m → (n : ℕ) × (m ≡ suc n)
pred zero h = absurd (omega arith)
pred (suc n) h = (n, refl)

module _ {ℓ} {A : Type ℓ} where
  pub take-append_le : (n : ℕ) (xs ys : List A) → n ≤ length xs → take n (xs ++ ys) ≡ take n xs
  take-append_le zero xs ys h = refl
  take-append_le (suc n) [] ys h = absurd (omega arith)
  take-append_le (suc n) (x ∷ xs) ys h = ap (λ l. x ∷ l) (take-append_le n xs ys (omega arith))

  drop-append_le : (n : ℕ) (xs ys : List A) → n ≤ length xs → drop n (xs ++ ys) ≡ drop n xs ++ ys
  drop-append_le zero xs ys h = refl
  drop-append_le (suc n) [] ys h = absurd (omega arith)
  drop-append_le (suc n) (x ∷ xs) ys h = drop-append_le n xs ys (omega arith)

module _ {Item : Type 0} (from_slice : List ℕ → Option Item) where
  -- The three answers of `decode`.
  pub decode-cases :
      (src : List ℕ)
      → ((decode from_slice src) ≡ (ok none, src))
        ⊎ (((rest : List ℕ) × (item : Item) × (decode from_slice src ≡ (ok (some item), rest)))
            ⊎ (decode from_slice src ≡ (err CodecError.invalid_data, src)))
  unfolding decode decode_body
  decode-cases [] = inl refl
  decode-cases (hi ∷ []) = inl refl
  decode-cases (hi ∷ lo ∷ body) =
      let len = from_be_bytes hi lo in
      elim (Bool-cases (ltb (length body) len)) [
        | inl short ↦ inl (rw (short, if◌then◌else◌) refl)
        | inr whole ↦ elim (Option-cases (from_slice (take len body))) [
          | inl bad ↦ inr (inr (rw (whole, if◌then◌else◌) (rw bad refl)))
          | inr (item, good) ↦
              inr (inl (drop len body, item, rw (whole, if◌then◌else◌) (rw good refl)))
        ]
      ]

  -- A frame that is decoded: its length, and what is behind it.
  IsFrame : List ℕ → List ℕ → Item → Type 0
  IsFrame src rest item =
      (hi : ℕ) × (lo : ℕ) × (body : List ℕ) × (src ≡ hi ∷ lo ∷ body)
      × (from_be_bytes hi lo ≤ length body)
      × (from_slice (take (from_be_bytes hi lo) body) ≡ some item)
      × (drop (from_be_bytes hi lo) body ≡ rest)

  decode-IsFrame :
      (src rest : List ℕ) (item : Item)
      → decode from_slice src ≡ (ok (some item), rest)
      → IsFrame src rest item
  unfolding decode decode_body IsFrame
  decode-IsFrame [] rest item e = absurd (ground (arith, ap (λ z. z.0) e))
  decode-IsFrame (hi ∷ []) rest item e = absurd (ground (arith, ap (λ z. z.0) e))
  decode-IsFrame (hi ∷ lo ∷ body) rest item e =
      let len = from_be_bytes hi lo in
      elim (Bool-cases (ltb (length body) len)) [
        | inl short ↦
            let e' = rw (short, if◌then◌else◌) at e in absurd (ground (arith, ap (λ z. z.0) e'))
        | inr whole ↦
            let fits : len ≤ length body = ground arith in
            elim (Option-cases (from_slice (take len body))) [
              | inl bad ↦
                  let e' = rw (whole, bad, if◌then◌else◌) at e in
                  absurd (ground (arith, ap (λ z. z.0) e'))
              | inr (found, good) ↦
                  let e' : (ok (some found), drop len body) ≡ (ok (some item), rest) =
                    rw (whole, good, if◌then◌else◌) at e in
                  let same : found ≡ item = cc (ap (λ z. z.0) e') in
                  (hi, lo, body, refl, fits, good ∙ ap some same, ap (λ z. z.1) e')
            ]
      ]

  -- An item that is decoded has taken the two bytes of its length, at the least.
  pub decode-shorter :
      (src rest : List ℕ) (item : Item)
      → decode from_slice src ≡ (ok (some item), rest)
      → length rest + 2 ≤ length src
  unfolding IsFrame
  decode-shorter src rest item e =
      let (hi, lo, body, same, fits, good, left) = decode-IsFrame src rest item e in
      omega (arith, ap length same, ap length left, length-drop (from_be_bytes hi lo) body)

  -- Bytes behind a whole frame stay behind it.
  pub decode-append :
      (src more rest : List ℕ) (item : Item)
      → decode from_slice src ≡ (ok (some item), rest)
      → decode from_slice (src ++ more) ≡ (ok (some item), rest ++ more)
  unfolding IsFrame decode decode_body
  decode-append src more rest item e =
      let (hi, lo, body, same, fits, good, left) = decode-IsFrame src rest item e in
      let len = from_be_bytes hi lo in
      let whole : ltb (length (body ++ more)) len ≡ false =
        ground (arith, length-append body more) in
      ap (λ l. decode from_slice (l ++ more)) same
      ∙ rw (whole, take-append_le len body more fits, good, drop-append_le len body more fits, left)
          refl

  -- One answer of `decode`, and what the calls after it give.
  abbrev after :
      Result CodecError (Option Item) × List ℕ
      → List (Result CodecError Item) × List ℕ
      → List (Result CodecError Item) × List ℕ
  after (ok none, rest) later = ([], rest)
  after (ok (some item), rest) later = (ok item ∷ later.0, later.1)
  after (err e, rest) later = (err e ∷ [], rest)

  -- The items that a buffer gives, up to the first error, and what stays in it.
  unfoldable pub decode_all : ℕ → List ℕ → List (Result CodecError Item) × List ℕ
  decode_all zero src = ([], src)
  decode_all (suc n) src = let first = decode from_slice src in after first (decode_all n first.1)

  -- The first of the items.
  pub decode_all_first :
      (n : ℕ) (src rest : List ℕ) (item : Item)
      → decode from_slice src ≡ (ok (some item), rest)
      → decode_all (suc n) src ≡ (ok item ∷ (decode_all n rest).0, (decode_all n rest).1)
  unfolding decode_all
  decode_all_first n src rest item e = ap (λ d. after d (decode_all n d.1)) e

  pub decode_all_last :
      (n : ℕ) (src : List ℕ)
      → decode from_slice src ≡ (ok none, src)
      → decode_all (suc n) src ≡ ([], src)
  unfolding decode_all
  decode_all_last n src e = ap (λ d. after d (decode_all n d.1)) e

  pub decode_all_bad :
      (n : ℕ) (src : List ℕ)
      → decode from_slice src ≡ (err CodecError.invalid_data, src)
      → decode_all (suc n) src ≡ (err CodecError.invalid_data ∷ [], src)
  unfolding decode_all
  decode_all_bad n src e = ap (λ d. after d (decode_all n d.1)) e

  pub decode_all_none : (src : List ℕ) → decode_all 0 src ≡ ([], src)
  unfolding decode_all
  decode_all_none src = refl

  pub decode_all-shorter : (n : ℕ) (src : List ℕ) → length (decode_all n src).1 ≤ length src
  decode_all-shorter zero src = rw (decode_all_none src) (omega arith)
  decode_all-shorter (suc n) src = elim (decode-cases src) [
    | inl e ↦ rw (decode_all_last n src e) (omega arith)
    | inr (inl (rest, item, e)) ↦
        rw (decode_all_first n src rest item e)
          (omega (arith, decode-shorter src rest item e, decode_all-shorter n rest))
    | inr (inr e) ↦ rw (decode_all_bad n src e) (omega arith)
  ]

  -- As many calls as there are bytes are enough: more calls of `decode` give nothing more.
  pub decode_all_enough :
      (n m : ℕ) (src : List ℕ) → length src ≤ n → n ≤ m → decode_all m src ≡ decode_all n src
  unfolding decode_all decode
  decode_all_enough zero zero src h k = refl
  decode_all_enough zero (suc m) [] h k = refl
  decode_all_enough zero (suc m) (b ∷ bs) h k = absurd (omega arith)
  decode_all_enough (suc n) zero src h k = absurd (omega arith)
  decode_all_enough (suc n) (suc m) src h k = elim (decode-cases src) [
    | inl e ↦ decode_all_last m src e ∙ sym (decode_all_last n src e)
    | inr (inl (rest, item, e)) ↦
        let fewer = decode-shorter src rest item e in
        let ih = decode_all_enough n m rest (omega arith) (omega arith) in
        decode_all_first m src rest item e
        ∙ ap (λ z. (ok item ∷ z.0, z.1)) ih
        ∙ sym (decode_all_first n src rest item e)
    | inr (inr e) ↦ decode_all_bad m src e ∙ sym (decode_all_bad n src e)
  ]

  decode_all_any :
      (n m : ℕ) (src : List ℕ)
      → length src ≤ n
      → length src ≤ m
      → decode_all n src ≡ decode_all m src
  decode_all_any n m src h k =
      decode_all_enough (length src) n src (omega arith) h
      ∙ sym (decode_all_enough (length src) m src (omega arith) k)

  -- No item is an error.
  abbrev pub AllOk : List (Result CodecError Item) → Type 0
  AllOk [] = Unit
  AllOk (ok item ∷ rs) = AllOk rs
  AllOk (err e ∷ rs) = ⊥

  -- What a second piece adds to what a first one gave.
  abbrev pub join :
      ℕ → List ℕ → List (Result CodecError Item) × List ℕ → List (Result CodecError Item) × List ℕ
  join k more (items, left) =
      let (items', left') = decode_all k (left ++ more) in (items ++ items', left')

  pub decode_all-append :
      (n m k : ℕ) (src more : List ℕ)
      → length src ≤ n
      → length src + length more ≤ m
      → length (decode_all n src).1 + length more ≤ k
      → AllOk (decode_all n src).0
      → decode_all m (src ++ more) ≡ join k more (decode_all n src)
  decode_all-append zero m k [] more h f g all =
      let k_enough : length more ≤ k =
        omega (arith, g, ap (λ z. length z.1) (decode_all_none [])) in
      decode_all_any m k more (omega arith) k_enough ∙ sym (ap (join k more) (decode_all_none []))
  decode_all-append zero m k (b ∷ bs) more h f g all = absurd (omega arith)
  decode_all-append (suc n) m k src more h f g all = elim (decode-cases src) [
    | inl e ↦
        let here = decode_all_last n src e in
        let g' : length src + length more ≤ k = rw here at g in
        decode_all_any m k (src ++ more) (omega (arith, length-append src more))
          (omega (arith, length-append src more))
        ∙ sym (ap (join k more) here)
    | inr (inr e) ↦ absurd (rw (decode_all_bad n src e) at all)
    | inr (inl (rest, item, e)) ↦
        let fewer = decode-shorter src rest item e in
        let here = decode_all_first n src rest item e in
        let (m', up) = pred m (omega arith) in
        let ih =
          decode_all-append n m' k rest more (omega arith) (omega arith) (rw here at g)
            (rw here at all) in
        ap (λ z. decode_all z (src ++ more)) up
        ∙ decode_all_first m' (src ++ more) (rest ++ more) item (decode-append src more rest item e)
        ∙ ap (λ z. (ok item ∷ z.0, z.1)) ih
        ∙ sym (ap (join k more) here)
  ]
