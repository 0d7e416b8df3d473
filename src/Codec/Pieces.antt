-- ===== src/Codec/Pieces.antt =====
-- `encode` and `decode` of src/util/mp_command_codec.rs on a stream of items that is cut anywhere.
use market_sim_backend.Prelude.{
  ℕ, zero, suc, ◌+◌, ◌≤◌, ◌≡◌, refl, ap, sym, ◌∙◌, Bool-cases, Option, some, Option-cases, List, [],
  ◌∷◌, ◌++◌, map, append_assoc, append-nil, false, length, length-append, take, drop,
  take-append-drop, ltb, if◌then◌else◌, Result, Result-cases, ok, err, inl, inr, arith,
}
use market_sim_backend.Codec.{CodecError, from_be_bytes, encode, decode_body, decode}
use market_sim_backend.Codec.Framing.{decode-encode}
use market_sim_backend.Codec.Stream.{
  pred, take-append_le, decode-cases, decode-shorter, decode-append, decode_all, decode_all_first,
  decode_all_last, decode_all_bad, decode_all_none, decode_all-shorter, AllOk, join,
  decode_all-append,
}

module _ {Item : Type 0} (from_slice : List ℕ → Option Item) where
  -- A frame that is not read stays one with bytes behind it.
  decode_bad-append :
      (src more : List ℕ)
      → decode from_slice src ≡ (err CodecError.invalid_data, src)
      → decode from_slice (src ++ more) ≡ (err CodecError.invalid_data, src ++ more)
  unfolding decode decode_body
  decode_bad-append [] more e = absurd (ground (arith, ap (λ z. z.0) e))
  decode_bad-append (hi ∷ []) more e = absurd (ground (arith, ap (λ z. z.0) e))
  decode_bad-append (hi ∷ lo ∷ body) more e =
      let len = from_be_bytes hi lo in
      elim (Bool-cases (ltb (length body) len)) [
        | inl short ↦
            let e' = rw (short, if◌then◌else◌) at e in absurd (ground (arith, ap (λ z. z.0) e'))
        | inr whole ↦
            let fits : len ≤ length body = ground arith in
            let whole' : ltb (length (body ++ more)) len ≡ false =
              ground (arith, length-append body more) in
            elim (Option-cases (from_slice (take len body))) [
              | inl bad ↦ rw (whole', take-append_le len body more fits, bad, if◌then◌else◌) refl
              | inr (found, good) ↦
                  let e' = rw (whole, good, if◌then◌else◌) at e in
                  absurd (ground (arith, ap (λ z. z.0) e'))
            ]
      ]

  decode_bad-length :
      (src : List ℕ) → decode from_slice src ≡ (err CodecError.invalid_data, src) → 2 ≤ length src
  unfolding decode
  decode_bad-length [] e = absurd (ground (arith, ap (λ z. z.0) e))
  decode_bad-length (hi ∷ []) e = absurd (ground (arith, ap (λ z. z.0) e))
  decode_bad-length (hi ∷ lo ∷ body) e = omega arith

  decode_all_empty : (n : ℕ) → decode_all from_slice n [] ≡ ([], [])
  unfolding decode
  decode_all_empty zero = decode_all_none from_slice []
  decode_all_empty (suc n) = decode_all_last from_slice n [] refl

  -- A piece of a stream without errors has none.
  AllOk-piece :
      (n m : ℕ) (src more : List ℕ)
      → length src ≤ n
      → length src + length more ≤ m
      → AllOk from_slice (decode_all from_slice m (src ++ more)).0
      → AllOk from_slice (decode_all from_slice n src).0
  AllOk-piece zero m src more h k all = rw (decode_all_none from_slice src) tt
  AllOk-piece (suc n) m src more h k all = elim (decode-cases from_slice src) [
    | inl e ↦ rw (decode_all_last from_slice n src e) tt
    | inr (inl (rest, item, e)) ↦
        let fewer = decode-shorter from_slice src rest item e in
        let (m', up) = pred m (omega arith) in
        let there =
          decode_all_first from_slice m' (src ++ more) (rest ++ more) item
            (decode-append from_slice src more rest item e) in
        let whole = ap (λ z. decode_all from_slice z (src ++ more)) up ∙ there in
        rw (decode_all_first from_slice n src rest item e)
          (AllOk-piece n m' rest more (omega arith) (omega arith) (rw whole at all))
    | inr (inr e) ↦
        let (m', up) = pred m (omega (arith, decode_bad-length src e)) in
        let whole =
          ap (λ z. decode_all from_slice z (src ++ more)) up
          ∙ decode_all_bad from_slice m' (src ++ more) (decode_bad-append src more e) in
        absurd (rw whole at all)
  ]

module _ {Item : Type 0} (to_vec : Item → Option (List ℕ)) where
  -- Items encoded one after the other into one buffer.
  unfoldable pub encode_all : List Item → List ℕ → Result CodecError (List ℕ)
  encode_all [] dst = ok dst
  encode_all (item ∷ items) dst = elim (encode to_vec item dst) [
    | err e ↦ err e
    | ok dst' ↦ encode_all items dst'
  ]

module _ {Item : Type 0} (to_vec : Item → Option (List ℕ)) (from_slice : List ℕ → Option Item) where
  encoded_all :
      ((item : Item) (bytes : List ℕ) → to_vec item ≡ some bytes → from_slice bytes ≡ some item)
      → (items : List Item) (dst out : List ℕ) → encode_all to_vec items dst ≡ ok out
      → (bytes : List ℕ) × (out ≡ dst ++ bytes)
        × ((n : ℕ) → length bytes ≤ n → decode_all from_slice n bytes ≡ (map (λ i. ok i) items, []))
  unfolding encode_all
  encoded_all reads [] dst out e =
      ([], cc e ∙ sym (append-nil dst), λ n h. decode_all_empty from_slice n)
  encoded_all reads (item ∷ items) dst out e = elim (Result-cases (encode to_vec item dst)) [
    | inr (z, f) ↦ let e' = rw (f, encode_all) at e in absurd (ground (arith, e'))
    | inl (next, f) ↦
        let frame = drop (length dst) next in
        let (kept, _) = decode-encode to_vec from_slice reads item dst next [] f in
        let split : next ≡ dst ++ frame =
          sym (take-append-drop (length dst) next) ∙ ap (λ z. z ++ frame) kept in
        let (bytes, same, read) = encoded_all reads items next out (rw (f, encode_all) at e) in
        let (_, first) = decode-encode to_vec from_slice reads item dst next bytes f in
        (
          frame ++ bytes,
          same ∙ ap (λ z. z ++ bytes) split ∙ append_assoc dst frame bytes,
          λ n h.
              let fewer = decode-shorter from_slice (frame ++ bytes) bytes item first in
              let (n', up) = pred n (omega arith) in
              ap (λ z. decode_all from_slice z (frame ++ bytes)) up
              ∙ decode_all_first from_slice n' (frame ++ bytes) bytes item first
              ∙ ap (λ z. (ok item ∷ z.0, z.1)) (read n' (omega arith)),
        )
  ]

  AllOk-map : (items : List Item) → AllOk from_slice (map (λ i. ok i) items)
  AllOk-map [] = tt
  AllOk-map (item ∷ items) = AllOk-map items

  -- Where MessagePack reads back what it writes: items that are encoded into one stream, which comes in two
  -- pieces, cut anywhere, are what repeated decoding gives, from the first piece and then from what that
  -- left and the second, in their order, with no byte left.
  pub decode_all-encode_all :
      ((item : Item) (bytes : List ℕ) → to_vec item ≡ some bytes → from_slice bytes ≡ some item)
      → (items : List Item) (src more : List ℕ) → encode_all to_vec items [] ≡ ok (src ++ more)
      → join from_slice (length src + length more) more (decode_all from_slice (length src) src)
        ≡ (map (λ i. ok i) items, [])
  decode_all-encode_all reads items src more e =
      let (bytes, same, read) = encoded_all reads items [] (src ++ more) e in
      let m : ℕ = length src + length more in
      let whole : decode_all from_slice m (src ++ more) ≡ (map (λ i. ok i) items, []) =
        ap (decode_all from_slice m) same
        ∙ read m (omega (arith, ap length same, length-append src more)) in
      let all : AllOk from_slice (decode_all from_slice m (src ++ more)).0 =
        rw whole (AllOk-map items) in
      let left = decode_all-shorter from_slice (length src) src in
      sym (
        decode_all-append from_slice (length src) m m src more (omega arith) (omega arith)
          (omega (arith, left))
          (AllOk-piece from_slice (length src) m src more (omega arith) (omega arith) all))
      ∙ whole
