-- ===== src/Codec/Framing.antt =====
-- `encode` and `decode` of src/util/mp_command_codec.rs together: lemmas on frames, whole and in part.
use market_sim_backend.Prelude.{
  ℕ, ◌+◌, ◌/◌, ◌%◌, ◌<◌, ◌≡◌, refl, ap, Bool-cases, Option, none, some, List, ◌++◌, append_assoc,
  true, false, length, length-append, take, drop, take-append, length-take, zero, suc, drop-append,
  ltb, ok, inl, inr, arith, Option-cases,
}
use market_sim_backend.Codec.{to_be_bytes, from_be_bytes, encode, decode_body, decode}

be_bytes_inverse : (n : ℕ) → from_be_bytes (n / 256) (n % 256) ≡ n
be_bytes_inverse n = omega arith

module _ {Item : Type 0} (to_vec : Item → Option (List ℕ)) (from_slice : List ℕ → Option Item) where
  decode_body_whole :
      (item : Item) (bytes rest src : List ℕ) (len : ℕ)
      → len ≡ length bytes
      → from_slice bytes ≡ some item
      → decode_body from_slice len (bytes ++ rest) src ≡ (ok (some item), rest)
  unfolding decode_body
  decode_body_whole item bytes rest src len e h =
      let enough : ltb (length (bytes ++ rest)) (length bytes) ≡ false =
        ground (arith, length-append bytes rest) in
      rw (e, enough, take-append bytes rest, h, e, drop-append bytes rest) refl

  decode_body_short :
      (bytes src : List ℕ) (len n : ℕ)
      → len ≡ length bytes
      → n < length bytes
      → decode_body from_slice len (take n bytes) src ≡ (ok none, src)
  unfolding decode_body
  decode_body_short bytes src len n e h =
      let short : ltb (length (take n bytes)) (length bytes) ≡ true =
        ground (arith, length-take n bytes) in
      rw (e, short) refl

  abbrev frame_of : List ℕ → List ℕ
  frame_of bytes = to_be_bytes (length bytes) ++ bytes

  -- An encoding that succeeds has appended the frame of the item's bytes.
  encode_frame :
      (item : Item) (dst out : List ℕ)
      → encode to_vec item dst ≡ ok out
      → (bytes : List ℕ) × (to_vec item ≡ some bytes) × (out ≡ dst ++ frame_of bytes)
  unfolding encode
  encode_frame item dst out e = elim (Option-cases (to_vec item)) [
    | inl bad ↦ absurd (ground arith)
    | inr (bytes, good) ↦ elim (Bool-cases (ltb 65535 (length bytes))) [
      | inl long ↦ absurd (ground arith)
      | inr fits ↦
          (bytes, good, ground (arith, append_assoc dst (to_be_bytes (length bytes)) bytes))
    ]
  ]

  -- Where MessagePack reads back what it writes: an encoding leaves what the buffer held, and what it
  -- has appended decodes, with any bytes behind it, to the item, leaving just those bytes.
  pub decode-encode :
      ((item : Item) (bytes : List ℕ) → to_vec item ≡ some bytes → from_slice bytes ≡ some item)
      → (item : Item) (dst out rest : List ℕ) → encode to_vec item dst ≡ ok out
      → (take (length dst) out ≡ dst)
        × (decode from_slice (drop (length dst) out ++ rest) ≡ (ok (some item), rest))
  unfolding decode
  decode-encode reads item dst out rest e =
      let (bytes, good, same) = encode_frame item dst out e in
      rw (same, take-append dst (frame_of bytes), drop-append dst (frame_of bytes))
        (
          refl,
          decode_body_whole item bytes rest _ _ (be_bytes_inverse (length bytes))
              (reads item bytes good),
        )

  decode_missing :
      (bytes : List ℕ) (n : ℕ)
      → n < length (frame_of bytes)
      → decode from_slice (take n (frame_of bytes)) ≡ (ok none, take n (frame_of bytes))
  unfolding decode
  decode_missing bytes zero h = refl
  decode_missing bytes (suc zero) h = refl
  decode_missing bytes (suc (suc n)) h =
      decode_body_short bytes _ _ n (be_bytes_inverse (length bytes)) (omega arith)

  -- While bytes of the frame that an encoding has appended are missing, `decode` asks for more and
  -- takes nothing.
  pub decode_partial :
      (item : Item) (dst out : List ℕ) (n : ℕ)
      → encode to_vec item dst ≡ ok out
      → length dst + n < length out
      → decode from_slice (take n (drop (length dst) out))
        ≡ (ok none, take n (drop (length dst) out))
  decode_partial item dst out n e h =
      let (bytes, good, same) = encode_frame item dst out e in
      rw (same, drop-append dst (frame_of bytes))
        (decode_missing bytes n (omega (arith, ap length same, length-append dst (frame_of bytes))))
