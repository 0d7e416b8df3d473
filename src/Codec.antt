-- ===== src/Codec.antt =====
-- src/util/mp_command_codec.rs: the frames of the TCP stream. MessagePack (`rmp_serde`) is not part of
-- the repository: `to_vec` and `from_slice` are parameters, `none` being their error.
pub mod Framing
pub mod Stream
pub mod Pieces
use market_sim_backend.Prelude.{
  ℕ, ◌+◌, ◌*◌, ◌/◌, ◌%◌, Option, none, some, List, [], ◌∷◌, ◌++◌, length, take, drop, ltb,
  if◌then◌else◌, Result, ok, err,
}

-- `InvalidData` errors, by their cause.
pub data CodecError : Type 0 where
  invalid_data message_too_long : CodecError

-- `u16::to_be_bytes` and `u16::from_be_bytes`
abbrev pub to_be_bytes : ℕ → List ℕ
to_be_bytes n = (n / 256) ∷ (n % 256) ∷ []

abbrev pub from_be_bytes : ℕ → ℕ → ℕ
from_be_bytes hi lo = hi * 256 + lo

module _ {Item : Type 0} where
  -- The frame is appended to what `dst` holds; an error leaves `dst` alone.
  unfoldable pub encode :
      (to_vec : Item → Option (List ℕ)) → Item → List ℕ → Result CodecError (List ℕ)
  encode to_vec item dst = elim (to_vec item) [
    | none ↦ err CodecError.invalid_data
    | some mp_encoded ↦
        if ltb 65535 (length mp_encoded)
        then err CodecError.message_too_long
        else ok ((dst ++ to_be_bytes (length mp_encoded)) ++ mp_encoded)
  ]

  -- The body of a frame of known length: what is parsed, and what stays in the buffer.
  unfoldable pub decode_body :
      (from_slice : List ℕ → Option Item)
      → ℕ
      → List ℕ
      → List ℕ
      → Result CodecError (Option Item) × List ℕ
  decode_body from_slice len body src =
      if ltb (length body) len then (ok none, src) else elim (from_slice (take len body)) [
        | none ↦ (err CodecError.invalid_data, src)
        | some item ↦ (ok (some item), drop len body)
      ]

  -- `ok none` asks for more bytes.
  unfoldable pub decode :
      (from_slice : List ℕ → Option Item) → List ℕ → Result CodecError (Option Item) × List ℕ
  decode from_slice [] = (ok none, [])
  decode from_slice (hi ∷ []) = (ok none, hi ∷ [])
  decode from_slice (hi ∷ lo ∷ body) =
      decode_body from_slice (from_be_bytes hi lo) body (hi ∷ lo ∷ body)
