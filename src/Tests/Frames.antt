-- ===== src/Tests/Frames.antt =====
-- Tests of src/util/mp_command_codec.rs and of the ring buffer of src/exchange.rs.
use market_sim_backend.Prelude.{
  ℕ, ◌≡◌, refl, sym, Option, some, List, [], ◌∷◌, ◌++◌, take, ok, arith,
}
use market_sim_backend.Codec.{encode, decode}
use market_sim_backend.Codec.Framing.{decode-encode}
use market_sim_backend.Codec.Stream.{decode_all, decode_all_enough, join}
use market_sim_backend.Codec.Pieces.{encode_all, decode_all-encode_all}
use market_sim_backend.RecentTransactions.{get, with_capacity}
use market_sim_backend.RecentTransactions.Ring.{push_all, get-push_all}

-- Items that are bytes already.
abbrev raw : List ℕ → Option (List ℕ)
raw bytes = some bytes

frame_run : encode raw (7 ∷ 8 ∷ 9 ∷ []) (1 ∷ []) ≡ ok (1 ∷ 0 ∷ 3 ∷ 7 ∷ 8 ∷ 9 ∷ [])
unfolding encode
frame_run = refl

decode-encode_example :
    (take {A = ℕ} 1 (1 ∷ 0 ∷ 3 ∷ 7 ∷ 8 ∷ 9 ∷ []) ≡ 1 ∷ [])
    × (decode raw (0 ∷ 3 ∷ 7 ∷ 8 ∷ 9 ∷ 5 ∷ []) ≡ (ok (some (7 ∷ 8 ∷ 9 ∷ [])), 5 ∷ []))
decode-encode_example =
    decode-encode raw raw (λ item bytes e. sym e) (7 ∷ 8 ∷ 9 ∷ []) (1 ∷ [])
      (1 ∷ 0 ∷ 3 ∷ 7 ∷ 8 ∷ 9 ∷ []) (5 ∷ []) frame_run

-- Three calls of `decode` for a frame and the first byte of the next.
decode_all_enough_example :
    decode_all raw 9 (0 ∷ 1 ∷ 7 ∷ 0 ∷ []) ≡ decode_all raw 4 (0 ∷ 1 ∷ 7 ∷ 0 ∷ [])
decode_all_enough_example =
    decode_all_enough raw 4 9 (0 ∷ 1 ∷ 7 ∷ 0 ∷ []) (omega arith) (omega arith)

-- Two frames, cut inside the second.
two_frames_run :
    encode_all raw ((7 ∷ []) ∷ (8 ∷ 9 ∷ []) ∷ []) [] ≡ ok ((0 ∷ 1 ∷ 7 ∷ 0 ∷ []) ++ 2 ∷ 8 ∷ 9 ∷ [])
unfolding encode_all encode
two_frames_run = refl

decode_all-encode_all_example :
    join raw 7 (2 ∷ 8 ∷ 9 ∷ []) (decode_all raw 4 (0 ∷ 1 ∷ 7 ∷ 0 ∷ []))
    ≡ (ok (7 ∷ []) ∷ ok (8 ∷ 9 ∷ []) ∷ [], [])
decode_all-encode_all_example =
    decode_all-encode_all raw raw (λ item bytes e. sym e) ((7 ∷ []) ∷ (8 ∷ 9 ∷ []) ∷ [])
      (0 ∷ 1 ∷ 7 ∷ 0 ∷ []) (2 ∷ 8 ∷ 9 ∷ []) two_frames_run

-- Five pushes into a buffer of three.
get-push_all_example :
    get {T = ℕ} (push_all (with_capacity 3) (1 ∷ 2 ∷ 3 ∷ 4 ∷ 5 ∷ [])) ≡ 3 ∷ 4 ∷ 5 ∷ []
get-push_all_example = get-push_all 3 (1 ∷ 2 ∷ 3 ∷ 4 ∷ 5 ∷ []) (omega arith)
