-- ===== src/Transport/Codec.antt =====
-- engine/transport/fp-transport-tcp/src/codec.rs: frames with a length of four bytes on a TCP
-- stream. A buffer is the list of the bytes that it holds; its capacity is not modelled.
pub mod Stream
mod Tests
use fluxpeer.Prelude.{
  ℕ, ◌+◌, ◌*◌, ◌%◌, ◌^◌, List, ◌++◌, Option, none, some, ltb, leb, if◌then◌else◌, length, take,
  drop, get_or, Result, ok, err,
}
use fluxpeer.Prelude.Bytes.{to_be_bytes32, from_be_bytes32}
use fluxpeer.Prelude.Text.{Text, codes, decimal}

-- The one error of `fp_transport::Error` that the codec makes.
pub data Error : Type 0 where
  unexpected_result : Text → Error

abbrev pub length_size : ℕ
length_size = 4

abbrev pub max_frame_size : ℕ
max_frame_size = 16 * 1024 * 1024

abbrev pub too_large : ℕ → Error
too_large n =
    unexpected_result
      (codes "frame size " ++ (decimal n ++ (codes " exceeds maximum " ++ decimal max_frame_size)))

-- Both encoders: what is put into `dst`. `item.len() as u32` keeps the low 32 bits.
unfoldable pub encode : List ℕ → List ℕ → Result (List ℕ) Error
encode item dst =
    if ltb max_frame_size (length item)
    then err (too_large (length item))
    else ok (dst ++ (to_be_bytes32 (length item % 2 ^ 32) ++ item))

-- The length that the buffer starts with.
abbrev pub announced : List ℕ → ℕ
announced src = from_be_bytes32 (get_or src 0 0) (get_or src 1 0) (get_or src 2 0) (get_or src 3 0)

-- The frame, if it is there, and what the buffer holds after.
unfoldable pub decode : List ℕ → Result (Option (List ℕ) × List ℕ) Error
decode src =
    if leb (length src) 4
    then ok (none, src)
    else if ltb max_frame_size (announced src)
    then err (too_large (announced src))
    else if ltb (length src) (4 + announced src)
    then ok (none, src)
    else ok (some (take (announced src) (drop 4 src)), drop (4 + announced src) src)
