-- ===== src/Transport/Codec/Stream.antt =====
-- A stream of frames, read as it arrives.
use fluxpeer.Prelude.{
  ℕ, zero, suc, ◌+◌, ◌%◌, ◌^◌, ◌<◌, ◌≤◌, ◌≡◌, refl, sym, ap, ◌∙◌, List, [], ◌∷◌, ◌++◌, none, some,
  arith, All, ltb, leb, length, take, drop, Result, ok, ◌>>=◌, length-append, take-append_of,
  drop-append_of, get_or-append, Bool-cases, inl, inr, true, false,
}
use mathlib.Core.List.{append_assoc, append-nil}
use fluxpeer.Prelude.Bytes.{to_be_bytes32, from_be_bytes32-to_be}
use fluxpeer.Transport.Codec.{Error, max_frame_size, encode, announced, decode}

-- The bytes of one frame.
abbrev pub framed : List ℕ → List ℕ
framed item = to_be_bytes32 (length item % 2 ^ 32) ++ item

pub encode-framed :
    (item dst : List ℕ) → length item ≤ max_frame_size → encode item dst ≡ ok (dst ++ framed item)
unfolding encode
encode-framed item dst h = ground arith

announced-framed :
    (item rest : List ℕ)
    → length item ≤ max_frame_size
    → announced (framed item ++ rest) ≡ length item
unfolding to_be_bytes32
announced-framed item rest h = from_be_bytes32-to_be (length item % 2 ^ 32) ∙ omega arith

length-framed : (item : List ℕ) → length (framed item) ≡ 4 + length item
unfolding to_be_bytes32
length-framed item = omega arith

drop-framed : (item rest : List ℕ) → drop (4 + length item) (framed item ++ rest) ≡ rest
drop-framed item rest = drop-append_of (4 + length item) (framed item) rest (length-framed item)

take-framed : (item rest : List ℕ) → take (length item) (drop 4 (framed item ++ rest)) ≡ item
unfolding to_be_bytes32
take-framed item rest = take-append_of (length item) item rest refl

-- A frame is read from the front of the buffer when it is there with a byte of its own or of the
-- next frame.
pub decode-framed :
    (item rest : List ℕ)
    → length item ≤ max_frame_size
    → 1 ≤ length item + length rest
    → decode (framed item ++ rest) ≡ ok (some item, rest)
unfolding decode
decode-framed item rest h more =
    let size = length-append (framed item) rest in
    let some_bytes : leb (length (framed item ++ rest)) 4 ≡ false =
      ground (arith, length-framed item) in
    let fits : ltb max_frame_size (length item) ≡ false = ground arith in
    let whole : ltb (length (framed item ++ rest)) (4 + length item) ≡ false =
      ground (arith, length-framed item) in
    rw
      (
        announced-framed item rest h,
        some_bytes,
        fits,
        whole,
        take-framed item rest,
        drop-framed item rest,
      )
      refl

announced-append :
    (front more : List ℕ) → 4 ≤ length front → announced (front ++ more) ≡ announced front
announced-append front more h = rw (
  get_or-append front more 0 0 (omega arith),
  get_or-append front more 1 0 (omega arith),
  get_or-append front more 2 0 (omega arith),
  get_or-append front more 3 0 (omega arith),
)

-- A frame that is cut short is not read, and the buffer stays as it is for the bytes to come.
pub decode_partial :
    (item front back : List ℕ) (x : ℕ)
    → length item ≤ max_frame_size
    → framed item ≡ front ++ (x ∷ back)
    → decode front ≡ ok (none, front)
unfolding decode
decode_partial item front back x h e = elim (Bool-cases (leb (length front) 4)) [
  | inl short ↦ rw short refl
  | inr long ↦
      let same : announced front ≡ length item =
        sym (announced-append front (x ∷ back) (ground arith))
        ∙ ap announced (sym e ∙ sym (append-nil (framed item)))
        ∙ announced-framed item [] h in
      let size : 4 + length item ≡ length front + suc (length back) =
        sym (length-framed item) ∙ ap length e ∙ length-append front (x ∷ back) in
      let fits : ltb max_frame_size (length item) ≡ false = ground arith in
      let cut : ltb (length front) (4 + length item) ≡ true = ground arith in
      rw (long, same, fits, cut) refl
]

-- The bytes of a run of frames.
unfoldable pub framed_all : List (List ℕ) → List ℕ
framed_all [] = []
framed_all (item ∷ items) = framed item ++ framed_all items

-- What a reader takes out of a buffer, until no frame is there or one is refused. A frame has four
-- bytes at least, so that as many rounds as there are bytes are enough.
unfoldable pub read_all : ℕ → List ℕ → Result (List (List ℕ) × List ℕ) Error
read_all zero src = ok ([], src)
read_all (suc fuel) src = do
  (frame, rest) ← decode src
  elim frame [
    | none ↦ ok ([], rest)
    | some item ↦ (do (items, left) ← read_all fuel rest; ok (item ∷ items, left))
  ]

-- A frame that can be written and has a byte.
abbrev pub IsFrame : List ℕ → Type 0
IsFrame item = (1 ≤ length item) × (length item ≤ max_frame_size)

-- Any run of frames that are not empty comes out of the stream in order, with what follows it left
-- in the buffer where this is not a whole frame.
pub read_all-framed :
    (items : List (List ℕ)) (rest : List ℕ) (fuel : ℕ)
    → All IsFrame items
    → decode rest ≡ ok (none, rest)
    → length items < fuel
    → read_all fuel (framed_all items ++ rest) ≡ ok (items, rest)
unfolding read_all framed_all
read_all-framed items rest zero h e f = absurd (omega arith)
read_all-framed [] rest (suc fuel) h e f = rw e refl
read_all-framed (item ∷ items) rest (suc fuel) h e f =
    rw
      (
        append_assoc (framed item) (framed_all items) rest,
        decode-framed item (framed_all items ++ rest) h.0.1 (omega arith),
        read_all-framed items rest fuel h.1 e (omega arith),
      )
      refl
