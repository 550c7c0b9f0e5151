-- ===== src/Relay/Proto/Prefix.antt =====
-- `decode` looks at one frame: what follows it changes nothing, and a cut frame is called short.
use fluxpeer.Prelude.{
  ℕ, suc, dec_lt, ◌+◌, ◌≤◌, ◌≡◌, ap, ◌∙◌, List, [], ◌∷◌, ◌++◌, arith, length, drop, ok, err,
  length-append, length-drop, get_or-append, take-append, drop-append,
}
use mathlib.Core.List.{append-nil}
use fluxpeer.Relay.Proto.Valid.{IsFrame}
use fluxpeer.Relay.Proto.RoundTrip.{decode-encode}
use fluxpeer.Relay.Proto.Decode.{decode_inv}
use fluxpeer.Relay.Proto.{Frame, short_buffer, header_len, encode, decode, word_at}

word_at-append : (b more : List ℕ) (i : ℕ) → i + 4 ≤ length b → word_at (b ++ more) i ≡ word_at b i
word_at-append b more i h = rw (
  get_or-append b more i 0 (omega arith),
  get_or-append b more (i + 1) 0 (omega arith),
  get_or-append b more (i + 2) 0 (omega arith),
  get_or-append b more (i + 3) 0 (omega arith),
)

-- Once the frame that the header announces is there, later bytes do not change the answer.
pub decode-append :
    (buf more : List ℕ)
    → header_len ≤ length buf
    → header_len + word_at buf 1 ≤ length buf
    → decode (buf ++ more) ≡ decode buf
unfolding decode
decode-append buf more hh hb =
    let rest : List ℕ = drop header_len buf in
    rw
      (
        word_at-append buf more 1 (omega arith),
        get_or-append buf more 0 0 (omega arith),
        drop-append header_len buf more (omega arith),
        take-append (word_at buf 1) rest more (omega (arith, length-drop header_len buf)),
      )
      (ground (arith, length-append buf more))

-- Every proper prefix of an encoding is answered with `ShortBuffer`, never with a frame.
pub decode_truncated :
    (f : Frame) (front back : List ℕ) (x : ℕ)
    → IsFrame f
    → encode f ≡ front ++ (x ∷ back)
    → (need : ℕ) × (decode front ≡ err (short_buffer need (length front)))
unfolding decode
decode_truncated f front back x h e =
    let whole : decode (encode f) ≡ ok (f, length (encode f)) =
      rw append-nil at (decode-encode f [] h) in
    let (size, _, small, _) = decode_inv (encode f) whole in
    let longer : length (encode f) ≡ length front + suc (length back) =
      ap length e ∙ length-append front (x ∷ back) in
    elim (dec_lt (length front) header_len) [
      | yes p ↦ (header_len, ground arith)
      | no p ↦
          let same : word_at (encode f) 1 ≡ word_at front 1 =
            ap (λ b. word_at b 1) e ∙ word_at-append front (x ∷ back) 1 (omega arith) in
          (header_len + word_at front 1, ground arith)
    ]
