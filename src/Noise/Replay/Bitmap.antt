-- ===== src/Noise/Replay/Bitmap.antt =====
-- The four bit operations of the window, as laws of the tests that follow them.
use Prim.Native.Nat.{bit_and, bit_or}
use mathlib.Core.Path.{subst}
use fluxpeer.Prelude.{
  ℕ, ◌-◌, ◌/◌, ◌%◌, ◌^◌, ◌<◌, ◌≡◌, ap, ◌∙◌, true, false, ◌==◌, if◌then◌else◌, arith, ℕ_discrete,
  length, get_or, replicate, set, List, length-set, get_or-set_self, get_or-set_ne,
  get_or-replicate,
}
use fluxpeer.Prelude.Bits.{bit, bit-zero, shr-bit, bit-set, bit-clear}
use fluxpeer.Noise.Replay.{
  Validator, n_words, n_bits, word_size, set_bit, clear_bit, clear_word, check_bit,
}

-- A test reads one bit of one word.
check_bit-bit :
    (v : Validator) (j : ℕ)
    → check_bit v j
      ≡ (bit (get_or v.bitmap (j % n_bits / word_size) 0) (j % n_bits % word_size) == 1)
unfolding check_bit
check_bit-bit v j =
    ap (λ b. b == 1) (shr-bit (get_or v.bitmap (j % n_bits / word_size) 0) (j % n_bits % word_size))

-- What bit `b'` of word `w'` is once the word `w` is written.
write_lem :
    (bm : List ℕ) (w w' x : ℕ)
    → w < length bm
    → get_or (set bm w x) w' 0 ≡ (if w == w' then x else get_or bm w' 0)
write_lem bm w w' x h = elim (ℕ_discrete w w') [
  | yes p ↦
      subst (λ k. get_or (set bm w x) k 0 ≡ (if w == k then x else get_or bm k 0)) p
        (get_or-set_self bm w x 0 h ∙ ground arith)
  | no p ↦ get_or-set_ne bm w w' x 0 p ∙ ground arith
]

module _ (v : Validator) (full : length v.bitmap ≡ n_words) (i j : ℕ) where
  pub check_bit-set_bit :
      check_bit (set_bit v i) j ≡ (if i % n_bits == j % n_bits then true else check_bit v j)
  unfolding set_bit
  check_bit-set_bit =
      let w : ℕ = i % n_bits / word_size in
      let w' : ℕ = j % n_bits / word_size in
      let b : ℕ = i % n_bits % word_size in
      let b' : ℕ = j % n_bits % word_size in
      let old : ℕ = get_or v.bitmap w 0 in
      rw
        (
          check_bit-bit (set_bit v i) j,
          check_bit-bit v j,
          write_lem v.bitmap w w' (bit_or old (2 ^ b)) (omega arith),
        )
        (ground (arith, bit-set old b b'))

  pub check_bit-clear_bit :
      check_bit (clear_bit v i) j ≡ (if i % n_bits == j % n_bits then false else check_bit v j)
  unfolding clear_bit
  check_bit-clear_bit =
      let w : ℕ = i % n_bits / word_size in
      let w' : ℕ = j % n_bits / word_size in
      let b : ℕ = i % n_bits % word_size in
      let b' : ℕ = j % n_bits % word_size in
      let old : ℕ = get_or v.bitmap w 0 in
      rw
        (
          check_bit-bit (clear_bit v i) j,
          check_bit-bit v j,
          write_lem v.bitmap w w' (bit_and old (2 ^ 64 - 1 - 2 ^ b)) (omega arith),
        )
        (ground (arith, bit-clear old b b' (omega arith) (omega arith)))

  pub check_bit-clear_word :
      check_bit (clear_word v i) j
      ≡ (if i % n_bits / word_size == j % n_bits / word_size then false else check_bit v j)
  unfolding clear_word
  check_bit-clear_word =
      let w : ℕ = i % n_bits / word_size in
      let w' : ℕ = j % n_bits / word_size in
      rw
        (
          check_bit-bit (clear_word v i) j,
          check_bit-bit v j,
          write_lem v.bitmap w w' 0 (omega arith),
        )
        (ground (arith, bit-zero (j % n_bits % word_size)))

pub check_bit_cleared :
    (v : Validator) (j : ℕ) → check_bit (record v { bitmap = replicate n_words 0 }) j ≡ false
check_bit_cleared v j =
    check_bit-bit (record v { bitmap = replicate n_words 0 }) j
    ∙ ground (
      arith,
      get_or-replicate {A = ℕ} n_words (j % n_bits / word_size) 0,
      bit-zero (j % n_bits % word_size),
    )

-- No operation changes the number of words.
pub length-set_bit : (v : Validator) (i : ℕ) → length (set_bit v i).bitmap ≡ length v.bitmap
unfolding set_bit
length-set_bit v i = length-set v.bitmap _ _

pub length-clear_bit : (v : Validator) (i : ℕ) → length (clear_bit v i).bitmap ≡ length v.bitmap
unfolding clear_bit
length-clear_bit v i = length-set v.bitmap _ _

pub length-clear_word : (v : Validator) (i : ℕ) → length (clear_word v i).bitmap ≡ length v.bitmap
unfolding clear_word
length-clear_word v i = length-set v.bitmap _ _
