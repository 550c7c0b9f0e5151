-- ===== src/Noise/Replay.antt =====
-- engine/crypto/fp-crypto-noise/src/session.rs: `ReceivingKeyCounterValidator`, the replay window
-- over a bitmap of 16 words. A `u64` is a number; a sum wraps at 2 ^ 64, as in a release build.
pub mod Bitmap
pub mod Clearing
pub mod Refinement
use Prim.Native.Nat.{bit_and, bit_or}
use fluxpeer.Prelude.{
  ℕ, zero, suc, ◌+◌, ◌-◌, ◌*◌, ◌/◌, ◌%◌, ◌^◌, Bool, not, ◌&&◌, List, ltb, leb, ◌==◌, if◌then◌else◌,
  get_or, set, replicate, Result, ok, err,
}
use fluxpeer.Noise.{Error, invalid_counter, duplicate_counter}

abbrev pub word_size : ℕ
word_size = 64

abbrev pub n_words : ℕ
n_words = 16

abbrev pub n_bits : ℕ
n_bits = word_size * n_words

abbrev pub add64 : ℕ → ℕ → ℕ
add64 a b = (a + b) % 2 ^ 64

pub record Validator : Type 0 where
  pub next : ℕ
  pub receive_cnt : ℕ
  pub bitmap : List ℕ

-- `Default`.
unfoldable pub new : Validator
new = record { next = 0; receive_cnt = 0; bitmap = replicate n_words 0 }

-- `1 << bit` has bit `bit` alone, and `!(1 << bit)` all the others.
unfoldable pub set_bit : Validator → ℕ → Validator
set_bit v idx =
    let bit_idx = idx % n_bits in
    let word = bit_idx / word_size in
    let b = bit_idx % word_size in
    record v { bitmap = set v.bitmap word (bit_or (get_or v.bitmap word 0) (2 ^ b)) }

unfoldable pub clear_bit : Validator → ℕ → Validator
clear_bit v idx =
    let bit_idx = idx % n_bits in
    let word = bit_idx / word_size in
    let b = bit_idx % word_size in
    record v { bitmap = set v.bitmap word (bit_and (get_or v.bitmap word 0) (2 ^ 64 - 1 - 2 ^ b)) }

unfoldable pub clear_word : Validator → ℕ → Validator
clear_word v idx =
    let bit_idx = idx % n_bits in
    let word = bit_idx / word_size in record v { bitmap = set v.bitmap word 0 }

unfoldable pub check_bit : Validator → ℕ → Bool
check_bit v idx =
    let bit_idx = idx % n_bits in
    let word = bit_idx / word_size in
    let b = bit_idx % word_size in get_or v.bitmap word 0 / 2 ^ b % 2 == 1

unfoldable pub will_accept : Validator → ℕ → Result (Unit {0}) Error
will_accept v counter =
    if leb v.next counter
    then ok tt
    else if ltb (add64 counter n_bits) v.next
    then err invalid_counter
    else if not (check_bit v counter)
    then ok tt
    else err duplicate_counter

-- `while !i.is_multiple_of(WORD_SIZE) && i < counter`. Each of the three loops returns its `i`.
unfoldable pub clear_to_word : ℕ → ℕ → ℕ → Validator → ℕ × Validator
clear_to_word zero i counter v = (i, v)
clear_to_word (suc fuel) i counter v =
    let rest = clear_to_word fuel (i + 1) counter (clear_bit v i) in
    if not (i % word_size == 0) && ltb i counter then rest else (i, v)

-- `while i + WORD_SIZE < counter`.
unfoldable pub clear_words : ℕ → ℕ → ℕ → Validator → ℕ × Validator
clear_words zero i counter v = (i, v)
clear_words (suc fuel) i counter v =
    let rest =
      clear_words fuel (bit_and (add64 i word_size) (2 ^ 64 - word_size)) counter
        (clear_word v i) in
    if ltb (add64 i word_size) counter then rest else (i, v)

-- `while i < counter`.
unfoldable pub clear_rest : ℕ → ℕ → ℕ → Validator → ℕ × Validator
clear_rest zero i counter v = (i, v)
clear_rest (suc fuel) i counter v =
    let rest = clear_rest fuel (i + 1) counter (clear_bit v i) in
    if ltb i counter then rest else (i, v)

-- The branch for skipped counters, where `counter - next` is below `N_BITS`, so that no loop has
-- more than `N_BITS` rounds.
unfoldable pub clear_skipped : Validator → ℕ → Validator
clear_skipped v counter =
    let (i, v') = clear_to_word n_bits v.next counter v in
    let (j, v'') = clear_words n_bits i counter v' in (clear_rest n_bits j counter v'').1

unfoldable pub mark_did_receive : Validator → ℕ → Validator × Result (Unit {0}) Error
mark_did_receive v counter =
    let cleared =
      if leb n_bits (counter - v.next)
      then record v { bitmap = replicate n_words 0 }
      else clear_skipped v counter in
    if ltb (add64 counter n_bits) v.next
    then (v, err invalid_counter)
    else if counter == v.next
    then (record (set_bit v counter) { next = add64 v.next 1 }, ok tt)
    else if ltb counter v.next
    then (if check_bit v counter then (v, err invalid_counter) else (set_bit v counter, ok tt))
    else (record (set_bit cleared counter) { next = add64 counter 1 }, ok tt)
