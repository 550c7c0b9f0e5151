-- ===== src/Noise/Replay/Clearing.antt =====
-- The three loops that clear the bits of skipped counters.
use fluxpeer.Prelude.{
  ℕ, zero, suc, ◌+◌, ◌-◌, ◌%◌, ◌^◌, ◌<◌, ◌≤◌, ◌≡◌, ◌⊎◌, inl, inr, refl, ◌∙◌, false, not, ◌&&◌, ◌==◌,
  ltb, arith, Bool-cases, dec_lt, length,
}
use Prim.Native.Nat.{bit_and}
use mathlib.Core.Path.{subst}
use fluxpeer.Prelude.Bits.{bit_and_align}
use fluxpeer.Noise.Replay.Bitmap.{
  check_bit-clear_bit, check_bit-clear_word, length-clear_bit, length-clear_word,
}
use fluxpeer.Noise.Replay.{
  Validator, n_words, n_bits, word_size, add64, clear_bit, clear_word, check_bit, clear_to_word,
  clear_words, clear_rest, clear_skipped,
}

-- `v'` is `v` with the bits of the counters from `lo` to `hi` cleared, and those of the counters
-- that stay in the window below `hi` kept.
pub record Cleared (v v' : Validator) (lo hi : ℕ) : Type 0 where
  pub next_kept : v'.next ≡ v.next
  pub cnt_kept : v'.receive_cnt ≡ v.receive_cnt
  pub full : length v'.bitmap ≡ n_words
  pub cleared : (c : ℕ) → lo ≤ c → c < hi → check_bit v' c ≡ false
  pub kept : (c : ℕ) → c < lo → hi ≤ c + n_bits → check_bit v' c ≡ check_bit v c

Cleared-none : (v : Validator) (i : ℕ) → length v.bitmap ≡ n_words → Cleared v v i i
Cleared-none v i h = record {
  next_kept = refl;
  cnt_kept = refl;
  full = h;
  cleared = λ c p q. absurd (omega arith);
  kept = λ c p q. refl;
}

Cleared-trans :
    {u v w : Validator} {lo mid hi : ℕ}
    → hi ≤ lo + n_bits
    → lo ≤ mid
    → mid ≤ hi
    → Cleared u v lo mid
    → Cleared v w mid hi
    → Cleared u w lo hi
Cleared-trans {mid} h hl hm a b = record {
  next_kept = b.next_kept ∙ a.next_kept;
  cnt_kept = b.cnt_kept ∙ a.cnt_kept;
  full = b.full;
  cleared = λ c p q. elim (dec_lt c mid) [
    | yes m ↦ b.kept c m (omega arith) ∙ a.cleared c p m
    | no m ↦ b.cleared c (omega arith) q
  ];
  kept = λ c p q. b.kept c (omega arith) q ∙ a.kept c p (omega arith);
}

Cleared-clear_bit :
    (v : Validator) (i : ℕ) → length v.bitmap ≡ n_words → Cleared v (clear_bit v i) i (i + 1)
unfolding clear_bit
Cleared-clear_bit v i h = record {
  next_kept = refl;
  cnt_kept = refl;
  full = length-clear_bit v i ∙ h;
  cleared = λ c p q. check_bit-clear_bit v h i c ∙ ground arith;
  kept = λ c p q. check_bit-clear_bit v h i c ∙ ground arith;
}

Cleared-clear_word :
    (v : Validator) (i : ℕ)
    → length v.bitmap ≡ n_words
    → i % word_size ≡ 0
    → Cleared v (clear_word v i) i (i + word_size)
unfolding clear_word
Cleared-clear_word v i h a = record {
  next_kept = refl;
  cnt_kept = refl;
  full = length-clear_word v i ∙ h;
  cleared = λ c p q. check_bit-clear_word v h i c ∙ ground arith;
  kept = λ c p q. check_bit-clear_word v h i c ∙ ground arith;
}

-- Where a loop that started at `i` stopped.
abbrev Stops : Validator → ℕ → ℕ → ℕ × Validator → Type 0
Stops v i counter r = Cleared v r.1 i r.0 × (i ≤ r.0) × (r.0 ≤ counter)

Stops-next :
    {v v' : Validator} {i counter : ℕ} (mid : ℕ) (r : ℕ × Validator)
    → counter ≤ i + n_bits
    → i ≤ mid
    → Cleared v v' i mid
    → Stops v' mid counter r
    → Stops v i counter r
Stops-next mid r h m c s = (Cleared-trans (omega arith) m s.1 c s.0, omega arith, s.2)

-- The first loop stops at a word's first bit, or at the counter.
clear_to_word-Stops :
    (fuel i counter : ℕ) (v : Validator)
    → length v.bitmap ≡ n_words
    → i ≤ counter
    → counter ≤ i + fuel
    → counter ≤ i + n_bits
    → let r = clear_to_word fuel i counter v in
      Stops v i counter r × ((r.0 % word_size ≡ 0) ⊎ (r.0 ≡ counter))
unfolding clear_to_word
clear_to_word-Stops zero i counter v full h f w =
    ((Cleared-none v i full, omega arith, omega arith), inr (omega arith))
clear_to_word-Stops (suc fuel) i counter v full h f w =
    elim (Bool-cases (not (i % word_size == 0) && ltb i counter)) [
      | inl go ↦
          let room : i < counter = ground arith in
          let ih =
            clear_to_word-Stops fuel (i + 1) counter (clear_bit v i) (length-clear_bit v i ∙ full)
              (omega arith) (omega arith) (omega arith) in
          rw go (Stops-next (i + 1) _ w (omega arith) (Cleared-clear_bit v i full) ih.0, ih.1)
      | inr stop ↦ rw stop ((Cleared-none v i full, omega arith, h), ground arith)
    ]

-- The second loop keeps to the first bits of words, and leaves at most a word.
clear_words-Stops :
    (fuel i counter : ℕ) (v : Validator)
    → length v.bitmap ≡ n_words
    → i ≤ counter
    → counter ≤ i + fuel
    → counter ≤ i + n_bits
    → counter + n_bits < 2 ^ 64
    → (i % word_size ≡ 0) ⊎ (i ≡ counter)
    → Stops v i counter (clear_words fuel i counter v)
unfolding clear_words
clear_words-Stops zero i counter v full h f w small a =
    (Cleared-none v i full, omega arith, omega arith)
clear_words-Stops (suc fuel) i counter v full h f w small a =
    elim (Bool-cases (ltb (add64 i word_size) counter)) [
      | inl go ↦
          let room : i + word_size < counter = ground arith in
          let aligned : i % word_size ≡ 0 = omega arith in
          let step : bit_and (add64 i word_size) (2 ^ 64 - word_size) ≡ i + word_size =
            bit_and_align (add64 i word_size) (omega arith) ∙ omega arith in
          rw (go, step)
            (Stops-next (i + word_size) _ w (omega arith) (Cleared-clear_word v i full aligned) (
              clear_words-Stops fuel (i + word_size) counter (clear_word v i)
                (length-clear_word v i ∙ full) (omega arith) (omega arith) (omega arith) small
                (inl (omega arith))))
      | inr stop ↦ rw stop (Cleared-none v i full, omega arith, h)
    ]

-- The third loop stops at the counter.
clear_rest-Stops :
    (fuel i counter : ℕ) (v : Validator)
    → length v.bitmap ≡ n_words
    → i ≤ counter
    → counter ≤ i + fuel
    → counter ≤ i + n_bits
    → let r = clear_rest fuel i counter v in Stops v i counter r × (r.0 ≡ counter)
unfolding clear_rest
clear_rest-Stops zero i counter v full h f w =
    ((Cleared-none v i full, omega arith, omega arith), omega arith)
clear_rest-Stops (suc fuel) i counter v full h f w = elim (Bool-cases (ltb i counter)) [
  | inl go ↦
      let room : i < counter = ground arith in
      let ih =
        clear_rest-Stops fuel (i + 1) counter (clear_bit v i) (length-clear_bit v i ∙ full)
          (omega arith) (omega arith) (omega arith) in
      rw go (Stops-next (i + 1) _ w (omega arith) (Cleared-clear_bit v i full) ih.0, ih.1)
  | inr stop ↦ rw stop ((Cleared-none v i full, omega arith, h), ground arith)
]

-- The three loops together clear all skipped counters, and no other that is in the window.
pub clear_skipped-Cleared :
    (v : Validator) (counter : ℕ)
    → length v.bitmap ≡ n_words
    → v.next ≤ counter
    → counter ≤ v.next + n_bits
    → counter + n_bits < 2 ^ 64
    → Cleared v (clear_skipped v counter) v.next counter
unfolding clear_skipped
clear_skipped-Cleared v counter full h w small =
    let one = clear_to_word-Stops n_bits v.next counter v full h w w in
    let r : ℕ × Validator = clear_to_word n_bits v.next counter v in
    let two =
      clear_words-Stops n_bits r.0 counter r.1 one.0.0.full one.0.2 (omega arith) (omega arith)
        small one.1 in
    let s : ℕ × Validator = clear_words n_bits r.0 counter r.1 in
    let three =
      clear_rest-Stops n_bits s.0 counter s.1 two.0.full two.2 (omega arith) (omega arith) in
    let whole =
      Stops-next r.0 _ w one.0.1 one.0.0 (Stops-next s.0 _ (omega arith) two.1 two.0 three.0) in
    subst (λ k. Cleared v (clear_rest n_bits s.0 counter s.1).1 v.next k) three.1 whole.0
