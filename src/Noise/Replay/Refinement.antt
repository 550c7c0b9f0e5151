-- ===== src/Noise/Replay/Refinement.antt =====
-- The replay window against its specification: the list of the counters that were accepted.
use fluxpeer.Prelude.{
  ℕ, ◌+◌, ◌-◌, ◌^◌, ◌<◌, ◌≤◌, ◌≡◌, inl, inr, refl, sym, ◌∙◌, true, false, ◌==◌, ltb, leb,
  if◌then◌else◌, arith, Bool-cases, dec_lt, List, [], ◌∷◌, length, replicate, length-replicate, All,
  Result, ok, err,
}
use mathlib.Core.List.{Nodup, Nodup-cons, Nodup-nil}
use mathlib.Core.Path.{subst}
use fluxpeer.Prelude.Membership.{contains, not-Mem}
use fluxpeer.Noise.{Error, invalid_counter, duplicate_counter}
use fluxpeer.Noise.Replay.Bitmap.{check_bit-set_bit, check_bit_cleared, length-set_bit}
use fluxpeer.Noise.Replay.Clearing.{clear_skipped-Cleared}
use fluxpeer.Noise.Replay.{
  Validator, n_words, n_bits, add64, set_bit, check_bit, clear_skipped, new, will_accept,
  mark_did_receive,
}

-- Counters whose window does not wrap.
abbrev pub InRange : ℕ → Type 0
InRange c = c + n_bits < 2 ^ 64

-- `v` is the window after the counters of `seen` were accepted.
pub record Tracks (v : Validator) (seen : List ℕ) : Type 0 where
  pub full : length v.bitmap ≡ n_words
  pub fits : v.next + n_bits ≤ 2 ^ 64
  pub below : (c : ℕ) → contains seen c ≡ true → c < v.next
  pub bits : (c : ℕ) → c < v.next → v.next ≤ c + n_bits → check_bit v c ≡ contains seen c
  pub once : Nodup seen

pub new-Tracks : Tracks new []
unfolding new
new-Tracks = record {
  full = refl;
  fits = omega arith;
  below = λ c h. cc;
  bits = λ c p q. absurd (omega arith);
  once = Nodup-nil;
}

-- The answer that the window is meant to give.
abbrev pub verdict : ℕ → List ℕ → ℕ → Error → Result (Unit {0}) Error
verdict next seen c repeated =
    if ltb (c + n_bits) next
    then err invalid_counter
    else if contains seen c
    then err repeated
    else ok tt

module _ {v : Validator} {seen : List ℕ} (t : Tracks v seen) (c : ℕ)
    (small : c + n_bits < 2 ^ 64) where
  fresh_above : v.next ≤ c → contains seen c ≡ false
  fresh_above h = elim (Bool-cases (contains seen c)) [
    | inl e ↦ absurd (omega (arith, t.below c e))
    | inr e ↦ e
  ]

  -- The check before decryption gives the verdict of the specification.
  pub will_accept-verdict : will_accept v c ≡ verdict v.next seen c duplicate_counter
  unfolding will_accept
  will_accept-verdict = ground (arith, fresh_above, t.bits c)

  -- So does the check after it.
  pub mark_did_receive-verdict : (mark_did_receive v c).1 ≡ verdict v.next seen c invalid_counter
  unfolding mark_did_receive
  mark_did_receive-verdict = ground (arith, fresh_above, t.bits c)

-- The test does not look at `next`.
check_bit_next : (v : Validator) (n d : ℕ) → check_bit (record v { next = n }) d ≡ check_bit v d
unfolding check_bit
check_bit_next v n d = refl

module _ (u : Validator) (seen : List ℕ) (c : ℕ) (full : length u.bitmap ≡ n_words)
    (small : c + n_bits < 2 ^ 64) (old : (d : ℕ) → contains seen d ≡ true → d < c)
    (window : (d : ℕ) → d < c → c < d + n_bits → check_bit u d ≡ contains seen d)
    (once : Nodup seen) where
  -- Marking a counter that is above all before it, on a bitmap that is right for the new window.
  advance-Tracks : Tracks (record (set_bit u c) { next = add64 c 1 }) (c ∷ seen)
  unfolding set_bit
  advance-Tracks = record {
    full = length-set_bit u c ∙ full;
    fits = omega arith;
    below = λ d h. ground (arith, old d);
    bits = λ d p q.
        check_bit_next (set_bit u c) (add64 c 1) d
        ∙ check_bit-set_bit u full c d
        ∙ ground (arith, window d);
    once = Nodup-cons.1 (not-Mem seen c (ground (arith, old c)), once);
  }

-- The counters accepted so far, after one more result.
abbrev pub accepted : List ℕ → ℕ → Result (Unit {0}) Error → List ℕ
accepted seen c (ok _) = c ∷ seen
accepted seen c (err _) = seen

module _ {v : Validator} {seen : List ℕ} (t : Tracks v seen) (c : ℕ)
    (small : c + n_bits < 2 ^ 64) where
  in_order-Tracks : c ≡ v.next → Tracks (record (set_bit v c) { next = add64 v.next 1 }) (c ∷ seen)
  in_order-Tracks e =
      subst (λ k. Tracks (record (set_bit v c) { next = add64 k 1 }) (c ∷ seen)) e
        (advance-Tracks v seen c t.full small (λ d h. omega (arith, t.below d h))
          (λ d p q. t.bits d (omega arith) (omega arith)) t.once)

  far_ahead-Tracks :
      v.next + n_bits ≤ c
      → Tracks
          (record (set_bit (record v { bitmap = replicate n_words 0 }) c) { next = add64 c 1 })
          (c ∷ seen)
  far_ahead-Tracks h =
      advance-Tracks (record v { bitmap = replicate n_words 0 }) seen c
        (length-replicate {A = ℕ} n_words 0) small (λ d p. omega (arith, t.below d p))
        (λ d p q. check_bit_cleared v d ∙ sym (fresh_above t d (omega arith) (omega arith))) t.once

  skipped-Tracks :
      v.next < c
      → c < v.next + n_bits
      → Tracks (record (set_bit (clear_skipped v c) c) { next = add64 c 1 }) (c ∷ seen)
  skipped-Tracks h w =
      let k = clear_skipped-Cleared v c t.full (omega arith) (omega arith) small in
      advance-Tracks (clear_skipped v c) seen c k.full small (λ d p. omega (arith, t.below d p))
        (λ d p q. elim (dec_lt d v.next) [
          | yes m ↦ k.kept d m (omega arith) ∙ t.bits d m (omega arith)
          | no m ↦ k.cleared d (omega arith) p ∙ sym (fresh_above t d (omega arith) (omega arith))
        ])
        t.once

  reordered-Tracks :
      c < v.next → v.next ≤ c + n_bits → contains seen c ≡ false → Tracks (set_bit v c) (c ∷ seen)
  unfolding set_bit
  reordered-Tracks h w f = record {
    full = length-set_bit v c ∙ t.full;
    fits = t.fits;
    below = λ d p. ground (arith, t.below d);
    bits = λ d p q. check_bit-set_bit v t.full c d ∙ ground (arith, t.bits d);
    once = Nodup-cons.1 (not-Mem seen c f, t.once);
  }

  -- Marking keeps the window a window over the accepted counters, whatever the answer.
  pub mark_did_receive-Tracks :
      Tracks (mark_did_receive v c).0 (accepted seen c (mark_did_receive v c).1)
  unfolding mark_did_receive
  mark_did_receive-Tracks = elim (Bool-cases (ltb (add64 c n_bits) v.next)) [
    | inl old ↦ rw old t
    | inr recent ↦ elim (Bool-cases (c == v.next)) [
      | inl same ↦ rw (recent, same) (in_order-Tracks (ground arith))
      | inr ne ↦ elim (Bool-cases (ltb c v.next)) [
        | inl below ↦ elim (Bool-cases (check_bit v c)) [
          | inl set ↦ rw (recent, ne, below, set) t
          | inr clear ↦
              rw (recent, ne, below, clear)
                (reordered-Tracks (ground arith) (ground arith) (ground (arith, t.bits c)))
        ]
        | inr above ↦ elim (Bool-cases (leb n_bits (c - v.next))) [
          | inl far ↦ rw (recent, ne, above, far) (far_ahead-Tracks (ground arith))
          | inr near ↦ rw (recent, ne, above, near) (skipped-Tracks (ground arith) (ground arith))
        ]
      ]
    ]
  ]

-- The statistics do not matter.
pub Tracks_cnt :
    {v : Validator} {seen : List ℕ} (n : ℕ)
    → Tracks v seen
    → Tracks (record v { receive_cnt = n }) seen
unfolding check_bit
Tracks_cnt n t = record {
  full = t.full;
  fits = t.fits;
  below = t.below;
  bits = t.bits;
  once = t.once;
}

-- A run of the window over a sequence of counters, with the counters that it accepted, newest
-- first.
pub marks : Validator → List ℕ → List ℕ → Validator × List ℕ
marks v seen [] = (v, seen)
marks v seen (c ∷ cs) = let (v', r) = mark_did_receive v c in marks v' (accepted seen c r) cs

pub marks-Tracks :
    (v : Validator) (seen cs : List ℕ)
    → All InRange cs
    → Tracks v seen
    → Tracks (marks v seen cs).0 (marks v seen cs).1
unfolding marks
marks-Tracks v seen [] h t = t
marks-Tracks v seen (c ∷ cs) h t =
    marks-Tracks (mark_did_receive v c).0 (accepted seen c (mark_did_receive v c).1) cs h.1
      (mark_did_receive-Tracks t c h.0)

-- Whatever counters arrive, in whatever order, none is accepted twice.
pub marks-Nodup : (cs : List ℕ) → All InRange cs → Nodup (marks new [] cs).1
marks-Nodup cs h = Tracks.once (marks-Tracks new [] cs h new-Tracks)
