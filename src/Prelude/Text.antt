-- ===== src/Prelude/Text.antt =====
-- A `String` or `&str` as the list of its bytes, and the decimal form of a number.
use Prim.Native.Char.{code}
use Prim.Native.String.{String}
use fluxpeer.Prelude.{
  ℕ, zero, suc, ◌+◌, ◌-◌, ◌*◌, Eq, list_dec, ℕ_discrete, ◌/◌, ◌%◌, ◌≤◌, ◌≡◌, sym, ap, ◌∙◌, List, [],
  ◌∷◌, arith, Bool-cases, inl, inr, ltb, if◌then◌else◌,
}

abbrev pub Text : Type 0
Text = List ℕ

instance abbrev pub text_eq : Eq Text
text_eq = record { dec = list_dec ℕ_discrete }

-- The bytes of an ASCII literal.
abbrev pub codes : String → Text
codes String.[] = []
codes (String.◌∷◌ c s) = code c ∷ codes s

-- `{n}` in a format string, by the digits of `n` before those already written. Each round divides
-- by ten, so that `n` rounds are enough.
digits_before : ℕ → ℕ → Text → Text
digits_before zero n out = (n % 10 + b'0') ∷ out
digits_before (suc fuel) n out =
    let rest = digits_before fuel (n / 10) ((n % 10 + b'0') ∷ out) in
    if ltb n 10 then (n % 10 + b'0') ∷ out else rest

unfoldable pub decimal : ℕ → Text
unfolding digits_before
decimal n = digits_before n n []

-- The number that a run of digits spells, after `acc`.
spelled : ℕ → Text → ℕ
spelled acc [] = acc
spelled acc (c ∷ cs) = spelled (acc * 10 + c - b'0') cs

spelled-digits_before :
    (fuel n : ℕ) (out : Text) → n ≤ fuel → spelled 0 (digits_before fuel n out) ≡ spelled n out
unfolding spelled digits_before
spelled-digits_before zero n out h = let none : n ≡ 0 = omega arith in rw none
spelled-digits_before (suc fuel) n out h = elim (Bool-cases (ltb n 10)) [
  | inl last ↦ rw last (ap (λ k. spelled k out) (ground arith))
  | inr more ↦ rw more (
      spelled-digits_before fuel (n / 10) ((n % 10 + b'0') ∷ out) (omega arith)
      ∙ ap (λ k. spelled k out) (omega arith))
]

-- Two numbers with the same decimal form are the same.
pub decimal-injective : (n m : ℕ) → decimal n ≡ decimal m → n ≡ m
unfolding decimal spelled
decimal-injective n m h =
    sym (spelled-digits_before n n [] (omega arith))
    ∙ ap (spelled 0) h
    ∙ spelled-digits_before m m [] (omega arith)
