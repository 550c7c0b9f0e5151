-- ===== src/Control/Pop/Compare.antt =====
-- The comparison that looks at every byte is equality.
use Prim.Native.Nat.{bit_or, bit_xor, digits, differ, bit_or-bitwise, bit_xor-bitwise}
use fluxpeer.Prelude.{
  ℕ, zero, suc, ◌/◌, ◌%◌, ◌≤◌, ◌≡◌, ◌↔◌, inl, inr, refl, ap, max, true, List, [], ◌∷◌, ◌==◌, length,
  arith, Bool-cases,
}
use fluxpeer.Control.Pop.{differences, ct_eq}

differ-zero : (x y : ℕ) → differ x y ≡ 0 → x ≡ y
differ-zero zero y h = omega arith
differ-zero (suc x) zero h = omega arith
differ-zero (suc x) (suc y) h = ap suc (differ-zero x y h)

differ_self : (x : ℕ) → differ x x ≡ 0
differ_self zero = refl
differ_self (suc x) = differ_self x

or_digits-zero : (n a b : ℕ) → a ≤ n → digits (λ c. c) max n a b ≡ 0 → (a ≡ 0) × (b ≡ 0)
or_digits-zero zero zero b le h = (refl, h)
or_digits-zero zero (suc a) b le h = absurd (omega arith)
or_digits-zero (suc n) zero b le h = (refl, h)
or_digits-zero (suc n) (suc a) b le h =
    let ih = or_digits-zero n (suc a / 2) (b / 2) (omega arith) (omega arith) in
    absurd (omega arith)

xor_digits-zero : (n a b : ℕ) → a ≤ n → digits (λ c. c) differ n a b ≡ 0 → a ≡ b
xor_digits-zero zero zero b le h = omega arith
xor_digits-zero zero (suc a) b le h = absurd (omega arith)
xor_digits-zero (suc n) zero b le h = omega arith
xor_digits-zero (suc n) (suc a) b le h =
    let ih = xor_digits-zero n (suc a / 2) (b / 2) (omega arith) (omega arith) in
    let last = differ-zero (suc a % 2) (b % 2) (omega arith) in omega arith

xor_digits_self : (n a : ℕ) → a ≤ n → digits (λ c. c) differ n a a ≡ 0
xor_digits_self zero zero le = refl
xor_digits_self zero (suc a) le = absurd (omega arith)
xor_digits_self (suc n) zero le = refl
xor_digits_self (suc n) (suc a) le =
    omega (arith, xor_digits_self n (suc a / 2) (omega arith), differ_self (suc a % 2))

differences-zero :
    (a b : List ℕ) (diff : ℕ)
    → length a ≡ length b
    → (differences diff a b ≡ 0) ↔ ((diff ≡ 0) × (a ≡ b))
unfolding differences
differences-zero [] [] diff len = (λ h. (h, refl), λ h. h.0)
differences-zero [] (y ∷ b) diff len = absurd (ground arith)
differences-zero (x ∷ a) [] diff len = absurd (ground arith)
differences-zero (x ∷ a) (y ∷ b) diff len =
    let rest = differences-zero a b (bit_or diff (bit_xor x y)) (omega arith) in
    (
      λ h.
          let (none_, same) = rest.0 h in
          let parts =
            or_digits-zero diff diff (bit_xor x y) (omega arith)
              (omega (arith, bit_or-bitwise diff (bit_xor x y))) in
          let head = xor_digits-zero x x y (omega arith) (omega (arith, bit_xor-bitwise x y)) in
          (parts.0, cc),
      λ h.
          let head : x ≡ y = cc (h.1) in
          let both : bit_xor x y ≡ 0 =
            rw (← head) (omega (arith, bit_xor-bitwise x x, xor_digits_self x x (omega arith))) in
          let start : bit_or diff (bit_xor x y) ≡ 0 =
            rw (h.0, both) (omega (arith, bit_or-bitwise 0 0)) in
          rest.1 (start, cc (h.1)),
    )

-- Two lists of bytes compare as equal exactly where they are the same list.
pub ct_eq_lem : (a b : List ℕ) → (ct_eq a b ≡ true) ↔ (a ≡ b)
unfolding ct_eq
ct_eq_lem a b = elim (Bool-cases (length a == length b)) [
  | inr e ↦
      rw e ((λ h. cc), λ h. cc (ap (λ (t : List ℕ). length a == length t) h, e, same_length a))
  | inl e ↦
      let d = differences-zero a b 0 (ground arith) in
      rw e ((λ h. (d.0 (ground arith)).1), λ h. let z = d.1 (refl, h) in rw z refl)
]
  where
    same_length : (a : List ℕ) → (length a == length a) ≡ true
    same_length a = ground arith
