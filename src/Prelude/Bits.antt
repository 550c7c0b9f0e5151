-- ===== src/Prelude/Bits.antt =====
-- The bits of a machine word, and what `|`, `&`, `!` and the shifts of the source do to them.
use Prim.Native.Nat.{bit_and, bit_or, digits, bit_and-bitwise, bit_or-bitwise}
use native.Mathlib.Nat.{pow-suc, mul_comm, div-div-eq-div-mul, pow-le-pow_right}
use fluxpeer.Prelude.{
  ℕ, zero, suc, ◌+◌, ◌-◌, ◌*◌, ◌/◌, ◌%◌, ◌^◌, ◌≤◌, ◌<◌, min, max, ◌≡◌, refl, sym, ap, ◌∙◌, arith,
  ltb, ◌==◌, if◌then◌else◌,
}

-- The fuel of the library's digit recursion does not matter once it covers the first number.
module _ (z : ℕ → ℕ) (f : ℕ → ℕ → ℕ) where
  digits_fuel : (n m a b : ℕ) → a ≤ n → a ≤ m → digits z f n a b ≡ digits z f m a b
  digits_fuel zero zero a b hn hm = refl
  digits_fuel zero (suc m) (suc a) b hn hm = absurd (omega arith)
  digits_fuel (suc n) zero (suc a) b hn hm = absurd (omega arith)
  digits_fuel zero (suc m) zero b hn hm = refl
  digits_fuel (suc n) zero zero b hn hm = refl
  digits_fuel (suc n) (suc m) zero b hn hm = refl
  digits_fuel (suc n) (suc m) (suc a) b hn hm =
      ap (λ (t : ℕ). t * 2 + f (suc a % 2) (b % 2))
        (digits_fuel n m (suc a / 2) (b / 2) (omega arith) (omega arith))

-- The last digit by itself, the others by the halves.
bit_or-halves : (m n : ℕ) → bit_or m n ≡ max (m % 2) (n % 2) + 2 * bit_or (m / 2) (n / 2)
bit_or-halves zero n = omega (arith, bit_or-bitwise 0 n, bit_or-bitwise 0 (n / 2))
bit_or-halves (suc m) n =
    let same =
      digits_fuel (λ c. c) max m (suc m / 2) (suc m / 2) (n / 2) (omega arith) (omega arith) in
    omega (arith, same, bit_or-bitwise (suc m / 2) (n / 2), bit_or-bitwise (suc m) n)

bit_and-halves : (m n : ℕ) → bit_and m n ≡ min (m % 2) (n % 2) + 2 * bit_and (m / 2) (n / 2)
bit_and-halves zero n = omega (arith, bit_and-bitwise 0 n, bit_and-bitwise 0 (n / 2))
bit_and-halves (suc m) n =
    let same =
      digits_fuel (λ c. zero) min m (suc m / 2) (suc m / 2) (n / 2) (omega arith) (omega arith) in
    omega (arith, same, bit_and-bitwise (suc m / 2) (n / 2), bit_and-bitwise (suc m) n)

-- Bit `i` of a number.
pub bit : ℕ → ℕ → ℕ
bit w zero = w % 2
bit w (suc i) = bit (w / 2) i

pub bit-lt : (w i : ℕ) → bit w i < 2
unfolding bit
bit-lt w zero = omega arith
bit-lt w (suc i) = bit-lt (w / 2) i

-- `(w >> i) & 1`.
pub shr-bit : (w i : ℕ) → w / 2 ^ i % 2 ≡ bit w i
unfolding bit
shr-bit w zero = omega arith
shr-bit w (suc i) =
    let split : w / 2 ^ suc i ≡ w / 2 / 2 ^ i =
      rw (pow-suc 2 i, mul_comm (2 ^ i) 2) (sym (div-div-eq-div-mul w 2 (2 ^ i))) in
    rw split (shr-bit (w / 2) i)

pub bit-bit_or : (a b i : ℕ) → bit (bit_or a b) i ≡ max (bit a i) (bit b i)
unfolding bit
bit-bit_or a b zero = omega (arith, bit_or-halves a b)
bit-bit_or a b (suc i) =
    let half : bit_or a b / 2 ≡ bit_or (a / 2) (b / 2) = omega (arith, bit_or-halves a b) in
    rw half (bit-bit_or (a / 2) (b / 2) i)

pub bit-bit_and : (a b i : ℕ) → bit (bit_and a b) i ≡ min (bit a i) (bit b i)
unfolding bit
bit-bit_and a b zero = omega (arith, bit_and-halves a b)
bit-bit_and a b (suc i) =
    let half : bit_and a b / 2 ≡ bit_and (a / 2) (b / 2) = omega (arith, bit_and-halves a b) in
    rw half (bit-bit_and (a / 2) (b / 2) i)

pub bit-zero : (i : ℕ) → bit 0 i ≡ 0
unfolding bit
bit-zero zero = refl
bit-zero (suc i) = bit-zero i

pow_pos : (n : ℕ) → 0 < 2 ^ n
pow_pos zero = omega arith
pow_pos (suc n) = omega (arith, pow_pos n, pow-suc 2 n)

-- `1 << k` has the one bit `k`.
pub bit-pow : (k i : ℕ) → bit (2 ^ k) i ≡ (if k == i then 1 else 0)
unfolding bit
bit-pow zero zero = refl
bit-pow zero (suc i) = bit-zero i ∙ ground arith
bit-pow (suc k) zero = ground (arith, pow-suc 2 k)
bit-pow (suc k) (suc i) =
    let half : 2 ^ suc k / 2 ≡ 2 ^ k = omega (arith, pow-suc 2 k) in
    rw half (bit-pow k i ∙ ground arith)

-- All ones below bit `n`.
pub bit-ones : (n i : ℕ) → bit (2 ^ n - 1) i ≡ (if ltb i n then 1 else 0)
unfolding bit
bit-ones zero zero = refl
bit-ones zero (suc i) = bit-zero i ∙ ground arith
bit-ones (suc n) zero = ground (arith, pow-suc 2 n, pow_pos n)
bit-ones (suc n) (suc i) =
    let half : (2 ^ suc n - 1) / 2 ≡ 2 ^ n - 1 = omega (arith, pow-suc 2 n, pow_pos n) in
    rw half (bit-ones n i ∙ ground arith)

mask_room : (k n : ℕ) → suc k < suc n → 2 ^ suc k ≤ 2 ^ n
mask_room k n h = pow-le-pow_right {n = 2} (omega arith) (omega arith)

-- `!(1 << k)` in a word of `n` bits has all bits but `k`.
pub bit-mask :
    (n k i : ℕ)
    → k < n
    → bit (2 ^ n - 1 - 2 ^ k) i ≡ (if ltb i n then (if k == i then 0 else 1) else 0)
unfolding bit
bit-mask zero k i h = absurd (omega arith)
bit-mask (suc n) zero zero h = ground (arith, pow-suc 2 n, pow_pos n)
bit-mask (suc n) zero (suc i) h =
    let half : (2 ^ suc n - 1 - 2 ^ 0) / 2 ≡ 2 ^ n - 1 = omega (arith, pow-suc 2 n, pow_pos n) in
    rw half (bit-ones n i ∙ ground arith)
bit-mask (suc n) (suc k) zero h =
    let odd : (2 ^ suc n - 1 - 2 ^ suc k) % 2 ≡ 1 =
      omega (arith, pow-suc 2 n, pow-suc 2 k, pow_pos k, mask_room k n h) in
    odd ∙ ground arith
bit-mask (suc n) (suc k) (suc i) h =
    let half : (2 ^ suc n - 1 - 2 ^ suc k) / 2 ≡ 2 ^ n - 1 - 2 ^ k =
      omega (arith, pow-suc 2 n, pow-suc 2 k, pow_pos k, mask_room k n h) in
    rw half (bit-mask n k i (omega arith) ∙ ground arith)

-- A mask of ones over all the bits of a number changes nothing.
bit_and_ones : (n a : ℕ) → a < 2 ^ n → bit_and a (2 ^ n - 1) ≡ a
bit_and_ones zero zero h = refl
bit_and_ones zero (suc a) h = absurd (omega arith)
bit_and_ones (suc n) a h =
    let ones : (2 ^ suc n - 1) / 2 ≡ 2 ^ n - 1 = omega (arith, pow-suc 2 n, pow_pos n) in
    let low : (2 ^ suc n - 1) % 2 ≡ 1 = omega (arith, pow-suc 2 n, pow_pos n) in
    let rest : bit_and (a / 2) (2 ^ n - 1) ≡ a / 2 =
      bit_and_ones n (a / 2) (omega (arith, pow-suc 2 n)) in
    bit_and-halves a (2 ^ suc n - 1) ∙ rw (ones, rest, low) (omega arith)

-- `x & 0u64.wrapping_sub(64)` rounds down to a multiple of 64.
pub bit_and_align : (x : ℕ) → x < 2 ^ 64 → bit_and x (2 ^ 64 - 64) ≡ x / 64 * 64
bit_and_align x h = omega (
  arith,
  bit_and-halves x (2 ^ 64 - 64),
  bit_and-halves (x / 2) (2 ^ 63 - 32),
  bit_and-halves (x / 2 / 2) (2 ^ 62 - 16),
  bit_and-halves (x / 2 / 2 / 2) (2 ^ 61 - 8),
  bit_and-halves (x / 2 / 2 / 2 / 2) (2 ^ 60 - 4),
  bit_and-halves (x / 2 / 2 / 2 / 2 / 2) (2 ^ 59 - 2),
  bit_and_ones 58 (x / 2 / 2 / 2 / 2 / 2 / 2) (omega arith),
)

-- A word with its bit `k` set, and with it cleared.
pub bit-set : (w k i : ℕ) → bit (bit_or w (2 ^ k)) i ≡ (if k == i then 1 else bit w i)
bit-set w k i = bit-bit_or w (2 ^ k) i ∙ ground (arith, bit-pow k i, bit-lt w i)

pub bit-clear :
    (w k i : ℕ)
    → k < 64
    → i < 64
    → bit (bit_and w (2 ^ 64 - 1 - 2 ^ k)) i ≡ (if k == i then 0 else bit w i)
bit-clear w k i hk hi =
    bit-bit_and w (2 ^ 64 - 1 - 2 ^ k) i ∙ ground (arith, bit-mask 64 k i hk, bit-lt w i)
