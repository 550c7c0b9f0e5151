-- ===== src/Prelude/Bytes.antt =====
-- Bytes as native numbers, and the big-endian words of the wire formats.
use fluxpeer.Prelude.{
  ℕ, suc, ◌≤◌, take, ◌+◌, ◌*◌, ◌/◌, ◌%◌, ◌^◌, ◌<◌, ◌≡◌, List, [], ◌∷◌, ◌++◌, get_or, drop, All,
  arith, length, refl,
}

abbrev pub IsByte : ℕ → Type 0
IsByte b = b < 256

abbrev pub IsU16 : ℕ → Type 0
IsU16 v = v < 2 ^ 16

abbrev pub IsU32 : ℕ → Type 0
IsU32 v = v < 2 ^ 32

-- `u16::to_be_bytes` and `u16::from_be_bytes`.
unfoldable pub to_be_bytes16 : ℕ → List ℕ
to_be_bytes16 v = v / 2 ^ 8 ∷ v % 2 ^ 8 ∷ []

unfoldable pub from_be_bytes16 : ℕ → ℕ → ℕ
from_be_bytes16 a b = a * 2 ^ 8 + b

-- `u32::to_be_bytes` and `u32::from_be_bytes`.
unfoldable pub to_be_bytes32 : ℕ → List ℕ
to_be_bytes32 v = v / 2 ^ 24 ∷ v / 2 ^ 16 % 2 ^ 8 ∷ v / 2 ^ 8 % 2 ^ 8 ∷ v % 2 ^ 8 ∷ []

unfoldable pub from_be_bytes32 : ℕ → ℕ → ℕ → ℕ → ℕ
from_be_bytes32 a b c d = a * 2 ^ 24 + b * 2 ^ 16 + c * 2 ^ 8 + d

pub from_be_bytes16-to_be : (v : ℕ) → from_be_bytes16 (v / 2 ^ 8) (v % 2 ^ 8) ≡ v
unfolding from_be_bytes16
from_be_bytes16-to_be v = omega arith

pub from_be_bytes16-IsU16 : (a b : ℕ) → IsByte a → IsByte b → IsU16 (from_be_bytes16 a b)
unfolding from_be_bytes16
from_be_bytes16-IsU16 a b ha hb = omega arith

pub to_be_bytes16-from_be : (a b : ℕ) → IsByte b → to_be_bytes16 (from_be_bytes16 a b) ≡ a ∷ b ∷ []
unfolding to_be_bytes16 from_be_bytes16
to_be_bytes16-from_be a b hb = ground arith

pub from_be_bytes32-to_be :
    (v : ℕ) → from_be_bytes32 (v / 2 ^ 24) (v / 2 ^ 16 % 2 ^ 8) (v / 2 ^ 8 % 2 ^ 8) (v % 2 ^ 8) ≡ v
unfolding from_be_bytes32
from_be_bytes32-to_be v = omega arith

pub length-to_be_bytes16 : (v : ℕ) → length (to_be_bytes16 v) ≡ 2
unfolding to_be_bytes16
length-to_be_bytes16 v = refl

pub length-to_be_bytes32 : (v : ℕ) → length (to_be_bytes32 v) ≡ 4
unfolding to_be_bytes32
length-to_be_bytes32 v = refl

pub to_be_bytes32-IsByte : (v : ℕ) → IsU32 v → All IsByte (to_be_bytes32 v)
unfolding to_be_bytes32
to_be_bytes32-IsByte v h = omega arith

pub from_be_bytes32-IsU32 :
    (a b c d : ℕ) → IsByte a → IsByte b → IsByte c → IsByte d → IsU32 (from_be_bytes32 a b c d)
unfolding from_be_bytes32
from_be_bytes32-IsU32 a b c d ha hb hc hd = omega arith

-- Four bytes are the big-endian form of the word that they spell.
pub to_be_bytes32-from_be :
    (a b c d : ℕ)
    → IsByte a
    → IsByte b
    → IsByte c
    → IsByte d
    → to_be_bytes32 (from_be_bytes32 a b c d) ≡ a ∷ b ∷ c ∷ d ∷ []
unfolding to_be_bytes32 from_be_bytes32
to_be_bytes32-from_be a b c d ha hb hc hd = ground arith

-- The word that four bytes from the second on spell, as in a header of a type byte and a length.
abbrev pub header_word : List ℕ → ℕ
header_word buf =
    from_be_bytes32 (get_or buf 1 0) (get_or buf 2 0) (get_or buf 3 0) (get_or buf 4 0)

-- The first `w + 5` bytes, as the header and what follows it.
pub take_header :
    (buf : List ℕ) (w : ℕ)
    → 5 ≤ length buf
    → All IsByte buf
    → take (suc (suc (suc (suc (suc w))))) buf
      ≡ get_or buf 0 0 ∷ to_be_bytes32 (header_word buf) ++ take w (drop 5 buf)
take_header (t ∷ a ∷ b ∷ c ∷ d ∷ r) w h (_, (ha, (hb, (hc, (hd, _))))) =
    rw (to_be_bytes32-from_be a b c d ha hb hc hd)
take_header _ w h i = absurd (omega arith)

abbrev pub IsU64 : ℕ → Type 0
IsU64 v = v < 2 ^ 64

-- `to_le_bytes` and `from_le_bytes` of the first 4 or 8 bytes.
unfoldable pub to_le_bytes32 : ℕ → List ℕ
to_le_bytes32 v = v % 2 ^ 8 ∷ v / 2 ^ 8 % 2 ^ 8 ∷ v / 2 ^ 16 % 2 ^ 8 ∷ v / 2 ^ 24 ∷ []

unfoldable pub from_le_bytes32 : List ℕ → ℕ
from_le_bytes32 b =
    get_or b 0 0 + get_or b 1 0 * 2 ^ 8 + get_or b 2 0 * 2 ^ 16 + get_or b 3 0 * 2 ^ 24

unfoldable pub to_le_bytes64 : ℕ → List ℕ
unfolding to_le_bytes32
to_le_bytes64 v = to_le_bytes32 (v % 2 ^ 32) ++ to_le_bytes32 (v / 2 ^ 32)

unfoldable pub from_le_bytes64 : List ℕ → ℕ
unfolding from_le_bytes32
from_le_bytes64 b = from_le_bytes32 b + from_le_bytes32 (drop 4 b) * 2 ^ 32

pub from_le-to_le_bytes32 : (v : ℕ) → from_le_bytes32 (to_le_bytes32 v) ≡ v
unfolding from_le_bytes32 to_le_bytes32
from_le-to_le_bytes32 v = omega arith

pub from_le-to_le_bytes64 : (v : ℕ) → from_le_bytes64 (to_le_bytes64 v) ≡ v
unfolding from_le_bytes64 to_le_bytes64
from_le-to_le_bytes64 v = omega arith

pub length-to_le_bytes32 : (v : ℕ) → length (to_le_bytes32 v) ≡ 4
unfolding to_le_bytes32
length-to_le_bytes32 v = refl

pub length-to_le_bytes64 : (v : ℕ) → length (to_le_bytes64 v) ≡ 8
unfolding to_le_bytes64
length-to_le_bytes64 v = refl
