-- ===== src/Prelude/Membership.antt =====
-- Membership of a number in a list, as a test.
use fluxpeer.Prelude.{ℕ, ◌≡◌, Bool, false, ◌||◌, List, [], ◌∷◌, ◌==◌, arith}
use mathlib.Core.List.{Mem, not-mem-nil, eq-or-mem_of_mem-cons}
use mathlib.Core.HLevel.{⊥_prop}
use mathlib.Core.Logic.Or

abbrev pub contains : List ℕ → ℕ → Bool
contains [] c = false
contains (x ∷ xs) c = x == c || contains xs c

pub not-Mem : (xs : List ℕ) (c : ℕ) → contains xs c ≡ false → ¬ Mem c xs
not-Mem [] c h = not-mem-nil
not-Mem (x ∷ xs) c h =
    λ m. Or.elim ⊥_prop (eq-or-mem_of_mem-cons m) (λ e. ground arith) (not-Mem xs c (ground arith))
