-- ===== src/Net/Conhash/Order.antt =====
-- The order of the keys is total.
use fluxpeer.Prelude.{ℕ, ◌≡◌, refl, true, false, List, [], ◌∷◌, arith}
use fluxpeer.Net.Conhash.{lex_le}

pub lex_le_refl : (xs : List ℕ) → lex_le xs xs ≡ true
unfolding lex_le
lex_le_refl [] = refl
lex_le_refl (x ∷ xs) = ground (arith, lex_le_refl xs)

pub lex_le_total : (xs ys : List ℕ) → lex_le xs ys ≡ false → lex_le ys xs ≡ true
unfolding lex_le
lex_le_total [] ys h = cc
lex_le_total (x ∷ xs) [] h = refl
lex_le_total (x ∷ xs) (y ∷ ys) h = ground (arith, lex_le_total xs ys)

pub lex_le_antisymm : (xs ys : List ℕ) → lex_le xs ys ≡ true → lex_le ys xs ≡ true → xs ≡ ys
unfolding lex_le
lex_le_antisymm [] [] h i = refl
lex_le_antisymm [] (y ∷ ys) h i = cc
lex_le_antisymm (x ∷ xs) [] h i = cc
lex_le_antisymm (x ∷ xs) (y ∷ ys) h i = ground (arith, lex_le_antisymm xs ys)

pub lex_le_trans :
    (xs ys zs : List ℕ) → lex_le xs ys ≡ true → lex_le ys zs ≡ true → lex_le xs zs ≡ true
unfolding lex_le
lex_le_trans [] ys zs h i = refl
lex_le_trans (x ∷ xs) [] zs h i = cc
lex_le_trans (x ∷ xs) (y ∷ ys) [] h i = cc
lex_le_trans (x ∷ xs) (y ∷ ys) (z ∷ zs) h i = ground (arith, lex_le_trans xs ys zs)
