-- ===== src/Prelude/Maps.antt =====
-- `HashMap` as an association list. The order of the entries stands for the order in which the
-- map iterates, which the program does not fix.
use fluxpeer.Prelude.{◌≡◌, refl, List, [], ◌∷◌, Option, none, some, ite, arith, Eq, ◌≟◌}

abbrev pub Map {ℓ} : Type ℓ → Type ℓ → Type ℓ
Map K V = List (K × V)

module _ {ℓ} {K V : Type ℓ} ⦃e : Eq K⦄ where
  unfoldable pub lookup : K → Map K V → Option V
  lookup k [] = none
  lookup k ((j, v) ∷ m) = ite (j ≟ k) (some v) (lookup k m)

  -- `insert` overwrites the entry of a key that is present.
  unfoldable pub insert : K → V → Map K V → Map K V
  insert k v [] = (k, v) ∷ []
  insert k v ((j, w) ∷ m) = ite (j ≟ k) ((k, v) ∷ m) ((j, w) ∷ insert k v m)

  unfoldable pub remove : K → Map K V → Map K V
  remove k [] = []
  remove k ((j, w) ∷ m) = ite (j ≟ k) (remove k m) ((j, w) ∷ remove k m)

  pub lookup-insert :
      (k j : K) (v : V) (m : Map K V) → lookup j (insert k v m) ≡ ite (k ≟ j) (some v) (lookup j m)
  unfolding lookup insert
  lookup-insert k j v [] = refl
  lookup-insert k j v ((i, w) ∷ m) = ground (arith, lookup-insert k j v m)

  pub lookup-remove :
      (k j : K) (m : Map K V) → lookup j (remove k m) ≡ ite (k ≟ j) none (lookup j m)
  unfolding lookup remove
  lookup-remove k j [] = ground arith
  lookup-remove k j ((i, w) ∷ m) = ground (arith, lookup-remove k j m)
