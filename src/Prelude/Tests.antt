-- ===== src/Prelude/Tests.antt =====
-- Boolean tests on native numbers, the conditional, decidable equality as an interface, and the
-- splits on a computed value that keep its equation.
use Prim.Native.Nat.{ℕ, compare, Ordering}
use mathlib.Core.Path.{◌≡◌, refl}
use mathlib.Core.Logic.{◌⊎◌, inl, inr}
use mathlib.Core.Bool.{Bool, true, false}
use mathlib.Core.List.{List, [], ◌∷◌}
use mathlib.Core.Option.{Option, none, some}
use native.Mathlib.Decide.{ℕ_discrete}

abbrev pub ltb : ℕ → ℕ → Bool
ltb a b = elim (compare a b) [ Ordering.lt ↦ true | _ ↦ false ]

abbrev pub leb : ℕ → ℕ → Bool
leb a b = elim (compare a b) [ Ordering.gt ↦ false | _ ↦ true ]

infix 50 ◌==◌
abbrev pub ◌==◌ : ℕ → ℕ → Bool
a == b = elim (compare a b) [ Ordering.eq ↦ true | _ ↦ false ]

infix 1 if◌then◌else◌
abbrev pub if◌then◌else◌ {ℓ} : {A : Type ℓ} → Bool → A → A → A
if true then x else y = x
if false then x else y = y

pub Bool-cases : (b : Bool) → (b ≡ true) ⊎ (b ≡ false)
Bool-cases true = inl refl
Bool-cases false = inr refl

pub Option-cases {ℓ} : {A : Type ℓ} (o : Option A) → (o ≡ none) ⊎ ((a : A) × (o ≡ some a))
Option-cases none = inl refl
Option-cases (some a) = inr (a, refl)

-- `PartialEq` of the program's types: a decision, which a branch by `ite` takes apart.
pub record Eq {ℓ} (A : Type ℓ) : Type ℓ where
  pub dec : Discrete A

infix 50 ◌≟◌
abbrev pub ◌≟◌ {ℓ} : {A : Type ℓ} ⦃e : Eq A⦄ (a b : A) → Dec (a ≡ b)
◌≟◌ ⦃e⦄ = e.dec

instance abbrev pub nat_eq : Eq ℕ
nat_eq = record { dec = ℕ_discrete }

module _ {ℓ} {A : Type ℓ} (d : Discrete A) where
  -- Both halves of a comparison of two non-empty lists, joined.
  cons_dec : {x y : A} {xs ys : List A} → Dec (x ≡ y) → Dec (xs ≡ ys) → Dec (x ∷ xs ≡ y ∷ ys)
  cons_dec (yes p) (yes q) = yes (cc)
  cons_dec (yes p) (no q) = no (λ r. q (cc))
  cons_dec (no p) _ = no (λ r. p (cc))

  unfoldable pub list_dec : Discrete (List A)
  unfolding cons_dec
  list_dec [] [] = yes refl
  list_dec [] (y ∷ ys) = no (λ p. cc)
  list_dec (x ∷ xs) [] = no (λ p. cc)
  list_dec (x ∷ xs) (y ∷ ys) = cons_dec (d x y) (list_dec xs ys)

instance abbrev pub list_eq {ℓ} : {A : Type ℓ} ⦃e : Eq A⦄ → Eq (List A)
list_eq ⦃e⦄ = record { dec = list_dec e.dec }
