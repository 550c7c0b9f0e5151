-- ===== src/Net/Conhash/Successor.antt =====
-- The entry that a key falls to: the next one on the ring.
use fluxpeer.Prelude.{
  ◌≡◌, inl, inr, true, false, [], ◌∷◌, Option, none, some, if◌then◌else◌, arith, Bool-cases,
}
use fluxpeer.Prelude.Maps.{Map, lookup}
use fluxpeer.Prelude.Text.{Text, text_eq}
use fluxpeer.Net.Conhash.Order.{lex_le_refl, lex_le_total, lex_le_antisymm, lex_le_trans}
use fluxpeer.Net.Conhash.{lex_le, first_from}

module _ {N : Type 0} where
  -- `k` is the least key that is not below `from`, and holds `v`.
  pub record IsFirst (from : Text) (m : Map Text N) (k : Text) (v : N) : Type 0 where
    pub held : lookup k m ≡ some v
    pub reached : lex_le from k ≡ true
    pub least : (j : Text) (w : N) → lookup j m ≡ some w → lex_le from j ≡ true → lex_le k j ≡ true

  pub data FirstFrom (from : Text) (m : Map Text N) : Option (Text × N) → Type 0 where
    found : (k : Text) (v : N) → IsFirst from m k v → FirstFrom from m (some (k, v))
    missing :
        ((j : Text) (w : N) → lookup j m ≡ some w → lex_le from j ≡ false) → FirstFrom from m none

  first_step :
      (from k : Text) (v : N) (m : Map Text N) (rest : Option (Text × N))
      → FirstFrom from m rest
      → FirstFrom from ((k, v) ∷ m) (
          if lex_le from k
          then elim rest [
            | none ↦ some (k, v)
            | some (j, w) ↦ if lex_le k j then some (k, v) else some (j, w)
          ]
          else rest)
  unfolding lookup
  first_step from k v m _ (missing none_there) = elim (Bool-cases (lex_le from k)) [
    | inr below ↦ rw below (missing (λ j w h. ground (arith, none_there j w)))
    | inl ahead ↦ rw ahead (
        found k v (record {
          held = ground arith;
          reached = ahead;
          least = λ j w h p. ground (arith, none_there j w, lex_le_refl k);
        }))
  ]
  first_step from k v m _ (found i u f) = elim (Bool-cases (lex_le from k)) [
    | inr below ↦ rw below (
        found i u (record {
          held = ground (arith, f.held, f.reached);
          reached = f.reached;
          least = λ j w h p. ground (arith, f.least j w);
        }))
    | inl ahead ↦ elim (Bool-cases (lex_le k i)) [
      | inl first ↦
          rw (ahead, first)
            (found k v (record {
              held = ground arith;
              reached = ahead;
              least = λ j w h p. ground (arith, f.least j w, lex_le_trans k i j, lex_le_refl k);
            }))
      | inr later ↦
          rw (ahead, later)
            (found i u (record {
              held = ground (arith, f.held, lex_le_refl k);
              reached = f.reached;
              least = λ j w h p. ground (arith, f.least j w, lex_le_total k i);
            }))
    ]
  ]

  -- The search finds the least key from `from` on, or there is none.
  pub first_from_cases : (from : Text) (m : Map Text N) → FirstFrom from m (first_from from m)
  unfolding first_from lookup
  first_from_cases from [] = missing (λ j w h. cc)
  first_from_cases from ((k, v) ∷ m) =
      first_step from k v m (first_from from m) (first_from_cases from m)

  -- Only one entry can be the first.
  pub first_from_unique :
      (from : Text) (m : Map Text N) (k : Text) (v : N)
      → IsFirst from m k v
      → first_from from m ≡ some (k, v)
  first_from_unique from m k v f = go (first_from from m) (first_from_cases from m)
    where
      go : (r : Option (Text × N)) → FirstFrom from m r → r ≡ some (k, v)
      go _ (missing nothing) = cc (nothing k v f.held, f.reached)
      go _ (found i u g) =
          let same : i ≡ k =
            lex_le_antisymm i k (g.least k v f.held f.reached) (f.least i u g.held g.reached) in
          let value : u ≡ v = ground (arith, g.held, f.held) in cc
