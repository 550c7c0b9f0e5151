-- ===== src/Control/Pop/Pruned.antt =====
-- What pruning, an insertion and a removal do to the table of the challenges.
use fluxpeer.Prelude.{
  ℕ, ◌+◌, ◌≤◌, ◌<◌, ◌≡◌, ◌≢◌, inl, inr, refl, sym, ap, ◌∙◌, true, [], ◌∷◌, none, some, arith, ltb,
  length, Bool-cases, ◌≟◌, if_pos, if_neg, list_eq, nat_eq,
}
use fluxpeer.Prelude.Text.{Text}
use fluxpeer.Prelude.Maps.{Map, lookup, insert, remove, lookup-insert}
use fluxpeer.Control.Pop.{Pending, prune}

pub length-insert-le :
    (k : Text) (p : Pending) (m : Map Text Pending) → length (insert k p m) ≤ length m + 1
unfolding insert
length-insert-le k p [] = omega arith
length-insert-le k p ((j, q) ∷ m) = ground (arith, length-insert-le k p m)

pub length-remove-le : (k : Text) (m : Map Text Pending) → length (remove k m) ≤ length m
unfolding remove
length-remove-le k [] = omega arith
length-remove-le k ((j, q) ∷ m) = ground (arith, length-remove-le k m)

pub length-prune-le : (m : Map Text Pending) (now : ℕ) → length (prune m now) ≤ length m
unfolding prune
length-prune-le [] now = omega arith
length-prune-le ((j, q) ∷ m) now = ground (arith, length-prune-le m now)

pub lookup-insert_other :
    (id j : Text) (q : Pending) (m : Map Text Pending)
    → j ≢ id
    → lookup id (insert j q m) ≡ lookup id m
lookup-insert_other id j q m other =
    lookup-insert j id q m ∙ if_neg (j ≟ id) other (some q) (lookup id m)

-- A challenge is kept until it expires, and none comes.
pub lookup-prune_alive :
    (id : Text) (p : Pending) (m : Map Text Pending) (now : ℕ)
    → lookup id m ≡ some p
    → now < p.expires
    → lookup id (prune m now) ≡ some p
unfolding prune lookup
lookup-prune_alive id p [] now e alive = cc
lookup-prune_alive id p ((j, q) ∷ m) now e alive = elim (j ≟ id) [
  | yes same ↦
      let this : q ≡ p = cc (e, if_pos (j ≟ id) same (some q) (lookup id m)) in
      let keep : ltb now q.expires ≡ true = rw this (ground arith) in
      rw keep (if_pos (j ≟ id) same (some q) (lookup id (prune m now)) ∙ ap some this)
  | no other ↦
      let rest =
        lookup-prune_alive id p m now (sym (if_neg (j ≟ id) other (some q) (lookup id m)) ∙ e)
          alive in
      elim (Bool-cases (ltb now q.expires)) [
        | inl keep ↦ rw keep (if_neg (j ≟ id) other (some q) (lookup id (prune m now)) ∙ rest)
        | inr go ↦ rw go rest
      ]
]

pub lookup-prune-none :
    (id : Text) (m : Map Text Pending) (now : ℕ)
    → lookup id m ≡ none
    → lookup id (prune m now) ≡ none
unfolding prune lookup
lookup-prune-none id [] now e = refl
lookup-prune-none id ((j, q) ∷ m) now e = elim (j ≟ id) [
  | yes same ↦ cc (e, if_pos (j ≟ id) same (some q) (lookup id m))
  | no other ↦
      let rest =
        lookup-prune-none id m now (sym (if_neg (j ≟ id) other (some q) (lookup id m)) ∙ e) in
      elim (Bool-cases (ltb now q.expires)) [
        | inl keep ↦ rw keep (if_neg (j ≟ id) other (some q) (lookup id (prune m now)) ∙ rest)
        | inr go ↦ rw go rest
      ]
]

pub prune-expires :
    (id : Text) (p : Pending) (m : Map Text Pending) (now : ℕ)
    → lookup id (prune m now) ≡ some p
    → now < p.expires
unfolding prune lookup
prune-expires id p [] now e = cc
prune-expires id p ((j, q) ∷ m) now e = elim (Bool-cases (ltb now q.expires)) [
  | inr go ↦ prune-expires id p m now (rw go at e)
  | inl keep ↦
      let e' = rw keep at e in
      elim (j ≟ id) [
        | yes same ↦
            let this : q ≡ p = cc (e', if_pos (j ≟ id) same (some q) (lookup id (prune m now))) in
            rw (← this) (ground arith)
        | no other ↦
            prune-expires id p m now
              (sym (if_neg (j ≟ id) other (some q) (lookup id (prune m now))) ∙ e')
      ]
]
