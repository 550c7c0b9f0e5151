-- ===== src/Control/Pop/Unique.antt =====
-- A table has one challenge of a name, so that what is pruned of it is what has expired.
use fluxpeer.Prelude.{
  ℕ, ◌≡◌, inl, inr, refl, sym, ap, ◌∙◌, List, [], ◌∷◌, none, some, arith, ltb, Bool-cases, ◌≟◌,
  if_pos, if_neg, list_eq, nat_eq,
}
use mathlib.Core.Path.{subst}
use fluxpeer.Prelude.Text.{Text}
use fluxpeer.Prelude.Maps.{Map, lookup, insert, remove, lookup-insert, lookup-remove}
use fluxpeer.Control.Key.{KeyCodec}
use fluxpeer.Control.Pop.{Curve, Pending, prune, random_hex, verify}
use fluxpeer.Control.Pop.Pruned.{lookup-prune-none}
use fluxpeer.Control.Pop.Challenges.{Call, ask, answer, call, call_ask, run}

abbrev pub IsUnique : Map Text Pending → Type 0
IsUnique [] = Unit
IsUnique ((id, p) ∷ m) = (lookup id m ≡ none) × IsUnique m

pub lookup-prune :
    (id : Text) (p : Pending) (m : Map Text Pending) (now : ℕ)
    → IsUnique m
    → lookup id (prune m now) ≡ some p
    → lookup id m ≡ some p
unfolding prune lookup
lookup-prune id p [] now h e = cc
lookup-prune id p ((j, q) ∷ m) now h e = elim (Bool-cases (ltb now q.expires)) [
  | inl keep ↦
      let e' = rw keep at e in
      elim (j ≟ id) [
        | yes same ↦
            if_pos (j ≟ id) same (some q) (lookup id m)
            ∙ sym (if_pos (j ≟ id) same (some q) (lookup id (prune m now)))
            ∙ e'
        | no other ↦
            if_neg (j ≟ id) other (some q) (lookup id m)
            ∙ lookup-prune id p m now h.1
                (sym (if_neg (j ≟ id) other (some q) (lookup id (prune m now))) ∙ e')
      ]
  | inr go ↦
      let e' = rw go at e in
      elim (j ≟ id) [
        | yes same ↦ cc (e', lookup-prune-none id m now (ap (λ z. lookup z m) (sym same) ∙ h.0))
        | no other ↦ if_neg (j ≟ id) other (some q) (lookup id m) ∙ lookup-prune id p m now h.1 e'
      ]
]

prune-IsUnique : (m : Map Text Pending) (now : ℕ) → IsUnique m → IsUnique (prune m now)
unfolding prune
prune-IsUnique [] now h = tt
prune-IsUnique ((j, q) ∷ m) now h = elim (Bool-cases (ltb now q.expires)) [
  | inl keep ↦ rw keep (lookup-prune-none j m now h.0, prune-IsUnique m now h.1)
  | inr go ↦ rw go (prune-IsUnique m now h.1)
]

remove-IsUnique : (id : Text) (m : Map Text Pending) → IsUnique m → IsUnique (remove id m)
unfolding remove
remove-IsUnique id [] h = tt
remove-IsUnique id ((j, q) ∷ m) h = elim (j ≟ id) [
  | yes same ↦
      subst IsUnique (sym (if_pos (j ≟ id) same (remove id m) ((j, q) ∷ remove id m)))
        (remove-IsUnique id m h.1)
  | no other ↦
      subst IsUnique (sym (if_neg (j ≟ id) other (remove id m) ((j, q) ∷ remove id m)))
        (lookup-remove id j m ∙ ground (arith, h.0), remove-IsUnique id m h.1)
]

insert-IsUnique :
    (id : Text) (p : Pending) (m : Map Text Pending) → IsUnique m → IsUnique (insert id p m)
unfolding insert lookup
insert-IsUnique id p [] h = (refl, tt)
insert-IsUnique id p ((j, q) ∷ m) h = elim (j ≟ id) [
  | yes same ↦
      subst IsUnique (sym (if_pos (j ≟ id) same ((id, p) ∷ m) ((j, q) ∷ insert id p m)))
        (ap (λ z. lookup z m) (sym same) ∙ h.0, h.1)
  | no other ↦ subst IsUnique (sym (if_neg (j ≟ id) other ((id, p) ∷ m) ((j, q) ∷ insert id p m))) (
    lookup-insert id j p m ∙ if_neg (id ≟ j) (λ e. other (sym e)) (some p) (lookup j m) ∙ h.0,
    insert-IsUnique id p m h.1,
  )
]

module _ (codec : KeyCodec) (curve : Curve) where
  call-IsUnique : (c : Call) (m : Map Text Pending) → IsUnique m → IsUnique (call codec curve c m)
  unfolding call verify
  call-IsUnique (answer now id claimed proof) m h =
      remove-IsUnique id (prune m now) (prune-IsUnique m now h)
  call-IsUnique (ask ephemeral buf now claimed) m h =
      let pruned = prune-IsUnique m now h in
      call_ask codec curve IsUnique m ephemeral buf now claimed h pruned
        (λ p small. insert-IsUnique (random_hex buf) p (prune m now) pruned)

  pub run-IsUnique :
      (cs : List Call) (m : Map Text Pending) → IsUnique m → IsUnique (run codec curve cs m)
  unfolding run
  run-IsUnique [] m h = h
  run-IsUnique (c ∷ cs) m h = run-IsUnique cs (call codec curve c m) (call-IsUnique c m h)
