-- ===== src/Node/Indices/Tidy.antt =====
-- Each index of a worker is one of the three that its peer may have.
use fluxpeer.Prelude.{
  ℕ, ◌≡◌, ◌≢◌, inl, inr, refl, ap, sym, ◌∙◌, true, [], ◌∷◌, some, All, arith, Bool-cases,
  Option-cases, ◌≟◌, if_pos, if_neg, list_eq, nat_eq,
}
use fluxpeer.Prelude.Maps.{Map, lookup, insert, lookup-insert}
use fluxpeer.Node.Indices.{
  Key, IndexOwner, IndexSlots, IndexTable, is_some_of, is_kept, release, stays, retain_local, prune,
  slots_or_default, insert_index, taken_over, confirm,
}

-- The index is the current, the previous or the pending one of the peer.
abbrev pub IsIndexed : Map Key IndexSlots → ℕ → Key → Type 0
IsIndexed slots idx pk = (s : IndexSlots) × (lookup pk slots ≡ some s) × (is_kept s idx ≡ true)

abbrev pub AllIndexed : Map Key IndexSlots → Map ℕ Key → Type 0
AllIndexed slots = All (λ e. IsIndexed slots e.0 e.1)

abbrev pub IsTidy : IndexTable → Type 0
IsTidy t = AllIndexed t.slots t.local

retain-IsTidy :
    (slots : Map Key IndexSlots) (wid : ℕ) (pk : Key) (s : IndexSlots) (m : Map ℕ Key)
    (owner : IndexOwner)
    → lookup pk slots ≡ some s
    → All (λ e. e.1 ≢ pk → IsIndexed slots e.0 e.1) m
    → AllIndexed slots (retain_local wid pk s m owner).0
unfolding retain_local stays
retain-IsTidy slots wid pk s [] owner at h = tt
retain-IsTidy slots wid pk s ((idx, peer) ∷ m) owner at h = elim (peer ≟ pk) [
  | no other ↦
      rw (if_neg (peer ≟ pk) other (is_kept s idx) true)
        (h.0 other, retain-IsTidy slots wid pk s m owner at h.1)
  | yes same ↦ elim (Bool-cases (is_kept s idx)) [
    | inl kept ↦
        rw (if_pos (peer ≟ pk) same (is_kept s idx) true, kept)
          (
            (s, ap (λ k. lookup k slots) same ∙ at, kept),
            retain-IsTidy slots wid pk s m owner at h.1,
          )
    | inr dropped ↦
        rw (if_pos (peer ≟ pk) same (is_kept s idx) true, dropped)
          (retain-IsTidy slots wid pk s m (release wid idx owner) at h.1)
  ]
]

-- Entries of other peers are what they were where the slots of one peer are set.
pub others :
    (slots : Map Key IndexSlots) (pk : Key) (s : IndexSlots) (m : Map ℕ Key)
    → AllIndexed slots m
    → All (λ e. e.1 ≢ pk → IsIndexed (insert pk s slots) e.0 e.1) m
others slots pk s [] h = tt
others slots pk s ((idx, peer) ∷ m) h = (
  λ other. (
    h.0.0,
    lookup-insert pk peer s slots
        ∙ if_neg (pk ≟ peer) (λ e. other (sym e)) (some s) (lookup peer slots)
        ∙ h.0.1,
    h.0.2,
  ),
  others slots pk s m h.1,
)

pub set_self :
    (slots : Map Key IndexSlots) (pk : Key) (s : IndexSlots)
    → lookup pk (insert pk s slots) ≡ some s
set_self slots pk s = lookup-insert pk pk s slots ∙ if_pos (pk ≟ pk) refl (some s) (lookup pk slots)

-- The slots of a peer are set, and the indices that this gives up go.
prune-IsTidy :
    (t : IndexTable) (owner : IndexOwner) (pk : Key) (s : IndexSlots)
    → IsTidy t
    → let r = prune (record t { slots = insert pk s t.slots }) owner pk in
      IsTidy r.0 × (r.0.slots ≡ insert pk s t.slots) × (r.0.wid ≡ t.wid)
unfolding prune
prune-IsTidy t owner pk s h =
    rw (set_self t.slots pk s, prune)
      (
        retain-IsTidy (insert pk s t.slots) t.wid pk s t.local owner (set_self t.slots pk s)
            (others t.slots pk s t.local h),
        refl,
        refl,
      )

All-insert :
    (slots : Map Key IndexSlots) (idx : ℕ) (pk : Key) (m : Map ℕ Key)
    → IsIndexed slots idx pk
    → AllIndexed slots m
    → AllIndexed slots (insert idx pk m)
unfolding insert
All-insert slots idx pk [] new h = (new, tt)
All-insert slots idx pk ((j, peer) ∷ m) new h = elim (j ≟ idx) [
  | yes same ↦ rw (if_pos (j ≟ idx) same ((idx, pk) ∷ m) ((j, peer) ∷ insert idx pk m)) (new, h.1)
  | no other ↦
      rw (if_neg (j ≟ idx) other ((idx, pk) ∷ m) ((j, peer) ∷ insert idx pk m))
        (h.0, All-insert slots idx pk m new h.1)
]

pub insert_index-IsTidy :
    (t : IndexTable) (owner : IndexOwner) (idx : ℕ) (pk : Key)
    → IsTidy t
    → IsTidy (insert_index t owner idx pk).0
unfolding insert_index is_kept is_some_of
insert_index-IsTidy t owner idx pk h =
    let s = record (slots_or_default t pk) { pending = some idx } in
    let (tidy, slots, _) = prune-IsTidy t owner pk s h in
    let r = prune (record t { slots = insert pk s t.slots }) owner pk in
    All-insert r.0.slots idx pk r.0.local
      (s, ap (lookup pk) slots ∙ set_self t.slots pk s, ground arith) tidy

pub confirm-IsTidy :
    (t : IndexTable) (owner : IndexOwner) (idx : ℕ) (pk : Key)
    → IsTidy t
    → IsTidy (confirm t owner idx pk).0
unfolding confirm
confirm-IsTidy t owner idx pk h = elim (Option-cases (lookup pk t.slots)) [
  | inl none_ ↦ rw (none_, confirm) h
  | inr (s, at) ↦ elim (Bool-cases (is_some_of s.pending idx)) [
    | inl mine ↦ rw (at, confirm, mine) (prune-IsTidy t owner pk (taken_over s) h).0
    | inr other ↦ rw (at, confirm, other) h
  ]
]
