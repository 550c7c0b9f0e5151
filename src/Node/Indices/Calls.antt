-- ===== src/Node/Indices/Calls.antt =====
-- What the calls of an index table do to it and to the owners.
use fluxpeer.Prelude.{
  ℕ, ◌≡◌, ◌≢◌, ◌⊎◌, inl, inr, refl, ap, sym, ◌∙◌, true, ◌||◌, List, [], ◌∷◌, none, some, All, arith,
  Bool-cases, ◌≟◌, ite, if_pos, if_neg, list_eq, nat_eq,
}
use mathlib.Core.Path.{subst}
use fluxpeer.Prelude.Maps.{Map, lookup, remove, lookup-insert, lookup-remove}
use fluxpeer.Node.Routes.Members.{In}
use fluxpeer.Node.Indices.{
  Key, IndexOwner, IndexSlots, IndexTable, is_some_of, is_kept, release, stays, retain_local, prune,
  slots_or_default, insert_index, confirm, indices_of, get, remove_all, remove_peer,
}
use fluxpeer.Node.Indices.Tidy.{IsIndexed, IsTidy, set_self}

All-map :
    {P Q : ℕ × Key → Type 0} (xs : Map ℕ Key) → ((e : ℕ × Key) → P e → Q e) → All P xs → All Q xs
All-map [] f h = tt
All-map (x ∷ xs) f h = (f x h.0, All-map xs f h.1)

In-indices_of : (pk : Key) (m : Map ℕ Key) → All (λ e. e.1 ≡ pk → In e.0 (indices_of pk m)) m
unfolding indices_of
In-indices_of pk [] = tt
In-indices_of pk ((idx, peer) ∷ m) =
    let rest = indices_of pk m in
    let found = In-indices_of pk m in
    elim (peer ≟ pk) [
      | yes same ↦
          subst (λ ks. All (λ e. e.1 ≡ pk → In e.0 ks) ((idx, peer) ∷ m))
            (sym (if_pos (peer ≟ pk) same (idx ∷ rest) rest))
            (λ _. inl refl, All-map m (λ e h p. inr (h p)) found)
      | no other ↦
          subst (λ ks. All (λ e. e.1 ≡ pk → In e.0 ks) ((idx, peer) ∷ m))
            (sym (if_neg (peer ≟ pk) other (idx ∷ rest) rest)) (λ p. absurd (other p), found)
    ]

All-remove :
    (P : ℕ × Key → Type 0) (i : ℕ) (m : Map ℕ Key)
    → All P m
    → All (λ e. (e.0 ≢ i) × P e) (remove i m)
unfolding remove
All-remove P i [] h = tt
All-remove P i ((j, peer) ∷ m) h = elim (j ≟ i) [
  | yes same ↦ rw (if_pos (j ≟ i) same (remove i m) ((j, peer) ∷ remove i m)) (All-remove P i m h.1)
  | no other ↦
      rw (if_neg (j ≟ i) other (remove i m) ((j, peer) ∷ remove i m))
        ((other, h.0), All-remove P i m h.1)
]

All-remove_all :
    (P : ℕ × Key → Type 0) (ks : List ℕ) (m : Map ℕ Key)
    → All P m
    → All (λ e. (In e.0 ks → ⊥) × P e) (remove_all ks m)
unfolding remove_all
All-remove_all P [] m h = All-map m (λ e p. (λ i. i, p)) h
All-remove_all P (k ∷ ks) m h =
    All-map (remove_all ks (remove k m))
      (λ e r. (λ i. elim i [ inl p ↦ r.1.0 (sym p) | inr q ↦ r.0 q ], r.1.1))
      (All-remove_all (λ e. (e.0 ≢ k) × P e) ks (remove k m) (All-remove P k m h))

module _ {V : Type 0} where
  none-remove_all :
      (ks : List ℕ) (m : Map ℕ V) (j : ℕ) → lookup j m ≡ none → lookup j (remove_all ks m) ≡ none
  unfolding remove_all
  none-remove_all [] m j h = h
  none-remove_all (k ∷ ks) m j h =
      none-remove_all ks (remove k m) j (lookup-remove k j m ∙ ground (arith, h))

  lookup-remove_all :
      (ks : List ℕ) (m : Map ℕ V) (j : ℕ)
      → (In j ks → lookup j (remove_all ks m) ≡ none)
        × ((In j ks → ⊥) → lookup j (remove_all ks m) ≡ lookup j m)
  unfolding remove_all
  lookup-remove_all [] m j = (λ e. absurd e, λ _. refl)
  lookup-remove_all (k ∷ ks) m j =
      let rest = lookup-remove_all ks (remove k m) j in
      (
        λ i. elim i [
          | inl e ↦
              none-remove_all ks (remove k m) j
                (lookup-remove k j m ∙ if_pos (k ≟ j) e none (lookup j m))
          | inr q ↦ rest.0 q
        ],
        λ out.
            rest.1 (λ i. out (inr i))
            ∙ lookup-remove k j m
            ∙ if_neg (k ≟ j) (λ e. out (inl e)) none (lookup j m),
      )

-- What is found stands in the map.
All-lookup :
    (P : ℕ × Key → Type 0) (m : Map ℕ Key) (j : ℕ) (p : Key)
    → All P m
    → lookup j m ≡ some p
    → P (j, p)
unfolding lookup
All-lookup P [] j p h e = cc
All-lookup P ((i, q) ∷ m) j p h e = elim (i ≟ j) [
  | yes same ↦ subst P (cc (same, e, if_pos (i ≟ j) same (some q) (lookup j m))) h.0
  | no other ↦ All-lookup P m j p h.1 (sym (if_neg (i ≟ j) other (some q) (lookup j m)) ∙ e)
]

pub remove_peer-IsTidy :
    (t : IndexTable) (owner : IndexOwner) (pk : Key) → IsTidy t → IsTidy (remove_peer t owner pk).0
unfolding remove_peer
remove_peer-IsTidy t owner pk h =
    All-map (remove_all (indices_of pk t.local) t.local)
      (λ e r.
        let other : e.1 ≢ pk = λ same. r.0 (r.1.0 same) in
        let (s, at, kept) = r.1.1 in
        (
          s,
          lookup-remove pk e.1 t.slots
              ∙ if_neg (pk ≟ e.1) (λ p. other (sym p)) none (lookup e.1 t.slots)
              ∙ at,
          kept,
        ))
      (All-remove_all (λ e. (e.1 ≡ pk → In e.0 (indices_of pk t.local)) × IsIndexed t.slots e.0 e.1)
        (indices_of pk t.local) t.local (All_both _ _ t.local (In-indices_of pk t.local) h))
  where
    All_both :
        (P Q : ℕ × Key → Type 0) (xs : Map ℕ Key) → All P xs → All Q xs → All (λ e. P e × Q e) xs
    All_both P Q [] p q = tt
    All_both P Q (x ∷ xs) p q = ((p.0, q.0), All_both P Q xs p.1 q.1)

-- A peer that is removed has no index left, and each index that it had here has no owner left,
-- whichever worker it belonged to; the owners of all other indices stay.
pub remove_peer_lem :
    (t : IndexTable) (owner : IndexOwner) (pk : Key) (idx : ℕ)
    → (get (remove_peer t owner pk).0 idx ≢ some pk)
      × (In idx (indices_of pk t.local) → lookup idx (remove_peer t owner pk).1 ≡ none)
      × ((In idx (indices_of pk t.local) → ⊥)
          → lookup idx (remove_peer t owner pk).1 ≡ lookup idx owner)
unfolding remove_peer get
remove_peer_lem t owner pk idx =
    let ks = indices_of pk t.local in
    let kept = All-remove_all (λ e. e.1 ≡ pk → In e.0 ks) ks t.local (In-indices_of pk t.local) in
    let owners = lookup-remove_all ks owner idx in
    (
      λ e. let r = All-lookup _ (remove_all ks t.local) idx pk kept e in r.0 (r.1 refl),
      owners.0,
      owners.1,
    )

lookup-retain :
    (wid : ℕ) (pk : Key) (s : IndexSlots) (m : Map ℕ Key) (owner : IndexOwner) (j : ℕ) (p : Key)
    → lookup j m ≡ some p
    → (p ≢ pk) ⊎ (is_kept s j ≡ true)
    → lookup j (retain_local wid pk s m owner).0 ≡ some p
unfolding lookup retain_local stays
lookup-retain wid pk s [] owner j p e h = cc
lookup-retain wid pk s ((i, q) ∷ m) owner j p e h = elim (i ≟ j) [
  | yes same ↦
      let peer : q ≡ p = cc (e, if_pos (i ≟ j) same (some q) (lookup j m)) in
      let stay : ite (q ≟ pk) (is_kept s i) true ≡ true = elim (q ≟ pk) [
        | no other ↦ if_neg (q ≟ pk) other (is_kept s i) true
        | yes mine ↦ if_pos (q ≟ pk) mine (is_kept s i) true ∙ elim h [
          | inl differ ↦ absurd (differ (sym peer ∙ mine))
          | inr kept ↦ ap (is_kept s) same ∙ kept
        ]
      ] in
      rw stay (if_pos (i ≟ j) same (some q) _ ∙ ap some peer)
  | no other ↦
      let rest = sym (if_neg (i ≟ j) other (some q) (lookup j m)) ∙ e in
      elim (Bool-cases (ite (q ≟ pk) (is_kept s i) true)) [
        | inl stay ↦
            rw stay (if_neg (i ≟ j) other (some q) _ ∙ lookup-retain wid pk s m owner j p rest h)
        | inr go ↦ rw go (lookup-retain wid pk s m (release wid i owner) j p rest h)
      ]
]

-- A new index of a peer finds it, and this worker owns it. Until it is confirmed, the current index
-- and the previous one of the peer still find it, and the indices of other peers find these, unless
-- it is one of them.
pub insert_index_lem :
    (t : IndexTable) (owner : IndexOwner) (idx : ℕ) (pk : Key)
    → let r = insert_index t owner idx pk in
      (get r.0 idx ≡ some pk)
      × (lookup idx r.1 ≡ some t.wid)
      × ((j : ℕ) (p : Key)
          → j ≢ idx
          → get t j ≡ some p
          → (p ≢ pk)
            ⊎ ((is_some_of (slots_or_default t pk).current j
                  || is_some_of (slots_or_default t pk).previous j)
                ≡ true)
          → get r.0 j ≡ some p)
unfolding insert_index get prune is_kept
insert_index_lem t owner idx pk =
    let s = record (slots_or_default t pk) { pending = some idx } in
    let at = set_self t.slots pk s in
    let r = retain_local t.wid pk s t.local owner in
    rw (at, prune)
      (
        lookup-insert idx idx pk r.0 ∙ if_pos (idx ≟ idx) refl (some pk) (lookup idx r.0),
        lookup-insert idx idx t.wid r.1 ∙ if_pos (idx ≟ idx) refl (some t.wid) (lookup idx r.1),
        λ j p differ found h.
            lookup-insert idx j pk r.0
            ∙ if_neg (idx ≟ j) (λ e. differ (sym e)) (some pk) (lookup j r.0)
            ∙ lookup-retain t.wid pk s t.local owner j p found
                (elim h [ inl other ↦ inl other | inr kept ↦ inr (ground (arith, kept)) ]),
      )

-- One call of a table, and the tables that calls lead to.
pub data Step (t : IndexTable) (owner : IndexOwner) : IndexTable → IndexOwner → Type 0 where
  inserts :
      (idx : ℕ) (pk : Key)
      → Step t owner (insert_index t owner idx pk).0 (insert_index t owner idx pk).1
  confirms :
      (idx : ℕ) (pk : Key) → Step t owner (confirm t owner idx pk).0 (confirm t owner idx pk).1
  removes : (pk : Key) → Step t owner (remove_peer t owner pk).0 (remove_peer t owner pk).1

-- Other workers may change the owners between two calls.
pub data Reach (t : IndexTable) : IndexTable → Type 0 where
  here : Reach t t
  next :
      {u v : IndexTable} {owner owner' : IndexOwner} → Reach t u → Step u owner v owner' → Reach t v
