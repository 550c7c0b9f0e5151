-- ===== src/Net/Conhash/Stability.antt =====
-- A change of the nodes moves no more keys than it has to.
use fluxpeer.Prelude.{
  ℕ, zero, suc, ◌+◌, ◌<◌, ◌≤◌, ◌≡◌, ◌≢◌, ◌⊎◌, inl, inr, refl, sym, ap, ◌∙◌, List, [], ◌∷◌, Option,
  none, some, ◌==◌, if◌then◌else◌, arith, length, Bool-cases, Option-cases, ◌≟◌,
}
use fluxpeer.Prelude.Maps.{Map, lookup, insert, remove, lookup-insert, lookup-remove}
use fluxpeer.Prelude.Text.{Text, text_eq}
use fluxpeer.Net.Conhash.Order.{lex_le_antisymm}
use fluxpeer.Net.Conhash.Successor.{FirstFrom, found, missing, first_from_cases, first_from_unique}
use fluxpeer.Net.Conhash.{
  Node, first_from, ConsistentHash, replica_key, remove_replicas, remove_node, add_replicas, add,
  get_entry, get, get_node_hashed_key, value_of, key_of,
}

module _ {N : Type 0} where
  -- One more entry is the first one, or what was first stays it.
  first_from-insert :
      (from k : Text) (v : N) (m : Map Text N)
      → (first_from from (insert k v m) ≡ first_from from m)
        ⊎ (first_from from (insert k v m) ≡ some (k, v))
  first_from-insert from k v m =
      go (first_from from m) (first_from_cases from m) (first_from from (insert k v m))
        (first_from_cases from (insert k v m))
    where
      go :
          (r : Option (Text × N))
          → FirstFrom from m r
          → (q : Option (Text × N)) → FirstFrom from (insert k v m) q
          → (q ≡ r) ⊎ (q ≡ some (k, v))
      go _ (missing none_there) _ (missing _) = inl refl
      go _ (missing none_there) _ (found i u g) = elim (k ≟ i) [
        | yes p ↦ inr (ground (arith, g.held, lookup-insert k i v m))
        | no p ↦ cc (none_there i u (ground (arith, g.held, lookup-insert k i v m)), g.reached)
      ]
      go _ (found i u f) _ (missing none_left) = elim (k ≟ i) [
        | yes p ↦ cc (none_left i v (ground (arith, lookup-insert k i v m)), f.reached)
        | no p ↦ cc (none_left i u (ground (arith, f.held, lookup-insert k i v m)), f.reached)
      ]
      go _ (found i u f) _ (found j w g) = elim (k ≟ j) [
        | yes p ↦ inr (ground (arith, g.held, lookup-insert k j v m))
        | no p ↦
            let kept : lookup j m ≡ some w = ground (arith, g.held, lookup-insert k j v m) in
            let up = f.least j w kept g.reached in
            elim (k ≟ i) [
              | yes q ↦
                  let down = g.least i v (ground (arith, lookup-insert k i v m)) f.reached in
                  absurd (p (q ∙ lex_le_antisymm i j up down))
              | no q ↦
                  let down =
                    g.least i u (ground (arith, f.held, lookup-insert k i v m)) f.reached in
                  let same : i ≡ j = lex_le_antisymm i j up down in
                  let value : u ≡ w = ground (arith, f.held, kept) in inl (cc)
            ]
      ]

  get_entry-insert :
      (m : Map Text N) (hashed k : Text) (v : N)
      → (get_entry (insert k v m) hashed ≡ get_entry m hashed)
        ⊎ (get_entry (insert k v m) hashed ≡ some (k, v))
  unfolding get_entry
  get_entry-insert m hashed k v = elim (first_from-insert hashed k v m) [
    | inr e ↦ inr (rw (e, get_entry) refl)
    | inl e ↦ elim (Option-cases (first_from hashed m)) [
      | inr (x, f) ↦ inl (rw (e, f, get_entry) refl)
      | inl f ↦ elim (first_from-insert [] k v m) [
        | inl g ↦ inl (rw (e, f, g, get_entry) refl)
        | inr g ↦ inr (rw (e, f, g, get_entry) refl)
      ]
    ]
  ]

  -- An entry of another key goes, and what was first stays it.
  first_from-remove :
      (from k : Text) (m : Map Text N) (i : Text) (u : N)
      → first_from from m ≡ some (i, u)
      → k ≢ i
      → first_from from (remove k m) ≡ some (i, u)
  first_from-remove from k m i u e ne = go (first_from from m) (first_from_cases from m) e
    where
      go :
          (r : Option (Text × N))
          → FirstFrom from m r
          → r ≡ some (i, u)
          → first_from from (remove k m) ≡ some (i, u)
      go _ (missing _) p = cc
      go _ (found j w f) p =
          let same : ◌≡◌ {A = Text × N} (j, w) (i, u) = cc in
          let key : j ≡ i = ap (λ x. x.0) same in
          let value : w ≡ u = ap (λ x. x.1) same in
          first_from_unique from (remove k m) i u (record {
            held = ground (arith, f.held, lookup-remove k i m);
            reached = rw (← key) f.reached;
            least = λ x y h q. rw (← key) (f.least x y (ground (arith, h, lookup-remove k x m)) q);
          })

  first_from-remove-none :
      (from k : Text) (m : Map Text N)
      → first_from from m ≡ none
      → first_from from (remove k m) ≡ none
  first_from-remove-none from k m e =
      go (first_from from m) (first_from_cases from m) e (first_from from (remove k m))
        (first_from_cases from (remove k m))
    where
      go :
          (r : Option (Text × N))
          → FirstFrom from m r
          → r ≡ none
          → (q : Option (Text × N)) → FirstFrom from (remove k m) q
          → q ≡ none
      go _ _ p _ (missing _) = refl
      go _ (found j w f) p _ (found i u g) = cc
      go _ (missing nothing) p _ (found i u g) =
          cc (nothing i u (ground (arith, g.held, lookup-remove k i m)), g.reached)

  get_entry-remove :
      (m : Map Text N) (hashed k i : Text) (u : N)
      → get_entry m hashed ≡ some (i, u)
      → k ≢ i
      → get_entry (remove k m) hashed ≡ some (i, u)
  unfolding get_entry
  get_entry-remove m hashed k i u e ne = elim (Option-cases (first_from hashed m)) [
    | inr (x, f) ↦
        let here : some x ≡ some (i, u) = rw (f, get_entry) at e in
        rw (first_from-remove hashed k m i u (f ∙ here) ne, get_entry) refl
    | inl f ↦
        let back : first_from [] m ≡ some (i, u) = rw (f, get_entry) at e in
        rw (first_from-remove-none hashed k m f, first_from-remove [] k m i u back ne, get_entry)
          refl
  ]

  search_empty :
      (m : Map Text N) (hashed : Text)
      → (if length m == 0 then none else value_of (get_entry m hashed))
        ≡ value_of (get_entry m hashed)
  unfolding get_entry first_from value_of
  search_empty [] hashed = refl
  search_empty (e ∷ m) hashed = ground arith

module _ (hash_fn : List ℕ → List ℕ) {N : Type 0} (node : Node N) where
  -- The early return for an empty map answers what the search would.
  get_lem :
      (h : ConsistentHash hash_fn node) (key : List ℕ)
      → get hash_fn node h key ≡ value_of (get_entry h.nodes (hash_fn key))
  unfolding get
  get_lem h key = search_empty h.nodes (hash_fn key)

  add_replicas_lem :
      (n i : ℕ) (node_name : Text) (v : N) (m : Map Text N) (hashed : Text)
      → let r = value_of (get_entry (add_replicas hash_fn node n i node_name v m) hashed) in
        (r ≡ value_of (get_entry m hashed)) ⊎ (r ≡ some v)
  unfolding add_replicas value_of
  add_replicas_lem zero i node_name v m hashed = inl refl
  add_replicas_lem (suc n) i node_name v m hashed =
      let k : Text = replica_key hash_fn node node_name i in
      elim (add_replicas_lem n (i + 1) node_name v (insert k v m) hashed) [
        | inr e ↦ inr e
        | inl e ↦ elim (get_entry-insert m hashed k v) [
          | inl f ↦ inl (e ∙ ap value_of f)
          | inr f ↦ inr (e ∙ ap value_of f)
        ]
      ]

  not_there :
      (h : ConsistentHash hash_fn node) (v : N)
      → lookup (node.name v) h.replicas ≡ none
      → remove_node hash_fn node h v ≡ h
  unfolding remove_node
  not_there h v new = rw (new, remove_node) refl

  entry_of :
      (h : ConsistentHash hash_fn node) (key : List ℕ) {k : Text}
      → get_node_hashed_key hash_fn node h key ≡ some k
      → (u : N) × (get_entry h.nodes (hash_fn key) ≡ some (k, u))
  unfolding get_node_hashed_key key_of
  entry_of h key {k} at = elim (Bool-cases (length h.nodes == 0)) [
    | inl empty ↦ cc (rw empty at at)
    | inr full ↦ elim (Option-cases (get_entry h.nodes (hash_fn key))) [
      | inl e ↦ cc (rw (full, e, key_of) at at)
      | inr ((j, u), e) ↦ let same : some j ≡ some k = rw (full, e, key_of) at at in (u, cc)
    ]
  ]

  -- A node that is added takes over keys for itself alone: after it, each key falls to the node
  -- that it fell to before, or to the new one.
  pub get-add :
      (h : ConsistentHash hash_fn node) (v : N) (num_replicas : ℕ) (key : List ℕ)
      → lookup (node.name v) h.replicas ≡ none
      → let r = get hash_fn node (add hash_fn node h v num_replicas) key in
        (r ≡ get hash_fn node h key) ⊎ (r ≡ some v)
  unfolding add
  get-add h v num_replicas key new =
      let gone : remove_node hash_fn node h v ≡ h = not_there h v new in
      let mine = get_lem h key in
      let after : get hash_fn node (add hash_fn node h v num_replicas) key
          ≡ value_of (
              get_entry (add_replicas hash_fn node num_replicas 0 (node.name v) v h.nodes)
                (hash_fn key)) =
        get_lem (add hash_fn node h v num_replicas) key
        ∙ ap
            (λ x. value_of (
              get_entry
                (add_replicas hash_fn node num_replicas 0 (node.name v) v (ConsistentHash.nodes x))
                (hash_fn key)))
            gone in
      elim (add_replicas_lem num_replicas 0 (node.name v) v h.nodes (hash_fn key)) [
        | inl e ↦ inl (after ∙ e ∙ sym mine)
        | inr e ↦ inr (after ∙ e)
      ]

  remove_replicas_lem :
      (n i : ℕ) (node_name : Text) (m : Map Text N) (hashed k : Text) (u : N)
      → get_entry m hashed ≡ some (k, u)
      → ((j : ℕ) → i ≤ j → j < i + n → replica_key hash_fn node node_name j ≢ k)
      → get_entry (remove_replicas hash_fn node n i node_name m) hashed ≡ some (k, u)
  unfolding remove_replicas
  remove_replicas_lem zero i node_name m hashed k u e apart = e
  remove_replicas_lem (suc n) i node_name m hashed k u e apart =
      remove_replicas_lem n (i + 1) node_name (remove (replica_key hash_fn node node_name i) m)
        hashed k u
        (get_entry-remove m hashed (replica_key hash_fn node node_name i) k u e
          (apart i (omega arith) (omega arith)))
        (λ j p q. apart j (omega arith) (omega arith))

  -- A node that is removed gives up its own keys alone: a key whose entry is no replica of the node
  -- falls to the same node after.
  pub get-remove_node :
      (h : ConsistentHash hash_fn node) (v : N) (key : List ℕ) {k : Text} {count : ℕ}
      → lookup (node.name v) h.replicas ≡ some count
      → get_node_hashed_key hash_fn node h key ≡ some k
      → ((i : ℕ) → i < count → replica_key hash_fn node (node.name v) i ≢ k)
      → get hash_fn node (remove_node hash_fn node h v) key ≡ get hash_fn node h key
  unfolding remove_node
  get-remove_node h v key {k} {count} there at apart =
      let (u, e) = entry_of h key at in
      let kept =
        remove_replicas_lem count 0 (node.name v) h.nodes (hash_fn key) k u e
          (λ j p q. apart j (omega arith)) in
      get_lem (remove_node hash_fn node h v) key
      ∙ rw (there, remove_node) (ap value_of (kept ∙ sym e))
      ∙ sym (get_lem h key)
