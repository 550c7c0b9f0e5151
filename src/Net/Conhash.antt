-- ===== src/Net/Conhash.antt =====
-- engine/net/fp-conhash/src/lib.rs: consistent hashing. The hash function is a parameter, as it is
-- a field in the source. The `BTreeMap` is the list of its entries, from which `range` and `iter`
-- take the least key; a key is a `Vec<u8>`, ordered by its bytes.
pub mod Order
pub mod Successor
pub mod Stability
mod Tests
use fluxpeer.Prelude.{
  ℕ, zero, suc, ◌+◌, Bool, true, false, List, [], ◌∷◌, ◌++◌, Option, none, some, ltb, ◌==◌,
  if◌then◌else◌, length,
}
use fluxpeer.Prelude.Maps.{Map, lookup, insert, remove}
use fluxpeer.Prelude.Text.{Text, text_eq, codes, decimal}

-- The order of two lists of bytes.
unfoldable pub lex_le : List ℕ → List ℕ → Bool
lex_le [] ys = true
lex_le (x ∷ xs) [] = false
lex_le (x ∷ xs) (y ∷ ys) =
    let rest = lex_le xs ys in if ltb x y then true else if x == y then rest else false

-- The trait `Node`.
pub record Node (N : Type 0) : Type 0 where
  pub name : N → Text

module _ {N : Type 0} where
  -- `range(from..).next()`: the entry with the least key that is not below `from`.
  unfoldable pub first_from : List ℕ → Map Text N → Option (Text × N)
  first_from from [] = none
  first_from from ((k, v) ∷ m) =
      let rest = first_from from m in
      if lex_le from k
      then elim rest [
        | none ↦ some (k, v)
        | some (j, w) ↦ if lex_le k j then some (k, v) else some (j, w)
      ]
      else rest

  -- The entry from the hashed key on, or back to the first one.
  unfoldable pub get_entry : Map Text N → List ℕ → Option (Text × N)
  get_entry nodes hashed_key = elim (first_from hashed_key nodes) [
    | some e ↦ some e
    | none ↦ first_from [] nodes
  ]

  unfoldable pub value_of : Option (Text × N) → Option N
  value_of none = none
  value_of (some (_, v)) = some v

  unfoldable pub key_of : Option (Text × N) → Option Text
  key_of none = none
  key_of (some (k, _)) = some k

module _ (hash_fn : List ℕ → List ℕ) {N : Type 0} (node : Node N) where
  pub record ConsistentHash : Type 0 where
    pub nodes : Map Text N
    pub replicas : Map Text ℕ

  unfoldable pub with_hash : ConsistentHash
  with_hash = record { nodes = []; replicas = [] }

  -- `format!("{}:{}", node_name, replica)`, hashed.
  unfoldable pub replica_key : Text → ℕ → Text
  replica_key node_name replica = hash_fn (node_name ++ (codes ":" ++ decimal replica))

  -- The loop over the replicas from `i` on, of which `n` are left.
  unfoldable pub remove_replicas : ℕ → ℕ → Text → Map Text N → Map Text N
  remove_replicas zero i node_name nodes = nodes
  remove_replicas (suc n) i node_name nodes =
      remove_replicas n (i + 1) node_name (remove (replica_key node_name i) nodes)

  unfoldable pub remove_node : ConsistentHash → N → ConsistentHash
  remove_node h v = elim (lookup (node.name v) h.replicas) [
    | none ↦ h
    | some num_replicas ↦ record {
      nodes = remove_replicas num_replicas 0 (node.name v) h.nodes;
      replicas = remove (node.name v) h.replicas;
    }
  ]

  unfoldable pub add_replicas : ℕ → ℕ → Text → N → Map Text N → Map Text N
  add_replicas zero i node_name v nodes = nodes
  add_replicas (suc n) i node_name v nodes =
      add_replicas n (i + 1) node_name v (insert (replica_key node_name i) v nodes)

  unfoldable pub add : ConsistentHash → N → ℕ → ConsistentHash
  add h v num_replicas =
      let h' = remove_node h v in
      record {
        nodes = add_replicas num_replicas 0 (node.name v) v h'.nodes;
        replicas = insert (node.name v) num_replicas h'.replicas;
      }

  unfoldable pub get : ConsistentHash → List ℕ → Option N
  get h key = if length h.nodes == 0 then none else value_of (get_entry h.nodes (hash_fn key))

  unfoldable pub get_node_hashed_key : ConsistentHash → List ℕ → Option Text
  get_node_hashed_key h key =
      if length h.nodes == 0 then none else key_of (get_entry h.nodes (hash_fn key))

  unfoldable pub len : ConsistentHash → ℕ
  len h = length h.nodes

  unfoldable pub is_empty : ConsistentHash → Bool
  is_empty h = len h == 0
