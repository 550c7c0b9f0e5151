-- ===== src/Net/Conhash/Tests.antt =====
-- Consistent hashing, on a ring of two names that are hashed to their first byte.
use fluxpeer.Prelude.{
  ℕ, ◌<◌, ◌≡◌, ◌≢◌, ◌⊎◌, refl, List, none, some, false, take, arith, list_dec, ℕ_discrete,
}
use fluxpeer.Prelude.Maps.{lookup, insert}
use fluxpeer.Prelude.Text.{Text, text_eq, codes}
use fluxpeer.Net.Conhash.{
  lex_le, Node, first_from, get_entry, value_of, key_of, ConsistentHash, with_hash, replica_key,
  remove_node, add_replicas, add, get, get_node_hashed_key, len, is_empty,
}
use fluxpeer.Net.Conhash.Stability.{get-add, get-remove_node}

abbrev first_byte : List ℕ → List ℕ
first_byte xs = take 1 xs

abbrev named : Node Text
named = record { name = λ x. x }

abbrev ring : ConsistentHash first_byte named
ring = add first_byte named (with_hash first_byte named) (codes "b") 2

ring_new : lookup (codes "d") ring.replicas ≡ none
unfolding lookup add with_hash insert remove_node list_dec ℕ_discrete
ring_new = refl

get-add_example :
    (get first_byte named (add first_byte named ring (codes "d") 1) (codes "c")
      ≡ get first_byte named ring (codes "c"))
    ⊎ (get first_byte named (add first_byte named ring (codes "d") 1) (codes "c")
        ≡ some (codes "d"))
get-add_example = get-add first_byte named ring (codes "d") 1 (codes "c") ring_new

abbrev both : ConsistentHash first_byte named
both = add first_byte named ring (codes "d") 1

both_there : lookup (codes "d") both.replicas ≡ some 1
unfolding lookup add with_hash insert remove_node list_dec ℕ_discrete
both_there = refl

both_at : get_node_hashed_key first_byte named both (codes "e") ≡ some (codes "b")
unfolding get_node_hashed_key key_of get_entry first_from lex_le lookup add add_replicas replica_key
    with_hash insert remove_node list_dec ℕ_discrete
both_at = refl

both_apart : (i : ℕ) → i < 1 → replica_key first_byte named (codes "d") i ≢ codes "b"
unfolding replica_key
both_apart i h = ground arith

get-remove_node_example :
    get first_byte named (remove_node first_byte named both (codes "d")) (codes "e")
    ≡ get first_byte named both (codes "e")
get-remove_node_example =
    get-remove_node first_byte named both (codes "d") (codes "e") both_there both_at both_apart

-- The key after the last entry falls to the first one.
both_wraps : get first_byte named both (codes "e") ≡ some (codes "b")
unfolding get value_of get_entry first_from lex_le lookup add add_replicas replica_key with_hash
    insert remove_node list_dec ℕ_discrete
both_wraps = refl

both-len : (len first_byte named both ≡ 2) × (is_empty first_byte named both ≡ false)
unfolding len is_empty lookup add add_replicas replica_key with_hash insert remove_node list_dec
    ℕ_discrete
both-len = (refl, refl)
