-- ===== src/Node/Indices.antt =====
-- node/src/worker.rs: the index table of a worker, by which a packet finds its session. The map of
-- the owners, which all workers share, is a state beside the table; a call holds its lock while it
-- writes.
pub mod Tidy
pub mod Calls
mod Tests
use fluxpeer.Prelude.{
  ℕ, Bool, true, false, not, ◌&&◌, ◌||◌, List, [], ◌∷◌, Option, none, some, ◌==◌, if◌then◌else◌, Eq,
  ◌≟◌, ite, list_eq, nat_eq,
}
use fluxpeer.Prelude.Maps.{Map, lookup, insert, remove}

abbrev pub Key : Type 0
Key = List ℕ

abbrev pub IndexOwner : Type 0
IndexOwner = Map ℕ ℕ

pub record IndexSlots : Type 0 where
  pub current : Option ℕ
  pub previous : Option ℕ
  pub pending : Option ℕ

abbrev pub no_slots : IndexSlots
no_slots = record { current = none; previous = none; pending = none }

pub record IndexTable : Type 0 where
  pub local : Map ℕ Key
  pub wid : ℕ
  pub slots : Map Key IndexSlots

unfoldable pub is_some_of : Option ℕ → ℕ → Bool
is_some_of none idx = false
is_some_of (some i) idx = i == idx

-- `keep.contains(&Some(idx))`.
unfoldable pub is_kept : IndexSlots → ℕ → Bool
is_kept s idx = is_some_of s.current idx || is_some_of s.previous idx || is_some_of s.pending idx

unfoldable pub slots_of : Map ℕ Key → Map Key IndexSlots
slots_of [] = []
slots_of ((idx, pk) ∷ m) = insert pk (record no_slots { pending = some idx }) (slots_of m)

unfoldable pub new : Map ℕ Key → ℕ → IndexTable
new local wid = record { local = local; wid = wid; slots = slots_of local }

-- An index is given up where this worker still owns it.
unfoldable pub release : ℕ → ℕ → IndexOwner → IndexOwner
release wid idx owner = elim (lookup idx owner) [
  | none ↦ owner
  | some w ↦ if w == wid then remove idx owner else owner
]

-- `*peer != pk || keep.contains(&Some(*idx))`.
unfoldable pub stays : Key → IndexSlots → ℕ → Key → Bool
stays pk s idx peer = ite (peer ≟ pk) (is_kept s idx) true

-- `local.retain`.
unfoldable pub retain_local : ℕ → Key → IndexSlots → Map ℕ Key → IndexOwner → Map ℕ Key × IndexOwner
retain_local wid pk s [] owner = ([], owner)
retain_local wid pk s ((idx, peer) ∷ m) owner =
    let stay = stays pk s idx peer in
    let rest = retain_local wid pk s m (if stay then owner else release wid idx owner) in
    (if stay then (idx, peer) ∷ rest.0 else rest.0, rest.1)

unfoldable pub prune : IndexTable → IndexOwner → Key → IndexTable × IndexOwner
prune t owner pk = elim (lookup pk t.slots) [
  | none ↦ (t, owner)
  | some s ↦
      let (local, owner') = retain_local t.wid pk s t.local owner in
      (record t { local = local }, owner')
]

-- `entry(pk).or_default()`.
unfoldable pub slots_or_default : IndexTable → Key → IndexSlots
slots_or_default t pk = elim (lookup pk t.slots) [ none ↦ no_slots | some s ↦ s ]

unfoldable pub insert_index : IndexTable → IndexOwner → ℕ → Key → IndexTable × IndexOwner
insert_index t owner idx pk =
    let s = record (slots_or_default t pk) { pending = some idx } in
    let (t', owner') = prune (record t { slots = insert pk s t.slots }) owner pk in
    (record t' { local = insert idx pk t'.local }, insert idx t'.wid owner')

-- The pending session takes over, and the one before it stays for what is still on its way.
unfoldable pub taken_over : IndexSlots → IndexSlots
taken_over s = record { current = s.pending; previous = s.current; pending = none }

unfoldable pub confirm : IndexTable → IndexOwner → ℕ → Key → IndexTable × IndexOwner
confirm t owner idx pk = elim (lookup pk t.slots) [
  | none ↦ (t, owner)
  | some s ↦
      if is_some_of s.pending idx
      then prune (record t { slots = insert pk (taken_over s) t.slots }) owner pk
      else (t, owner)
]

unfoldable pub get : IndexTable → ℕ → Option Key
get t idx = lookup idx t.local

-- The indices of a peer.
unfoldable pub indices_of : Key → Map ℕ Key → List ℕ
indices_of pk [] = []
indices_of pk ((idx, peer) ∷ m) = let rest = indices_of pk m in ite (peer ≟ pk) (idx ∷ rest) rest

unfoldable pub remove_all : {V : Type 0} → List ℕ → Map ℕ V → Map ℕ V
remove_all [] m = m
remove_all (i ∷ is) m = remove_all is (remove i m)

unfoldable pub remove_peer : IndexTable → IndexOwner → Key → IndexTable × IndexOwner
remove_peer t owner pk =
    let idxs = indices_of pk t.local in
    (record t { slots = remove pk t.slots; local = remove_all idxs t.local }, remove_all idxs owner)
