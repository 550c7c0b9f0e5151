-- ===== src/Node/Indices/Tests.antt =====
-- A worker with two peers, one of which rekeys.
use fluxpeer.Prelude.{◌≡◌, ◌≢◌, [], ◌∷◌, none, some, nat_eq, list_eq}
use fluxpeer.Prelude.Maps.{lookup}
use fluxpeer.Node.Routes.Members.{In}
use fluxpeer.Node.Indices.{
  Key, IndexOwner, IndexTable, insert_index, confirm, remove_peer, get, indices_of,
}
use fluxpeer.Node.Indices.Calls.{remove_peer_lem}

abbrev alice : Key
alice = 1 ∷ []

abbrev idle : IndexTable
idle = record { local = []; wid = 2; slots = [] }

abbrev first : IndexTable × IndexOwner
first = insert_index idle [] 257 alice

abbrev second : IndexTable × IndexOwner
second = confirm first.0 first.1 257 alice

remove_peer_lem_example :
    (get (remove_peer second.0 second.1 alice).0 257 ≢ some alice)
    × (In 257 (indices_of alice second.0.local)
        → lookup 257 (remove_peer second.0 second.1 alice).1 ≡ none)
    × ((In 257 (indices_of alice second.0.local) → ⊥)
        → lookup 257 (remove_peer second.0 second.1 alice).1 ≡ lookup 257 second.1)
remove_peer_lem_example = remove_peer_lem second.0 second.1 alice 257
