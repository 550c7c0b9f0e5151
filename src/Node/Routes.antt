-- ===== src/Node/Routes.antt =====
-- node/src/worker.rs: the snapshot of the routes, by which a packet finds its peer, with the
-- addresses of a packet (engine/crypto/fp-crypto/src/lib.rs). A public key is its bytes. What each
-- text of a prefix is read as is given.
pub mod Sorted
pub mod Members
pub mod Lookup
mod Tests
use fluxpeer.Prelude.{
  ℕ, ◌+◌, ◌*◌, ◌/◌, ◌^◌, Bool, true, false, not, ◌&&◌, ◌||◌, List, [], ◌∷◌, ◌++◌, Option, none,
  some, ltb, leb, ◌==◌, if◌then◌else◌, length, take, drop, get_or, Eq, ◌≟◌, ite, map, list_eq,
  nat_eq, ◌>>=◌,
}
use fluxpeer.Prelude.Maps.{Map, lookup, insert}
use fluxpeer.Net.Conhash.{lex_le}
use fluxpeer.Sdk.Prefix.{IpAddr, v4, v6, IpPrefix, contains, prefix_eq}

abbrev pub Key : Type 0
Key = List ℕ

pub record RouteEntry : Type 0 where
  pub prefix : IpPrefix
  pub peer : Key
  pub worker : ℕ

pub record RouteTable : Type 0 where
  pub routes : List RouteEntry
  pub conflicts : List IpPrefix

abbrev pub empty_table : RouteTable
empty_table = record { routes = []; conflicts = [] }

-- `IpAddr::from` of the bytes of an address.
unfoldable pub be_bits : List ℕ → ℕ → ℕ
be_bits [] n = n
be_bits (b ∷ bs) n = be_bits bs (n * 256 + b)

-- The address at one of two places, which depends on the version.
unfoldable pub address_at : ℕ → ℕ → List ℕ → Option IpAddr
address_at off4 off6 packet =
    if length packet == 0
    then none
    else if get_or packet 0 0 / 2 ^ 4 == 4 && leb 20 (length packet)
    then some (v4 (be_bits (take 4 (drop off4 packet)) 0))
    else if get_or packet 0 0 / 2 ^ 4 == 6 && leb 40 (length packet)
    then some (v6 (be_bits (take 16 (drop off6 packet)) 0))
    else none

unfoldable pub dst_address : List ℕ → Option IpAddr
dst_address packet = address_at 16 24 packet

unfoldable pub src_address : List ℕ → Option IpAddr
src_address packet = address_at 12 8 packet

-- The comparison of `sort_by` is not `Greater`: a longer prefix first, then the smaller key.
unfoldable pub before : RouteEntry → RouteEntry → Bool
before a b =
    if ltb b.prefix.length a.prefix.length
    then true
    else if ltb a.prefix.length b.prefix.length
    then false
    else lex_le a.peer b.peer

-- A stable sort.
unfoldable pub sort_insert : RouteEntry → List RouteEntry → List RouteEntry
sort_insert r [] = r ∷ []
sort_insert r (s ∷ rs) = let rest = sort_insert r rs in if before r s then r ∷ s ∷ rs else s ∷ rest

unfoldable pub sort : List RouteEntry → List RouteEntry
sort [] = []
sort (r ∷ rs) = sort_insert r (sort rs)

-- `filter(|r| r.peer != peer)`.
unfoldable pub without : Key → List RouteEntry → List RouteEntry
without peer [] = []
without peer (r ∷ rs) = let rest = without peer rs in ite (r.peer ≟ peer) rest (r ∷ rest)

-- The entries of a peer, one for each text that is a prefix.
unfoldable pub entries : Key → ℕ → List (Option IpPrefix) → List RouteEntry
entries peer worker [] = []
entries peer worker (none ∷ ps) = entries peer worker ps
entries peer worker (some p ∷ ps) =
    record { prefix = p; peer = peer; worker = worker } ∷ entries peer worker ps

unfoldable pub is_in : IpPrefix → List IpPrefix → Bool
is_in p [] = false
is_in p (q ∷ qs) = let rest = is_in p qs in ite (q ≟ p) true rest

-- The state of the loop that looks for prefixes that more than one peer claims.
pub record Report : Type 0 where
  pub owners : Map IpPrefix Key
  pub conflicts : List IpPrefix
  pub warned : List IpPrefix

-- An entry whose prefix has another owner: a conflict is warned of once, and not again by a later
-- table.
unfoldable pub report_conflict : List IpPrefix → IpPrefix → Report → Report
report_conflict known p r = if is_in p r.conflicts then r else record r {
  conflicts = p ∷ r.conflicts;
  warned = if is_in p known then r.warned else r.warned ++ (p ∷ []);
}

unfoldable pub report_entry : List IpPrefix → RouteEntry → Report → Report
report_entry known entry r = elim (lookup entry.prefix r.owners) [
  | none ↦ record r { owners = insert entry.prefix entry.peer r.owners }
  | some owner ↦ ite (owner ≟ entry.peer) r (report_conflict known entry.prefix r)
]

unfoldable pub report_all : List IpPrefix → List RouteEntry → Report → Report
report_all known [] r = r
report_all known (entry ∷ rs) r = report_all known rs (report_entry known entry r)

-- The table with the routes of a peer replaced, and the prefixes that are warned of.
unfoldable pub with_peer_report :
    RouteTable → Key → ℕ → List (Option IpPrefix) → RouteTable × List IpPrefix
with_peer_report t peer worker prefixes =
    let routes = sort (without peer t.routes ++ entries peer worker prefixes) in
    let r = report_all t.conflicts routes (record { owners = []; conflicts = []; warned = [] }) in
    (record { routes = routes; conflicts = r.conflicts }, r.warned)

abbrev pub with_peer : RouteTable → Key → ℕ → List (Option IpPrefix) → RouteTable
with_peer t peer worker prefixes = (with_peer_report t peer worker prefixes).0

-- The first route whose prefix contains the address.
unfoldable pub find_route : IpAddr → List RouteEntry → Option RouteEntry
find_route address [] = none
find_route address (r ∷ rs) =
    let rest = find_route address rs in if contains r.prefix address then some r else rest

-- The peer that an address is routed to, and its worker.
unfoldable pub route_to : RouteTable → IpAddr → Option (Key × ℕ)
route_to allowed dst = elim (find_route dst allowed.routes) [
  | none ↦ none
  | some r ↦ some (r.peer, r.worker)
]

unfoldable pub route_tun : List ℕ → RouteTable → Option (Key × ℕ)
route_tun pkt allowed = elim (dst_address pkt) [ none ↦ none | some dst ↦ route_to allowed dst ]

unfoldable pub accepts_source : RouteTable → Key → List ℕ → Bool
accepts_source t peer packet = elim (src_address packet) [
  | none ↦ false
  | some source ↦ elim (find_route source t.routes) [
    | none ↦ false
    | some r ↦ ite (r.peer ≟ peer) true false
  ]
]
