-- ===== src/Node/Routes/Lookup.antt =====
-- Which route an address takes: a reference description, and that the lookup meets it.
use fluxpeer.Prelude.{
  ℕ, ◌≤◌, ◌≡◌, ◌≢◌, ◌↔◌, inl, inr, refl, ap, sym, ◌∙◌, true, false, List, [], ◌∷◌, Option, none,
  some, arith, All, Bool-cases, Option-cases, ◌≟◌, if_pos, list_eq, nat_eq,
}
use mathlib.Core.Path.{subst}
use fluxpeer.Net.Conhash.{lex_le}
use fluxpeer.Net.Conhash.Order.{lex_le_antisymm}
use fluxpeer.Sdk.Prefix.{IpAddr, IpPrefix, contains}
use fluxpeer.Node.Routes.{
  Key, RouteEntry, RouteTable, empty_table, before, find_route, route_to, route_tun, src_address,
  dst_address, accepts_source, with_peer,
}
use fluxpeer.Node.Routes.Sorted.{IsBefore, IsSorted, IsBefore-refl, with_peer-IsSorted}
use fluxpeer.Node.Routes.Members.{In, with_peer_lem}

abbrev pub Holds : RouteEntry → IpAddr → Type 0
Holds r address = contains r.prefix address ≡ true

-- The answer of a lookup, described: of the routes that hold the address, one with the longest
-- prefix, and of these one of the least key; or there is no route that holds it.
pub data Best (address : IpAddr) (rs : List RouteEntry) : Option RouteEntry → Type 0 where
  no_route : ((s : RouteEntry) → In s rs → contains s.prefix address ≡ false) → Best address rs none
  best :
      (r : RouteEntry)
      → In r rs
      → Holds r address
      → ((s : RouteEntry)
          → In s rs
          → Holds s address
          → (s.prefix.length ≤ r.prefix.length)
            × (s.prefix.length ≡ r.prefix.length → lex_le r.peer s.peer ≡ true))
      → Best address rs (some r)

All-In :
    (a : RouteEntry) (rs : List RouteEntry) (s : RouteEntry)
    → All (IsBefore a) rs
    → In s rs
    → IsBefore a s
All-In a (r ∷ rs) s h (inl e) = subst (λ z. IsBefore a z) e h.0
All-In a (r ∷ rs) s h (inr i) = All-In a rs s h.1 i
All-In a [] s h i = absurd i

before-order :
    (a b : RouteEntry)
    → IsBefore a b
    → (b.prefix.length ≤ a.prefix.length)
      × (b.prefix.length ≡ a.prefix.length → lex_le a.peer b.peer ≡ true)
unfolding before
before-order a b h = (ground arith, λ e. ground arith)

Best-later :
    (address : IpAddr) (r : RouteEntry) (rs : List RouteEntry) {o : Option RouteEntry}
    → contains r.prefix address ≡ false
    → Best address rs o
    → Best address (r ∷ rs) o
Best-later address r rs no_ (no_route none_) = no_route (λ s i. elim i [
  | inl e ↦ subst (λ z. contains z.prefix address ≡ false) e no_
  | inr k ↦ none_ s k
])
Best-later address r rs no_ (best b i h most) = best b (inr i) h (λ s k held. elim k [
  | inl e ↦ cc (subst (λ z. contains z.prefix address ≡ false) e no_, held)
  | inr j ↦ most s j held
])

pub find_route-Best :
    (address : IpAddr) (rs : List RouteEntry)
    → IsSorted rs
    → Best address rs (find_route address rs)
unfolding find_route
find_route-Best address [] sorted = no_route (λ s i. absurd i)
find_route-Best address (r ∷ rs) sorted = elim (Bool-cases (contains r.prefix address)) [
  | inl yes_ ↦ rw yes_ (
      best r (inl refl) yes_ (λ s i h. elim i [
        | inl e ↦ before-order r s (subst (λ z. IsBefore r z) e (IsBefore-refl r))
        | inr k ↦ before-order r s (All-In r rs s sorted.0 k)
      ]))
  | inr no_ ↦ rw no_ (Best-later address r rs no_ (find_route-Best address rs sorted.1))
]

-- A table that is made of the empty one by setting the routes of peers, in any order and again and
-- again.
pub data Built : RouteTable → Type 0 where
  empty : Built empty_table
  set :
      {t : RouteTable} (peer : Key) (worker : ℕ) (ps : List (Option IpPrefix))
      → Built t
      → Built (with_peer t peer worker ps)

Built-IsSorted : {t : RouteTable} → Built t → IsSorted t.routes
Built-IsSorted empty = tt
Built-IsSorted (set {t} peer worker ps b) = with_peer-IsSorted t peer worker ps

-- The lookup in a table that was built by setting the routes of peers is the longest match: it
-- answers a route that holds the address, where one does, with the longest prefix of those that do,
-- and among these with the least key.
pub find_route_longest :
    (t : RouteTable) (address : IpAddr)
    → Built t
    → Best address t.routes (find_route address t.routes)
find_route_longest t address b = find_route-Best address t.routes (Built-IsSorted b)

unfoldable pub peer_of : Option RouteEntry → Option Key
peer_of none = none
peer_of (some r) = some r.peer

Best-peer_of :
    (address : IpAddr) (rs rs' : List RouteEntry)
    → ((x : RouteEntry) → In x rs → In x rs')
    → ((x : RouteEntry) → In x rs' → In x rs)
    → {o o' : Option RouteEntry} → Best address rs o
    → Best address rs' o'
    → peer_of o ≡ peer_of o'
unfolding peer_of
Best-peer_of address rs rs' to from (no_route none_) (no_route none') = refl
Best-peer_of address rs rs' to from (no_route none_) (best r i h most) = cc (none_ r (from r i), h)
Best-peer_of address rs rs' to from (best r i h most) (no_route none') = cc (none' r (to r i), h)
Best-peer_of address rs rs' to from (best r i h most) (best r' i' h' most') =
    let (below, first) = most r' (from r' i') h' in
    let (below', first') = most' r (to r i) h in
    ap some (lex_le_antisymm r.peer r'.peer (first (omega arith)) (first' (omega arith)))

set_twice :
    (t : RouteTable) (p q : Key) (w v : ℕ) (ps qs : List (Option IpPrefix))
    → p ≢ q
    → (x : RouteEntry) → In x (with_peer (with_peer t p w ps) q v qs).routes
    → In x (with_peer (with_peer t q v qs) p w ps).routes
set_twice t p q w v ps qs differ x h =
    let inner = with_peer_lem t p w ps x in
    let outer = with_peer_lem (with_peer t p w ps) q v qs x in
    let inner' = with_peer_lem t q v qs x in
    let outer' = with_peer_lem (with_peer t q v qs) p w ps x in
    outer'.1 (elim (outer.0 h) [
      | inr setq ↦ inl (inner'.1 (inr setq), λ e. differ (sym e ∙ setq.0))
      | inl (i, notq) ↦ elim (inner.0 i) [
        | inr setp ↦ inr setp
        | inl (old, notp) ↦ inl (inner'.1 (inl (old, notq)), notp)
      ]
    ])

-- Where an address is routed does not depend on the order in which the routes of two peers are set.
pub peer_of-find_route :
    (t : RouteTable) (p q : Key) (w v : ℕ) (ps qs : List (Option IpPrefix)) (address : IpAddr)
    → p ≢ q
    → peer_of (find_route address (with_peer (with_peer t p w ps) q v qs).routes)
      ≡ peer_of (find_route address (with_peer (with_peer t q v qs) p w ps).routes)
peer_of-find_route t p q w v ps qs address differ =
    Best-peer_of address _ _ (set_twice t p q w v ps qs differ)
      (set_twice t q p v w qs ps (λ e. differ (sym e)))
      (find_route-Best address _ (with_peer-IsSorted (with_peer t p w ps) q v qs))
      (find_route-Best address _ (with_peer-IsSorted (with_peer t q v qs) p w ps))

-- A packet from a peer is accepted exactly where an answer to its source would be routed to this
-- peer.
pub accepts_source-route_tun :
    (t : RouteTable) (peer : Key) (packet reply : List ℕ)
    → dst_address reply ≡ src_address packet
    → (accepts_source t peer packet ≡ true)
      ↔ ((worker : ℕ) × (route_tun reply t ≡ some (peer, worker)))
unfolding accepts_source route_tun route_to
accepts_source-route_tun t peer packet reply back = elim (Option-cases (src_address packet)) [
  | inl none_ ↦ rw (none_, accepts_source, back ∙ none_, route_tun) (λ h. cc, λ h. cc (h.1))
  | inr (source, from) ↦ elim (Option-cases (find_route source t.routes)) [
    | inl none_ ↦
        rw (from, accepts_source, back ∙ from, route_tun, none_, route_to) (λ h. cc, λ h. cc (h.1))
    | inr (r, found) ↦
        rw (from, accepts_source, back ∙ from, route_tun, found, route_to)
          (
            λ h. (r.worker, ap (λ z. some (z, r.worker)) (ground arith)),
            λ h. if_pos (r.peer ≟ peer) (ground (arith, h.1)) true false,
          )
  ]
]

-- A packet never goes to a peer whose routes were taken away.
pub find_route-removed :
    (t : RouteTable) (peer : Key) (worker : ℕ) (address : IpAddr)
    → peer_of (find_route address (with_peer t peer worker []).routes) ≢ some peer
unfolding peer_of
find_route-removed t peer worker address =
    go (find_route-Best address _ (with_peer-IsSorted t peer worker []))
  where
    go :
        {o : Option RouteEntry}
        → Best address (with_peer t peer worker []).routes o
        → peer_of o ≢ some peer
    go (no_route _) e = cc
    go (best r i _ _) e = elim ((with_peer_lem t peer worker [] r).0 i) [
      | inl (_, other) ↦ other (cc)
      | inr taken ↦ absurd taken.2
    ]
