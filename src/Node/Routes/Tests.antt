-- ===== src/Node/Routes/Tests.antt =====
-- Two peers with prefixes of which one is part of the other.
use fluxpeer.Prelude.{
  ℕ, ◌+◌, ◌*◌, ◌^◌, ◌≡◌, ◌↔◌, refl, true, List, [], ◌∷◌, ◌++◌, none, some, replicate,
}
use fluxpeer.Sdk.Prefix.{IpAddr, v4, IpPrefix}
use fluxpeer.Node.Routes.{
  Key, RouteTable, RouteEntry, empty_table, with_peer, find_route, route_tun, src_address,
  dst_address, accepts_source, address_at, be_bits,
}
use fluxpeer.Node.Routes.Lookup.{Best, empty, set, find_route_longest, accepts_source-route_tun}

abbrev ten : IpPrefix
ten = record { network = v4 (10 * 2 ^ 24); length = 8 }

abbrev ten_one : IpPrefix
ten_one = record { network = v4 (10 * 2 ^ 24 + 2 ^ 16); length = 16 }

abbrev one : RouteTable
one = with_peer empty_table (1 ∷ []) 0 (some ten ∷ none ∷ [])

abbrev two : RouteTable
two = with_peer one (2 ∷ []) 3 (some ten_one ∷ [])

abbrev host : IpAddr
host = v4 (10 * 2 ^ 24 + 2 ^ 16 + 7)

abbrev alice : Key
alice = 1 ∷ []

abbrev bob : Key
bob = 2 ∷ []

abbrev entry : RouteEntry
entry = record { prefix = ten; peer = alice; worker = 0 }

find_route_longest_example : Best host two.routes (find_route host two.routes)
find_route_longest_example =
    find_route_longest two host
      (set (2 ∷ []) 3 (some ten_one ∷ []) (set (1 ∷ []) 0 (some ten ∷ none ∷ []) empty))

-- An IPv4 packet from the host to another one, and one back.
abbrev packet : List ℕ
packet = 69 ∷ replicate 11 0 ++ (10 ∷ 1 ∷ 0 ∷ 7 ∷ 10 ∷ 9 ∷ 0 ∷ 1 ∷ [])

abbrev reply : List ℕ
reply = 69 ∷ replicate 11 0 ++ (10 ∷ 9 ∷ 0 ∷ 1 ∷ 10 ∷ 1 ∷ 0 ∷ 7 ∷ [])

accepts_source-route_tun_example :
    (accepts_source two (2 ∷ []) packet ≡ true)
    ↔ ((worker : ℕ) × (route_tun reply two ≡ some (2 ∷ [], worker)))
unfolding src_address dst_address address_at be_bits
accepts_source-route_tun_example = accepts_source-route_tun two (2 ∷ []) packet reply refl
