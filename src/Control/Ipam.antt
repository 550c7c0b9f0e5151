-- ===== src/Control/Ipam.antt =====
-- control-server/src/ipam.rs: stable overlay addresses, one host id for the IPv4 and the IPv6
-- address of a device. A public key is a text; the table `used` is the list of its 256 entries.
pub mod Valid
pub mod Allocation
pub mod Recycling
mod Tests
use fluxpeer.Prelude.{
  ℕ, zero, suc, ◌+◌, ◌-◌, ◌*◌, Bool, true, false, not, List, [], ◌∷◌, Option, none, some, ◌==◌,
  if◌then◌else◌, length, get_or, set, replicate, Result, ok, err, ◌>>=◌, ok_or,
}
use fluxpeer.Prelude.Maps.{Map, lookup, insert, remove}
use fluxpeer.Prelude.Text.{Text, text_eq}

abbrev pub gateway_host : ℕ
gateway_host = 1

abbrev pub dns_host : ℕ
dns_host = 2

abbrev pub device_host_min : ℕ
device_host_min = 100

abbrev pub device_host_max : ℕ
device_host_max = 249

abbrev pub v6_device_subnet : ℕ
v6_device_subnet = 1

pub data IpamError : Type 0 where
  pool_exhausted : IpamError

pub record Ipam : Type 0 where
  pub v4_net : List ℕ
  pub v6_prefix : List ℕ
  pub by_key : Map Text ℕ
  pub used : List Bool

-- The octets of an `Ipv4Addr`, and the segments of an `Ipv6Addr`.
abbrev pub Ipv4 : Type 0
Ipv4 = List ℕ

abbrev pub Ipv6 : Type 0
Ipv6 = List ℕ

unfoldable pub new : Ipv4 → List ℕ → Ipam
new v4_net v6_prefix = record {
  v4_net = v4_net;
  v6_prefix = v6_prefix;
  by_key = [];
  used = replicate 256 false;
}

unfoldable pub v4_for : Ipam → ℕ → Ipv4
v4_for a host = get_or a.v4_net 0 0 ∷ get_or a.v4_net 1 0 ∷ get_or a.v4_net 2 0 ∷ host ∷ []

unfoldable pub v6_for : Ipam → ℕ → Ipv6
v6_for a host =
    get_or a.v6_prefix 0 0
    ∷ get_or a.v6_prefix 1 0
    ∷ get_or a.v6_prefix 2 0
    ∷ v6_device_subnet
    ∷ 0
    ∷ 0
    ∷ 0
    ∷ host
    ∷ []

abbrev pub addresses : Ipam → ℕ → Ipv4 × Ipv6
addresses a host = (v4_for a host, v6_for a host)

-- `(h..h + n).find(|&h| !self.used[h as usize])`.
unfoldable pub find_free : ℕ → ℕ → List Bool → Option ℕ
find_free zero h used = none
find_free (suc n) h used =
    let rest = find_free n (h + 1) used in if not (get_or used h false) then some h else rest

-- How many hosts the device range has.
abbrev pub device_hosts : ℕ
device_hosts = device_host_max + 1 - device_host_min

abbrev pub claim : Ipam → Text → ℕ → Ipam
claim a pubkey host = record a { used = set a.used host true; by_key = insert pubkey host a.by_key }

unfoldable pub allocate : Ipam → Text → Ipam × Result (Ipv4 × Ipv6) IpamError
allocate a pubkey = elim (lookup pubkey a.by_key) [
  | some host ↦ (a, ok (addresses a host))
  | none ↦ elim (find_free device_hosts device_host_min a.used) [
    | none ↦ (a, err pool_exhausted)
    | some host ↦ (claim a pubkey host, ok (addresses a host))
  ]
]

-- `self.by_key.get(pubkey) == Some(&host)`.
abbrev pub owns : Ipam → Text → ℕ → Bool
owns a pubkey host = elim (lookup pubkey a.by_key) [ none ↦ false | some h ↦ h == host ]

unfoldable pub reserve : Ipam → Text → ℕ → Ipam × Result (Unit {0}) IpamError
reserve a pubkey host =
    if owns a pubkey host
    then (a, ok tt)
    else if get_or a.used host false
    then (a, err pool_exhausted)
    else (claim a pubkey host, ok tt)

unfoldable pub recycle : Ipam → Text → Ipam × Bool
recycle a pubkey = elim (lookup pubkey a.by_key) [
  | none ↦ (a, false)
  | some host ↦ (record a { by_key = remove pubkey a.by_key; used = set a.used host false }, true)
]

unfoldable pub allocated_count : Ipam → ℕ
allocated_count a = length a.by_key
