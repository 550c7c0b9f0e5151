-- ===== src/Sdk/Prefix.antt =====
-- sdk/rust/src/prefix.rs: prefixes of IP addresses. An address is its bits, as a number. What the
-- standard library reads in a text, the address and the length, is given.
pub mod Canonical
mod Tests
use fluxpeer.Prelude.{
  ℕ, ◌-◌, ◌*◌, ◌/◌, ◌^◌, Bool, true, false, Option, none, some, ltb, leb, ◌==◌, if◌then◌else◌,
  Result, ok, err, ◌>>=◌, ok_or, ℕ_discrete, Eq,
}

pub data IpAddr : Type 0 where
  v4 : ℕ → IpAddr
  v6 : ℕ → IpAddr

pub record IpPrefix : Type 0 where
  pub network : IpAddr
  pub length : ℕ

pub data ParseError : Type 0 where
  invalid_prefix_length invalid_ip_address prefix_length_out_of_range : ParseError

IpAddr-discrete : Discrete IpAddr
IpAddr-discrete = hlevel ℕ_discrete

pub IpPrefix-discrete : Discrete IpPrefix
IpPrefix-discrete = hlevel (IpAddr-discrete, ℕ_discrete)

instance abbrev pub prefix_eq : Eq IpPrefix
prefix_eq = record { dec = IpPrefix-discrete }

-- `address & (MAX << (width - length))`, and 0 where the length is.
unfoldable pub masked : ℕ → ℕ → ℕ → ℕ
masked width length address =
    if length == 0 then 0 else address / 2 ^ (width - length) * 2 ^ (width - length)

unfoldable pub default_length : IpAddr → ℕ
default_length (v4 _) = 32
default_length (v6 _) = 128

unfoldable pub network_of : IpAddr → ℕ → Option IpAddr
network_of (v4 ip) length = if leb length 32 then some (v4 (masked 32 length ip)) else none
network_of (v6 ip) length = if leb length 128 then some (v6 (masked 128 length ip)) else none

abbrev pub parsed_length : Option (Option ℕ) → Result (Option ℕ) ParseError
parsed_length none = ok none
parsed_length (some none) = err invalid_prefix_length
parsed_length (some (some n)) = ok (some n)

abbrev pub length_or : Option ℕ → IpAddr → ℕ
length_or none address = default_length address
length_or (some n) address = n

-- The address, if the text has one, and the length behind the slash, if it has one, as a `u8`.
unfoldable pub from_str : Option IpAddr → Option (Option ℕ) → Result IpPrefix ParseError
from_str address length = do
  given ← parsed_length length
  ip ← ok_or address invalid_ip_address
  let n = length_or given ip
  network ← ok_or (network_of ip n) prefix_length_out_of_range
  ok (record { network = network; length = n })

unfoldable pub contains : IpPrefix → IpAddr → Bool
contains p address = elim p.network [
  | v4 network ↦ elim address [ v4 ip ↦ masked 32 p.length ip == network | v6 _ ↦ false ]
  | v6 network ↦ elim address [ v4 _ ↦ false | v6 ip ↦ masked 128 p.length ip == network ]
]
