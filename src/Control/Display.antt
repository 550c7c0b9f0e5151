-- ===== src/Control/Display.antt =====
-- What `to_string` and `format!` write of the addresses in control-server/src/state.rs.
use fluxpeer.Prelude.{
  ℕ, ◌+◌, ◌-◌, ◌/◌, ◌%◌, List, [], ◌∷◌, ◌++◌, ltb, leb, ◌==◌, if◌then◌else◌, length, take, drop,
}
use fluxpeer.Prelude.Text.{Text, codes, decimal}
use fluxpeer.Control.Ipam.{Ipv4, Ipv6}

-- A digit of a hexadecimal number, and the number of at most four of them.
abbrev hex_digit : ℕ → ℕ
hex_digit n = if ltb n 10 then n + b'0' else n - 10 + b'a'

unfoldable pub hex : ℕ → Text
hex n =
    let last = hex_digit (n % 16) ∷ [] in
    if ltb n 16
    then last
    else if ltb n 256
    then hex_digit (n / 16 % 16) ∷ last
    else if ltb n 4096
    then hex_digit (n / 256 % 16) ∷ hex_digit (n / 16 % 16) ∷ last
    else hex_digit (n / 4096 % 16) ∷ hex_digit (n / 256 % 16) ∷ hex_digit (n / 16 % 16) ∷ last

-- `{:04x}`.
unfoldable pub hex4 : ℕ → Text
hex4 n =
    hex_digit (n / 4096 % 16)
    ∷ hex_digit (n / 256 % 16)
    ∷ hex_digit (n / 16 % 16)
    ∷ hex_digit (n % 16)
    ∷ []

-- The texts of the numbers, with a separator between them.
unfoldable pub joined : (ℕ → Text) → Text → List ℕ → Text
joined show sep [] = []
joined show sep (n ∷ ns) =
    let rest = joined show sep ns in if length ns == 0 then show n else show n ++ (sep ++ rest)

abbrev leading_zeros : List ℕ → ℕ
leading_zeros [] = 0
leading_zeros (n ∷ ns) = let rest = leading_zeros ns in if n == 0 then rest + 1 else 0

-- The place and the length of the longest run of zeros, the first one of these.
unfoldable pub longest_zeros : ℕ → List ℕ → ℕ × ℕ
longest_zeros i [] = (i, 0)
longest_zeros i (n ∷ ns) =
    let (j, k) = longest_zeros (i + 1) ns in
    let here = leading_zeros (n ∷ ns) in if leb k here then (i, here) else (j, k)

unfoldable pub v4_to_string : Ipv4 → Text
v4_to_string octets = joined decimal (codes ".") octets

-- `to_string` of an address that is no mapped IPv4 address, as none with the prefix of a network
-- is.
unfoldable pub v6_to_string : Ipv6 → Text
v6_to_string segments =
    let (i, n) = longest_zeros 0 segments in
    if ltb 1 n
    then joined hex (codes ":") (take i segments)
      ++ (codes "::" ++ joined hex (codes ":") (drop (i + n) segments))
    else joined hex (codes ":") segments
