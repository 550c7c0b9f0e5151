-- ===== src/Sdk/Prefix/Tests.antt =====
-- 10.2.3.4/8.
use fluxpeer.Prelude.{◌+◌, ◌*◌, ◌^◌, ◌≡◌, ◌↔◌, refl, true, some, arith}
use fluxpeer.Sdk.Prefix.{IpAddr, v4, from_str, network_of, masked, contains}
use fluxpeer.Sdk.Prefix.Canonical.{width, bits, IsIn, contains-from_str}

abbrev given : IpAddr
given = v4 (10 * 2 ^ 24 + 2 * 2 ^ 16 + 3 * 2 ^ 8 + 4)

abbrev other : IpAddr
other = v4 (10 * 2 ^ 24 + 7)

contains-from_str_example :
    (contains (record { network = v4 (10 * 2 ^ 24); length = 8 }) other ≡ true) ↔ IsIn given 8 other
unfolding from_str network_of masked bits width
contains-from_str_example =
    contains-from_str given other (some (some 8))
      (record { network = v4 (10 * 2 ^ 24); length = 8 }) (omega arith) (omega arith) refl
