-- ===== src/Net/Netcheck/Tests.antt =====
-- The class of a NAT and a diagnosis, at concrete observations.
use fluxpeer.Prelude.{ℕ, true, List, [], ◌∷◌, Option, none, some, nat_eq}
use fluxpeer.Net.Netcheck.{Probe, symmetric}

abbrev seen : List (Option ℕ)
seen = some 40000 ∷ none ∷ some 40001 ∷ []

abbrev probe : Probe
probe = record {
  udp_ok = true;
  tcp_ok = true;
  relay_ok = true;
  nat = symmetric;
  first_connect_ms = some 40;
  last_error = none;
}
