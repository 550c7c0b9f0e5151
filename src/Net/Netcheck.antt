-- ===== src/Net/Netcheck.antt =====
-- engine/net/fp-netcheck/src/lib.rs: the class of a NAT from what the STUN servers saw, and the
-- strategy that is recommended. A socket address is of any type with equality.
pub mod Classes
mod Tests
use fluxpeer.Prelude.{
  ℕ, zero, suc, ◌+◌, Bool, true, false, not, ◌&&◌, List, [], ◌∷◌, ◌++◌, Option, none, some, ltb,
  leb, ◌==◌, if◌then◌else◌, length, Eq, ◌≟◌, ite,
}
use fluxpeer.Prelude.Text.{Text, codes}

pub data NatClass : Type 0 where
  open_nat endpoint_independent symmetric blocked unknown : NatClass

unfoldable pub punchable : NatClass → Bool
punchable open_nat = true
punchable endpoint_independent = true
punchable _ = false

module _ {A : Type 0} ⦃e : Eq A⦄ where
  -- `observations.iter().flatten()`.
  unfoldable pub flatten : List (Option A) → List A
  flatten [] = []
  flatten (none ∷ os) = flatten os
  flatten (some a ∷ os) = a ∷ flatten os

  unfoldable pub contains : A → List A → Bool
  contains a [] = false
  contains a (b ∷ bs) = ite (b ≟ a) true (contains a bs)

  -- The elements of the `HashSet`, each once.
  unfoldable pub distinct : List A → List A
  distinct [] = []
  distinct (a ∷ rest) = let others = distinct rest in if contains a rest then others else a ∷ others

  unfoldable pub classify_nat : A → List (Option A) → NatClass
  classify_nat local observations =
      let seen = flatten observations in
      if length seen == 0
      then blocked
      else if contains local seen
      then open_nat
      else if ltb 1 (length (distinct seen))
      then symmetric
      else if leb 2 (length seen)
      then endpoint_independent
      else unknown

pub record Probe : Type 0 where
  pub udp_ok : Bool
  pub tcp_ok : Bool
  pub relay_ok : Bool
  pub nat : NatClass
  pub first_connect_ms : Option ℕ
  pub last_error : Option Text

-- `no_strategy` is `ConnStrategy::None`.
pub data ConnStrategy : Type 0 where
  direct_udp direct_tcp relay no_strategy : ConnStrategy

pub record Diagnosis : Type 0 where
  pub strategy : ConnStrategy
  pub can_connect : Bool
  pub summary : Text

unfoldable pub choose : Probe → ConnStrategy
choose p =
    if p.udp_ok && punchable p.nat
    then direct_udp
    else if p.tcp_ok && punchable p.nat
    then direct_tcp
    else if p.relay_ok
    then relay
    else no_strategy

unfoldable pub is_some_strategy : ConnStrategy → Bool
is_some_strategy no_strategy = false
is_some_strategy _ = true

unfoldable pub relay_summary : NatClass → Text
relay_summary symmetric = codes "symmetric NAT — using relay"
relay_summary blocked = codes "UDP blocked — using relay"
relay_summary _ = codes "direct unavailable — using relay"

unfoldable pub summarize : Probe → ConnStrategy → Text
summarize p direct_udp = codes "direct UDP connection available"
summarize p direct_tcp = codes "direct TCP connection available"
summarize p relay = relay_summary p.nat
summarize p no_strategy =
    codes "cannot connect" ++ elim p.last_error [ none ↦ [] | some e ↦ codes ": " ++ e ]

unfoldable pub diagnose : Probe → Diagnosis
diagnose p = record {
  strategy = choose p;
  can_connect = is_some_strategy (choose p);
  summary = summarize p (choose p);
}
