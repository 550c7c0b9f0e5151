-- ===== src/Node/Nat/Tests.antt =====
-- A host that has rules on the interfaces of a list, and on which bringing them up fails half way.
use fluxpeer.Prelude.{
  ◌≡◌, ◌↔◌, inl, Bool, true, false, [], ◌∷◌, Option, none, some, Result, ok, err,
}
use fluxpeer.Prelude.Text.{Text, codes}
use fluxpeer.Node.Apply.{ApplyError, other}
use fluxpeer.Node.Nat.{NatInstall, NatHost, reconcile_nat}
use fluxpeer.Node.Nat.Obligation.{IsNatHost, IsKept, reconcile_nat-IsKept}

abbrev broken : ApplyError
broken = record {
  command = codes "nft" ∷ [];
  exit_code = none;
  stderr = codes "failed";
  kind = other;
}

-- The interface that has rules.
abbrev set_rules : Option Text → Bool → Text → Option Text × Result (Unit {0}) ApplyError
set_rules w true phys = (some phys, err broken)
set_rules w false phys = (none, ok tt)

abbrev half_way : NatHost
half_way = record { World = Option Text; apply = set_rules; cleanup = λ w. (none, ok tt) }

abbrev HasRules : Option Text → Text → Type 0
HasRules w q = w ≡ some q

half_way-IsNatHost : IsNatHost half_way HasRules
half_way-IsNatHost = record {
  up_only = λ w phys q up. inl (cc);
  down_only = λ w phys q up. cc;
  down_gone = λ w phys r up. cc;
}

abbrev fresh : NatInstall
fresh = record { applied = none; dirty = none; recovered = true; recovery_deferred = false }

reconcile_nat-IsKept_example :
    let after = reconcile_nat half_way none fresh true (ok (some (codes "eth0"))) in
    IsKept half_way HasRules half_way-IsNatHost after.0 after.1
    × (after.2 ≡ ok tt → (after.1.dirty ≡ none) × (after.1.applied ≡ none ↔ true ≡ false))
reconcile_nat-IsKept_example =
    reconcile_nat-IsKept half_way HasRules half_way-IsNatHost none fresh true
      (ok (some (codes "eth0"))) (λ q up. cc)
