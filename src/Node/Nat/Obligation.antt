-- ===== src/Node/Nat/Obligation.antt =====
-- What is left of the rules that were brought up is known.
use fluxpeer.Prelude.{
  ◌≡◌, ◌≢◌, ◌⊎◌, ◌↔◌, inl, inr, refl, ap, sym, Bool, true, false, Option, none, some, Result, ok,
  arith, Bool-cases, Option-cases, Result-cases,
}
use mathlib.Core.Path.{subst}
use fluxpeer.Prelude.Text.{Text}
use fluxpeer.Node.Apply.{ApplyError}
use fluxpeer.Node.Nat.{
  NatInstall, NatHost, interface_of, take_dirty, nat_up, nat_down, nat_switch, reconcile_nat,
}

-- What the commands do to the interfaces that have rules: bringing them up on one, even where it
-- fails half way, gives rules to no other; taking them down gives rules to none, and where it is
-- answered `ok`, this one has none.
pub record IsNatHost (host : NatHost) (Up : host.World → Text → Type 0) : Type 0 where
  pub up_only :
      (w : host.World) (phys q : Text) → Up (host.apply w true phys).0 q → (q ≡ phys) ⊎ Up w q
  pub down_only : (w : host.World) (phys q : Text) → Up (host.apply w false phys).0 q → Up w q
  pub down_gone :
      (w : host.World) (phys : Text)
      → (host.apply w false phys).1 ≡ ok tt
      → Up (host.apply w false phys).0 phys
      → ⊥

module _ (host : NatHost) (Up : host.World → Text → Type 0) (laws : IsNatHost host Up) where
  -- Each interface with rules is the one in use or the one to be cleaned up.
  abbrev pub IsKept : host.World → NatInstall → Type 0
  IsKept w s = (q : Text) → Up w q → (s.applied ≡ some q) ⊎ (s.dirty ≡ some q)

  -- Where rules are taken down on one interface, those of the others stay known.
  kept_down :
      (w : host.World) (s : NatInstall) (phys q : Text)
      → IsKept w s
      → (host.apply w false phys).1 ≡ ok tt
      → Up (host.apply w false phys).0 q
      → ((s.applied ≡ some q) ⊎ (s.dirty ≡ some q)) × (q ≢ phys)
  kept_down w s phys q h r up = (
    h q (laws.down_only w phys q up),
    λ e. laws.down_gone w phys r (subst (λ z. Up (host.apply w false phys).0 z) e up),
  )

  take_dirty-IsKept :
      (w : host.World) (s : NatInstall)
      → IsKept w s
      → IsKept (take_dirty host w s).0 (take_dirty host w s).1
        × ((take_dirty host w s).2 ≡ ok tt → (take_dirty host w s).1.dirty ≡ none)
  unfolding take_dirty
  take_dirty-IsKept w s h = elim (Option-cases s.dirty) [
    | inl e ↦ simp (e, take_dirty) (λ q up. ground (arith, h q up, e), λ _. refl)
    | inr (phys, e) ↦ elim (Result-cases (host.apply w false phys).1) [
      | inl (_, r) ↦
          simp (e, take_dirty, r)
            (λ q up. let k = kept_down w s phys q h r up in ground (arith, k, e), λ _. refl)
      | inr (x, r) ↦
          simp (e, take_dirty, r)
            (λ q up. ground (arith, h q (laws.down_only w phys q up), e), λ z. cc)
    ]
  ]

  -- What a call does to a state with nothing left to clean up.
  nat_up-IsKept :
      (w : host.World) (s : NatInstall) (discover : Result (Option Text) ApplyError)
      → IsKept w s
      → s.applied ≡ none
      → s.dirty ≡ none
      → IsKept (nat_up host w s discover).0 (nat_up host w s discover).1
        × ((nat_up host w s discover).2 ≡ ok tt
            → ((nat_up host w s discover).1.dirty ≡ none)
              × ((nat_up host w s discover).1.applied ≢ none))
  unfolding nat_up
  nat_up-IsKept w s discover h a d = elim (Result-cases (interface_of discover)) [
    | inr (x, e) ↦ simp (e, nat_up) (λ q up. h q up, λ z. cc)
    | inl (phys, e) ↦ elim (Result-cases (host.apply w true phys).1) [
      | inl (_, r) ↦
          simp (e, nat_up, r)
            (
              λ q up. elim (laws.up_only w phys q up) [
                | inl same ↦ inl (ap some (sym same))
                | inr old ↦ ground (arith, h q old, a, d)
              ],
              λ _. (d, λ z. cc),
            )
      | inr (x, r) ↦
          simp (e, nat_up, r)
            (
              λ q up. elim (laws.up_only w phys q up) [
                | inl same ↦ inr (ap some (sym same))
                | inr old ↦ ground (arith, h q old, a, d)
              ],
              λ z. cc,
            )
    ]
  ]

  nat_down-IsKept :
      (w : host.World) (s : NatInstall) (phys : Text)
      → IsKept w s
      → s.applied ≡ some phys
      → s.dirty ≡ none
      → IsKept (nat_down host w s phys).0 (nat_down host w s phys).1
        × ((nat_down host w s phys).2 ≡ ok tt
            → ((nat_down host w s phys).1.dirty ≡ none)
              × ((nat_down host w s phys).1.applied ≡ none))
  unfolding nat_down
  nat_down-IsKept w s phys h a d = elim (Result-cases (host.apply w false phys).1) [
    | inl (_, r) ↦
        simp (nat_down, r)
          (λ q up. let k = kept_down w s phys q h r up in ground (arith, k, a, d), λ _. (d, refl))
    | inr (x, r) ↦ simp (nat_down, r) (λ q up. h q (laws.down_only w phys q up), λ z. cc)
  ]

  nat_switch-IsKept :
      (w : host.World) (s : NatInstall) (on : Bool) (discover : Result (Option Text) ApplyError)
      → IsKept w s
      → s.dirty ≡ none
      → IsKept (nat_switch host w s on discover).0 (nat_switch host w s on discover).1
        × ((nat_switch host w s on discover).2 ≡ ok tt
            → ((nat_switch host w s on discover).1.dirty ≡ none)
              × ((nat_switch host w s on discover).1.applied ≡ none ↔ on ≡ false))
  unfolding nat_switch
  nat_switch-IsKept w s on discover h d = elim (Option-cases s.applied) [
    | inl a ↦ elim (Bool-cases on) [
      | inl o ↦
          let up = nat_up-IsKept w s discover h a d in
          simp (a, nat_switch, o) (up.0, λ r. ((up.1 r).0, (λ z. absurd ((up.1 r).1 z), λ z. cc)))
      | inr o ↦
          simp (a, nat_switch, o)
            (λ q up. ground (arith, h q up, a), λ _. (d, (λ _. refl, λ _. refl)))
    ]
    | inr (phys, a) ↦ elim (Bool-cases on) [
      | inl o ↦
          simp (a, nat_switch, o) (λ q up. ground (arith, h q up, a), λ _. (d, (λ z. cc, λ z. cc)))
      | inr o ↦
          let down = nat_down-IsKept w s phys h a d in
          simp (a, nat_switch, o) (down.0, λ r. ((down.1 r).0, (λ _. refl, λ _. (down.1 r).1)))
    ]
  ]

  -- Whatever the commands answer, the interfaces with rules stay those that the state knows, as in
  -- use or as to be cleaned up; and where the call answers without an error, nothing is left to be
  -- cleaned up, and an interface is in use exactly where the exit is to be on.
  pub reconcile_nat-IsKept :
      (w : host.World) (s : NatInstall) (on : Bool) (discover : Result (Option Text) ApplyError)
      → IsKept w s
      → let after = reconcile_nat host w s on discover in
        IsKept after.0 after.1
        × (after.2 ≡ ok tt → (after.1.dirty ≡ none) × (after.1.applied ≡ none ↔ on ≡ false))
  unfolding reconcile_nat
  reconcile_nat-IsKept w s on discover h =
      let first = take_dirty host w s in
      let (kept, clean) = take_dirty-IsKept w s h in
      elim (Result-cases first.2) [
        | inr (x, e) ↦ simp (e, reconcile_nat) (kept, λ z. cc)
        | inl (_, e) ↦
            simp (e, reconcile_nat) (nat_switch-IsKept first.0 first.1 on discover kept (clean e))
      ]
