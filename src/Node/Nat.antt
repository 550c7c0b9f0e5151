-- ===== src/Node/Nat.antt =====
-- node/src/lib.rs: how the address translation of an exit comes up and goes down. A command on the
-- host is a step on its state, which is of any type.
pub mod Obligation
mod Tests
use fluxpeer.Prelude.{
  Bool, true, false, not, ◌&&◌, List, [], ◌∷◌, Option, none, some, if◌then◌else◌, Result, ok, err,
}
use fluxpeer.Prelude.Text.{Text, codes}
use fluxpeer.Node.Apply.{ApplyError, other}

pub record NatInstall : Type 0 where
  pub applied : Option Text
  pub dirty : Option Text
  pub recovered : Bool
  pub recovery_deferred : Bool

-- The commands that bring the rules up on an interface, or take them down.
pub record NatHost : Type 1 where
  pub World : Type 0
  pub apply : World → Bool → Text → World × Result (Unit {0}) ApplyError
  pub cleanup : World → World × Result (Unit {0}) ApplyError

abbrev pub no_interface : ApplyError
no_interface = record {
  command = codes "discover" ∷ codes "physical-interface" ∷ [];
  exit_code = none;
  stderr = codes "no physical egress interface";
  kind = other;
}

-- `discover()?.ok_or_else`.
unfoldable pub interface_of : Result (Option Text) ApplyError → Result Text ApplyError
interface_of (err e) = err e
interface_of (ok none) = err no_interface
interface_of (ok (some phys)) = ok phys

module _ (host : NatHost) where
  open host use {World, apply, cleanup}

  -- What a failed call left is taken down first.
  unfoldable pub take_dirty : World → NatInstall → World × NatInstall × Result (Unit {0}) ApplyError
  take_dirty w s = elim s.dirty [
    | none ↦ (w, s, ok tt)
    | some phys ↦
        let (w', r) = apply w false phys in
        elim r [ ok _ ↦ (w', record s { dirty = none }, ok tt) | err e ↦ (w', s, err e) ]
  ]

  unfoldable pub nat_up :
      World
      → NatInstall
      → Result (Option Text) ApplyError
      → World × NatInstall × Result (Unit {0}) ApplyError
  nat_up w s discover = elim (interface_of discover) [
    | err e ↦ (w, s, err e)
    | ok phys ↦
        let (w', r) = apply w true phys in
        elim r [
          | ok _ ↦ (w', record s { applied = some phys }, ok tt)
          | err e ↦ (w', record s { dirty = some phys }, err e)
        ]
  ]

  unfoldable pub nat_down :
      World → NatInstall → Text → World × NatInstall × Result (Unit {0}) ApplyError
  nat_down w s phys =
      let (w', r) = apply w false phys in
      elim r [ ok _ ↦ (w', record s { applied = none }, ok tt) | err e ↦ (w', s, err e) ]

  unfoldable pub nat_switch :
      World
      → NatInstall
      → Bool
      → Result (Option Text) ApplyError
      → World × NatInstall × Result (Unit {0}) ApplyError
  nat_switch w s on discover = elim s.applied [
    | none ↦ if on then nat_up w s discover else (w, s, ok tt)
    | some phys ↦ if on then (w, s, ok tt) else nat_down w s phys
  ]

  unfoldable pub reconcile_nat :
      World
      → NatInstall
      → Bool
      → Result (Option Text) ApplyError
      → World × NatInstall × Result (Unit {0}) ApplyError
  reconcile_nat w s on discover =
      let first = take_dirty w s in
      elim first.2 [
        | err e ↦ (first.0, first.1, err e)
        | ok _ ↦ nat_switch first.0 first.1 on discover
      ]

  -- The cleanup at the start; a failure is put off only where no lease asks for it.
  unfoldable pub clean_up :
      World → NatInstall → Bool → World × NatInstall × Result (Unit {0}) ApplyError
  clean_up w s can_defer =
      let (w', r) = cleanup w in
      elim r [
        | ok _ ↦ (w', record s { recovered = true; recovery_deferred = false }, ok tt)
        | err e ↦
            if can_defer then (w', record s { recovery_deferred = true }, ok tt) else (w', s, err e)
      ]

  -- `has_lease` is asked only where the exit is off.
  unfoldable pub recover_nat :
      World
      → NatInstall
      → Bool
      → Result Bool ApplyError
      → World × NatInstall × Result (Unit {0}) ApplyError
  recover_nat w s on has_lease =
      if s.recovered then (w, s, ok tt) else if on then clean_up w s false else elim has_lease [
        | err e ↦ (w, s, err e)
        | ok lease ↦
            if not lease && s.recovery_deferred then (w, s, ok tt) else clean_up w s (not lease)
      ]
