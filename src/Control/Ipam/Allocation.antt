-- ===== src/Control/Ipam/Allocation.antt =====
-- What a call of `allocate` answers, and that a device keeps its address.
use fluxpeer.Prelude.{
  ℕ, ◌<◌, ◌≤◌, ◌≡◌, ◌≢◌, inl, inr, refl, ap, ◌∙◌, true, false, List, [], ◌∷◌, All, none, some,
  arith, Bool-cases, Option-cases, get_or, Result, ok, err,
}
use fluxpeer.Prelude.Maps.{lookup, lookup-insert, lookup-remove}
use fluxpeer.Prelude.Text.{Text, text_eq}
use fluxpeer.Control.Ipam.{
  Ipam, Ipv4, Ipv6, IpamError, find_free, device_hosts, device_host_min, device_host_max, claim,
  allocate, owns, reserve, recycle, pool_exhausted, addresses, v4_for, v6_for,
}
use fluxpeer.Control.Ipam.Valid.{
  IsValid, find_free-some, find_free-none, allocate-IsValid, reserve-IsValid, recycle-IsValid,
}

-- The host is the lowest one of the device range that nobody uses.
pub record IsLowestFree (a : Ipam) (h : ℕ) : Type 0 where
  pub above_min : device_host_min ≤ h
  pub below_max : h ≤ device_host_max
  pub unused : get_or a.used h false ≡ false
  pub lowest : (i : ℕ) → device_host_min ≤ i → i < h → get_or a.used i false ≡ true

-- No host of the device range is left.
unfoldable pub IsFull : Ipam → Type 0
IsFull a = (i : ℕ) → device_host_min ≤ i → i ≤ device_host_max → get_or a.used i false ≡ true

-- The three ways a call ends: a known key, a new key with the lowest free host, a full pool.
pub data Allocated (a : Ipam) (k : Text) : Ipam × Result (Ipv4 × Ipv6) IpamError → Type 0 where
  known : (h : ℕ) → lookup k a.by_key ≡ some h → Allocated a k (a, ok (addresses a h))
  fresh :
      (h : ℕ)
      → lookup k a.by_key ≡ none
      → IsLowestFree a h
      → Allocated a k (claim a k h, ok (addresses a h))
  full : lookup k a.by_key ≡ none → IsFull a → Allocated a k (a, err pool_exhausted)

-- Every call of `allocate` returns the address of a key that is known and changes nothing, or
-- claims the lowest free host of 100..=249 for a new key, or, when each of these is used, fails
-- and changes nothing.
pub allocate_cases : (a : Ipam) (k : Text) → Allocated a k (allocate a k)
unfolding allocate IsFull
allocate_cases a k = elim (Option-cases (lookup k a.by_key)) [
  | inr (h, e) ↦ rw (e, allocate) (known h e)
  | inl e ↦ elim (Option-cases (find_free device_hosts device_host_min a.used)) [
    | inl none_free ↦
        let all = find_free-none device_hosts device_host_min a.used none_free in
        rw (e, none_free, allocate) (full e (λ i p q. all i p (omega arith)))
    | inr (h, found) ↦
        let (low, high, vacant, below) = find_free-some device_hosts device_host_min a.used found in
        rw (e, found, allocate)
          (fresh h e
            (record { above_min = low; below_max = omega arith; unused = vacant; lowest = below }))
  ]
]

-- The calls that change the allocator.
pub data Op : Type 0 where
  do_allocate : Text → Op
  do_reserve : Text → (h : ℕ) → h < 256 → Op
  do_recycle : Text → Op

unfoldable pub apply : Ipam → Op → Ipam
apply a (do_allocate k) = (allocate a k).0
apply a (do_reserve k h _) = (reserve a k h).0
apply a (do_recycle k) = (recycle a k).0

unfoldable pub run : Ipam → List Op → Ipam
run a [] = a
run a (op ∷ ops) = run (apply a op) ops

pub apply-IsValid : (a : Ipam) (op : Op) → IsValid a → IsValid (apply a op)
unfolding apply
apply-IsValid a (do_allocate k) v = allocate-IsValid a k v
apply-IsValid a (do_reserve k h small) v = reserve-IsValid a k h small v
apply-IsValid a (do_recycle k) v = recycle-IsValid a k v

pub run-IsValid : (a : Ipam) (ops : List Op) → IsValid a → IsValid (run a ops)
unfolding run
run-IsValid a [] v = v
run-IsValid a (op ∷ ops) v = run-IsValid (apply a op) ops (apply-IsValid a op v)

-- A call that does not take the address of a key away: it neither reserves nor recycles for it.
unfoldable pub Spares : Text → Op → Type 0
Spares k (do_allocate j) = Unit {0}
Spares k (do_reserve j h _) = j ≢ k
Spares k (do_recycle j) = j ≢ k

-- Such a step keeps what the map has for the key, and the network.
allocate-lookup :
    (a : Ipam) (j k : Text) (h : ℕ)
    → lookup k a.by_key ≡ some h
    → (lookup k (allocate a j).0.by_key ≡ some h) × (addresses (allocate a j).0 h ≡ addresses a h)
unfolding v4_for v6_for
allocate-lookup a j k h e = go (allocate a j) (allocate_cases a j)
  where
    go :
        (r : Ipam × Result (Ipv4 × Ipv6) IpamError)
        → Allocated a j r
        → (lookup k r.0.by_key ≡ some h) × (addresses r.0 h ≡ addresses a h)
    go _ (known i p) = (e, refl)
    go _ (fresh i p q) = (ground (arith, lookup-insert j k i a.by_key), refl)
    go _ (full p q) = (e, refl)

reserve-lookup :
    (a : Ipam) (j k : Text) (i h : ℕ)
    → j ≢ k
    → lookup k a.by_key ≡ some h
    → (lookup k (reserve a j i).0.by_key ≡ some h) × (addresses (reserve a j i).0 h ≡ addresses a h)
unfolding reserve v4_for v6_for
reserve-lookup a j k i h ne e = elim (Bool-cases (owns a j i)) [
  | inl mine ↦ rw mine (e, refl)
  | inr other ↦ elim (Bool-cases (get_or a.used i false)) [
    | inl taken ↦ rw (other, taken) (e, refl)
    | inr vacant ↦ rw (other, vacant) (ground (arith, lookup-insert j k i a.by_key), refl)
  ]
]

recycle-lookup :
    (a : Ipam) (j k : Text) (h : ℕ)
    → j ≢ k
    → lookup k a.by_key ≡ some h
    → (lookup k (recycle a j).0.by_key ≡ some h) × (addresses (recycle a j).0 h ≡ addresses a h)
unfolding recycle v4_for v6_for
recycle-lookup a j k h ne e = elim (Option-cases (lookup j a.by_key)) [
  | inl p ↦ rw (p, recycle) (e, refl)
  | inr (i, p) ↦ rw (p, recycle) (ground (arith, lookup-remove j k a.by_key), refl)
]

apply-lookup :
    (a : Ipam) (op : Op) (k : Text) (h : ℕ)
    → Spares k op
    → lookup k a.by_key ≡ some h
    → (lookup k (apply a op).by_key ≡ some h) × (addresses (apply a op) h ≡ addresses a h)
unfolding apply Spares
apply-lookup a (do_allocate j) k h spares e = allocate-lookup a j k h e
apply-lookup a (do_reserve j i _) k h spares e = reserve-lookup a j k i h spares e
apply-lookup a (do_recycle j) k h spares e = recycle-lookup a j k h spares e

pub run-lookup :
    (a : Ipam) (ops : List Op) (k : Text) (h : ℕ)
    → All (Spares k) ops
    → lookup k a.by_key ≡ some h
    → (lookup k (run a ops).by_key ≡ some h) × (addresses (run a ops) h ≡ addresses a h)
unfolding run
run-lookup a [] k h spares e = (e, refl)
run-lookup a (op ∷ ops) k h spares e =
    let (here, same) = apply-lookup a op k h spares.0 e in
    let (there, same_all) = run-lookup (apply a op) ops k h spares.1 here in
    (there, same_all ∙ same)

-- A key that the map knows is answered from it.
pub allocate_known :
    (a : Ipam) (k : Text) (h : ℕ)
    → lookup k a.by_key ≡ some h
    → allocate a k ≡ (a, ok (addresses a h))
unfolding allocate
allocate_known a k h e = rw (e, allocate) refl

-- What a successful call has answered is the key's entry of the map that it leaves.
pub allocate-lookup_self :
    (a : Ipam) (k : Text) {addr : Ipv4 × Ipv6}
    → (allocate a k).1 ≡ ok addr
    → (h : ℕ) × (lookup k (allocate a k).0.by_key ≡ some h) × (addresses (allocate a k).0 h ≡ addr)
unfolding v4_for v6_for
allocate-lookup_self a k {addr} e = go (allocate a k) (allocate_cases a k) e
  where
    go :
        (r : Ipam × Result (Ipv4 × Ipv6) IpamError)
        → Allocated a k r
        → r.1 ≡ ok addr
        → (h : ℕ) × (lookup k r.0.by_key ≡ some h) × (addresses r.0 h ≡ addr)
    go _ (known h p) q = (h, p, cc)
    go _ (fresh h p _) q = (h, ground (arith, lookup-insert k k h a.by_key), cc)
    go _ (full p _) q = absurd (cc)

-- Once `allocate` has answered an address for a key, every later call for this key answers the
-- same address, whatever calls come between, as long as none of them reserves or recycles for
-- the key.
pub allocate_stable :
    (a : Ipam) (k : Text) (ops : List Op) {addr : Ipv4 × Ipv6}
    → (allocate a k).1 ≡ ok addr
    → All (Spares k) ops
    → allocate (run (allocate a k).0 ops) k ≡ (run (allocate a k).0 ops, ok addr)
allocate_stable a k ops e spares =
    let (h, here, same) = allocate-lookup_self a k e in
    let (there, same_all) = run-lookup (allocate a k).0 ops k h spares here in
    allocate_known (run (allocate a k).0 ops) k h there
    ∙ ap (λ x. (run (allocate a k).0 ops, ok x)) (same_all ∙ same)
