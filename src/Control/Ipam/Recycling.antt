-- ===== src/Control/Ipam/Recycling.antt =====
-- Which hosts are in use: those of the keys, except what a reservation strands.
use fluxpeer.Prelude.{
  ℕ, ◌<◌, ◌≤◌, ◌≡◌, ◌≢◌, inl, inr, refl, ap, ◌∙◌, true, false, none, some, arith, Option-cases,
  ℕ_discrete, get_or, get_or-replicate, List, ok, err, Result,
}
use fluxpeer.Prelude.Maps.{lookup, lookup-insert, lookup-remove}
use fluxpeer.Prelude.Text.{Text, text_eq}
use fluxpeer.Control.Ipam.{
  Ipam, new, Ipv4, Ipv6, IpamError, claim, allocate, owns, reserve, recycle, v4_for, pool_exhausted,
  device_host_min, device_host_max,
}
use fluxpeer.Control.Ipam.Valid.{IsValid, new-IsValid, get_or-set}
use fluxpeer.Control.Ipam.Allocation.{
  Allocated, known, fresh, full, allocate_cases, IsFull, Op, run, run-IsValid,
}

-- A key holds the host.
unfoldable pub IsHeld : Ipam → ℕ → Type 0
IsHeld a h = (k : Text) × (lookup k a.by_key ≡ some h)

-- Every host in use is held by a key.
unfoldable pub HasNoLeak : Ipam → Type 0
HasNoLeak a = (h : ℕ) → get_or a.used h false ≡ true → IsHeld a h

pub new-HasNoLeak : (v4_net v6_prefix : List ℕ) → HasNoLeak (new v4_net v6_prefix)
unfolding HasNoLeak new
new-HasNoLeak v4_net v6_prefix h used = cc (get_or-replicate 256 h false)

-- Claiming a free host for a key that has none strands nothing.
claim-HasNoLeak :
    (a : Ipam) (k : Text) (h : ℕ)
    → IsValid a
    → h < 256
    → lookup k a.by_key ≡ none
    → HasNoLeak a
    → HasNoLeak (claim a k h)
unfolding HasNoLeak IsHeld
claim-HasNoLeak a k h v small e held i used = elim (ℕ_discrete h i) [
  | yes p ↦ (k, ground (arith, lookup-insert k k h a.by_key))
  | no p ↦
      let was : get_or a.used i false ≡ true =
        ground (arith, get_or-set a.used h i true, v.table) in
      let (j, owner) = held i was in (j, ground (arith, lookup-insert k j h a.by_key))
]

Allocated-HasNoLeak :
    (a : Ipam) (k : Text) (r : Ipam × Result (Ipv4 × Ipv6) IpamError)
    → Allocated a k r
    → IsValid a
    → HasNoLeak a
    → HasNoLeak r.0
Allocated-HasNoLeak a k _ (known h e) v held = held
Allocated-HasNoLeak a k _ (fresh h e low) v held =
    claim-HasNoLeak a k h v (below_256 low.below_max) e held
  where
    below_256 : h ≤ device_host_max → h < 256
    below_256 p = omega arith
Allocated-HasNoLeak a k _ (full e _) v held = held

-- `allocate` strands no host: where every used host of a valid allocator is held by a key, this
-- is so after the call.
pub allocate-HasNoLeak :
    (a : Ipam) (k : Text) → IsValid a → HasNoLeak a → HasNoLeak (allocate a k).0
allocate-HasNoLeak a k v held = Allocated-HasNoLeak a k (allocate a k) (allocate_cases a k) v held

-- `recycle` strands no host: where every used host of a valid allocator is held by a key, this is
-- so after the call.
pub recycle-HasNoLeak : (a : Ipam) (k : Text) → IsValid a → HasNoLeak a → HasNoLeak (recycle a k).0
unfolding recycle HasNoLeak IsHeld
recycle-HasNoLeak a k v held i = elim (Option-cases (lookup k a.by_key)) [
  | inl e ↦ rw (e, recycle) (held i)
  | inr (h, e) ↦
      rw (e, recycle)
        (λ used.
          let small = (v.host_used k h e).0 in
          let was : (get_or a.used i false ≡ true) × (h ≢ i) =
            ground (arith, get_or-set a.used h i false, v.table) in
          let (j, owner) = held i was.0 in (j, ground (arith, lookup-remove k j a.by_key)))
]

-- `recycle` answers whether the key had an address. If it had, its host is free after the call,
-- the key has none, and every other key keeps its own; else the call changes nothing.
pub recycle_lem :
    (a : Ipam) (k : Text)
    → IsValid a
    → ((h : ℕ)
        → lookup k a.by_key ≡ some h
        → ((recycle a k).1 ≡ true)
          × (get_or (recycle a k).0.used h false ≡ false)
          × (lookup k (recycle a k).0.by_key ≡ none)
          × ((j : Text) → j ≢ k → lookup j (recycle a k).0.by_key ≡ lookup j a.by_key))
      × (lookup k a.by_key ≡ none → recycle a k ≡ (a, false))
unfolding recycle
recycle_lem a k v = (
  λ h e.
      rw (e, recycle)
        (
          refl,
          ground (arith, get_or-set a.used h h false, v.table, v.host_used k h e),
          ground (arith, lookup-remove k k a.by_key),
          λ j ne. ground (arith, lookup-remove k j a.by_key),
        ),
  λ e. rw (e, recycle) refl,
)

-- The pool is full only of devices: when `allocate` fails on a valid allocator that strands no
-- host, every host of 100..=249 is held by a key.
pub allocate_full :
    (a : Ipam) (k : Text)
    → HasNoLeak a
    → (allocate a k).1 ≡ err pool_exhausted
    → (h : ℕ) → device_host_min ≤ h
    → h ≤ device_host_max
    → IsHeld a h
unfolding HasNoLeak IsFull
allocate_full a k held e = go (allocate a k) (allocate_cases a k) e
  where
    go :
        (r : Ipam × Result (Ipv4 × Ipv6) IpamError)
        → Allocated a k r
        → r.1 ≡ err pool_exhausted
        → (h : ℕ) → device_host_min ≤ h
        → h ≤ device_host_max
        → IsHeld a h
    go _ (known i p) q = absurd (cc)
    go _ (fresh i p _) q = absurd (cc)
    go _ (full p all) q = λ h low high. held h (all h low high)

-- At any time in the life of a network, whatever was called before, two keys that hold an address
-- hold different IPv4 addresses.
pub addresses_distinct :
    (v4_net v6_prefix : List ℕ) (ops : List Op) (j k : Text) {h i : ℕ}
    → let a = run (new v4_net v6_prefix) ops in
      lookup j a.by_key ≡ some h → lookup k a.by_key ≡ some i → j ≢ k → v4_for a h ≢ v4_for a i
unfolding v4_for
addresses_distinct v4_net v6_prefix ops j k {h} {i} p q ne same =
    let v = run-IsValid (new v4_net v6_prefix) ops (new-IsValid v4_net v6_prefix) in
    let e : h ≡ i = ap (λ x. get_or x 3 0) same in ne (v.distinct j k i (p ∙ ap some e) q)

-- `reserve` strands a host: in a valid allocator, for a key that holds h, the call that succeeds
-- for another free host i leaves h in use and held by no key.
pub reserve_leaks :
    (a : Ipam) (k : Text) (h i : ℕ)
    → IsValid a
    → lookup k a.by_key ≡ some h
    → h ≢ i
    → i < 256
    → get_or a.used i false ≡ false
    → ((reserve a k i).1 ≡ ok tt)
      × (get_or (reserve a k i).0.used h false ≡ true)
      × ¬ IsHeld (reserve a k i).0 h
unfolding IsHeld reserve
reserve_leaks a k h i v e ne small vacant =
    let other : owns a k i ≡ false = ground arith in
    rw (other, vacant, reserve)
      (
        refl,
        ground (arith, get_or-set a.used i h true, v.table, v.host_used k h e),
        λ (j, p). ground (arith, lookup-insert k j i a.by_key, v.distinct j k h, v.host_used k h e),
      )
