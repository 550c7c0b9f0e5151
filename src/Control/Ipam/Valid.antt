-- ===== src/Control/Ipam/Valid.antt =====
-- The invariant of the allocator, kept by each of its operations.
use fluxpeer.Prelude.{
  ℕ, zero, suc, ◌+◌, ◌<◌, ◌≤◌, ◌≡◌, inl, inr, sym, ap, ◌∙◌, Bool, true, false, List, none, some,
  arith, ◌==◌, if◌then◌else◌, ℕ_discrete, Bool-cases, Option-cases, length, get_or, set, length-set,
  get_or-set_self, get_or-set_ne, length-replicate,
}
use fluxpeer.Prelude.Maps.{lookup, lookup-insert, lookup-remove}
use fluxpeer.Prelude.Text.{Text, text_eq}
use fluxpeer.Control.Ipam.{
  Ipam, new, find_free, device_hosts, device_host_min, claim, allocate, owns, reserve, recycle,
}

-- Every key's host is a byte that is marked as used, and no two keys have the same host.
pub record IsValid (a : Ipam) : Type 0 where
  pub table : length a.used ≡ 256
  pub host_used :
      (k : Text) (h : ℕ) → lookup k a.by_key ≡ some h → (h < 256) × (get_or a.used h false ≡ true)
  pub distinct :
      (j k : Text) (h : ℕ) → lookup j a.by_key ≡ some h → lookup k a.by_key ≡ some h → j ≡ k

pub new-IsValid : (v4_net v6_prefix : List ℕ) → IsValid (new v4_net v6_prefix)
unfolding new lookup
new-IsValid v4_net v6_prefix = record {
  table = length-replicate 256 false;
  host_used = λ k h e. cc;
  distinct = λ j k h p q. cc;
}

-- One entry of the table, after a write within it.
pub get_or-set :
    (used : List Bool) (i j : ℕ) (v : Bool)
    → i < length used
    → get_or (set used i v) j false ≡ (if i == j then v else get_or used j false)
get_or-set used i j v h = elim (ℕ_discrete i j) [
  | yes p ↦
      let e : (i == j) ≡ true = ground arith in
      rw e (ap (λ k. get_or (set used i v) k false) (sym p) ∙ get_or-set_self used i v false h)
  | no p ↦ get_or-set_ne used i j v false p ∙ ground arith
]

-- Claiming a free host for a key keeps the table.
pub claim-IsValid :
    (a : Ipam) (k : Text) (h : ℕ)
    → IsValid a
    → h < 256
    → get_or a.used h false ≡ false
    → IsValid (claim a k h)
claim-IsValid a k h v small free = record {
  table = length-set a.used h true ∙ v.table;
  host_used = λ j i e.
      ground
        (arith, lookup-insert k j h a.by_key, v.host_used j i, get_or-set a.used h i true, v.table);
  distinct = λ i j n p q. ground (
    arith,
    lookup-insert k i h a.by_key,
    lookup-insert k j h a.by_key,
    v.distinct i j n,
    v.host_used i n,
    v.host_used j n,
  );
}

-- The search finds the lowest free host of its range.
pub find_free-some :
    (n h : ℕ) (used : List Bool) {i : ℕ}
    → find_free n h used ≡ some i
    → (h ≤ i)
      × (i < h + n)
      × (get_or used i false ≡ false)
      × ((j : ℕ) → h ≤ j → j < i → get_or used j false ≡ true)
unfolding find_free
find_free-some zero h used e = cc
find_free-some (suc n) h used {i} e = elim (Bool-cases (get_or used h false)) [
  | inl taken ↦
      let (low, high, free, below) = find_free-some n (h + 1) used {i = i} (ground arith) in
      (
        omega arith,
        omega arith,
        free,
        λ j p q. elim (ℕ_discrete h j) [ yes r ↦ cc | no r ↦ below j (omega arith) q ],
      )
  | inr vacant ↦
      let r : h ≡ i = ground arith in (omega arith, omega arith, cc, λ j p q. absurd (omega arith))
]

pub find_free-none :
    (n h : ℕ) (used : List Bool)
    → find_free n h used ≡ none
    → (j : ℕ) → h ≤ j
    → j < h + n
    → get_or used j false ≡ true
unfolding find_free
find_free-none zero h used e j p q = absurd (omega arith)
find_free-none (suc n) h used e j p q = elim (Bool-cases (get_or used h false)) [
  | inl taken ↦ elim (ℕ_discrete h j) [
    | yes r ↦ cc
    | no r ↦ find_free-none n (h + 1) used (ground arith) j (omega arith) (omega arith)
  ]
  | inr vacant ↦ absurd (ground arith)
]

pub allocate-IsValid : (a : Ipam) (k : Text) → IsValid a → IsValid (allocate a k).0
unfolding allocate
allocate-IsValid a k v = elim (Option-cases (lookup k a.by_key)) [
  | inr (h, e) ↦ rw (e, allocate) v
  | inl e ↦ elim (Option-cases (find_free device_hosts device_host_min a.used)) [
    | inl full ↦ rw (e, full, allocate) v
    | inr (h, found) ↦
        let (low, high, free, _) = find_free-some device_hosts device_host_min a.used found in
        rw (e, found, allocate) (claim-IsValid a k h v (omega arith) free)
  ]
]

pub reserve-IsValid :
    (a : Ipam) (k : Text) (h : ℕ) → h < 256 → IsValid a → IsValid (reserve a k h).0
unfolding reserve
reserve-IsValid a k h small v = elim (Bool-cases (owns a k h)) [
  | inl mine ↦ rw mine v
  | inr other ↦ elim (Bool-cases (get_or a.used h false)) [
    | inl taken ↦ rw (other, taken) v
    | inr free ↦ rw (other, free) (claim-IsValid a k h v small free)
  ]
]

pub recycle-IsValid : (a : Ipam) (k : Text) → IsValid a → IsValid (recycle a k).0
unfolding recycle
recycle-IsValid a k v = elim (Option-cases (lookup k a.by_key)) [
  | inl e ↦ rw (e, recycle) v
  | inr (h, e) ↦
      rw (e, recycle)
        (record {
          table = length-set a.used h false ∙ v.table;
          host_used = λ j i p. ground (
            arith,
            lookup-remove k j a.by_key,
            v.host_used j i,
            v.host_used k h,
            v.distinct j k h,
            get_or-set a.used h i false,
            v.table,
          );
          distinct = λ i j n p q.
              ground
                (arith, lookup-remove k i a.by_key, lookup-remove k j a.by_key, v.distinct i j n);
        })
]
