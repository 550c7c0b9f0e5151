-- ===== src/Net/Disco/Addresses.antt =====
-- What `get_addr` reads are valid addresses, which `put_addr` writes back.
use fluxpeer.Prelude.{
  ℕ, zero, suc, ◌+◌, ◌-◌, ◌≤◌, ◌≡◌, refl, sym, ap, ◌∙◌, List, [], ◌∷◌, ◌++◌, arith, All, length,
  take, drop, get_or, ok, length-take, length-drop, take_pair, take-plus, drop-drop, All-drop,
  All-get_or, >>=-eq-ok, ◌==◌, Bool-cases, inl, inr, ◌⊎◌,
}
use mathlib.Core.Path.{subst}
use fluxpeer.Prelude.Bytes.{
  IsByte, IsU16, to_be_bytes16, from_be_bytes16, from_be_bytes16-IsU16, to_be_bytes16-from_be,
}
use fluxpeer.Net.Disco.Valid.{IsAddr}
use fluxpeer.Net.Disco.{
  SocketAddr, v4, v6, put_addr, get_v4, get_v6, get_addr, put_addrs, get_addrs, af_v4, af_v6,
}

-- An address that was read from the first `n` bytes of `b`.
pub record AddrAt (b : List ℕ) (a : SocketAddr) (n : ℕ) : Type 0 where
  pub fits : n ≤ length b
  pub valid : IsAddr a
  pub same : put_addr a ≡ take n b

-- The bytes of an address behind the family.
ip_port :
    (r : List ℕ) (n : ℕ)
    → n + 2 ≤ length r
    → All IsByte r
    → take n r ++ to_be_bytes16 (from_be_bytes16 (get_or r n 0) (get_or r (n + 1) 0))
      ≡ take (n + 2) r
ip_port r n h i =
    ap (◌++◌ (take n r)) (
      to_be_bytes16-from_be (get_or r n 0) (get_or r (n + 1) 0)
        (All-get_or IsByte r (n + 1) 0 i (omega arith)))
    ∙ sym (take_pair n r 0 (omega arith))

port_IsU16 :
    (r : List ℕ) (n : ℕ)
    → n + 2 ≤ length r
    → All IsByte r
    → IsU16 (from_be_bytes16 (get_or r n 0) (get_or r (n + 1) 0))
port_IsU16 r n h i =
    from_be_bytes16-IsU16 (get_or r n 0) (get_or r (n + 1) 0)
      (All-get_or IsByte r n 0 i (omega arith)) (All-get_or IsByte r (n + 1) 0 i (omega arith))

get_v4-AddrAt :
    (r : List ℕ) {a : SocketAddr} {n : ℕ}
    → All IsByte r
    → get_v4 (af_v4 ∷ r) ≡ ok (a, n)
    → AddrAt (af_v4 ∷ r) a n
unfolding get_v4 put_addr
get_v4-AddrAt r {a} {n} i h =
    let long : 6 ≤ length r = ground arith in
    let read : ◌≡◌ {A = SocketAddr × ℕ}
        (v4 (take 4 r) (from_be_bytes16 (get_or r 4 0) (get_or r 5 0)), 7) (a, n) =
      ground arith in
    rw (← ap (λ p. p.0) read, ← ap (λ p. p.1) read)
      (record {
        fits = omega arith;
        valid = (omega (arith, length-take 4 r), port_IsU16 r 4 (omega arith) i);
        same = ap (◌∷◌ 4) (ip_port r 4 (omega arith) i);
      })

get_v6-AddrAt :
    (r : List ℕ) {a : SocketAddr} {n : ℕ}
    → All IsByte r
    → get_v6 (af_v6 ∷ r) ≡ ok (a, n)
    → AddrAt (af_v6 ∷ r) a n
unfolding get_v6 put_addr
get_v6-AddrAt r {a} {n} i h =
    let long : 18 ≤ length r = ground arith in
    let read : ◌≡◌ {A = SocketAddr × ℕ}
        (v6 (take 16 r) (from_be_bytes16 (get_or r 16 0) (get_or r 17 0)) 0 0, 19) (a, n) =
      ground arith in
    rw (← ap (λ p. p.0) read, ← ap (λ p. p.1) read)
      (record {
        fits = omega arith;
        valid = (omega (arith, length-take 16 r), port_IsU16 r 16 (omega arith) i, refl, refl);
        same = ap (◌∷◌ 6) (ip_port r 16 (omega arith) i);
      })

-- The first byte chose the family.
get_addr_inv :
    (t : ℕ) (r : List ℕ) {a : SocketAddr} {n : ℕ}
    → get_addr (t ∷ r) ≡ ok (a, n)
    → ((t ≡ af_v4) × (get_v4 (t ∷ r) ≡ ok (a, n))) ⊎ ((t ≡ af_v6) × (get_v6 (t ∷ r) ≡ ok (a, n)))
unfolding get_addr
get_addr_inv t r h = elim (Bool-cases (t == af_v4)) [
  | inl e ↦ inl (ground arith, ground arith)
  | inr ne ↦ inr (ground arith, ground arith)
]

pub get_addr-AddrAt :
    (b : List ℕ) {a : SocketAddr} {n : ℕ} → All IsByte b → get_addr b ≡ ok (a, n) → AddrAt b a n
unfolding get_addr
get_addr-AddrAt [] i h = cc
get_addr-AddrAt (t ∷ r) {a} {n} i h = elim (get_addr_inv t r h) [
  | inl (e, f) ↦
      subst (λ x. get_v4 (x ∷ r) ≡ ok (a, n) → AddrAt (x ∷ r) a n) (sym e) (get_v4-AddrAt r i.1) f
  | inr (e, f) ↦
      subst (λ x. get_v6 (x ∷ r) ≡ ok (a, n) → AddrAt (x ∷ r) a n) (sym e) (get_v6-AddrAt r i.1) f
]

-- The addresses that the loop read from `off` on.
pub record AddrsAt (count : ℕ) (b : List ℕ) (off : ℕ) (cs : List SocketAddr) (end : ℕ)
    : Type 0 where
  pub counted : length cs ≡ count
  pub ahead : off ≤ end
  pub fits : end ≤ length b
  pub valid : All IsAddr cs
  pub same : put_addrs cs ≡ take (end - off) (drop off b)

take_none : (off : ℕ) (b : List ℕ) → [] ≡ take (off - off) (drop off b)
take_none off b = let none : off - off ≡ 0 = omega arith in rw none

-- One address and those after it stand next to each other.
join_addr :
    (b : List ℕ) (off n stop : ℕ) (xs ys : List ℕ)
    → off + n ≤ stop
    → xs ≡ take n (drop off b)
    → ys ≡ take (stop - (off + n)) (drop (off + n) b)
    → xs ++ ys ≡ take (stop - off) (drop off b)
join_addr b off n stop xs ys h p q =
    let split : stop - off ≡ n + (stop - (off + n)) = omega arith in
    rw (p, q, split, ← drop-drop off n b) (sym (take-plus n (stop - (off + n)) (drop off b)))

pub get_addrs-AddrsAt :
    (count : ℕ) (b : List ℕ) (off : ℕ) {cs : List SocketAddr} {end : ℕ}
    → All IsByte b
    → off ≤ length b
    → get_addrs count b off ≡ ok (cs, end)
    → AddrsAt count b off cs end
unfolding get_addrs put_addrs
get_addrs-AddrsAt zero b off {cs} {end} i h e =
    let read : ◌≡◌ {A = List SocketAddr × ℕ} ([], off) (cs, end) = cc in
    rw (← ap (λ p. p.0) read, ← ap (λ p. p.1) read)
      (record { counted = refl; ahead = omega arith; fits = h; valid = tt; same = take_none off b })
get_addrs-AddrsAt (suc count) b off {cs} {end} i h e =
    let ((a, n), one, e') = >>=-eq-ok (get_addr (drop off b)) _ e in
    let ((rest, stop), more, e'') = >>=-eq-ok (get_addrs count b (off + n)) _ e' in
    let first : AddrAt (drop off b) a n =
      get_addr-AddrAt (drop off b) (All-drop IsByte off b i) one in
    let room : off + n ≤ length b = omega (arith, first.fits, length-drop off b) in
    let later : AddrsAt count b (off + n) rest stop =
      get_addrs-AddrsAt count b (off + n) i room more in
    let read : ◌≡◌ {A = List SocketAddr × ℕ} (a ∷ rest, stop) (cs, end) = cc in
    rw (← ap (λ p. p.0) read, ← ap (λ p. p.1) read)
      (record {
        counted = ap suc later.counted;
        ahead = omega (arith, later.ahead);
        fits = later.fits;
        valid = (first.valid, later.valid);
        same =
            join_addr b off n stop (put_addr a) (put_addrs rest) later.ahead first.same later.same;
      })
