-- ===== src/Sdk/Prefix/Canonical.antt =====
-- A prefix is read as its network, and holds the addresses with the same first bits.
use fluxpeer.Prelude.{
  ℕ, ◌-◌, ◌*◌, ◌/◌, ◌^◌, ◌<◌, ◌≡◌, ◌↔◌, inl, inr, refl, ap, sym, ◌∙◌, true, Option, some, ◌==◌, ok,
  ok_or, arith, Bool-cases, >>=-eq-ok, ok_or-eq-ok,
}
use mathlib.Core.Path.{subst}
use native.Mathlib.Nat.{mul-div_cancel, div-eq_of_lt, one-le-pow}
use fluxpeer.Sdk.Prefix.{
  IpAddr, v4, v6, IpPrefix, masked, network_of, from_str, contains, parsed_length, length_or,
  prefix_length_out_of_range,
}

-- The number of bits of an address, and the number that they are.
unfoldable pub width : IpAddr → ℕ
width (v4 _) = 32
width (v6 _) = 128

unfoldable pub bits : IpAddr → ℕ
bits (v4 n) = n
bits (v6 n) = n

mul_same : (q x y : ℕ) → 0 < q → x * q ≡ y * q → x ≡ y
mul_same q x y pos e = sym (mul-div_cancel x pos) ∙ ap (λ z. z / q) e ∙ mul-div_cancel y pos

pub masked_eq :
    (w n a b : ℕ)
    → a < 2 ^ w
    → b < 2 ^ w
    → (masked w n a ≡ masked w n b) ↔ (a / 2 ^ (w - n) ≡ b / 2 ^ (w - n))
unfolding masked
masked_eq w n a b ha hb = elim (Bool-cases (n == 0)) [
  | inl whole ↦
      let all : w - n ≡ w = ground arith in
      let low : (c : ℕ) → c < 2 ^ w → c / 2 ^ (w - n) ≡ 0 =
        λ c h. ap (λ k. c / 2 ^ k) all ∙ div-eq_of_lt h in
      (λ _. low a ha ∙ sym (low b hb), λ _. rw whole refl)
  | inr some_bits ↦ rw some_bits (
    mul_same (2 ^ (w - n)) (a / 2 ^ (w - n)) (b / 2 ^ (w - n)) (one-le-pow (w - n) 2 (omega arith)),
    ap (λ z. z * 2 ^ (w - n)),
  )
]

unfoldable pub IsIn : (network : IpAddr) (n : ℕ) (address : IpAddr) → Type 0
IsIn network n address =
    (width network ≡ width address)
    × (bits network / 2 ^ (width network - n) ≡ bits address / 2 ^ (width network - n))

is_eq : (a b : ℕ) → ((a == b) ≡ true) ↔ (b ≡ a)
is_eq a b = (λ h. ground arith, λ h. ground arith)

contains-network_of :
    (ip network address : IpAddr) (n : ℕ)
    → bits ip < 2 ^ width ip
    → bits address < 2 ^ width address
    → network_of ip n ≡ some network
    → (contains (record { network = network; length = n }) address ≡ true) ↔ IsIn ip n address
unfolding contains network_of width bits IsIn
contains-network_of (v4 i) network (v4 a) n hi ha e =
    let same : v4 (masked 32 n i) ≡ network = ground arith in
    rw (← same) (
      λ h. (refl, (masked_eq 32 n i a hi ha).0 ((is_eq _ _).0 h)),
      λ h. (is_eq _ _).1 ((masked_eq 32 n i a hi ha).1 h.1),
    )
contains-network_of (v4 i) network (v6 a) n hi ha e =
    let same : v4 (masked 32 n i) ≡ network = ground arith in
    rw (← same) (λ h. cc, λ h. absurd (omega (arith, h.0)))
contains-network_of (v6 i) network (v4 a) n hi ha e =
    let same : v6 (masked 128 n i) ≡ network = ground arith in
    rw (← same) (λ h. cc, λ h. absurd (omega (arith, h.0)))
contains-network_of (v6 i) network (v6 a) n hi ha e =
    let same : v6 (masked 128 n i) ≡ network = ground arith in
    rw (← same) (
      λ h. (refl, (masked_eq 128 n i a hi ha).0 ((is_eq _ _).0 h)),
      λ h. (is_eq _ _).1 ((masked_eq 128 n i a hi ha).1 h.1),
    )

-- A prefix that is read from an address holds exactly the addresses of the same family that have
-- its first bits in common with it, as many as the length says; host bits of the address that was
-- read do not matter.
pub contains-from_str :
    (ip address : IpAddr) (length : Option (Option ℕ)) (p : IpPrefix)
    → bits ip < 2 ^ width ip
    → bits address < 2 ^ width address
    → from_str (some ip) length ≡ ok p
    → (contains p address ≡ true) ↔ IsIn ip p.length address
unfolding from_str
contains-from_str ip address length p hi ha e =
    let (given, _, h) = >>=-eq-ok (parsed_length length) _ e in
    let n = length_or given ip in
    let (network, made, same) =
      >>=-eq-ok (ok_or (network_of ip n) prefix_length_out_of_range) _ h in
    let p_eq : record { network = network; length = n } ≡ p = cc in
    subst (λ z. (contains z address ≡ true) ↔ IsIn ip z.length address) p_eq
      (contains-network_of ip network address n hi ha (ok_or-eq-ok _ _ made))
