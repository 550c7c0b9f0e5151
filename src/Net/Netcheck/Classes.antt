-- ===== src/Net/Netcheck/Classes.antt =====
-- What each class of a NAT says of the observations, and what the strategy says of the probe.
use fluxpeer.Prelude.{
  ◌<◌, ◌≤◌, ◌≡◌, ◌≢◌, ◌⊎◌, inl, inr, refl, sym, ◌∙◌, true, false, ◌&&◌, ◌||◌, List, [], ◌∷◌, Option,
  ltb, leb, ◌==◌, if◌then◌else◌, length, Eq, ◌≟◌, arith, Bool-cases, if_pos,
}
use mathlib.Core.Path.{subst}
use fluxpeer.Net.Netcheck.{
  NatClass, open_nat, endpoint_independent, symmetric, blocked, unknown, punchable, flatten,
  contains, distinct, classify_nat, Probe, ConnStrategy, direct_udp, direct_tcp, relay, no_strategy,
  choose, is_some_strategy, diagnose,
}

module _ {A : Type 0} ⦃e : Eq A⦄ where
  -- The address is among the observations.
  abbrev pub In : A → List A → Type 0
  In a xs = contains a xs ≡ true

  In-cons : (a b : A) (xs : List A) → In b (a ∷ xs) → (b ≡ a) ⊎ In b xs
  unfolding contains
  In-cons a b xs h = elim (a ≟ b) [ yes p ↦ inl (sym p) | no p ↦ inr (ground arith) ]

  In-nil : (a : A) → contains a [] ≡ false
  unfolding contains
  In-nil a = refl

  In-head : (a : A) (xs : List A) → In a (a ∷ xs)
  unfolding contains
  In-head a xs = if_pos (a ≟ a) refl true (contains a xs)

  In-tail : (a b : A) (xs : List A) → In b xs → In b (a ∷ xs)
  unfolding contains
  In-tail a b xs h = ground arith

  length-distinct-pos : (a : A) (xs : List A) → 1 ≤ length (distinct (a ∷ xs))
  unfolding distinct
  length-distinct-pos a [] = rw (In-nil a) (omega arith)
  length-distinct-pos a (b ∷ xs) = ground (arith, length-distinct-pos b xs)

  -- With one distinct element, all elements are the first.
  distinct_one :
      (a : A) (xs : List A) → length (distinct (a ∷ xs)) ≤ 1 → (b : A) → In b (a ∷ xs) → b ≡ a
  unfolding distinct
  distinct_one a [] h b m = elim (In-cons a b [] m) [ inl p ↦ p | inr q ↦ cc (In-nil b) ]
  distinct_one a (c ∷ cs) h b m = elim (Bool-cases (contains a (c ∷ cs))) [
    | inl again ↦
        let few : length (distinct (c ∷ cs)) ≤ 1 = ground arith in
        let same : a ≡ c = distinct_one c cs few a again in
        elim (In-cons a b (c ∷ cs) m) [ inl p ↦ p | inr q ↦ distinct_one c cs few b q ∙ sym same ]
    | inr once ↦ absurd (ground (arith, length-distinct-pos c cs))
  ]

  two_apart :
      (a : A) (xs : List A)
      → contains a xs ≡ false
      → 1 ≤ length (distinct xs)
      → (x : A) × (y : A) × In x (a ∷ xs) × In y (a ∷ xs) × (x ≢ y)
  unfolding distinct
  two_apart a [] once h = absurd (omega arith)
  two_apart a (b ∷ xs) once h = (
    a,
    b,
    In-head a (b ∷ xs),
    In-tail a b (b ∷ xs) (In-head b xs),
    λ same. cc (rw (← same) at (In-head b xs), once),
  )

  -- With more, two elements differ.
  distinct_more :
      (xs : List A) → 1 < length (distinct xs) → (a : A) × (b : A) × In a xs × In b xs × (a ≢ b)
  unfolding distinct
  distinct_more [] h = absurd (omega arith)
  distinct_more (a ∷ xs) h = elim (Bool-cases (contains a xs)) [
    | inl again ↦
        let (x, y, hx, hy, ne) = distinct_more xs (ground arith) in
        (x, y, In-tail a x xs hx, In-tail a y xs hy, ne)
    | inr once ↦ two_apart a xs once (ground arith)
  ]

  -- What a class says of the observations.
  unfoldable pub Explains : A → List A → NatClass → Type 0
  Explains local seen open_nat = In local seen
  Explains local seen endpoint_independent =
      ¬ In local seen × (2 ≤ length seen) × ((a : A) (b : A) → In a seen → In b seen → a ≡ b)
  Explains local seen symmetric =
      ¬ In local seen × ((a : A) × (b : A) × In a seen × In b seen × (a ≢ b))
  Explains local seen blocked = seen ≡ []
  Explains local seen unknown = (a : A) × (seen ≡ a ∷ []) × (a ≢ local)

  single :
      (local a : A) (seen : List A)
      → length (a ∷ seen) < 2
      → ¬ In local (a ∷ seen)
      → Explains local (a ∷ seen) unknown
  unfolding Explains
  single local a [] h out = (a, refl, λ same. out (subst (λ x. In x (a ∷ [])) same (In-head a [])))
  single local a (b ∷ seen) h out = absurd (omega arith)

  seen-Explains :
      (local a : A) (seen : List A)
      → Explains local (a ∷ seen) (
          if contains local (a ∷ seen)
          then open_nat
          else if ltb 1 (length (distinct (a ∷ seen)))
          then symmetric
          else if leb 2 (length (a ∷ seen))
          then endpoint_independent
          else unknown)
  unfolding Explains
  seen-Explains local a seen = elim (Bool-cases (contains local (a ∷ seen))) [
    | inl here ↦ rw here here
    | inr away ↦ elim (Bool-cases (ltb 1 (length (distinct (a ∷ seen))))) [
      | inl more ↦ rw (away, more) ((λ m. cc), distinct_more (a ∷ seen) (ground arith))
      | inr one ↦
          let few : length (distinct (a ∷ seen)) ≤ 1 = ground arith in
          elim (Bool-cases (leb 2 (length (a ∷ seen)))) [
            | inl twice ↦
                rw (away, one, twice)
                  (
                    (λ m. cc),
                    ground arith,
                    λ x y hx hy. distinct_one a seen few x hx ∙ sym (distinct_one a seen few y hy),
                  )
            | inr once ↦ rw (away, one, once) (single local a seen (ground arith) (λ m. cc))
          ]
    ]
  ]

  -- The class that is answered explains the observations: none for blocked, the local address among
  -- them for open, two different ones for symmetric, two or more that are all the same for
  -- endpoint-independent, and a single other one for unknown.
  pub classify_nat-Explains :
      (local : A) (observations : List (Option A))
      → Explains local (flatten observations) (classify_nat local observations)
  unfolding classify_nat Explains
  classify_nat-Explains local observations = go (flatten observations)
    where
      go :
          (seen : List A)
          → Explains local seen (
              if length seen == 0
              then blocked
              else if contains local seen
              then open_nat
              else if ltb 1 (length (distinct seen))
              then symmetric
              else if leb 2 (length seen)
              then endpoint_independent
              else unknown)
      go [] = refl
      go (a ∷ seen) =
          let nonzero : (length (a ∷ seen) == 0) ≡ false = ground arith in
          rw nonzero (seen-Explains local a seen)

-- A strategy uses only what the probe found to work: a direct one a NAT that can be punched and its
-- protocol, a relay the relay and no direct way; with none, nothing of this works.
unfoldable pub Fits : Probe → ConnStrategy → Type 0
Fits p direct_udp = (p.udp_ok ≡ true) × (punchable p.nat ≡ true)
Fits p direct_tcp = (p.udp_ok ≡ false) × (p.tcp_ok ≡ true) × (punchable p.nat ≡ true)
Fits p relay =
    (p.relay_ok ≡ true) × ((punchable p.nat ≡ false) ⊎ ((p.udp_ok ≡ false) × (p.tcp_ok ≡ false)))
Fits p no_strategy =
    (p.relay_ok ≡ false) × ((punchable p.nat ≡ false) ⊎ ((p.udp_ok ≡ false) × (p.tcp_ok ≡ false)))

-- The strategy of a diagnosis fits the probe, and it says that a connection is possible exactly
-- where the relay works or a NAT that can be punched lets UDP or TCP through.
pub diagnose-Fits :
    (p : Probe)
    → Fits p (diagnose p).strategy
      × ((diagnose p).can_connect ≡ p.relay_ok || punchable p.nat && (p.udp_ok || p.tcp_ok))
unfolding diagnose choose is_some_strategy Fits
diagnose-Fits p = ground arith
