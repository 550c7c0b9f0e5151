-- ===== src/Node/Routes/Members.antt =====
-- Which routes a table has: those of the peer that was set last are its new ones, and all others
-- stay.
use fluxpeer.Prelude.{
  ℕ, ◌≡◌, ◌≢◌, ◌↔◌, ◌⊎◌, inl, inr, ap, sym, ◌∙◌, List, [], ◌∷◌, ◌++◌, Option, none, some,
  Bool-cases, ◌≟◌, if_pos, if_neg, list_eq, nat_eq,
}
use fluxpeer.Sdk.Prefix.{IpPrefix}
use fluxpeer.Node.Routes.{
  Key, RouteEntry, RouteTable, before, sort_insert, sort, without, entries, with_peer_report,
  with_peer,
}

-- `x` is in the list.
abbrev pub In : {A : Type 0} → A → List A → Type 0
In x [] = ⊥
In x (y ∷ ys) = (y ≡ x) ⊎ In x ys

In-append : {A : Type 0} (x : A) (xs ys : List A) → In x (xs ++ ys) ↔ (In x xs ⊎ In x ys)
In-append x [] ys = (inr, λ h. elim h [ inl e ↦ absurd e | inr i ↦ i ])
In-append x (y ∷ xs) ys = (
  λ h. elim h [
    | inl e ↦ inl (inl e)
    | inr i ↦ elim ((In-append x xs ys).0 i) [ inl a ↦ inl (inr a) | inr b ↦ inr b ]
  ],
  λ h. elim h [
    | inl (inl e) ↦ inl e
    | inl (inr a) ↦ inr ((In-append x xs ys).1 (inl a))
    | inr b ↦ inr ((In-append x xs ys).1 (inr b))
  ],
)

In-sort_insert : (x r : RouteEntry) (rs : List RouteEntry) → In x (sort_insert r rs) ↔ In x (r ∷ rs)
unfolding sort_insert
In-sort_insert x r [] = (λ h. h, λ h. h)
In-sort_insert x r (s ∷ rs) = elim (Bool-cases (before r s)) [
  | inl e ↦ rw e (λ h. h, λ h. h)
  | inr e ↦
      let rest = In-sort_insert x r rs in
      rw e (
        λ h. elim h [
          | inl p ↦ inr (inl p)
          | inr i ↦ elim (rest.0 i) [ inl p ↦ inl p | inr k ↦ inr (inr k) ]
        ],
        λ h. elim h [
          | inl p ↦ inr (rest.1 (inl p))
          | inr (inl p) ↦ inl p
          | inr (inr k) ↦ inr (rest.1 (inr k))
        ],
      )
]

In-sort : (x : RouteEntry) (rs : List RouteEntry) → In x (sort rs) ↔ In x rs
unfolding sort
In-sort x [] = (λ h. h, λ h. h)
In-sort x (r ∷ rs) =
    let first = In-sort_insert x r (sort rs) in
    let rest = In-sort x rs in
    (
      λ h. elim (first.0 h) [ inl e ↦ inl e | inr i ↦ inr (rest.0 i) ],
      λ h. first.1 (elim h [ inl e ↦ inl e | inr i ↦ inr (rest.1 i) ]),
    )

In-without :
    (x : RouteEntry) (peer : Key) (rs : List RouteEntry)
    → In x (without peer rs) ↔ (In x rs × (x.peer ≢ peer))
unfolding without
In-without x peer [] = (λ h. absurd h, λ h. absurd h.0)
In-without x peer (r ∷ rs) = elim (r.peer ≟ peer) [
  | yes same ↦ rw (if_pos (r.peer ≟ peer) same (without peer rs) (r ∷ without peer rs)) (
    λ h. let (i, other) = (In-without x peer rs).0 h in (inr i, other),
    λ h. elim h.0 [
      | inl e ↦ absurd (h.1 (ap (λ z. z.peer) (sym e) ∙ same))
      | inr i ↦ (In-without x peer rs).1 (i, h.1)
    ],
  )
  | no differ ↦ rw (if_neg (r.peer ≟ peer) differ (without peer rs) (r ∷ without peer rs)) (
    λ h. elim h [
      | inl e ↦ (inl e, λ p. differ (ap (λ z. z.peer) e ∙ p))
      | inr k ↦ let (i, other) = (In-without x peer rs).0 k in (inr i, other)
    ],
    λ h. elim h.0 [ inl e ↦ inl e | inr i ↦ inr ((In-without x peer rs).1 (i, h.1)) ],
  )
]

-- An entry of the peer for one of these prefixes.
abbrev pub IsGiven : RouteEntry → Key → ℕ → List (Option IpPrefix) → Type 0
IsGiven x peer worker ps = (x.peer ≡ peer) × (x.worker ≡ worker) × In (some x.prefix) ps

In-entries :
    (x : RouteEntry) (peer : Key) (worker : ℕ) (ps : List (Option IpPrefix))
    → In x (entries peer worker ps) ↔ IsGiven x peer worker ps
unfolding entries
In-entries x peer worker [] = (λ h. absurd h, λ h. absurd h.2)
In-entries x peer worker (none ∷ ps) = (
  λ h. let (p, w, i) = (In-entries x peer worker ps).0 h in (p, w, inr i),
  λ h. elim h.2 [ inl e ↦ cc | inr i ↦ (In-entries x peer worker ps).1 (h.0, h.1, i) ],
)
In-entries x peer worker (some p ∷ ps) = (
  λ h. elim h [
    | inl e ↦
        (ap (λ z. z.peer) (sym e), ap (λ z. z.worker) (sym e), inl (ap (λ z. some z.prefix) e))
    | inr k ↦ let (q, w, i) = (In-entries x peer worker ps).0 k in (q, w, inr i)
  ],
  λ h. elim h.2 [
    | inl e ↦ inl (cc (e, h.0, h.1))
    | inr i ↦ inr ((In-entries x peer worker ps).1 (h.0, h.1, i))
  ],
)

-- After the routes of a peer are set, the table has the routes of the other peers as they were, and
-- one of the peer for each text that is a prefix, with its worker, and nothing else.
pub with_peer_lem :
    (t : RouteTable) (peer : Key) (worker : ℕ) (ps : List (Option IpPrefix)) (x : RouteEntry)
    → In x (with_peer t peer worker ps).routes
      ↔ ((In x t.routes × (x.peer ≢ peer)) ⊎ IsGiven x peer worker ps)
unfolding with_peer_report
with_peer_lem t peer worker ps x =
    let sorted = In-sort x (without peer t.routes ++ entries peer worker ps) in
    let parts = In-append x (without peer t.routes) (entries peer worker ps) in
    (
      λ h. elim (parts.0 (sorted.0 h)) [
        | inl old ↦ inl ((In-without x peer t.routes).0 old)
        | inr set ↦ inr ((In-entries x peer worker ps).0 set)
      ],
      λ h. sorted.1 (
          parts.1 (elim h [
            | inl old ↦ inl ((In-without x peer t.routes).1 old)
            | inr set ↦ inr ((In-entries x peer worker ps).1 set)
          ])),
    )
