-- ===== src/Node/Routes/Sorted.antt =====
-- The routes stay sorted: longer prefixes first, then smaller keys.
use fluxpeer.Prelude.{ℕ, ◌≡◌, inl, inr, true, false, List, [], ◌∷◌, Option, All, arith, Bool-cases}
use fluxpeer.Net.Conhash.Order.{lex_le_refl, lex_le_total, lex_le_trans}
use fluxpeer.Sdk.Prefix.{IpPrefix}
use fluxpeer.Node.Routes.{
  Key, RouteEntry, RouteTable, before, sort_insert, sort, with_peer_report, with_peer,
}

abbrev pub IsBefore : RouteEntry → RouteEntry → Type 0
IsBefore a b = before a b ≡ true

before_total : (a b : RouteEntry) → before a b ≡ false → IsBefore b a
unfolding before
before_total a b h = ground (arith, lex_le_total a.peer b.peer)

IsBefore-trans : (a b c : RouteEntry) → IsBefore a b → IsBefore b c → IsBefore a c
unfolding before
IsBefore-trans a b c h i = ground (arith, lex_le_trans a.peer b.peer c.peer)

pub IsBefore-refl : (a : RouteEntry) → IsBefore a a
unfolding before
IsBefore-refl a = ground (arith, lex_le_refl a.peer)

abbrev pub IsSorted : List RouteEntry → Type 0
IsSorted [] = Unit {0}
IsSorted (r ∷ rs) = All (IsBefore r) rs × IsSorted rs

All-IsBefore :
    (a b : RouteEntry) (rs : List RouteEntry)
    → IsBefore a b
    → All (IsBefore b) rs
    → All (IsBefore a) rs
All-IsBefore a b [] h k = tt
All-IsBefore a b (r ∷ rs) h k = (IsBefore-trans a b r h k.0, All-IsBefore a b rs h k.1)

All-sort_insert :
    (a r : RouteEntry) (rs : List RouteEntry)
    → IsBefore a r
    → All (IsBefore a) rs
    → All (IsBefore a) (sort_insert r rs)
unfolding sort_insert
All-sort_insert a r [] h k = (h, tt)
All-sort_insert a r (s ∷ rs) h k = elim (Bool-cases (before r s)) [
  | inl e ↦ rw e (h, k)
  | inr e ↦ rw e (k.0, All-sort_insert a r rs h k.1)
]

sort_insert-IsSorted :
    (r : RouteEntry) (rs : List RouteEntry) → IsSorted rs → IsSorted (sort_insert r rs)
unfolding sort_insert
sort_insert-IsSorted r [] h = (tt, tt)
sort_insert-IsSorted r (s ∷ rs) h = elim (Bool-cases (before r s)) [
  | inl e ↦ rw e ((e, All-IsBefore r s rs e h.0), h)
  | inr e ↦ rw e (All-sort_insert s r rs (before_total r s e) h.0, sort_insert-IsSorted r rs h.1)
]

pub sort-IsSorted : (rs : List RouteEntry) → IsSorted (sort rs)
unfolding sort
sort-IsSorted [] = tt
sort-IsSorted (r ∷ rs) = sort_insert-IsSorted r (sort rs) (sort-IsSorted rs)

pub with_peer-IsSorted :
    (t : RouteTable) (peer : Key) (worker : ℕ) (prefixes : List (Option IpPrefix))
    → IsSorted (with_peer t peer worker prefixes).routes
unfolding with_peer_report
with_peer-IsSorted t peer worker prefixes = sort-IsSorted _
