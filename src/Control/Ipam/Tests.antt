-- ===== src/Control/Ipam/Tests.antt =====
-- The allocator's theorems at a concrete network.
use fluxpeer.Prelude.{
  ◌≡◌, ◌≢◌, refl, true, false, List, [], ◌∷◌, All, some, get_or, ok, arith, list_dec, ℕ_discrete,
}
use fluxpeer.Prelude.Maps.{lookup, insert}
use fluxpeer.Prelude.Text.{Text, text_eq}
use fluxpeer.Control.Ipam.{Ipam, new, find_free, allocate, reserve, v4_for, addresses}
use fluxpeer.Control.Ipam.Valid.{IsValid, new-IsValid, allocate-IsValid}
use fluxpeer.Control.Ipam.Allocation.{
  Op, do_allocate, do_recycle, run, apply, Spares, allocate_stable,
}
use fluxpeer.Control.Ipam.Recycling.{IsHeld, addresses_distinct, reserve_leaks}

abbrev net : Ipam
net = new (100 ∷ 72 ∷ 15 ∷ 0 ∷ []) (64882 ∷ 5547 ∷ 51457 ∷ [])

abbrev alice : Text
alice = 1 ∷ []

abbrev bob : Text
bob = 2 ∷ []

abbrev one : Ipam
one = (allocate net alice).0

net-IsValid : IsValid net
net-IsValid = new-IsValid (100 ∷ 72 ∷ 15 ∷ 0 ∷ []) (64882 ∷ 5547 ∷ 51457 ∷ [])

one-IsValid : IsValid one
one-IsValid = allocate-IsValid net alice net-IsValid

alice_has : lookup alice one.by_key ≡ some 100
unfolding allocate lookup insert new find_free list_dec ℕ_discrete
alice_has = refl

first_address : (allocate net alice).1 ≡ ok (addresses net 100)
unfolding allocate lookup insert new find_free
first_address = refl

abbrev later : List Op
later = do_allocate bob ∷ do_recycle bob ∷ []

later-Spares : All (Spares alice) later
unfolding Spares
later-Spares = (tt, ((λ e. cc), tt))

allocate_stable_example :
    allocate (run (allocate net alice).0 later) alice
    ≡ (run (allocate net alice).0 later, ok (addresses net 100))
allocate_stable_example = allocate_stable net alice later first_address later-Spares

reserve_leaks_example :
    ((reserve one alice 101).1 ≡ ok tt)
    × (get_or (reserve one alice 101).0.used 100 false ≡ true)
    × ¬ IsHeld (reserve one alice 101).0 100
unfolding allocate lookup new find_free list_dec ℕ_discrete
reserve_leaks_example =
    reserve_leaks one alice 100 101 one-IsValid alice_has (λ e. omega arith) (omega arith) refl

abbrev both : List Op
both = do_allocate alice ∷ do_allocate bob ∷ []

abbrev pair : Ipam
pair = run net both

addresses_distinct_example : v4_for pair 100 ≢ v4_for pair 101
unfolding run apply allocate lookup insert new find_free list_dec ℕ_discrete
addresses_distinct_example =
    addresses_distinct (100 ∷ 72 ∷ 15 ∷ 0 ∷ []) (64882 ∷ 5547 ∷ 51457 ∷ []) both alice bob refl refl
      (λ e. cc)
