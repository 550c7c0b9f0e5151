-- ===== src/Node/Apply/Retries.antt =====
-- When an effect is tried again, and that an error of one effect is an error of all.
use Prim.Native.Nat.{Ordering}
use fluxpeer.Prelude.{
  ℕ, ◌+◌, ◌*◌, ◌<◌, ◌≤◌, ◌≡◌, ◌≢◌, ◌↔◌, inl, inr, refl, ap, sym, true, false, List, [], ◌∷◌, some,
  ltb, ◌==◌, Result, ok, err, All, arith, Bool-cases, Option-cases,
}
use mathlib.Core.Path.{subst}
use fluxpeer.Node.Apply.{
  ApplyError, cmp_error, sort_insert, sort, errors_of, dedup_after, with_others, all, Retry,
  renewed, waits, tried, run, nanos_per_sec,
}

sort_insert-cons :
    (e : ApplyError) (es : List ApplyError)
    → (f : ApplyError) × (fs : List ApplyError) × (sort_insert e es ≡ f ∷ fs)
unfolding sort_insert
sort_insert-cons e [] = (e, [], refl)
sort_insert-cons e (f ∷ fs) = go (cmp_error e f)
  where
    go :
        (o : Ordering)
        → (g : ApplyError) × (gs : List ApplyError) × (elim o as (λ _. List ApplyError) [
          | Ordering.gt ↦ f ∷ sort_insert e fs
          | _ ↦ e ∷ f ∷ fs
        ]
            ≡ g ∷ gs)
    go Ordering.lt = (e, f ∷ fs, refl)
    go Ordering.eq = (e, f ∷ fs, refl)
    go Ordering.gt = (f, sort_insert e fs, refl)

errors_of_lem :
    (rs : List (Result (Unit {0}) ApplyError)) → (errors_of rs ≡ []) ↔ All (λ r. r ≡ ok tt) rs
unfolding errors_of
errors_of_lem [] = (λ _. tt, λ _. refl)
errors_of_lem (ok tt ∷ rs) = (λ h. (refl, (errors_of_lem rs).0 h), λ h. (errors_of_lem rs).1 h.1)
errors_of_lem (err e ∷ rs) = (λ h. cc, λ h. cc (h.0))

sort_nil : (es : List ApplyError) → sort es ≡ [] → es ≡ []
unfolding sort
sort_nil [] h = refl
sort_nil (e ∷ es) h = let (f, fs, made) = sort_insert-cons e (sort es) in cc (made, h)

-- The effects are all right together exactly where each is.
pub all_lem :
    (rs : List (Result (Unit {0}) ApplyError)) → (all rs ≡ ok tt) ↔ All (λ r. r ≡ ok tt) rs
unfolding all sort
all_lem rs = (
  λ h. (errors_of_lem rs).0 (sort_nil (errors_of rs) (none_ (sort (errors_of rs)) h)),
  λ h. rw ((errors_of_lem rs).1 h, all) refl,
)
  where
    none_ :
        (es : List ApplyError)
        → elim es as (λ _. Result (Unit {0}) ApplyError) [
          | [] ↦ ok tt
          | (e ∷ fs) ↦ err (with_others e (dedup_after e fs))
        ]
          ≡ ok tt
        → es ≡ []
    none_ [] h = refl
    none_ (e ∷ es) h = cc

renewed-same : (q : Retry) (epoch : ℕ) → q.epoch ≡ some epoch → renewed q epoch ≡ q
unfolding renewed
renewed-same q epoch e =
    let same : (epoch == epoch) ≡ true = ground arith in simp (e, renewed, same) refl

renewed_lem :
    (r : Retry) (epoch : ℕ)
    → r.delay ≤ 60
    → ((renewed r epoch).epoch ≡ some epoch) × ((renewed r epoch).delay ≤ 60)
unfolding renewed
renewed_lem r epoch small = elim (Option-cases r.epoch) [
  | inl none_ ↦ simp (none_, renewed) (refl, omega arith)
  | inr (e, at) ↦ elim (Bool-cases (e == epoch)) [
    | inl same ↦ simp (at, renewed, same) (ap some (ground arith), small)
    | inr differ ↦ simp (at, renewed, differ) (refl, omega arith)
  ]
]

-- A retry at the same epoch whose next try is at `due`.
run_waiting :
    (q : Retry) (epoch due later : ℕ) (error : ApplyError) (effect : Result (Unit {0}) ApplyError)
    → q.epoch ≡ some epoch
    → q.next ≡ some due
    → q.error ≡ some error
    → (later < due → run q epoch later effect ≡ (q, err error, false))
      × (due ≤ later → (run q epoch later effect).2 ≡ true)
unfolding run waits
run_waiting q epoch due later error effect e n x =
    let same = renewed-same q epoch e in
    (
      λ early. let b : ltb later due ≡ true = ground arith in simp (same, run, n, waits, b, x) refl,
      λ late. let b : ltb later due ≡ false = ground arith in simp (same, run, n, waits, b) refl,
    )

run_other :
    (q : Retry) (epoch other later : ℕ) (effect : Result (Unit {0}) ApplyError)
    → q.epoch ≡ some epoch
    → other ≢ epoch
    → (run q other later effect).2 ≡ true
unfolding run waits renewed
run_other q epoch other later effect e differ =
    let b : (epoch == other) ≡ false = ground arith in simp (e, renewed, b, run, waits) refl

run-tried :
    (r : Retry) (epoch now : ℕ) (effect : Result (Unit {0}) ApplyError)
    → (run r epoch now effect).2 ≡ true
    → (run r epoch now effect).0 ≡ tried (renewed r epoch) now effect
unfolding run
run-tried r epoch now effect ran = elim (Option-cases (waits (renewed r epoch) now)) [
  | inl none_ ↦ simp (none_, run) refl
  | inr (e, waiting) ↦ cc (simp (waiting, run) at ran)
]

-- After a failure the effect is not run again at this epoch before its delay is over, and the error
-- stays what is answered; once the delay is over, or at another epoch, it is run. The delay is at
-- least two seconds and at most sixty.
pub run_again :
    (r : Retry) (epoch now later other : ℕ) (error : ApplyError)
    (effect : Result (Unit {0}) ApplyError)
    → r.delay ≤ 60
    → (run r epoch now (err error)).2 ≡ true
    → let r' = (run r epoch now (err error)).0 in
      (2 ≤ r'.delay)
      × (r'.delay ≤ 60)
      × (later < now + r'.delay * nanos_per_sec
          → run r' epoch later effect ≡ (r', err error, false))
      × (now + r'.delay * nanos_per_sec ≤ later → (run r' epoch later effect).2 ≡ true)
      × (other ≢ epoch → (run r' other later effect).2 ≡ true)
unfolding tried
run_again r epoch now later other error effect small ran =
    let q = renewed r epoch in
    let (at, bound) = renewed_lem r epoch small in
    let next = tried q now (err error) in
    let again =
      run_waiting next epoch (now + next.delay * nanos_per_sec) later error effect at refl refl in
    subst
      (λ r'.
        (2 ≤ r'.delay)
        × (r'.delay ≤ 60)
        × (later < now + r'.delay * nanos_per_sec
            → run r' epoch later effect ≡ (r', err error, false))
        × (now + r'.delay * nanos_per_sec ≤ later → (run r' epoch later effect).2 ≡ true)
        × (other ≢ epoch → (run r' other later effect).2 ≡ true))
      (sym (run-tried r epoch now (err error) ran))
      (
        ground (arith, bound),
        ground (arith, bound),
        again.0,
        again.1,
        run_other next epoch other later effect at,
      )
