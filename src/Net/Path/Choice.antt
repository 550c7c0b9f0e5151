-- ===== src/Net/Path/Choice.antt =====
-- The path in use is the best one that is alive.
use fluxpeer.Prelude.{
  ℕ, zero, suc, ◌+◌, ◌<◌, ◌≤◌, ◌≡◌, ◌≢◌, ◌⊎◌, inl, inr, refl, sym, ap, ◌∙◌, true, false, ◌||◌,
  Option, none, some, arith, ltb, if◌then◌else◌, length, length-set, Bool-cases, ℕ_discrete, dec_lt,
  ◌==◌, get_or-set_self, get_or-set_ne,
}
use fluxpeer.Net.Path.{
  PathKind, udp_direct, tcp_direct, udp_relay, tcp_relay, tcp443_relay, rank, ladder, is_direct,
  PathState, untested, alive, failed, is_alive, is_untested, PathSet, new, state, mark_alive,
  mark_failed, find_alive, best, should_keep_probing,
}

-- The array has its five entries.
unfoldable pub IsPathSet : PathSet → Type 0
IsPathSet p = length p.states ≡ 5

pub new-IsPathSet : IsPathSet new
unfolding IsPathSet new
new-IsPathSet = refl

pub mark_alive-IsPathSet : (p : PathSet) (k : PathKind) → IsPathSet p → IsPathSet (mark_alive p k)
unfolding IsPathSet mark_alive
mark_alive-IsPathSet p k h = length-set p.states (rank k) alive ∙ h

pub mark_failed-IsPathSet : (p : PathSet) (k : PathKind) → IsPathSet p → IsPathSet (mark_failed p k)
unfolding IsPathSet mark_failed
mark_failed-IsPathSet p k h = length-set p.states (rank k) failed ∙ h

-- What the ladder's search answers, by the state of each kind.
pub record IsBest (p : PathSet) (k : PathKind) : Type 0 where
  pub usable : state p k ≡ alive
  pub preferred : (j : PathKind) → rank j < rank k → state p j ≢ alive

is_alive-eq : (s : PathState) → is_alive s ≡ true → s ≡ alive
unfolding is_alive
is_alive-eq untested h = cc
is_alive-eq alive h = refl
is_alive-eq failed h = cc

is_alive-ne : (s : PathState) → is_alive s ≡ false → s ≢ alive
unfolding is_alive
is_alive-ne s h e = cc (ap is_alive e)

-- The kind at a rank, so that a rank determines its kind.
at_rank : ℕ → PathKind
at_rank zero = udp_direct
at_rank (suc zero) = tcp_direct
at_rank (suc (suc zero)) = udp_relay
at_rank (suc (suc (suc zero))) = tcp_relay
at_rank _ = tcp443_relay

at_rank-rank : (k : PathKind) → at_rank (rank k) ≡ k
unfolding at_rank rank
at_rank-rank udp_direct = refl
at_rank-rank tcp_direct = refl
at_rank-rank udp_relay = refl
at_rank-rank tcp_relay = refl
at_rank-rank tcp443_relay = refl

rank-injective : (j k : PathKind) → rank j ≡ rank k → j ≡ k
rank-injective j k e = sym (at_rank-rank j) ∙ ap at_rank e ∙ at_rank-rank k

rank-lt : (k : PathKind) → rank k < 5
unfolding rank
rank-lt udp_direct = omega arith
rank-lt tcp_direct = omega arith
rank-lt udp_relay = omega arith
rank-lt tcp_relay = omega arith
rank-lt tcp443_relay = omega arith

-- Nothing that is preferred to rank `n` is alive.
abbrev NoneBelow : PathSet → ℕ → Type 0
NoneBelow p n = (j : PathKind) → rank j < n → state p j ≢ alive

NoneBelow-next :
    (p : PathSet) (k : PathKind)
    → NoneBelow p (rank k)
    → is_alive (state p k) ≡ false
    → NoneBelow p (rank k + 1)
NoneBelow-next p k t h j q = elim (ℕ_discrete (rank j) (rank k)) [
  | yes same ↦ rw (rank-injective j k same) (is_alive-ne (state p k) h)
  | no other ↦ t j (omega arith)
]

-- What the search may answer.
abbrev Answer : PathSet → Option PathKind → Type 0
Answer p r =
    ((k : PathKind) × (r ≡ some k) × IsBest p k)
    ⊎ ((r ≡ none) × ((k : PathKind) → state p k ≢ alive))

search_step :
    (p : PathSet) (k : PathKind) (rest : Option PathKind)
    → NoneBelow p (rank k)
    → (NoneBelow p (rank k + 1) → Answer p rest)
    → Answer p (if is_alive (state p k) then some k else rest)
search_step p k rest t next = elim (Bool-cases (is_alive (state p k))) [
  | inl e ↦ rw e (inl (k, refl, record { usable = is_alive-eq (state p k) e; preferred = t }))
  | inr e ↦ rw e (next (NoneBelow-next p k t e))
]

-- `best` answers a path that is alive with no more preferred path alive, or nothing, and then no
-- path is alive.
pub best_cases :
    (p : PathSet)
    → ((k : PathKind) × (best p ≡ some k) × IsBest p k)
      ⊎ ((best p ≡ none) × ((k : PathKind) → state p k ≢ alive))
unfolding best find_alive ladder rank
best_cases p =
    search_step p udp_direct _ (λ j q. absurd (omega arith))
      (λ t. search_step p tcp_direct _ t (λ t. search_step p udp_relay _ t (λ t.
        search_step p tcp_relay _ t
          (λ t. search_step p tcp443_relay _ t (λ t. inr (refl, λ k. t k (rank-lt k)))))))

-- Only one path can be the best.
pub best_unique : (p : PathSet) (k : PathKind) → IsBest p k → best p ≡ some k
best_unique p k b = elim (best_cases p) [
  | inl (j, e, c) ↦ elim (dec_lt (rank j) (rank k)) [
    | yes q ↦ absurd (b.preferred j q c.usable)
    | no q ↦ elim (dec_lt (rank k) (rank j)) [
      | yes r ↦ absurd (c.preferred k r b.usable)
      | no r ↦ e ∙ ap some (rank-injective j k (omega arith))
    ]
  ]
  | inr (_, dead) ↦ absurd (dead k b.usable)
]

-- The state of each path, after one is marked.
state-mark_alive :
    (p : PathSet) (k j : PathKind)
    → IsPathSet p
    → state (mark_alive p k) j ≡ (if rank k == rank j then alive else state p j)
unfolding state mark_alive IsPathSet
state-mark_alive p k j h = elim (ℕ_discrete (rank k) (rank j)) [
  | yes e ↦ ground (arith, rank-lt k, get_or-set_self p.states (rank k) alive untested)
  | no e ↦ ground (arith, get_or-set_ne p.states (rank k) (rank j) alive untested)
]

state-mark_failed :
    (p : PathSet) (k j : PathKind)
    → IsPathSet p
    → state (mark_failed p k) j ≡ (if rank k == rank j then failed else state p j)
unfolding state mark_failed IsPathSet
state-mark_failed p k j h = elim (ℕ_discrete (rank k) (rank j)) [
  | yes e ↦ ground (arith, rank-lt k, get_or-set_self p.states (rank k) failed untested)
  | no e ↦ ground (arith, get_or-set_ne p.states (rank k) (rank j) failed untested)
]

-- A path that comes alive is used, unless the one in use is preferred to it, which then stays.
pub best-mark_alive :
    (p : PathSet) (k : PathKind)
    → IsPathSet p
    → best (mark_alive p k)
      ≡ some (elim (best p) [ none ↦ k | some j ↦ if ltb (rank j) (rank k) then j else k ])
best-mark_alive p k h = elim (best_cases p) [
  | inr (e, dead) ↦ rw e (
      best_unique (mark_alive p k) k (record {
        usable = ground (arith, state-mark_alive p k k h);
        preferred = λ j q. ground (arith, state-mark_alive p k j h, dead j);
      }))
  | inl (i, e, b) ↦ elim (Bool-cases (ltb (rank i) (rank k))) [
    | inl stays ↦
        rw (e, stays)
          (best_unique (mark_alive p k) i (record {
            usable = ground (arith, state-mark_alive p k i h, b.usable);
            preferred = λ j q. ground (arith, state-mark_alive p k j h, b.preferred j);
          }))
    | inr moves ↦
        rw (e, moves)
          (best_unique (mark_alive p k) k (record {
            usable = ground (arith, state-mark_alive p k k h);
            preferred = λ j q. ground (arith, state-mark_alive p k j h, b.preferred j);
          }))
  ]
]

pub best_inv : (p : PathSet) {k : PathKind} → best p ≡ some k → IsBest p k
best_inv p {k} e = elim (best_cases p) [
  | inl (j, f, b) ↦ let same : j ≡ k = cc in rw (← same) b
  | inr (f, _) ↦ cc
]

-- A path that fails is not used after, and a path in use stays when another one fails.
pub best-mark_failed :
    (p : PathSet) (k : PathKind)
    → IsPathSet p
    → (best (mark_failed p k) ≢ some k)
      × ((j : PathKind) → j ≢ k → best p ≡ some j → best (mark_failed p k) ≡ some j)
best-mark_failed p k h = (
  λ e. ground (arith, state-mark_failed p k k h, IsBest.usable (best_inv (mark_failed p k) e)),
  λ j ne e.
      let b = best_inv p e in
      best_unique (mark_failed p k) j (record {
        usable = ground (arith, state-mark_failed p k j h, b.usable, rank-injective k j);
        preferred = λ i q. ground (arith, state-mark_failed p k i h, b.preferred i);
      }),
)

tested_failed : (s : PathState) → s ≢ alive → is_untested s ≡ false → s ≡ failed
unfolding is_untested
tested_failed untested ne h = cc
tested_failed alive ne h = absurd (ne refl)
tested_failed failed ne h = refl

relay_rank : (k : PathKind) → is_direct k ≡ false → 2 ≤ rank k
unfolding is_direct rank
relay_rank udp_direct h = cc
relay_rank tcp_direct h = cc
relay_rank udp_relay h = omega arith
relay_rank tcp_relay h = omega arith
relay_rank tcp443_relay h = omega arith

-- When probing stops, a path is in use, and it is direct, or both direct paths have failed.
pub should_keep_probing_stops :
    (p : PathSet)
    → should_keep_probing p ≡ false
    → (k : PathKind) × IsBest p k
      × ((is_direct k ≡ true) ⊎ ((state p udp_direct ≡ failed) × (state p tcp_direct ≡ failed)))
unfolding should_keep_probing rank
should_keep_probing_stops p h = elim (best_cases p) [
  | inr (e, _) ↦ cc (rw (e, should_keep_probing) at h)
  | inl (k, e, b) ↦ elim (Bool-cases (is_direct k)) [
    | inl direct ↦ (k, b, inl direct)
    | inr relay ↦
        let tested : (is_untested (state p udp_direct) || is_untested (state p tcp_direct))
            ≡ false =
          rw (e, relay, should_keep_probing) at h in
        let far = relay_rank k relay in
        (
          k,
          b,
          inr (
            tested_failed _ (b.preferred udp_direct (omega arith)) (ground arith),
            tested_failed _ (b.preferred tcp_direct (omega arith)) (ground arith),
          ),
        )
  ]
]
