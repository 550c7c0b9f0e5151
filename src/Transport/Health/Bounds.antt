-- ===== src/Transport/Health/Bounds.antt =====
-- What the metrics are bounded by, whatever is measured.
use fluxpeer.Prelude.{
  ℕ, ◌+◌, ◌*◌, ◌/◌, ◌%◌, ◌^◌, ◌<◌, ◌≤◌, ◌≡◌, ◌≢◌, inl, inr, true, false, ◌==◌, min, max, arith,
  Bool-cases,
}
use native.Mathlib.Nat.{div-le_of_le-mul}
use fluxpeer.Transport.Health.{
  Config, ConnHealth, new, score, ewma, recover, degrade, record_rtt, record_failure, record_loss,
  is_dead,
}

-- An average that does not overflow lies between the old value and the sample.
pub ewma-between :
    (old sample : ℕ)
    → old < 2 ^ 60
    → sample < 2 ^ 60
    → old ≢ 0
    → (min old sample ≤ ewma old sample) × (ewma old sample ≤ max old sample)
unfolding ewma
ewma-between old sample ho hs ne = ground arith

-- The bounds: the round trip fits, the loss is a share of a thousand, the weight is a percentage.
pub record IsHealth (h : ConnHealth) : Type 0 where
  pub rtt_bound : h.rtt_us < 2 ^ 60
  pub loss_bound : h.loss_permille ≤ 1000
  pub weight_bound : h.weight ≤ 100
  pub streams_bound : h.active_streams < 2 ^ 32

pub new-IsHealth : (config : Config) (now_us now_secs : ℕ) → IsHealth (new config now_us now_secs)
unfolding new
new-IsHealth config now_us now_secs = record {
  rtt_bound = omega arith;
  loss_bound = omega arith;
  weight_bound = omega arith;
  streams_bound = omega arith;
}

pub ewma_small : (old sample b : ℕ) → old < b → sample < b → b ≤ 2 ^ 60 → ewma old sample < b
unfolding ewma
ewma_small old sample b ho hs hb = ground arith

pub record_rtt-IsHealth :
    (h : ConnHealth) (rtt_us : ℕ) → rtt_us < 2 ^ 60 → IsHealth h → IsHealth (record_rtt h rtt_us)
unfolding record_rtt recover degrade
record_rtt-IsHealth h rtt_us small i = record {
  rtt_bound = ewma_small h.rtt_us rtt_us (2 ^ 60) i.rtt_bound small (omega arith);
  loss_bound = i.loss_bound;
  weight_bound = ground (arith, i.weight_bound);
  streams_bound = i.streams_bound;
}

-- A share of a thousand.
permille-le : (lost total : ℕ) → lost ≤ total → 0 < total → lost * 1000 / total ≤ 1000
permille-le lost total h p = div-le_of_le-mul total (omega arith)

pub record_loss-IsHealth :
    (h : ConnHealth) (lost total : ℕ)
    → lost ≤ total
    → IsHealth h
    → IsHealth (record_loss h lost total)
unfolding record_loss
record_loss-IsHealth h lost total few i = elim (Bool-cases (total == 0)) [
  | inl none_sent ↦ rw none_sent i
  | inr sent ↦
      let share = permille-le lost total few (ground arith) in
      let small =
        ewma_small h.loss_permille (lost * 1000 / total % 2 ^ 32) 1001 (omega (arith, i.loss_bound))
          (omega arith) (omega arith) in
      rw sent (record {
        rtt_bound = i.rtt_bound;
        loss_bound = omega arith;
        weight_bound = ground (arith, i.weight_bound);
        streams_bound = i.streams_bound;
      })
]

pub record_failure-IsHealth : (h : ConnHealth) → IsHealth h → IsHealth (record_failure h)
unfolding record_failure
record_failure-IsHealth h i = record {
  rtt_bound = i.rtt_bound;
  loss_bound = i.loss_bound;
  weight_bound = ground (arith, i.weight_bound);
  streams_bound = i.streams_bound;
}

-- A connection that is not dead is always preferred to a dead one: its score is lower.
pub score-lt :
    (g h : ConnHealth) → IsHealth g → is_dead g ≡ false → is_dead h ≡ true → score g < score h
unfolding score is_dead
score-lt g h i alive dead =
    let bound : g.rtt_us / 1000 * 2 + g.loss_permille * 10 + g.active_streams * 5 < 2 ^ 63 =
      omega (arith, i.rtt_bound, i.loss_bound, i.streams_bound) in
    rw (alive, dead) (omega arith)
