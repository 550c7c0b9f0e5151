-- ===== src/Transport/Health/Weight.antt =====
-- How the weight of a connection falls with failures, and comes back.
use fluxpeer.Prelude.{
  ℕ, zero, suc, ◌+◌, ◌*◌, ◌^◌, ◌<◌, ◌≤◌, ◌≡◌, ◌∙◌, true, List, [], ◌∷◌, All, min, arith, length,
}
use fluxpeer.Transport.Health.{ConnHealth, recover, degrade, record_rtt, record_failure, is_dead}
use fluxpeer.Transport.Health.Bounds.{ewma_small}

-- `n` failed pings in a row.
unfoldable pub failures : ℕ → ConnHealth → ConnHealth
failures zero h = h
failures (suc n) h = failures n (record_failure h)

-- A dead connection stays dead while pings fail.
failures_dead : (n : ℕ) (h : ConnHealth) → h.weight ≡ 0 → (failures n h).weight ≡ 0
unfolding failures record_failure
failures_dead zero h e = e
failures_dead (suc n) h e = failures_dead n (record_failure h) (ground arith)

-- A connection is dead once as many pings in a row have failed as the threshold says, those before
-- included.
pub failures-is_dead :
    (n : ℕ) (h : ConnHealth)
    → h.config.max_consecutive_failures ≤ h.consecutive_failures + suc n
    → h.consecutive_failures + suc n < 2 ^ 32
    → is_dead (failures (suc n) h) ≡ true
unfolding failures record_failure is_dead
failures-is_dead zero h reached small = ground arith
failures-is_dead (suc n) h reached small =
    failures-is_dead n (record_failure h) (omega arith) (omega arith)

-- Pongs, each with its round trip.
unfoldable pub pongs : List ℕ → ConnHealth → ConnHealth
pongs [] h = h
pongs (rtt_us ∷ rtts) h = pongs rtts (record_rtt h rtt_us)

-- A connection from which good round trips come back wins ten of weight with each, up to a hundred,
-- also when it was dead: where its average and the samples are below the recovery threshold, its
-- loss is below its own, and the threshold of degradation is not below that of recovery.
pub pongs-weight :
    (rtts : List ℕ) (h : ConnHealth)
    → All (λ r. r < h.config.recovery_rtt_us) rtts
    → h.rtt_us < h.config.recovery_rtt_us
    → h.loss_permille < h.config.recovery_loss_permille
    → h.config.recovery_rtt_us ≤ 2 ^ 60
    → h.config.recovery_rtt_us ≤ h.config.degraded_rtt_us
    → h.weight ≤ 100
    → (pongs rtts h).weight ≡ min (h.weight + 10 * length rtts) 100
unfolding pongs record_rtt recover degrade
pongs-weight [] h good below loss small order full = omega arith
pongs-weight (r ∷ rtts) h good below loss small order full =
    let v = ewma_small h.rtt_us r h.config.recovery_rtt_us below good.0 small in
    let w : (record_rtt h r).weight ≡ min (h.weight + 10) 100 = ground arith in
    pongs-weight rtts (record_rtt h r) good.1 v loss small order (omega (arith, w))
    ∙ omega (arith, w)
