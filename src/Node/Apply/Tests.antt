-- ===== src/Node/Apply/Tests.antt =====
-- An effect that fails at once.
use fluxpeer.Prelude.{
  ℕ, ◌+◌, ◌*◌, ◌<◌, ◌≤◌, ◌≡◌, ◌≢◌, refl, true, false, [], ◌∷◌, none, ok, err, arith,
}
use fluxpeer.Prelude.Text.{codes}
use fluxpeer.Node.Apply.{
  ApplyError, permission_denied, no_retry, renewed, waits, run, nanos_per_sec,
}
use fluxpeer.Node.Apply.Retries.{run_again}

abbrev denied : ApplyError
denied = record {
  command = codes "ip" ∷ codes "route" ∷ [];
  exit_code = none;
  stderr = codes "denied";
  kind = permission_denied;
}

run_again_example :
    let r' = (run no_retry 4 100 (err denied)).0 in
    (2 ≤ r'.delay)
    × (r'.delay ≤ 60)
    × (101 < 100 + r'.delay * nanos_per_sec → run r' 4 101 (ok tt) ≡ (r', err denied, false))
    × (100 + r'.delay * nanos_per_sec ≤ 101 → (run r' 4 101 (ok tt)).2 ≡ true)
    × (◌≢◌ {A = ℕ} 5 4 → (run r' 5 101 (ok tt)).2 ≡ true)
unfolding run renewed waits
run_again_example = run_again no_retry 4 100 101 5 denied (ok tt) (omega arith) refl
