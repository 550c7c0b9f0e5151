-- ===== src/Transport/Health/Tests.antt =====
-- The metrics of a connection under the default configuration.
use fluxpeer.Prelude.{ℕ, ◌≡◌, true, List, [], ◌∷◌, arith}
use fluxpeer.Transport.Health.{Config, ConnHealth, new, is_dead}
use fluxpeer.Transport.Health.Bounds.{IsHealth, new-IsHealth}
use fluxpeer.Transport.Health.Weight.{failures, failures-is_dead}

abbrev config : Config
config = record {
  max_consecutive_failures = 3;
  degraded_rtt_us = 5000000;
  recovery_rtt_us = 2000000;
  degraded_loss_permille = 100;
  recovery_loss_permille = 30;
}

abbrev conn : ConnHealth
conn = new config 0 0

conn-IsHealth : IsHealth conn
conn-IsHealth = new-IsHealth config 0 0

abbrev dead : ConnHealth
dead = failures 3 conn

dead-is_dead : is_dead dead ≡ true
unfolding new
dead-is_dead = failures-is_dead 2 conn (omega arith) (omega arith)

abbrev rtts : List ℕ
rtts = 40000 ∷ 50000 ∷ 45000 ∷ []
