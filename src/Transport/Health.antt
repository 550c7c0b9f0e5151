-- ===== src/Transport/Health.antt =====
-- engine/transport/fp-transport-tcp-bond/src/health.rs: the metrics of one connection of a bond.
-- The clocks are arguments: `now_us` for `Instant`, in microseconds, and `now_secs` for the Unix
-- time. A sum or a product wraps at the width of its word, as in a release build; each operation is
-- one step.
pub mod Bounds
pub mod Weight
mod Tests
use fluxpeer.Prelude.{
  ℕ, suc, ◌+◌, ◌-◌, ◌*◌, ◌/◌, ◌%◌, ◌^◌, Bool, ◌&&◌, Option, none, some, ltb, leb, ◌==◌,
  if◌then◌else◌, min,
}

-- The thresholds of `TcpBondConfig`.
pub record Config : Type 0 where
  pub max_consecutive_failures : ℕ
  pub degraded_rtt_us : ℕ
  pub recovery_rtt_us : ℕ
  pub degraded_loss_permille : ℕ
  pub recovery_loss_permille : ℕ

pub record ConnHealth : Type 0 where
  pub rtt_us : ℕ
  pub loss_permille : ℕ
  pub active_streams : ℕ
  pub total_bytes : ℕ
  pub weight : ℕ
  pub consecutive_failures : ℕ
  pub last_ping : ℕ
  pub ping_sent_at : Option ℕ
  pub last_activity : ℕ
  pub config : Config

abbrev pub ewma_old : ℕ
ewma_old = 7

abbrev pub ewma_new : ℕ
ewma_new = 3

abbrev pub ewma_div : ℕ
ewma_div = 10

unfoldable pub new : Config → ℕ → ℕ → ConnHealth
new config now_us now_secs = record {
  rtt_us = 0;
  loss_permille = 0;
  active_streams = 0;
  total_bytes = 0;
  weight = 100;
  consecutive_failures = 0;
  last_ping = now_us;
  ping_sent_at = none;
  last_activity = now_secs;
  config = config;
}

-- `saturating_mul` and `saturating_add` of a `u64`.
abbrev pub sat : ℕ → ℕ
sat n = min n (2 ^ 64 - 1)

unfoldable pub score : ConnHealth → ℕ
score h =
    if h.weight == 0
    then 2 ^ 64 - 1
    else sat
        (sat (sat (h.rtt_us / 1000 * 2) + sat (h.loss_permille * 10)) + sat (h.active_streams * 5))

-- The moving average, which a first sample starts.
unfoldable pub ewma : ℕ → ℕ → ℕ
ewma old sample =
    if old == 0
    then sample
    else (old * ewma_old % 2 ^ 64 + sample * ewma_new % 2 ^ 64) % 2 ^ 64 / ewma_div

-- The recovery and the degradation by a round trip `v`.
unfoldable pub recover : ConnHealth → ℕ → ℕ → ℕ
recover h v w =
    if ltb v h.config.recovery_rtt_us && ltb h.loss_permille h.config.recovery_loss_permille
    then (if ltb w 100 then min (w + 10) 100 else w)
    else w

unfoldable pub degrade : ConnHealth → ℕ → ℕ → ℕ
degrade h v w = if ltb h.config.degraded_rtt_us v then w - 20 else w

unfoldable pub record_rtt : ConnHealth → ℕ → ConnHealth
record_rtt h rtt_us =
    let v = ewma h.rtt_us rtt_us in
    record h { rtt_us = v; consecutive_failures = 0; weight = degrade h v (recover h v h.weight) }

unfoldable pub record_failure : ConnHealth → ConnHealth
record_failure h =
    let f = (h.consecutive_failures + 1) % 2 ^ 32 in
    record h {
      consecutive_failures = f;
      weight = if leb h.config.max_consecutive_failures f then 0 else h.weight;
    }

-- `lost as u64 * 1000` fits a word; `as u32` keeps the low 32 bits.
unfoldable pub record_loss : ConnHealth → ℕ → ℕ → ConnHealth
record_loss h lost total =
    let v = ewma h.loss_permille (lost * 1000 / total % 2 ^ 32) % 2 ^ 32 in
    if total == 0 then h else record h {
      loss_permille = v;
      weight = if ltb h.config.degraded_loss_permille v then h.weight - 20 else h.weight;
    }

unfoldable pub mark_ping_sent : ConnHealth → ℕ → ConnHealth
mark_ping_sent h now_us = record h { ping_sent_at = some now_us }

-- `elapsed().as_micros() as u64`; the clock is read again for `last_ping`.
unfoldable pub process_pong : ConnHealth → ℕ → ℕ → ConnHealth
process_pong h now_us then_us = elim h.ping_sent_at [
  | none ↦ h
  | some t ↦ record (record_rtt h ((now_us - t) % 2 ^ 64)) {
    ping_sent_at = none;
    last_ping = then_us;
  }
]

-- `fetch_add` and `fetch_sub` wrap.
unfoldable pub increment_streams : ConnHealth → ConnHealth
increment_streams h = record h { active_streams = (h.active_streams + 1) % 2 ^ 32 }

unfoldable pub decrement_streams : ConnHealth → ConnHealth
decrement_streams h = record h { active_streams = (h.active_streams + 2 ^ 32 - 1) % 2 ^ 32 }

unfoldable pub add_bytes : ConnHealth → ℕ → ConnHealth
add_bytes h n = record h { total_bytes = (h.total_bytes + n) % 2 ^ 64 }

unfoldable pub is_dead : ConnHealth → Bool
is_dead h = h.weight == 0

unfoldable pub rtt_ms : ConnHealth → ℕ
rtt_ms h = h.rtt_us / 1000

unfoldable pub reset_weight : ConnHealth → ConnHealth
reset_weight h = record h { weight = 100; consecutive_failures = 0 }

unfoldable pub touch_activity : ConnHealth → ℕ → ConnHealth
touch_activity h now_secs = record h { last_activity = now_secs }

unfoldable pub is_stale : ConnHealth → ℕ → ℕ → Bool
is_stale h timeout_secs now_secs = ltb timeout_secs (now_secs - h.last_activity) && h.weight == 0
