-- ===== src/Bulkhead/Health.antt =====
-- The failure rate that the health check computes.
use go_patternx.Bulkhead.{
  is_healthy, leave_queue, Bulkhead, failures, deadline_exceeded, refused, sentinel,
  bulkhead_timeout,
}
use go_patternx.Base.{ℕ, ◌≡◌, some, true, ◌<◌, ◌^◌, ◌*◌, false, word, ◌+◌, arith, ◌-◌, incr, refl}

-- A wait that times out is counted as a timeout and as a rejection, so it enters the failures of
-- the health check twice, while the call was counted once.
pub leave_queue-failures :
    (b : Bulkhead)
    → (b' : Bulkhead) × (leave_queue b deadline_exceeded
        ≡ some (refused b' (sentinel bulkhead_timeout)))
      × (failures b'.metrics ≡ word (failures b.metrics + 2))
      × (b'.total_calls ≡ b.total_calls)
      × (b'.queue ≡ b.queue - 1)
unfolding leave_queue failures
leave_queue-failures b = (
  record b {
    queue = b.queue - 1;
    metrics = record (b.metrics) {
      timeout_calls = incr b.timeout_calls;
      rejected_calls = incr b.rejected_calls;
    };
  },
  ground arith,
  ground arith,
  refl,
  refl,
)

-- A bulkhead with metrics of which k calls, fewer than 2^62, have timed out, and none has
-- failed or been rejected otherwise, is unhealthy as soon as twice their share of all calls
-- exceeds the threshold.
pub is_healthy_timeouts :
    (b : Bulkhead) (k now : ℕ)
    → b.enable_metrics ≡ true
    → b.failed_calls ≡ 0
    → b.rejected_calls ≡ k
    → b.timeout_calls ≡ k
    → k < 2 ^ 62
    → 0 < b.total_calls
    → b.health_threshold * b.total_calls < 2000 * k
    → (is_healthy b now).1 ≡ false
unfolding is_healthy
is_healthy_timeouts b k now m f r t h p q = ground arith
