-- ===== src/Bulkhead/Config.antt =====
-- bulkhead.go: `BulkheadConfig`, its presets, its validation and `NewBulkhead`. The threshold, a
-- fraction in the source, is taken in thousandths.
use go_patternx.Errors.{Result, ok, err, invalid_config, Result-cases, ◌>>◌, fail_if, map_err}
use go_patternx.Base.{
  if◌then◌else◌, pos, ℕ, ℤ, ◌≡◌, ◌*◌, Bool, arith, leb_ℤ, ◌≤ℤ◌, millisecond, pos_part, second,
  false, true, ◌⊎◌, inl, inr, ltb_ℤ, ◌||◌, ap,
}
use go_patternx.Bulkhead.{Bulkhead, GoError, wrap, text}
use go_patternx.Bulkhead.Invariant.{Inv}

pub record BulkheadConfig : Type 0 where
  pub max_concurrent_calls : ℤ
  pub max_wait_duration : ℤ
  pub max_queue_size : ℤ
  pub health_threshold : ℤ
  pub enable_metrics : Bool

abbrev pub default_config : BulkheadConfig
default_config = record {
  max_concurrent_calls = pos 10;
  max_wait_duration = pos (5 * second);
  max_queue_size = pos 100;
  health_threshold = pos 500;
  enable_metrics = true;
}

abbrev pub high_performance_config : BulkheadConfig
high_performance_config = record {
  max_concurrent_calls = pos 50;
  max_wait_duration = pos (10 * second);
  max_queue_size = pos 500;
  health_threshold = pos 500;
  enable_metrics = true;
}

abbrev pub resource_constrained_config : BulkheadConfig
resource_constrained_config = record {
  max_concurrent_calls = pos 5;
  max_wait_duration = pos (2 * second);
  max_queue_size = pos 50;
  health_threshold = pos 500;
  enable_metrics = true;
}

abbrev pub enterprise_config : BulkheadConfig
enterprise_config = record {
  max_concurrent_calls = pos 100;
  max_wait_duration = pos (30 * second);
  max_queue_size = pos 1000;
  health_threshold = pos 300;
  enable_metrics = true;
}

unfoldable pub validate_config : BulkheadConfig → Result (Unit {0})
validate_config c = do
  fail_if (ltb_ℤ c.max_concurrent_calls (pos 1) || ltb_ℤ (pos 10000) c.max_concurrent_calls)
      (text "max concurrent calls")
  fail_if (ltb_ℤ c.max_queue_size (pos 1) || ltb_ℤ (pos 100000) c.max_queue_size)
      (text "max queue size")
  fail_if
      (ltb_ℤ c.max_wait_duration (pos millisecond) || ltb_ℤ (pos (60 * second)) c.max_wait_duration)
      (text "max wait duration")
  fail_if (ltb_ℤ c.health_threshold (pos 100) || ltb_ℤ (pos 1000) c.health_threshold)
      (text "health threshold")

unfoldable pub apply_defaults : BulkheadConfig → BulkheadConfig
apply_defaults c = record c {
  max_concurrent_calls =
      if leb_ℤ c.max_concurrent_calls (pos 0) then pos 10 else c.max_concurrent_calls;
  max_wait_duration =
      if leb_ℤ c.max_wait_duration (pos 0) then pos (5 * second) else c.max_wait_duration;
  max_queue_size = if leb_ℤ c.max_queue_size (pos 0) then pos 100 else c.max_queue_size;
  health_threshold = if leb_ℤ c.health_threshold (pos 0) then pos 500 else c.health_threshold;
}

-- The zero time is 0.
abbrev pub start : BulkheadConfig → ℕ → Bulkhead
start c now = record {
  max_concurrent_calls = pos_part c.max_concurrent_calls;
  max_wait_duration = pos_part c.max_wait_duration;
  max_queue_size = pos_part c.max_queue_size;
  health_threshold = pos_part c.health_threshold;
  enable_metrics = c.enable_metrics;
  semaphore = 0;
  queue = 0;
  closed = 0;
  channels_closed = false;
  metrics = record {
    total_calls = 0;
    successful_calls = 0;
    failed_calls = 0;
    rejected_calls = 0;
    timeout_calls = 0;
    current_concurrent_calls = 0;
    average_execution_time = 0;
    last_execution_time = 0;
    health_status = c.enable_metrics;
    last_health_check = if c.enable_metrics then now else 0;
  };
}

unfoldable pub new_bulkhead : BulkheadConfig → ℕ → Result Bulkhead
unfolding validate_config apply_defaults
new_bulkhead c now = do
  map_err (wrap invalid_config) (validate_config c)
  ok (start (apply_defaults c) now)

pub record InRange (c : BulkheadConfig) : Type 0 where
  pub calls_min : pos 1 ≤ℤ c.max_concurrent_calls
  pub calls_max : c.max_concurrent_calls ≤ℤ pos 10000
  pub queue_min : pos 1 ≤ℤ c.max_queue_size
  pub queue_max : c.max_queue_size ≤ℤ pos 100000
  pub wait_min : pos millisecond ≤ℤ c.max_wait_duration
  pub wait_max : c.max_wait_duration ≤ℤ pos (60 * second)
  pub threshold_min : pos 100 ≤ℤ c.health_threshold
  pub threshold_max : c.health_threshold ≤ℤ pos 1000

validate-InRange : (c : BulkheadConfig) → validate_config c ≡ ok tt → InRange c
unfolding validate_config
validate-InRange c h = ground arith

InRange-validate : (c : BulkheadConfig) → InRange c → validate_config c ≡ ok tt
unfolding validate_config
InRange-validate c h = ground arith

InRange-defaults : (c : BulkheadConfig) → InRange c → apply_defaults c ≡ c
unfolding apply_defaults
InRange-defaults c h = ground arith

-- What `NewBulkhead` makes of a configuration: with every limit in its range, an empty bulkhead
-- with these limits, in which no call waits or runs and every counter is accounted for; with any
-- other, ErrInvalidConfig.
pub new_bulkhead-InRange :
    (c : BulkheadConfig) (now : ℕ)
    → (InRange c
        × (new_bulkhead c now ≡ ok (start c now))
        × Inv (record {
          bulkhead = start c now;
          waiting = 0;
          moving = 0;
          counting = 0;
          running = 0;
          crashed = 0;
        }))
      ⊎ ((¬ InRange c) × ((e : GoError) × (new_bulkhead c now ≡ err (wrap invalid_config e))))
unfolding new_bulkhead
new_bulkhead-InRange c now = elim (Result-cases (validate_config c)) [
  | inl (_, e) ↦ inl (
    validate-InRange c e,
    rw (e, new_bulkhead) (ap (λ d. ok (start d now)) (InRange-defaults c (validate-InRange c e))),
    ground arith,
  )
  | inr (x, e) ↦ inr ((λ r. cc (InRange-validate c r)), (x, rw (e, new_bulkhead)))
]
