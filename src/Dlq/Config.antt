-- ===== src/Dlq/Config.antt =====
-- deadletter.go: `ConfigDLQ`, its presets, its validation and defaults, and the constructor.
use go_patternx.Dlq.{DeadLetterQueue, Metrics, Result, err, ok, text, fail_if, receiving, wrap}
use go_patternx.Base.{
  Option, pos, ℤ, ◌*◌, Bool, if◌then◌else◌, minute, none, pos_part, some, ◌≤◌, [], leb_ℤ, ltb_ℤ,
  true, ◌≡◌, ◌≢◌, false, replicate, ◌||◌, length, millisecond, hour, arith, length-replicate,
}
use go_patternx.Errors.{◌>>=◌, map_err, ◌>>◌, invalid_config}

pub record ConfigDlq : Type 0 where
  pub max_retries : ℤ
  pub retry_delay : ℤ
  pub worker_count : ℤ
  pub queue_size : ℤ
  pub enable_metrics : Bool

abbrev pub default_config : ConfigDlq
default_config = record {
  max_retries = pos 3;
  retry_delay = pos (5 * minute);
  worker_count = pos 2;
  queue_size = pos 1000;
  enable_metrics = true;
}

abbrev pub high_performance_config : ConfigDlq
high_performance_config = record {
  max_retries = pos 10;
  retry_delay = pos minute;
  worker_count = pos 10;
  queue_size = pos 10000;
  enable_metrics = true;
}

abbrev pub conservative_config : ConfigDlq
conservative_config = record {
  max_retries = pos 5;
  retry_delay = pos (10 * minute);
  worker_count = pos 2;
  queue_size = pos 1000;
  enable_metrics = true;
}

abbrev pub enterprise_config : ConfigDlq
enterprise_config = record {
  max_retries = pos 20;
  retry_delay = pos (2 * minute);
  worker_count = pos 20;
  queue_size = pos 50000;
  enable_metrics = true;
}

abbrev outside : ℤ → ℤ → ℤ → Bool
outside v low high = ltb_ℤ v low || ltb_ℤ high v

-- The argument is none where the pointer is nil.
unfoldable pub validate_dlq_config : Option ConfigDlq → Result ConfigDlq
validate_dlq_config none = err (text "configuration cannot be nil")
validate_dlq_config (some c) =
    fail_if (outside c.max_retries (pos 0) (pos 100)) (text "max retries out of range")
    >> fail_if (outside c.retry_delay (pos millisecond) (pos (24 * hour)))
        (text "retry delay out of range")
    >> fail_if (outside c.worker_count (pos 1) (pos 100)) (text "worker count out of range")
    >> fail_if (outside c.queue_size (pos 10) (pos 100000)) (text "queue size out of range")
    >> ok c

default_for : ℤ → ℤ → ℤ
default_for v default = if leb_ℤ v (pos 0) then default else v

pub apply_dlq_defaults : ConfigDlq → ConfigDlq
unfolding default_for
apply_dlq_defaults c = record c {
  max_retries = default_for c.max_retries (pos 3);
  retry_delay = default_for c.retry_delay (pos (5 * minute));
  worker_count = default_for c.worker_count (pos 2);
  queue_size = default_for c.queue_size (pos 1000);
}

abbrev pub no_metrics : Metrics
no_metrics = record {
  total_failed = 0;
  total_retried = 0;
  total_succeeded = 0;
  total_dropped = 0;
  current_queue = 0;
  last_retry_time = none;
  retry_durations = [];
}

unfoldable pub start : ConfigDlq → DeadLetterQueue
start c = record {
  max_retries = pos_part c.max_retries;
  retry_delay = pos_part c.retry_delay;
  queue_size = pos_part c.queue_size;
  heap = [];
  queue = [];
  handlers = [];
  closed = 0;
  cancelled = false;
  worker_chan = [];
  workers = replicate (pos_part c.worker_count) receiving;
  metrics = if c.enable_metrics then some no_metrics else none;
  adding = [];
  probing = 0;
}

unfoldable pub new_dead_letter_queue : Option ConfigDlq → Result DeadLetterQueue
unfolding validate_dlq_config apply_dlq_defaults start
new_dead_letter_queue c = do
  valid ← map_err (wrap invalid_config) (validate_dlq_config c)
  ok (start (apply_dlq_defaults valid))

pub new_dead_letter_queue_lem :
    (c : ConfigDlq) (d : DeadLetterQueue)
    → new_dead_letter_queue (some c) ≡ ok d
    → (d ≡ start (apply_dlq_defaults c))
      × ((apply_dlq_defaults c).enable_metrics ≡ c.enable_metrics)
      × (1 ≤ pos_part (apply_dlq_defaults c).max_retries)
unfolding new_dead_letter_queue validate_dlq_config apply_dlq_defaults start
new_dead_letter_queue_lem c d h = ground arith

-- What a dead letter queue is made with.
pub record Made (c : ConfigDlq) (d : DeadLetterQueue) : Type 0 where
  pub retries_pos : 1 ≤ d.max_retries
  pub retries_max : d.max_retries ≤ 100
  -- No retries at all cannot be configured.
  pub retries_same : c.max_retries ≢ pos 0 → pos d.max_retries ≡ c.max_retries
  pub retries_none : c.max_retries ≡ pos 0 → d.max_retries ≡ 3
  pub delay_same : pos d.retry_delay ≡ c.retry_delay
  pub size_same : pos d.queue_size ≡ c.queue_size
  pub all_receive : d.workers ≡ replicate (pos_part c.worker_count) receiving
  pub some_workers : 1 ≤ length d.workers

-- A configuration that the constructor accepts gives a queue with its settings and at least one
-- worker, except that `MaxRetries` 0, which the validation allows, becomes 3; and the retries are
-- between 1 and 100.
pub new_dead_letter_queue-Made :
    (c : ConfigDlq) (d : DeadLetterQueue) → new_dead_letter_queue (some c) ≡ ok d → Made c d
unfolding new_dead_letter_queue validate_dlq_config apply_dlq_defaults start
new_dead_letter_queue-Made c d h =
    ground (arith, length-replicate (pos_part c.worker_count) receiving)
