-- ===== src/PubSub/Config.antt =====
-- pubsub.go: `ConfigPubSub`, its presets, its validation and its defaults.
use go_patternx.Base.{
  Bool, Option, if◌then◌else◌, ℤ, pos, ℕ, ◌*◌, ◌==◌, zero, hour, millisecond, second, some, true,
  false, leb_ℤ, ltb_ℤ, none,
}
use go_patternx.Errors.{Result, err, text, fail_if, ◌>>◌, ok}
use Prim.Native.String.{String, len}

-- Of the store and the dead letter handler only whether there is one.
pub record ConfigPubSub : Type 0 where
  pub has_store : Bool
  pub key_prefix : String
  pub ttl : ℤ
  pub buffer_size : ℤ
  pub max_retry_attempts : ℤ
  pub retry_delay : ℤ
  pub enable_metrics : Bool
  pub max_concurrent_operations : ℤ
  pub operation_timeout : ℤ
  pub circuit_breaker_threshold : ℤ
  pub circuit_breaker_timeout : ℤ
  pub enable_dead_letter_queue : Bool
  pub has_dead_letter_handler : Bool

abbrev pub default_config : Bool → ConfigPubSub
default_config has_store = record {
  has_store = has_store;
  key_prefix = "pubsub";
  ttl = pos (24 * hour);
  buffer_size = pos 10000;
  max_retry_attempts = pos 3;
  retry_delay = pos (100 * millisecond);
  enable_metrics = true;
  max_concurrent_operations = pos 1000;
  operation_timeout = pos (30 * second);
  circuit_breaker_threshold = pos 5;
  circuit_breaker_timeout = pos (60 * second);
  enable_dead_letter_queue = false;
  has_dead_letter_handler = false;
}

abbrev pub high_reliability_config : Bool → ConfigPubSub
high_reliability_config has_store = record (default_config has_store) {
  buffer_size = pos 50000;
  max_retry_attempts = pos 5;
  retry_delay = pos (200 * millisecond);
  max_concurrent_operations = pos 500;
  operation_timeout = pos (60 * second);
  circuit_breaker_threshold = pos 3;
  circuit_breaker_timeout = pos (120 * second);
  enable_dead_letter_queue = true;
}

-- None where the pointer is nil.
unfoldable pub validate_config : Option ConfigPubSub → Result ConfigPubSub
validate_config none = err (text "config cannot be nil")
validate_config (some c) =
    fail_if (leb_ℤ c.buffer_size (pos 0)) (text "buffer size must be positive")
    >> fail_if (ltb_ℤ c.max_retry_attempts (pos 0)) (text "max retry attempts cannot be negative")
    >> fail_if (leb_ℤ c.max_concurrent_operations (pos 0))
        (text "max concurrent operations must be positive")
    >> fail_if (leb_ℤ c.operation_timeout (pos 0)) (text "operation timeout must be positive")
    >> fail_if (leb_ℤ c.circuit_breaker_threshold (pos 0))
        (text "circuit breaker threshold must be positive")
    >> fail_if (leb_ℤ c.circuit_breaker_timeout (pos 0))
        (text "circuit breaker timeout must be positive")
    >> ok c

-- `if field == 0 { field = default }`.
abbrev or_default : ℤ → ℕ → ℤ
or_default v default = elim v [ pos zero ↦ pos default | n ↦ n ]

unfoldable pub apply_defaults : ConfigPubSub → ConfigPubSub
apply_defaults c = record c {
  key_prefix = if len c.key_prefix == 0 then "pubsub" else c.key_prefix;
  ttl = or_default c.ttl (24 * hour);
  buffer_size = or_default c.buffer_size 10000;
  max_retry_attempts = or_default c.max_retry_attempts 3;
  retry_delay = or_default c.retry_delay (100 * millisecond);
  max_concurrent_operations = or_default c.max_concurrent_operations 1000;
  operation_timeout = or_default c.operation_timeout (30 * second);
  circuit_breaker_threshold = or_default c.circuit_breaker_threshold 5;
  circuit_breaker_timeout = or_default c.circuit_breaker_timeout (60 * second);
}
