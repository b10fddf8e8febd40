-- ===== src/Breaker/Config.antt =====
-- circuitbreaker.go: `ConfigCircuitBreaker`, its presets, its validation and `NewCircuitBreaker`.
use go_patternx.Base.{
  ℕ, ◌*◌, ◌≡◌, ◌||◌, ℤ, pos, pos_part, ◌≤ℤ◌, ltb_ℤ, leb_ℤ, if◌then◌else◌, arith, second,
  millisecond, ◌⊎◌, inl, inr,
}
use go_patternx.Errors.{
  Result, ok, ◌>>◌, fail_if, map_err, text, wrap, invalid_config, err, Result-cases,
}
use go_patternx.Breaker.{CircuitBreaker, state_closed, GoError}

pub record ConfigCircuitBreaker : Type 0 where
  pub threshold : ℤ
  pub timeout : ℤ
  pub half_open_max : ℤ

abbrev pub default_config : ConfigCircuitBreaker
default_config = record { threshold = pos 5; timeout = pos (30 * second); half_open_max = pos 3 }

abbrev pub high_performance_config : ConfigCircuitBreaker
high_performance_config = record {
  threshold = pos 10;
  timeout = pos (10 * second);
  half_open_max = pos 5;
}

abbrev pub conservative_config : ConfigCircuitBreaker
conservative_config = record {
  threshold = pos 3;
  timeout = pos (60 * second);
  half_open_max = pos 2;
}

abbrev pub enterprise_config : ConfigCircuitBreaker
enterprise_config = record {
  threshold = pos 20;
  timeout = pos (30 * second);
  half_open_max = pos 10;
}

unfoldable pub validate_config : ConfigCircuitBreaker → Result (Unit {0})
validate_config c = do
  fail_if (ltb_ℤ c.threshold (pos 1) || ltb_ℤ (pos 10000) c.threshold) (text "threshold")
  fail_if (ltb_ℤ c.timeout (pos millisecond) || ltb_ℤ (pos (300 * second)) c.timeout)
      (text "timeout")
  fail_if (ltb_ℤ c.half_open_max (pos 1) || ltb_ℤ (pos 1000) c.half_open_max) (text "half open max")

unfoldable pub apply_defaults : ConfigCircuitBreaker → ConfigCircuitBreaker
apply_defaults c = record {
  threshold = if leb_ℤ c.threshold (pos 0) then pos 5 else c.threshold;
  timeout = if leb_ℤ c.timeout (pos 0) then pos (30 * second) else c.timeout;
  half_open_max = if leb_ℤ c.half_open_max (pos 0) then pos 3 else c.half_open_max;
}

-- What passes the validation is positive, so the breaker keeps its limits as numbers.
abbrev pub start : ConfigCircuitBreaker → ℕ → CircuitBreaker
start c now = record {
  threshold = pos_part c.threshold;
  timeout = pos_part c.timeout;
  half_open_max = pos_part c.half_open_max;
  state = state_closed;
  failure_count = 0;
  last_failure = 0;
  success_count = 0;
  total_requests = 0;
  total_failures = 0;
  total_successes = 0;
  total_timeouts = 0;
  total_panics = 0;
  last_state_change = now;
  health_status = 1;
}

unfoldable pub new_circuit_breaker : ConfigCircuitBreaker → ℕ → Result CircuitBreaker
unfolding validate_config apply_defaults
new_circuit_breaker c now = do
  map_err (wrap invalid_config) (validate_config c)
  ok (start (apply_defaults c) now)

-- The limits of `MinThresholdLimitCircuitBreaker` and its companions.
pub record InRange (c : ConfigCircuitBreaker) : Type 0 where
  pub threshold_min : pos 1 ≤ℤ c.threshold
  pub threshold_max : c.threshold ≤ℤ pos 10000
  pub timeout_min : pos millisecond ≤ℤ c.timeout
  pub timeout_max : c.timeout ≤ℤ pos (300 * second)
  pub half_open_min : pos 1 ≤ℤ c.half_open_max
  pub half_open_max : c.half_open_max ≤ℤ pos 1000

validate-InRange : (c : ConfigCircuitBreaker) → validate_config c ≡ ok tt → InRange c
unfolding validate_config
validate-InRange c h = ground arith

InRange-validate : (c : ConfigCircuitBreaker) → InRange c → validate_config c ≡ ok tt
unfolding validate_config
InRange-validate c h = ground arith

InRange-new :
    (c : ConfigCircuitBreaker) (now : ℕ) → InRange c → new_circuit_breaker c now ≡ ok (start c now)
unfolding new_circuit_breaker
InRange-new c now h = ground arith

-- The result of `NewCircuitBreaker`: a configuration with every limit in its range gives the
-- closed, healthy breaker with exactly these limits, and any other one gives ErrInvalidConfig.
pub new_circuit_breaker-InRange :
    (c : ConfigCircuitBreaker) (now : ℕ)
    → (InRange c × (new_circuit_breaker c now ≡ ok (start c now)))
      ⊎ ((¬ InRange c)
          × ((e : GoError) × (new_circuit_breaker c now ≡ err (wrap invalid_config e))))
unfolding new_circuit_breaker
new_circuit_breaker-InRange c now = elim (Result-cases (validate_config c)) [
  | inl (_, e) ↦ inl (validate-InRange c e, InRange-new c now (validate-InRange c e))
  | inr (x, e) ↦ inr ((λ r. cc (InRange-validate c r)), (x, rw (e, new_circuit_breaker)))
]
