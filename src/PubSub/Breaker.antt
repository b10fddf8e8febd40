-- ===== src/PubSub/Breaker.antt =====
-- pubsub.go: `CircuitBreakerPubSub`, `Execute` taken apart at the operation.
use go_patternx.PubSub.{CircuitBreakerPubSub, closed_state, half_open_state, open_state}
use go_patternx.Base.{ℕ, Bool, Option, incr, none, some, true, if◌then◌else◌, ltb, ◌-◌, leb, false}
use go_patternx.Errors.{GoError}

abbrev pub new_circuit_breaker : ℕ → ℕ → CircuitBreakerPubSub
new_circuit_breaker threshold timeout = record {
  failure_count = 0;
  last_failure = none;
  state = closed_state;
  threshold = threshold;
  timeout = timeout;
}

should_attempt_reset : CircuitBreakerPubSub → ℕ → Bool
should_attempt_reset cb now = elim cb.last_failure [
  | none ↦ true
  | some t ↦ ltb cb.timeout (now - t)
]

-- Up to the operation, and whether it is called.
unfoldable pub admit : CircuitBreakerPubSub → ℕ → CircuitBreakerPubSub × Bool
unfolding should_attempt_reset
admit cb now = elim cb.state [
  | closed_state ↦ (cb, true)
  | half_open_state ↦ (cb, true)
  | open_state ↦
      if should_attempt_reset cb now
      then (record cb { state = half_open_state }, true)
      else (cb, false)
]

record_failure : CircuitBreakerPubSub → ℕ → CircuitBreakerPubSub
record_failure cb now =
    let counted = record cb { failure_count = incr cb.failure_count; last_failure = some now } in
    if leb cb.threshold (incr cb.failure_count)
    then record counted { state = open_state }
    else counted

record_success : CircuitBreakerPubSub → CircuitBreakerPubSub
record_success cb = record cb { failure_count = 0; state = closed_state }

-- What follows the operation.
unfoldable pub record_result : CircuitBreakerPubSub → Option GoError → ℕ → CircuitBreakerPubSub
unfolding record_failure record_success
record_result cb none now = record_success cb
record_result cb (some e) now = record_failure cb now
