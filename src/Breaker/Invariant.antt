-- ===== src/Breaker/Invariant.antt =====
-- What holds of a breaker between any two steps of its goroutines.
use go_patternx.Base.{ℕ, ◌≤◌, ◌<◌, ◌≡◌, none, some, List, [], ◌∷◌, arith}
use go_patternx.Breaker.{
  CircuitBreaker, state_closed, state_half_open, Outcome, returns, panics, finishes, expires, admit,
  execute_with_recovery,
}
use go_patternx.Breaker.Config.{ConfigCircuitBreaker, InRange, start}
use go_patternx.Breaker.Events.{
  Event, requests, records, records_in_context, panics_late, forces_open, forces_close, resets,
  step, run,
}

pub record IsValid (cb : CircuitBreaker) : Type 0 where
  pub threshold_pos : 0 < cb.threshold
  pub threshold_max : cb.threshold ≤ 10000
  pub half_open_pos : 0 < cb.half_open_max
  pub half_open_max : cb.half_open_max ≤ 1000
  -- A closed breaker has not used up its failures.
  pub closed_below : cb.state ≡ state_closed → cb.failure_count < cb.threshold
  -- A half-open breaker has not seen its successes yet.
  pub half_open_below : cb.state ≡ state_half_open → cb.success_count < cb.half_open_max
  -- The health flag is up exactly in the closed state.
  pub healthy_closed : cb.health_status ≡ 1 → cb.state ≡ state_closed
  pub closed_healthy : cb.state ≡ state_closed → cb.health_status ≡ 1

pub start-IsValid : (c : ConfigCircuitBreaker) (now : ℕ) → InRange c → IsValid (start c now)
start-IsValid c now h = ground arith

request-IsValid : (cb : CircuitBreaker) (now : ℕ) → IsValid cb → IsValid (admit cb now).0
unfolding admit
request-IsValid cb now v = ground arith

records-IsValid :
    (cb : CircuitBreaker) (o : Outcome) (now : ℕ)
    → IsValid cb
    → IsValid (execute_with_recovery cb o now).0
unfolding execute_with_recovery
records-IsValid cb (returns none) now v = ground arith
records-IsValid cb (returns (some e)) now v = ground arith
records-IsValid cb panics now v = ground arith

-- Every step of every goroutine keeps the breaker valid.
pub step-IsValid : (cb : CircuitBreaker) (e : Event) → IsValid cb → IsValid (step cb e)
unfolding step
step-IsValid cb (requests now) v = request-IsValid cb now v
step-IsValid cb (records o now) v = records-IsValid cb o now v
step-IsValid cb (records_in_context (finishes (returns none)) now) v = ground arith
step-IsValid cb (records_in_context (finishes (returns (some e))) now) v = ground arith
step-IsValid cb (records_in_context (finishes panics) now) v = ground arith
step-IsValid cb (records_in_context (expires e) now) v = ground arith
step-IsValid cb panics_late v = ground arith
step-IsValid cb (forces_open now) v = ground arith
step-IsValid cb (forces_close now) v = ground arith
step-IsValid cb (resets now) v = ground arith

-- In every order of steps of every goroutine a valid breaker stays valid: its limits keep their
-- range, it is closed exactly while its health flag is up, a closed breaker has fewer failures
-- than its threshold, and a half-open one fewer successes than it needs to close.
pub run-IsValid : (cb : CircuitBreaker) (es : List Event) → IsValid cb → IsValid (run cb es)
unfolding run
run-IsValid cb [] v = v
run-IsValid cb (e ∷ es) v = run-IsValid (step cb e) es (step-IsValid cb e v)
