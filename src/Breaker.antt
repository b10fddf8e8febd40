-- ===== src/Breaker.antt =====
-- circuitbreaker.go: `CircuitBreaker`. A method that writes the atomics returns the new record.
-- Each read of the clock is an argument, in nanoseconds. Admission (`check_circuit_state` after
-- the request is counted) and the recording of an outcome are one step each; between the two
-- the steps of other goroutines may run (`Events`). The two counts that are compared with a limit
-- stay below it (`Invariant`), so their comparison as signed numbers is that of the patterns.
pub mod Config
pub mod Events
pub mod Invariant
pub mod Recovery
pub mod Forced
pub mod Totals
mod Tests
use go_patternx.Base.{
  ℕ, ◌+◌, Bool, false, Option, none, some, leb, ◌==◌, if◌then◌else◌, incr, ℤ, ltb_ℤ, pos,
  millisecond, ◌||◌, hour, minute,
}
use go_patternx.Errors.{
  GoError, sentinel, wrap, text, invalid_operation, circuit_breaker_open, context_cancelled,
  circuit_breaker_timeout, operation_panic, wrapped, Context, context_with, nil_context,
}

pub data State : Type 0 where
  state_closed state_open state_half_open : State

pub record CircuitBreaker : Type 0 where
  pub threshold : ℕ
  pub timeout : ℕ
  pub half_open_max : ℕ
  pub state : State
  pub failure_count : ℕ
  pub last_failure : ℕ
  pub success_count : ℕ
  pub total_requests : ℕ
  pub total_failures : ℕ
  pub total_successes : ℕ
  pub total_timeouts : ℕ
  pub total_panics : ℕ
  pub last_state_change : ℕ
  pub health_status : ℕ

pub set_state : CircuitBreaker → State → ℕ → CircuitBreaker
set_state cb s now = record cb { state = s; last_state_change = now }

-- `time.Since(lastFailure) >= timeout`, with the subtraction moved to the other side.
pub should_attempt_reset : CircuitBreaker → ℕ → Bool
should_attempt_reset cb now =
    if cb.last_failure == 0 then false else leb (cb.last_failure + cb.timeout) now

pub transition_to_half_open : CircuitBreaker → ℕ → CircuitBreaker
unfolding set_state
transition_to_half_open cb now = elim cb.state [
  | state_open ↦ record (set_state cb state_half_open now) { success_count = 0 }
  | _ ↦ cb
]

pub check_circuit_state : CircuitBreaker → ℕ → CircuitBreaker × Option GoError
unfolding should_attempt_reset transition_to_half_open
check_circuit_state cb now = elim cb.state [
  | state_closed ↦ (cb, none)
  | state_open ↦
      if should_attempt_reset cb now
      then (transition_to_half_open cb now, none)
      else (cb, some (sentinel circuit_breaker_open))
  | state_half_open ↦
      if leb cb.half_open_max cb.success_count
      then (cb, some (sentinel circuit_breaker_open))
      else (cb, none)
]

pub record_failure : CircuitBreaker → ℕ → CircuitBreaker
unfolding set_state
record_failure cb now =
    let counted = record cb { total_failures = incr cb.total_failures; last_failure = now } in
    elim cb.state [
      | state_closed ↦
          let failed = record counted { failure_count = incr cb.failure_count } in
          if leb cb.threshold (incr cb.failure_count)
          then record (set_state failed state_open now) { health_status = 0 }
          else failed
      | state_half_open ↦ record (set_state counted state_open now) { health_status = 0 }
      | state_open ↦ counted
    ]

pub record_success : CircuitBreaker → ℕ → CircuitBreaker
unfolding set_state
record_success cb now =
    let counted = record cb { total_successes = incr cb.total_successes } in
    elim cb.state [
      | state_closed ↦ record counted { failure_count = 0 }
      | state_half_open ↦
          let succeeded = record counted { success_count = incr cb.success_count } in
          if leb cb.half_open_max (incr cb.success_count)
          then record (set_state succeeded state_closed now) {
            failure_count = 0;
            health_status = 1;
          }
          else succeeded
      | state_open ↦ counted
    ]

-- What the caller's function does: it returns an `error`, or it panics.
pub data Outcome : Type 0 where
  returns : Option GoError → Outcome
  panics : Outcome

-- The deferred `recover` swallows the panic, and the unnamed result is then the zero value: nil.
pub execute_with_recovery : CircuitBreaker → Outcome → ℕ → CircuitBreaker × Option GoError
unfolding record_failure record_success
execute_with_recovery cb (returns none) now = (record_success cb now, none)
execute_with_recovery cb (returns (some e)) now = (record_failure cb now, some e)
execute_with_recovery cb panics now =
    (record_failure (record cb { total_panics = incr cb.total_panics }) now, none)

-- What the `select` sees first: the operation's end, or `ctx.Done()` with `ctx.Err()`. The
-- operation may still panic after its context is done, which counts a panic at once or later.
pub data Race : Type 0 where
  finishes : Outcome → Race
  expires : GoError → Race

pub execute_with_context_and_recovery : CircuitBreaker → Race → ℕ → CircuitBreaker × Option GoError
unfolding record_failure record_success
execute_with_context_and_recovery cb (finishes (returns none)) now = (record_success cb now, none)
execute_with_context_and_recovery cb (finishes (returns (some e))) now =
    (record_failure cb now, some e)
execute_with_context_and_recovery cb (finishes panics) now = (
  record_failure (record cb { total_panics = incr cb.total_panics }) now,
  some (wrapped operation_panic),
)
execute_with_context_and_recovery cb (expires e) now = (
  record_failure (record cb { total_timeouts = incr cb.total_timeouts }) now,
  some (wrap circuit_breaker_timeout e),
)

-- The part of `Execute` up to the operation: the request is counted, then admitted or refused.
pub admit : CircuitBreaker → ℕ → CircuitBreaker × Option GoError
unfolding check_circuit_state
admit cb now = check_circuit_state (record cb { total_requests = incr cb.total_requests }) now

-- The nil function is `none`. The operation runs from `now` to `later`, with no other goroutine.
unfoldable pub execute : CircuitBreaker → Option Outcome → ℕ → ℕ → CircuitBreaker × Option GoError
unfolding admit execute_with_recovery
execute cb none now later = (cb, some (sentinel invalid_operation))
execute cb (some operation) now later =
    let (admitted, refusal) = admit cb now in
    elim refusal [
      | none ↦ execute_with_recovery admitted operation later
      | some e ↦ (admitted, some e)
    ]

pub validate_execute_inputs : Context → Option Race → Option GoError
validate_execute_inputs nil_context operation = some (text "context cannot be nil")
validate_execute_inputs (context_with e) none = some (sentinel invalid_operation)
validate_execute_inputs (context_with e) (some operation) = none

pub start_with_context : CircuitBreaker → Race → ℕ → ℕ → CircuitBreaker × Option GoError
unfolding admit execute_with_context_and_recovery
start_with_context cb operation now later =
    let (admitted, refusal) = admit cb now in
    elim refusal [
      | none ↦ execute_with_context_and_recovery admitted operation later
      | some e ↦ (admitted, some e)
    ]

pub execute_with_context :
    CircuitBreaker → Context → Option Race → ℕ → ℕ → CircuitBreaker × Option GoError
unfolding validate_execute_inputs start_with_context
execute_with_context cb nil_context operation now later =
    (cb, validate_execute_inputs nil_context operation)
execute_with_context cb (context_with e) none now later =
    (cb, validate_execute_inputs (context_with e) none)
execute_with_context cb (context_with (some e)) (some operation) now later =
    (cb, some (wrap context_cancelled e))
execute_with_context cb (context_with none) (some operation) now later =
    start_with_context cb operation now later

validate_timeout : ℤ → Option GoError
validate_timeout timeout =
    if ltb_ℤ timeout (pos millisecond) || ltb_ℤ (pos minute) timeout
    then some (text "timeout out of range")
    else none

-- Under a context of its own, which is live at the start.
pub execute_with_timeout :
    CircuitBreaker → ℤ → Option Race → ℕ → ℕ → CircuitBreaker × Option GoError
unfolding validate_timeout execute_with_context
execute_with_timeout cb timeout operation now later = elim (validate_timeout timeout) [
  | some e ↦ (cb, some e)
  | none ↦ execute_with_context cb (context_with none) operation now later
]

unfoldable pub force_open : CircuitBreaker → ℕ → CircuitBreaker
unfolding set_state
force_open cb now = record (set_state cb state_open now) { health_status = 0 }

unfoldable pub force_close : CircuitBreaker → ℕ → CircuitBreaker
unfolding set_state
force_close cb now = record (set_state cb state_closed now) {
  failure_count = 0;
  success_count = 0;
  last_failure = 0;
  total_requests = 0;
  total_failures = 0;
  total_successes = 0;
  total_timeouts = 0;
  total_panics = 0;
  health_status = 1;
}
