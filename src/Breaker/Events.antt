-- ===== src/Breaker/Events.antt =====
-- circuitbreaker.go: `Reset`, the health and statistics getters, and the breaker as a machine
-- that any number of goroutines drive.
use go_patternx.Base.{ℕ, Bool, true, false, List, [], ◌∷◌, ◌==◌, incr, Option, none}
use go_patternx.Breaker.{
  CircuitBreaker, State, state_closed, state_open, Outcome, Race, set_state, admit,
  execute_with_recovery, execute_with_context_and_recovery, force_open, force_close, GoError,
}

unfoldable pub reset : CircuitBreaker → ℕ → CircuitBreaker
unfolding set_state
reset cb now = record (set_state cb state_closed now) {
  failure_count = 0;
  success_count = 0;
  last_failure = 0;
  total_requests = 0;
  total_failures = 0;
  total_successes = 0;
  total_timeouts = 0;
  total_panics = 0;
  health_status = 1;
  last_state_change = now;
}

unfoldable pub is_healthy : CircuitBreaker → Bool
is_healthy cb = cb.health_status == 1

pub record Stats : Type 0 where
  pub state : State
  pub failure_count : ℕ
  pub success_count : ℕ
  pub last_failure : ℕ
  pub total_requests : ℕ
  pub total_failures : ℕ
  pub total_successes : ℕ
  pub total_timeouts : ℕ
  pub total_panics : ℕ

unfoldable pub get_stats : CircuitBreaker → Stats
get_stats cb = record {
  state = cb.state;
  failure_count = cb.failure_count;
  success_count = cb.success_count;
  last_failure = cb.last_failure;
  total_requests = cb.total_requests;
  total_failures = cb.total_failures;
  total_successes = cb.total_successes;
  total_timeouts = cb.total_timeouts;
  total_panics = cb.total_panics;
}

-- `Stats.IsHealthy`.
unfoldable pub stats_is_healthy : Stats → Bool
stats_is_healthy s = elim s.state [ state_open ↦ false | _ ↦ true ]

-- One step of some goroutine, with the time at which it reads the clock.
pub data Event : Type 0 where
  -- `Execute` or `ExecuteWithContext` counts a request and checks the state.
  requests : ℕ → Event
  -- An admitted operation's end is recorded.
  records : Outcome → ℕ → Event
  records_in_context : Race → ℕ → Event
  -- An operation panics after its context was done.
  panics_late : Event
  forces_open forces_close resets : ℕ → Event

unfoldable pub step : CircuitBreaker → Event → CircuitBreaker
unfolding admit execute_with_recovery execute_with_context_and_recovery force_open force_close reset
step cb (requests now) = (admit cb now).0
step cb (records o now) = (execute_with_recovery cb o now).0
step cb (records_in_context r now) = (execute_with_context_and_recovery cb r now).0
step cb panics_late = record cb { total_panics = incr cb.total_panics }
step cb (forces_open now) = force_open cb now
step cb (forces_close now) = force_close cb now
step cb (resets now) = reset cb now

-- The error that the step returns to its caller: a request gets the breaker's refusal, an operation
-- that ends its own result.
unfoldable pub answer : CircuitBreaker → Event → Option GoError
unfolding admit execute_with_recovery execute_with_context_and_recovery
answer cb (requests now) = (admit cb now).1
answer cb (records o now) = (execute_with_recovery cb o now).1
answer cb (records_in_context r now) = (execute_with_context_and_recovery cb r now).1
answer cb _ = none

unfoldable pub run : CircuitBreaker → List Event → CircuitBreaker
run cb [] = cb
run cb (e ∷ es) = run (step cb e) es

-- The errors that the steps of a run return.
unfoldable pub answers : CircuitBreaker → List Event → List (Option GoError)
answers cb [] = []
answers cb (e ∷ es) = answer cb e ∷ answers (step cb e) es
