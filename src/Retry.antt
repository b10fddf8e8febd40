-- ===== src/Retry.antt =====
-- retry.go: the loops of `Retry`, `RetryWithResult` and `RetryWithStats`, and `RetryManager`.
-- `errors.Is` and the dynamic types of errors, which `atomic.Value` compares, belong to Go and
-- are the parameters `is` and `same_type`.
pub mod Attempts
pub mod Settings
pub mod Statistics
mod Tests
use go_patternx.Errors.{
  GoError, wrapped, retry_max_attempts_exceeded, err, wrap, context_cancelled, ok, text,
  invalid_operation,
}
use go_patternx.Base.{
  Option, Bool, ℕ, List, false, if◌then◌else◌, incr, none, some, true, ◌==◌, ltb, suc, ◌∷◌, ◌+◌,
  ◌/◌, [], ◌-◌, pos_part, zero, word,
}
use go_patternx.Retry.Settings.{Policy, validate_policy, calculate_delay}

-- What one attempt meets: `ctx.Err()` before it, what the operation returns, what the delay's
-- jitter draws, `ctx.Err()` if the context ends the wait after it, and the clock. The timeouts of the
-- policy are part of what the context says.
pub record Attempt (R : Type 0) : Type 0 where
  pub context_error : Option GoError
  pub outcome : R × Option GoError
  pub random : ℕ
  pub wait_error : Option GoError
  pub started : ℕ
  pub ended : ℕ

exceeded : Option GoError → GoError
exceeded none = wrapped retry_max_attempts_exceeded
exceeded (some e) = wrap retry_max_attempts_exceeded e

-- The ways in which an attempt can end the loop, or leave it to the next attempt.
pub data Verdict : Type 0 where
  cancelled : GoError → Verdict
  succeeded : Verdict
  rejected : GoError → Verdict
  last_failed : GoError → Verdict
  wait_cancelled : GoError → GoError → Verdict
  retries : GoError → Verdict

any_is : (GoError → GoError → Bool) → GoError → List GoError → Bool
any_is is e [] = false
any_is is e (t ∷ ts) = if is e t then true else any_is is e ts

pub is_retryable_error : (GoError → GoError → Bool) → GoError → List GoError → Bool
unfolding any_is
is_retryable_error is e [] = true
is_retryable_error is e (t ∷ ts) = any_is is e (t ∷ ts)

module _ (is : GoError → GoError → Bool) where
  -- One round of the loop, with `left` attempts after this one.
  pub judge : {R : Type 0} → List GoError → ℕ → Attempt R → Verdict
  judge targets left a = elim a.context_error [
    | some e ↦ cancelled (wrap context_cancelled e)
    | none ↦ elim a.outcome.1 [
      | none ↦ succeeded
      | some e ↦
          if is_retryable_error is e targets
          then (if left == 0 then last_failed e else elim a.wait_error [
            | some x ↦ wait_cancelled e (wrap context_cancelled x)
            | none ↦ retries e
          ])
          else rejected e
    ]
  ]

  -- The loop of `RetryWithContext`, with the attempts that are left and the last error.
  pub retry_attempts :
      {R : Type 0} → List GoError → ℕ → (ℕ → Attempt R) → ℕ → Option GoError → Option GoError
  unfolding exceeded
  retry_attempts targets zero env i last = some (exceeded last)
  retry_attempts targets (suc n) env i last = elim (judge targets n (env i)) [
    | cancelled x ↦ some x
    | succeeded ↦ none
    | rejected e ↦ some e
    | last_failed e ↦ some (exceeded (some e))
    | wait_cancelled e x ↦ some x
    | retries e ↦ retry_attempts targets n env (i + 1) (some e)
  ]

  -- A nil context is replaced by the background context, which never ends.
  pub retry_with_context : {R : Type 0} → Policy → Bool → (ℕ → Attempt R) → Option GoError
  unfolding retry_attempts
  retry_with_context p has_operation env = elim (validate_policy p) [
    | err e ↦ some e
    | ok u ↦
        if has_operation
        then retry_attempts p.retryable_errors (pos_part p.max_attempts) env 0 none
        else some (wrapped invalid_operation)
  ]

-- `RetryWithResultAndContext`: the zero value comes with every error.
module _ (is : GoError → GoError → Bool) {R : Type 0} (zero_value : R) where
  pub result_attempts : List GoError → ℕ → (ℕ → Attempt R) → ℕ → Option GoError → R × Option GoError
  unfolding exceeded
  result_attempts targets zero env i last = (zero_value, some (exceeded last))
  result_attempts targets (suc n) env i last = elim (judge is targets n (env i)) [
    | cancelled x ↦ (zero_value, some x)
    | succeeded ↦ ((env i).outcome.0, none)
    | rejected e ↦ (zero_value, some e)
    | last_failed e ↦ (zero_value, some (exceeded (some e)))
    | wait_cancelled e x ↦ (zero_value, some x)
    | retries e ↦ result_attempts targets n env (i + 1) (some e)
  ]

  pub retry_with_result : Policy → Bool → (ℕ → Attempt R) → R × Option GoError
  unfolding result_attempts
  retry_with_result p has_operation env = elim (validate_policy p) [
    | err e ↦ (zero_value, some e)
    | ok u ↦
        if has_operation
        then result_attempts p.retryable_errors (pos_part p.max_attempts) env 0 none
        else (zero_value, some (wrapped invalid_operation))
  ]

pub record RetryStats : Type 0 where
  pub total_attempts : ℕ
  pub successful_attempts : ℕ
  pub failed_attempts : ℕ
  pub total_delay : ℕ
  pub average_delay : Option ℕ
  pub last_attempt_time : Option ℕ
  pub last_success_time : Option ℕ
  pub last_error : Option GoError
  pub retry_budget_used : ℕ
  pub rate_limit_hits : ℕ

abbrev pub no_stats : RetryStats
no_stats = record {
  total_attempts = 0;
  successful_attempts = 0;
  failed_attempts = 0;
  total_delay = 0;
  average_delay = none;
  last_attempt_time = none;
  last_success_time = none;
  last_error = none;
  retry_budget_used = 0;
  rate_limit_hits = 0;
}

calculate_average : RetryStats → RetryStats
calculate_average s =
    if ltb 1 s.total_attempts
    then record s { average_delay = some (s.total_delay / (s.total_attempts - 1)) }
    else s

module _ (same_type : GoError → GoError → Bool) where
  -- `LastError.Store`: `atomic.Value` panics, here `none`, on a value of another dynamic type
  -- than the one that it has.
  pub store_last_error : RetryStats → GoError → Option RetryStats
  store_last_error s e = elim s.last_error [
    | none ↦ some (record s { last_error = some e })
    | some d ↦ if same_type d e then some (record s { last_error = some e }) else none
  ]

  -- `store_last_error` and the return of the statistics with an error.
  stop : RetryStats → GoError → Option GoError → Option (RetryStats × Option GoError)
  unfolding store_last_error
  stop s stored e = elim (store_last_error s stored) [ none ↦ none | some s' ↦ some (s', e) ]

  count_failure : RetryStats → GoError → Option RetryStats
  unfolding store_last_error
  count_failure s e = store_last_error (record s { failed_attempts = incr s.failed_attempts }) e

  module _ (is : GoError → GoError → Bool) {R : Type 0} (p : Policy) where
    -- `none` is a panic that goes on to the caller.
    pub stats_attempts :
        ℕ → (ℕ → Attempt R) → ℕ → Option GoError → RetryStats → Option (RetryStats × Option GoError)
    unfolding exceeded stop count_failure calculate_average
    stats_attempts zero env i last s = some (calculate_average s, some (exceeded last))
    stats_attempts (suc n) env i last s =
        let begun = record s {
          total_attempts = incr s.total_attempts;
          last_attempt_time = some (env i).started;
        } in
        let delay = calculate_delay p i (env i).random in
        elim (judge is p.retryable_errors n (env i)) [
          | cancelled x ↦ stop begun x (some x)
          | succeeded ↦
              stop
                (record begun {
                  successful_attempts = incr s.successful_attempts;
                  last_success_time = some (env i).ended;
                })
                (text "") none
          | rejected e ↦ elim (count_failure begun e) [ none ↦ none | some f ↦ some (f, some e) ]
          | last_failed e ↦ elim (count_failure begun e) [
            | none ↦ none
            | some f ↦ some (calculate_average f, some (exceeded (some e)))
          ]
          | wait_cancelled e x ↦ elim (count_failure begun e) [
            | none ↦ none
            | some f ↦ stop (record f { total_delay = word (f.total_delay + delay) }) x (some x)
          ]
          | retries e ↦ elim (count_failure begun e) [
            | none ↦ none
            | some f ↦
                stats_attempts n env (i + 1) (some e)
                  (record f { total_delay = word (f.total_delay + delay) })
          ]
        ]

    pub retry_with_stats : Bool → (ℕ → Attempt R) → Option (RetryStats × Option GoError)
    unfolding stats_attempts
    retry_with_stats has_operation env = elim (validate_policy p) [
      | err e ↦ some (no_stats, some e)
      | ok u ↦
          if has_operation
          then stats_attempts (pos_part p.max_attempts) env 0 none no_stats
          else some (no_stats, some (wrapped invalid_operation))
    ]

pub record RetryManager : Type 0 where
  pub stats : RetryStats
  pub last_budget_reset : ℕ
  pub closed : ℕ

pub new_retry_manager : ℕ → RetryManager
new_retry_manager now = record { stats = no_stats; last_budget_reset = now; closed = 0 }

pub close : RetryManager → RetryManager × Option GoError
close rm =
    if rm.closed == 0
    then (record rm { closed = 1 }, none)
    else (rm, some (text "retry manager already closed"))

-- `none` is the panic of `LastError.Store`.
reset_stats : (GoError → GoError → Bool) → RetryManager → ℕ → Option RetryManager
reset_stats same_type rm now =
    let cleared = record no_stats {
      average_delay = some 0;
      last_attempt_time = some now;
      last_success_time = some now;
      last_error = rm.stats.last_error;
    } in
    elim (store_last_error same_type cleared (text "")) [
      | none ↦ none
      | some s ↦ some (record rm { stats = s })
    ]
