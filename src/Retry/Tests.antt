-- ===== src/Retry/Tests.antt =====
-- Two failures and a success under the default policy of three attempts.
use go_patternx.Retry.{
  Attempt, RetryStats, is_retryable_error, retry_with_context, retry_with_result, retry_with_stats,
  no_stats, judge,
}
use go_patternx.Retry.Attempts.{
  Fails, Succeeds, retry_with_result-Succeeds, retry_with_context-Fails,
}
use go_patternx.Errors.{GoError, user, ok, text, sentinel, wrap, retry_max_attempts_exceeded}
use go_patternx.Retry.Settings.{calculate_delay, validate_policy, default_policy}
use go_patternx.Base.{
  none, ℕ, ◌<◌, Bool, [], some, suc, ◌≡◌, arith, false, if◌then◌else◌, pos, refl, true, zero, not,
  second,
}
use go_patternx.Retry.Statistics.{retry_with_stats-retry_with_context, retry_with_stats_panics}

abbrev always : GoError → GoError → Bool
always d e = true

-- The errors of `errors.New` have one dynamic type, those of the caller another.
abbrev is_text : GoError → Bool
is_text (text s) = true
is_text (sentinel s) = true
is_text _ = false

abbrev same_kind : GoError → GoError → Bool
same_kind d e = if is_text d then is_text e else not (is_text e)

abbrev failing : Attempt ℕ
failing = record {
  context_error = none;
  outcome = (0, some (user 7));
  random = 500;
  wait_error = none;
  started = 10;
  ended = 11;
}

abbrev succeeding : Attempt ℕ
succeeding = record failing { outcome = (42, none) }

abbrev all_failing : ℕ → Attempt ℕ
all_failing i = failing

abbrev one_failing : ℕ → Attempt ℕ
one_failing zero = failing
one_failing (suc i) = succeeding

abbrev user_errors : ℕ → GoError
user_errors i = user 7

default_valid : validate_policy default_policy ≡ ok tt
unfolding validate_policy
default_valid = refl

all_retried : is_retryable_error always (user 7) [] ≡ true
unfolding is_retryable_error
all_retried = refl

failing-Fails : Fails always [] failing (user 7)
failing-Fails = record {
  context_live = refl;
  wait_live = refl;
  failed = refl;
  retryable = all_retried;
}

succeeding-Succeeds : Succeeds always succeeding
succeeding-Succeeds = record { context_live = refl; succeeded_with = refl }

first_Fails : (j : ℕ) → j < 1 → Fails always [] (one_failing j) (user_errors j)
first_Fails zero h = failing-Fails
first_Fails (suc j) h = ground arith

-- The second delay of the default policy without jitter: twice 100 ms.
delay_test : calculate_delay (record default_policy { jitter = false }) 1 0 ≡ 200000000
unfolding calculate_delay
delay_test = refl

-- With jitter a delay can be longer than `MaxDelay`.
long_delay_test :
    calculate_delay (record default_policy { max_delay = pos second }) 9 900 ≡ 1080000000
unfolding calculate_delay
long_delay_test = refl

retry_with_context-Fails_example :
    retry_with_context always default_policy true all_failing
    ≡ some (wrap retry_max_attempts_exceeded (user 7))
retry_with_context-Fails_example =
    retry_with_context-Fails always default_policy all_failing user_errors 2 default_valid refl
      (λ j h. failing-Fails)

retry_with_result-Succeeds_example :
    retry_with_result always 0 default_policy true one_failing ≡ (42, none)
retry_with_result-Succeeds_example =
    retry_with_result-Succeeds always 0 default_policy one_failing user_errors 1 default_valid
      (omega arith) first_Fails succeeding-Succeeds

retry_with_stats_panics_example :
    (retry_with_stats same_kind always default_policy true one_failing ≡ none)
    × (retry_with_context always default_policy true one_failing ≡ none)
retry_with_stats_panics_example =
    retry_with_stats_panics same_kind always default_policy one_failing (user 7) 1 default_valid
      refl failing-Fails succeeding-Succeeds refl

abbrev after_one : RetryStats
after_one = record no_stats {
  total_attempts = 1;
  successful_attempts = 1;
  last_attempt_time = some 10;
  last_success_time = some 11;
  last_error = some (text "");
}

stats_test :
    retry_with_stats same_kind always default_policy true (λ i. succeeding) ≡ some (after_one, none)
unfolding retry_with_stats validate_policy judge
stats_test = refl

retry_with_stats-retry_with_context_example :
    none ≡ retry_with_context always default_policy true (λ i. succeeding)
retry_with_stats-retry_with_context_example =
    retry_with_stats-retry_with_context same_kind always default_policy true (λ i. succeeding)
      after_one none stats_test
