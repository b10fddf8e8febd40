-- ===== src/Retry/Statistics.antt =====
-- What `RetryWithStats` returns beside the statistics, and when it panics.
use go_patternx.Errors.{GoError, ok, text}
use go_patternx.Base.{
  Bool, ℕ, Option, ◌≡◌, some, ◌+◌, arith, pos_part, suc, none, zero, refl, incr, Option-cases, inl,
  inr, false, word, true,
}
use go_patternx.Retry.Settings.{Policy}
use go_patternx.Retry.{
  retry_with_stats, stats_attempts, retry_attempts, retry_with_context, Attempt, RetryStats,
  Verdict, judge, cancelled, no_stats, rejected, last_failed, wait_cancelled, retries, succeeded,
  validate_policy, count_failure, calculate_delay,
}
use go_patternx.Retry.Attempts.{Fails, Succeeds, judge-Fails, judge-Succeeds}

module _ (same_type is : GoError → GoError → Bool) {R : Type 0} (p : Policy) where
  stats_attempts_at :
      (n : ℕ) (env : ℕ → Attempt R) (i : ℕ) (last : Option GoError) (s t : RetryStats)
      (r : Option GoError) (v : Verdict)
      → judge is p.retryable_errors n (env i) ≡ v
      → ((e : GoError) (s' : RetryStats)
          → stats_attempts same_type is p n env (i + 1) (some e) s' ≡ some (t, r)
          → r ≡ retry_attempts is p.retryable_errors n env (i + 1) (some e))
      → stats_attempts same_type is p (suc n) env i last s ≡ some (t, r)
      → r ≡ retry_attempts is p.retryable_errors (suc n) env i last
  unfolding stats_attempts retry_attempts
  stats_attempts_at n env i last s t r (cancelled x) h rest k = ground arith
  stats_attempts_at n env i last s t r succeeded h rest k = ground arith
  stats_attempts_at n env i last s t r (rejected e) h rest k = ground arith
  stats_attempts_at n env i last s t r (last_failed e) h rest k = ground arith
  stats_attempts_at n env i last s t r (wait_cancelled e x) h rest k = ground arith
  stats_attempts_at n env i last s t r (retries e) h rest k =
      let begun = record s {
        total_attempts = incr s.total_attempts;
        last_attempt_time = some (env i).started;
      } in
      elim (Option-cases (count_failure same_type begun e)) [
        | inl gone ↦ ground arith
        | inr (f, kept) ↦ ground (
          arith,
          rest e (record f {
            total_delay = word (f.total_delay + calculate_delay p i (env i).random);
          }),
        )
      ]

  stats_attempts_error :
      (n : ℕ) (env : ℕ → Attempt R) (i : ℕ) (last : Option GoError) (s t : RetryStats)
      (r : Option GoError)
      → stats_attempts same_type is p n env i last s ≡ some (t, r)
      → r ≡ retry_attempts is p.retryable_errors n env i last
  unfolding stats_attempts retry_attempts
  stats_attempts_error zero env i last s t r k = ground arith
  stats_attempts_error (suc n) env i last s t r k =
      stats_attempts_at n env i last s t r (judge is p.retryable_errors n (env i)) refl
        (λ e s' g. stats_attempts_error n env (i + 1) (some e) s' t r g) k

  -- Whenever `RetryWithStats` returns at all, its error is the one that `Retry` returns for the
  -- same attempts.
  pub retry_with_stats-retry_with_context :
      (has_operation : Bool) (env : ℕ → Attempt R) (t : RetryStats) (r : Option GoError)
      → retry_with_stats same_type is p has_operation env ≡ some (t, r)
      → r ≡ retry_with_context is p has_operation env
  unfolding retry_with_stats retry_with_context
  retry_with_stats-retry_with_context b env t r k =
      ground (arith, stats_attempts_error (pos_part p.max_attempts) env 0 none no_stats t r)

  -- `RetryWithStats` panics where `Retry` succeeds: when the first attempt fails with an error that
  -- is retried and whose dynamic type is not that of `errors.New`, and the second succeeds, then
  -- `LastError` is given a value of another type than the one that it holds.
  pub retry_with_stats_panics :
      (env : ℕ → Attempt R) (e : GoError) (m : ℕ)
      → validate_policy p ≡ ok tt
      → pos_part p.max_attempts ≡ suc (suc m)
      → Fails is p.retryable_errors (env 0) e
      → Succeeds is (env 1)
      → same_type e (text "") ≡ false
      → (retry_with_stats same_type is p true env ≡ none)
        × (retry_with_context is p true env ≡ none)
  unfolding retry_with_stats retry_with_context stats_attempts retry_attempts
  retry_with_stats_panics env e m v q f s d =
      let first = judge-Fails is p.retryable_errors m (env 0) e f in
      let second = judge-Succeeds is p.retryable_errors m (env 1) s in
      rw (v, retry_with_stats, retry_with_context, q) (ground (arith, first, second, d))
