-- ===== src/Retry/Attempts.antt =====
-- When the loops stop, and how the three of them agree.
use go_patternx.Errors.{GoError, wrap, retry_max_attempts_exceeded, ok}
use go_patternx.Base.{
  Bool, List, ℕ, Option, ◌≡◌, arith, none, suc, ◌≤◌, ◌+◌, pos_part, some, zero, refl, true, ◌<◌, ap,
}
use go_patternx.Retry.{
  judge, result_attempts, retry_attempts, retry_with_result, Attempt, exceeded, retry_with_context,
  Policy, is_retryable_error, last_failed, retries, cancelled, rejected, wait_cancelled, succeeded,
  Verdict, validate_policy,
}

module _ (is : GoError → GoError → Bool) {R : Type 0} where
  result_attempts_at :
      (z : R) (targets : List GoError) (n : ℕ) (env : ℕ → Attempt R) (i : ℕ) (last : Option GoError)
      (v : Verdict)
      → judge is targets n (env i) ≡ v
      → ((e : GoError)
          → (result_attempts is z targets n env (i + 1) (some e)).1
            ≡ retry_attempts is targets n env (i + 1) (some e))
      → (result_attempts is z targets (suc n) env i last).1
        ≡ retry_attempts is targets (suc n) env i last
  unfolding result_attempts retry_attempts
  result_attempts_at z targets n env i last (cancelled x) h rest =
      rw (h, result_attempts, retry_attempts) refl
  result_attempts_at z targets n env i last succeeded h rest =
      rw (h, result_attempts, retry_attempts) refl
  result_attempts_at z targets n env i last (rejected e) h rest =
      rw (h, result_attempts, retry_attempts) refl
  result_attempts_at z targets n env i last (last_failed e) h rest =
      rw (h, result_attempts, retry_attempts) refl
  result_attempts_at z targets n env i last (wait_cancelled e x) h rest =
      rw (h, result_attempts, retry_attempts) refl
  result_attempts_at z targets n env i last (retries e) h rest =
      rw (h, result_attempts, retry_attempts) (rest e)

  result_attempts_error :
      (z : R) (targets : List GoError) (n : ℕ) (env : ℕ → Attempt R) (i : ℕ) (last : Option GoError)
      → (result_attempts is z targets n env i last).1 ≡ retry_attempts is targets n env i last
  unfolding result_attempts retry_attempts
  result_attempts_error z targets zero env i last = refl
  result_attempts_error z targets (suc n) env i last =
      result_attempts_at z targets n env i last (judge is targets n (env i)) refl
        (λ e. result_attempts_error z targets n env (i + 1) (some e))

  -- `RetryWithResult` returns the error that `Retry` returns for the same attempts.
  pub retry_with_result-retry_with_context :
      (z : R) (p : Policy) (has_operation : Bool) (env : ℕ → Attempt R)
      → (retry_with_result is z p has_operation env).1 ≡ retry_with_context is p has_operation env
  unfolding retry_with_result retry_with_context
  retry_with_result-retry_with_context z p h env =
      ground
        (arith, result_attempts_error z p.retryable_errors (pos_part p.max_attempts) env 0 none)

  -- An attempt whose operation fails with `e`, which the policy retries, and whose context lives.
  pub record Fails (targets : List GoError) (a : Attempt R) (e : GoError) : Type 0 where
    pub context_live : a.context_error ≡ none
    pub wait_live : a.wait_error ≡ none
    pub failed : a.outcome.1 ≡ some e
    pub retryable : is_retryable_error is e targets ≡ true

  judge_last-Fails :
      (targets : List GoError) (a : Attempt R) (e : GoError)
      → Fails targets a e
      → judge is targets 0 a ≡ last_failed e
  unfolding judge
  judge_last-Fails targets a e f = ground arith

  pub judge-Fails :
      (targets : List GoError) (n : ℕ) (a : Attempt R) (e : GoError)
      → Fails targets a e
      → judge is targets (suc n) a ≡ retries e
  unfolding judge
  judge-Fails targets n a e f = ground arith

  retry_attempts-Fails :
      (targets : List GoError) (n : ℕ) (env : ℕ → Attempt R) (errors : ℕ → GoError) (i l : ℕ)
      (last : Option GoError)
      → i + n ≡ l
      → ((j : ℕ) → j ≤ l → Fails targets (env j) (errors j))
      → retry_attempts is targets (suc n) env i last
        ≡ some (wrap retry_max_attempts_exceeded (errors l))
  unfolding retry_attempts exceeded
  retry_attempts-Fails targets zero env errors i l last q f =
      rw (judge_last-Fails targets (env i) (errors i) (f i (omega arith)), retry_attempts)
        (ap (λ k. some (wrap retry_max_attempts_exceeded (errors k))) (omega arith))
  retry_attempts-Fails targets (suc n) env errors i l last q f =
      rw (judge-Fails targets n (env i) (errors i) (f i (omega arith)), retry_attempts)
        (retry_attempts-Fails targets n env errors (i + 1) l (some (errors i)) (omega arith) f)

  -- When every attempt that the policy allows fails with an error that is retried, and the
  -- context lives, all of them are made, and the error is ErrRetryMaxAttemptsExceeded around the
  -- error of the last.
  pub retry_with_context-Fails :
      (p : Policy) (env : ℕ → Attempt R) (errors : ℕ → GoError) (n : ℕ)
      → validate_policy p ≡ ok tt
      → pos_part p.max_attempts ≡ suc n
      → ((j : ℕ) → j ≤ n → Fails p.retryable_errors (env j) (errors j))
      → retry_with_context is p true env ≡ some (wrap retry_max_attempts_exceeded (errors n))
  unfolding retry_with_context
  retry_with_context-Fails p env errors n v m f =
      rw (v, retry_with_context, m)
        (retry_attempts-Fails p.retryable_errors n env errors 0 n none (omega arith) f)

  -- An attempt whose operation succeeds, in a live context.
  pub record Succeeds (a : Attempt R) : Type 0 where
    pub context_live : a.context_error ≡ none
    pub succeeded_with : a.outcome.1 ≡ none

  pub judge-Succeeds :
      (targets : List GoError) (n : ℕ) (a : Attempt R)
      → Succeeds a
      → judge is targets n a ≡ succeeded
  unfolding judge
  judge-Succeeds targets n a f = ground arith

  result_attempts-Succeeds :
      (z : R) (targets : List GoError) (k n : ℕ) (env : ℕ → Attempt R) (errors : ℕ → GoError)
      (i l : ℕ) (last : Option GoError)
      → i + k ≡ l
      → k < n
      → ((j : ℕ) → j < l → Fails targets (env j) (errors j))
      → Succeeds (env l)
      → result_attempts is z targets n env i last ≡ ((env l).outcome.0, none)
  unfolding result_attempts
  result_attempts-Succeeds z targets k zero env errors i l last q h f s = elim h [ ]
  result_attempts-Succeeds z targets zero (suc n) env errors i l last q h f s =
      let e : i ≡ l = omega arith in
      rw (judge-Succeeds targets n (env i) (rw e s), result_attempts)
        (ap (λ m. ((env m).outcome.0, none)) e)
  result_attempts-Succeeds z targets (suc k) (suc zero) env errors i l last q h f s = ground arith
  result_attempts-Succeeds z targets (suc k) (suc (suc n)) env errors i l last q h f s =
      rw (judge-Fails targets n (env i) (errors i) (f i (omega arith)), result_attempts)
        (result_attempts-Succeeds z targets k (suc n) env errors (i + 1) l (some (errors i))
          (omega arith) (omega arith) f s)

  -- When the first k attempts fail with errors that are retried and the next succeeds, within
  -- the attempts that the policy allows and with a live context, `RetryWithResult` returns the
  -- result of that attempt and no error.
  pub retry_with_result-Succeeds :
      (z : R) (p : Policy) (env : ℕ → Attempt R) (errors : ℕ → GoError) (k : ℕ)
      → validate_policy p ≡ ok tt
      → k < pos_part p.max_attempts
      → ((j : ℕ) → j < k → Fails p.retryable_errors (env j) (errors j))
      → Succeeds (env k)
      → retry_with_result is z p true env ≡ ((env k).outcome.0, none)
  unfolding retry_with_result
  retry_with_result-Succeeds z p env errors k v h f s =
      rw (v, retry_with_result)
        (result_attempts-Succeeds z p.retryable_errors k (pos_part p.max_attempts) env errors 0 k
          none (omega arith) h f s)
