-- ===== src/PubSub/Attempts.antt =====
-- pubsub.go: the attempts of one delivery, and the breaker around them.
use go_patternx.Base.{
  ℕ, word, ◌+◌, ◌≡◌, none, some, suc, arith, false, zero, Option, Bool, true, not,
}
use go_patternx.PubSub.{SubscriptionMetrics, SubscriptionPubSub}
use go_patternx.PubSub.Delivering.{
  UserErrors, HandlerRun, deliver_attempts, handler_error, is_timeout, count_retried,
  deliver_with_retry, end_delivery, is_open, guarded_delivery, fall_back, count_end, DeliveryRun,
}
use go_patternx.Errors.{GoError, annotate}

-- A run of the handler after which the loop goes on: an error that is not a timeout, and no context
-- that ends.
pub record Retries (u : UserErrors) (r : HandlerRun) (e : GoError) : Type 0 where
  pub alive : r.context_error ≡ none
  pub fails : handler_error r.handler ≡ some e
  pub not_late : is_timeout u e ≡ false
  pub waits : r.wait_error ≡ none

abbrev pub add_retried : SubscriptionMetrics → ℕ → SubscriptionMetrics
add_retried m n = record m { messages_retried = word (m.messages_retried + n) }

module _ (u : UserErrors) (env : ℕ → HandlerRun) (errors : ℕ → GoError) where
  deliver_attempts-fail :
      (n i : ℕ) (m : SubscriptionMetrics)
      → ((j : ℕ) → Retries u (env j) (errors j))
      → deliver_attempts u n env i m
        ≡ (add_retried m (n + 1), some (annotate "failed to deliver message" (errors (i + n))))
  unfolding deliver_attempts
  deliver_attempts-fail zero i m h = let at = h i in ground (arith, at)
  deliver_attempts-fail (suc n) i m h =
      let at = h i in ground (arith, at, deliver_attempts-fail n (i + 1) (count_retried m) h)

-- A handler that always fails, and never by a timeout, is called `MaxRetries + 1` times for a
-- message, and its last error is what `deliverWithRetry` wraps and returns; `MessagesRetried` grows
-- by `MaxRetries + 1`, modulo 2^64, so that it counts the first attempt as well.
pub deliver_with_retry-fail :
    (u : UserErrors) (s : SubscriptionPubSub) (env : ℕ → HandlerRun) (errors : ℕ → GoError)
    → ((j : ℕ) → Retries u (env j) (errors j))
    → deliver_with_retry u s env ≡ (
      add_retried s.metrics (s.max_retries + 1),
      some (annotate "failed to deliver message" (errors s.max_retries)),
    )
unfolding deliver_with_retry
deliver_with_retry-fail u s env errors h =
    ground (arith, deliver_attempts-fail u env errors s.max_retries 0 s.metrics h)

-- Not the error of an open breaker.
abbrev pub other_error : UserErrors → Option GoError → Bool
other_error u none = true
other_error u (some e) = not (is_open u e)

module _ (u : UserErrors) (env : ℕ → HandlerRun) where
  deliver_attempts-other_error :
      (n i : ℕ) (m : SubscriptionMetrics)
      → ((j : ℕ) → other_error u (handler_error (env j).handler) ≡ true)
      → other_error u (deliver_attempts u n env i m).1 ≡ true
  unfolding deliver_attempts is_open
  deliver_attempts-other_error zero i m h = ground (arith, h i)
  deliver_attempts-other_error (suc n) i m h =
      ground (arith, h i, deliver_attempts-other_error n (i + 1) (count_retried m) h)

-- The breaker of a subscription protects no handler. As long as the handler's own errors are not
-- `ErrCircuitBreakerOpen`, and the handler and the context behave alike in the direct delivery, a
-- delivery that the breaker has refused does to the metrics what an admitted one does, and ends with
-- the same error.
pub end_delivery-ignores_breaker :
    (u : UserErrors) (s : SubscriptionPubSub) (r : DeliveryRun)
    → ((j : ℕ) → other_error u (handler_error (r.runs j).handler) ≡ true)
    → r.direct_runs ≡ r.runs
    → ((end_delivery u s false r).0.metrics ≡ (end_delivery u s true r).0.metrics)
      × ((end_delivery u s false r).1 ≡ (end_delivery u s true r).1)
unfolding end_delivery guarded_delivery fall_back count_end deliver_with_retry is_open
end_delivery-ignores_breaker u s r h alike =
    ground (arith, alike, deliver_attempts-other_error u r.runs s.max_retries 0 s.metrics h)
