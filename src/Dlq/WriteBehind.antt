-- ===== src/Dlq/WriteBehind.antt =====
-- deadletter.go: `WriteBehindHandler`, whose `Retry` calls the function that it was made with.
use go_patternx.Dlq.{FailedOperation, DeadLetterQueue, operation_at}
use go_patternx.Base.{Option, Bool, some, ltb_ℤ, none, ℕ, ◌≡◌, true, arith}
use go_patternx.Dlq.Workers.{decide}

-- `NewWriteBehindHandler`: none where it panics. What the writer does is not looked into.
pub new_write_behind_handler {ℓ} : {Writer : Type ℓ} → Option Writer → Option Writer
new_write_behind_handler none = none
new_write_behind_handler (some writer) = some writer

-- `WriteBehindHandler.ShouldRetry`.
pub should_retry : FailedOperation → Bool
should_retry op = ltb_ℤ op.retry_count op.max_retries

-- The queue has made the handler's test before it asks, so this handler never rejects a retry.
pub decide-should_retry :
    (d : DeadLetterQueue) (a now : ℕ)
    → decide d a (should_retry (operation_at d a)) now ≡ decide d a true now
unfolding decide should_retry
decide-should_retry d a now = ground arith
