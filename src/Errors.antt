-- ===== src/Errors.antt =====
-- errors.go: the sentinel errors, those of pubsub.go with them, and the ways in which the package builds an error from them.
use Prim.Native.String.{String}
use go_patternx.Base.{ℕ, Bool, true, false, ◌≡◌, ◌⊎◌, inl, inr, refl, Option}

-- One constructor for each `var Err… = errors.New(…)`.
pub data Sentinel : Type 0 where
  invalid_config context_cancelled invalid_operation empty_item item_too_long : Sentinel
  capacity_exceeded store_unavailable invalid_false_positive invalid_expected_items : Sentinel
  invalid_size invalid_hash_count store_operation_failed serialization_failed : Sentinel
  deserialization_failed filter_closed bulkhead_closed bulkhead_timeout bulkhead_rejected : Sentinel
  bulkhead_queue_full bulkhead_unhealthy circuit_breaker_open circuit_breaker_timeout : Sentinel
  circuit_breaker_forced operation_panic dlq_closed dlq_timeout dlq_queue_full : Sentinel
  dlq_handler_not_found dlq_max_retries_exceeded dlq_operation_failed redlock_timeout : Sentinel
  redlock_quorum_failed redlock_not_acquired redlock_expired redlock_no_clients : Sentinel
  redlock_closed redlock_invalid_config redlock_invalid_resource redlock_invalid_ttl : Sentinel
  redlock_invalid_timeout redlock_lock_not_acquired redlock_lock_acquisition_failed : Sentinel
  redlock_lock_release_failed redlock_lock_extension_failed redlock_quorum_not_reached : Sentinel
  redlock_context_cancelled redlock_lock_expired redlock_client_unavailable : Sentinel
  redlock_invalid_quorum pool_closed pool_timeout pool_queue_full pool_no_workers : Sentinel
  pool_job_failed worker_channel_full pool_invalid_config_pool pool_context_cancelled : Sentinel
  pool_invalid_job_pool pool_job_queue_full_pool pool_worker_creation_failed_pool : Sentinel
  pool_scaling_failed_pool pool_no_results_available_pool pool_invalid_job : Sentinel
  pool_job_queue_full pool_worker_creation_failed pool_scaling_failed : Sentinel
  pool_no_results_available pubsub_closed pubsub_timeout pubsub_topic_not_found : Sentinel
  pubsub_subscriber_not_found pubsub_message_invalid pubsub_delivery_failed retry_timeout : Sentinel
  retry_max_attempts_exceeded retry_non_retryable retry_operation_failed : Sentinel
  no_retry_handler_registered max_retries_exceeded_retry handler_rejected_retry_retry : Sentinel
  retry_invalid_policy retry_budget_exceeded retry_operation_timeout : Sentinel
  retry_rate_limit_exceeded retry_invalid_timeout retry_invalid_rate_limit : Sentinel
  retry_invalid_rate_limit_window retry_invalid_jitter_percent retry_invalid_multiplier : Sentinel
  retry_invalid_initial_delay : Sentinel
  -- Those that pubsub.go declares for itself.
  invalid_config_pubsub topic_not_found_pubsub subscription_not_found : Sentinel
  message_too_large_pubsub subscription_closed_pubsub publisher_closed_pubsub : Sentinel
  context_cancelled_pubsub message_delivery_failed store_unavailable_pubsub : Sentinel
  invalid_message_pubsub topic_closed_pubsub subscription_limit_pubsub : Sentinel
  concurrency_limit_pubsub batch_too_large_pubsub invalid_headers_pubsub : Sentinel
  circuit_breaker_open_pubsub dead_letter_queue_pubsub timeout_pubsub : Sentinel
  panic_recovered_pubsub : Sentinel

-- An `error` that is not nil.
pub data GoError : Type 0 where
  -- A sentinel, returned as it is.
  sentinel : Sentinel → GoError
  -- `errors.New` or `fmt.Errorf` with no `%w`.
  text : String → GoError
  -- `fmt.Errorf("%w: …")` around a sentinel, and the same with a cause printed by `%v`.
  wrapped : Sentinel → GoError
  wrap : Sentinel → GoError → GoError
  -- `fmt.Errorf("…: %w", err)`.
  annotate : String → GoError → GoError
  -- An error that code of the caller returns, `ctx.Err()` included.
  user : ℕ → GoError

-- A `context.Context` argument: nil, or one with the `ctx.Err()` that it has at the call.
pub data Context : Type 0 where
  nil_context : Context
  context_with : Option GoError → Context

-- A `(T, error)` return of which exactly one part means anything.
pub data Result {ℓ} (T : Type ℓ) : Type ℓ where
  err : GoError → Result T
  ok : T → Result T

infixl 5 ◌>>=◌ ◌>>◌
-- `v, err := m; if err != nil { return err }`, and then the rest with `v`.
abbrev pub ◌>>=◌ {ℓ κ} : {T : Type ℓ} {U : Type κ} → Result T → (T → Result U) → Result U
m >>= rest = elim m [ err e ↦ err e | ok v ↦ rest v ]

-- The same for a check that returns an error alone.
abbrev pub ◌>>◌ {ℓ κ} : {T : Type ℓ} {U : Type κ} → Result T → Result U → Result U
m >> rest = elim m [ err e ↦ err e | ok v ↦ rest ]

-- `if bad { return e }`.
abbrev pub fail_if : Bool → GoError → Result (Unit {0})
fail_if true e = err e
fail_if false e = ok tt

-- `if err := m; err != nil { return f(err) }`.
abbrev pub map_err {ℓ} : {A : Type ℓ} → (GoError → GoError) → Result A → Result A
map_err f (ok a) = ok a
map_err f (err e) = err (f e)

pub Result-cases {ℓ} :
    {A : Type ℓ} (m : Result A) → ((a : A) × (m ≡ ok a)) ⊎ ((e : GoError) × (m ≡ err e))
Result-cases (ok a) = inl (a, refl)
Result-cases (err e) = inr (e, refl)
