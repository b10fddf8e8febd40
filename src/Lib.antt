-- ===== src/Lib.antt =====
-- go-patternx: resilience patterns in Go. This library models the package's circuit breaker,
-- bulkhead, distributed lock, bloom filter, retries, worker pool, dead letter queue and publish and
-- subscribe, and proves what each of them promises.
--
-- The parts and their files, by the paths of the repository:
-- * errors.go (Errors): the sentinel errors are the constructors of `Sentinel`; an error value is
--   a sentinel, alone or wrapped, or a text, and its printed form is left out. `Context` is a
--   context by what `ctx.Err()` says at its first check.
-- * circuitbreaker.go (Breaker): the record `CircuitBreaker` has the atomic fields. `admit` is
--   `Execute` up to the caller's function, `execute_with_recovery` and
--   `execute_with_context_and_recovery` are what follows it, so that other goroutines can come in
--   between. Breaker/Config has the configurations and the constructor, Breaker/Events the steps
--   of the goroutines and runs of them; Invariant, Recovery, Forced and Totals are proofs.
-- * bulkhead.go (Bulkhead): the two channels are the numbers of their tokens. `enter` is `Execute`
--   up to the send to the semaphore or the wait in the queue, `leave_queue` the end of that wait,
--   `receive_from_queue` and `count_running` the receive from the queue and the raise of
--   `CurrentConcurrentCalls` that follow, `finish` the end of the function with the deferred
--   release. Bulkhead/System puts them together as steps of a system that also knows how many
--   calls wait, have their token and are still in the queue, are about to be counted, and run.
--   Config is the constructor; Invariant, Entry, Shutdown and Health are proofs.
-- * redlock.go (Redlock, Redlock/Locking, Redlock/Config): the stores behind `LockClient` are the
--   parameter `Store`, with the two Lua scripts as operations, and what a proof relies on in them
--   is a named law (`KeepsValue`, `Overwrites`, `ExpiresAtOnce`). An attempt comes with what other
--   holders do to the stores before it. Holding and Overtaking are proofs.
-- * bloom.go (Bloom, Bloom/Batch): the filter with its bits, count and metrics. The words that
--   FNV-1a, MD5 and SHA-256 give an item are the parameter `hashes`. Bloom/Codec has the saved
--   form of the state, the fields of the JSON object as the values that encoding/json gives, with
--   the base64 text of a `[]byte` as a parameter, Bloom/Making the configuration and
--   `NewBloomFilter`, for which the sizes that the floating-point formulas give are the parameter
--   `Sizing`. Bloom/Bits, Keeping, Runs, Answers, Batches, Refinement, Limits and Restart are proofs.
-- * retry.go (Retry, Retry/Settings): the policy, the delay and the three loops. `judge` is one
--   round, and what each attempt meets is the stream of `Attempt`s. `errors.Is` and the dynamic
--   types of errors are parameters. A panic of `RetryWithStats` is the result `none`. Attempts and
--   Statistics are proofs.
-- * pool.go and worker.go (Pool): the record `WorkerPool` has the queue, the results and every
--   worker that was ever made, with the place of its goroutine, a `Phase`. Pool/Workers has the
--   steps of a goroutine (worker.go), Pool/Scaling how workers are made and stopped and the start
--   of `Close`, Pool/AutoScale a tick of `autoScale`, Pool/Events the calls and steps in any order, with a `History` that counts what
--   happened for the proofs. Of `workerPool` the number of entries is kept. A call that waits for
--   ever is `blocked`. Accounting, Counting, Submission, Tokens and Workforce are proofs.
-- * deadletter.go (Dlq): the record `DeadLetterQueue` has the operations on a heap, into which the
--   map, the channel and the workers point. `begin_add` and `finish_add` are the two parts of
--   `AddFailedOperation`, `begin_probe` and `end_probe` those of `IsHealthy`. Dlq/Config is the
--   constructor, Dlq/Workers has the steps of a worker, `processOperation` taken apart at its
--   waits, Dlq/Events the calls and steps in any order, Dlq/WriteBehind
--   the handler of the package. What a handler answers is part of a step.
--   Conservation, Counting and Retries are proofs.
-- * pubsub.go (PubSub): `TopicPubSub` has the channel, the subscriptions, the place of its loop and
--   of each goroutine that delivers, and the messages between their number and the send. Breaker is
--   `CircuitBreakerPubSub` with `Execute` taken apart at the operation, Validation and Config the
--   checks and the configuration, Topics how subscriptions and messages get in, Delivering one
--   delivery with its attempts, Processing the loop of a topic and the start and the end of its
--   deliveries, TopicEvents these steps in any order. System has `PubSub` with its topics,
--   `CreateTopic`, `Subscribe` and `Close`; Publishing is `Publish` and Batching `PublishBatch`, each
--   run by one goroutine from its start to its end. Messages are texts, maps are association lists,
--   what handlers and contexts answer is part of a step or a run, and package unicode is a parameter.
--   Order, Tallies, Balance, Priorities, Reaching, Unreached, Attempts, Sending, Slots, Executing, Published,
--   Batches and Settings are proofs.
-- Base has the shared helpers: Boolean tests, lists over the native numbers, integers, time.
-- The Tests modules run the definitions on concrete values.
--
-- How the parts interact: the modelled components do not call each other; all of them build their
-- errors from errors.go, and each is called by the user's goroutines.
--
-- Numbers: atomic counters are 64-bit words, with `incr` and `decr` wrapping around modulo 2^64.
-- Configured limits are integers, and the native numbers once the validation has bounded them.
-- The counts that are compared with a limit stay far below 2^63 by the invariants. Times and
-- durations are nanoseconds. A fraction is a number of thousandths, and a quotient is compared
-- by multiplying out.
--
-- Fuel: loops over lists are structural recursion, and the loops of attempts recurse on the number
-- of attempts that are left, which is the bound of the source's own loops.
--
-- Concurrency: a step is what happens under one lock or between two atomic operations of which
-- the order matters; runs and reachability range over every order of steps.
--
-- Not modelled: the end of `Close` of the pool and of the dead letter queue, where they wait for
-- their workers and close the channels; the pool's health status; other goroutines' steps inside a
-- call of `Publish` or `PublishBatch`; the write of `RetryCount` by deliveries (a check of a filter
-- takes the count as a parameter); the count `Errors` of the system by deliveries; `GetStats`;
-- the rounding of floating-point numbers; the JSON text of a bloom filter's saved state and its old
-- format; the JSON text of a stored message; the logger; and the getters that only copy fields.
pub mod Base
pub mod Bloom
pub mod Breaker
pub mod Bulkhead
pub mod Dlq
pub mod Errors
pub mod Pool
pub mod PubSub
pub mod Redlock
pub mod Retry
