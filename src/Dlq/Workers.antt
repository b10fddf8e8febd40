-- ===== src/Dlq/Workers.antt =====
-- deadletter.go: the goroutine of a worker, with `processOperation` taken apart at its waits.
use go_patternx.Dlq.{
  DeadLetterQueue, Place, GoError, operation_at, receiving, delete, on_metrics, stopped,
  has_handler, due, received, trying, waiting, failed_again,
}
use go_patternx.Base.{
  ℕ, ℤ, Bool, Option, pos, ◌+◌, get_elem?, if◌then◌else◌, ◌*◌, ◌==◌, leb_ℤ, ltb, negsuc, some, ◌-◌,
  incr, length, not, suc, ◌++◌, decr, none, zero, set, ◌∷◌, [],
}

-- The write of `operation.RetryCount++`.
abbrev pub suc_ℤ : ℤ → ℤ
suc_ℤ (pos n) = pos (n + 1)
suc_ℤ (negsuc zero) = pos 0
suc_ℤ (negsuc (suc n)) = negsuc n

-- `operation.NextRetry`, from the time, `retryDelay` and `RetryCount`; no overflow of the product,
-- which takes more than 10^5 retries.
abbrev pub next_time : ℕ → ℕ → ℤ → ℕ
next_time now delay (pos n) = now + delay * n
next_time now delay (negsuc n) = now - delay * (n + 1)

-- The worker's next place, and the queue.
unfoldable pub succeed_operation : DeadLetterQueue → ℕ → Place × DeadLetterQueue
succeed_operation d a = (
  receiving,
  record d {
    queue = delete (operation_at d a).id d.queue;
    metrics =
        on_metrics
          (λ m. record m {
            total_succeeded = incr m.total_succeeded;
            current_queue = decr m.current_queue;
          })
          d.metrics;
  },
)

unfoldable pub drop_operation : DeadLetterQueue → ℕ → Place × DeadLetterQueue
drop_operation d a = (
  receiving,
  record d {
    queue = delete (operation_at d a).id d.queue;
    metrics =
        on_metrics
          (λ m. record m {
            total_dropped = incr m.total_dropped;
            current_queue = decr m.current_queue;
          })
          d.metrics;
  },
)

-- What a step of the goroutine is and what it meets: the clock, the handler's answers, and which
-- of the branches of a `select` is taken.
pub data Move : Type 0 where
  receives quits : Move
  checks : ℕ → Move
  wakes : Move
  gives_up_wait : Move
  decides : Bool → ℕ → Move
  tries : Option GoError → ℕ → ℕ → Move
  requeues : Move

receive : DeadLetterQueue → Option (Place × DeadLetterQueue)
receive d = elim d.worker_chan [
  | [] ↦ none
  | first ∷ rest ↦
      some (elim first [ none ↦ receiving | some a ↦ received a ], record d { worker_chan = rest })
]

-- Up to the wait for `NextRetry`.
check : DeadLetterQueue → ℕ → ℕ → Place × DeadLetterQueue
unfolding drop_operation
check d a now = if d.closed == 1 then drop_operation d a else elim (operation_at d a).next_retry [
  | none ↦ (due a, d)
  | some t ↦ if ltb now t then (waiting a, d) else (due a, d)
]

-- From the check of `MaxRetries` to the call of the handler, whose `ShouldRetry` is given.
unfoldable pub decide : DeadLetterQueue → ℕ → Bool → ℕ → Place × DeadLetterQueue
unfolding drop_operation
decide d a should_retry now =
    let op = operation_at d a in
    if leb_ℤ op.max_retries op.retry_count
    then drop_operation d a
    else if not (has_handler op.handler_type d.handlers)
    then drop_operation d a
    else if not should_retry
    then drop_operation d a
    else (
      trying a,
      record d {
        heap =
            set d.heap a (record op { retry_count = suc_ℤ op.retry_count; last_retry = some now });
      },
    )

-- The handler's answer, after `duration`, and what is done with it.
unfoldable pub try_operation :
    DeadLetterQueue → ℕ → Option GoError → ℕ → ℕ → Place × DeadLetterQueue
unfolding succeed_operation
try_operation d a outcome duration now =
    let op = operation_at d a in
    let counted = record d {
      metrics =
          on_metrics
            (λ m. record m {
              total_retried = incr m.total_retried;
              last_retry_time = some now;
              retry_durations = m.retry_durations ++ duration ∷ [];
            })
            d.metrics;
    } in
    elim outcome [
      | none ↦ succeed_operation counted a
      | some e ↦ (
        failed_again a,
        record counted {
          heap = set d.heap a (record op {
            error = some e;
            next_retry = some (next_time now d.retry_delay op.retry_count);
          });
        },
      )
    ]

-- The last `select`: the send where there is room, and else the end of the 100 ms.
requeue : DeadLetterQueue → ℕ → Place × DeadLetterQueue
unfolding drop_operation
requeue d a =
    if ltb (length d.worker_chan) d.queue_size
    then (receiving, record d { worker_chan = d.worker_chan ++ some a ∷ [] })
    else drop_operation d a

-- `none` where the goroutine stands elsewhere or is blocked.
unfoldable pub advance : DeadLetterQueue → Place → Move → Option (Place × DeadLetterQueue)
unfolding receive check decide try_operation requeue drop_operation
advance d receiving receives = receive d
advance d receiving quits = if d.cancelled then some (stopped, d) else none
advance d (received a) (checks now) = some (check d a now)
advance d (waiting a) wakes = some (due a, d)
advance d (waiting a) gives_up_wait = if d.cancelled then some (drop_operation d a) else none
advance d (due a) (decides should_retry now) = some (decide d a should_retry now)
advance d (trying a) (tries outcome duration now) = some (try_operation d a outcome duration now)
advance d (failed_again a) requeues = some (requeue d a)
advance d p m = none

-- A step of the `i`-th worker.
unfoldable pub move : DeadLetterQueue → ℕ → Move → Option DeadLetterQueue
move d i m = elim (get_elem? d.workers i) [
  | none ↦ none
  | some p ↦ elim (advance d p m) [
    | none ↦ none
    | some (q, done) ↦ some (record done { workers = set d.workers i q })
  ]
]
