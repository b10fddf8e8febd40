-- ===== src/Pool.antt =====
-- pool.go: `WorkerPool`, its queue of jobs and its results.
mod Tests
pub mod Accounting
pub mod AutoScale
pub mod Config
pub mod Tokens
pub mod Workers
pub mod Workforce
pub mod Counting
pub mod Events
pub mod Scaling
pub mod Submission
use go_patternx.Base.{
  ◌++◌, Bool, List, Option, ℕ, ℤ, if◌then◌else◌, ◌∷◌, ◌==◌, [], leb_ℤ, none, not, decr, incr, pos,
  some, ◌*◌, word, ◌+◌, ltb_ℤ, second, ◌&&◌, length, zero, ltb, millisecond, ◌||◌, hour,
}
use go_patternx.Errors.{
  nil_context, context_with, Context, Result, GoError, fail_if, err, text, ◌>>◌, sentinel, wrapped,
  pool_closed, pool_invalid_job, pool_timeout, ok, pool_no_results_available, wrap,
  pool_job_queue_full, pool_context_cancelled,
}
use Prim.Native.String.{String, len}

-- A `JobPool`. What its task does when it runs is part of the step that runs it; the priority and
-- the metadata are carried along and never read. A creation time of zero is `none`.
pub record Job : Type 0 where
  pub id : String
  pub has_task : Bool
  pub timeout : ℤ
  pub created : Option ℕ

pub record JobResult : Type 0 where
  pub job_id : String
  pub result : Option ℕ
  pub error : Option GoError
  pub duration : ℕ
  pub worker_id : ℕ

-- Where the goroutine of a worker stands: before the check of `stopped`, in the `select`, running a
-- job, sending its result, sending itself to `workerPool`, or gone: at the top or from the
-- `select`, with a result that it has not sent, or before it came back to `workerPool`.
pub data Phase : Type 0 where
  at_top selecting returning gone gone_unsent gone_unreturned : Phase
  working : Job → Phase
  sending : JobResult → Phase

-- `IdleTime` and `LastIdleStart` are never written.
pub record WorkerStats : Type 0 where
  pub jobs_processed : ℕ
  pub jobs_failed : ℕ
  pub total_job_time : ℕ
  pub last_job_time : Option ℕ
  pub panic_count : ℕ

-- `stop_signal` is the slot of the buffered `stopChan`; `jobChan` is never used.
pub record Worker : Type 0 where
  pub id : ℕ
  pub stats : WorkerStats
  pub active : ℕ
  pub stopped : ℕ
  pub stop_signal : Bool
  pub phase : Phase

pub record PoolStats : Type 0 where
  pub active_workers : ℕ
  pub idle_workers : ℕ
  pub total_workers : ℕ
  pub queued_jobs : ℕ
  pub completed_jobs : ℕ
  pub failed_jobs : ℕ
  pub total_job_time : ℕ
  pub scale_up_count : ℕ
  pub scale_down_count : ℕ
  pub last_scale_up : Option ℕ
  pub last_scale_down : Option ℕ

-- `made` has every worker that was created, in order; `workers` is the slice, by places in `made`;
-- of `workerPool` only the number of its entries matters, since nothing receives from it.
pub record WorkerPool : Type 0 where
  pub min_workers : ℕ
  pub max_workers : ℕ
  pub queue_size : ℕ
  pub made : List Worker
  pub workers : List ℕ
  pub worker_pool : ℕ
  pub job_queue : List Job
  pub job_results : List JobResult
  pub stats : PoolStats
  pub cancelled : Bool
  pub closed : ℕ
  -- A goroutine waits for room in `workerPool` and holds `mu`.
  pub stuck : Bool

pub validate_job : Job → Result (Unit {0})
validate_job job =
    fail_if (not job.has_task) (text "job task function cannot be nil")
    >> fail_if (ltb_ℤ job.timeout (pos 0)) (text "job timeout cannot be negative")
    >> fail_if
        (ltb_ℤ (pos 0) job.timeout
          && (ltb_ℤ job.timeout (pos millisecond) || ltb_ℤ (pos hour) job.timeout))
        (text "job timeout out of range")

-- `fresh` is the name that the clock gives.
pub set_job_defaults : Job → String → ℕ → Job
set_job_defaults job fresh now = record {
  id = if len job.id == 0 then fresh else job.id;
  has_task = job.has_task;
  timeout = elim job.timeout [ pos zero ↦ pos (30 * second) | t ↦ t ];
  created = elim job.created [ none ↦ some now | some t ↦ some t ];
}

enqueue : WorkerPool → Job → WorkerPool
enqueue wp job = record wp {
  job_queue = wp.job_queue ++ job ∷ [];
  stats = record (wp.stats) { queued_jobs = incr wp.stats.queued_jobs };
}

pub submit : WorkerPool → Job → String → ℕ → WorkerPool × Option GoError
unfolding validate_job set_job_defaults enqueue
submit wp job fresh now =
    if wp.closed == 1 then (wp, some (sentinel pool_closed)) else elim (validate_job job) [
      | err e ↦ (wp, some (wrap pool_invalid_job e))
      | ok u ↦
          if ltb (length wp.job_queue) wp.queue_size
          then (enqueue wp (set_job_defaults job fresh now), none)
          else (wp, some (sentinel pool_job_queue_full))
    ]

-- `prefers_done` is the choice of the `select` when the context is done and the queue has room.
pub submit_with_context :
    WorkerPool → Context → Bool → Job → String → ℕ → WorkerPool × Option GoError
unfolding validate_job set_job_defaults enqueue
submit_with_context wp ctx prefers_done job fresh now =
    let queued : WorkerPool × Option GoError =
      (enqueue wp (set_job_defaults job fresh now), none) in
    if wp.closed == 1 then (wp, some (sentinel pool_closed)) else elim ctx [
      | nil_context ↦ (wp, some (wrapped pool_invalid_job))
      | context_with done ↦ elim (validate_job job) [
        | err e ↦ (wp, some (wrap pool_invalid_job e))
        | ok u ↦ elim done [
          | none ↦
              if ltb (length wp.job_queue) wp.queue_size
              then queued
              else (wp, some (sentinel pool_job_queue_full))
          | some e ↦
              if ltb (length wp.job_queue) wp.queue_size && not prefers_done
              then queued
              else (wp, some (wrap pool_context_cancelled e))
        ]
      ]
    ]

-- The loop of `SubmitBatch`, with the name and the time that each job would get.
pub submit_jobs : WorkerPool → List (Job × String × ℕ) → WorkerPool × List (Option GoError)
unfolding submit
submit_jobs wp [] = (wp, [])
submit_jobs wp ((job, fresh, now) ∷ jobs) =
    let (wp', e) = submit wp job fresh now in
    let (done, es) = submit_jobs wp' jobs in (done, e ∷ es)

any_error : List (Option GoError) → Option GoError
any_error [] = none
any_error (none ∷ es) = any_error es
any_error (some e ∷ es) = some (wrapped pool_invalid_job)

pub submit_batch :
    WorkerPool → List (Job × String × ℕ) → WorkerPool × List (Option GoError) × Option GoError
unfolding submit_jobs any_error
submit_batch wp jobs =
    if wp.closed == 1
    then (wp, [], some (sentinel pool_closed))
    else if length jobs == 0
    then (wp, [], some (wrapped pool_invalid_job))
    else let (done, es) = submit_jobs wp jobs in (done, es, any_error es)

-- `prefers_done` is the choice of the `select` when there is a result and the pool is closed.
pub get_result : WorkerPool → Bool → WorkerPool × Result JobResult
get_result wp prefers_done = elim wp.job_results [
  | [] ↦ (wp, err (sentinel (if wp.cancelled then pool_closed else pool_no_results_available)))
  | r ∷ rs ↦
      if wp.cancelled && prefers_done
      then (wp, err (sentinel pool_closed))
      else (record wp { job_results = rs }, ok r)
]

-- What the wait of `GetResultWithTimeout` sees first.
pub data ResultWait : Type 0 where
  result_arrives timeout_passes pool_closes : ResultWait

-- `none` where the wait cannot end so in this state.
pub get_result_with_timeout : WorkerPool → ℤ → ResultWait → Option (WorkerPool × Result JobResult)
get_result_with_timeout wp timeout wait =
    if leb_ℤ timeout (pos 0) then some (wp, err (wrapped pool_timeout)) else elim wait [
      | result_arrives ↦ elim wp.job_results [
        | [] ↦ none
        | r ∷ rs ↦ some (record wp { job_results = rs }, ok r)
      ]
      | timeout_passes ↦ some (wp, err (sentinel pool_timeout))
      | pool_closes ↦ if wp.cancelled then some (wp, err (sentinel pool_closed)) else none
    ]

-- One round of `processJobResults`.
pub process_job_result : WorkerPool → Option WorkerPool
process_job_result wp = elim wp.job_results [
  | [] ↦ none
  | r ∷ rs ↦
      let s = wp.stats in
      let counted = record s {
        queued_jobs = decr s.queued_jobs;
        total_job_time = word (s.total_job_time + r.duration);
      } in
      some (record wp {
        job_results = rs;
        stats = elim r.error [
          | none ↦ record counted { completed_jobs = incr s.completed_jobs }
          | some e ↦ record counted { failed_jobs = incr s.failed_jobs }
        ];
      })
]
