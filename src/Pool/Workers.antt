-- ===== src/Pool/Workers.antt =====
-- worker.go: the loop of a worker, from its place in the `select` to the return to the pool.
use go_patternx.Base.{
  Option, true, ℕ, get_elem?, incr, none, set, some, if◌then◌else◌, word, ◌+◌, ltb, length, ◌++◌,
  ◌==◌, ◌∷◌, [], decr, ◌||◌, ◌&&◌,
}
use go_patternx.Pool.{
  Worker, WorkerPool, WorkerStats, GoError, Job, JobResult, sending, working, text, returning,
  at_top, gone, selecting, gone_unsent, gone_unreturned,
}
use go_patternx.Errors.{annotate}

-- How the task's goroutine and the context race: the task returns or panics, or the context ends,
-- by its deadline or otherwise. A panic after that, which only `PanicCount` shows, is left out.
pub data TaskEnd : Type 0 where
  returns : Option ℕ → Option GoError → TaskEnd
  panics : TaskEnd
  deadline_exceeded : GoError → TaskEnd
  context_ends : GoError → TaskEnd

-- `ctx.Err()` before the task starts, the end, the time taken, and the clock after it.
pub record Execution : Type 0 where
  pub cancelled_before : Option GoError
  pub ended : TaskEnd
  pub duration : ℕ
  pub now : ℕ

execute_job : WorkerStats → Execution → WorkerStats × Option ℕ × Option GoError
execute_job s x = elim x.cancelled_before [
  | some e ↦ (s, none, some (annotate "context cancelled before execution" e))
  | none ↦ elim x.ended [
    | returns v e ↦ (s, v, e)
    | panics ↦ (record s { panic_count = incr s.panic_count }, none, some (text "job panicked"))
    | deadline_exceeded e ↦ (s, none, some (annotate "job execution timeout" e))
    | context_ends e ↦ (s, none, some (annotate "context cancelled" e))
  ]
]

update_job_stats : WorkerStats → JobResult → ℕ → WorkerStats
update_job_stats s r now = record s {
  jobs_processed = incr s.jobs_processed;
  jobs_failed = elim r.error [ none ↦ s.jobs_failed | some e ↦ incr s.jobs_failed ];
  total_job_time = word (s.total_job_time + r.duration);
  last_job_time = some now;
}

-- The worker's statistics and the result of a job.
unfoldable pub process_job : Worker → Job → Execution → WorkerStats × JobResult
unfolding execute_job update_job_stats
process_job w job x =
    let failed : JobResult = record {
      job_id = job.id;
      result = none;
      error = some (text "job task is nil");
      duration = x.duration;
      worker_id = w.id;
    } in
    let (s, v, e) = execute_job w.stats x in
    let done = record failed { result = v; error = e } in
    if job.has_task
    then (update_job_stats s done x.now, done)
    else (update_job_stats w.stats failed x.now, failed)

-- Each of the following is one step of a worker's goroutine: the worker and the pool after it, or
-- `none` where it stands elsewhere or is blocked.
enter_loop : WorkerPool → Worker → Option (Worker × WorkerPool)
enter_loop wp w = elim w.phase [
  | at_top ↦ some (record w { phase = if w.stopped == 1 then gone else selecting }, wp)
  | _ ↦ none
]

take_job : WorkerPool → Worker → Option (Worker × WorkerPool)
take_job wp w = elim w.phase [
  | selecting ↦ elim wp.job_queue [
    | [] ↦ none
    | job ∷ jobs ↦ some (
      record w { phase = working job; active = 1 },
      record wp {
        job_queue = jobs;
        stats = record (wp.stats) {
          active_workers = incr wp.stats.active_workers;
          idle_workers = decr wp.stats.idle_workers;
        };
      },
    )
  ]
  | _ ↦ none
]

run_job : WorkerPool → Worker → Execution → Option (Worker × WorkerPool)
unfolding process_job
run_job wp w x = elim w.phase [
  | working job ↦
      let (s, r) = process_job w job x in some (record w { phase = sending r; stats = s }, wp)
  | _ ↦ none
]

-- The send to `jobResults`, and the marking as idle.
send_result : WorkerPool → Worker → Option (Worker × WorkerPool)
send_result wp w = elim w.phase [
  | sending r ↦
      if ltb (length wp.job_results) wp.queue_size
      then some (
        record w { phase = returning; active = 0 },
        record wp {
          job_results = wp.job_results ++ r ∷ [];
          stats = record (wp.stats) {
            active_workers = decr wp.stats.active_workers;
            idle_workers = incr wp.stats.idle_workers;
          };
        },
      )
      else none
  | _ ↦ none
]

return_to_pool : WorkerPool → Worker → Option (Worker × WorkerPool)
return_to_pool wp w = elim w.phase [
  | returning ↦
      if ltb wp.worker_pool wp.max_workers
      then some (record w { phase = at_top }, record wp { worker_pool = wp.worker_pool + 1 })
      else none
  | _ ↦ none
]

-- The branches `<-w.stopChan` and `<-w.pool.ctx.Done()` of the three `select`s; where both are
-- ready, the latter.
leave : WorkerPool → Worker → Option (Worker × WorkerPool)
leave wp w = elim w.phase [
  | selecting ↦
      if wp.cancelled || w.stop_signal
      then some
          (record w { phase = gone; stopped = 1; stop_signal = w.stop_signal && wp.cancelled }, wp)
      else none
  | sending r ↦ if wp.cancelled then some (record w { phase = gone_unsent }, wp) else none
  | returning ↦ if wp.cancelled then some (record w { phase = gone_unreturned }, wp) else none
  | _ ↦ none
]

pub data Move : Type 0 where
  enters takes sends comes_back leaves : Move
  runs : Execution → Move

unfoldable pub advance : WorkerPool → Worker → Move → Option (Worker × WorkerPool)
unfolding enter_loop take_job run_job send_result return_to_pool leave
advance wp w enters = enter_loop wp w
advance wp w takes = take_job wp w
advance wp w (runs x) = run_job wp w x
advance wp w sends = send_result wp w
advance wp w comes_back = return_to_pool wp w
advance wp w leaves = leave wp w

-- A step of the goroutine of the `i`-th worker that was made.
unfoldable pub move : WorkerPool → ℕ → Move → Option WorkerPool
move wp i m = elim (get_elem? wp.made i) [
  | none ↦ none
  | some w ↦ elim (advance wp w m) [
    | none ↦ none
    | some (v, done) ↦ some (record done { made = set wp.made i v })
  ]
]

-- `stop`: the signal is kept if its slot is free.
unfoldable pub stop : Worker → Worker
stop w = record w { stopped = 1; stop_signal = true }
