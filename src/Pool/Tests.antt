-- ===== src/Pool/Tests.antt =====
-- A pool of one or two workers, from its making to its end.
use go_patternx.Pool.Accounting.{Accounts, run-Accounts}
use go_patternx.Pool.Submission.{Batch, accepted_jobs, submit_batch-Batch}
use go_patternx.Pool.Config.{ConfigPool, default_config, validate_config}
use go_patternx.Pool.Workers.{
  Execution, returns, enters, takes, runs, sends, comes_back, move, advance,
}
use go_patternx.Pool.{
  Job, WorkerPool, String, submit_batch, ok, process_job_result, submit, get_result,
}
use go_patternx.Base.{
  List, length, ◌≢◌, arith, false, none, true, ◌++◌, pos, ℕ, ◌≡◌, ◌≤◌, refl, some, ◌↔◌, ◌∷◌, [],
}
use go_patternx.Pool.Workforce.{Sized, run-Sized}
use go_patternx.Pool.Scaling.{
  new_pool, add_worker, empty, scale_up, add_workers, pool_of, scale_down,
}
use go_patternx.Pool.Events.{
  run, Event, begin, submits, moves, processes, fetches, scales_up, closes,
}
use go_patternx.Pool.Tokens.{run-taken}
use go_patternx.Pool.AutoScale.{auto_scale}

abbrev small_config : ConfigPool
small_config = record default_config {
  min_workers = pos 1;
  max_workers = pos 2;
  queue_size = pos 2;
}

abbrev one_worker : WorkerPool
one_worker = add_worker (empty small_config) 0

abbrev job : Job
job = record { id = "a"; has_task = true; timeout = pos 0; created = none }

abbrev bad_job : Job
bad_job = record job { has_task = false }

abbrev done : Execution
done = record { cancelled_before = none; ended = returns (some 7) none; duration = 3; now = 5 }

abbrev a_job : List Event
a_job =
    submits job "x" 0
    ∷ moves 0 enters
    ∷ moves 0 takes
    ∷ moves 0 (runs done)
    ∷ moves 0 sends
    ∷ moves 0 comes_back
    ∷ []

abbrev a_result : List Event
a_result =
    submits job "x" 0 ∷ a_job ++ processes ∷ fetches false ∷ scales_up (pos 1) 9 ∷ closes ∷ []

made : new_pool small_config ≡ ok one_worker
unfolding new_pool validate_config
made = refl

-- Three jobs, of which the second is the last that the worker takes: it never comes back from it.
worn_out : (run (begin one_worker) (a_job ++ a_job ++ a_job)).taken ≡ 2
unfolding run move submit add_worker advance
worn_out = refl

processed_before : (run (begin one_worker) a_result).fetched ≡ 0
unfolding run process_job_result move submit add_worker advance get_result
processed_before = refl

run-taken_example : (run (begin one_worker) a_result).taken ≤ 3
run-taken_example = run-taken small_config one_worker a_result made

run-Accounts_example : Accounts (run (begin one_worker) a_result)
run-Accounts_example = run-Accounts small_config one_worker a_result made

run-Sized_example : Sized 1 2 (run (begin one_worker) a_result).pool
run-Sized_example = run-Sized small_config one_worker a_result made

abbrev batch : List (Job × String × ℕ)
batch = (job, "x", 0) ∷ (bad_job, "y", 1) ∷ (job, "z", 2) ∷ []

open_pool : one_worker.closed ≢ 1
unfolding add_worker
open_pool = ground arith

not_empty : length batch ≢ 0
not_empty = ground arith

submit_batch-Batch_example :
    Batch one_worker (submit_batch one_worker batch).0 (submit_batch one_worker batch).1 batch
    × (((submit_batch one_worker batch).2 ≡ none)
        ↔ (length (accepted_jobs batch (submit_batch one_worker batch).1) ≡ 3))
submit_batch-Batch_example = submit_batch-Batch one_worker batch open_pool not_empty

abbrev loaded : WorkerPool
loaded = record one_worker { stats = record (one_worker.stats) { queued_jobs = 10 } }

-- Ten jobs wait: the tick would add two workers, and there is room for one.
ticked : length (pool_of (auto_scale small_config loaded true false 9)).workers ≡ 2
unfolding auto_scale scale_up add_workers add_worker
ticked = refl

-- With both cooldowns passed the same tick stops the new worker, which is idle.
ticked_twice : length (pool_of (auto_scale small_config loaded true true 9)).workers ≡ 1
unfolding auto_scale scale_up scale_down add_workers add_worker
ticked_twice = refl
