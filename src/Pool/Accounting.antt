-- ===== src/Pool/Accounting.antt =====
-- Where the accepted jobs are, and what the statistics say of them.
use go_patternx.Pool.Events.{
  History, if_takes, run, step, begin, Event, submits, moves, fetches, scales_up, scales_down,
  processes, closes, submits_with_context, awaits, ticks,
}
use go_patternx.Pool.{
  Phase, WorkerPool, Worker, working, sending, gone_unsent, submit, process_job_result, get_result,
  ok, submit_with_context, get_result_with_timeout,
}
use go_patternx.Pool.Scaling.{
  add_worker, add_workers, begin_close, scale_down, scale_up, pool_of, min_of, new_worker, drop,
  new_pool, start, empty,
}
use go_patternx.Pool.Workers.{advance, Move, runs, enters, takes, sends, comes_back, leaves, move}
use go_patternx.Base.{
  arith, ℕ, ℤ, ◌≡◌, length, suc, ◌+◌, pos_part, some, ◌-◌, zero, ◌≤◌, word, length-append, List,
  ◌∷◌, [], Option-cases, inl, inr, set,
}
use go_patternx.Pool.Counting.{
  total, total-append, total-stop_all, move_parts, total-set, total-empty,
}
use go_patternx.Pool.Config.{ConfigPool}
use go_patternx.Pool.AutoScale.{auto_scale_keeps}

-- Whether the goroutine holds a job whose result has not reached `jobResults`.
abbrev pub carries : Phase → ℕ
carries (working j) = 1
carries (sending r) = 1
carries gone_unsent = 1
carries _ = 0

pub record Accounts (h : History) : Type 0 where
  -- An accepted job waits, is held by a worker, waits as a result, or was received.
  pub conserved :
      h.accepted
      ≡ length h.pool.job_queue
        + total carries h.pool.made
        + length h.pool.job_results
        + h.processed
        + h.fetched
  pub queue_max : length h.pool.job_queue ≤ h.pool.queue_size
  pub results_max : length h.pool.job_results ≤ h.pool.queue_size
  -- `QueuedJobs` goes down for the results that the pool itself receives, and for no others.
  pub queued : h.pool.stats.queued_jobs ≡ word (h.accepted - h.processed)
  pub received : h.processed ≤ h.accepted
  pub ended : word (h.pool.stats.completed_jobs + h.pool.stats.failed_jobs) ≡ word h.processed
  pub active : h.pool.stats.active_workers ≡ word (total carries h.pool.made)

record Same (wp wp' : WorkerPool) : Type 0 where
  queue_same : wp'.job_queue ≡ wp.job_queue
  results_same : wp'.job_results ≡ wp.job_results
  size_same : wp'.queue_size ≡ wp.queue_size
  queued_same : wp'.stats.queued_jobs ≡ wp.stats.queued_jobs
  completed_same : wp'.stats.completed_jobs ≡ wp.stats.completed_jobs
  failed_same : wp'.stats.failed_jobs ≡ wp.stats.failed_jobs
  active_same : wp'.stats.active_workers ≡ wp.stats.active_workers
  carries_same : total carries wp'.made ≡ total carries wp.made

Same-Accounts :
    (h : History) (wp : WorkerPool)
    → Same h.pool wp
    → Accounts h
    → Accounts (record h { pool = wp })
Same-Accounts h wp s a = ground arith

add_worker-Same : (id : ℕ) (wp : WorkerPool) → Same wp (add_worker wp id)
unfolding add_worker
add_worker-Same id wp = ground (arith, total-append carries wp.made (new_worker id))

add_workers-Same : (n id : ℕ) (wp : WorkerPool) → Same wp (add_workers n id wp)
unfolding add_workers
add_workers-Same zero id wp = ground arith
add_workers-Same (suc n) id wp = ground (
  arith,
  total-append carries wp.made (new_worker id),
  add_worker-Same id wp,
  add_workers-Same n (id + 1) (add_worker wp id),
)

scale_up-Same : (wp : WorkerPool) (count : ℤ) (now : ℕ) → Same wp (pool_of (scale_up wp count now))
unfolding scale_up
scale_up-Same wp count now = ground (
  arith,
  add_workers-Same (min_of (pos_part count) (wp.max_workers - length wp.workers))
      (length wp.workers) wp,
)

scale_down-Same :
    (wp : WorkerPool) (count : ℤ) (now : ℕ) → Same wp (pool_of (scale_down wp count now))
unfolding scale_down
scale_down-Same wp count now =
    let current = length wp.workers in
    let fewer = min_of (pos_part count) (current - wp.min_workers) in
    ground (arith, total-stop_all carries (drop (current - fewer) wp.workers) wp.made)

begin_close-Same : (wp : WorkerPool) → Same wp (pool_of (begin_close wp))
unfolding begin_close
begin_close-Same wp = ground (arith, total-stop_all carries wp.workers wp.made)

record Advanced (wp wp' : WorkerPool) (w v : Worker) (m : Move) : Type 0 where
  queue_moved : length wp'.job_queue + if_takes m ≡ length wp.job_queue
  carried :
      carries v.phase + length wp'.job_results
      ≡ carries w.phase + length wp.job_results + if_takes m
  results_fit : length wp.job_results ≤ wp.queue_size → length wp'.job_results ≤ wp.queue_size
  size_kept : wp'.queue_size ≡ wp.queue_size
  queued_kept : wp'.stats.queued_jobs ≡ wp.stats.queued_jobs
  completed_kept : wp'.stats.completed_jobs ≡ wp.stats.completed_jobs
  failed_kept : wp'.stats.failed_jobs ≡ wp.stats.failed_jobs
  active_moved :
      (t t' : ℕ)
      → wp.stats.active_workers ≡ word t
      → t' + carries w.phase ≡ t + carries v.phase
      → wp'.stats.active_workers ≡ word t'

advance-Advanced :
    (wp wp' : WorkerPool) (w v : Worker) (m : Move)
    → advance wp w m ≡ some (v, wp')
    → Advanced wp wp' w v m
unfolding advance
advance-Advanced wp wp' w v enters h = ground arith
advance-Advanced wp wp' w v takes h = ground arith
advance-Advanced wp wp' w v sends h = grind (arith, length-append {0})
advance-Advanced wp wp' w v comes_back h = ground arith
advance-Advanced wp wp' w v leaves h = ground arith
advance-Advanced wp wp' w v (runs x) h = ground arith

move-Accounts :
    (h : History) (wp : WorkerPool) (k : ℕ) (m : Move)
    → move h.pool k m ≡ some wp
    → Accounts h
    → Accounts (record h { pool = wp; taken = h.taken + if_takes m })
move-Accounts h wp k m goes a =
    let (w, v, done, found, moved, same) = move_parts h.pool wp k m goes in
    let advanced = advance-Advanced h.pool done w v m moved in
    let shifted = total-set carries h.pool.made k w v found in
    rw same (
      ground (
        arith,
        advanced,
        shifted,
        advanced.active_moved (total carries h.pool.made) (total carries (set h.pool.made k v))
            a.active shifted,
      ))

step-Accounts : (h : History) (e : Event) → Accounts h → Accounts (step h e)
unfolding step submit submit_with_context process_job_result get_result get_result_with_timeout
step-Accounts h (submits job fresh now) a = grind (arith, length-append {0})
step-Accounts h (submits_with_context ctx prefers_done job fresh now) a =
    grind (arith, length-append {0})
step-Accounts h (moves k m) a = elim (Option-cases (move h.pool k m)) [
  | inl stays ↦ ground arith
  | inr (wp, goes) ↦ ground (arith, move-Accounts h wp k m goes a)
]
step-Accounts h processes a = ground arith
step-Accounts h (fetches prefers_done) a = ground arith
step-Accounts h (awaits timeout wait) a = ground arith
step-Accounts h (scales_up count now) a =
    Same-Accounts h (pool_of (scale_up h.pool count now)) (scale_up-Same h.pool count now) a
step-Accounts h (scales_down count now) a =
    Same-Accounts h (pool_of (scale_down h.pool count now)) (scale_down-Same h.pool count now) a
step-Accounts h (ticks c up_ready down_ready now) a =
    auto_scale_keeps (λ wp. Accounts (record h { pool = wp }))
      (λ wp count t.
        Same-Accounts (record h { pool = wp }) (pool_of (scale_up wp count t))
          (scale_up-Same wp count t))
      (λ wp count t.
        Same-Accounts (record h { pool = wp }) (pool_of (scale_down wp count t))
          (scale_down-Same wp count t))
      c h.pool up_ready down_ready now a
step-Accounts h closes a =
    Same-Accounts h (pool_of (begin_close h.pool)) (begin_close-Same h.pool) a

run-Accounts_from : (h : History) (es : List Event) → Accounts h → Accounts (run h es)
unfolding run
run-Accounts_from h [] a = a
run-Accounts_from h (e ∷ es) a = run-Accounts_from (step h e) es (step-Accounts h e a)

empty-Accounts : (c : ConfigPool) → Accounts (begin (empty c))
empty-Accounts c = ground (arith, total-empty carries)

start-Accounts : (c : ConfigPool) → Accounts (begin (start c))
unfolding start
start-Accounts c =
    Same-Accounts (begin (empty c)) (start c)
      (add_workers-Same (pos_part c.min_workers) 0 (empty c)) (empty-Accounts c)

-- Whatever is done with a new pool, in whatever order: the jobs that were accepted are as many as
-- those that wait in the queue, those that a worker holds (one that left with an unsent result
-- too), the results that wait, and the results that were received, by the pool itself or by a
-- caller. The two channels keep within their size, `CompletedJobs` and `FailedJobs` together count,
-- modulo 2^64, what the pool received, `ActiveWorkers` counts the workers that hold a job, and
-- `QueuedJobs` is the accepted jobs less the results that the pool received, so that it never goes
-- down for a result that a caller received.
pub run-Accounts :
    (c : ConfigPool) (wp : WorkerPool) (es : List Event)
    → new_pool c ≡ ok wp
    → Accounts (run (begin wp) es)
unfolding new_pool
run-Accounts c wp es h =
    let made : wp ≡ start c = ground arith in
    rw made (run-Accounts_from (begin (start c)) es (start-Accounts c))
