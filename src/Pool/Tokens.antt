-- ===== src/Pool/Tokens.antt =====
-- `workerPool` only ever fills up: what that does to the jobs that a pool can take.
use go_patternx.Base.{
  Bool, ℕ, ◌≤◌, ◌+◌, arith, true, ◌≡◌, false, length, some, suc, zero, length-append, ◌<◌,
  length-set, ◌∷◌, [], List, ℤ, pos_part, ◌-◌, Option-cases, inl, inr, refl,
}
use go_patternx.Pool.{
  Phase, WorkerPool, working, sending, returning, gone_unsent, gone_unreturned, Worker, submit,
  process_job_result, get_result, ok, submit_with_context, get_result_with_timeout,
}
use go_patternx.Pool.Scaling.{
  add_workers, add_worker, new_worker, begin_close, scale_down, scale_up, start, pool_of, stop_all,
  min_of, drop, empty, new_pool,
}
use go_patternx.Pool.Workers.{move, Move, runs, enters, takes, sends, comes_back, leaves, advance}
use go_patternx.Pool.Events.{
  if_takes, run, step, History, Event, submits, moves, fetches, scales_up, scales_down, processes,
  closes, begin, submits_with_context, awaits, ticks,
}
use go_patternx.Pool.Counting.{
  total, total-append, total-set, move_parts, total-stop_all, length-stop_all, total-empty,
  total-le,
}
use go_patternx.Pool.Config.{ConfigPool}
use go_patternx.Pool.AutoScale.{auto_scale_keeps}

-- Whether the goroutine holds a job that it has not come back from.
abbrev pub busy : Phase → ℕ
busy (working j) = 1
busy (sending r) = 1
busy returning = 1
busy gone_unsent = 1
busy gone_unreturned = 1
busy _ = 0

busy-le : (p : Phase) → busy p ≤ 1
busy-le p = ground arith

abbrev pub if_true : Bool → ℕ
if_true true = 1
if_true false = 0

module _ (limit : ℕ) where
  pub record TokenInv (wp : WorkerPool) (taken : ℕ) : Type 0 where
    -- Each worker that was made, and each return of one, has put an entry into `workerPool`, except
    -- for the one whose maker waits.
    pub entries : taken + length wp.made ≡ wp.worker_pool + if_true wp.stuck + total busy wp.made
    pub entries_max : wp.worker_pool ≤ limit
    pub same_limit : wp.max_workers ≡ limit

  add_worker-TokenInv :
      (id : ℕ) (wp : WorkerPool) (taken : ℕ)
      → wp.stuck ≡ false
      → wp.worker_pool < wp.max_workers
      → TokenInv wp taken
      → TokenInv (add_worker wp id) taken × ((add_worker wp id).stuck ≡ false)
  unfolding add_worker
  add_worker-TokenInv id wp taken s r i =
      ground (
        arith,
        length-append wp.made (new_worker id ∷ []),
        total-append busy wp.made (new_worker id),
      )

  add_workers-TokenInv :
      (n id : ℕ) (wp : WorkerPool) (taken : ℕ)
      → wp.stuck ≡ false
      → TokenInv wp taken
      → TokenInv (add_workers n id wp) taken
  unfolding add_workers
  add_workers-TokenInv zero id wp taken s i = i
  add_workers-TokenInv (suc n) id wp taken s i = ground (
    arith,
    length-append wp.made (new_worker id ∷ []),
    total-append busy wp.made (new_worker id),
    add_worker-TokenInv id wp taken s,
    add_workers-TokenInv n (id + 1) (add_worker wp id) taken,
  )

  advance-busy :
      (wp wp' : WorkerPool) (w v : Worker) (m : Move)
      → advance wp w m ≡ some (v, wp')
      → (busy v.phase + wp'.worker_pool ≡ busy w.phase + wp.worker_pool + if_takes m)
        × (wp'.stuck ≡ wp.stuck)
        × (wp'.max_workers ≡ wp.max_workers)
        × (wp.worker_pool ≤ wp.max_workers → wp'.worker_pool ≤ wp.max_workers)
  unfolding advance
  advance-busy wp wp' w v enters h = ground arith
  advance-busy wp wp' w v takes h = ground arith
  advance-busy wp wp' w v sends h = ground arith
  advance-busy wp wp' w v comes_back h = ground arith
  advance-busy wp wp' w v leaves h = ground arith
  advance-busy wp wp' w v (runs x) h = ground arith

  move-TokenInv :
      (wp wp' : WorkerPool) (k : ℕ) (m : Move) (taken : ℕ)
      → move wp k m ≡ some wp'
      → TokenInv wp taken
      → TokenInv wp' (taken + if_takes m)
  move-TokenInv wp wp' k m taken h i =
      let (w, v, done, found, goes, same) = move_parts wp wp' k m h in
      rw same (
        ground (
          arith,
          advance-busy wp done w v m goes,
          length-set wp.made k v,
          total-set busy wp.made k w v found,
        ))

  -- The pool with the number of jobs that its workers have taken.
  TokenInv-up :
      (wp : WorkerPool) (count : ℤ) (now taken : ℕ)
      → TokenInv wp taken
      → TokenInv (pool_of (scale_up wp count now)) taken
  unfolding scale_up
  TokenInv-up wp count now taken i = ground (
    arith,
    add_workers-TokenInv (min_of (pos_part count) (wp.max_workers - length wp.workers))
        (length wp.workers) wp taken,
  )

  TokenInv-stop :
      (wp : WorkerPool) (is : List ℕ) (taken : ℕ)
      → TokenInv wp taken
      → TokenInv (record wp { made = stop_all is wp.made }) taken
  TokenInv-stop wp is taken i =
      omega (
        arith,
        i.entries,
        i.entries_max,
        total-stop_all busy is wp.made,
        length-stop_all is wp.made,
      )

  TokenInv-down :
      (wp : WorkerPool) (count : ℤ) (now taken : ℕ)
      → TokenInv wp taken
      → TokenInv (pool_of (scale_down wp count now)) taken
  unfolding scale_down
  TokenInv-down wp count now taken i =
      let current = length wp.workers in
      let fewer = min_of (pos_part count) (current - wp.min_workers) in
      ground (arith, TokenInv-stop wp (drop (current - fewer) wp.workers) taken i)

  TokenInv-close :
      (wp : WorkerPool) (taken : ℕ) → TokenInv wp taken → TokenInv (pool_of (begin_close wp)) taken
  unfolding begin_close
  TokenInv-close wp taken i = ground (arith, TokenInv-stop wp wp.workers taken i)

  step-TokenInv :
      (h : History) (e : Event)
      → TokenInv h.pool h.taken
      → TokenInv (step h e).pool (step h e).taken
  unfolding step submit submit_with_context process_job_result get_result get_result_with_timeout
  step-TokenInv h (submits job fresh now) i = ground arith
  step-TokenInv h (submits_with_context ctx prefers_done job fresh now) i = ground arith
  step-TokenInv h (moves k m) i = elim (Option-cases (move h.pool k m)) [
    | inl stays ↦ ground arith
    | inr (wp, goes) ↦ ground (arith, move-TokenInv h.pool wp k m h.taken goes i)
  ]
  step-TokenInv h processes i = ground arith
  step-TokenInv h (fetches prefers_done) i = ground arith
  step-TokenInv h (awaits timeout wait) i = ground arith
  step-TokenInv h (scales_up count now) i = TokenInv-up h.pool count now h.taken i
  step-TokenInv h (scales_down count now) i = TokenInv-down h.pool count now h.taken i
  step-TokenInv h (ticks c up_ready down_ready now) i =
      auto_scale_keeps (λ wp. TokenInv wp h.taken) (λ wp count t. TokenInv-up wp count t h.taken)
        (λ wp count t. TokenInv-down wp count t h.taken) c h.pool up_ready down_ready now i
  step-TokenInv h closes i = TokenInv-close h.pool h.taken i

  run-TokenInv :
      (h : History) (es : List Event)
      → TokenInv h.pool h.taken
      → TokenInv (run h es).pool (run h es).taken
  unfolding run
  run-TokenInv h [] i = i
  run-TokenInv h (e ∷ es) i = run-TokenInv (step h e) es (step-TokenInv h e i)

empty-TokenInv : (c : ConfigPool) → TokenInv (pos_part c.max_workers) (empty c) 0
empty-TokenInv c = ground (arith, total-empty busy)

start-TokenInv : (c : ConfigPool) → TokenInv (pos_part c.max_workers) (start c) 0
unfolding start
start-TokenInv c =
    add_workers-TokenInv (pos_part c.max_workers) (pos_part c.min_workers) 0 (empty c) 0 refl
      (empty-TokenInv c)

taken_max : (limit : ℕ) (wp : WorkerPool) (taken : ℕ) → TokenInv limit wp taken → taken ≤ limit + 1
taken_max limit wp taken i = ground (arith, total-le busy busy-le wp.made)

-- A pool wears out: since nothing receives from `workerPool`, in its whole life, whatever is
-- submitted and however it is scaled, its workers take at most `MaxWorkers` + 1 jobs.
pub run-taken :
    (c : ConfigPool) (wp : WorkerPool) (es : List Event)
    → new_pool c ≡ ok wp
    → (run (begin wp) es).taken ≤ pos_part c.max_workers + 1
unfolding new_pool
run-taken c wp es h =
    let i = run-TokenInv (pos_part c.max_workers) (begin (start c)) es (start-TokenInv c) in
    let made : wp ≡ start c = ground arith in
    rw made (
      taken_max (pos_part c.max_workers) (run (begin (start c)) es).pool
        (run (begin (start c)) es).taken i)
