-- ===== src/Pool/Workforce.antt =====
-- How many workers the slice of a pool has, and what the statistics say of it.
use go_patternx.Pool.Scaling.{
  take, add_workers, begin_close, scale_down, scale_up, add_worker, pool_of, min_of, new_pool,
  start, empty,
}
use go_patternx.Base.{
  ℕ, List, ◌≤◌, length, ℤ, ◌≡◌, ◌+◌, arith, false, some, suc, pos_part, word, ◌∷◌, ◌-◌, [],
  length-append, zero, refl, Option-cases, inl, inr,
}
use go_patternx.Pool.{
  WorkerPool, Worker, submit, process_job_result, get_result, ok, submit_with_context,
  get_result_with_timeout,
}
use go_patternx.Pool.Workers.{advance, Move, move, runs, enters, takes, sends, comes_back, leaves}
use go_patternx.Pool.Events.{
  run, step, History, Event, submits, moves, fetches, scales_up, scales_down, processes, closes,
  begin, submits_with_context, awaits, ticks,
}
use go_patternx.Pool.Tokens.{if_true}
use go_patternx.Pool.Counting.{move_parts}
use go_patternx.Pool.Config.{ConfigPool, InRange, validate_config, validate_config-InRange}
use go_patternx.Pool.AutoScale.{auto_scale_keeps}

length-take : (n : ℕ) (xs : List ℕ) → n ≤ length xs → length (take n xs) ≡ n
unfolding take
length-take zero xs h = refl
length-take (suc n) [] h = ground arith
length-take (suc n) (x ∷ xs) h = omega (arith, length-take n xs)

pub record Sized (least most : ℕ) (wp : WorkerPool) : Type 0 where
  pub least_kept : wp.min_workers ≡ least
  pub most_kept : wp.max_workers ≡ most
  pub at_least : least ≤ length wp.workers
  pub at_most : length wp.workers ≤ most
  -- `TotalWorkers` leaves out the worker that waits to be put into `workerPool`.
  pub counted : wp.stats.total_workers + if_true wp.stuck ≡ length wp.workers
  pub split : word (wp.stats.active_workers + wp.stats.idle_workers) ≡ wp.stats.total_workers

-- What `n` rounds of adding workers do, of which the last may wait.
record Grown (n : ℕ) (wp wp' : WorkerPool) : Type 0 where
  least_same : wp'.min_workers ≡ wp.min_workers
  most_same : wp'.max_workers ≡ wp.max_workers
  bigger : length wp.workers ≤ length wp'.workers
  no_more : length wp'.workers ≤ length wp.workers + n
  all : wp'.stuck ≡ false → length wp'.workers ≡ length wp.workers + n
  room : wp.worker_pool + n ≤ wp.max_workers → wp'.stuck ≡ false
  counts : wp'.stats.total_workers + if_true wp'.stuck ≡ length wp'.workers
  splits : word (wp'.stats.active_workers + wp'.stats.idle_workers) ≡ wp'.stats.total_workers

add_workers-Grown :
    (n id : ℕ) (wp : WorkerPool)
    → wp.stuck ≡ false
    → length wp.workers + n ≤ 1000
    → wp.stats.total_workers ≡ length wp.workers
    → word (wp.stats.active_workers + wp.stats.idle_workers) ≡ wp.stats.total_workers
    → Grown n wp (add_workers n id wp)
unfolding add_workers add_worker
add_workers-Grown zero id wp s b c d = ground arith
add_workers-Grown (suc n) id wp s b c d = ground (
  arith,
  length-append wp.workers (length wp.made ∷ []),
  add_workers-Grown n (id + 1) (add_worker wp id),
)

module _ (least most : ℕ) (few : most ≤ 1000) where
  Sized-up :
      (wp : WorkerPool) (count : ℤ) (now : ℕ)
      → Sized least most wp
      → Sized least most (pool_of (scale_up wp count now))
  unfolding scale_up
  Sized-up wp count now z = ground (
    arith,
    add_workers-Grown (min_of (pos_part count) (wp.max_workers - length wp.workers))
        (length wp.workers) wp,
  )

  Sized-down :
      (wp : WorkerPool) (count : ℤ) (now : ℕ)
      → Sized least most wp
      → Sized least most (pool_of (scale_down wp count now))
  unfolding scale_down
  Sized-down wp count now z =
      let current = length wp.workers in
      let fewer = min_of (pos_part count) (current - wp.min_workers) in
      ground (arith, length-take (current - fewer) wp.workers)

  Sized-close :
      (wp : WorkerPool) → Sized least most wp → Sized least most (pool_of (begin_close wp))
  unfolding begin_close
  Sized-close wp z = ground arith

  advance-Sized :
      (wp wp' : WorkerPool) (w v : Worker) (m : Move)
      → advance wp w m ≡ some (v, wp')
      → Sized least most wp
      → Sized least most wp'
  unfolding advance
  advance-Sized wp wp' w v enters h z = ground arith
  advance-Sized wp wp' w v takes h z = ground arith
  advance-Sized wp wp' w v sends h z = ground arith
  advance-Sized wp wp' w v comes_back h z = ground arith
  advance-Sized wp wp' w v leaves h z = ground arith
  advance-Sized wp wp' w v (runs x) h z = ground arith

  move-Sized :
      (wp wp' : WorkerPool) (k : ℕ) (m : Move)
      → move wp k m ≡ some wp'
      → Sized least most wp
      → Sized least most wp'
  move-Sized wp wp' k m h z =
      let (w, v, done, found, goes, same) = move_parts wp wp' k m h in
      rw same (ground (arith, advance-Sized wp done w v m goes z))

  step-Sized :
      (h : History) (e : Event) → Sized least most h.pool → Sized least most (step h e).pool
  unfolding step submit submit_with_context process_job_result get_result get_result_with_timeout
  step-Sized h (submits job fresh now) z = ground arith
  step-Sized h (submits_with_context ctx prefers_done job fresh now) z = ground arith
  step-Sized h (moves k m) z = elim (Option-cases (move h.pool k m)) [
    | inl stays ↦ ground arith
    | inr (wp, goes) ↦ ground (arith, move-Sized h.pool wp k m goes z)
  ]
  step-Sized h processes z = ground arith
  step-Sized h (fetches prefers_done) z = ground arith
  step-Sized h (awaits timeout wait) z = ground arith
  step-Sized h (scales_up count now) z = Sized-up h.pool count now z
  step-Sized h (scales_down count now) z = Sized-down h.pool count now z
  step-Sized h (ticks c up_ready down_ready now) z =
      auto_scale_keeps (λ wp. Sized least most wp) Sized-up Sized-down c h.pool up_ready down_ready
        now z
  step-Sized h closes z = Sized-close h.pool z

  run-Sized_from :
      (h : History) (es : List Event) → Sized least most h.pool → Sized least most (run h es).pool
  unfolding run
  run-Sized_from h [] z = z
  run-Sized_from h (e ∷ es) z = run-Sized_from (step h e) es (step-Sized h e z)

empty_grows : (c : ConfigPool) → InRange c → Grown (pos_part c.min_workers) (empty c) (start c)
unfolding start
empty_grows c r = ground (arith, add_workers-Grown (pos_part c.min_workers) 0 (empty c))

-- The slice of workers of a new pool never has fewer than `MinWorkers` nor more than `MaxWorkers`
-- workers, whatever is done with the pool. `TotalWorkers` is its length, but for a worker that
-- waits for room in `workerPool`, and `ActiveWorkers` and `IdleWorkers` add up to it
-- modulo 2^64.
pub run-Sized :
    (c : ConfigPool) (wp : WorkerPool) (es : List Event)
    → new_pool c ≡ ok wp
    → Sized (pos_part c.min_workers) (pos_part c.max_workers) (run (begin wp) es).pool
unfolding new_pool
run-Sized c wp es h =
    let made : wp ≡ start c = ground arith in
    let valid : validate_config c ≡ ok tt = ground arith in
    let r = validate_config-InRange c valid in
    let few : pos_part c.max_workers ≤ 1000 = ground arith in
    rw made (
      run-Sized_from (pos_part c.min_workers) (pos_part c.max_workers) few (begin (start c)) es
        (ground (arith, empty_grows c r)))
