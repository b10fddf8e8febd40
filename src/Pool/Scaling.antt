-- ===== src/Pool/Scaling.antt =====
-- pool.go: how many workers there are: `initializeWorkers`, `ScaleUp`, `ScaleDown`, `autoScale`,
-- and the end by `Close`.
use go_patternx.Pool.Config.{ConfigPool, validate_config}
use go_patternx.Base.{
  List, ℕ, ◌++◌, Option, [], if◌then◌else◌, pos_part, suc, ℤ, ◌+◌, ltb, none, ◌∷◌, ◌==◌, false,
  incr, length, zero, ◌-◌, true, leb_ℤ, some, pos, leb, word, ◌^◌,
}
use go_patternx.Pool.{WorkerPool, Result, Worker, GoError, at_top}
use go_patternx.Pool.Workers.{stop}
use go_patternx.Errors.{
  ◌>>◌, map_err, wrap, pool_invalid_config_pool, text, ok, wrapped, pool_scaling_failed,
}

abbrev pub new_worker : ℕ → Worker
new_worker id = record {
  id = id;
  stats = record {
    jobs_processed = 0;
    jobs_failed = 0;
    total_job_time = 0;
    last_job_time = none;
    panic_count = 0;
  };
  active = 0;
  stopped = 0;
  stop_signal = false;
  phase = at_top;
}

-- `createWorker` and the `append` to the slice.
create_worker : WorkerPool → ℕ → WorkerPool
create_worker wp id = record wp {
  made = wp.made ++ new_worker id ∷ [];
  workers = wp.workers ++ length wp.made ∷ [];
}

-- The same with the send to `workerPool` and the counts.
unfoldable pub add_worker : WorkerPool → ℕ → WorkerPool
unfolding create_worker
add_worker wp id =
    let made = create_worker wp id in
    record made {
      worker_pool = made.worker_pool + 1;
      stats = record (made.stats) {
        total_workers = incr made.stats.total_workers;
        idle_workers = incr made.stats.idle_workers;
      };
    }

-- `n` rounds of the loops that add workers: a worker is made, and is sent to `workerPool`. The
-- sender waits for ever where that is full, since nothing receives from it.
unfoldable pub add_workers : ℕ → ℕ → WorkerPool → WorkerPool
unfolding create_worker
add_workers zero id wp = wp
add_workers (suc n) id wp =
    let rest = add_workers n (id + 1) (add_worker wp id) in
    if ltb wp.worker_pool wp.max_workers
    then rest
    else record (create_worker wp id) { stuck = true }

abbrev pub empty : ConfigPool → WorkerPool
empty c = record {
  min_workers = pos_part c.min_workers;
  max_workers = pos_part c.max_workers;
  queue_size = pos_part c.queue_size;
  made = [];
  workers = [];
  worker_pool = 0;
  job_queue = [];
  job_results = [];
  stats = record {
    active_workers = 0;
    idle_workers = 0;
    total_workers = 0;
    queued_jobs = 0;
    completed_jobs = 0;
    failed_jobs = 0;
    total_job_time = 0;
    scale_up_count = 0;
    scale_down_count = 0;
    last_scale_up = none;
    last_scale_down = none;
  };
  cancelled = false;
  closed = 0;
  stuck = false;
}

unfoldable pub start : ConfigPool → WorkerPool
unfolding add_workers add_worker
start c = add_workers (pos_part c.min_workers) 0 (empty c)

unfoldable pub new_pool : ConfigPool → Result WorkerPool
unfolding start
new_pool c = do map_err (wrap pool_invalid_config_pool) (validate_config c); ok (start c)

abbrev pub min_of : ℕ → ℕ → ℕ
min_of a b = if ltb b a then b else a

-- A call that returns, or that waits for ever: for room in `workerPool`, or for `mu`, which the
-- former holds.
pub data CallEnd : Type 0 where
  returned : WorkerPool → Option GoError → CallEnd
  blocked : WorkerPool → CallEnd

unfoldable pub scale_up : WorkerPool → ℤ → ℕ → CallEnd
scale_up wp count now =
    let current = length wp.workers in
    let scaled = add_workers (min_of (pos_part count) (wp.max_workers - current)) current wp in
    if leb_ℤ count (pos 0)
    then returned wp (some (wrapped pool_scaling_failed))
    else if wp.stuck
    then blocked wp
    else if leb wp.max_workers current
    then returned wp (some (wrapped pool_scaling_failed))
    else if scaled.stuck
    then blocked scaled
    else returned
        (record scaled {
          stats = record (scaled.stats) {
            scale_up_count = incr scaled.stats.scale_up_count;
            last_scale_up = some now;
          };
        })
        none

unfoldable pub stop_at : List Worker → ℕ → List Worker
unfolding stop
stop_at [] i = []
stop_at (w ∷ ws) zero = stop w ∷ ws
stop_at (w ∷ ws) (suc i) = w ∷ stop_at ws i

unfoldable pub stop_all : List ℕ → List Worker → List Worker
unfolding stop_at
stop_all [] ws = ws
stop_all (i ∷ is) ws = stop_all is (stop_at ws i)

unfoldable pub take : ℕ → List ℕ → List ℕ
take zero xs = []
take (suc n) [] = []
take (suc n) (x ∷ xs) = x ∷ take n xs

unfoldable pub drop : ℕ → List ℕ → List ℕ
drop zero xs = xs
drop (suc n) [] = []
drop (suc n) (x ∷ xs) = drop n xs

unfoldable pub scale_down : WorkerPool → ℤ → ℕ → CallEnd
unfolding stop_all take drop
scale_down wp count now =
    let current = length wp.workers in
    let fewer = min_of (pos_part count) (current - wp.min_workers) in
    let s = wp.stats in
    if leb_ℤ count (pos 0)
    then returned wp (some (wrapped pool_scaling_failed))
    else if wp.stuck
    then blocked wp
    else if leb current wp.min_workers
    then returned wp (some (wrapped pool_scaling_failed))
    else returned
        (record wp {
          made = stop_all (drop (current - fewer) wp.workers) wp.made;
          workers = take (current - fewer) wp.workers;
          stats = record s {
            total_workers = word (s.total_workers + (2 ^ 64 - fewer));
            idle_workers = word (s.idle_workers + (2 ^ 64 - fewer));
            scale_down_count = incr s.scale_down_count;
            last_scale_down = some now;
          };
        })
        none

-- `Close` up to the wait for the workers. It takes `mu` as a reader before it stops them.
unfoldable pub begin_close : WorkerPool → CallEnd
unfolding stop_all
begin_close wp =
    let closing = record wp { closed = 1; cancelled = true } in
    if wp.closed == 0
    then (if wp.stuck
        then blocked closing
        else returned (record closing { made = stop_all wp.workers wp.made }) none)
    else returned wp (some (text "worker pool already closed"))

abbrev pub pool_of : CallEnd → WorkerPool
pool_of (returned wp e) = wp
pool_of (blocked wp) = wp
