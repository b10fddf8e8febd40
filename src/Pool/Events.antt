-- ===== src/Pool/Events.antt =====
-- The calls on a pool and the steps of its goroutines, in any order.

use go_patternx.Pool.{
  Job, WorkerPool, submit, JobResult, String, process_job_result, get_result, submit_with_context,
  ResultWait, get_result_with_timeout,
}
use go_patternx.Base.{List, Option, ◌+◌, ℕ, ◌∷◌, Bool, some, none, ℤ, []}
use go_patternx.Pool.Workers.{Move, move, takes}
use go_patternx.Errors.{Result, GoError, ok, err, Context}
use go_patternx.Pool.Scaling.{pool_of, scale_up, scale_down, begin_close}
use go_patternx.Pool.Config.{ConfigPool}
use go_patternx.Pool.AutoScale.{auto_scale}

pub data Event : Type 0 where
  submits : Job → String → ℕ → Event
  submits_with_context : Context → Bool → Job → String → ℕ → Event
  moves : ℕ → Move → Event
  processes : Event
  fetches : Bool → Event
  awaits : ℤ → ResultWait → Event
  scales_up : ℤ → ℕ → Event
  scales_down : ℤ → ℕ → Event
  ticks : ConfigPool → Bool → Bool → ℕ → Event
  closes : Event

-- The pool, with what has happened so far: the jobs that were accepted and taken by a worker, and
-- the results that `processJobResults` and `GetResult` received.
pub record History : Type 0 where
  pub pool : WorkerPool
  pub accepted : ℕ
  pub taken : ℕ
  pub processed : ℕ
  pub fetched : ℕ

abbrev pub if_none : Option GoError → ℕ
if_none none = 1
if_none (some e) = 0

abbrev pub if_ok : Result JobResult → ℕ
if_ok (ok r) = 1
if_ok (err e) = 0

abbrev pub if_takes : Move → ℕ
if_takes takes = 1
if_takes _ = 0

-- A step that is not possible leaves all as it is.
unfoldable pub step : History → Event → History
step h (submits job fresh now) =
    let (wp, e) = submit h.pool job fresh now in
    record h { pool = wp; accepted = h.accepted + if_none e }
step h (submits_with_context ctx prefers_done job fresh now) =
    let (wp, e) = submit_with_context h.pool ctx prefers_done job fresh now in
    record h { pool = wp; accepted = h.accepted + if_none e }
step h (moves i m) = elim (move h.pool i m) [
  | none ↦ h
  | some wp ↦ record h { pool = wp; taken = h.taken + if_takes m }
]
step h processes = elim (process_job_result h.pool) [
  | none ↦ h
  | some wp ↦ record h { pool = wp; processed = h.processed + 1 }
]
step h (fetches prefers_done) =
    let (wp, r) = get_result h.pool prefers_done in
    record h { pool = wp; fetched = h.fetched + if_ok r }
step h (awaits timeout wait) = elim (get_result_with_timeout h.pool timeout wait) [
  | none ↦ h
  | some (wp, r) ↦ record h { pool = wp; fetched = h.fetched + if_ok r }
]
step h (scales_up count now) = record h { pool = pool_of (scale_up h.pool count now) }
step h (scales_down count now) = record h { pool = pool_of (scale_down h.pool count now) }
step h (ticks c up_ready down_ready now) = record h {
  pool = pool_of (auto_scale c h.pool up_ready down_ready now);
}
step h closes = record h { pool = pool_of (begin_close h.pool) }

unfoldable pub run : History → List Event → History
unfolding step
run h [] = h
run h (e ∷ es) = run (step h e) es

abbrev pub begin : WorkerPool → History
begin wp = record { pool = wp; accepted = 0; taken = 0; processed = 0; fetched = 0 }
