-- ===== src/Pool/Submission.antt =====
-- What the calls that submit jobs do to the queue.
use go_patternx.Base.{
  List, Option, ℕ, length, some, ◌≡◌, ◌∷◌, ◌++◌, ◌<◌, arith, inl, [], inr, none, ◌≤◌, ◌∙◌, ◌⊎◌,
  Bool-cases, ap, ◌==◌, suc, length-append, ltb, ◌↔◌, ◌≢◌,
}
use go_patternx.Pool.{
  WorkerPool, submit, submit_jobs, Job, GoError, String, enqueue, set_job_defaults, validate_job,
  sentinel, pool_closed, any_error, submit_batch,
}
use mathlib.Core.List.{append_assoc, append-nil}
use go_patternx.Errors.{Result-cases, wrap, pool_invalid_job, pool_job_queue_full}

-- The jobs that were accepted, as they wait: those whose answer is no error.
unfoldable pub accepted_jobs : List (Job × String × ℕ) → List (Option GoError) → List Job
accepted_jobs [] es = []
accepted_jobs (j ∷ js) [] = []
accepted_jobs ((job, fresh, now) ∷ js) (none ∷ es) =
    set_job_defaults job fresh now ∷ accepted_jobs js es
accepted_jobs (j ∷ js) (some e ∷ es) = accepted_jobs js es

pub record Batch (before after : WorkerPool) (es : List (Option GoError))
    (jobs : List (Job × String × ℕ)) : Type 0 where
  pub queue : after.job_queue ≡ before.job_queue ++ accepted_jobs jobs es
  pub answers : length es ≡ length jobs
  pub fits : length before.job_queue ≤ before.queue_size → length after.job_queue ≤ after.queue_size
  pub size_kept : after.queue_size ≡ before.queue_size
  pub closed_kept : after.closed ≡ before.closed

enqueue-Batch :
    (wp after : WorkerPool) (job : Job) (fresh : String) (now : ℕ) (es : List (Option GoError))
    (jobs : List (Job × String × ℕ))
    → length wp.job_queue < wp.queue_size
    → Batch (enqueue wp (set_job_defaults job fresh now)) after es jobs
    → Batch wp after (none ∷ es) ((job, fresh, now) ∷ jobs)
unfolding accepted_jobs enqueue
enqueue-Batch wp after job fresh now es jobs room b = record {
  queue =
      b.queue
      ∙ append_assoc wp.job_queue (set_job_defaults job fresh now ∷ []) (accepted_jobs jobs es);
  answers = ap (suc) b.answers;
  fits = ground (arith, length-append wp.job_queue (set_job_defaults job fresh now ∷ []));
  size_kept = b.size_kept;
  closed_kept = b.closed_kept;
}

refuse-Batch :
    (wp after : WorkerPool) (job : Job × String × ℕ) (e : GoError) (es : List (Option GoError))
    (jobs : List (Job × String × ℕ))
    → Batch wp after es jobs
    → Batch wp after (some e ∷ es) (job ∷ jobs)
unfolding accepted_jobs
refuse-Batch wp after job e es jobs b = ground arith

submit-cases :
    (wp : WorkerPool) (job : Job) (fresh : String) (now : ℕ)
    → (submit wp job fresh now ≡ (enqueue wp (set_job_defaults job fresh now), none))
        × (length wp.job_queue < wp.queue_size)
      ⊎ (e : GoError) × (submit wp job fresh now ≡ (wp, some e))
unfolding submit
submit-cases wp job fresh now = elim (Bool-cases (wp.closed == 1)) [
  | inl shut ↦ inr (sentinel pool_closed, ground arith)
  | inr open_pool ↦ elim (Result-cases (validate_job job)) [
    | inr (e, bad) ↦ inr (wrap pool_invalid_job e, ground arith)
    | inl (u, good) ↦ elim (Bool-cases (ltb (length wp.job_queue) wp.queue_size)) [
      | inl room ↦ inl (ground arith, ground arith)
      | inr full ↦ inr (sentinel pool_job_queue_full, ground arith)
    ]
  ]
]

submit_jobs-Batch :
    (wp : WorkerPool) (jobs : List (Job × String × ℕ))
    → Batch wp (submit_jobs wp jobs).0 (submit_jobs wp jobs).1 jobs
unfolding submit_jobs accepted_jobs
submit_jobs-Batch wp [] = ground (arith, append-nil wp.job_queue)
submit_jobs-Batch wp ((job, fresh, now) ∷ jobs) = elim (submit-cases wp job fresh now) [
  | inl (goes, room) ↦ rw goes (
      enqueue-Batch wp (submit_jobs (enqueue wp (set_job_defaults job fresh now)) jobs).0 job fresh
        now (submit_jobs (enqueue wp (set_job_defaults job fresh now)) jobs).1 jobs room
        (submit_jobs-Batch (enqueue wp (set_job_defaults job fresh now)) jobs))
  | inr (e, fails) ↦ rw fails (
      refuse-Batch wp (submit_jobs wp jobs).0 (job, fresh, now) e (submit_jobs wp jobs).1 jobs
        (submit_jobs-Batch wp jobs))
]

none_exactly :
    (jobs : List (Job × String × ℕ)) (es : List (Option GoError))
    → length es ≡ length jobs
    → (length (accepted_jobs jobs es) ≤ length jobs)
      × ((any_error es ≡ none) ↔ (length (accepted_jobs jobs es) ≡ length jobs))
unfolding any_error accepted_jobs
none_exactly [] [] h = ground arith
none_exactly [] (e ∷ es) h = ground arith
none_exactly (j ∷ js) [] h = ground arith
none_exactly ((job, fresh, now) ∷ js) (none ∷ es) h = ground (arith, none_exactly js es)
none_exactly (j ∷ js) (some e ∷ es) h = ground (arith, none_exactly js es)

-- `SubmitBatch` on an open pool with a batch that is not empty: each job gets an answer, those after
-- a failure too; the accepted jobs stand at the end of the queue, in the order of the batch and
-- with their defaults; the queue keeps within its size if it did before; the pool stays open and
-- its size the same; and the batch has no error exactly when all its jobs were accepted.
pub submit_batch-Batch :
    (wp : WorkerPool) (jobs : List (Job × String × ℕ))
    → wp.closed ≢ 1
    → length jobs ≢ 0
    → Batch wp (submit_batch wp jobs).0 (submit_batch wp jobs).1 jobs
      × (((submit_batch wp jobs).2 ≡ none)
          ↔ (length (accepted_jobs jobs (submit_batch wp jobs).1) ≡ length jobs))
unfolding submit_batch
submit_batch-Batch wp jobs opened some_jobs =
    let b = submit_jobs-Batch wp jobs in
    ground (arith, b, none_exactly jobs (submit_jobs wp jobs).1 b.answers)
