-- ===== src/Dlq/Conservation.antt =====
-- Where the operations that were added are, and what the metrics say of them.
use go_patternx.Dlq.{
  DeadLetterQueue, Place, Metrics, receiving, stopped, begin_add, finish_add, register_handler,
  clear_queue, begin_close, begin_probe, end_probe, ok,
}
use go_patternx.Dlq.Events.{
  History, run, step, Event, begin, finishes_add, begins_add, registers, moves, clears, closes,
  begins_probe, ends_probe,
}
use go_patternx.Base.{
  Option, ℕ, ◌≡◌, Bool, length, true, ◌+◌, false, some, word, none, ◌≤◌, arith, length-append, List,
  get_elem?, ◌∷◌, [], pos_part, refl, Option-cases, inl, inr, ◌∙◌,
}
use go_patternx.Dlq.Workers.{
  advance, Move, checks, decides, tries, receives, quits, wakes, gives_up_wait, requeues, move,
}
use go_patternx.Dlq.Counting.{
  real_entries, total, real_entries-append, move_parts, total-set, total-replicate,
  length-remove_at,
}
use go_patternx.Dlq.Config.{
  no_metrics, new_dead_letter_queue, start, ConfigDlq, apply_dlq_defaults,
  new_dead_letter_queue_lem,
}

abbrev pub holds : Place → ℕ
holds receiving = 0
holds stopped = 0
holds _ = 1

abbrev pub is_some : Option Metrics → Bool
is_some none = false
is_some (some m) = true

abbrev pub metrics_of : DeadLetterQueue → Metrics
metrics_of d = elim d.metrics [ none ↦ no_metrics | some m ↦ m ]

-- The operations that are still on their way.
abbrev pub on_the_way : DeadLetterQueue → ℕ
on_the_way d = length d.adding + real_entries d.worker_chan + total holds d.workers

pub record Conserved (h : History) : Type 0 where
  pub enabled : is_some h.dlq.metrics ≡ true
  pub failed : (metrics_of h.dlq).total_failed ≡ word h.added
  -- An operation is on its way, was given back, has succeeded, was dropped, or `IsHealthy` took it.
  pub conserved :
      word (
        (metrics_of h.dlq).total_succeeded
        + (metrics_of h.dlq).total_dropped
        + on_the_way h.dlq
        + h.refused
        + h.lost)
      ≡ word h.added
  -- `CurrentQueue` leaves out what `ClearQueue` took from it and what has ended.
  pub current :
      word (
        (metrics_of h.dlq).current_queue
        + h.cleared
        + (metrics_of h.dlq).total_succeeded
        + (metrics_of h.dlq).total_dropped
        + h.refused)
      ≡ word h.added
  pub fits : length h.dlq.worker_chan ≤ h.dlq.queue_size

record Advanced (d d' : DeadLetterQueue) (p q : Place) : Type 0 where
  size_kept : d'.queue_size ≡ d.queue_size
  adding_kept : d'.adding ≡ d.adding
  enabled_kept : is_some d.metrics ≡ true → is_some d'.metrics ≡ true
  failed_kept :
      is_some d.metrics ≡ true → (metrics_of d').total_failed ≡ (metrics_of d).total_failed
  moved :
      is_some d.metrics ≡ true
      → word (
          (metrics_of d').total_succeeded
          + (metrics_of d').total_dropped
          + holds q
          + real_entries d'.worker_chan)
        ≡ word (
            (metrics_of d).total_succeeded
            + (metrics_of d).total_dropped
            + holds p
            + real_entries d.worker_chan)
  current_moved :
      is_some d.metrics ≡ true
      → word (
          (metrics_of d').total_succeeded
          + (metrics_of d').total_dropped
          + (metrics_of d').current_queue)
        ≡ word (
            (metrics_of d).total_succeeded
            + (metrics_of d).total_dropped
            + (metrics_of d).current_queue)
  fits_kept : length d.worker_chan ≤ d.queue_size → length d'.worker_chan ≤ d.queue_size

advance-Advanced :
    (d d' : DeadLetterQueue) (p q : Place) (m : Move)
    → advance d p m ≡ some (q, d')
    → Advanced d d' p q
unfolding advance real_entries
advance-Advanced d d' p q receives h = ground arith
advance-Advanced d d' p q quits h = ground arith
advance-Advanced d d' p q (checks now) h = ground arith
advance-Advanced d d' p q wakes h = ground arith
advance-Advanced d d' p q gives_up_wait h = ground arith
advance-Advanced d d' p q (decides should_retry now) h = ground arith
advance-Advanced d d' p q (tries outcome duration now) h = ground arith
advance-Advanced d d' p q requeues h = grind (arith, real_entries-append, length-append {0})

move-Conserved :
    (h : History) (d : DeadLetterQueue) (k : ℕ) (m : Move)
    → move h.dlq k m ≡ some d
    → Conserved h
    → Conserved (record h { dlq = d })
move-Conserved h d k m goes c =
    let (p, q, done, found, moves_on, same) = move_parts h.dlq d k m goes in
    rw same (
      ground (
        arith,
        advance-Advanced h.dlq done p q m moves_on,
        total-set holds h.dlq.workers k p q found,
      ))

finish_add-Conserved :
    (h : History) (k a : ℕ)
    → get_elem? h.dlq.adding k ≡ some a
    → Conserved h
    → Conserved (step h (finishes_add k))
unfolding step finish_add real_entries
finish_add-Conserved h k a found c = ground (
  arith,
  length-remove_at h.dlq.adding k a found,
  real_entries-append h.dlq.worker_chan (some a ∷ []),
  length-append h.dlq.worker_chan (some a ∷ []),
)

step-Conserved : (h : History) (e : Event) → Conserved h → Conserved (step h e)
unfolding step begin_add finish_add register_handler clear_queue begin_close begin_probe end_probe
    real_entries
step-Conserved h (begins_add op fresh now) c = ground arith
step-Conserved h (finishes_add k) c = elim (Option-cases (get_elem? h.dlq.adding k)) [
  | inl absent ↦ ground arith
  | inr (a, found) ↦ finish_add-Conserved h k a found c
]
step-Conserved h (registers operation_type has) c = ground arith
step-Conserved h clears c = ground arith
step-Conserved h closes c = ground arith
step-Conserved h begins_probe c = ground (
  arith,
  real_entries-append h.dlq.worker_chan (none ∷ []),
  length-append h.dlq.worker_chan (none ∷ []),
)
step-Conserved h ends_probe c = ground arith
step-Conserved h (moves k m) c = elim (Option-cases (move h.dlq k m)) [
  | inl stays ↦ ground arith
  | inr (d, goes) ↦ ground (arith, move-Conserved h d k m goes c)
]

run-Conserved_from : (h : History) (es : List Event) → Conserved h → Conserved (run h es)
unfolding run
run-Conserved_from h [] c = c
run-Conserved_from h (e ∷ es) c = run-Conserved_from (step h e) es (step-Conserved h e c)

start-Conserved : (c : ConfigDlq) → c.enable_metrics ≡ true → Conserved (begin (start c))
unfolding start real_entries
start-Conserved c on = ground (arith, total-replicate holds (pos_part c.worker_count) refl)

-- Whatever is done with a new dead letter queue that has metrics, in whatever order, the operations
-- that `AddFailedOperation` took in, which `TotalFailed` counts, are as many, modulo 2^64, as those
-- that wait to be sent, are in the channel or are held by a worker, those that were given back with
-- an error, those that `TotalSucceeded` and `TotalDropped` count, and those that `IsHealthy` took
-- out of the channel and forgot. The channel keeps within its size, and `CurrentQueue` is, modulo
-- 2^64, what was taken in less what was given back, succeeded or was dropped, and less all that
-- `ClearQueue` took from it.
pub run-Conserved :
    (c : ConfigDlq) (d : DeadLetterQueue) (es : List Event)
    → new_dead_letter_queue (some c) ≡ ok d
    → c.enable_metrics ≡ true
    → Conserved (run (begin d) es)
run-Conserved c d es h on =
    let (made, same_metrics, retries) = new_dead_letter_queue_lem c d h in
    rw made (
      run-Conserved_from (begin (start (apply_dlq_defaults c))) es
        (start-Conserved (apply_dlq_defaults c) (same_metrics ∙ on)))
