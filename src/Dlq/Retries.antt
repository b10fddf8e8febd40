-- ===== src/Dlq/Retries.antt =====
-- How often the handlers are called.
use go_patternx.Dlq.{
  DeadLetterQueue, FailedOperation, Place, trying, due, blank, operation_at, GoError, begin_add,
  finish_add, ok, set_operation_defaults, String, register_handler, clear_queue, begin_close,
  begin_probe, end_probe,
}
use go_patternx.Dlq.Events.{
  Event, begins_add, History, run, step, begin, finishes_add, registers, moves, clears, closes,
  begins_probe, ends_probe,
}
use go_patternx.Base.{
  List, ◌++◌, All, pos, ℕ, get_elem?, set, some, ◌∷◌, ◌≤ℤ◌, [], pos_part, suc, ◌≡◌, ◌+◌, arith,
  get_or, true, zero, word, ◌⊎◌, inr, inl, ap, refl, Bool, Option, none, Bool-cases, leb_ℤ, ◌∙◌,
  Option-cases,
}
use go_patternx.Dlq.Conservation.{is_some, metrics_of}
use go_patternx.Dlq.Workers.{
  decide, drop_operation, suc_ℤ, advance, try_operation, Move, succeed_operation, checks, decides,
  next_time, tries, receives, quits, wakes, gives_up_wait, requeues, move,
}
use go_patternx.Dlq.Config.{
  ConfigDlq, start, new_dead_letter_queue, new_dead_letter_queue_lem, apply_dlq_defaults,
}
use go_patternx.Dlq.Counting.{total, move_parts, total-replicate, total-set}

-- What every operation satisfies that was added with no retries behind it.
pub record Bounded (op : FailedOperation) : Type 0 where
  pub at_least : pos 0 ≤ℤ op.retry_count
  pub at_most : op.retry_count ≤ℤ op.max_retries

-- An operation that is added has not been retried, and does not ask for a negative number.
abbrev pub IsFresh : Event → Type 0
IsFresh (begins_add (some op) fresh now) = (op.retry_count ≡ pos 0) × (pos 0 ≤ℤ op.max_retries)
IsFresh _ = Unit

pub retries : List FailedOperation → ℕ
retries [] = 0
retries (op ∷ ops) = pos_part op.retry_count + retries ops

abbrev pub in_trial : Place → ℕ
in_trial (trying a) = 1
in_trial _ = 0

retries-set :
    (ops : List FailedOperation) (a : ℕ) (op op' : FailedOperation)
    → get_elem? ops a ≡ some op
    → retries (set ops a op') + pos_part op.retry_count ≡ retries ops + pos_part op'.retry_count
unfolding retries
retries-set [] a op op' h = ground arith
retries-set (o ∷ ops) zero op op' h = ground arith
retries-set (o ∷ ops) (suc a) op op' h = omega (arith, retries-set ops a op op' h)

retries-append :
    (ops : List FailedOperation) (op : FailedOperation)
    → retries (ops ++ op ∷ []) ≡ retries ops + pos_part op.retry_count
unfolding retries
retries-append [] op = omega arith
retries-append (o ∷ ops) op = omega (arith, retries-append ops op)

All-set :
    (ops : List FailedOperation) (a : ℕ) (op : FailedOperation)
    → All Bounded ops
    → Bounded op
    → All Bounded (set ops a op)
All-set [] a op all b = all
All-set (o ∷ ops) zero op (first, rest) b = (b, rest)
All-set (o ∷ ops) (suc a) op (first, rest) b = (first, All-set ops a op rest b)

All-append :
    (ops : List FailedOperation) (op : FailedOperation)
    → All Bounded ops
    → Bounded op
    → All Bounded (ops ++ op ∷ [])
All-append [] op all b = (b, all)
All-append (o ∷ ops) op (first, rest) b = (first, All-append ops op rest b)

All-get_elem? :
    (ops : List FailedOperation) (a : ℕ) (op : FailedOperation)
    → All Bounded ops
    → get_elem? ops a ≡ some op
    → Bounded op
All-get_elem? [] a op all h = ground arith
All-get_elem? (o ∷ ops) zero op (first, rest) h = ground arith
All-get_elem? (o ∷ ops) (suc a) op (first, rest) h = All-get_elem? ops a op rest h

-- The operation at an address, or the blank one, which no worker retries.
get_or-cases :
    (ops : List FailedOperation) (a : ℕ) (d : FailedOperation)
    → (get_elem? ops a ≡ some (get_or ops a d))
      ⊎ (get_or ops a d ≡ d) × ((o : FailedOperation) → set ops a o ≡ ops)
get_or-cases [] a d = inr (refl, λ o. refl)
get_or-cases (o ∷ ops) zero d = inl refl
get_or-cases (o ∷ ops) (suc a) d = elim (get_or-cases ops a d) [
  | inl found ↦ inl found
  | inr (same, kept) ↦ inr (same, λ v. ap (λ l. o ∷ l) (kept v))
]

record Tried (d d' : DeadLetterQueue) (p q : Place) : Type 0 where
  bounded : All Bounded d'.heap
  enabled_kept : is_some d'.metrics ≡ true
  retries_kept : d'.max_retries ≡ d.max_retries
  counted :
      word ((metrics_of d').total_retried + in_trial q + retries d.heap)
      ≡ word ((metrics_of d).total_retried + in_trial p + retries d'.heap)

decides-Tried :
    (d d' : DeadLetterQueue) (q : Place) (a : ℕ) (should_retry : Bool) (now : ℕ)
    → decide d a should_retry now ≡ (q, d')
    → All Bounded d.heap
    → is_some d.metrics ≡ true
    → Tried d d' (due a) q
unfolding decide drop_operation
decides-Tried d d' q a should_retry now h all on = elim (get_or-cases d.heap a blank) [
  | inl found ↦
      let op = operation_at d a in
      let b = All-get_elem? d.heap a op all found in
      let tried = record op { retry_count = suc_ℤ op.retry_count; last_retry = some now } in
      elim (Bool-cases (leb_ℤ op.max_retries op.retry_count)) [
        | inl at_end ↦ ground arith
        | inr below ↦
            let once_more : Bounded tried = ground arith in
            let after = All-set d.heap a tried all once_more in
            let counts = retries-set d.heap a op tried found in ground arith
      ]
  | inr (same, kept) ↦ ground arith
]

tries-Tried :
    (d d' : DeadLetterQueue) (q : Place) (a : ℕ) (outcome : Option GoError) (duration now : ℕ)
    → try_operation d a outcome duration now ≡ (q, d')
    → All Bounded d.heap
    → is_some d.metrics ≡ true
    → Tried d d' (trying a) q
unfolding try_operation succeed_operation
tries-Tried d d' q a none duration now h all on = ground arith
tries-Tried d d' q a (some e) duration now h all on = elim (get_or-cases d.heap a blank) [
  | inl found ↦
      let op = operation_at d a in
      let b = All-get_elem? d.heap a op all found in
      let failed = record op {
        error = some e;
        next_retry = some (next_time now d.retry_delay op.retry_count);
      } in
      let same_bounds : Bounded failed = ground arith in
      let after = All-set d.heap a failed all same_bounds in
      let counts = retries-set d.heap a op failed found in ground arith
  | inr (same, kept) ↦
      let unchanged = kept (record (operation_at d a) {
        error = some e;
        next_retry = some (next_time now d.retry_delay (operation_at d a).retry_count);
      }) in
      ground arith
]

advance-Tried :
    (d d' : DeadLetterQueue) (p q : Place) (m : Move)
    → advance d p m ≡ some (q, d')
    → All Bounded d.heap
    → is_some d.metrics ≡ true
    → Tried d d' p q
unfolding advance drop_operation
advance-Tried d d' p q receives h all on = ground arith
advance-Tried d d' p q quits h all on = ground arith
advance-Tried d d' p q (checks now) h all on = ground arith
advance-Tried d d' p q wakes h all on = ground arith
advance-Tried d d' p q gives_up_wait h all on = ground arith
advance-Tried d d' (due a) q (decides should_retry now) h all on =
    decides-Tried d d' q a should_retry now (ground arith) all on
advance-Tried d d' p q (decides should_retry now) h all on = (ground arith)
advance-Tried d d' (trying a) q (tries outcome duration now) h all on =
    tries-Tried d d' q a outcome duration now (ground arith) all on
advance-Tried d d' p q (tries outcome duration now) h all on = (ground arith)
advance-Tried d d' p q requeues h all on = ground arith

pub record Retried (h : History) : Type 0 where
  pub enabled : is_some h.dlq.metrics ≡ true
  pub bounded : All Bounded h.dlq.heap
  -- `TotalRetried` and the calls of handlers that run are the retries of all operations together.
  pub counted :
      word ((metrics_of h.dlq).total_retried + total in_trial h.dlq.workers)
      ≡ word (retries h.dlq.heap)

move-Retried :
    (h : History) (d : DeadLetterQueue) (k : ℕ) (m : Move)
    → move h.dlq k m ≡ some d
    → Retried h
    → Retried (record h { dlq = d })
move-Retried h d k m goes r =
    let (p, q, done, found, moves_on, same) = move_parts h.dlq d k m goes in
    rw same (
      ground (
        arith,
        advance-Tried h.dlq done p q m moves_on r.bounded r.enabled,
        total-set in_trial h.dlq.workers k p q found,
      ))

begin_add-Retried :
    (h : History) (op : FailedOperation) (fresh : String) (now : ℕ)
    → IsFresh (begins_add (some op) fresh now)
    → Retried h
    → Retried (step h (begins_add (some op) fresh now))
unfolding step begin_add set_operation_defaults
begin_add-Retried h op fresh now (none_yet, sensible) r =
    let complete = set_operation_defaults h.dlq op fresh now in
    let b : Bounded complete = ground arith in
    let all = All-append h.dlq.heap complete r.bounded b in
    let counts = retries-append h.dlq.heap complete in ground arith

step-Retried : (h : History) (e : Event) → IsFresh e → Retried h → Retried (step h e)
unfolding step begin_add finish_add register_handler clear_queue begin_close begin_probe end_probe
step-Retried h (begins_add none fresh now) f r = ground arith
step-Retried h (begins_add (some op) fresh now) f r = begin_add-Retried h op fresh now f r
step-Retried h (finishes_add k) f r = ground arith
step-Retried h (registers operation_type has) f r = ground arith
step-Retried h clears f r = ground arith
step-Retried h closes f r = ground arith
step-Retried h begins_probe f r = ground arith
step-Retried h ends_probe f r = ground arith
step-Retried h (moves k m) f r = elim (Option-cases (move h.dlq k m)) [
  | inl stays ↦ ground arith
  | inr (d, goes) ↦ ground (arith, move-Retried h d k m goes r)
]

run-Retried_from : (h : History) (es : List Event) → All IsFresh es → Retried h → Retried (run h es)
unfolding run
run-Retried_from h [] f r = r
run-Retried_from h (e ∷ es) (f, fs) r = run-Retried_from (step h e) es fs (step-Retried h e f r)

start-Retried : (c : ConfigDlq) → c.enable_metrics ≡ true → Retried (begin (start c))
unfolding start retries
start-Retried c on = ground (arith, total-replicate in_trial (pos_part c.worker_count) refl)

-- If every operation is handed over with no retries behind it and without a negative `MaxRetries`,
-- then, whatever is done with a new dead letter queue that has metrics, in whatever order, no
-- operation is retried more than `MaxRetries` times; and the calls of the handlers, which
-- `TotalRetried` counts when they end, are as many as the retries of all operations together.
pub run-Retried :
    (c : ConfigDlq) (d : DeadLetterQueue) (es : List Event)
    → new_dead_letter_queue (some c) ≡ ok d
    → c.enable_metrics ≡ true
    → All IsFresh es
    → Retried (run (begin d) es)
run-Retried c d es h on fresh =
    let (made, same_metrics, retries_pos) = new_dead_letter_queue_lem c d h in
    rw made (
      run-Retried_from (begin (start (apply_dlq_defaults c))) es fresh
        (start-Retried (apply_dlq_defaults c) (same_metrics ∙ on)))
