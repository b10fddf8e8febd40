-- ===== src/Dlq.antt =====
-- deadletter.go: `DeadLetterQueue`, the operations in it and its metrics.
mod Tests
pub mod WriteBehind
pub mod Config
pub mod Conservation
pub mod Counting
pub mod Events
pub mod Retries
pub mod Workers
use Prim.Native.String.{String, len}
use Prim.Native.Nat.{Ordering}
use Prim.Native.String.{compare}
use go_patternx.Base.{
  Bool, List, Option, [], decr, if◌then◌else◌, incr, none, ℕ, ◌==◌, false, get_or, pos, some, true,
  ◌∷◌, ◌+◌, get_elem?, ltb, suc, ◌||◌, ℤ, length, not, zero, ◌++◌,
}
use go_patternx.Errors.{
  GoError, Result, err, sentinel, text, dlq_closed, fail_if, ◌>>◌, wrap, invalid_operation, ok,
  worker_channel_full,
}

-- `Data` and `Metadata` are carried along and never read. `Error` is the text of `error`; a time of
-- zero is `none`.
pub record FailedOperation : Type 0 where
  pub id : String
  pub operation : String
  pub key : String
  pub handler_type : String
  pub error : Option GoError
  pub retry_count : ℤ
  pub max_retries : ℤ
  pub created_at : Option ℕ
  pub last_retry : Option ℕ
  pub next_retry : Option ℕ

pub record Metrics : Type 0 where
  pub total_failed : ℕ
  pub total_retried : ℕ
  pub total_succeeded : ℕ
  pub total_dropped : ℕ
  pub current_queue : ℕ
  pub last_retry_time : Option ℕ
  pub retry_durations : List ℕ

-- Where the goroutine of a worker stands: in the `select`, or with an operation that it received,
-- that waits for its time, that is due, that the handler is trying, or that failed again and waits
-- for room in `workerChan`.
pub data Place : Type 0 where
  receiving stopped : Place
  received waiting due trying failed_again : ℕ → Place

-- A pointer to an operation is its place in `heap`, which has every operation that was added; each
-- call of `AddFailedOperation` brings a new one, which its caller then leaves alone. Of
-- the handlers it only matters which types have one. `adding` has the operations of the calls of
-- `AddFailedOperation` that wait for room in `workerChan`, and `probing` counts the calls of
-- `IsHealthy` that have put their nil into it.
pub record DeadLetterQueue : Type 0 where
  pub max_retries : ℕ
  pub retry_delay : ℕ
  pub queue_size : ℕ
  pub heap : List FailedOperation
  pub queue : List (String × ℕ)
  pub handlers : List String
  pub closed : ℕ
  pub cancelled : Bool
  pub worker_chan : List (Option ℕ)
  pub workers : List Place
  pub metrics : Option Metrics
  pub adding : List ℕ
  pub probing : ℕ

abbrev same_text : String → String → Bool
same_text a b = elim (compare a b) [ Ordering.eq ↦ true | _ ↦ false ]

-- `delete(m, key)`.
pub delete : String → List (String × ℕ) → List (String × ℕ)
delete k [] = []
delete k ((k', a) ∷ m) = let rest = delete k m in if same_text k k' then rest else (k', a) ∷ rest

pub has_handler : String → List String → Bool
has_handler k [] = false
has_handler k (k' ∷ ks) = same_text k k' || has_handler k ks

-- Only used at addresses that are in the heap.
abbrev blank : FailedOperation
blank = record {
  id = "";
  operation = "";
  key = "";
  handler_type = "";
  error = none;
  retry_count = pos 0;
  max_retries = pos 0;
  created_at = none;
  last_retry = none;
  next_retry = none;
}

abbrev pub operation_at : DeadLetterQueue → ℕ → FailedOperation
operation_at d a = get_or d.heap a blank

-- `if dlq.metrics != nil { … }`.
abbrev pub on_metrics : (Metrics → Metrics) → Option Metrics → Option Metrics
on_metrics f none = none
on_metrics f (some m) = some (f m)

pub validate_failed_operation : Option FailedOperation → Result FailedOperation
validate_failed_operation none = err (text "operation cannot be nil")
validate_failed_operation (some op) =
    fail_if (len op.operation == 0) (text "operation type cannot be empty")
    >> fail_if (len op.key == 0) (text "operation key cannot be empty")
    >> fail_if (len op.handler_type == 0) (text "handler type cannot be empty")
    >> ok op

-- `fresh` is the name that is made of the key and the clock.
pub set_operation_defaults : DeadLetterQueue → FailedOperation → String → ℕ → FailedOperation
set_operation_defaults d op fresh now = record op {
  id = if len op.id == 0 then fresh else op.id;
  created_at = elim op.created_at [ none ↦ some now | some t ↦ some t ];
  max_retries = elim op.max_retries [ pos zero ↦ pos d.max_retries | n ↦ n ];
  next_retry = elim op.next_retry [ none ↦ some (now + d.retry_delay) | some t ↦ some t ];
}

count_added : Metrics → Metrics
count_added m = record m {
  total_failed = incr m.total_failed;
  current_queue = incr m.current_queue;
}

-- `AddFailedOperation` up to the `select`.
pub begin_add :
    DeadLetterQueue → Option FailedOperation → String → ℕ → DeadLetterQueue × Option GoError
unfolding validate_failed_operation set_operation_defaults count_added
begin_add d op fresh now =
    if d.closed == 1 then (d, some (sentinel dlq_closed)) else elim (validate_failed_operation op) [
      | err e ↦ (d, some (wrap invalid_operation e))
      | ok valid ↦
          let complete = set_operation_defaults d valid fresh now in
          (
            record d {
              heap = d.heap ++ complete ∷ [];
              queue = (complete.id, length d.heap) ∷ delete complete.id d.queue;
              metrics = on_metrics count_added d.metrics;
              adding = length d.heap ∷ d.adding;
            },
            none,
          )
    ]

pub remove_at : ℕ → List ℕ → List ℕ
remove_at k [] = []
remove_at zero (a ∷ rest) = rest
remove_at (suc k) (a ∷ rest) = a ∷ remove_at k rest

count_left : Metrics → Metrics
count_left m = record m { current_queue = decr m.current_queue }

-- The `select` of the `k`-th waiting call: the send where there is room, and else the end of the
-- 100 ms. `none` where there is no such call.
pub finish_add : DeadLetterQueue → ℕ → Option (DeadLetterQueue × Option GoError)
unfolding count_left
finish_add d k = elim (get_elem? d.adding k) [
  | none ↦ none
  | some a ↦
      let done = record d { adding = remove_at k d.adding } in
      if ltb (length d.worker_chan) d.queue_size
      then some (record done { worker_chan = d.worker_chan ++ some a ∷ [] }, none)
      else some (
        record done {
          queue = delete (operation_at d a).id d.queue;
          metrics = on_metrics count_left d.metrics;
        },
        some (sentinel worker_channel_full),
      )
]

pub register_handler : DeadLetterQueue → String → Bool → DeadLetterQueue × Option GoError
register_handler d operation_type has =
    if len operation_type == 0
    then (d, some (text "operation type cannot be empty"))
    else if not has
    then (d, some (text "handler cannot be nil"))
    else (record d { handlers = operation_type ∷ d.handlers }, none)

pub clear_queue : DeadLetterQueue → DeadLetterQueue
clear_queue d = record d {
  queue = [];
  metrics = on_metrics (λ m. record m { current_queue = 0 }) d.metrics;
}

-- `IsHealthy` up to its second `select`: the nil goes into the channel if there is room.
pub begin_probe : DeadLetterQueue → DeadLetterQueue × Bool
begin_probe d =
    if d.closed == 1
    then (d, false)
    else if ltb (length d.worker_chan) d.queue_size
    then (record d { worker_chan = d.worker_chan ++ none ∷ []; probing = d.probing + 1 }, true)
    else (d, false)

-- The second `select`, which receives whatever is first.
pub end_probe : DeadLetterQueue → DeadLetterQueue
end_probe d = elim d.probing [
  | zero ↦ d
  | suc n ↦ elim d.worker_chan [
    | [] ↦ record d { probing = n }
    | first ∷ rest ↦ record d { probing = n; worker_chan = rest }
  ]
]

-- `Close` up to the wait for the workers.
pub begin_close : DeadLetterQueue → DeadLetterQueue
begin_close d = if d.closed == 0 then record d { closed = 1; cancelled = true } else d
