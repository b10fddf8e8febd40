-- ===== src/Bulkhead.antt =====
-- bulkhead.go: `Bulkhead`. A buffered channel of `struct{}` is the number of its elements, with
-- the capacity from the configuration. A call of `Execute` is several steps, between which other
-- calls run: `enter` up to the send to the semaphore or to the wait queue, `leave_queue` at the end
-- of a wait and `receive_from_queue` after it, `count_running` after either send to the semaphore,
-- and `finish` when the caller's function has returned or panicked.
pub mod System
pub mod Invariant
pub mod Entry
pub mod Shutdown
pub mod Health
pub mod Config
mod Tests
use go_patternx.Base.{
  ◌-◌, Bool, Option, if◌then◌else◌, incr, ℕ, ◌&&◌, ◌==◌, decr, false, none, some, true, word, ◌||◌,
  ◌+◌, leb, ltb, not, ◌*◌, ◌/◌,
}
use go_patternx.Errors.{
  Context, GoError, sentinel, bulkhead_closed, context_cancelled, context_with, text, annotate,
  bulkhead_queue_full, bulkhead_timeout, invalid_operation, nil_context, wrap,
}

pub record BulkheadMetrics : Type 0 where
  pub total_calls : ℕ
  pub successful_calls : ℕ
  pub failed_calls : ℕ
  pub rejected_calls : ℕ
  pub timeout_calls : ℕ
  pub current_concurrent_calls : ℕ
  pub average_execution_time : ℕ
  pub last_execution_time : ℕ
  pub health_status : Bool
  pub last_health_check : ℕ

pub record Bulkhead : Type 0 where
  pub max_concurrent_calls : ℕ
  pub max_wait_duration : ℕ
  pub max_queue_size : ℕ
  -- In thousandths.
  pub health_threshold : ℕ
  pub enable_metrics : Bool
  pub semaphore : ℕ
  pub queue : ℕ
  pub closed : ℕ
  -- `close(b.semaphore)` and `close(b.queue)` have run: a send panics from then on.
  pub channels_closed : Bool
  pub metrics : BulkheadMetrics
  pub open metrics use *

-- What `Execute` has come to when it waits, runs the function or returns.
pub data Admission : Type 0 where
  acquired : Bulkhead → Admission
  queued : Bulkhead → Admission
  refused : Bulkhead → GoError → Admission
  -- A send on a closed channel panics.
  faulted : Bulkhead → Admission

-- Where several cases of a `select` are ready, Go takes one at random: `prefers_done` is true
-- where it takes `ctx.Done()`. The context is done if it has an error.
abbrev is_done : Option GoError → Bool
is_done none = false
is_done (some e) = true

abbrev cancelled : Option GoError → GoError
cancelled none = sentinel context_cancelled
cancelled (some e) = wrap context_cancelled e

put_current : Bulkhead → ℕ → Bulkhead
put_current b n = record b { metrics = record (b.metrics) { current_concurrent_calls = n } }

pub acquire_from_queue : Bulkhead → Option GoError → Bool → Admission
acquire_from_queue b done prefers_done =
    if is_done done && (prefers_done || not (b.channels_closed || ltb b.queue b.max_queue_size))
    then refused b (cancelled done)
    else if b.channels_closed
    then faulted b
    else if ltb b.queue b.max_queue_size
    then queued (record b { queue = b.queue + 1 })
    else refused b (sentinel bulkhead_queue_full)

-- The send to the semaphore; `count_running` follows it.
pub acquire_semaphore : Bulkhead → Option GoError → Bool → Admission
unfolding acquire_from_queue
acquire_semaphore b done prefers_done =
    if is_done done
      && (prefers_done || not (b.channels_closed || ltb b.semaphore b.max_concurrent_calls))
    then refused b (cancelled done)
    else if b.channels_closed
    then faulted b
    else if ltb b.semaphore b.max_concurrent_calls
    then acquired (record b { semaphore = b.semaphore + 1 })
    else acquire_from_queue b done prefers_done

-- The arguments of a call, and what its `select`s see of the context later on.
pub record Call : Type 0 where
  pub context : Context
  pub has_function : Bool
  pub done : Option GoError
  pub prefers_done : Bool

reject : Bulkhead → Bulkhead
reject b = record b { metrics = record (b.metrics) { rejected_calls = incr b.rejected_calls } }

count_rejection : Admission → Admission
unfolding reject
count_rejection (refused b e) = refused (reject b) e
count_rejection a = a

count_call : Bulkhead → Bulkhead
count_call b = record b { metrics = record (b.metrics) { total_calls = incr b.total_calls } }

validate_execute_inputs : Context → Bool → Option GoError
validate_execute_inputs nil_context has_function = some (text "context cannot be nil")
validate_execute_inputs (context_with e) false = some (sentinel invalid_operation)
validate_execute_inputs (context_with e) true = none

abbrev context_error : Context → Option GoError
context_error nil_context = none
context_error (context_with e) = e

-- `Execute` up to the semaphore. Only a call that gets there is counted.
unfoldable pub enter : Bulkhead → Call → Admission
unfolding validate_execute_inputs acquire_semaphore count_rejection count_call
enter b c =
    if b.closed == 1
    then refused b (sentinel bulkhead_closed)
    else elim (validate_execute_inputs c.context c.has_function) [
      | some e ↦ refused b (annotate "invalid execute inputs" e)
      | none ↦ elim (context_error c.context) [
        | some e ↦ refused b (wrap context_cancelled e)
        | none ↦ count_rejection (acquire_semaphore (count_call b) c.done c.prefers_done)
      ]
    ]

-- How the `select` of `waitForSemaphore` ends. The deadline is the wait's, or an earlier one of
-- the caller's context.
pub data WaitEnd : Type 0 where
  sends_semaphore : WaitEnd
  deadline_exceeded : WaitEnd
  context_canceled : GoError → WaitEnd

-- `none`: the send cannot proceed, since the semaphore is full. After the send, `receive_from_queue`
-- and `count_running` follow.
pub leave_queue : Bulkhead → WaitEnd → Option Admission
unfolding reject
leave_queue b sends_semaphore =
    if b.channels_closed
    then some (faulted b)
    else if ltb b.semaphore b.max_concurrent_calls
    then some (acquired (record b { semaphore = b.semaphore + 1 }))
    else none
leave_queue b deadline_exceeded =
    let left = record b {
      queue = b.queue - 1;
      metrics = record (b.metrics) { timeout_calls = incr b.timeout_calls };
    } in
    some (refused (reject left) (sentinel bulkhead_timeout))
leave_queue b (context_canceled e) =
    some (refused (reject (record b { queue = b.queue - 1 })) (wrap context_cancelled e))

-- `<-b.queue` of a call that has got into the semaphore.
unfoldable pub receive_from_queue : Bulkhead → Bulkhead
receive_from_queue b = record b { queue = b.queue - 1 }

-- `CurrentConcurrentCalls.Add(1)`, which comes after the send to the semaphore: `Close` may read the
-- counter in between.
unfoldable pub count_running : Bulkhead → Bulkhead
unfolding put_current
count_running b = put_current b (incr b.current_concurrent_calls)

release_semaphore : Bulkhead → Bulkhead
unfolding put_current
release_semaphore b =
    put_current (record b { semaphore = b.semaphore - 1 }) (decr b.current_concurrent_calls)

-- How the caller's function ends.
pub data Ending : Type 0 where
  returns_ok : Ending
  returns_error : GoError → Ending
  panics : Ending

abbrev average : ℕ → ℕ → ℕ
average current elapsed = if current == 0 then elapsed else (current + elapsed) / 2

update_execution_metrics : Bulkhead → Bool → ℕ → ℕ → Bulkhead
update_execution_metrics b failed elapsed now =
    let m = b.metrics in
    let counted =
      if failed
      then record m { failed_calls = incr m.failed_calls }
      else record m { successful_calls = incr m.successful_calls } in
    record b {
      metrics = record counted {
        last_execution_time = now;
        average_execution_time =
            if counted.successful_calls == 0
            then m.average_execution_time
            else average m.average_execution_time elapsed;
      };
    }

-- The function ends after `elapsed`, and the deferred release of the semaphore runs. A panic
-- goes on to the caller past the update of the metrics.
pub finish : Bulkhead → Ending → ℕ → ℕ → Bulkhead
unfolding update_execution_metrics release_semaphore
finish b returns_ok elapsed now = release_semaphore (update_execution_metrics b false elapsed now)
finish b (returns_error e) elapsed now =
    release_semaphore (update_execution_metrics b true elapsed now)
finish b panics elapsed now = release_semaphore b

pub reset_metrics : Bulkhead → ℕ → Bulkhead
reset_metrics b now = record b {
  metrics = record {
    total_calls = 0;
    successful_calls = 0;
    failed_calls = 0;
    rejected_calls = 0;
    timeout_calls = 0;
    current_concurrent_calls = 0;
    average_execution_time = 0;
    last_execution_time = 0;
    health_status = true;
    last_health_check = now;
  };
}

-- `Close`: the compare-and-swap of the flag, then, once no call runs or 30 seconds have passed,
-- the closing of the channels.
pub begin_close : Bulkhead → Bulkhead × Option GoError
begin_close b =
    if b.closed == 0
    then (record b { closed = 1 }, none)
    else (b, some (text "bulkhead already closed"))

pub close_channels : Bulkhead → Bool → Option Bulkhead
close_channels b timed_out =
    if timed_out || b.current_concurrent_calls == 0
    then some (record b { channels_closed = true })
    else none

pub failures : BulkheadMetrics → ℕ
failures m = word (m.failed_calls + m.rejected_calls + m.timeout_calls)

pub update_health_status : Bulkhead → Bulkhead
unfolding failures
update_health_status b =
    let m = b.metrics in
    record b {
      metrics = record m {
        health_status =
            if m.total_calls == 0
            then true
            else leb (failures m * 1000) (b.health_threshold * m.total_calls);
      };
    }

pub is_healthy : Bulkhead → ℕ → Bulkhead × Bool
unfolding update_health_status
is_healthy b now =
    let checked = update_health_status b in
    if b.enable_metrics
    then (
      record checked { metrics = record (checked.metrics) { last_health_check = now } },
      checked.health_status,
    )
    else (b, true)
