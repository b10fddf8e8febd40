-- ===== src/Bulkhead/Entry.antt =====
-- When a call is let in, queued and turned away.
use go_patternx.Bulkhead.{
  Bulkhead, enter, Call, GoError, acquired, refused, context_with, nil_context, sentinel,
  bulkhead_closed, annotate, queued, bulkhead_queue_full, text, invalid_operation, wrap,
  context_cancelled, Admission, faulted,
}
use go_patternx.Base.{
  ◌≡◌, false, if◌then◌else◌, ◌⊎◌, ◌+◌, ◌==◌, arith, incr, none, some, true, ltb, List, ℕ, All, ◌∷◌,
  ◌-◌, [], length, word,
}
use Prim.Native.Nat.{min}

-- A call that reaches the semaphore: the bulkhead is open, the arguments are there and the
-- context is live, at the start and in the selects.
pub record IsLive (b : Bulkhead) (c : Call) : Type 0 where
  pub open_flag : b.closed ≡ 0
  pub open_channels : b.channels_closed ≡ false
  pub context_live : c.context ≡ context_with none
  pub function_given : c.has_function ≡ true
  pub not_done : c.done ≡ none

-- What becomes of a live call: it gets in while the semaphore has room, waits while the queue has,
-- and is refused with ErrBulkheadQueueFull otherwise, counted as a rejection, with no token
-- taken.
enter-IsLive :
    (b : Bulkhead) (c : Call)
    → IsLive b c
    → enter b c ≡ (
        if ltb b.semaphore b.max_concurrent_calls
        then acquired (record b {
          semaphore = b.semaphore + 1;
          metrics = record (b.metrics) { total_calls = incr b.total_calls };
        })
        else if ltb b.queue b.max_queue_size
        then queued (record b {
          queue = b.queue + 1;
          metrics = record (b.metrics) { total_calls = incr b.total_calls };
        })
        else refused
            (record b {
              metrics = record (b.metrics) {
                total_calls = incr b.total_calls;
                rejected_calls = incr b.rejected_calls;
              };
            })
            (sentinel bulkhead_queue_full))
unfolding enter
enter-IsLive b c l = ground arith

abbrev pub IsOpen : Bulkhead → Type 0
IsOpen b = (b.closed ≡ 0) × (b.channels_closed ≡ false)

-- A call with its arguments, whose context is live at the start and in the selects.
abbrev pub IsLiveCall : Call → Type 0
IsLiveCall c = (c.context ≡ context_with none) × (c.has_function ≡ true) × (c.done ≡ none)

-- What has become of calls that came one after the other, none of which has ended.
pub record Entered : Type 0 where
  pub bulkhead : Bulkhead
  pub got_in : ℕ
  pub waits : ℕ
  pub turned_away : ℕ

abbrev after : Admission → Bulkhead
after (acquired b) = b
after (queued b) = b
after (refused b e) = b
after (faulted b) = b

abbrev count_entry : Admission → Entered → Entered
count_entry (acquired b) r = record r { got_in = r.got_in + 1 }
count_entry (queued b) r = record r { waits = r.waits + 1 }
count_entry (refused b e) r = record r { turned_away = r.turned_away + 1 }
count_entry (faulted b) r = r

unfoldable pub enter_all : Bulkhead → List Call → Entered
enter_all b [] = record { bulkhead = b; got_in = 0; waits = 0; turned_away = 0 }
enter_all b (c ∷ cs) = count_entry (enter b c) (enter_all (after (enter b c)) cs)

-- The places are filled in order: first the semaphore, then the queue.
pub record Fills (b : Bulkhead) (n : ℕ) (r : Entered) : Type 0 where
  pub in_first : r.got_in ≡ min n (b.max_concurrent_calls - b.semaphore)
  pub then_queue : r.waits ≡ min (n - r.got_in) (b.max_queue_size - b.queue)
  pub others_refused : r.got_in + r.waits + r.turned_away ≡ n
  pub semaphore : r.bulkhead.semaphore ≡ b.semaphore + r.got_in
  pub queue : r.bulkhead.queue ≡ b.queue + r.waits
  pub total : word r.bulkhead.total_calls ≡ word (b.total_calls + n)
  pub rejected : word r.bulkhead.rejected_calls ≡ word (b.rejected_calls + r.turned_away)
  pub nobody_runs_yet : r.bulkhead.current_concurrent_calls ≡ b.current_concurrent_calls

enter_one : (b : Bulkhead) (c : Call) → IsOpen b → IsLiveCall c → IsOpen (after (enter b c))
enter_one b c o l = ground (
  arith,
  enter-IsLive b c (record {
    open_flag = o.0;
    open_channels = o.1;
    context_live = l.0;
    function_given = l.1;
    not_done = l.2;
  }),
)

-- However many live calls come to an open bulkhead before any of those that are in ends: the first
-- ones get in until the semaphore is full, the next ones wait until the queue is full, and all the
-- others are refused. The semaphore and the queue have one token for each of the former, `TotalCalls`
-- counts all of them and `RejectedCalls` those that are refused, modulo 2^64.
pub enter_all-Fills :
    (b : Bulkhead) (cs : List Call)
    → IsOpen b
    → All IsLiveCall cs
    → Fills b (length cs) (enter_all b cs)
unfolding enter_all
enter_all-Fills b [] o l = ground arith
enter_all-Fills b (c ∷ cs) o l =
    let live : IsLive b c = record {
      open_flag = o.0;
      open_channels = o.1;
      context_live = l.0.0;
      function_given = l.0.1;
      not_done = l.0.2;
    } in
    ground (
      arith,
      enter-IsLive b c live,
      enter_all-Fills (after (enter b c)) cs (enter_one b c o l.0) l.1,
    )

abbrev pub TurnedAway : Bulkhead → Call → Type 0
TurnedAway b c =
    (b.closed ≡ 1)
    ⊎ (c.context ≡ nil_context)
    ⊎ (c.has_function ≡ false)
    ⊎ ((e : GoError) × (c.context ≡ context_with (some e)))

-- The error of a call that is turned away, in the order of the checks.
abbrev early_error : Bulkhead → Call → GoError
early_error b c = if b.closed == 1 then sentinel bulkhead_closed else elim c.context [
  | nil_context ↦ annotate "invalid execute inputs" (text "context cannot be nil")
  | context_with none ↦ annotate "invalid execute inputs" (sentinel invalid_operation)
  | context_with (some e) ↦
      if c.has_function
      then wrap context_cancelled e
      else annotate "invalid execute inputs" (sentinel invalid_operation)
]

-- A call on a closed bulkhead, with a nil context, with no function, or whose context is done
-- from the start is refused, and the bulkhead, its counters included, stays as it is.
pub enter-TurnedAway :
    (b : Bulkhead) (c : Call) → TurnedAway b c → enter b c ≡ refused b (early_error b c)
unfolding enter
enter-TurnedAway b c h = ground arith
