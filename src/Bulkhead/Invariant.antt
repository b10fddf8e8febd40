-- ===== src/Bulkhead/Invariant.antt =====
-- The tokens in the two channels and the counters, against the calls that wait and run.
use go_patternx.Bulkhead.System.{
  System, Reach, Step, enters_acquired, enters_queued, enters_refused, leaves_acquired, panicked,
  no_step, one_more, leaves_refused, finishes, checks_health, begins_close, receives_from_queue,
  counts_running,
}
use go_patternx.Base.{◌≡◌, ◌≤◌, word, ◌+◌, arith, ℕ, ◌<◌, ◌-◌, some}
use go_patternx.Bulkhead.{
  enter, Call, Bulkhead, acquired, GoError, begin_close, finish, is_healthy, leave_queue, queued,
  Ending, WaitEnd, refused, returns_error, returns_ok, panics, count_running, receive_from_queue,
}

-- The calls that hold the semaphore.
abbrev pub holding : System → ℕ
holding s = s.running + s.counting + s.moving

pub record Inv (s : System) : Type 0 where
  -- The semaphore has a token for each call that holds it, the queue one for each that waits or has
  -- not left it yet.
  pub semaphore_holding : s.bulkhead.semaphore ≡ holding s
  pub queue_waiting : s.bulkhead.queue ≡ s.waiting + s.moving
  pub holding_max : holding s ≤ s.bulkhead.max_concurrent_calls
  pub waiting_max : s.waiting + s.moving ≤ s.bulkhead.max_queue_size
  -- `CurrentConcurrentCalls` counts those that run.
  pub current_running : s.bulkhead.current_concurrent_calls ≡ word s.running
  -- Each counted call holds the semaphore, waits, or has ended in one way.
  pub accounted :
      s.bulkhead.total_calls
      ≡ word (
          s.bulkhead.successful_calls
          + s.bulkhead.failed_calls
          + s.bulkhead.rejected_calls
          + s.crashed
          + holding s
          + s.waiting)

module _ (s : System) (i : Inv s) where
  enter_acquired-Inv :
      (c : Call) (b : Bulkhead)
      → enter s.bulkhead c ≡ acquired b
      → Inv (record s { bulkhead = b; counting = s.counting + 1 })
  unfolding enter
  enter_acquired-Inv c b h = ground arith

  enter_queued-Inv :
      (c : Call) (b : Bulkhead)
      → enter s.bulkhead c ≡ queued b
      → Inv (record s { bulkhead = b; waiting = s.waiting + 1 })
  unfolding enter
  enter_queued-Inv c b h = ground arith

  enter-refused-Inv :
      (c : Call) (b : Bulkhead) (e : GoError)
      → enter s.bulkhead c ≡ refused b e
      → Inv (record s { bulkhead = b })
  unfolding enter
  enter-refused-Inv c b e h = ground arith

  leave_acquired-Inv :
      (w : WaitEnd) (b : Bulkhead)
      → 0 < s.waiting
      → leave_queue s.bulkhead w ≡ some (acquired b)
      → Inv (record s { bulkhead = b; waiting = s.waiting - 1; moving = s.moving + 1 })
  unfolding leave_queue
  leave_acquired-Inv w b p h = ground arith

  leave_refused-Inv :
      (w : WaitEnd) (b : Bulkhead) (e : GoError)
      → 0 < s.waiting
      → leave_queue s.bulkhead w ≡ some (refused b e)
      → Inv (record s { bulkhead = b; waiting = s.waiting - 1 })
  unfolding leave_queue
  leave_refused-Inv w b e p h = ground arith

  receive_from_queue-Inv :
      0 < s.moving
      → Inv (record s {
        bulkhead = receive_from_queue s.bulkhead;
        moving = s.moving - 1;
        counting = s.counting + 1;
      })
  unfolding receive_from_queue
  receive_from_queue-Inv p = ground arith

  count_running-Inv :
      0 < s.counting
      → Inv (record s {
        bulkhead = count_running s.bulkhead;
        counting = s.counting - 1;
        running = s.running + 1;
      })
  unfolding count_running
  count_running-Inv p = ground arith

  finish-Inv :
      (e : Ending) (elapsed now : ℕ)
      → 0 < s.running
      → Inv (record s {
        bulkhead = finish s.bulkhead e elapsed now;
        running = s.running - 1;
        crashed = s.crashed + panicked e;
      })
  unfolding finish
  finish-Inv returns_ok elapsed now p = ground arith
  finish-Inv (returns_error e) elapsed now p = ground arith
  finish-Inv panics elapsed now p = ground arith

  health-Inv : (now : ℕ) → Inv (record s { bulkhead = (is_healthy s.bulkhead now).0 })
  unfolding is_healthy
  health-Inv now = ground arith

  close-Inv : Inv (record s { bulkhead = (begin_close s.bulkhead).0 })
  unfolding begin_close
  close-Inv = ground arith

Step-Inv : {s t : System} → Step s t → Inv s → Inv t
Step-Inv (enters_acquired s c b h) i = enter_acquired-Inv s i c b h
Step-Inv (enters_queued s c b h) i = enter_queued-Inv s i c b h
Step-Inv (enters_refused s c b e h) i = enter-refused-Inv s i c b e h
Step-Inv (leaves_acquired s w b p h) i = leave_acquired-Inv s i w b p h
Step-Inv (leaves_refused s w b e p h) i = leave_refused-Inv s i w b e p h
Step-Inv (receives_from_queue s p) i = receive_from_queue-Inv s i p
Step-Inv (counts_running s p) i = count_running-Inv s i p
Step-Inv (finishes s e elapsed now p) i = finish-Inv s i e elapsed now p
Step-Inv (checks_health s now) i = health-Inv s i now
Step-Inv (begins_close s) i = close-Inv s i

-- In every state that the calls of a bulkhead reach, in any interleaving: no more calls hold the
-- semaphore, and so run, than `max_concurrent_calls`, no more wait than `max_queue_size`, the
-- channels hold one token for each of them, `CurrentConcurrentCalls` counts those of them that have
-- got past its increment, modulo 2^64, and every counted call holds the semaphore, waits, or has
-- ended as a success, a failure, a rejection or a panic.
pub Reach-Inv : (s t : System) → Reach s t → Inv s → Inv t
Reach-Inv _ _ (no_step s) i = i
Reach-Inv _ _ (one_more s t u run step) i = Step-Inv step (Reach-Inv s t run i)
