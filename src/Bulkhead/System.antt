-- ===== src/Bulkhead/System.antt =====
-- A bulkhead with the calls that wait in its queue and those that run, as interleaved steps.
use go_patternx.Bulkhead.{
  Bulkhead, Call, Ending, enter, panics, acquired, queued, GoError, refused, WaitEnd, leave_queue,
  finish, is_healthy, begin_close, receive_from_queue, count_running,
}
use go_patternx.Base.{ℕ, ◌≡◌, ◌+◌, ◌<◌, some, ◌-◌}

abbrev pub panicked : Ending → ℕ
panicked panics = 1
panicked _ = 0

pub record System : Type 0 where
  pub bulkhead : Bulkhead
  pub waiting : ℕ
  -- The calls from the queue that have sent to the semaphore and are still in the queue.
  pub moving : ℕ
  -- The calls that hold the semaphore and do not count yet.
  pub counting : ℕ
  pub running : ℕ
  -- The calls whose function panicked.
  pub crashed : ℕ

-- One step of some goroutine, as the source lets it happen. A step that makes a goroutine panic
-- on a closed channel is none: such a call is gone, with what it had.
pub data Step : System → System → Type 0 where
  enters_acquired :
      (s : System) (c : Call) (b : Bulkhead)
      → enter s.bulkhead c ≡ acquired b
      → Step s (record s { bulkhead = b; counting = s.counting + 1 })
  enters_queued :
      (s : System) (c : Call) (b : Bulkhead)
      → enter s.bulkhead c ≡ queued b
      → Step s (record s { bulkhead = b; waiting = s.waiting + 1 })
  enters_refused :
      (s : System) (c : Call) (b : Bulkhead) (e : GoError)
      → enter s.bulkhead c ≡ refused b e
      → Step s (record s { bulkhead = b })
  leaves_acquired :
      (s : System) (w : WaitEnd) (b : Bulkhead)
      → 0 < s.waiting
      → leave_queue s.bulkhead w ≡ some (acquired b)
      → Step s (record s { bulkhead = b; waiting = s.waiting - 1; moving = s.moving + 1 })
  receives_from_queue :
      (s : System)
      → 0 < s.moving
      → Step s (record s {
        bulkhead = receive_from_queue s.bulkhead;
        moving = s.moving - 1;
        counting = s.counting + 1;
      })
  counts_running :
      (s : System)
      → 0 < s.counting
      → Step s (record s {
        bulkhead = count_running s.bulkhead;
        counting = s.counting - 1;
        running = s.running + 1;
      })
  leaves_refused :
      (s : System) (w : WaitEnd) (b : Bulkhead) (e : GoError)
      → 0 < s.waiting
      → leave_queue s.bulkhead w ≡ some (refused b e)
      → Step s (record s { bulkhead = b; waiting = s.waiting - 1 })
  finishes :
      (s : System) (e : Ending) (elapsed now : ℕ)
      → 0 < s.running
      → Step s (record s {
        bulkhead = finish s.bulkhead e elapsed now;
        running = s.running - 1;
        crashed = s.crashed + panicked e;
      })
  checks_health :
      (s : System) (now : ℕ) → Step s (record s { bulkhead = (is_healthy s.bulkhead now).0 })
  begins_close : (s : System) → Step s (record s { bulkhead = (begin_close s.bulkhead).0 })

-- The second state comes from the first by any number of steps.
pub data Reach : System → System → Type 0 where
  no_step : (s : System) → Reach s s
  one_more : (s t u : System) → Reach s t → Step t u → Reach s u
