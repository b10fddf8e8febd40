-- ===== src/Bulkhead/Shutdown.antt =====
-- What a finished call leaves behind: room for a waiting call, and an end to `Close`.
use go_patternx.Bulkhead.{
  close_channels, leave_queue, reset_metrics, Bulkhead, finish, Ending, sends_semaphore, acquired,
  returns_error, returns_ok, panics, receive_from_queue, count_running,
}
use go_patternx.Base.{ℕ, ◌+◌, ◌<◌, suc, ◌≡◌, ◌^◌, false, zero, none, arith, some, word, decr, refl}
use go_patternx.Bulkhead.System.{System}
use go_patternx.Bulkhead.Invariant.{Inv, holding}

abbrev taken : Bulkhead → Bulkhead
taken b = record b { semaphore = b.semaphore + 1 }

-- A call that ends hands its place on: while calls run and wait and the channels are open,
-- after a call ends the send to the semaphore of a waiting call goes through, and once that call
-- has left the queue and is counted, as many hold the semaphore and run as before, and one waits
-- less.
pub finish-leave_queue :
    (s : System) (e : Ending) (elapsed now : ℕ)
    → Inv s
    → s.bulkhead.channels_closed ≡ false
    → 0 < s.running
    → 0 < s.waiting
    → (b : Bulkhead) × (leave_queue (finish s.bulkhead e elapsed now) sends_semaphore
        ≡ some (acquired b))
      × ((count_running (receive_from_queue b)).semaphore ≡ holding s)
      × ((count_running (receive_from_queue b)).queue + 1 ≡ s.waiting + s.moving)
      × ((count_running (receive_from_queue b)).current_concurrent_calls ≡ word s.running)
unfolding leave_queue finish receive_from_queue count_running
finish-leave_queue s returns_ok elapsed now i c r w = (
  taken (finish s.bulkhead returns_ok elapsed now),
  ground arith,
  ground arith,
  ground arith,
  ground arith,
)
finish-leave_queue s (returns_error e) elapsed now i c r w = (
  taken (finish s.bulkhead (returns_error e) elapsed now),
  ground arith,
  ground arith,
  ground arith,
  ground arith,
)
finish-leave_queue s panics elapsed now i c r w = (
  taken (finish s.bulkhead panics elapsed now),
  ground arith,
  ground arith,
  ground arith,
  ground arith,
)

-- The calls that run end one after the other.
pub finish_all : ℕ → Bulkhead → Ending → ℕ → ℕ → Bulkhead
finish_all zero b e elapsed now = b
finish_all (suc n) b e elapsed now = finish_all n (finish b e elapsed now) e elapsed now

finish-current :
    (b : Bulkhead) (e : Ending) (elapsed now : ℕ)
    → (finish b e elapsed now).current_concurrent_calls ≡ decr b.current_concurrent_calls
unfolding finish
finish-current b returns_ok elapsed now = refl
finish-current b (returns_error e) elapsed now = refl
finish-current b panics elapsed now = refl

finish_all_below :
    (n k : ℕ) (b : Bulkhead) (e : Ending) (elapsed now : ℕ)
    → b.current_concurrent_calls + k ≡ 2 ^ 64
    → 0 < k
    → k + n < 2 ^ 64
    → close_channels (finish_all n b e elapsed now) false ≡ none
unfolding finish_all close_channels
finish_all_below zero k b e elapsed now h p q = ground arith
finish_all_below (suc n) k b e elapsed now h p q =
    finish_all_below n (k + 1) (finish b e elapsed now) e elapsed now
      (omega (arith, finish-current b e elapsed now)) (omega arith) (omega arith)

-- `ResetMetrics` while calls run spoils the count that `Close` waits on: once one or more calls
-- that ran have ended (fewer than 2^64 of them), the count is not zero, and a tick of `Close`
-- goes on waiting although they are gone.
pub reset_metrics-finish_all :
    (n : ℕ) (b : Bulkhead) (e : Ending) (reset elapsed now : ℕ)
    → suc n < 2 ^ 64
    → close_channels (finish_all (suc n) (reset_metrics b reset) e elapsed now) false ≡ none
unfolding finish_all reset_metrics
reset_metrics-finish_all n b e reset elapsed now h =
    finish_all_below n 1 (finish (reset_metrics b reset) e elapsed now) e elapsed now
      (omega (arith, finish-current (reset_metrics b reset) e elapsed now)) (omega arith)
      (omega arith)
