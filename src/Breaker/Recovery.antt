-- ===== src/Breaker/Recovery.antt =====
-- How the breaker opens, refuses, probes and closes again.
use mathlib.Core.Path.{subst}
use go_patternx.Base.{
  ℕ, zero, suc, ◌+◌, ◌≤◌, ◌<◌, ◌≡◌, ◌≢◌, ◌-◌, ◌⊎◌, Option, none, some, List, arith, replicate, incr,
  All, ◌∷◌, [], sym, refl,
}
use go_patternx.Errors.{GoError, sentinel, circuit_breaker_open}
use go_patternx.Breaker.{
  CircuitBreaker, state_closed, state_open, state_half_open, returns, admit, execute_with_recovery,
}
use go_patternx.Breaker.Events.{Event, records, step, run, requests, panics_late, answer, answers}
use go_patternx.Breaker.Invariant.{IsValid, step-IsValid}

-- When a request may run: closed; or open, with a failure on record and the timeout over; or
-- half-open, with successes missing.
abbrev pub Admissible : CircuitBreaker → ℕ → Type 0
Admissible cb now =
    (cb.state ≡ state_closed)
    ⊎ ((cb.state ≡ state_open) × (cb.last_failure ≢ 0) × (cb.last_failure + cb.timeout ≤ now))
    ⊎ ((cb.state ≡ state_half_open) × (cb.success_count < cb.half_open_max))

abbrev pub Refusal : CircuitBreaker → CircuitBreaker × Option GoError → Type 0
Refusal cb r =
    (r.0 ≡ record cb { total_requests = incr cb.total_requests })
    × (r.1 ≡ some (sentinel circuit_breaker_open))

-- A request is admitted exactly when it is admissible; otherwise it gets ErrCircuitBreakerOpen
-- and nothing but the count of requests has changed.
pub admit-Admissible :
    (cb : CircuitBreaker) (now : ℕ)
    → (Admissible cb now × ((admit cb now).1 ≡ none))
      ⊎ ((¬ Admissible cb now) × Refusal cb (admit cb now))
unfolding admit
admit-Admissible cb now = ground arith

abbrev pub fails : GoError → ℕ → ℕ → List Event
fails e now n = replicate n (records (returns (some e)) now)

-- Requests that come one after the other, each of which succeeds before the next one.
pub probes : ℕ → ℕ → ℕ → List Event
probes now later zero = []
probes now later (suc n) = requests now ∷ records (returns none) later ∷ probes now later n

fail_once :
    (cb : CircuitBreaker) (e : GoError) (now n : ℕ)
    → IsValid cb
    → cb.state ≡ state_closed
    → cb.failure_count + suc (suc n) ≡ cb.threshold
    → let cb' = step cb (records (returns (some e)) now) in
      (cb'.state ≡ state_closed) × (cb'.failure_count + suc n ≡ cb'.threshold)
unfolding step execute_with_recovery
fail_once cb e now n v s h = ground arith

-- A valid closed breaker that is n + 1 failures short of its threshold is open after that many
-- failures in a row, with the time of the last failure on record and the health flag down.
pub fails-opens :
    (cb : CircuitBreaker) (e : GoError) (now n : ℕ)
    → IsValid cb
    → cb.state ≡ state_closed
    → cb.failure_count + suc n ≡ cb.threshold
    → let after = run cb (fails e now (suc n)) in
      (after.state ≡ state_open) × (after.last_failure ≡ now) × (after.health_status ≡ 0)
unfolding run step
fails-opens cb e now zero v s h = ground arith
fails-opens cb e now (suc n) v s h =
    let (s', h') = fail_once cb e now n v s h in
    fails-opens (step cb (records (returns (some e)) now)) e now n
      (step-IsValid cb (records (returns (some e)) now) v) s' h'

abbrev pub IsRecovered : CircuitBreaker → Type 0
IsRecovered cb = (cb.state ≡ state_closed) × (cb.failure_count ≡ 0) × (cb.health_status ≡ 1)

-- Every step returns nil to its caller: each request is let through.
abbrev pub AllNil : List (Option GoError) → Type 0
AllNil = All (λ e. e ≡ none)

-- A request at `now` is let through, and the breaker then needs `k` successes more to close.
abbrev Asks : CircuitBreaker → ℕ → ℕ → Type 0
Asks cb now k =
    let asked = step cb (requests now) in
    (answer cb (requests now) ≡ none)
    × (asked.state ≡ state_half_open)
    × (asked.success_count + k ≡ asked.half_open_max)

succeed_last :
    (cb : CircuitBreaker) (later : ℕ)
    → IsValid cb
    → cb.state ≡ state_half_open
    → cb.success_count + 1 ≡ cb.half_open_max
    → IsRecovered (step cb (records (returns none) later))
unfolding step execute_with_recovery
succeed_last cb later v s h = ground arith

succeed_once :
    (cb : CircuitBreaker) (now later n : ℕ)
    → IsValid cb
    → cb.state ≡ state_half_open
    → cb.success_count + suc (suc n) ≡ cb.half_open_max
    → Asks (step cb (records (returns none) later)) now (suc n)
unfolding step answer execute_with_recovery admit
succeed_once cb now later n v s h = ground arith

probes-recover :
    (cb : CircuitBreaker) (now later n : ℕ)
    → IsValid cb
    → Asks cb now (suc n)
    → AllNil (answers cb (probes now later (suc n)))
      × IsRecovered (run cb (probes now later (suc n)))
unfolding probes run answers answer
probes-recover cb now later zero v (passes, s, h) =
    let asked = step cb (requests now) in
    ((passes, (refl, tt)), succeed_last asked later (step-IsValid cb (requests now) v) s h)
probes-recover cb now later (suc n) v (passes, s, h) =
    let asked = step cb (requests now) in
    let valid = step-IsValid cb (requests now) v in
    let done = step asked (records (returns none) later) in
    let (rest, recovered) =
      probes-recover done now later n (step-IsValid asked (records (returns none) later) valid)
        (succeed_once asked now later n valid s h) in
    ((passes, (refl, rest)), recovered)

open-Asks :
    (cb : CircuitBreaker) (now n : ℕ)
    → cb.state ≡ state_open
    → cb.last_failure ≢ 0
    → cb.last_failure + cb.timeout ≤ now
    → cb.half_open_max ≡ suc n
    → Asks cb now (suc n)
unfolding step answer admit
open-Asks cb now n s f h m = ground arith

-- A valid open breaker with a failure on record whose timeout is over closes again: of
-- `half_open_max` requests, each of which succeeds before the next one comes, every one is let
-- through, and the last success leaves the breaker closed, healthy and with no failure counted.
pub requests-succeeds-closes :
    (cb : CircuitBreaker) (now later : ℕ)
    → IsValid cb
    → cb.state ≡ state_open
    → cb.last_failure ≢ 0
    → cb.last_failure + cb.timeout ≤ now
    → AllNil (answers cb (probes now later cb.half_open_max))
      × IsRecovered (run cb (probes now later cb.half_open_max))
requests-succeeds-closes cb now later v s f h =
    let full : cb.half_open_max ≡ suc (cb.half_open_max - 1) = omega (arith, v.half_open_pos) in
    subst
      (λ k. AllNil (answers cb (probes now later k)) × IsRecovered (run cb (probes now later k)))
      (sym full)
      (probes-recover cb now later (cb.half_open_max - 1) v
        (open-Asks cb now (cb.half_open_max - 1) s f h full))

-- What other goroutines may do while the breaker is to stay open: ask before the deadline,
-- end with success, or panic after their context was done.
abbrev pub IsQuiet : ℕ → Event → Type 0
IsQuiet deadline (requests t) = t < deadline
IsQuiet deadline (records (returns none) t) = Unit
IsQuiet deadline panics_late = Unit
IsQuiet deadline _ = ⊥

quiet_step :
    (cb : CircuitBreaker) (e : Event)
    → cb.state ≡ state_open
    → IsQuiet (cb.last_failure + cb.timeout) e
    → let cb' = step cb e in
      (cb'.state ≡ state_open) × (cb'.last_failure ≡ cb.last_failure) × (cb'.timeout ≡ cb.timeout)
unfolding step admit execute_with_recovery
quiet_step cb (requests t) s q = ground arith
quiet_step cb (records (returns none) t) s q = ground arith
quiet_step cb panics_late s q = ground arith
quiet_step cb _ s q = absurd q

refused :
    (cb : CircuitBreaker) (now : ℕ)
    → cb.state ≡ state_open
    → now < cb.last_failure + cb.timeout
    → Refusal cb (admit cb now)
unfolding admit
refused cb now s h = ground arith

-- While the timeout of its last failure runs, an open breaker refuses every request, whatever
-- requests and late successes came before.
pub run-refuses :
    (cb : CircuitBreaker) (es : List Event) (now : ℕ)
    → cb.state ≡ state_open
    → All (IsQuiet (cb.last_failure + cb.timeout)) es
    → now < cb.last_failure + cb.timeout
    → Refusal (run cb es) (admit (run cb es) now)
unfolding run
run-refuses cb [] now s q h = refused cb now s h
run-refuses cb (e ∷ es) now s q h =
    let (s', f, t) = quiet_step cb e s q.0 in
    run-refuses (step cb e) es now s' (rw (f, t) q.1) (rw (f, t) h)
