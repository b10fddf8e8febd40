-- ===== src/Breaker/Forced.antt =====
-- The corners of the state machine: `ForceOpen`, a panicking operation, concurrent probes.
use go_patternx.Breaker.Events.{
  Event, run, step, requests, records, records_in_context, forces_open, panics_late,
}
use go_patternx.Breaker.{
  execute, force_open, admit, CircuitBreaker, execute_with_context, panics, state_half_open,
  state_open, context_with, finishes, wrapped, operation_panic, execute_with_recovery,
  execute_with_context_and_recovery, returns,
}
use go_patternx.Base.{
  ℕ, List, some, ◌≡◌, All, none, ◌<◌, arith, incr, replicate, suc, ◌∷◌, [], zero, refl,
}
use go_patternx.Breaker.Invariant.{IsValid}
use go_patternx.Breaker.Recovery.{Admissible, Refusal}

-- What other goroutines may do after a forced opening, as long as no operation that was admitted
-- before it fails: ask, end with success, panic after their context was done, force it open again.
abbrev pub IsHarmless : Event → Type 0
IsHarmless (requests t) = Unit
IsHarmless (records (returns none) t) = Unit
IsHarmless (records_in_context (finishes (returns none)) t) = Unit
IsHarmless panics_late = Unit
IsHarmless (forces_open t) = Unit
IsHarmless _ = ⊥

locked_step :
    (cb : CircuitBreaker) (e : Event)
    → cb.state ≡ state_open
    → cb.last_failure ≡ 0
    → IsHarmless e
    → ((step cb e).state ≡ state_open) × ((step cb e).last_failure ≡ 0)
unfolding step admit execute_with_recovery execute_with_context_and_recovery force_open
locked_step cb (requests t) s f q = ground arith
locked_step cb (records (returns none) t) s f q = ground arith
locked_step cb (records_in_context (finishes (returns none)) t) s f q = ground arith
locked_step cb panics_late s f q = ground arith
locked_step cb (forces_open t) s f q = ground arith
locked_step cb _ s f q = absurd q

locked_run :
    (cb : CircuitBreaker) (es : List Event) (now : ℕ)
    → cb.state ≡ state_open
    → cb.last_failure ≡ 0
    → All IsHarmless es
    → Refusal (run cb es) (admit (run cb es) now)
unfolding run admit
locked_run cb [] now s f q = ground arith
locked_run cb (e ∷ es) now s f q =
    let (s', f') = locked_step cb e s f q.0 in locked_run (step cb e) es now s' f' q.1

-- After `ForceOpen` on a breaker with no failure on record no request is let through, however much
-- later it comes than the timeout: whatever requests, late successes, late panics and further
-- forced openings come in between, the next request is refused. An operation that was admitted
-- before, and that fails only now, is excluded, and so are `ForceClose` and `Reset`.
pub force_open-refuses :
    (cb : CircuitBreaker) (forced now : ℕ) (es : List Event)
    → cb.last_failure ≡ 0
    → All IsHarmless es
    → Refusal (run (force_open cb forced) es) (admit (run (force_open cb forced) es) now)
unfolding force_open
force_open-refuses cb forced now es f q = locked_run (force_open cb forced) es now refl f q

-- For an admissible request: an operation that panics under `Execute` is recorded as a failure
-- and a panic, and yet `Execute` returns no error; `ExecuteWithContext` with a live context
-- returns ErrOperationPanic.
pub execute_panics :
    (cb : CircuitBreaker) (now later : ℕ)
    → Admissible cb now
    → ((execute cb (some panics) now later).1 ≡ none)
      × ((execute cb (some panics) now later).0.total_failures ≡ incr cb.total_failures)
      × ((execute cb (some panics) now later).0.total_panics ≡ incr cb.total_panics)
      × ((execute_with_context cb (context_with none) (some (finishes panics)) now later).1
          ≡ some (wrapped operation_panic))
unfolding execute execute_with_context
execute_panics cb now later a = ground arith

still_probing :
    (cb : CircuitBreaker) (now : ℕ)
    → cb.state ≡ state_half_open
    → cb.success_count < cb.half_open_max
    → let cb' = step cb (requests now) in
      (cb'.state ≡ state_half_open) × (cb'.success_count < cb'.half_open_max)
unfolding step admit
still_probing cb now s h = ground arith

probes_admitted :
    (n : ℕ) (cb : CircuitBreaker) (now : ℕ)
    → cb.state ≡ state_half_open
    → cb.success_count < cb.half_open_max
    → (admit (run cb (replicate n (requests now))) now).1 ≡ none
unfolding run admit
probes_admitted zero cb now s h = ground arith
probes_admitted (suc n) cb now s h =
    let (s', h') = still_probing cb now s h in probes_admitted n (step cb (requests now)) now s' h'

-- `half_open_max` does not bound the requests in the half-open state: after any number of
-- requests to a valid half-open breaker, with no operation ended in between, the next one is
-- admitted.
pub half_open-admits :
    (n : ℕ) (cb : CircuitBreaker) (now : ℕ)
    → IsValid cb
    → cb.state ≡ state_half_open
    → (admit (run cb (replicate n (requests now))) now).1 ≡ none
half_open-admits n cb now v s = probes_admitted n cb now s (v.half_open_below s)
