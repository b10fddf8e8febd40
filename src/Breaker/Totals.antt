-- ===== src/Breaker/Totals.antt =====
-- The totals of the breaker against the events that it saw.
use go_patternx.Breaker.Events.{
  Event, run, step, forces_close, resets, records, requests, records_in_context, forces_open,
  panics_late,
}
use go_patternx.Breaker.Config.{ConfigCircuitBreaker, start}
use go_patternx.Breaker.{
  CircuitBreaker, admit, execute_with_recovery, execute_with_context_and_recovery, returns,
  finishes, expires, panics,
}
use go_patternx.Base.{ℕ, List, All, ◌∷◌, arith, some, ◌+◌, none, ◌≡◌, [], word, ◌∙◌, ap}

-- What one event adds to the total of requests, of successes, of failures.
abbrev pub asked : Event → ℕ
asked (requests t) = 1
asked _ = 0

abbrev pub succeeded : Event → ℕ
succeeded (records (returns none) t) = 1
succeeded (records_in_context (finishes (returns none)) t) = 1
succeeded _ = 0

abbrev pub failed : Event → ℕ
failed (records (returns (some e)) t) = 1
failed (records panics t) = 1
failed (records_in_context (finishes (returns (some e))) t) = 1
failed (records_in_context (finishes panics) t) = 1
failed (records_in_context (expires e) t) = 1
failed _ = 0

-- The calls that set the totals to zero.
abbrev pub Clears : Event → Type 0
Clears (forces_close t) = Unit
Clears (resets t) = Unit
Clears _ = ⊥

abbrev pub sum_of : (Event → ℕ) → List Event → ℕ
sum_of f [] = 0
sum_of f (e ∷ es) = f e + sum_of f es

pub record Counts (cb : CircuitBreaker) (r s f : ℕ) : Type 0 where
  pub counted_requests : cb.total_requests ≡ word r
  pub counted_successes : cb.total_successes ≡ word s
  pub counted_failures : cb.total_failures ≡ word f

step-Counts :
    (cb : CircuitBreaker) (e : Event) (r s f : ℕ)
    → ¬ Clears e
    → Counts cb r s f
    → Counts (step cb e) (asked e + r) (succeeded e + s) (failed e + f)
unfolding step admit execute_with_recovery execute_with_context_and_recovery
step-Counts cb (requests t) r s f k c = ground arith
step-Counts cb (records (returns none) t) r s f k c = ground arith
step-Counts cb (records (returns (some e)) t) r s f k c = ground arith
step-Counts cb (records panics t) r s f k c = ground arith
step-Counts cb (records_in_context (finishes (returns none)) t) r s f k c = ground arith
step-Counts cb (records_in_context (finishes (returns (some e))) t) r s f k c = ground arith
step-Counts cb (records_in_context (finishes panics) t) r s f k c = ground arith
step-Counts cb (records_in_context (expires e) t) r s f k c = ground arith
step-Counts cb panics_late r s f k c = ground arith
step-Counts cb (forces_open t) r s f k c = ground arith
step-Counts cb (forces_close t) r s f k c = absurd (k tt)
step-Counts cb (resets t) r s f k c = absurd (k tt)

Counts-congr :
    (cb : CircuitBreaker) {r r' s s' f f' : ℕ}
    → r ≡ r'
    → s ≡ s'
    → f ≡ f'
    → Counts cb r s f
    → Counts cb r' s' f'
Counts-congr cb p q t c = record {
  counted_requests = c.counted_requests ∙ ap word p;
  counted_successes = c.counted_successes ∙ ap word q;
  counted_failures = c.counted_failures ∙ ap word t;
}

run-Counts_from :
    (cb : CircuitBreaker) (es : List Event) (r s f : ℕ)
    → All (λ e. ¬ Clears e) es
    → Counts cb r s f
    → Counts (run cb es) (sum_of asked es + r) (sum_of succeeded es + s) (sum_of failed es + f)
unfolding run
run-Counts_from cb [] r s f k c = Counts-congr cb (omega arith) (omega arith) (omega arith) c
run-Counts_from cb (e ∷ es) r s f k c =
    Counts-congr (run (step cb e) es) (omega arith) (omega arith) (omega arith)
      (run-Counts_from (step cb e) es _ _ _ k.1 (step-Counts cb e r s f k.0 c))

-- From a new breaker and until the totals are cleared, over any interleaving of goroutines: the
-- totals are, as 64-bit counters, the numbers of requests made and of successes and failures
-- recorded.
pub run-Counts :
    (c : ConfigCircuitBreaker) (now : ℕ) (es : List Event)
    → All (λ e. ¬ Clears e) es
    → Counts (run (start c now) es) (sum_of asked es) (sum_of succeeded es) (sum_of failed es)
run-Counts c now es k =
    Counts-congr (run (start c now) es) (omega arith) (omega arith) (omega arith)
      (run-Counts_from (start c now) es 0 0 0 k (ground arith))
