-- ===== src/Breaker/Tests.antt =====
-- The breaker at concrete inputs: two failures open it, ten seconds pass, two successes close it.
use go_patternx.Breaker.{
  CircuitBreaker, admit, execute, force_open, state_half_open, state_open, panics,
  execute_with_context, returns, context_with, finishes, wrapped, operation_panic,
}
use go_patternx.Breaker.Config.{ConfigCircuitBreaker, InRange, start}
use go_patternx.Breaker.Totals.{Counts, sum_of, asked, succeeded, failed, run-Counts}
use go_patternx.Breaker.Recovery.{
  IsRecovered, Refusal, fails, fails-opens, requests-succeeds-closes, run-refuses, AllNil, probes,
}
use go_patternx.Breaker.Invariant.{IsValid, start-IsValid, run-IsValid}
use go_patternx.Breaker.Events.{run, requests, step, records, forces_open, Event, answers}
use go_patternx.Base.{
  arith, pos, replicate, some, ◌≡◌, ◌*◌, none, ◌∷◌, [], incr, second, hour, refl, inl, List,
}
use go_patternx.Errors.{user}
use go_patternx.Breaker.Forced.{half_open-admits, force_open-refuses, execute_panics}

abbrev tiny_config : ConfigCircuitBreaker
tiny_config = record { threshold = pos 2; timeout = pos (10 * second); half_open_max = pos 2 }

abbrev fresh : CircuitBreaker
fresh = start tiny_config 1

abbrev tripped : CircuitBreaker
tripped = record fresh {
  state = state_open;
  last_failure = 5;
  health_status = 0;
  failure_count = 2;
}

abbrev probing : CircuitBreaker
probing = record tripped { state = state_half_open }

tiny_config-InRange : InRange tiny_config
tiny_config-InRange = omega arith

tripped-IsValid : IsValid tripped
tripped-IsValid = ground arith

probing-IsValid : IsValid probing
probing-IsValid = ground arith

trips :
    run fresh (fails (user 7) 5 2) ≡ record tripped { total_failures = 2; last_state_change = 5 }
unfolding run step
trips = refl

run-IsValid_example : IsValid (run fresh (requests 2 ∷ records panics 3 ∷ forces_open 4 ∷ []))
run-IsValid_example =
    run-IsValid fresh (requests 2 ∷ records panics 3 ∷ forces_open 4 ∷ [])
      (start-IsValid tiny_config 1 tiny_config-InRange)

fails-opens_example :
    let after = run fresh (fails (user 7) 5 2) in
    (after.state ≡ state_open) × (after.last_failure ≡ 5) × (after.health_status ≡ 0)
fails-opens_example =
    fails-opens fresh (user 7) 5 1 (start-IsValid tiny_config 1 tiny_config-InRange) refl
      (omega arith)

requests-succeeds-closes_example :
    AllNil (answers tripped (probes (11 * second) (12 * second) tripped.half_open_max))
    × IsRecovered (run tripped (probes (11 * second) (12 * second) tripped.half_open_max))
requests-succeeds-closes_example =
    requests-succeeds-closes tripped (11 * second) (12 * second) tripped-IsValid refl (omega arith)
      (omega arith)

run-refuses_example :
    Refusal
      (run tripped (requests 6 ∷ records (returns none) 7 ∷ []))
      (admit (run tripped (requests 6 ∷ records (returns none) 7 ∷ [])) 8)
run-refuses_example =
    run-refuses tripped (requests 6 ∷ records (returns none) 7 ∷ []) 8 refl (omega arith, (tt, tt))
      (omega arith)

abbrev after_forcing : List Event
after_forcing = requests 3 ∷ records (returns none) 4 ∷ []

force_open-refuses_example :
    Refusal
      (run (force_open fresh 2) after_forcing)
      (admit (run (force_open fresh 2) after_forcing) (100 * hour))
force_open-refuses_example =
    force_open-refuses fresh 2 (100 * hour) after_forcing refl (tt, (tt, tt))

execute_panics_example :
    ((execute fresh (some panics) 2 3).1 ≡ none)
    × ((execute fresh (some panics) 2 3).0.total_failures ≡ incr fresh.total_failures)
    × ((execute fresh (some panics) 2 3).0.total_panics ≡ incr fresh.total_panics)
    × ((execute_with_context fresh (context_with none) (some (finishes panics)) 2 3).1
        ≡ some (wrapped operation_panic))
execute_panics_example = execute_panics fresh 2 3 (inl refl)

half_open-admits_example : (admit (run probing (replicate 50 (requests 9))) 9).1 ≡ none
half_open-admits_example = half_open-admits 50 probing 9 probing-IsValid refl

run-Counts_example :
    Counts
      (run fresh (requests 2 ∷ records panics 3 ∷ []))
      (sum_of asked (requests 2 ∷ records panics 3 ∷ []))
      (sum_of succeeded (requests 2 ∷ records panics 3 ∷ []))
      (sum_of failed (requests 2 ∷ records panics 3 ∷ []))
run-Counts_example =
    run-Counts tiny_config 1 (requests 2 ∷ records panics 3 ∷ []) ((λ h. h), ((λ h. h), tt))
