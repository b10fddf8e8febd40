-- ===== src/Dlq/Events.antt =====
-- The calls on a dead letter queue and the steps of its workers, in any order.
use go_patternx.Dlq.{
  DeadLetterQueue, begin_add, FailedOperation, GoError, Metrics, String, finish_add,
  register_handler, clear_queue, begin_close, begin_probe, end_probe,
}
use go_patternx.Base.{zero, List, Option, ◌+◌, ℕ, ◌∷◌, some, Bool, [], none, suc}
use go_patternx.Dlq.Workers.{Move, move}

pub data Event : Type 0 where
  begins_add : Option FailedOperation → String → ℕ → Event
  finishes_add : ℕ → Event
  registers : String → Bool → Event
  clears closes begins_probe ends_probe : Event
  moves : ℕ → Move → Event

-- The queue, with what has happened so far: how many operations `AddFailedOperation` took in, how
-- many of them it gave back because `workerChan` stayed full, how many `IsHealthy` received from
-- the channel, and what `ClearQueue` has taken from `CurrentQueue`.
pub record History : Type 0 where
  pub dlq : DeadLetterQueue
  pub added : ℕ
  pub refused : ℕ
  pub lost : ℕ
  pub cleared : ℕ

abbrev pub if_none : Option GoError → ℕ
if_none none = 1
if_none (some e) = 0

abbrev pub if_some : Option GoError → ℕ
if_some none = 0
if_some (some e) = 1

abbrev pub current_of : Option Metrics → ℕ
current_of none = 0
current_of (some m) = m.current_queue

-- The operations that stand first in the channel.
abbrev pub first_real : List (Option ℕ) → ℕ
first_real [] = 0
first_real (none ∷ c) = 0
first_real (some a ∷ c) = 1

-- What a probe that ends receives, if there is one.
abbrev pub probe_takes : DeadLetterQueue → ℕ
probe_takes d = elim d.probing [ zero ↦ 0 | suc n ↦ first_real d.worker_chan ]

-- A step that is not possible leaves all as it is.
unfoldable pub step : History → Event → History
step h (begins_add op fresh now) =
    let (d, e) = begin_add h.dlq op fresh now in record h { dlq = d; added = h.added + if_none e }
step h (finishes_add k) = elim (finish_add h.dlq k) [
  | none ↦ h
  | some (d, e) ↦ record h { dlq = d; refused = h.refused + if_some e }
]
step h (registers operation_type has) = record h {
  dlq = (register_handler h.dlq operation_type has).0;
}
step h clears = record h { dlq = clear_queue h.dlq; cleared = h.cleared + current_of h.dlq.metrics }
step h closes = record h { dlq = begin_close h.dlq }
step h begins_probe = record h { dlq = (begin_probe h.dlq).0 }
step h ends_probe = record h { dlq = end_probe h.dlq; lost = h.lost + probe_takes h.dlq }
step h (moves i m) = elim (move h.dlq i m) [ none ↦ h | some d ↦ record h { dlq = d } ]

unfoldable pub run : History → List Event → History
unfolding step
run h [] = h
run h (e ∷ es) = run (step h e) es

abbrev pub begin : DeadLetterQueue → History
begin d = record { dlq = d; added = 0; refused = 0; lost = 0; cleared = 0 }
