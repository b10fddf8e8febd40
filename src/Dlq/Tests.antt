-- ===== src/Dlq/Tests.antt =====
-- A dead letter queue of one worker, and one operation on its way through it.
use go_patternx.Base.{
  All, List, ◌*◌, none, some, ◌++◌, minute, pos, ◌≡◌, [], refl, true, false, ◌∷◌, arith,
}
use go_patternx.Dlq.Config.{ConfigDlq, new_dead_letter_queue, default_config, no_metrics}
use go_patternx.Dlq.Conservation.{Conserved, metrics_of, run-Conserved}
use go_patternx.Dlq.{
  DeadLetterQueue, FailedOperation, ok, receiving, finish_add, begin_add, register_handler,
  begin_probe, end_probe, has_handler,
}
use go_patternx.Dlq.Retries.{Retried, IsFresh, run-Retried}
use go_patternx.Dlq.Events.{
  run, Event, begin, moves, registers, begins_probe, begins_add, ends_probe, finishes_add,
}
use go_patternx.Dlq.Workers.{receives, checks, wakes, decides, tries, requeues, move, advance}
use go_patternx.Errors.{user}

abbrev small_config : ConfigDlq
small_config = record default_config {
  max_retries = pos 2;
  worker_count = pos 1;
  queue_size = pos 10;
}

abbrev small : DeadLetterQueue
small = record {
  max_retries = 2;
  retry_delay = 5 * minute;
  queue_size = 10;
  heap = [];
  queue = [];
  handlers = [];
  closed = 0;
  cancelled = false;
  worker_chan = [];
  workers = receiving ∷ [];
  metrics = some no_metrics;
  adding = [];
  probing = 0;
}

abbrev write : FailedOperation
write = record {
  id = "w";
  operation = "write";
  key = "k";
  handler_type = "wb";
  error = none;
  retry_count = pos 0;
  max_retries = pos 0;
  created_at = none;
  last_retry = none;
  next_retry = some 7;
}

-- A retry at time 9 that fails, or at the end of the retries does not take place.
abbrev failing : List Event
failing =
    moves 0 receives
    ∷ moves 0 (checks 8)
    ∷ moves 0 wakes
    ∷ moves 0 (decides true 8)
    ∷ moves 0 (tries (some (user 1)) 1 8)
    ∷ moves 0 requeues
    ∷ []

abbrev added : List Event
added = registers "wb" true ∷ begins_add (some write) "f" 1 ∷ finishes_add 0 ∷ []

-- After two retries, of which the later one waits for its time, the operation is dropped.
abbrev whole_life : List Event
whole_life = added ++ failing ++ failing ++ failing

-- A probe receives the operation, and puts a nil in its place.
abbrev probed : List Event
probed = added ++ begins_probe ∷ ends_probe ∷ []

made : new_dead_letter_queue (some small_config) ≡ ok small
unfolding new_dead_letter_queue
made = refl

dropped : (metrics_of (run (begin small) whole_life).dlq).total_dropped ≡ 1
unfolding run move finish_add begin_add register_handler advance has_handler
dropped = refl

retried_twice : (metrics_of (run (begin small) whole_life).dlq).total_retried ≡ 2
unfolding run move finish_add begin_add register_handler advance has_handler
retried_twice = refl

probe_loses : (run (begin small) probed).lost ≡ 1
unfolding run finish_add begin_add register_handler begin_probe end_probe
probe_loses = refl

run-Conserved_example : Conserved (run (begin small) probed)
run-Conserved_example = run-Conserved small_config small probed made refl

abbrev all_fresh : All IsFresh whole_life
all_fresh = ground arith

run-Retried_example : Retried (run (begin small) whole_life)
run-Retried_example = run-Retried small_config small whole_life made refl all_fresh
