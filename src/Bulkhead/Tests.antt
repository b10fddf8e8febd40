-- ===== src/Bulkhead/Tests.antt =====
-- A bulkhead for two calls with a queue for one, step by step.
use go_patternx.Bulkhead.{
  Bulkhead, Call, close_channels, enter, context_with, leave_queue, acquired, finish, reset_metrics,
  returns_ok, sends_semaphore, count_running, receive_from_queue,
}
use go_patternx.Bulkhead.Config.{BulkheadConfig, default_config, start}
use go_patternx.Bulkhead.Invariant.{Inv, Reach-Inv}
use go_patternx.Bulkhead.Entry.{Fills, enter_all, enter_all-Fills}
use go_patternx.Bulkhead.System.{Reach, System, no_step, one_more, enters_acquired}
use go_patternx.Base.{arith, false, ◌≡◌, none, pos, refl, some, true, ◌+◌, word, List, ◌∷◌, []}
use go_patternx.Bulkhead.Shutdown.{finish_all, reset_metrics-finish_all, finish-leave_queue}

abbrev small_config : BulkheadConfig
small_config = record default_config { max_concurrent_calls = pos 2; max_queue_size = pos 1 }

abbrev idle : System
idle = record {
  bulkhead = start small_config 1;
  waiting = 0;
  moving = 0;
  counting = 0;
  running = 0;
  crashed = 0;
}

abbrev live_call : Call
live_call = record {
  context = context_with none;
  has_function = true;
  done = none;
  prefers_done = false;
}

abbrev one_in : Bulkhead
one_in = record (start small_config 1) {
  semaphore = 1;
  metrics = record ((start small_config 1).metrics) { total_calls = 1 };
}

idle-Inv : Inv idle
idle-Inv = ground arith

enters : enter idle.bulkhead live_call ≡ acquired one_in
unfolding enter
enters = refl

abbrev after_enter : System
after_enter = record idle { bulkhead = one_in; counting = 1 }

-- Two run and one waits.
abbrev full : System
full = record {
  bulkhead = record one_in {
    semaphore = 2;
    queue = 1;
    metrics = record (one_in.metrics) { total_calls = 3; current_concurrent_calls = 2 };
  };
  waiting = 1;
  moving = 0;
  counting = 0;
  running = 2;
  crashed = 0;
}

full-Inv : Inv full
full-Inv = ground arith

full-Reach : Reach idle after_enter
full-Reach =
    one_more idle idle after_enter (no_step idle) (enters_acquired idle live_call one_in enters)

Reach-Inv_example : Inv after_enter
Reach-Inv_example = Reach-Inv idle after_enter full-Reach idle-Inv

finish-leave_queue_example :
    (b : Bulkhead) × (leave_queue (finish full.bulkhead returns_ok 5 9) sends_semaphore
      ≡ some (acquired b))
    × ((count_running (receive_from_queue b)).semaphore ≡ 2)
    × ((count_running (receive_from_queue b)).queue + 1 ≡ 1)
    × ((count_running (receive_from_queue b)).current_concurrent_calls ≡ word 2)
finish-leave_queue_example =
    finish-leave_queue full returns_ok 5 9 full-Inv refl (omega arith) (omega arith)

reset_metrics-finish_all_example :
    close_channels (finish_all 2 (reset_metrics full.bulkhead 4) returns_ok 5 9) false ≡ none
reset_metrics-finish_all_example =
    reset_metrics-finish_all 1 full.bulkhead returns_ok 4 5 9 (omega arith)

abbrev five : List Call
five = live_call ∷ live_call ∷ live_call ∷ live_call ∷ live_call ∷ []

enter_all-Fills_example : Fills idle.bulkhead 5 (enter_all idle.bulkhead five)
enter_all-Fills_example = enter_all-Fills idle.bulkhead five (refl, refl) (ground arith)

two_turned_away : (enter_all idle.bulkhead five).turned_away ≡ 2
unfolding enter_all enter
two_turned_away = refl
