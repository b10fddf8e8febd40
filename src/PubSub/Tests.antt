-- ===== src/PubSub/Tests.antt =====
-- A small system with one topic and one subscription.
use go_patternx.Base.{
  [], ◌∷◌, refl, List, ◌≡◌, false, leb, none, pos, ℕ, ◌&&◌, some, ◌||◌, length, true,
}
use go_patternx.PubSub.Delivering.{is_timeout}
use go_patternx.PubSub.System.{check_subscribe}
use go_patternx.PubSub.Validation.{validate_subscription_id}
use go_patternx.PubSub.Topics.{add_subscription}
use Prim.Native.Char.{code}
use Prim.Native.String.{[] as no_text, ◌∷◌ as ◌then◌}
use go_patternx.PubSub.Config.{ConfigPubSub, default_config, validate_config, apply_defaults}
use go_patternx.PubSub.Delivering.{
  HandlerRun, UserErrors, DeliveryRun, panics, returns, deliver_with_retry, end_delivery, is_open,
  matches_filter,
}
use go_patternx.PubSub.{MessageFilter, TopicPubSub, MessagePubSub, SubscriptionPubSub}
use Prim.Native.String.{String}
use go_patternx.PubSub.Validation.{Unicode, validate_topic_name, validate_headers, validate_message}
use go_patternx.PubSub.TopicEvents.{
  run, Event, begin, subscribes, begins_message, finishes_message, receives, starts_delivery,
  finishes_delivery, ends_wait,
}
use go_patternx.PubSub.Topics.{
  new_topic, new_subscription, finish_message, begin_message, add_subscription, remove_at,
}
use go_patternx.Errors.{user, ok, text, annotate}
use go_patternx.PubSub.Processing.{
  all_done, end_wait, finish_delivery, start_delivery, receive_message, spawn_all,
}
use go_patternx.PubSub.Publishing.{
  Attempt, CallRun, PublishRun, publish, call_checked, execute, call_admitted, record_end,
  publish_with_retry, publish_attempts, publish_message, if_alive, publish_slotted, acquire_slot,
  give_up, go_on, publish_with_slot, end_send,
}
use go_patternx.PubSub.Balance.{Balanced, run-Balanced}
use go_patternx.PubSub.Order.{InOrder, run-InOrder}
use go_patternx.PubSub.System.{
  PubSub, close, new_pubsub, subscribe, CallEnd, create_topic, fresh_pubsub, insert_subscription,
  returned,
}
use go_patternx.PubSub.Sending.{Publishes, queue_of}
use go_patternx.PubSub.Attempts.{
  Retries, add_retried, end_delivery-ignores_breaker, deliver_with_retry-fail,
}
use go_patternx.PubSub.Batches.{Sends, publish_batch-Sends}
use go_patternx.PubSub.Maps.{find, put}
use go_patternx.PubSub.Batching.{
  publish_batch, batch_started, batch_checked, validate_batch, publish_all, next_message,
}
use go_patternx.PubSub.Unreached.{run-unreached}
use go_patternx.PubSub.Published.{publish-Publishes}
use go_patternx.PubSub.Breaker.{admit, record_result}

codes : String → List ℕ
codes no_text = []
codes (c then s) = code c ∷ codes s

-- Letters and digits of ASCII.
abbrev ascii : Unicode
ascii = record {
  runes = codes;
  is_letter = λ c. (leb 65 c && leb c 90) || (leb 97 c && leb c 122);
  is_digit = λ c. leb 48 c && leb c 57;
}

-- No error of the caller is a timeout or an open breaker.
abbrev plain : UserErrors
plain = record { is_timeout_user = λ n. false; is_open_user = λ n. false }

abbrev any_filter : MessageFilter
any_filter = record { headers = none; priority = pos 0; max_retry_count = pos 0 }

abbrev urgent_filter : MessageFilter
urgent_filter = record any_filter { priority = pos 5 }

abbrev small_config : ConfigPubSub
small_config = record (default_config false) {
  buffer_size = pos 2;
  max_retry_attempts = pos 0;
  circuit_breaker_threshold = pos 1;
}

abbrev fine_run : HandlerRun
fine_run = record { context_error = none; handler = returns none; wait_error = none }

abbrev failing_run : HandlerRun
failing_run = record fine_run { handler = returns (some (user 1)) }

abbrev panicking_run : HandlerRun
panicking_run = record fine_run { handler = panics }

abbrev delivery_of : HandlerRun → DeliveryRun
delivery_of r = record {
  runs = λ i. r;
  direct_runs = λ i. r;
  recorded_at = 5;
  elapsed = 1;
  ended_at = 6;
  dead_letter = none;
}

-- Two messages; the first one is delivered and its handler panics, the second waits.
abbrev busy : List Event
busy =
    subscribes small_config "s" any_filter
    ∷ subscribes small_config "u" urgent_filter
    ∷ begins_message "m1" "hello" none (pos 0) 1
    ∷ begins_message "m2" "world" none (pos 0) 2
    ∷ finishes_message 0 none false
    ∷ finishes_message 0 none false
    ∷ receives (λ i. 0)
    ∷ starts_delivery 0 3
    ∷ finishes_delivery 0 (delivery_of panicking_run)
    ∷ ends_wait all_done
    ∷ []

abbrev ended : TopicPubSub
ended = (run plain (begin (new_topic "t" 2)) busy).topic

codes_test : codes "aZ" ≡ 97 ∷ 90 ∷ []
unfolding codes
codes_test = refl

busy_delivers : ended.metrics.messages_delivered ≡ 1
unfolding run end_wait finish_delivery start_delivery receive_message finish_message begin_message
    add_subscription find put remove_at spawn_all matches_filter
busy_delivers = refl

run-InOrder_example : InOrder 2 (run plain (begin (new_topic "t" 2)) busy)
run-InOrder_example = run-InOrder plain "t" 2 busy

run-Balanced_example : Balanced plain "s" ended
run-Balanced_example = run-Balanced plain "s" "t" 2 busy

abbrev urgent_subscription : SubscriptionPubSub
urgent_subscription = new_subscription small_config "u" urgent_filter

urgent_there : find "u" ended.subscribers ≡ some urgent_subscription
unfolding run find end_wait finish_delivery start_delivery receive_message finish_message
    begin_message add_subscription put remove_at spawn_all matches_filter
urgent_there = refl

run-unreached_example : urgent_subscription.metrics.messages_received ≡ 0
run-unreached_example = run-unreached plain "u" "t" 2 busy urgent_subscription urgent_there refl

abbrev with_retries : SubscriptionPubSub
with_retries = new_subscription (default_config false) "s" any_filter

always_fails : (j : ℕ) → Retries plain failing_run (user 1)
unfolding is_timeout
always_fails j = record { alive = refl; fails = refl; not_late = refl; waits = refl }

deliver_with_retry-fail_example :
    deliver_with_retry plain with_retries (λ j. failing_run)
    ≡ (add_retried with_retries.metrics 4, some (annotate "failed to deliver message" (user 1)))
deliver_with_retry-fail_example =
    deliver_with_retry-fail plain with_retries (λ j. failing_run) (λ j. user 1) always_fails

end_delivery-ignores_breaker_example :
    ((end_delivery plain with_retries false (delivery_of failing_run)).0.metrics
      ≡ (end_delivery plain with_retries true (delivery_of failing_run)).0.metrics)
    × ((end_delivery plain with_retries false (delivery_of failing_run)).1
        ≡ (end_delivery plain with_retries true (delivery_of failing_run)).1)
unfolding is_open
end_delivery-ignores_breaker_example =
    end_delivery-ignores_breaker plain with_retries (delivery_of failing_run) (λ j. refl) refl

abbrev made_config : ConfigPubSub
made_config = record small_config { max_retry_attempts = pos 3 }

abbrev small : PubSub
small = fresh_pubsub made_config

made : new_pubsub (some small_config) ≡ ok small
unfolding new_pubsub validate_config apply_defaults
made = refl

abbrev with_one : PubSub
with_one = (create_topic ascii small none "t").0

abbrev fine_publish : PublishRun
fine_publish = record {
  slot_ended = none;
  slot_prefers_done = false;
  id = "m";
  now = 1;
  send_ended = none;
  send_prefers_done = false;
}

abbrev fine_call : CallRun
fine_call = record {
  context_error = none;
  admitted_at = 1;
  recorded_at = 2;
  elapsed = 1;
  ended_at = 3;
}

abbrev fine_attempts : ℕ → Attempt
fine_attempts i = record { context_error = none; run = fine_publish; wait_error = none }

publish_returns_nil :
    (publish ascii with_one "t" "hello" none fine_call fine_attempts).1 ≡ returned none
unfolding publish call_checked execute call_admitted record_end publish_with_retry publish_attempts
    if_alive give_up go_on publish_message publish_slotted acquire_slot publish_with_slot
    begin_message finish_message end_send admit record_result create_topic validate_topic_name
    validate_headers validate_message find put remove_at codes
publish_returns_nil = refl

publish-Publishes_example :
    Publishes "t" "hello" none with_one
      (publish ascii with_one "t" "hello" none fine_call fine_attempts)
publish-Publishes_example =
    publish-Publishes ascii with_one "t" "hello" none fine_call fine_attempts

abbrev message_of : String → MessagePubSub
message_of body = record {
  id = "";
  topic = "";
  body = body;
  headers = none;
  timestamp = 0;
  priority = pos 9;
  ttl = pos 0;
  sequence = 0;
}

abbrev three : List MessagePubSub
three = message_of "b" ∷ message_of "c" ∷ []

-- The channel has room for two of the three.
abbrev three_published : PubSub × CallEnd
three_published =
    publish_batch ascii with_one "t" (message_of "a" ∷ three) fine_call (λ i. fine_publish)

three_fail :
    three_published.1
    ≡ returned (some (annotate "failed to publish message" (text "topic message queue is full")))
unfolding publish_batch batch_started batch_checked validate_batch publish_all next_message execute
    call_admitted record_end publish_message publish_slotted acquire_slot publish_with_slot
    begin_message finish_message end_send admit record_result create_topic validate_topic_name
    validate_headers validate_message find put remove_at codes
three_fail = refl

two_sent : length (queue_of "t" three_published.0) ≡ 2
unfolding publish_batch batch_started batch_checked validate_batch publish_all next_message execute
    call_admitted record_end publish_message publish_slotted acquire_slot publish_with_slot
    begin_message finish_message end_send admit record_result create_topic validate_topic_name
    validate_headers validate_message find put remove_at codes
two_sent = refl

publish_batch-Sends_example : Sends "t" (message_of "a" ∷ three) with_one three_published
publish_batch-Sends_example =
    publish_batch-Sends ascii with_one "t" (message_of "a") three fine_call (λ i. fine_publish)

closes_once : (close (close with_one).0).1 ≡ some (text "pub/sub system already closed")
unfolding close create_topic validate_topic_name codes find
closes_once = refl

same_id :
    (insert_subscription
      (subscribe ascii with_one none "t" "s" true (some any_filter)).0
      "t"
      "s"
      (some any_filter)).1
    ≡ returned (some (text "subscription already exists"))
unfolding subscribe insert_subscription find check_subscribe create_topic validate_topic_name codes
    validate_subscription_id put add_subscription
same_id = refl
