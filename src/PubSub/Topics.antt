-- ===== src/PubSub/Topics.antt =====
-- pubsub.go: a topic with the subscriptions that are added and the messages that are sent.
use go_patternx.PubSub.Config.{ConfigPubSub}
use go_patternx.PubSub.{
  Dict, TopicPubSub, MessageFilter, MessagePubSub, SubscriptionPubSub, selecting,
}
use go_patternx.Errors.{GoError, text, wrapped, topic_closed_pubsub}
use go_patternx.Base.{
  List, ℕ, Bool, Option, [], ◌∷◌, get_elem?, if◌then◌else◌, not, pos_part, suc, ℤ, ◌==◌, none, some,
  zero, ◌||◌, ◌&&◌, ltb, ◌++◌, incr, length, pos,
}
use Prim.Native.String.{String}
use go_patternx.PubSub.Breaker.{new_circuit_breaker}
use go_patternx.PubSub.Maps.{find, put}

module _ {A : Type 0} where
  unfoldable pub remove_at : ℕ → List A → List A
  remove_at k [] = []
  remove_at zero (x ∷ xs) = xs
  remove_at (suc k) (x ∷ xs) = x ∷ remove_at k xs

abbrev pub new_topic : String → ℕ → TopicPubSub
new_topic name buffer_size = record {
  name = name;
  subscribers = [];
  message_queue = [];
  buffer_size = buffer_size;
  closed = 0;
  metrics = record {
    messages_published = 0;
    messages_delivered = 0;
    subscriber_count = 0;
    queue_full_count = 0;
  };
  sequence = 0;
  processor = selecting;
  deliveries = [];
  pending = [];
}

abbrev pub new_subscription : ConfigPubSub → String → MessageFilter → SubscriptionPubSub
new_subscription c id filter = record {
  id = id;
  filter = filter;
  max_retries = pos_part c.max_retry_attempts;
  retry_delay = c.retry_delay;
  circuit_breaker =
      new_circuit_breaker (pos_part c.circuit_breaker_threshold)
        (pos_part c.circuit_breaker_timeout);
  closed = 0;
  metrics = record {
    messages_received = 0;
    messages_processed = 0;
    messages_failed = 0;
    messages_retried = 0;
    messages_dlq = 0;
    average_latency = 0;
    last_message_time = none;
    circuit_breaker_trips = 0;
    panic_recoveries = 0;
    timeout_errors = 0;
  };
}

-- The last part of `Subscribe`, under the topic's lock.
unfoldable pub add_subscription : TopicPubSub → SubscriptionPubSub → TopicPubSub × Option GoError
add_subscription t s = elim (find s.id t.subscribers) [
  | some old ↦ (t, some (text "subscription already exists"))
  | none ↦ (
    record t {
      subscribers = put s.id s t.subscribers;
      metrics = record (t.metrics) { subscriber_count = incr t.metrics.subscriber_count };
    },
    none,
  )
]

-- `publishMessage` from the check of `closed` to the message with its number.
unfoldable pub begin_message :
    TopicPubSub → String → String → Option (Dict String) → ℤ → ℕ → TopicPubSub × Option GoError
begin_message t id body headers ttl now =
    if t.closed == 1 then (t, some (wrapped topic_closed_pubsub)) else (
      record t {
        sequence = incr t.sequence;
        pending =
            t.pending
            ++ record {
              id = id;
              topic = t.name;
              body = body;
              headers = headers;
              timestamp = now;
              priority = pos 0;
              ttl = ttl;
              sequence = incr t.sequence;
            }
              ∷ [];
      },
      none,
    )

-- The end of `publishMessage`; a send on the closed channel panics.
pub data SendEnd : Type 0 where
  sent queue_full panicked : SendEnd
  cancelled : GoError → SendEnd

-- The `select` with a `default`, where the context is not done or is not what it takes.
send_message : TopicPubSub → MessagePubSub → TopicPubSub × SendEnd
send_message t m =
    if t.closed == 1
    then (t, panicked)
    else if ltb (length t.message_queue) t.buffer_size
    then (
      record t {
        message_queue = t.message_queue ++ m ∷ [];
        metrics = record (t.metrics) { messages_published = incr t.metrics.messages_published };
      },
      sent,
    )
    else (
      record t {
        metrics = record (t.metrics) { queue_full_count = incr t.metrics.queue_full_count };
      },
      queue_full,
    )

-- The end of the `k`-th message that is pending. `prefers_done` is the choice of the `select` when
-- the context is done and the send is possible.
unfoldable pub finish_message :
    TopicPubSub → ℕ → Option GoError → Bool → Option (TopicPubSub × SendEnd)
unfolding send_message
finish_message t k done prefers_done = elim (get_elem? t.pending k) [
  | none ↦ none
  | some m ↦
      let rest = record t { pending = remove_at k t.pending } in
      elim done [
        | none ↦ some (send_message rest m)
        | some e ↦
            if not prefers_done && (t.closed == 1 || ltb (length t.message_queue) t.buffer_size)
            then some (send_message rest m)
            else some (rest, cancelled e)
      ]
]
