-- ===== src/PubSub/System.antt =====
-- pubsub.go: the publisher with its topics; the making of a `PubSub`, of topics and of
-- subscriptions, and `Close`.
use go_patternx.PubSub.Config.{ConfigPubSub, validate_config, apply_defaults}
use go_patternx.PubSub.{
  Dict, MessageFilter, TopicPubSub, PubSubMetricsPubSub, CircuitBreakerPubSub, PublisherMetrics,
}
use go_patternx.Base.{
  Option, [], ℕ, Bool, if◌then◌else◌, pos_part, some, ℤ, ◌==◌, none, incr, not, leb, length,
}
use Prim.Native.String.{String}
use go_patternx.PubSub.Validation.{Unicode, validate_subscription_id, validate_topic_name}
use go_patternx.Errors.{
  GoError, Result, err, fail_if, map_err, ok, wrap, invalid_config_pubsub, text, ◌>>◌, ◌>>=◌,
  annotate, context_cancelled, wrapped, topic_not_found_pubsub, subscription_limit_pubsub,
}
use go_patternx.PubSub.Maps.{put, find}
use go_patternx.PubSub.Breaker.{new_circuit_breaker}
use go_patternx.PubSub.Topics.{add_subscription, new_topic, new_subscription}
use go_patternx.Base.{[], ◌∷◌}
use go_patternx.PubSub.Processing.{close_topic}

pub record PublisherPubSub : Type 0 where
  pub topics : Dict TopicPubSub
  pub max_retries : ℕ
  pub retry_delay : ℤ
  pub circuit_breaker : CircuitBreakerPubSub
  pub metrics : PublisherMetrics
  -- The size of `workerPool` and the slots that are taken.
  pub capacity : ℕ
  pub used : ℕ

pub record PubSub : Type 0 where
  pub publisher : PublisherPubSub
  pub config : ConfigPubSub
  pub closed : ℕ
  pub metrics : PubSubMetricsPubSub

-- How a call ends: it returns its error, or it panics.
pub data CallEnd : Type 0 where
  returned : Option GoError → CallEnd
  panicking : CallEnd

abbrev pub fresh_pubsub : ConfigPubSub → PubSub
fresh_pubsub c = record {
  publisher = record {
    topics = [];
    max_retries = pos_part c.max_retry_attempts;
    retry_delay = c.retry_delay;
    circuit_breaker =
        new_circuit_breaker (pos_part c.circuit_breaker_threshold)
          (pos_part c.circuit_breaker_timeout);
    metrics = record {
      messages_published = 0;
      messages_failed = 0;
      topics_created = 0;
      average_latency = 0;
      last_publish_time = none;
      batch_operations = 0;
    };
    capacity = pos_part c.max_concurrent_operations;
    used = 0;
  };
  config = c;
  closed = 0;
  metrics = record { total_messages = 0; total_topics = 0; total_subscriptions = 0; errors = 0 };
}

-- None where the pointer is nil. The caller's configuration is the one that gets the defaults.
unfoldable pub new_pubsub : Option ConfigPubSub → Result PubSub
new_pubsub config = map_err (wrap invalid_config_pubsub) (validate_config config) >>= λ c.
    ok (fresh_pubsub (apply_defaults c))

abbrev pub with_topic : PubSub → String → TopicPubSub → PubSub
with_topic ps name t = record ps {
  publisher = record (ps.publisher) { topics = put name t ps.publisher.topics };
}

-- `if err := ctx.Err(); err != nil { … }`.
abbrev pub not_cancelled : Option GoError → Result (Unit {0})
not_cancelled none = ok tt
not_cancelled (some e) = err (wrap context_cancelled e)

abbrev pub limit_reached : Option TopicPubSub → Result (Unit {0})
limit_reached none = err (wrapped topic_not_found_pubsub)
limit_reached (some t) =
    fail_if (leb 10000 (length t.subscribers)) (wrapped subscription_limit_pubsub)

module _ (u : Unicode) where
  -- The checks before the lock.
  check_topic : PubSub → Option GoError → String → Result (Unit {0})
  check_topic ps ctx name =
      fail_if (ps.closed == 1) (text "pub/sub system is closed")
      >> map_err (annotate "invalid topic name") (validate_topic_name u name)
      >> not_cancelled ctx

  unfoldable pub create_topic : PubSub → Option GoError → String → PubSub × Option GoError
  unfolding check_topic
  create_topic ps ctx name = elim (check_topic ps ctx name) [
    | err e ↦ (ps, some e)
    | ok done ↦ elim (find name ps.publisher.topics) [
      | some old ↦ (ps, some (text "topic already exists"))
      | none ↦
          let made = with_topic ps name (new_topic name (pos_part ps.config.buffer_size)) in
          (
            record made {
              publisher = record (made.publisher) {
                metrics = record (made.publisher.metrics) {
                  topics_created = incr ps.publisher.metrics.topics_created;
                };
              };
              metrics = record (ps.metrics) { total_topics = incr ps.metrics.total_topics };
            },
            none,
          )
    ]
  ]

  -- `Subscribe` up to the check of the limit.
  unfoldable pub check_subscribe :
      PubSub → Option GoError → String → String → Bool → Result (Unit {0})
  check_subscribe ps ctx topic_name id has_handler =
      fail_if (ps.closed == 1) (text "pub/sub system is closed")
      >> map_err (annotate "invalid subscription ID") (validate_subscription_id u id)
      >> fail_if (not has_handler) (text "message handler cannot be nil")
      >> not_cancelled ctx
      >> limit_reached (find topic_name ps.publisher.topics)

-- The rest of it; `*filter` panics where the pointer is nil. A topic is never removed.
unfoldable pub insert_subscription :
    PubSub → String → String → Option MessageFilter → PubSub × CallEnd
insert_subscription ps topic_name id none = (ps, panicking)
insert_subscription ps topic_name id (some filter) = elim (find topic_name ps.publisher.topics) [
  | none ↦ (ps, panicking)
  | some t ↦
      let (t', e) = add_subscription t (new_subscription ps.config id filter) in
      elim e [
        | some x ↦ (ps, returned (some x))
        | none ↦ (
          record (with_topic ps topic_name t') {
            metrics = record (ps.metrics) {
              total_subscriptions = incr ps.metrics.total_subscriptions;
            };
          },
          returned none,
        )
      ]
]

unfoldable pub subscribe :
    Unicode
    → PubSub
    → Option GoError
    → String
    → String
    → Bool
    → Option MessageFilter
    → PubSub × CallEnd
subscribe u ps ctx topic_name id has_handler filter =
    elim (check_subscribe u ps ctx topic_name id has_handler) [
      | err e ↦ (ps, returned (some e))
      | ok checked ↦ insert_subscription ps topic_name id filter
    ]

close_topics : Dict TopicPubSub → Dict TopicPubSub
close_topics [] = []
close_topics ((name, t) ∷ d) = (name, close_topic t) ∷ close_topics d

-- Its wait for the goroutines changes nothing.
unfoldable pub close : PubSub → PubSub × Option GoError
unfolding close_topics
close ps =
    if ps.closed == 0
    then (
      record ps {
        publisher = record (ps.publisher) { topics = close_topics ps.publisher.topics };
        closed = 1;
      },
      none,
    )
    else (ps, some (text "pub/sub system already closed"))
