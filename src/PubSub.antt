-- ===== src/PubSub.antt =====
-- pubsub.go: the messages, the topics with their subscriptions, and the circuit breaker.
pub mod Attempts
pub mod Balance
pub mod Batches
pub mod Batching
pub mod Breaker
pub mod Config
pub mod Delivering
pub mod Executing
pub mod Maps
pub mod Tallies
pub mod Order
pub mod Priorities
pub mod Processing
mod Tests
pub mod Settings
pub mod Slots
pub mod Published
pub mod Reaching
pub mod Sending
pub mod Publishing
pub mod System
pub mod TopicEvents
pub mod Topics
pub mod Unreached
pub mod Validation
use Prim.Native.String.{String}
use go_patternx.Base.{Bool, List, Option, ℕ, ℤ}

pub data BreakerState : Type 0 where
  closed_state open_state half_open_state : BreakerState

pub record CircuitBreakerPubSub : Type 0 where
  pub failure_count : ℕ
  pub last_failure : Option ℕ
  pub state : BreakerState
  pub threshold : ℕ
  pub timeout : ℕ

-- A map with text keys, in the order in which a loop goes through it.
abbrev pub Dict : Type 0 → Type 0
Dict V = List (String × V)

-- `RetryCount`, which the deliveries of a message write concurrently, is part of the steps that read
-- it. `Correlation` and `TraceID` are never set. `body` is `Data`, as the text of these bytes.
pub record MessagePubSub : Type 0 where
  pub id : String
  pub topic : String
  pub body : String
  pub headers : Option (Dict String)
  pub timestamp : ℕ
  pub priority : ℤ
  pub ttl : ℤ
  pub sequence : ℕ

-- `RegexPatterns` is never read.
pub record MessageFilter : Type 0 where
  pub headers : Option (Dict String)
  pub priority : ℤ
  pub max_retry_count : ℤ

pub record SubscriptionMetrics : Type 0 where
  pub messages_received : ℕ
  pub messages_processed : ℕ
  pub messages_failed : ℕ
  pub messages_retried : ℕ
  pub messages_dlq : ℕ
  pub average_latency : ℕ
  pub last_message_time : Option ℕ
  pub circuit_breaker_trips : ℕ
  pub panic_recoveries : ℕ
  pub timeout_errors : ℕ

-- What the handlers answer is part of the steps that call them. `Topic`, `BatchSize` and `BufferSize`
-- are never read. `workerPool` limits nothing, since a
-- delivery goes on when it is full.
pub record SubscriptionPubSub : Type 0 where
  pub id : String
  pub filter : MessageFilter
  pub max_retries : ℕ
  pub retry_delay : ℤ
  pub circuit_breaker : CircuitBreakerPubSub
  pub closed : ℕ
  pub metrics : SubscriptionMetrics

-- `QueueSize` is never written.
pub record TopicMetrics : Type 0 where
  pub messages_published : ℕ
  pub messages_delivered : ℕ
  pub subscriber_count : ℕ
  pub queue_full_count : ℕ

-- Where a goroutine that delivers to one subscription stands: before its first `select`, or past the
-- breaker, which has let it through or not.
pub data DeliveryPhase : Type 0 where
  spawned : DeliveryPhase
  running : Bool → DeliveryPhase

-- Such a goroutine, and whether `deliverMessageToSubscribers` still waits for it.
pub record Delivery : Type 0 where
  pub subscriber : String
  pub message : MessagePubSub
  pub phase : DeliveryPhase
  pub awaited : Bool

-- Where `processTopicMessages` stands: in its `select`, in the wait for the deliveries of a
-- message, or gone.
pub data Processor : Type 0 where
  selecting delivering gone : Processor

-- A topic with its channel, the goroutines that deliver from it, and in `pending` the messages of
-- the publishers between the number that they got and the send.
pub record TopicPubSub : Type 0 where
  pub name : String
  pub subscribers : Dict SubscriptionPubSub
  pub message_queue : List MessagePubSub
  pub buffer_size : ℕ
  pub closed : ℕ
  pub metrics : TopicMetrics
  pub sequence : ℕ
  pub processor : Processor
  pub deliveries : List Delivery
  pub pending : List MessagePubSub

-- `CircuitBreakerTrips` is never written.
pub record PublisherMetrics : Type 0 where
  pub messages_published : ℕ
  pub messages_failed : ℕ
  pub topics_created : ℕ
  pub average_latency : ℕ
  pub last_publish_time : Option ℕ
  pub batch_operations : ℕ

-- `ActiveConnections` is never written, and `PanicRecoveries` only where the loop of a topic or the
-- goroutine around a handler's one panics by itself.
pub record PubSubMetricsPubSub : Type 0 where
  pub total_messages : ℕ
  pub total_topics : ℕ
  pub total_subscriptions : ℕ
  pub errors : ℕ
