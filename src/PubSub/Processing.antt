-- ===== src/PubSub/Processing.antt =====
-- pubsub.go: `processTopicMessages` with the goroutines that deliver, and the end by `Close`.
use go_patternx.PubSub.{
  Dict, TopicPubSub, Delivery, SubscriptionPubSub, MessagePubSub, spawned, delivering, selecting,
  gone, running,
}
use go_patternx.Base.{
  List, Bool, Option, ℕ, false, get_elem?, not, ◌∷◌, ◌+◌, [], true, ◌||◌, ◌==◌, if◌then◌else◌, none,
  some, ◌++◌, incr, set,
}
use go_patternx.PubSub.Delivering.{
  UserErrors, DeliveryRun, matches_filter, begin_delivery, end_delivery,
}
use go_patternx.Errors.{GoError}
use go_patternx.PubSub.Topics.{remove_at}
use go_patternx.PubSub.Maps.{find, put}

-- The loop over the subscriptions. `seen` is the message's `RetryCount` at each check of a filter.
unfoldable pub spawn_all : Dict SubscriptionPubSub → (ℕ → ℕ) → ℕ → MessagePubSub → List Delivery
spawn_all [] seen i m = []
spawn_all ((key, s) ∷ d) seen i m =
    let rest = spawn_all d seen (i + 1) m in
    if s.closed == 1
    then rest
    else if not (matches_filter s.filter m (seen i))
    then rest
    else record { subscriber = key; message = m; phase = spawned; awaited = true } ∷ rest

-- `processTopicMessages` receives a message, and its deliveries start.
unfoldable pub receive_message : TopicPubSub → (ℕ → ℕ) → Option TopicPubSub
receive_message t seen = elim t.processor [
  | selecting ↦ elim t.message_queue [
    | [] ↦ none
    | m ∷ rest ↦ some (record t {
      message_queue = rest;
      processor = delivering;
      deliveries = t.deliveries ++ spawn_all t.subscribers seen 0 m;
    })
  ]
  | _ ↦ none
]

-- The `k`-th delivery gets to the breaker.
unfoldable pub start_delivery : TopicPubSub → ℕ → ℕ → Option TopicPubSub
start_delivery t k now = elim (get_elem? t.deliveries k) [
  | none ↦ none
  | some d ↦ elim d.phase [
    | running admitted ↦ none
    | spawned ↦ elim (find d.subscriber t.subscribers) [
      | none ↦ none
      | some s ↦
          let (s', admitted) = begin_delivery s now in
          some (record t {
            subscribers = put d.subscriber s' t.subscribers;
            deliveries = set t.deliveries k (record d { phase = running admitted });
          })
    ]
  ]
]

-- It returns since the context is done.
unfoldable pub skip_delivery : TopicPubSub → ℕ → Option TopicPubSub
skip_delivery t k = elim (get_elem? t.deliveries k) [
  | none ↦ none
  | some d ↦ elim d.phase [
    | running admitted ↦ none
    | spawned ↦
        if t.closed == 1 then some (record t { deliveries = remove_at k t.deliveries }) else none
  ]
]

-- It ends, and its error.
unfoldable pub finish_delivery :
    UserErrors → TopicPubSub → ℕ → DeliveryRun → Option (TopicPubSub × Option GoError)
finish_delivery u t k r = elim (get_elem? t.deliveries k) [
  | none ↦ none
  | some d ↦ elim d.phase [
    | spawned ↦ none
    | running admitted ↦ elim (find d.subscriber t.subscribers) [
      | none ↦ none
      | some s ↦
          let (s', e) = end_delivery u s admitted r in
          some (
            record t {
              subscribers = put d.subscriber s' t.subscribers;
              deliveries = remove_at k t.deliveries;
            },
            e,
          )
    ]
  ]
]

pub data WaitEnd : Type 0 where
  all_done wait_times_out context_ends : WaitEnd

any_awaited : List Delivery → Bool
any_awaited [] = false
any_awaited (d ∷ ds) = d.awaited || any_awaited ds

unfoldable pub forget_all : List Delivery → List Delivery
forget_all [] = []
forget_all (d ∷ ds) = record d { awaited = false } ∷ forget_all ds

-- Whether the wait of `deliverMessageToSubscribers` can end so.
can_end : TopicPubSub → WaitEnd → Bool
unfolding any_awaited
can_end t all_done = not (any_awaited t.deliveries)
can_end t wait_times_out = true
can_end t context_ends = t.closed == 1

-- `MessagesDelivered` counts the first kind of end.
unfoldable pub end_wait : TopicPubSub → WaitEnd → Option TopicPubSub
unfolding can_end forget_all
end_wait t w = elim t.processor [
  | delivering ↦
      let ended = record t { processor = selecting; deliveries = forget_all t.deliveries } in
      if can_end t w
      then some (elim w [
        | all_done ↦ record ended {
          metrics = record (t.metrics) { messages_delivered = incr t.metrics.messages_delivered };
        }
        | _ ↦ ended
      ])
      else none
  | _ ↦ none
]

-- The processor leaves its `select` since the context is done.
unfoldable pub quit : TopicPubSub → Option TopicPubSub
quit t = elim t.processor [
  | selecting ↦ if t.closed == 1 then some (record t { processor = gone }) else none
  | _ ↦ none
]

unfoldable pub close_all : Dict SubscriptionPubSub → Dict SubscriptionPubSub
close_all [] = []
close_all ((k, s) ∷ d) = (k, record s { closed = 1 }) ∷ close_all d

-- What `Close` does to a topic. The context is cancelled before.
unfoldable pub close_topic : TopicPubSub → TopicPubSub
unfolding close_all
close_topic t = record t { closed = 1; subscribers = close_all t.subscribers }
