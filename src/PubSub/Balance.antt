-- ===== src/PubSub/Balance.antt =====
-- The balance of a subscription's metrics over a run.
use package.text.Mathlib.TextEquality.{eq_iff}
use go_patternx.PubSub.Delivering.{UserErrors, begin_delivery, DeliveryRun, end_delivery}
use Prim.Native.String.{String}
use go_patternx.PubSub.{TopicPubSub, SubscriptionPubSub, Delivery, running, spawned, DeliveryPhase}
use go_patternx.PubSub.Topics.{
  add_subscription, begin_message, finish_message, new_subscription, new_topic,
}
use go_patternx.PubSub.Processing.{
  receive_message, skip_delivery, start_delivery, finish_delivery, spawn_all, end_wait, quit,
  close_topic,
}
use go_patternx.PubSub.TopicEvents.{
  step, History, or_same, finishes_delivery, run, Event, subscribes, begins_message,
  finishes_message, receives, starts_delivery, skips_delivery, ends_wait, quits, begin, closes,
}
use go_patternx.PubSub.Tallies.{
  metrics_of, running_of, running_of-remove_at, running_of-set, end_delivery-Ended,
  running_of-append, running_of-spawn_all, running_of-forget_all, find-close_all,
}
use go_patternx.Base.{
  refl, ℕ, ◌≡◌, Option-cases, get_elem?, none, word, ◌+◌, Bool, arith, inl, some, inr, List, ◌∷◌,
  [], ◌⊎◌,
}
use go_patternx.PubSub.Maps.{find, find-put}
use go_patternx.PubSub.Order.{List-cases}

pub DeliveryPhase-cases :
    (p : DeliveryPhase) → (p ≡ spawned) ⊎ ((admitted : Bool) × (p ≡ running admitted))
DeliveryPhase-cases spawned = inl refl
DeliveryPhase-cases (running admitted) = inr (admitted, refl)

module _ (u : UserErrors) (k : String) where
  pub record Balanced (t : TopicPubSub) : Type 0 where
    -- What was received was processed, has failed, or is being delivered.
    pub received :
        (metrics_of (find k t.subscribers)).messages_received
        ≡ word (
            (metrics_of (find k t.subscribers)).messages_processed
            + (metrics_of (find k t.subscribers)).messages_failed
            + running_of k t.deliveries)
    -- No panic of a handler is ever counted.
    pub panics : (metrics_of (find k t.subscribers)).panic_recoveries ≡ 0

  start_delivery-Balanced :
      (t : TopicPubSub) (i now : ℕ) (d : Delivery) (s : SubscriptionPubSub)
      → get_elem? t.deliveries i ≡ some d
      → d.phase ≡ spawned
      → find d.subscriber t.subscribers ≡ some s
      → Balanced t
      → Balanced (or_same t (start_delivery t i now))
  unfolding start_delivery begin_delivery
  start_delivery-Balanced t i now d s at fresh found b =
      let begun = begin_delivery s now in
      let moved = record d { phase = running begun.1 } in
      ground (
        arith,
        eq_iff d.subscriber k,
        find-put d.subscriber k begun.0 t.subscribers,
        running_of-set k t.deliveries i d moved at,
      )

  finish_delivery-Balanced :
      (h : History) (i : ℕ) (r : DeliveryRun) (d : Delivery) (s : SubscriptionPubSub)
      (admitted : Bool)
      → get_elem? h.topic.deliveries i ≡ some d
      → d.phase ≡ running admitted
      → find d.subscriber h.topic.subscribers ≡ some s
      → Balanced h.topic
      → Balanced (step u h (finishes_delivery i r)).topic
  unfolding step finish_delivery
  finish_delivery-Balanced h i r d s admitted at phase found b =
      let ended = end_delivery-Ended u s admitted r in
      ground (
        arith,
        eq_iff d.subscriber k,
        ended,
        find-put d.subscriber k (end_delivery u s admitted r).0 h.topic.subscribers,
        running_of-remove_at k h.topic.deliveries i d at,
      )

  subscribe-Balanced :
      (t : TopicPubSub) (s : SubscriptionPubSub)
      → s.metrics ≡ metrics_of none
      → Balanced t
      → Balanced (add_subscription t s).0
  unfolding add_subscription
  subscribe-Balanced t s new b = ground (arith, eq_iff s.id k, find-put s.id k s t.subscribers)

  receive_message-Balanced :
      (t : TopicPubSub) (seen : ℕ → ℕ) → Balanced t → Balanced (or_same t (receive_message t seen))
  unfolding receive_message
  receive_message-Balanced t seen b = elim (List-cases t.message_queue) [
    | inl empty ↦ ground arith
    | inr (m, rest, waits) ↦
        let starts = spawn_all t.subscribers seen 0 m in
        ground (
          arith,
          running_of-append k t.deliveries starts,
          running_of-spawn_all k t.subscribers seen 0 m,
        )
  ]

  skip_delivery-Balanced :
      (t : TopicPubSub) (i : ℕ) → Balanced t → Balanced (or_same t (skip_delivery t i))
  unfolding skip_delivery
  skip_delivery-Balanced t i b = elim (Option-cases (get_elem? t.deliveries i)) [
    | inl absent ↦ ground arith
    | inr (d, at) ↦ ground (arith, running_of-remove_at k t.deliveries i d at)
  ]

  step-Balanced : (h : History) (e : Event) → Balanced h.topic → Balanced (step u h e).topic
  unfolding step begin_message finish_message end_wait quit close_topic start_delivery
      finish_delivery
  step-Balanced h (subscribes c id filter) b =
      subscribe-Balanced h.topic (new_subscription c id filter) refl b
  step-Balanced h (begins_message id body headers ttl now) b = ground arith
  step-Balanced h (finishes_message i ctx prefers_done) b = ground arith
  step-Balanced h (receives seen) b = ground (arith, receive_message-Balanced h.topic seen b)
  step-Balanced h (starts_delivery i now) b = elim (Option-cases (get_elem? h.topic.deliveries i)) [
    | inl absent ↦ ground arith
    | inr (d, at) ↦ elim (Option-cases (find d.subscriber h.topic.subscribers)) [
      | inl unknown ↦ ground arith
      | inr (s, found) ↦ ground (
        arith,
        λ (fresh : d.phase ≡ spawned). start_delivery-Balanced h.topic i now d s at fresh found b,
      )
    ]
  ]
  step-Balanced h (skips_delivery i) b = skip_delivery-Balanced h.topic i b
  step-Balanced h (finishes_delivery i r) b = elim (Option-cases (get_elem? h.topic.deliveries i)) [
    | inl absent ↦ ground arith
    | inr (d, at) ↦ elim (Option-cases (find d.subscriber h.topic.subscribers)) [
      | inl unknown ↦ ground arith
      | inr (s, found) ↦ elim (DeliveryPhase-cases d.phase) [
        | inl fresh ↦ ground arith
        | inr (admitted, phase) ↦
            ground (arith, finish_delivery-Balanced h i r d s admitted at phase found b)
      ]
    ]
  ]
  step-Balanced h (ends_wait w) b = ground (arith, running_of-forget_all k h.topic.deliveries)
  step-Balanced h quits b = ground arith
  step-Balanced h closes b = ground (arith, find-close_all k h.topic.subscribers)

  run-Balanced_from :
      (h : History) (es : List Event) → Balanced h.topic → Balanced (run u h es).topic
  unfolding run
  run-Balanced_from h [] b = b
  run-Balanced_from h (e ∷ es) b = run-Balanced_from (step u h e) es (step-Balanced h e b)

-- From the making of a topic on, whatever publishers, deliveries and `Close` do and in whatever
-- order, and for every subscription: `MessagesReceived` is, modulo 2^64, `MessagesProcessed` and
-- `MessagesFailed` together with the deliveries that are past the breaker and have not ended, so
-- that every delivery counts in exactly one of them; and `PanicRecoveries` stays 0, whatever
-- handlers panic.
pub run-Balanced :
    (u : UserErrors) (k name : String) (size : ℕ) (es : List Event)
    → Balanced u k (run u (begin (new_topic name size)) es).topic
unfolding find running_of
run-Balanced u k name size es =
    run-Balanced_from u k (begin (new_topic name size)) es (ground arith)
