-- ===== src/PubSub/Unreached.antt =====
-- The subscriptions that no message reaches.
use go_patternx.Base.{
  refl, refl, [], ◌∷◌, ℕ, some, ◌≡◌, arith, get_elem?, inl, ltb_ℤ, inr, pos, true, List,
  Option-cases,
}
use Prim.Native.String.{String}
use go_patternx.PubSub.Delivering.{UserErrors}
use go_patternx.PubSub.{SubscriptionPubSub, spawned}
use go_patternx.PubSub.Topics.{finish_message, new_topic, new_subscription}
use go_patternx.PubSub.Processing.{start_delivery, finish_delivery, end_wait, quit, close_topic}
use go_patternx.PubSub.TopicEvents.{
  step, History, begins_message, finishes_delivery, finishes_message, run, Event, begin, subscribes,
  receives, starts_delivery, skips_delivery, ends_wait, quits, closes,
}
use go_patternx.PubSub.Priorities.{
  open_to_all, urgent, deliveries_to, deliveries_to-forget_all, open_to_all-close_all,
}
use go_patternx.PubSub.Maps.{find}
use go_patternx.PubSub.Tallies.{find-close_all}
use go_patternx.PubSub.Balance.{DeliveryPhase-cases}
use go_patternx.PubSub.Reaching.{
  Unreached, subscribe-Unreached, begin_message-Unreached, finish_message-Unreached,
  receive_message-Unreached, start_delivery-Unreached, skip_delivery-Unreached,
  finish_delivery-Unreached, accepts_low-close_all,
}

module _ (u : UserErrors) (k : String) where
  step-Unreached : (h : History) (e : Event) → Unreached k h.topic → Unreached k (step u h e).topic
  unfolding step finish_message end_wait quit close_topic start_delivery finish_delivery
  step-Unreached h (subscribes c id filter) b =
      subscribe-Unreached u k h.topic (new_subscription c id filter) refl b
  step-Unreached h (begins_message id body headers ttl now) b =
      begin_message-Unreached u k h id body headers ttl now b
  step-Unreached h (finishes_message i ctx prefers_done) b =
      elim (Option-cases (get_elem? h.topic.pending i)) [
        | inl absent ↦ ground arith
        | inr (m, at) ↦ finish_message-Unreached u k h i ctx prefers_done m at b
      ]
  step-Unreached h (receives seen) b = ground (arith, receive_message-Unreached u k h.topic seen b)
  step-Unreached h (starts_delivery i now) b =
      elim (Option-cases (get_elem? h.topic.deliveries i)) [
        | inl absent ↦ ground arith
        | inr (d, at) ↦ elim (Option-cases (find d.subscriber h.topic.subscribers)) [
          | inl unknown ↦ ground arith
          | inr (s, found) ↦ ground (
            arith,
            λ (fresh : d.phase ≡ spawned).
                start_delivery-Unreached u k h.topic i now d s at fresh found b,
          )
        ]
      ]
  step-Unreached h (skips_delivery i) b = skip_delivery-Unreached u k h.topic i b
  step-Unreached h (finishes_delivery i r) b =
      elim (Option-cases (get_elem? h.topic.deliveries i)) [
        | inl absent ↦ ground arith
        | inr (d, at) ↦ elim (Option-cases (find d.subscriber h.topic.subscribers)) [
          | inl unknown ↦ ground arith
          | inr (s, found) ↦ elim (DeliveryPhase-cases d.phase) [
            | inl fresh ↦ ground arith
            | inr (admitted, phase) ↦
                ground (arith, finish_delivery-Unreached u k h i r d s admitted at phase found b)
          ]
        ]
      ]
  step-Unreached h (ends_wait w) b = ground (arith, deliveries_to-forget_all k h.topic.deliveries)
  step-Unreached h quits b = ground arith
  step-Unreached h closes b = ground (
    arith,
    find-close_all k h.topic.subscribers,
    accepts_low-close_all k h.topic.subscribers,
    open_to_all-close_all k h.topic.subscribers,
  )

  run-Unreached_from :
      (h : History) (es : List Event) → Unreached k h.topic → Unreached k (run u h es).topic
  unfolding run
  run-Unreached_from h [] b = b
  run-Unreached_from h (e ∷ es) b = run-Unreached_from (step u h e) es (step-Unreached h e b)

-- From the making of a topic on, whatever publishers, deliveries and `Close` do and in whatever
-- order, a subscription whose filter asks for a priority above 0 receives no message.
pub run-unreached :
    (u : UserErrors) (k name : String) (size : ℕ) (es : List Event) (s : SubscriptionPubSub)
    → find k (run u (begin (new_topic name size)) es).topic.subscribers ≡ some s
    → ltb_ℤ (pos 0) s.filter.priority ≡ true
    → s.metrics.messages_received ≡ 0
unfolding find open_to_all deliveries_to urgent
run-unreached u k name size es s found asks =
    let start = begin (new_topic name size) in
    let last = run-Unreached_from u k start es (ground arith) in ground (arith, last)
