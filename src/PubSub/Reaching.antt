-- ===== src/PubSub/Reaching.antt =====
-- What each step leaves of a subscription that no message reaches.
use go_patternx.Base.{
  refl, refl, [], ◌∷◌, Option, ℕ, some, ◌≡◌, Bool, arith, get_elem?, if◌then◌else◌, false, inl,
  ltb_ℤ, none, ℤ, inr, pos, true, incr,
}
use package.text.Mathlib.TextEquality.{eq_iff}
use Prim.Native.String.{String}
use go_patternx.PubSub.Delivering.{
  UserErrors, end_delivery, guarded_delivery, begin_delivery, fall_back, count_end, DeliveryRun,
}
use go_patternx.PubSub.{
  SubscriptionPubSub, TopicPubSub, Delivery, Dict, MessagePubSub, running, spawned,
}
use go_patternx.PubSub.Topics.{add_subscription, begin_message, finish_message}
use go_patternx.PubSub.Processing.{
  receive_message, skip_delivery, start_delivery, finish_delivery, spawn_all, close_all,
}
use go_patternx.PubSub.TopicEvents.{
  step, History, or_same, begins_message, finishes_delivery, finishes_message,
}
use go_patternx.PubSub.Priorities.{
  open_to_all, urgent, deliveries_to, deliveries_to-remove_at, open_to_all-put_new,
  open_to_all-put_same, urgent-append, deliveries_to-append, deliveries_to-get, deliveries_to-set,
  urgent-remove_at, deliveries_to-spawn_all,
}
use go_patternx.Errors.{GoError}
use go_patternx.PubSub.Order.{List-cases}
use go_patternx.PubSub.Maps.{find, find-put}
use go_patternx.PubSub.Tallies.{metrics_of}

end_delivery-filter :
    (u : UserErrors) (s : SubscriptionPubSub) (admitted : Bool) (r : DeliveryRun)
    → (end_delivery u s admitted r).0.filter ≡ s.filter
unfolding end_delivery guarded_delivery fall_back count_end
end_delivery-filter u s false r = ground arith
end_delivery-filter u s true r = ground arith

-- Whether the subscription found, if there is one, has a filter that asks for no priority.
abbrev pub accepts_low : Option SubscriptionPubSub → ℕ
accepts_low none = 0
accepts_low (some s) = if ltb_ℤ (pos 0) s.filter.priority then 0 else 1

pub record Unreached (k : String) (t : TopicPubSub) : Type 0 where
  pub no_urgent : urgent t.message_queue ≡ 0
  pub no_urgent_pending : urgent t.pending ≡ 0
  pub one_entry : open_to_all k t.subscribers ≡ accepts_low (find k t.subscribers)
  pub no_deliveries : open_to_all k t.subscribers ≡ 0 → deliveries_to k t.deliveries ≡ 0
  pub no_receipts :
      open_to_all k t.subscribers ≡ 0 → (metrics_of (find k t.subscribers)).messages_received ≡ 0

pub accepts_low-close_all :
    (k : String) (d : Dict SubscriptionPubSub)
    → accepts_low (find k (close_all d)) ≡ accepts_low (find k d)
unfolding find close_all
accepts_low-close_all k [] = refl
accepts_low-close_all k ((j, s) ∷ d) = ground (arith, accepts_low-close_all k d)

module _ (u : UserErrors) (k : String) where
  pub start_delivery-Unreached :
      (t : TopicPubSub) (i now : ℕ) (d : Delivery) (s : SubscriptionPubSub)
      → get_elem? t.deliveries i ≡ some d
      → d.phase ≡ spawned
      → find d.subscriber t.subscribers ≡ some s
      → Unreached k t
      → Unreached k (or_same t (start_delivery t i now))
  unfolding start_delivery begin_delivery
  start_delivery-Unreached t i now d s at fresh found b =
      let begun = begin_delivery s now in
      let moved = record d { phase = running begun.1 } in
      ground (
        arith,
        eq_iff d.subscriber k,
        find-put d.subscriber k begun.0 t.subscribers,
        open_to_all-put_same k d.subscriber t.subscribers s begun.0 found refl,
        deliveries_to-set k t.deliveries i d moved at refl,
        deliveries_to-get t.deliveries i d at,
      )

  pub finish_delivery-Unreached :
      (h : History) (i : ℕ) (r : DeliveryRun) (d : Delivery) (s : SubscriptionPubSub)
      (admitted : Bool)
      → get_elem? h.topic.deliveries i ≡ some d
      → d.phase ≡ running admitted
      → find d.subscriber h.topic.subscribers ≡ some s
      → Unreached k h.topic
      → Unreached k (step u h (finishes_delivery i r)).topic
  unfolding step finish_delivery
  finish_delivery-Unreached h i r d s admitted at phase found b =
      let last = (end_delivery u s admitted r).0 in
      let same = end_delivery-filter u s admitted r in
      ground (
        arith,
        eq_iff d.subscriber k,
        same,
        find-put d.subscriber k last h.topic.subscribers,
        open_to_all-put_same k d.subscriber h.topic.subscribers s last found same,
        deliveries_to-remove_at k h.topic.deliveries i,
        deliveries_to-get h.topic.deliveries i d at,
      )

  pub subscribe-Unreached :
      (t : TopicPubSub) (s : SubscriptionPubSub)
      → s.metrics ≡ metrics_of none
      → Unreached k t
      → Unreached k (add_subscription t s).0
  unfolding add_subscription open_to_all
  subscribe-Unreached t s new b = ground (
    arith,
    eq_iff s.id k,
    find-put s.id k s t.subscribers,
    open_to_all-put_new k s.id t.subscribers s,
  )

  pub receive_message-Unreached :
      (t : TopicPubSub) (seen : ℕ → ℕ)
      → Unreached k t
      → Unreached k (or_same t (receive_message t seen))
  unfolding receive_message urgent
  receive_message-Unreached t seen b = elim (List-cases t.message_queue) [
    | inl empty ↦ ground arith
    | inr (m, rest, waits) ↦
        let starts = spawn_all t.subscribers seen 0 m in
        ground (
          arith,
          deliveries_to-append k t.deliveries starts,
          deliveries_to-spawn_all k t.subscribers seen 0 m,
        )
  ]

  pub skip_delivery-Unreached :
      (t : TopicPubSub) (i : ℕ) → Unreached k t → Unreached k (or_same t (skip_delivery t i))
  unfolding skip_delivery
  skip_delivery-Unreached t i b = ground (arith, deliveries_to-remove_at k t.deliveries i)

  pub finish_message-Unreached :
      (h : History) (i : ℕ) (ctx : Option GoError) (prefers_done : Bool) (m : MessagePubSub)
      → get_elem? h.topic.pending i ≡ some m
      → Unreached k h.topic
      → Unreached k (step u h (finishes_message i ctx prefers_done)).topic
  unfolding step finish_message
  finish_message-Unreached h i ctx prefers_done m at b =
      ground (
        arith,
        urgent-append h.topic.message_queue (m ∷ []),
        urgent-remove_at h.topic.pending i m at,
      )

  pub begin_message-Unreached :
      (h : History) (id body : String) (headers : Option (Dict String)) (ttl : ℤ) (now : ℕ)
      → Unreached k h.topic
      → Unreached k (step u h (begins_message id body headers ttl now)).topic
  unfolding step begin_message urgent
  begin_message-Unreached h id body headers ttl now b =
      let made : MessagePubSub = record {
        id = id;
        topic = h.topic.name;
        body = body;
        headers = headers;
        timestamp = now;
        priority = pos 0;
        ttl = ttl;
        sequence = incr h.topic.sequence;
      } in
      ground (arith, urgent-append h.topic.pending (made ∷ []))
