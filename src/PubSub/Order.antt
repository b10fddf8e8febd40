-- ===== src/PubSub/Order.antt =====
-- The order in which a topic's messages are handled.
use go_patternx.PubSub.{Processor, delivering, MessagePubSub, String}
use go_patternx.PubSub.Delivering.{UserErrors}
use go_patternx.Base.{
  ℕ, ◌≡◌, ◌++◌, Option, List, word, Bool, length, ◌∷◌, ◌+◌, get_elem?, some, ◌≤◌, arith,
  Option-cases, [], inl, length-append, ◌⊎◌, inr, refl,
}
use go_patternx.PubSub.TopicEvents.{
  History, step, receives, finishes_message, Event, subscribes, begins_message, starts_delivery,
  skips_delivery, finishes_delivery, ends_wait, run, begin, quits, closes,
}
use go_patternx.PubSub.Topics.{add_subscription, finish_message, begin_message, new_topic}
use go_patternx.PubSub.Processing.{
  receive_message, start_delivery, skip_delivery, finish_delivery, end_wait, quit, close_topic,
}
use go_patternx.Errors.{GoError}
use mathlib.Core.List.{append_assoc, append-nil}

abbrev pub in_wait : Processor → ℕ
in_wait delivering = 1
in_wait _ = 0

pub record InOrder (size : ℕ) (h : History) : Type 0 where
  -- First sent, first handled; what was sent is handled or waits, each message once.
  pub order : h.sent_messages ≡ h.handled ++ h.topic.message_queue
  pub published : h.topic.metrics.messages_published ≡ word (length h.sent_messages)
  -- At most one message is being delivered, and it does not count yet.
  pub delivered : h.topic.metrics.messages_delivered + in_wait h.topic.processor ≤ length h.handled
  pub same_size : h.topic.buffer_size ≡ size
  pub fits : length h.topic.message_queue ≤ size

pub List-cases :
    (ms : List MessagePubSub)
    → (ms ≡ []) ⊎ ((m : MessagePubSub) × (rest : List MessagePubSub) × (ms ≡ m ∷ rest))
List-cases [] = inl refl
List-cases (m ∷ rest) = inr (m, rest, refl)

module _ (u : UserErrors) (size : ℕ) where
  finish_message-InOrder :
      (h : History) (k : ℕ) (ctx : Option GoError) (prefers_done : Bool) (m : MessagePubSub)
      → get_elem? h.topic.pending k ≡ some m
      → InOrder size h
      → InOrder size (step u h (finishes_message k ctx prefers_done))
  unfolding step finish_message
  finish_message-InOrder h k ctx prefers_done m found i = ground (
    arith,
    append_assoc h.handled h.topic.message_queue (m ∷ []),
    append-nil h.sent_messages,
    length-append h.sent_messages (m ∷ []),
    length-append h.topic.message_queue (m ∷ []),
  )

  receive_message-InOrder :
      (h : History) (seen : ℕ → ℕ) (m : MessagePubSub) (rest : List MessagePubSub)
      → h.topic.message_queue ≡ m ∷ rest
      → InOrder size h
      → InOrder size (step u h (receives seen))
  unfolding step receive_message
  receive_message-InOrder h seen m rest waits i =
      ground (arith, append_assoc h.handled (m ∷ []) rest, length-append h.handled (m ∷ []))

  step-InOrder : (h : History) (e : Event) → InOrder size h → InOrder size (step u h e)
  unfolding step add_subscription begin_message finish_message receive_message start_delivery
      skip_delivery finish_delivery end_wait quit close_topic
  step-InOrder h (subscribes c id filter) i = ground arith
  step-InOrder h (begins_message id body headers ttl now) i = ground arith
  step-InOrder h (finishes_message k ctx prefers_done) i =
      elim (Option-cases (get_elem? h.topic.pending k)) [
        | inl absent ↦ ground arith
        | inr (m, found) ↦ finish_message-InOrder h k ctx prefers_done m found i
      ]
  step-InOrder h (receives seen) i = elim (List-cases h.topic.message_queue) [
    | inl empty ↦ ground arith
    | inr (m, rest, waits) ↦ receive_message-InOrder h seen m rest waits i
  ]
  step-InOrder h (starts_delivery k now) i = ground arith
  step-InOrder h (skips_delivery k) i = ground arith
  step-InOrder h (finishes_delivery k r) i = ground arith
  step-InOrder h (ends_wait w) i = ground arith
  step-InOrder h quits i = ground arith
  step-InOrder h closes i = ground arith

  run-InOrder_from : (h : History) (es : List Event) → InOrder size h → InOrder size (run u h es)
  unfolding run
  run-InOrder_from h [] i = i
  run-InOrder_from h (e ∷ es) i = run-InOrder_from (step u h e) es (step-InOrder h e i)

-- A topic is a queue. From its making on, whatever publishers, deliveries and `Close` do and in
-- whatever order, the messages that were sent are those that `processTopicMessages` received,
-- followed by those that wait, in the order of the sends and each once; `MessagesPublished` counts
-- them modulo 2^64, the channel keeps within `BufferSize`, and `MessagesDelivered` is at most the
-- number of messages received, without the one that is being delivered.
pub run-InOrder :
    (u : UserErrors) (name : String) (size : ℕ) (es : List Event)
    → InOrder size (run u (begin (new_topic name size)) es)
run-InOrder u name size es = run-InOrder_from u size (begin (new_topic name size)) es (ground arith)
