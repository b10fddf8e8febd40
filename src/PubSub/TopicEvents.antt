-- ===== src/PubSub/TopicEvents.antt =====
-- What may happen to a topic, in any order.
use go_patternx.PubSub.Config.{ConfigPubSub}
use go_patternx.Base.{List, Option, [], some, ◌∷◌, none, ℤ, ◌++◌, ℕ, get_elem?, Bool}
use go_patternx.PubSub.{TopicPubSub, MessagePubSub, String, MessageFilter, Dict}
use go_patternx.PubSub.Delivering.{UserErrors, DeliveryRun}
use go_patternx.PubSub.Topics.{
  add_subscription, SendEnd, new_subscription, begin_message, sent, finish_message,
}
use go_patternx.Errors.{GoError}
use go_patternx.PubSub.Processing.{
  receive_message, start_delivery, WaitEnd, skip_delivery, finish_delivery, end_wait, quit,
  close_topic,
}

pub data Event : Type 0 where
  subscribes : ConfigPubSub → String → MessageFilter → Event
  begins_message : String → String → Option (Dict String) → ℤ → ℕ → Event
  finishes_message : ℕ → Option GoError → Bool → Event
  receives : (ℕ → ℕ) → Event
  starts_delivery : ℕ → ℕ → Event
  skips_delivery : ℕ → Event
  finishes_delivery : ℕ → DeliveryRun → Event
  ends_wait : WaitEnd → Event
  quits closes : Event

-- The topic, with the messages that were sent and those that the processor received.
pub record History : Type 0 where
  pub topic : TopicPubSub
  pub sent_messages : List MessagePubSub
  pub handled : List MessagePubSub

-- The message that a step has put into the channel.
abbrev pub if_sent : Option MessagePubSub → SendEnd → List MessagePubSub
if_sent (some m) sent = m ∷ []
if_sent _ _ = []

abbrev pub first_message : List MessagePubSub → List MessagePubSub
first_message [] = []
first_message (m ∷ ms) = m ∷ []

-- A step that is not possible leaves the topic as it is.
abbrev pub or_same : TopicPubSub → Option TopicPubSub → TopicPubSub
or_same t none = t
or_same t (some t') = t'

unfoldable pub step : UserErrors → History → Event → History
step u h (subscribes c id filter) = record h {
  topic = (add_subscription h.topic (new_subscription c id filter)).0;
}
step u h (begins_message id body headers ttl now) = record h {
  topic = (begin_message h.topic id body headers ttl now).0;
}
step u h (finishes_message k done prefers_done) =
    elim (finish_message h.topic k done prefers_done) [
      | none ↦ h
      | some (t, e) ↦ record h {
        topic = t;
        sent_messages = h.sent_messages ++ if_sent (get_elem? h.topic.pending k) e;
      }
    ]
step u h (receives seen) = elim (receive_message h.topic seen) [
  | none ↦ h
  | some t ↦ record h { topic = t; handled = h.handled ++ first_message h.topic.message_queue }
]
step u h (starts_delivery k now) = record h {
  topic = or_same h.topic (start_delivery h.topic k now);
}
step u h (skips_delivery k) = record h { topic = or_same h.topic (skip_delivery h.topic k) }
step u h (finishes_delivery k r) = elim (finish_delivery u h.topic k r) [
  | none ↦ h
  | some (t, e) ↦ record h { topic = t }
]
step u h (ends_wait w) = record h { topic = or_same h.topic (end_wait h.topic w) }
step u h quits = record h { topic = or_same h.topic (quit h.topic) }
step u h closes = record h { topic = close_topic h.topic }

unfoldable pub run : UserErrors → History → List Event → History
unfolding step
run u h [] = h
run u h (e ∷ es) = run u (step u h e) es

abbrev pub begin : TopicPubSub → History
begin t = record { topic = t; sent_messages = []; handled = [] }
