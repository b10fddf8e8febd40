-- ===== src/PubSub/Slots.antt =====
-- What `publishMessage` puts into a channel once it has a slot.
use go_patternx.Base.{
  [], ◌∷◌, List, Option, get_elem?, ◌++◌, length, ◌≡◌, Option-cases, none, pos, some, incr, inl,
  refl, false, inr, word, ◌+◌, arith,
}
use package.text.Mathlib.Text.{◌==◌ as str_eq}
use package.text.Mathlib.TextEquality.{eq_iff}
use mathlib.Core.List.{append-nil}
use go_patternx.PubSub.System.{PubSub, CallEnd}
use Prim.Native.String.{String}
use go_patternx.PubSub.{TopicPubSub, Dict, MessagePubSub}
use go_patternx.PubSub.Publishing.{PublishRun, publish_with_slot, end_send}
use go_patternx.PubSub.Sending.{Publishes, Puts, if_nil, queue_of, Puts-nothing}
use go_patternx.PubSub.Topics.{begin_message, finish_message}
use go_patternx.PubSub.Maps.{find, find-put}

get_elem?-append_one :
    {A : Type 0} (xs : List A) (x : A) → get_elem? (xs ++ x ∷ []) (length xs) ≡ some x
get_elem?-append_one [] x = refl
get_elem?-append_one (y ∷ xs) x = get_elem?-append_one xs x

-- The message that `publishMessage` makes.
abbrev made_message :
    PubSub → TopicPubSub → String → Option (Dict String) → PublishRun → MessagePubSub
made_message ps t body headers r = record {
  id = r.id;
  topic = t.name;
  body = body;
  headers = headers;
  timestamp = r.now;
  priority = pos 0;
  ttl = ps.config.ttl;
  sequence = incr t.sequence;
}

module _ (name body : String) (headers : Option (Dict String)) (ps : PubSub) (r : PublishRun) where
  unfoldable pub with_slot : PubSub × CallEnd
  with_slot = publish_with_slot ps name body headers r

  -- The topic afterwards.
  after : TopicPubSub → TopicPubSub
  unfolding begin_message finish_message
  after t =
      elim (finish_message (begin_message t r.id body headers ps.config.ttl r.now).0
        (length t.pending) r.send_ended r.send_prefers_done) [ none ↦ t | some (t', e) ↦ t' ]

  with_slot-there :
      (t : TopicPubSub)
      → find name ps.publisher.topics ≡ some t
      → queue_of name with_slot.0
        ≡ queue_of name ps ++ if_nil with_slot.1 (made_message ps t body headers r ∷ [])
  unfolding with_slot after publish_with_slot begin_message finish_message end_send
  with_slot-there t found = ground (
    arith,
    eq_iff name name,
    find-put name name (after t) ps.publisher.topics,
    append-nil t.message_queue,
    get_elem?-append_one t.pending (made_message ps t body headers r),
  )

  with_slot-elsewhere :
      (t : TopicPubSub) (j : String)
      → find name ps.publisher.topics ≡ some t
      → str_eq name j ≡ false
      → queue_of j with_slot.0 ≡ queue_of j ps
  unfolding with_slot after publish_with_slot begin_message finish_message end_send
  with_slot-elsewhere t j found other = ground (
    arith,
    eq_iff name j,
    find-put name j (after t) ps.publisher.topics,
    get_elem?-append_one t.pending (made_message ps t body headers r),
  )

  -- The counts and the settings.
  with_slot-counts :
      (ms : List MessagePubSub) (t : TopicPubSub)
      → length ms ≡ 1
      → find name ps.publisher.topics ≡ some t
      → (word with_slot.0.metrics.total_messages
          ≡ word (ps.metrics.total_messages + length (if_nil with_slot.1 ms)))
        × (word with_slot.0.publisher.metrics.messages_published
            ≡ word (ps.publisher.metrics.messages_published + length (if_nil with_slot.1 ms)))
        × (with_slot.0.publisher.used ≡ ps.publisher.used)
        × (with_slot.0.publisher.max_retries ≡ ps.publisher.max_retries)
  unfolding with_slot after publish_with_slot begin_message finish_message end_send
  with_slot-counts ms t one found =
      ground (arith, get_elem?-append_one t.pending (made_message ps t body headers r))

  with_slot-Puts :
      (t : TopicPubSub)
      → find name ps.publisher.topics ≡ some t
      → Puts name (if_nil with_slot.1 (made_message ps t body headers r ∷ [])) ps with_slot.0
  with_slot-Puts t found =
      let counts = with_slot-counts (made_message ps t body headers r ∷ []) t refl found in
      record {
        there = with_slot-there t found;
        elsewhere = λ j other. with_slot-elsewhere t j found other;
        total = counts.0;
        by_publisher = counts.1;
        slots = counts.2;
        retries = counts.3;
      }

  -- Where the topic is unknown nothing is put, whatever the message.
  with_slot-Puts_absent :
      (m : MessagePubSub)
      → find name ps.publisher.topics ≡ none
      → Puts name (if_nil with_slot.1 (m ∷ [])) ps with_slot.0
  unfolding with_slot publish_with_slot
  with_slot-Puts_absent m absent =
      Puts-nothing name (if_nil with_slot.1 (m ∷ [])) ps with_slot.0 (ground arith) (ground arith)
        (ground arith) (ground arith) (ground arith) (ground arith)

  some_message : MessagePubSub
  some_message = record {
    id = "";
    topic = name;
    body = body;
    headers = headers;
    timestamp = 0;
    priority = pos 0;
    ttl = pos 0;
    sequence = 0;
  }

  pub with_slot-Publishes : Publishes name body headers ps with_slot
  unfolding some_message
  with_slot-Publishes = elim (Option-cases (find name ps.publisher.topics)) [
    | inl absent ↦ (
      some_message,
      record { same_body = refl; same_headers = refl; no_priority = refl },
      with_slot-Puts_absent some_message absent,
    )
    | inr (t, found) ↦ (
      made_message ps t body headers r,
      record { same_body = refl; same_headers = refl; no_priority = refl },
      with_slot-Puts t found,
    )
  ]
