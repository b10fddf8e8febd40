-- ===== src/PubSub/Publishing.antt =====
-- pubsub.go: `publishMessage`, `publishWithRetry`, `Publish` and `PublishBatch`, each of which runs
-- with no other goroutine's step between its own.
use go_patternx.Base.{
  Option, ℕ, incr, Bool, some, ◌+◌, if◌then◌else◌, none, ◌==◌, ltb, ◌&&◌, not, suc, zero, length,
  true, false,
}
use go_patternx.PubSub.System.{
  PubSub, PublisherPubSub, CallEnd, returned, panicking, with_topic, not_cancelled,
}
use go_patternx.PubSub.Validation.{Unicode, validate_message, validate_headers}
use go_patternx.PubSub.{CircuitBreakerPubSub, Dict}
use go_patternx.Errors.{
  GoError, fail_if, wrap, context_cancelled_pubsub, sentinel, text, wrapped, annotate,
  circuit_breaker_open, publisher_closed_pubsub, topic_not_found_pubsub, ◌>>◌,
  concurrency_limit_pubsub, map_err, err, ok, Result,
}
use go_patternx.PubSub.Topics.{
  SendEnd, cancelled, begin_message, sent, finish_message, queue_full, panicked,
}
use Prim.Native.String.{String}
use go_patternx.PubSub.Breaker.{admit, record_result}
use go_patternx.PubSub.Maps.{find}

-- What one `publishMessage` meets: `ctx.Err()` at the wait for a slot and at the send, what the two
-- `select`s take where they can take both, the new id and the clock.
pub record PublishRun : Type 0 where
  pub slot_ended : Option GoError
  pub slot_prefers_done : Bool
  pub id : String
  pub now : ℕ
  pub send_ended : Option GoError
  pub send_prefers_done : Bool

-- The `select` for a slot. Its timer, which has not fired yet, never competes with the `default`.
unfoldable pub acquire_slot : PublisherPubSub → PublishRun → Option GoError
acquire_slot p r = elim r.slot_ended [
  | some e ↦
      if ltb p.used p.capacity && not r.slot_prefers_done
      then none
      else some (wrap context_cancelled_pubsub e)
  | none ↦ if ltb p.used p.capacity then none else some (wrapped concurrency_limit_pubsub)
]

abbrev pub with_used : PubSub → ℕ → PubSub
with_used ps n = record ps { publisher = record (ps.publisher) { used = n } }

abbrev pub count_published : PubSub → PubSub
count_published ps = record ps {
  publisher = record (ps.publisher) {
    metrics = record (ps.publisher.metrics) {
      messages_published = incr ps.publisher.metrics.messages_published;
    };
  };
  metrics = record (ps.metrics) { total_messages = incr ps.metrics.total_messages };
}

-- The end of a send, with the counts of the publisher and of the system.
unfoldable pub end_send : PubSub → SendEnd → PubSub × CallEnd
end_send ps sent = (count_published ps, returned none)
end_send ps queue_full = (ps, returned (some (text "topic message queue is full")))
end_send ps panicked = (ps, panicking)
end_send ps (cancelled e) = (ps, returned (some (wrap context_cancelled_pubsub e)))

-- The part that a slot protects. What the store answers is only logged.
unfoldable pub publish_with_slot :
    PubSub → String → String → Option (Dict String) → PublishRun → PubSub × CallEnd
publish_with_slot ps topic_name body headers r = elim (find topic_name ps.publisher.topics) [
  | none ↦ (ps, returned (some (wrapped topic_not_found_pubsub)))
  | some t ↦
      let (t1, refused) = begin_message t r.id body headers ps.config.ttl r.now in
      elim refused [
        | some e ↦ (ps, returned (some e))
        | none ↦ elim (finish_message t1 (length t.pending) r.send_ended r.send_prefers_done) [
          | none ↦ (ps, panicking)
          | some (t2, e) ↦ end_send (with_topic ps topic_name t2) e
        ]
      ]
]

-- With the answer of the `select` for a slot; the slot is given back.
unfoldable pub publish_slotted :
    PubSub → String → String → Option (Dict String) → PublishRun → Option GoError → PubSub × CallEnd
publish_slotted ps topic_name body headers r (some e) = (ps, returned (some e))
publish_slotted ps topic_name body headers r none =
    let used = ps.publisher.used in
    let (ps', e) = publish_with_slot (with_used ps (used + 1)) topic_name body headers r in
    (with_used ps' used, e)

unfoldable pub publish_message :
    PubSub → String → String → Option (Dict String) → PublishRun → PubSub × CallEnd
publish_message ps topic_name body headers r =
    publish_slotted ps topic_name body headers r (acquire_slot ps.publisher r)

-- One attempt: `ctx.Err()` before it, and if the wait after it is cut short.
pub record Attempt : Type 0 where
  pub context_error : Option GoError
  pub run : PublishRun
  pub wait_error : Option GoError

abbrev pub count_failed : PubSub → PubSub
count_failed ps = record ps {
  publisher = record (ps.publisher) {
    metrics = record (ps.publisher.metrics) {
      messages_failed = incr ps.publisher.metrics.messages_failed;
    };
  };
  metrics = record (ps.metrics) { errors = incr ps.metrics.errors };
}

-- A step that starts with a check of the context.
unfoldable pub if_alive : Option GoError → PubSub → PubSub × CallEnd → PubSub × CallEnd
if_alive (some x) ps outcome = (ps, returned (some (wrap context_cancelled_pubsub x)))
if_alive none ps outcome = outcome

-- The last attempt ends.
unfoldable pub give_up : PubSub × CallEnd → PubSub × CallEnd
give_up (ps, panicking) = (ps, panicking)
give_up (ps, returned none) = (ps, returned none)
give_up (ps, returned (some x)) =
    (count_failed ps, returned (some (annotate "failed to publish message" x)))

-- An earlier one ends, with what the loop then does.
unfoldable pub go_on : PubSub × CallEnd → PubSub × CallEnd → PubSub × CallEnd
go_on (ps, panicking) rest = (ps, panicking)
go_on (ps, returned none) rest = (ps, returned none)
go_on (ps, returned (some x)) rest = rest

-- The loop, with the attempts that follow this one.
unfoldable pub publish_attempts :
    ℕ → (ℕ → Attempt) → ℕ → PubSub → String → String → Option (Dict String) → PubSub × CallEnd
publish_attempts zero env i ps topic_name body headers =
    if_alive (env i).context_error ps
      (give_up (publish_message ps topic_name body headers (env i).run))
publish_attempts (suc n) env i ps topic_name body headers =
    let outcome = publish_message ps topic_name body headers (env i).run in
    let rest = publish_attempts n env (i + 1) outcome.0 topic_name body headers in
    if_alive (env i).context_error ps (go_on outcome (if_alive (env i).wait_error outcome.0 rest))

unfoldable pub publish_with_retry :
    PubSub → String → String → Option (Dict String) → (ℕ → Attempt) → PubSub × CallEnd
publish_with_retry ps topic_name body headers env =
    publish_attempts ps.publisher.max_retries env 0 ps topic_name body headers

-- What `Publish` and `PublishBatch` meet besides the attempts: `ctx.Err()` before, the clock at the
-- breaker's two steps, the time taken and the clock at the end.
pub record CallRun : Type 0 where
  pub context_error : Option GoError
  pub admitted_at : ℕ
  pub recorded_at : ℕ
  pub elapsed : ℕ
  pub ended_at : ℕ

abbrev pub with_breaker : PubSub → CircuitBreakerPubSub → PubSub
with_breaker ps cb = record ps { publisher = record (ps.publisher) { circuit_breaker = cb } }

unfoldable pub record_end : CallRun → PubSub × CallEnd → PubSub × CallEnd
record_end r (ps, panicking) = (ps, panicking)
record_end r (ps, returned e) =
    (with_breaker ps (record_result ps.publisher.circuit_breaker e r.recorded_at), returned e)

-- The call of the operation, if the breaker lets it through.
unfoldable pub call_admitted :
    PubSub → CallRun → (PubSub → PubSub × CallEnd) → Bool → PubSub × CallEnd
call_admitted ps r operation true = record_end r (operation ps)
call_admitted ps r operation false = (ps, returned (some (sentinel circuit_breaker_open)))

-- `Execute` of the publisher's breaker.
unfoldable pub execute : PubSub → CallRun → (PubSub → PubSub × CallEnd) → PubSub × CallEnd
execute ps r operation =
    let (cb, admitted) = admit ps.publisher.circuit_breaker r.admitted_at in
    call_admitted (with_breaker ps cb) r operation admitted

-- The deferred writes.
abbrev pub count_latency : CallRun → PubSub × CallEnd → PubSub × CallEnd
count_latency r (ps, e) = (
  record ps {
    publisher = record (ps.publisher) {
      metrics = record (ps.publisher.metrics) {
        average_latency = r.elapsed;
        last_publish_time = some r.ended_at;
      };
    };
  },
  e,
)

-- What follows the checks of `Publish` and `PublishBatch`.
unfoldable pub call_checked :
    Result (Unit {0}) → PubSub → CallRun → (PubSub → PubSub × CallEnd) → PubSub × CallEnd
call_checked (err e) ps r operation = (ps, returned (some e))
call_checked (ok checked) ps r operation = count_latency r (execute ps r operation)

unfoldable pub publish :
    Unicode
    → PubSub
    → String
    → String
    → Option (Dict String)
    → CallRun
    → (ℕ → Attempt)
    → PubSub × CallEnd
publish u ps topic_name body headers r env =
    call_checked
      (fail_if (ps.closed == 1) (sentinel publisher_closed_pubsub)
        >> map_err (annotate "invalid message") (validate_message body)
        >> map_err (annotate "invalid headers") (validate_headers u headers)
        >> not_cancelled r.context_error)
      ps r (λ now. publish_with_retry now topic_name body headers env)
