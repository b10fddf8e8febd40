-- ===== src/PubSub/Batching.antt =====
-- pubsub.go: `PublishBatch`.
use go_patternx.Base.{[], ◌∷◌, List, incr, ℕ, some, none, ◌==◌, ◌+◌, length, ltb, Option}
use go_patternx.PubSub.System.{PubSub, CallEnd, returned, panicking, not_cancelled}
use go_patternx.Errors.{
  Result, err, ok, map_err, annotate, fail_if, ◌>>◌, sentinel, publisher_closed_pubsub, text,
  wrapped, batch_too_large_pubsub, GoError,
}
use go_patternx.PubSub.Validation.{Unicode, validate_message, validate_headers}
use go_patternx.PubSub.Publishing.{CallRun, PublishRun, count_latency, execute, publish_message}
use go_patternx.PubSub.{MessagePubSub}
use Prim.Native.String.{String}

-- A message is published, with what the loop then does.
unfoldable pub next_message : PubSub × CallEnd → PubSub × CallEnd → PubSub × CallEnd
next_message (ps, panicking) rest = (ps, panicking)
next_message (ps, returned none) rest = rest
next_message (ps, returned (some x)) rest =
    (ps, returned (some (annotate "failed to publish message" x)))

-- The loop over the batch, of whose messages only the bodies and the headers are used.
unfoldable pub publish_all :
    List MessagePubSub → (ℕ → PublishRun) → ℕ → PubSub → String → PubSub × CallEnd
publish_all [] env i ps topic_name = (ps, returned none)
publish_all (m ∷ ms) env i ps topic_name =
    let outcome = publish_message ps topic_name m.body m.headers (env i) in
    let rest = publish_all ms env (i + 1) outcome.0 topic_name in next_message outcome rest

-- The checks of the messages.
unfoldable pub validate_batch : Unicode → List MessagePubSub → Result (Unit {0})
validate_batch u [] = ok tt
validate_batch u (m ∷ ms) =
    map_err (annotate "invalid message") (validate_message m.body)
    >> map_err (annotate "invalid headers") (validate_headers u m.headers)
    >> validate_batch u ms

-- What follows the first checks; the deferred writes are made in each case.
unfoldable pub batch_checked :
    Result (Unit {0}) → PubSub → CallRun → (PubSub → PubSub × CallEnd) → PubSub × CallEnd
batch_checked (err e) ps r operation = count_latency r (ps, returned (some e))
batch_checked (ok checked) ps r operation = count_latency r (execute ps r operation)

abbrev pub count_batch : PubSub × CallEnd → PubSub × CallEnd
count_batch (ps, e) = (
  record ps {
    publisher = record (ps.publisher) {
      metrics = record (ps.publisher.metrics) {
        batch_operations = incr ps.publisher.metrics.batch_operations;
      };
    };
  },
  e,
)

-- With the outcome of the first checks.
unfoldable pub batch_started :
    Result (Unit {0})
    → Unicode
    → PubSub
    → String
    → List MessagePubSub
    → CallRun
    → (ℕ → PublishRun)
    → PubSub × CallEnd
batch_started (err e) u ps topic_name messages r env = (ps, returned (some e))
batch_started (ok started) u ps topic_name messages r env = count_batch (
    batch_checked (validate_batch u messages) ps r
      (λ now. publish_all messages env 0 now topic_name))

-- The first checks.
abbrev pub check_batch : PubSub → List MessagePubSub → Option GoError → Result (Unit {0})
check_batch ps messages ctx =
    fail_if (ps.closed == 1) (sentinel publisher_closed_pubsub)
    >> fail_if (length messages == 0) (text "batch cannot be empty")
    >> fail_if (ltb 1000 (length messages)) (wrapped batch_too_large_pubsub)
    >> not_cancelled ctx

unfoldable pub publish_batch :
    Unicode → PubSub → String → List MessagePubSub → CallRun → (ℕ → PublishRun) → PubSub × CallEnd
publish_batch u ps topic_name messages r env =
    batch_started (check_batch ps messages r.context_error) u ps topic_name messages r env
