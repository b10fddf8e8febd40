-- ===== src/PubSub/Published.antt =====
-- What a call of `Publish` puts into the channel.
use go_patternx.Base.{[], ◌∷◌, Option, ℕ, suc, zero, ◌+◌, some, none, refl, ◌==◌}
use Prim.Native.String.{String}
use go_patternx.PubSub.{Dict}
use go_patternx.PubSub.System.{PubSub, CallEnd, returned, panicking, not_cancelled}
use go_patternx.PubSub.Publishing.{
  publish_attempts, publish_message, PublishRun, Attempt, acquire_slot, give_up, go_on, if_alive,
  publish_slotted, count_failed, with_used, execute, publish_with_slot, CallRun, call_checked,
  publish, publish_with_retry, count_latency,
}
use go_patternx.PubSub.Sending.{Publishes, Puts, if_nil, Puts-same, Puts-trans, Puts-nothing}
use go_patternx.Errors.{
  GoError, Result, err, fail_if, ok, sentinel, publisher_closed_pubsub, ◌>>◌, map_err, annotate,
}
use go_patternx.PubSub.Slots.{with_slot-Publishes, with_slot}
use mathlib.Core.Path.{subst}
use mathlib.Core.List.{append-nil}
use go_patternx.PubSub.Executing.{Executes, refused, ran, execute-Executes}
use go_patternx.PubSub.Validation.{Unicode, validate_message, validate_headers}

module _ (name body : String) (headers : Option (Dict String)) where
  publish_slotted-Publishes :
      (ps : PubSub) (r : PublishRun) (answer : Option GoError)
      → Publishes name body headers ps (publish_slotted ps name body headers r answer)
  unfolding publish_slotted publish_with_slot with_slot
  publish_slotted-Publishes ps r (some e) =
      let (m, carries, puts) = with_slot-Publishes name body headers ps r in
      (m, carries, Puts-same name ps)
  publish_slotted-Publishes ps r none =
      let (m, carries, puts) =
        with_slot-Publishes name body headers (with_used ps (ps.publisher.used + 1)) r in
      (
        m,
        carries,
        record {
          there = puts.there;
          elsewhere = puts.elsewhere;
          total = puts.total;
          by_publisher = puts.by_publisher;
          slots = refl;
          retries = puts.retries;
        },
      )

  pub publish_message-Publishes :
      (ps : PubSub) (r : PublishRun)
      → Publishes name body headers ps (publish_message ps name body headers r)
  unfolding publish_message
  publish_message-Publishes ps r = publish_slotted-Publishes ps r (acquire_slot ps.publisher r)

  if_alive-Publishes :
      (ps : PubSub) (ctx : Option GoError) (outcome : PubSub × CallEnd)
      → Publishes name body headers ps outcome
      → Publishes name body headers ps (if_alive ctx ps outcome)
  unfolding if_alive
  if_alive-Publishes ps none outcome p = p
  if_alive-Publishes ps (some x) outcome (m, carries, puts) = (m, carries, Puts-same name ps)

  give_up-Publishes :
      (ps : PubSub) (outcome : PubSub × CallEnd)
      → Publishes name body headers ps outcome
      → Publishes name body headers ps (give_up outcome)
  unfolding give_up
  give_up-Publishes ps (ps', panicking) p = p
  give_up-Publishes ps (ps', returned none) p = p
  give_up-Publishes ps (ps', returned (some x)) (m, carries, puts) = (
    m,
    carries,
    Puts-trans name [] [] ps ps' (count_failed ps') puts
        (Puts-nothing name [] ps' (count_failed ps') refl refl refl refl refl refl),
  )

  go_on-Publishes :
      (ps : PubSub) (outcome rest : PubSub × CallEnd)
      → Publishes name body headers ps outcome
      → Publishes name body headers outcome.0 rest
      → Publishes name body headers ps (go_on outcome rest)
  unfolding go_on
  go_on-Publishes ps (ps', panicking) rest p q = p
  go_on-Publishes ps (ps', returned none) rest p q = p
  go_on-Publishes ps (ps', returned (some x)) (ps'', e) (m, carries, puts) (m', carries', puts') =
      (m', carries', Puts-trans name [] (if_nil e (m' ∷ [])) ps ps' ps'' puts puts')

  publish_attempts-Publishes :
      (n : ℕ) (env : ℕ → Attempt) (i : ℕ) (ps : PubSub)
      → Publishes name body headers ps (publish_attempts n env i ps name body headers)
  unfolding publish_attempts
  publish_attempts-Publishes zero env i ps =
      let r = (env i).run in
      if_alive-Publishes ps (env i).context_error (give_up (publish_message ps name body headers r))
        (give_up-Publishes ps (publish_message ps name body headers r)
          (publish_message-Publishes ps r))
  publish_attempts-Publishes (suc n) env i ps =
      let outcome = publish_message ps name body headers (env i).run in
      let rest = publish_attempts n env (i + 1) outcome.0 name body headers in
      let tail = if_alive (env i).wait_error outcome.0 rest in
      if_alive-Publishes ps (env i).context_error (go_on outcome tail) (
        go_on-Publishes ps outcome tail (publish_message-Publishes ps (env i).run) (
          if_alive-Publishes outcome.0 (env i).wait_error rest
            (publish_attempts-Publishes n env (i + 1) outcome.0)))

  -- What comes before a call, and after it.
  Publishes-around :
      (ps now : PubSub) (outcome : PubSub × CallEnd) (ps' : PubSub)
      → Puts name [] ps now
      → Puts name [] outcome.0 ps'
      → Publishes name body headers now outcome
      → Publishes name body headers ps (ps', outcome.1)
  Publishes-around ps now (last, e) ps' before after (m, carries, puts) = (
    m,
    carries,
    subst (λ ms. Puts name ms ps ps') (append-nil (if_nil e (m ∷ [])))
        (Puts-trans name (if_nil e (m ∷ [])) [] ps last ps'
          (Puts-trans name [] (if_nil e (m ∷ [])) ps now last before puts) after),
  )

  execute-Publishes :
      (ps : PubSub) (operation : PubSub → PubSub × CallEnd) (outcome : PubSub × CallEnd)
      → ((now : PubSub) → Publishes name body headers now (operation now))
      → Executes name ps operation outcome
      → Publishes name body headers ps outcome
  execute-Publishes ps operation _ p (refused ps' puts) =
      let (m, carries, some_puts) = p ps in (m, carries, puts)
  execute-Publishes ps operation _ p (ran now ps' before after) =
      Publishes-around ps now (operation now) ps' before after (p now)

  call_checked-Publishes :
      (checked : Result (Unit {0})) (ps : PubSub) (r : CallRun)
      (operation : PubSub → PubSub × CallEnd)
      → ((now : PubSub) → Publishes name body headers now (operation now))
      → Publishes name body headers ps (call_checked checked ps r operation)
  unfolding call_checked
  call_checked-Publishes (err e) ps r operation p =
      let (m, carries, some_puts) = p ps in (m, carries, Puts-same name ps)
  call_checked-Publishes (ok checked) ps r operation p =
      let (ps', e) = execute ps r operation in
      Publishes-around ps ps (ps', e) (count_latency r (ps', e)).0 (Puts-same name ps)
        (Puts-nothing name [] ps' (count_latency r (ps', e)).0 refl refl refl refl refl refl)
        (execute-Publishes ps operation (ps', e) p (execute-Executes name ps r operation))

-- `Publish` returns nil exactly where it has put one message with the given body and headers at the
-- end of the topic's channel, counted once by the publisher and once by the system; where it
-- returns an error or panics it has put none, however many attempts it made. No other topic's
-- channel changes, and no slot stays taken. The message has priority 0.
pub publish-Publishes :
    (u : Unicode) (ps : PubSub) (name body : String) (headers : Option (Dict String)) (r : CallRun)
    (env : ℕ → Attempt)
    → Publishes name body headers ps (publish u ps name body headers r env)
unfolding publish publish_with_retry
publish-Publishes u ps name body headers r env =
    call_checked-Publishes name body headers
      (fail_if (ps.closed == 1) (sentinel publisher_closed_pubsub)
        >> map_err (annotate "invalid message") (validate_message body)
        >> map_err (annotate "invalid headers") (validate_headers u headers)
        >> not_cancelled r.context_error)
      ps r (λ now. publish_with_retry now name body headers env)
      (λ now. publish_attempts-Publishes name body headers now.publisher.max_retries env 0 now)
