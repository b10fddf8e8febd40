-- ===== src/PubSub/Delivering.antt =====
-- pubsub.go: the delivery of one message to one subscription.
use go_patternx.PubSub.{
  Dict, MessageFilter, SubscriptionMetrics, SubscriptionPubSub, MessagePubSub, String,
}
use go_patternx.Errors.{
  GoError, Sentinel, sentinel, wrap, wrapped, circuit_breaker_open, context_cancelled_pubsub,
  panic_recovered_pubsub, text, annotate, timeout_pubsub, user,
}
use package.text.Mathlib.Text.{◌==◌ as str_eq}
use go_patternx.PubSub.Maps.{find}
use go_patternx.Base.{
  [], ◌∷◌, Option, ℕ, Bool, incr, some, if◌then◌else◌, none, true, ◌&&◌, false, not, ltb_ℤ, suc,
  ◌+◌, pos, leb_ℤ, zero,
}
use go_patternx.PubSub.Breaker.{admit, record_result}

-- Whether a handler's own error is, by `errors.Is`, a timeout (`ErrTimeoutPubSub`, or a context that
-- ended), or `ErrCircuitBreakerOpen`.
pub record UserErrors : Type 0 where
  pub is_timeout_user : ℕ → Bool
  pub is_open_user : ℕ → Bool

is_timeout_sentinel : Sentinel → Bool
is_timeout_sentinel timeout_pubsub = true
is_timeout_sentinel _ = false

is_open_sentinel : Sentinel → Bool
is_open_sentinel circuit_breaker_open = true
is_open_sentinel _ = false

-- `errors.Is(err, target)` for a sentinel that a test tells, and a test for errors from elsewhere.
is_error : (Sentinel → Bool) → (ℕ → Bool) → GoError → Bool
is_error f g (sentinel s) = f s
is_error f g (text s) = false
is_error f g (wrapped s) = f s
is_error f g (wrap s e) = f s
is_error f g (annotate s e) = is_error f g e
is_error f g (user n) = g n

unfoldable pub is_timeout : UserErrors → GoError → Bool
unfolding is_error is_timeout_sentinel
is_timeout u e = is_error is_timeout_sentinel u.is_timeout_user e

unfoldable pub is_open : UserErrors → GoError → Bool
unfolding is_error is_open_sentinel
is_open u e = is_error is_open_sentinel u.is_open_user e

headers_match : Dict String → Option (Dict String) → Bool
headers_match [] headers = true
headers_match ((key, value) ∷ wanted) headers =
    let rest = headers_match wanted headers in
    elim headers [
      | none ↦ false
      | some h ↦ elim (find key h) [ none ↦ false | some v ↦ str_eq v value && rest ]
    ]

-- `retry_count` is what the message's `RetryCount` is at the check.
unfoldable pub matches_filter : MessageFilter → MessagePubSub → ℕ → Bool
unfolding headers_match
matches_filter f m retry_count =
    elim f.headers [ none ↦ true | some wanted ↦ headers_match wanted m.headers ]
    && not (ltb_ℤ (pos 0) f.priority && ltb_ℤ m.priority f.priority)
    && not (ltb_ℤ (pos 0) f.max_retry_count && leb_ℤ f.max_retry_count (pos retry_count))

-- How a call of the handler ends; a panic is recovered in the goroutine that makes the call.
pub data HandlerEnd : Type 0 where
  returns : Option GoError → HandlerEnd
  panics times_out : HandlerEnd

-- One attempt: `ctx.Err()` before it, the handler, and `ctx.Err()` if the wait after it is cut short.
pub record HandlerRun : Type 0 where
  pub context_error : Option GoError
  pub handler : HandlerEnd
  pub wait_error : Option GoError

abbrev pub handler_error : HandlerEnd → Option GoError
handler_error (returns e) = e
handler_error panics = some (wrapped panic_recovered_pubsub)
handler_error times_out = some (wrapped timeout_pubsub)

abbrev pub count_retried : SubscriptionMetrics → SubscriptionMetrics
count_retried m = record m { messages_retried = incr m.messages_retried }

-- The loop, with the attempts that follow this one.
unfoldable pub deliver_attempts :
    UserErrors
    → ℕ
    → (ℕ → HandlerRun)
    → ℕ
    → SubscriptionMetrics
    → SubscriptionMetrics × Option GoError
deliver_attempts u zero env i m = elim (env i).context_error [
  | some e ↦ (m, some (wrap context_cancelled_pubsub e))
  | none ↦ elim (handler_error (env i).handler) [
    | none ↦ (m, none)
    | some e ↦
        if is_timeout u e
        then (m, some e)
        else (count_retried m, some (annotate "failed to deliver message" e))
  ]
]
deliver_attempts u (suc n) env i m =
    let rest = deliver_attempts u n env (i + 1) (count_retried m) in
    elim (env i).context_error [
      | some e ↦ (m, some (wrap context_cancelled_pubsub e))
      | none ↦ elim (handler_error (env i).handler) [
        | none ↦ (m, none)
        | some e ↦ if is_timeout u e then (m, some e) else elim (env i).wait_error [
          | some x ↦ (count_retried m, some (wrap context_cancelled_pubsub x))
          | none ↦ rest
        ]
      ]
    ]

unfoldable pub deliver_with_retry :
    UserErrors → SubscriptionPubSub → (ℕ → HandlerRun) → SubscriptionMetrics × Option GoError
deliver_with_retry u s env = deliver_attempts u s.max_retries env 0 s.metrics

-- The goroutine up to the breaker's answer.
unfoldable pub begin_delivery : SubscriptionPubSub → ℕ → SubscriptionPubSub × Bool
begin_delivery s now =
    let (cb, admitted) = admit s.circuit_breaker now in
    (
      record s {
        circuit_breaker = cb;
        metrics = record (s.metrics) { messages_received = incr s.metrics.messages_received };
      },
      admitted,
    )

-- What a delivery meets: the handler's runs, those of the direct delivery after an open breaker, the
-- clock after the first of them, the time it took and the clock at the end, and what the dead
-- letter handler answers, if there is one.
pub record DeliveryRun : Type 0 where
  pub runs : ℕ → HandlerRun
  pub direct_runs : ℕ → HandlerRun
  pub recorded_at : ℕ
  pub elapsed : ℕ
  pub ended_at : ℕ
  pub dead_letter : Option (Option GoError)

-- The call through the breaker, once that has answered.
unfoldable pub guarded_delivery :
    UserErrors → SubscriptionPubSub → Bool → DeliveryRun → SubscriptionPubSub × Option GoError
guarded_delivery u s false r = (s, some (sentinel circuit_breaker_open))
guarded_delivery u s true r =
    let (m, e) = deliver_with_retry u s r.runs in
    (record s { circuit_breaker = record_result s.circuit_breaker e r.recorded_at; metrics = m }, e)

-- The direct delivery after an open breaker.
unfoldable pub fall_back :
    UserErrors
    → SubscriptionPubSub × Option GoError
    → DeliveryRun
    → SubscriptionPubSub × Option GoError
fall_back u (s, none) r = (s, none)
fall_back u (s, some e) r =
    let (m, e') = deliver_with_retry u s r.direct_runs in
    if is_open u e then (record s { metrics = m }, e') else (s, some e)

count_dead_letter : Option (Option GoError) → SubscriptionMetrics → SubscriptionMetrics
count_dead_letter none m = m
count_dead_letter (some (some e)) m = m
count_dead_letter (some none) m = record m { messages_dlq = incr m.messages_dlq }

count_failure :
    UserErrors → GoError → Option (Option GoError) → SubscriptionMetrics → SubscriptionMetrics
unfolding count_dead_letter
count_failure u e dead_letter m =
    let failed = record m { messages_failed = incr m.messages_failed } in
    count_dead_letter dead_letter (
      if is_open u e
      then record failed { circuit_breaker_trips = incr m.circuit_breaker_trips }
      else if is_timeout u e
      then record failed { timeout_errors = incr m.timeout_errors }
      else failed)

-- `AverageLatency` is the last delivery's time.
count_time : DeliveryRun → SubscriptionMetrics → SubscriptionMetrics
count_time r m = record m { average_latency = r.elapsed; last_message_time = some r.ended_at }

-- The counts at the end.
unfoldable pub count_end :
    UserErrors
    → SubscriptionPubSub × Option GoError
    → DeliveryRun
    → SubscriptionPubSub × Option GoError
unfolding count_failure count_time
count_end u (s, none) r = (
  record s {
    metrics =
        count_time r
          (record (s.metrics) { messages_processed = incr s.metrics.messages_processed });
  },
  none,
)
count_end u (s, some e) r =
    (record s { metrics = count_time r (count_failure u e r.dead_letter s.metrics) }, some e)

-- The rest of the goroutine.
unfoldable pub end_delivery :
    UserErrors → SubscriptionPubSub → Bool → DeliveryRun → SubscriptionPubSub × Option GoError
end_delivery u s admitted r = count_end u (fall_back u (guarded_delivery u s admitted r) r) r
