-- ===== src/PubSub/Batches.antt =====
-- What a call of `PublishBatch` puts into the channel.
use go_patternx.Base.{
  [], ◌∷◌, List, Bool, ℕ, true, false, some, ◌≡◌, arith, length, none, ◌+◌, refl, ◌<◌,
}
use mathlib.Core.Path.{subst}
use mathlib.Core.List.{append-nil}
use go_patternx.PubSub.System.{CallEnd, PubSub, returned, panicking}
use Prim.Native.String.{String}
use go_patternx.PubSub.{MessagePubSub}
use go_patternx.PubSub.Batching.{
  next_message, publish_all, batch_checked, batch_started, publish_batch, validate_batch,
  count_batch, check_batch,
}
use go_patternx.PubSub.Sending.{Carries, Publishes, Puts, Puts-same, Puts-trans, Puts-nothing}
use go_patternx.PubSub.Executing.{Executes, refused, ran, execute-Executes}
use go_patternx.PubSub.Publishing.{PublishRun, publish_message, CallRun, count_latency, execute}
use go_patternx.Errors.{annotate, sentinel, circuit_breaker_open, Result, err, ok}
use go_patternx.PubSub.Published.{publish_message-Publishes}
use go_patternx.PubSub.Validation.{Unicode}

abbrev is_nil : CallEnd → Bool
is_nil (returned none) = true
is_nil _ = false

-- The messages of a list carry the bodies and the headers of the first ones of a batch.
pub data CarryFirst : List MessagePubSub → List MessagePubSub → Type 0 where
  none_left : (batch : List MessagePubSub) → CarryFirst batch []
  carries_one :
      (wanted m : MessagePubSub) (batch ms : List MessagePubSub)
      → Carries wanted.body wanted.headers m
      → CarryFirst batch ms
      → CarryFirst (wanted ∷ batch) (m ∷ ms)

-- What a call has sent: all of the batch where it returns nil, else fewer.
pub record Sends (name : String) (batch : List MessagePubSub) (ps : PubSub)
    (outcome : PubSub × CallEnd) : Type 0 where
  pub messages : List MessagePubSub
  pub first_ones : CarryFirst batch messages
  pub puts : Puts name messages ps outcome.0
  pub all : is_nil outcome.1 ≡ true → length messages ≡ length batch
  pub fewer : is_nil outcome.1 ≡ false → length messages < length batch

module _ (name : String) where
  Sends-nothing :
      (m : MessagePubSub) (batch : List MessagePubSub) (ps ps' : PubSub) (e : CallEnd)
      → Puts name [] ps ps'
      → is_nil e ≡ false
      → Sends name (m ∷ batch) ps (ps', e)
  Sends-nothing m batch ps ps' e puts failed = record {
    messages = [];
    first_ones = none_left (m ∷ batch);
    puts = puts;
    all = λ nil. ground arith;
    fewer = λ not_nil. ground arith;
  }

  next_message-Sends :
      (m : MessagePubSub) (batch : List MessagePubSub) (ps : PubSub)
      (outcome rest : PubSub × CallEnd)
      → Publishes name m.body m.headers ps outcome
      → Sends name batch outcome.0 rest
      → Sends name (m ∷ batch) ps (next_message outcome rest)
  unfolding next_message
  next_message-Sends m batch ps (ps', panicking) rest (made, carries, puts) s =
      Sends-nothing m batch ps ps' panicking puts refl
  next_message-Sends m batch ps (ps', returned (some x)) rest (made, carries, puts) s =
      Sends-nothing m batch ps ps' (returned (some (annotate "failed to publish message" x))) puts
        refl
  next_message-Sends m batch ps (ps', returned none) (ps'', e) (made, carries, puts) s = record {
    messages = made ∷ s.messages;
    first_ones = carries_one m made batch s.messages carries s.first_ones;
    puts = Puts-trans name (made ∷ []) s.messages ps ps' ps'' puts s.puts;
    all = λ nil. ground (arith, s.all nil);
    fewer = λ not_nil. ground (arith, s.fewer not_nil);
  }

  publish_all-Sends :
      (batch : List MessagePubSub) (env : ℕ → PublishRun) (i : ℕ) (ps : PubSub)
      → Sends name batch ps (publish_all batch env i ps name)
  unfolding publish_all
  publish_all-Sends [] env i ps = record {
    messages = [];
    first_ones = none_left [];
    puts = Puts-same name ps;
    all = λ nil. refl;
    fewer = λ not_nil. ground arith;
  }
  publish_all-Sends (m ∷ ms) env i ps =
      let outcome = publish_message ps name m.body m.headers (env i) in
      next_message-Sends m ms ps outcome (publish_all ms env (i + 1) outcome.0 name)
        (publish_message-Publishes name m.body m.headers ps (env i))
        (publish_all-Sends ms env (i + 1) outcome.0)

  -- What comes before a call, and after it.
  Sends-around :
      (batch : List MessagePubSub) (ps now : PubSub) (outcome : PubSub × CallEnd) (ps' : PubSub)
      → Puts name [] ps now
      → Puts name [] outcome.0 ps'
      → Sends name batch now outcome
      → Sends name batch ps (ps', outcome.1)
  Sends-around batch ps now (last, e) ps' before after s = record {
    messages = s.messages;
    first_ones = s.first_ones;
    puts =
        subst (λ ms. Puts name ms ps ps') (append-nil s.messages)
          (Puts-trans name s.messages [] ps last ps'
            (Puts-trans name [] s.messages ps now last before s.puts) after);
    all = s.all;
    fewer = s.fewer;
  }

  execute-Sends :
      (m : MessagePubSub) (batch : List MessagePubSub) (ps : PubSub)
      (operation : PubSub → PubSub × CallEnd) (outcome : PubSub × CallEnd)
      → ((now : PubSub) → Sends name (m ∷ batch) now (operation now))
      → Executes name ps operation outcome
      → Sends name (m ∷ batch) ps outcome
  execute-Sends m batch ps operation _ p (refused ps' puts) =
      Sends-nothing m batch ps ps' (returned (some (sentinel circuit_breaker_open))) puts refl
  execute-Sends m batch ps operation _ p (ran now ps' before after) =
      Sends-around (m ∷ batch) ps now (operation now) ps' before after (p now)

  batch_checked-Sends :
      (checked : Result (Unit {0})) (m : MessagePubSub) (batch : List MessagePubSub) (ps : PubSub)
      (r : CallRun) (operation : PubSub → PubSub × CallEnd)
      → ((now : PubSub) → Sends name (m ∷ batch) now (operation now))
      → Sends name (m ∷ batch) ps (batch_checked checked ps r operation)
  unfolding batch_checked
  batch_checked-Sends (err e) m batch ps r operation p =
      let last = (count_latency r (ps, returned (some e))).0 in
      Sends-nothing m batch ps last (returned (some e))
        (Puts-nothing name [] ps last refl refl refl refl refl refl) refl
  batch_checked-Sends (ok checked) m batch ps r operation p =
      let (last, e) = execute ps r operation in
      let ps' = (count_latency r (last, e)).0 in
      Sends-around (m ∷ batch) ps ps (last, e) ps' (Puts-same name ps)
        (Puts-nothing name [] last ps' refl refl refl refl refl refl)
        (execute-Sends m batch ps operation (last, e) p (execute-Executes name ps r operation))

  batch_started-Sends :
      (started : Result (Unit {0})) (u : Unicode) (ps : PubSub) (m : MessagePubSub)
      (batch : List MessagePubSub) (r : CallRun) (env : ℕ → PublishRun)
      → Sends name (m ∷ batch) ps (batch_started started u ps name (m ∷ batch) r env)
  unfolding batch_started
  batch_started-Sends (err e) u ps m batch r env =
      Sends-nothing m batch ps ps (returned (some e)) (Puts-same name ps) refl
  batch_started-Sends (ok started) u ps m batch r env =
      let operation = λ (now : PubSub). publish_all (m ∷ batch) env 0 now name in
      let (last, e) = batch_checked (validate_batch u (m ∷ batch)) ps r operation in
      let ps' = (count_batch (last, e)).0 in
      Sends-around (m ∷ batch) ps ps (last, e) ps' (Puts-same name ps)
        (Puts-nothing name [] last ps' refl refl refl refl refl refl)
        (batch_checked-Sends (validate_batch u (m ∷ batch)) m batch ps r operation
          (publish_all-Sends (m ∷ batch) env 0))

-- `PublishBatch` of a batch that is not empty sends its first messages, one after the other and each
-- once, to the end of the topic's channel and to no other, and counts them: all of them exactly
-- where it returns nil, and fewer where it returns an error or panics. Each has the body and the
-- headers of the batch's and priority 0, whatever the batch's message says.
pub publish_batch-Sends :
    (u : Unicode) (ps : PubSub) (name : String) (m : MessagePubSub) (batch : List MessagePubSub)
    (r : CallRun) (env : ℕ → PublishRun)
    → Sends name (m ∷ batch) ps (publish_batch u ps name (m ∷ batch) r env)
unfolding publish_batch
publish_batch-Sends u ps name m batch r env =
    batch_started-Sends name (check_batch ps (m ∷ batch) r.context_error) u ps m batch r env
