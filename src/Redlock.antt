-- ===== src/Redlock.antt =====
-- redlock.go: `Redlock` and `Lock`. The stores behind the `LockClient` interface are not part of
-- the repository: `Store` is a parameter, with the view `held` of who holds a resource. The
-- clients of a `Redlock` are the states of their stores, which each call of a client changes.
pub mod Locking
pub mod Holding
pub mod Overtaking
mod Tests
pub mod Config
use go_patternx.Base.{
  Bool, List, Option, ℕ, ℤ, ◌*◌, ◌==◌, suc, true, ◌∷◌, ◌/◌, [], false, ltb_ℤ, none, some,
  if◌then◌else◌, pos, ltb, millisecond, not, ◌||◌, hour, leb, second, ◌+◌, ◌-◌,
}
use go_patternx.Errors.{
  Context, Result, GoError, err, fail_if, ◌>>◌, text, wrapped, context_with, ok,
  redlock_invalid_resource, redlock_invalid_timeout, redlock_quorum_not_reached, nil_context,
  redlock_invalid_ttl, redlock_lock_expired, wrap,
}
use Prim.Native.String.{String, len}

-- The `interface{}` that `Eval` returns, as far as the source tells its values apart: nil, an
-- `int`, or an integer of another type, which is equal to no `int`.
pub data Reply : Type 0 where
  reply_nil : Reply
  reply_int : ℕ → Reply
  reply_int64 : ℕ → Reply

pub record Store : Type 1 where
  pub Client : Type 0
  -- `Set(ctx, key, value, ttl)`.
  pub set : Client → String → String → ℕ → Client × Option GoError
  -- `Eval` of the script that deletes the key if it has the value.
  pub eval_delete : Client → String → String → Client × Result Reply
  -- `Eval` of the script that sets the expiry, in seconds, if the key has the value.
  pub eval_expire : Client → String → String → ℕ → Client × Result Reply
  -- `Get(ctx, "__health_check__")`.
  pub get_health : Client → Option GoError
  -- The value under a key.
  pub held : Client → String → Option String

pub record RedlockMetrics : Type 0 where
  pub total_acquisitions : ℕ
  pub successful_acquisitions : ℕ
  pub failed_acquisitions : ℕ
  pub total_releases : ℕ
  pub successful_releases : ℕ
  pub failed_releases : ℕ
  pub total_extensions : ℕ
  pub successful_extensions : ℕ
  pub failed_extensions : ℕ
  pub average_acquisition_time : ℕ

pub record Redlock (C : Type 0) : Type 0 where
  pub clients : List C
  pub quorum : ℕ
  pub retry_delay : ℕ
  pub max_retries : ℕ
  -- In thousandths.
  pub drift_factor : ℕ
  pub closed : ℕ
  pub metrics : Option RedlockMetrics

pub record Lock : Type 0 where
  pub resource : String
  pub value : String
  pub ttl : ℕ
  pub acquired : ℕ
  pub created : ℕ

pub validate_resource : ℕ → Result (Unit {0})
validate_resource len = do
  fail_if (len == 0) (wrapped redlock_invalid_resource)
  fail_if (ltb 256 len) (wrapped redlock_invalid_resource)
  fail_if (ltb len 1) (wrapped redlock_invalid_resource)

pub validate_ttl : ℤ → Result (Unit {0})
validate_ttl ttl =
    fail_if (ltb_ℤ ttl (pos millisecond) || ltb_ℤ (pos (24 * hour)) ttl)
      (wrapped redlock_invalid_ttl)

pub validate_timeout : ℤ → Result (Unit {0})
validate_timeout timeout =
    fail_if (ltb_ℤ timeout (pos millisecond) || ltb_ℤ (pos (60 * second)) timeout)
      (wrapped redlock_invalid_timeout)

-- `len(resource)` counts the bytes.
unfoldable pub validate_lock_inputs : Context → String → ℤ → ℤ → ℤ → Result (Unit {0})
unfolding validate_resource validate_ttl
validate_lock_inputs nil_context resource ttl retry_delay max_retries =
    err (text "context cannot be nil")
validate_lock_inputs (context_with e) resource ttl retry_delay max_retries = do
  validate_resource (len resource)
  validate_ttl ttl
  fail_if (ltb_ℤ retry_delay (pos 0)) (wrapped redlock_invalid_timeout)
  fail_if (ltb_ℤ max_retries (pos 0)) (text "max retries cannot be negative")

-- `result == nil || result == 0` of `releaseLockWithTimeout`.
abbrev is_missing : Reply → Bool
is_missing reply_nil = true
is_missing (reply_int n) = n == 0
is_missing (reply_int64 n) = false

-- `result == 1` of `Extend`.
abbrev pub is_one : Reply → Bool
is_one (reply_int n) = n == 1
is_one _ = false

abbrev released : Result Reply → Bool
released (err e) = false
released (ok r) = not (is_missing r)

abbrev extended : Result Reply → Bool
extended (err e) = false
extended (ok r) = is_one r

abbrev count : Bool → ℕ → ℕ
count true n = suc n
count false n = n

abbrev is_nil : Option GoError → Bool
is_nil none = true
is_nil (some e) = false

abbrev quorum_error : Option GoError → GoError
quorum_error none = wrapped redlock_quorum_not_reached
quorum_error (some e) = wrap redlock_quorum_not_reached e

-- The error of the later client, where there is one.
abbrev last_error : Option GoError → Option GoError → Option GoError
last_error none e = e
last_error (some x) e = some x

module _ (store : Store) where
  open store use {Client}

  -- `releaseLockWithTimeout` on each client: the stores after it and how many released.
  pub release_locks : List Client → String → String → List Client × ℕ
  release_locks [] k v = ([], 0)
  release_locks (c ∷ cs) k v =
      let (c', reply) = store.eval_delete c k v in
      let (cs', n) = release_locks cs k v in (c' ∷ cs', count (released reply) n)

  -- The loop of `tryAcquireLockWithTimeout`: the stores, the successes, and the last error.
  pub set_locks : List Client → String → String → ℕ → List Client × ℕ × Option GoError
  set_locks [] k v ttl = ([], 0, none)
  set_locks (c ∷ cs) k v ttl =
      let (c', e) = store.set c k v ttl in
      let (cs', n, last) = set_locks cs k v ttl in (c' ∷ cs', count (is_nil e) n, last_error last e)

  -- The loop of `Extend`.
  pub extend_locks : List Client → String → String → ℕ → List Client × ℕ
  extend_locks [] k v seconds = ([], 0)
  extend_locks (c ∷ cs) k v seconds =
      let (c', reply) = store.eval_expire c k v seconds in
      let (cs', n) = extend_locks cs k v seconds in (c' ∷ cs', count (extended reply) n)

  abbrev pub Attempted : Type 0
  Attempted = Redlock Client × Result Lock

  -- `elapsed` is `time.Since(startTime)` after the loop over the clients.
  pub try_acquire_lock : Redlock Client → String → String → ℕ → ℕ → ℕ → Attempted
  unfolding release_locks set_locks
  try_acquire_lock rl k v ttl elapsed now =
      let (set_clients, successes, last) = set_locks rl.clients k v ttl in
      let drift = ttl * rl.drift_factor / 1000 in
      let rolled_back = record rl { clients = (release_locks set_clients k v).0 } in
      if ltb successes rl.quorum
      then (rolled_back, err (quorum_error last))
      else if leb ttl (elapsed + drift)
      then (rolled_back, err (wrapped redlock_lock_expired))
      else (
        record rl { clients = set_clients },
        ok (record {
          resource = k;
          value = v;
          ttl = ttl - elapsed - drift;
          acquired = 1;
          created = now;
        }),
      )
