-- ===== src/Redlock/Locking.antt =====
-- redlock.go: `LockWithRetry`, `Lock`, `TryLock`, `LockWithTimeout`, `Unlock`, `Extend`, `Close`
-- and the getters of a lock.
use go_patternx.Base.{
  Bool, ℕ, ◌==◌, List, Option, if◌then◌else◌, incr, ltb, ℤ, ◌+◌, false, some, true, ◌∷◌, leb, none,
  pos, ◌/◌, [], second, suc, pos_part, zero,
}
use go_patternx.Redlock.{
  Lock, Redlock, RedlockMetrics, Store, Context, String, Attempted, count, extend_locks,
  release_locks, validate_timeout, validate_ttl, is_nil, try_acquire_lock, validate_lock_inputs,
}
use go_patternx.Errors.{
  wrap, GoError, err, context_cancelled, ok, redlock_lock_acquisition_failed, sentinel, wrapped,
  redlock_closed, redlock_lock_not_acquired, redlock_lock_release_failed,
  redlock_lock_extension_failed,
}

-- `atomic.AddInt64` on the metrics, where they are enabled.
abbrev measure : (RedlockMetrics → RedlockMetrics) → Option RedlockMetrics → Option RedlockMetrics
measure f none = none
measure f (some m) = some (f m)

acquisition_succeeded : ℕ → RedlockMetrics → RedlockMetrics
acquisition_succeeded time m = record m {
  total_acquisitions = incr m.total_acquisitions;
  successful_acquisitions = incr m.successful_acquisitions;
  average_acquisition_time = time;
}

acquisition_failed : RedlockMetrics → RedlockMetrics
acquisition_failed m = record m {
  total_acquisitions = incr m.total_acquisitions;
  failed_acquisitions = incr m.failed_acquisitions;
}

count_release : ℕ → RedlockMetrics → RedlockMetrics
count_release n m =
    if ltb 0 n
    then record m {
      total_releases = incr m.total_releases;
      successful_releases = incr m.successful_releases;
    }
    else record m {
      total_releases = incr m.total_releases;
      failed_releases = incr m.failed_releases;
    }

count_extension : Bool → RedlockMetrics → RedlockMetrics
count_extension true m = record m {
  total_extensions = incr m.total_extensions;
  successful_extensions = incr m.successful_extensions;
}
count_extension false m = record m {
  total_extensions = incr m.total_extensions;
  failed_extensions = incr m.failed_extensions;
}

module _ (store : Store) where
  open store use {Client}

  -- What one attempt meets: what other holders did to the stores before it, `ctx.Err()` at its
  -- start, the time that its loop takes, the clock, and `ctx.Err()` if the context ends the wait
  -- after it.
  pub record Attempt : Type 0 where
    pub others : List Client → List Client
    pub context_error : Option GoError
    pub elapsed : ℕ
    pub now : ℕ
    pub wait_error : Option GoError

  unfoldable pub attempt_once :
      Attempt
      → Redlock Client
      → String
      → String
      → ℕ
      → (Redlock Client → GoError → Attempted store)
      → Attempted store
  unfolding acquisition_succeeded acquisition_failed
  attempt_once a rl k v ttl on_failure =
      let met = record rl { clients = a.others rl.clients } in
      elim a.context_error [
        | some e ↦ (met, err (wrap context_cancelled e))
        | none ↦
            let (tried, result) = try_acquire_lock store met k v ttl a.elapsed a.now in
            elim result [
              | ok lock ↦ (
                record tried { metrics = measure (acquisition_succeeded a.elapsed) tried.metrics },
                ok lock,
              )
              | err e ↦
                  on_failure (record tried { metrics = measure acquisition_failed tried.metrics }) e
            ]
      ]

  -- The last attempt has failed.
  unfoldable pub give_up : Redlock Client → GoError → Attempted store
  give_up failed e = (failed, err (wrap redlock_lock_acquisition_failed e))

  -- The `select` between the delay and the end of the context, with the rest of the loop.
  unfoldable pub after_wait : Option GoError → Redlock Client → Attempted store → Attempted store
  after_wait none failed rest = rest
  after_wait (some x) failed rest = (failed, err (wrap context_cancelled x))

  -- The loop of `LockWithRetry`, with the retries that are left and the number of the attempt.
  unfoldable pub lock_attempts :
      ℕ → (ℕ → Attempt) → ℕ → ℕ → String → String → ℕ → Redlock Client → Attempted store
  unfolding attempt_once give_up after_wait
  lock_attempts zero env i delay k v ttl rl = attempt_once (env i) rl k v ttl give_up
  lock_attempts (suc n) env i delay k v ttl rl = attempt_once (env i) rl k v ttl (λ failed e.
      after_wait (if ltb 0 delay then (env i).wait_error else none) failed
        (lock_attempts n env (i + 1) delay k v ttl failed))

  -- `v` is the value that `generateLockValue` draws.
  unfoldable pub lock_with_retry :
      Redlock Client → Context → (ℕ → Attempt) → String → String → ℤ → ℤ → ℤ → Attempted store
  lock_with_retry rl ctx env k v ttl delay retries =
      if rl.closed == 1
      then (rl, err (sentinel redlock_closed))
      else elim (validate_lock_inputs ctx k ttl delay retries) [
        | err e ↦ (rl, err e)
        | ok u ↦ lock_attempts (pos_part retries) env 0 (pos_part delay) k v (pos_part ttl) rl
      ]

  pub lock : Redlock Client → Context → (ℕ → Attempt) → String → String → ℤ → Attempted store
  unfolding lock_with_retry
  lock rl ctx env k v ttl =
      lock_with_retry rl ctx env k v ttl (pos rl.retry_delay) (pos rl.max_retries)

  pub try_lock : Redlock Client → Context → String → String → ℤ → ℕ → ℕ → Attempted store
  try_lock rl ctx k v ttl elapsed now =
      if rl.closed == 1
      then (rl, err (sentinel redlock_closed))
      else elim (validate_lock_inputs ctx k ttl (pos 0) (pos 0)) [
        | err e ↦ (rl, err e)
        | ok u ↦ try_acquire_lock store rl k v (pos_part ttl) elapsed now
      ]

  -- The context of `env` is then the one with the timeout.
  pub lock_with_timeout :
      Redlock Client → Context → (ℕ → Attempt) → String → String → ℤ → ℤ → Attempted store
  unfolding lock
  lock_with_timeout rl ctx env k v ttl timeout = elim (validate_timeout timeout) [
    | err e ↦ (rl, err e)
    | ok u ↦ lock rl ctx env k v ttl
  ]

  unfoldable pub unlock : Redlock Client → Lock → Redlock Client × Lock × Option GoError
  unfolding count_release
  unlock rl l =
      let (cs, n) = release_locks store rl.clients l.resource l.value in
      if l.acquired == 1
      then (
        record rl { clients = cs; metrics = measure (count_release n) rl.metrics },
        record l { acquired = 0 },
        if n == 0 then some (wrapped redlock_lock_release_failed) else none,
      )
      else (rl, l, some (sentinel redlock_lock_not_acquired))

  unfoldable pub extend_quorum : Redlock Client → Lock → ℕ → Redlock Client × Lock × Option GoError
  unfolding count_extension
  extend_quorum rl l ttl =
      let (cs, n) = extend_locks store rl.clients l.resource l.value (ttl / second) in
      if ltb n rl.quorum
      then (
        record rl { clients = cs; metrics = measure (count_extension false) rl.metrics },
        l,
        some (wrapped redlock_lock_extension_failed),
      )
      else (
        record rl { clients = cs; metrics = measure (count_extension true) rl.metrics },
        record l { ttl = ttl },
        none,
      )

  -- `int(ttl.Seconds())` rounds towards zero.
  unfoldable pub extend : Redlock Client → Lock → ℤ → Redlock Client × Lock × Option GoError
  unfolding extend_quorum
  extend rl l ttl = elim (validate_ttl ttl) [
    | err e ↦ (rl, l, some e)
    | ok u ↦
        if l.acquired == 0
        then (rl, l, some (sentinel redlock_lock_not_acquired))
        else extend_quorum rl l (pos_part ttl)
  ]

  healthy_clients : List Client → ℕ
  healthy_clients [] = 0
  healthy_clients (c ∷ cs) = count (is_nil (store.get_health c)) (healthy_clients cs)

  pub is_healthy : Redlock Client → Bool
  unfolding healthy_clients
  is_healthy rl = if rl.closed == 1 then false else leb rl.quorum (healthy_clients rl.clients)

-- `Close` is quiet when it was closed before.
pub close : {C : Type 0} → Redlock C → Redlock C
close rl = record rl { closed = 1 }

pub is_acquired : Lock → Bool
is_acquired l = l.acquired == 1

pub is_expired : Lock → ℕ → Bool
is_expired l now = ltb (l.created + l.ttl) now
