-- ===== src/Redlock/Overtaking.antt =====
-- What a lock of another holder means to `LockWithRetry`: nothing.
use text.Mathlib.Text.{◌==◌ as str_eq}
use go_patternx.Base.{
  [], ◌∷◌, ℕ, ◌+◌, List, ◌≡◌, ◌≤◌, ◌*◌, length, none, ◌/◌, ◌<◌, arith, some, refl, ℤ, pos_part, suc,
  if◌then◌else◌, ltb, zero, false, ◌==◌, leb, ◌-◌,
}
use go_patternx.Redlock.{
  Store, String, Attempted, Redlock, set_locks, try_acquire_lock, Lock, ok, Context, GoError,
  validate_lock_inputs,
}
use go_patternx.Redlock.Holding.{AllHold, holders}
use go_patternx.Redlock.Locking.{
  attempt_once, lock_with_retry, Attempt, lock_attempts, give_up, after_wait,
}

-- A store that answers: `Set` puts the value under the key, whatever stood there, and returns nil.
-- The interface knows no `Set` for free keys only.
pub record Overwrites (store : Store) : Type 0 where
  pub set_answers : (c : store.Client) (k v : String) (ttl : ℕ) → (store.set c k v ttl).1 ≡ none
  pub set_held :
      (c : store.Client) (k v : String) (ttl : ℕ) → store.held (store.set c k v ttl).0 k ≡ some v

module _ (store : Store) (o : Overwrites store) (k v : String) where
  open store use {Client}

  set_locks-AllHold :
      (cs : List Client) (ttl : ℕ)
      → AllHold store k v (set_locks store cs k v ttl).0
        × ((set_locks store cs k v ttl).1 ≡ length cs)
  unfolding set_locks
  set_locks-AllHold [] ttl = (tt, refl)
  set_locks-AllHold (c ∷ cs) ttl =
      ground (arith, o.set_answers c k v ttl, o.set_held c k v ttl, set_locks-AllHold cs ttl)

  -- The time that the attempt takes and the drift leave some of the time to live.
  abbrev pub InTime : Redlock Client → ℕ → ℕ → Type 0
  InTime rl ttl elapsed = elapsed + ttl * rl.drift_factor / 1000 < ttl

  -- An attempt is granted, and every store then holds its value.
  abbrev pub IsGranted : Attempted store → Type 0
  IsGranted (rl, result) =
      (l : Lock) × (result ≡ ok l) × (l.value ≡ v) × (0 < l.ttl) × AllHold store k v rl.clients

  try_acquire_lock-IsGranted :
      (rl : Redlock Client) (ttl elapsed now : ℕ)
      → rl.quorum ≤ length rl.clients
      → InTime rl ttl elapsed
      → IsGranted (try_acquire_lock store rl k v ttl elapsed now)
  unfolding try_acquire_lock
  try_acquire_lock-IsGranted rl ttl elapsed now q t =
      let sets = set_locks store rl.clients k v ttl in
      let (hold, n) = set_locks-AllHold rl.clients ttl in
      let enough : ltb sets.1 rl.quorum ≡ false = ground (arith, n, q) in
      let early : leb ttl (elapsed + ttl * rl.drift_factor / 1000) ≡ false = ground arith in
      rw (enough, early)
        (
          record {
            resource = k;
            value = v;
            ttl = ttl - elapsed - ttl * rl.drift_factor / 1000;
            acquired = 1;
            created = now;
          },
          refl,
          refl,
          omega arith,
          hold,
        )

  attempt_once-IsGranted :
      (a : Attempt store) (rl : Redlock Client) (ttl : ℕ)
      (on_failure : Redlock Client → GoError → Attempted store)
      → a.context_error ≡ none
      → rl.quorum ≤ length (a.others rl.clients)
      → InTime rl ttl a.elapsed
      → IsGranted (attempt_once store a rl k v ttl on_failure)
  unfolding attempt_once
  attempt_once-IsGranted a rl ttl on_failure live q t =
      let met : Redlock Client = record rl { clients = a.others rl.clients } in
      let (l, granted, value, left, hold) =
        try_acquire_lock-IsGranted met ttl a.elapsed a.now q t in
      rw (live, attempt_once) (rw (granted, attempt_once) (l, refl, value, left, hold))

  lock_attempts-IsGranted :
      (n : ℕ) (env : ℕ → Attempt store) (delay ttl : ℕ) (rl : Redlock Client)
      → (env 0).context_error ≡ none
      → rl.quorum ≤ length ((env 0).others rl.clients)
      → InTime rl ttl (env 0).elapsed
      → IsGranted (lock_attempts store n env 0 delay k v ttl rl)
  unfolding lock_attempts
  lock_attempts-IsGranted zero env delay ttl rl live q t =
      attempt_once-IsGranted (env 0) rl ttl (give_up store) live q t
  lock_attempts-IsGranted (suc n) env delay ttl rl live q t =
      attempt_once-IsGranted (env 0) rl ttl
        (λ failed e.
          after_wait store (if ltb 0 delay then (env 0).wait_error else none) failed
            (lock_attempts store n env (0 + 1) delay k v ttl failed))
        live q t

  AllHold-holders :
      (cs : List Client) (w : String)
      → str_eq v w ≡ false
      → AllHold store k v cs
      → holders store cs k w ≡ 0
  unfolding holders
  AllHold-holders [] w ne h = refl
  AllHold-holders (c ∷ cs) w ne h = ground (arith, h.0, AllHold-holders cs w ne h.1)

  -- `LockWithRetry` does not exclude: on stores whose `Set` overwrites, whatever they hold, an open
  -- redlock with at least a quorum of clients grants the lock at its first attempt, if the arguments
  -- are valid, the context is live and the attempt does not take too long. All stores then hold the
  -- new value, and none holds the value of any holder before.
  pub lock_with_retry-overtakes :
      (rl : Redlock Client) (ctx : Context) (env : ℕ → Attempt store) (ttl delay retries : ℤ)
      (w : String)
      → rl.closed ≡ 0
      → validate_lock_inputs ctx k ttl delay retries ≡ ok tt
      → (env 0).context_error ≡ none
      → rl.quorum ≤ length ((env 0).others rl.clients)
      → InTime rl (pos_part ttl) (env 0).elapsed
      → str_eq v w ≡ false
      → let after = lock_with_retry store rl ctx env k v ttl delay retries in
        IsGranted after × (holders store after.0.clients k w ≡ 0)
  unfolding lock_with_retry lock_attempts
  lock_with_retry-overtakes rl ctx env ttl delay retries w opened valid live q t ne =
      let granted =
        lock_attempts-IsGranted (pos_part retries) env (pos_part delay) (pos_part ttl) rl live q
          t in
      let (l, made, value, left, hold) = granted in
      let is_open : (rl.closed == 1) ≡ false = ground arith in
      rw (is_open, valid, lock_with_retry) (granted, AllHold-holders _ w ne hold)
