-- ===== src/Redlock/Holding.antt =====
-- What a lock that is granted, released or extended says of the stores.

use text.Mathlib.Text.{◌==◌ as str_eq}
use text.Mathlib.TextPositions.{eq_refl}
use go_patternx.Redlock.{
  Store, String, Redlock, extend_locks, try_acquire_lock, Lock, is_nil, set_locks, ok, validate_ttl,
  Reply, count, is_one,
}
use go_patternx.Redlock.Locking.{unlock, extend, extend_quorum}
use go_patternx.Base.{
  List, ℕ, ◌≡◌, All, length, some, millisecond, none, true, ◌≤◌, ◌∷◌, ◌<◌, arith, ◌+◌, [], second,
  ◌*◌, pos, refl, ◌/◌, le→ltb_false, Bool, Option, false, if◌then◌else◌, Bool-cases, inl, inr,
  lt→ltb,
}
use go_patternx.Errors.{sentinel, redlock_lock_not_acquired}

-- A `Set` that returns nil has put the value under the key.
pub record KeepsValue (store : Store) : Type 0 where
  pub set_held :
      (c : store.Client) (k v : String) (ttl : ℕ)
      → (store.set c k v ttl).1 ≡ none
      → store.held (store.set c k v ttl).0 k ≡ some v

-- `EXPIRE` with a time that is not positive deletes the key. What a client makes of the server's
-- answer is its own affair: `reply` is what `Eval` then returns.
pub record ExpiresAtOnce (store : Store) (reply : Reply) : Type 0 where
  pub expire_zero :
      (c : store.Client) (k v : String)
      → store.held c k ≡ some v
      → (store.held (store.eval_expire c k v 0).0 k ≡ none)
        × ((store.eval_expire c k v 0).1 ≡ ok reply)

abbrev pub is_value : Option String → String → Bool
is_value none v = false
is_value (some w) v = str_eq w v

module _ (store : Store) where
  open store use {Client}

  abbrev pub holds : Client → String → String → Bool
  holds c k v = is_value (store.held c k) v

  -- How many stores hold `v` under `k`.
  unfoldable pub holders : List Client → String → String → ℕ
  holders [] k v = 0
  holders (c ∷ cs) k v = count (holds c k v) (holders cs k v)

  module _ (x : KeepsValue store) (k v : String) where
    set-takes :
        (c : Client) (ttl : ℕ)
        → is_nil (store.set c k v ttl).1 ≡ true
        → holds (store.set c k v ttl).0 k v ≡ true
    set-takes c ttl h = ground (arith, x.set_held c k v ttl, eq_refl v)

    set-holders_self :
        (cs : List Client) (ttl : ℕ)
        → (set_locks store cs k v ttl).1 ≤ holders (set_locks store cs k v ttl).0 k v
    unfolding holders set_locks
    set-holders_self [] ttl = omega arith
    set-holders_self (c ∷ cs) ttl = ground (arith, set-takes c ttl, set-holders_self cs ttl)

    -- On stores that keep what a `Set` has put there without an error: a lock that is granted is
    -- held by a quorum of the stores, for a validity that is positive and, with the time spent and the drift,
    -- makes up the requested time to live; it carries the value that was drawn and counts as
    -- acquired.
    pub try_acquire_lock-holders :
        (rl : Redlock Client) (ttl elapsed now : ℕ) (l : Lock)
        → (try_acquire_lock store rl k v ttl elapsed now).1 ≡ ok l
        → (rl.quorum ≤ holders (try_acquire_lock store rl k v ttl elapsed now).0.clients k v)
          × (0 < l.ttl)
          × (l.ttl + elapsed + ttl * rl.drift_factor / 1000 ≡ ttl)
          × (l.value ≡ v)
          × (l.acquired ≡ 1)
    unfolding try_acquire_lock
    try_acquire_lock-holders rl ttl elapsed now l h =
        ground (arith, set-holders_self rl.clients ttl)

  -- A lock is released once: after an `Unlock` of an acquired lock, whatever it returns, a
  -- second `Unlock` fails with ErrRedlockLockNotAcquired and touches no store and no count.
  pub unlock_twice :
      (rl : Redlock Client) (l : Lock)
      → l.acquired ≡ 1
      → let (rl', l', e) = unlock store rl l in
        (l'.acquired ≡ 0)
        × (unlock store rl' l' ≡ (rl', l', some (sentinel redlock_lock_not_acquired)))
  unfolding unlock
  unlock_twice rl l h = ground arith

  -- Every store holds the value.
  abbrev pub AllHold : String → String → List Client → Type 0
  AllHold k v cs = All (λ c. store.held c k ≡ some v) cs

  -- How many of `n` equal answers count as an extension.
  abbrev pub extensions : Reply → ℕ → ℕ
  extensions r n = if is_one r then n else 0

  module _ (r : Reply) (z : ExpiresAtOnce store r) (k v : String) where
    extend-expires :
        (cs : List Client)
        → AllHold k v cs
        → ((extend_locks store cs k v 0).1 ≡ extensions r (length cs))
          × All (λ c. store.held c k ≡ none) (extend_locks store cs k v 0).0
    unfolding extend_locks
    extend-expires [] h = (ground arith, tt)
    extend-expires (c ∷ cs) h = ground (arith, z.expire_zero c k v h.0, extend-expires cs h.1)

  module _ (r : Reply) (z : ExpiresAtOnce store r) (rl : Redlock Client) (l : Lock) (ttl : ℕ) where
    extend_quorum-expires :
        ttl / second ≡ 0
        → 0 < rl.quorum
        → rl.quorum ≤ length rl.clients
        → AllHold l.resource l.value rl.clients
        → let (rl', l', e) = extend_quorum store rl l ttl in
          (is_nil e ≡ is_one r)
          × (l'.ttl ≡ (if is_one r then ttl else l.ttl))
          × All (λ c. store.held c l.resource ≡ none) rl'.clients
    unfolding extend_quorum
    extend_quorum-expires s p q h =
        let (n, gone) = extend-expires r z l.resource l.value rl.clients h in
        let made = extend_locks store rl.clients l.resource l.value 0 in
        elim (Bool-cases (is_one r)) [
          | inl one ↦
              let enough = le→ltb_false made.1 rl.quorum (ground (arith, q, n, one)) in
              rw (s, extend_quorum) (rw (enough, one) (refl, refl, gone))
          | inr other ↦
              let few = lt→ltb made.1 rl.quorum (ground (arith, p, n, other)) in
              rw (s, extend_quorum) (rw (few, other) (refl, refl, gone))
        ]

    extend-eq-extend_quorum :
        millisecond ≤ ttl
        → ttl < second
        → l.acquired ≡ 1
        → extend store rl l (pos ttl) ≡ extend_quorum store rl l ttl
    unfolding extend validate_ttl
    extend-eq-extend_quorum lo hi a = ground arith

    -- On stores whose `EXPIRE` by 0 seconds deletes the key: `Extend` of a lock that every store
    -- holds, by at least a millisecond and less than a second, passes 0 seconds to the stores, and
    -- no store holds the lock any more. Whether it says so depends on what the clients return for
    -- the 1 of the script: for an `int` it reports success and sets the new time to live, for an
    -- integer of any other type it reports a failure.
    pub extend_subsecond :
        millisecond ≤ ttl
        → ttl < second
        → l.acquired ≡ 1
        → 0 < rl.quorum
        → rl.quorum ≤ length rl.clients
        → AllHold l.resource l.value rl.clients
        → let (rl', l', e) = extend store rl l (pos ttl) in
          (is_nil e ≡ is_one r)
          × (l'.ttl ≡ (if is_one r then ttl else l.ttl))
          × All (λ c. store.held c l.resource ≡ none) rl'.clients
    extend_subsecond lo hi a p q h =
        rw (extend-eq-extend_quorum lo hi a) (extend_quorum-expires (omega arith) p q h)
