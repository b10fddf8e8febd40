-- ===== src/Redlock/Tests.antt =====
-- A store for one key, whose `Set` overwrites, and three of them under a redlock.
use text.Mathlib.Text.{◌==◌ as str_eq}
use text.Mathlib.TextEquality.{eq_iff}
use go_patternx.Redlock.Config.{Config}
use go_patternx.Redlock.Holding.{ExpiresAtOnce, try_acquire_lock-holders, extend_subsecond}
use go_patternx.Errors.{GoError, Result, context_with, ok}
use go_patternx.Redlock.Holding.{holders, KeepsValue}
use go_patternx.Redlock.Overtaking.{Overwrites, IsGranted, lock_with_retry-overtakes}
use go_patternx.Base.{
  List, Option, ℕ, ◌<◌, none, pos, second, some, ◌≡◌, ◌≤◌, ◌*◌, ◌+◌, arith, ◌∷◌, ◌/◌, [],
  millisecond, refl, All, false, if◌then◌else◌, ◌==◌, true,
}
use go_patternx.Redlock.{
  Lock, Redlock, Store, try_acquire_lock, Reply, reply_int, is_nil, validate_lock_inputs,
}
use Prim.Native.String.{String}
use go_patternx.Redlock.Locking.{extend, Attempt, lock_with_retry}

abbrev Cell : Type 0
Cell = Option String

abbrev cell_set : Cell → String → String → ℕ → Cell × Option GoError
cell_set c k v ttl = (some v, none)

abbrev cell_delete : Cell → String → String → Cell × Result Reply
cell_delete none k v = (none, ok (reply_int 0))
cell_delete (some w) k v =
    if str_eq w v then (none, ok (reply_int 1)) else (some w, ok (reply_int 0))

abbrev cell_expire : Cell → String → String → ℕ → Cell × Result Reply
cell_expire none k v seconds = (none, ok (reply_int 0))
cell_expire (some w) k v seconds =
    if str_eq w v
    then (if seconds == 0 then none else some w, ok (reply_int 1))
    else (some w, ok (reply_int 0))

abbrev cell_held : Cell → String → Option String
cell_held c k = c

abbrev cells : Store
cells = record {
  Client = Cell;
  set = cell_set;
  eval_delete = cell_delete;
  eval_expire = cell_expire;
  get_health = λ c. none;
  held = cell_held;
}

cell_expire_zero :
    (c : Cell) (k v : String)
    → c ≡ some v
    → ((cell_expire c k v 0).0 ≡ none) × ((cell_expire c k v 0).1 ≡ ok (reply_int 1))
cell_expire_zero c k v h = ground (arith, eq_iff v v)

cells-KeepsValue : KeepsValue cells
cells-KeepsValue = record { set_held = λ c k v ttl h. refl }

cells-Overwrites : Overwrites cells
cells-Overwrites = record { set_answers = λ c k v ttl. refl; set_held = λ c k v ttl. refl }

cells-ExpiresAtOnce : ExpiresAtOnce cells (reply_int 1)
cells-ExpiresAtOnce = record { expire_zero = cell_expire_zero }

abbrev three : List Cell → Redlock Cell
three cs = record {
  clients = cs;
  quorum = 2;
  retry_delay = 0;
  max_retries = 3;
  drift_factor = 10;
  closed = 0;
  metrics = none;
}

-- The holder "w" has two of three.
abbrev taken : Redlock Cell
taken = three (some "w" ∷ none ∷ some "w" ∷ [])

abbrev free : Redlock Cell
free = three (none ∷ none ∷ none ∷ [])

abbrev calm : ℕ → Attempt cells
calm i = record {
  others = λ cs. cs;
  context_error = none;
  elapsed = 5;
  now = 100;
  wait_error = none;
}

abbrev overtaken : Redlock Cell × Result Lock
overtaken =
    lock_with_retry cells taken (context_with none) calm "job" "v" (pos second) (pos 0) (pos 9)

valid_inputs : validate_lock_inputs (context_with none) "job" (pos second) (pos 0) (pos 9) ≡ ok tt
unfolding validate_lock_inputs
valid_inputs = refl

lock_with_retry-overtakes_example :
    IsGranted cells cells-Overwrites "job" "v" overtaken
    × (holders cells overtaken.0.clients "job" "w" ≡ 0)
lock_with_retry-overtakes_example =
    lock_with_retry-overtakes cells cells-Overwrites "job" "v" taken (context_with none) calm
      (pos second) (pos 0) (pos 9) "w" refl valid_inputs refl (omega arith) (omega arith) refl

abbrev granted : Lock
granted = record { resource = "job"; value = "v"; ttl = 989_999_995; acquired = 1; created = 100 }

try_acquire_lock-holders_example :
    (2 ≤ holders cells (try_acquire_lock cells free "job" "v" second 5 100).0.clients "job" "v")
    × (0 < granted.ttl)
    × (granted.ttl + 5 + second * 10 / 1000 ≡ second)
    × (granted.value ≡ "v")
    × (granted.acquired ≡ 1)
unfolding try_acquire_lock
try_acquire_lock-holders_example =
    try_acquire_lock-holders cells cells-KeepsValue "job" "v" free second 5 100 granted refl

abbrev ours : Redlock Cell
ours = three (some "v" ∷ some "v" ∷ some "v" ∷ [])

extend_subsecond_example :
    let (rl', l', e) = extend cells ours granted (pos (500 * millisecond)) in
    (is_nil e ≡ true)
    × (l'.ttl ≡ 500 * millisecond)
    × All (λ c. cells.held c granted.resource ≡ none) rl'.clients
extend_subsecond_example =
    extend_subsecond cells (reply_int 1) cells-ExpiresAtOnce ours granted (500 * millisecond)
      (omega arith) (omega arith) refl (omega arith) (omega arith) (refl, (refl, (refl, tt)))

abbrev two_cells : Config Cell
two_cells = record {
  clients = some none ∷ some none ∷ [];
  quorum = pos 0;
  retry_delay = pos second;
  max_retries = pos 0;
  drift_factor = pos 10;
  enable_metrics = false;
}
