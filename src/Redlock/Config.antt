-- ===== src/Redlock/Config.antt =====
-- redlock.go: `Config`, its presets, its validation and `NewRedlock`. The drift factor, a
-- fraction in the source, is taken in thousandths. A nil `LockClient` is `none`.
use go_patternx.Base.{
  List, if◌then◌else◌, Option, leb_ℤ, pos_part, ◌≡◌, ◌==◌, Bool, false, pos, ℤ, ◌∷◌, ◌*◌, ◌<◌,
  arith, length, some, true, ◌/◌, [], ap, millisecond, ◌≤◌, ◌+◌, ltb_ℤ, none, suc, refl, ◌||◌,
  second,
}
use go_patternx.Redlock.{Redlock, RedlockMetrics}
use go_patternx.Errors.{
  Result, wrap, ◌>>◌, fail_if, map_err, ok, redlock_invalid_config, text, wrapped,
  redlock_invalid_quorum,
}

pub record Config (C : Type 0) : Type 0 where
  pub clients : List (Option C)
  pub quorum : ℤ
  pub retry_delay : ℤ
  pub max_retries : ℤ
  pub drift_factor : ℤ
  pub enable_metrics : Bool

abbrev any_nil : {C : Type 0} → List (Option C) → Bool
any_nil [] = false
any_nil (none ∷ cs) = true
any_nil (some c ∷ cs) = any_nil cs

abbrev pub somes : {C : Type 0} → List (Option C) → List C
somes [] = []
somes (none ∷ cs) = somes cs
somes (some c ∷ cs) = c ∷ somes cs

abbrev no_metrics : RedlockMetrics
no_metrics = record {
  total_acquisitions = 0;
  successful_acquisitions = 0;
  failed_acquisitions = 0;
  total_releases = 0;
  successful_releases = 0;
  failed_releases = 0;
  total_extensions = 0;
  successful_extensions = 0;
  failed_extensions = 0;
  average_acquisition_time = 0;
}

module _ {C : Type 0} where
  unfoldable pub default_config : List (Option C) → Config C
  default_config cs = record {
    clients = cs;
    quorum = pos 0;
    retry_delay = pos (100 * millisecond);
    max_retries = pos 3;
    drift_factor = pos 10;
    enable_metrics = true;
  }

  unfoldable pub conservative_config : List (Option C) → Config C
  conservative_config cs = record {
    clients = cs;
    quorum = pos 0;
    retry_delay = pos (500 * millisecond);
    max_retries = pos 5;
    drift_factor = pos 5;
    enable_metrics = true;
  }

  unfoldable pub aggressive_config : List (Option C) → Config C
  aggressive_config cs = record {
    clients = cs;
    quorum = pos 0;
    retry_delay = pos (50 * millisecond);
    max_retries = pos 10;
    drift_factor = pos 20;
    enable_metrics = true;
  }

  unfoldable pub enterprise_config : List (Option C) → Config C
  enterprise_config cs = record {
    clients = cs;
    quorum = pos 0;
    retry_delay = pos (200 * millisecond);
    max_retries = pos 15;
    drift_factor = pos 8;
    enable_metrics = true;
  }

  unfoldable pub validate_config : Config C → Result (Unit {0})
  validate_config c = do
    fail_if (length c.clients == 0) (text "at least one client is required")
    fail_if (any_nil c.clients) (text "client cannot be nil")
    fail_if (ltb_ℤ c.quorum (pos 0)) (wrapped redlock_invalid_quorum)
    fail_if (ltb_ℤ (pos (length c.clients)) c.quorum) (wrapped redlock_invalid_quorum)
    fail_if (ltb_ℤ c.retry_delay (pos millisecond) || ltb_ℤ (pos (10 * second)) c.retry_delay)
        (text "retry delay")
    fail_if (ltb_ℤ c.max_retries (pos 0) || ltb_ℤ (pos 100) c.max_retries) (text "max retries")
    fail_if (ltb_ℤ c.drift_factor (pos 1) || ltb_ℤ (pos 100) c.drift_factor) (text "drift factor")

  unfoldable pub apply_defaults : Config C → Config C
  apply_defaults c = record c {
    retry_delay = if leb_ℤ c.retry_delay (pos 0) then pos (100 * millisecond) else c.retry_delay;
    max_retries = if leb_ℤ c.max_retries (pos 0) then pos 3 else c.max_retries;
    drift_factor = if leb_ℤ c.drift_factor (pos 0) then pos 10 else c.drift_factor;
  }

  unfoldable pub start : Config C → Redlock C
  start c = record {
    clients = somes c.clients;
    quorum = if pos_part c.quorum == 0 then length c.clients / 2 + 1 else pos_part c.quorum;
    retry_delay = pos_part c.retry_delay;
    max_retries = pos_part c.max_retries;
    drift_factor = pos_part c.drift_factor;
    closed = 0;
    metrics = if c.enable_metrics then some no_metrics else none;
  }

  unfoldable pub new_redlock : Config C → Result (Redlock C)
  unfolding validate_config apply_defaults start
  new_redlock c = do
    map_err (wrap redlock_invalid_config) (validate_config c)
    ok (start (apply_defaults c))

  length-somes : (cs : List (Option C)) → any_nil cs ≡ false → length (somes cs) ≡ length cs
  length-somes [] h = refl
  length-somes (none ∷ cs) h = cc
  length-somes (some c ∷ cs) h = ap suc (length-somes cs h)

  -- A redlock that is made has a quorum of at least one and at most all of its clients, and one
  -- that leaves the quorum at zero gets a majority; its drift stays at or below a tenth.
  pub new_redlock_quorum :
      (c : Config C) (rl : Redlock C)
      → new_redlock c ≡ ok rl
      → (0 < rl.quorum)
        × (rl.quorum ≤ length rl.clients)
        × (c.quorum ≡ pos 0 → length rl.clients < 2 * rl.quorum)
        × (rl.drift_factor ≤ 100)
  unfolding new_redlock
  new_redlock_quorum c rl h = ground (arith, length-somes c.clients)

  -- A configured limit of no retries is not kept: zero passes the validation, and the defaults
  -- then make it three.
  pub new_redlock_no_retries :
      (c : Config C) (rl : Redlock C)
      → c.max_retries ≡ pos 0
      → new_redlock c ≡ ok rl
      → rl.max_retries ≡ 3
  unfolding new_redlock
  new_redlock_no_retries c rl z h = ground arith
