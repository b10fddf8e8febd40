-- ===== src/Retry/Settings.antt =====
-- retry.go: `Policy`, its presets and its validation. The multiplier is in thousandths and the
-- jitter in thousandths of a percent.
use go_patternx.Errors.{Result, ok, wrapped, retry_invalid_policy, GoError, fail_if, ◌>>◌}
use go_patternx.Base.{
  pos, ℕ, ℤ, ◌≡◌, ◌*◌, Bool, ◌^◌, second, ◌≤ℤ◌, List, arith, ltb_ℤ, millisecond, minute, pos_part,
  hour, if◌then◌else◌, true, ◌||◌, [], length, ltb, ◌+◌, leb_ℤ, ◌≤◌, ◌-◌, ◌/◌, ◌<◌, Bool-cases, inl,
  inr,
}
use native.Mathlib.Nat.{div-le_of_le-mul, mul_comm, mul-le-mul, mul-le-mul_left}

pub record Policy : Type 0 where
  pub max_attempts : ℤ
  pub initial_delay : ℤ
  pub max_delay : ℤ
  pub multiplier : ℤ
  pub jitter : Bool
  pub jitter_percent : ℤ
  pub retryable_errors : List GoError
  pub timeout : ℤ
  pub rate_limit : ℤ
  pub rate_limit_window : ℤ

abbrev pub default_policy : Policy
default_policy = record {
  max_attempts = pos 3;
  initial_delay = pos (100 * millisecond);
  max_delay = pos (5 * second);
  multiplier = pos 2000;
  jitter = true;
  jitter_percent = pos 10000;
  retryable_errors = [];
  timeout = pos (30 * second);
  rate_limit = pos 100;
  rate_limit_window = pos second;
}

abbrev pub aggressive_policy : Policy
aggressive_policy = record {
  max_attempts = pos 5;
  initial_delay = pos (50 * millisecond);
  max_delay = pos (10 * second);
  multiplier = pos 1500;
  jitter = true;
  jitter_percent = pos 10000;
  retryable_errors = [];
  timeout = pos (60 * second);
  rate_limit = pos 200;
  rate_limit_window = pos second;
}

abbrev pub conservative_policy : Policy
conservative_policy = record {
  max_attempts = pos 2;
  initial_delay = pos (500 * millisecond);
  max_delay = pos (2 * second);
  multiplier = pos 2000;
  jitter = true;
  jitter_percent = pos 10000;
  retryable_errors = [];
  timeout = pos (15 * second);
  rate_limit = pos 50;
  rate_limit_window = pos second;
}

abbrev pub enterprise_policy : Policy
enterprise_policy = record {
  max_attempts = pos 10;
  initial_delay = pos second;
  max_delay = pos minute;
  multiplier = pos 1800;
  jitter = true;
  jitter_percent = pos 15000;
  retryable_errors = [];
  timeout = pos (5 * minute);
  rate_limit = pos 1000;
  rate_limit_window = pos second;
}

abbrev outside : ℤ → ℤ → ℤ → Bool
outside v low high = ltb_ℤ v low || ltb_ℤ high v

unfoldable pub validate_policy : Policy → Result (Unit {0})
validate_policy p =
    let bad = wrapped retry_invalid_policy in
    fail_if (outside p.max_attempts (pos 1) (pos 100)) bad
    >> fail_if (outside p.initial_delay (pos millisecond) (pos hour)) bad
    >> fail_if (outside p.max_delay (pos millisecond) (pos (24 * hour))) bad
    >> fail_if (ltb_ℤ p.max_delay p.initial_delay) bad
    >> fail_if (outside p.multiplier (pos 100) (pos 10000)) bad
    >> fail_if (outside p.jitter_percent (pos 0) (pos 50000)) bad
    >> fail_if (ltb 100 (length p.retryable_errors)) bad
    >> fail_if (ltb_ℤ p.rate_limit (pos 0)) bad
    >> fail_if (leb_ℤ p.rate_limit_window (pos 0)) bad

-- `calculateDelay`: `random` is what `rand.Float64()` draws, in thousandths. The delay is the
-- quotient of two whole numbers, cut off once at the end as `time.Duration(delay)` does.
unfoldable pub calculate_delay : Policy → ℕ → ℕ → ℕ
calculate_delay p attempt random =
    let scale = 1000 ^ attempt in
    let backoff = pos_part p.initial_delay * pos_part p.multiplier ^ attempt in
    let cap = pos_part p.max_delay * scale in
    let capped = if ltb cap backoff then cap else backoff in
    let spread = pos_part p.jitter_percent in
    if p.jitter
    then capped * (100000000 + 2 * spread * random - 1000 * spread) / (scale * 100000000)
    else capped / scale

-- What a policy that is accepted keeps to.
pub record InRange (p : Policy) : Type 0 where
  pub attempts_min : pos 1 ≤ℤ p.max_attempts
  pub attempts_max : p.max_attempts ≤ℤ pos 100
  pub initial_min : pos millisecond ≤ℤ p.initial_delay
  pub initial_max : p.initial_delay ≤ℤ pos hour
  pub delay_max : p.max_delay ≤ℤ pos (24 * hour)
  pub delay_order : p.initial_delay ≤ℤ p.max_delay
  pub multiplier_min : pos 100 ≤ℤ p.multiplier
  pub multiplier_max : p.multiplier ≤ℤ pos 10000
  pub jitter_min : pos 0 ≤ℤ p.jitter_percent
  pub jitter_max : p.jitter_percent ≤ℤ pos 50000
  pub errors_max : length p.retryable_errors ≤ 100
  pub rate_min : pos 0 ≤ℤ p.rate_limit
  pub window_min : pos 1 ≤ℤ p.rate_limit_window

pub validate_policy-InRange : (p : Policy) → validate_policy p ≡ ok tt → InRange p
unfolding validate_policy
validate_policy-InRange p h = ground arith

capped_le : (cap backoff : ℕ) → (if ltb cap backoff then cap else backoff) ≤ cap
capped_le cap backoff = ground arith

quotient_le : (m c x : ℕ) → x ≤ m * c → x / c ≤ m
quotient_le m c x q = div-le_of_le-mul c (rw (mul_comm c m) q)

jittered_le :
    (m c x factor n : ℕ)
    → x ≤ m * c
    → factor ≤ 150000000
    → 150000000 * m ≤ 100000000 * n
    → x * factor / (c * 100000000) ≤ n
jittered_le m c x factor n q f h =
    let wide : x * factor ≤ m * c * 150000000 = mul-le-mul q f in
    let fits : c * (150000000 * m) ≤ c * (100000000 * n) = mul-le-mul_left c h in
    div-le_of_le-mul (c * 100000000) (omega (arith, wide, fits))

spread_le :
    (spread random : ℕ)
    → spread ≤ 50000
    → random < 1000
    → 100000000 + 2 * spread * random - 1000 * spread ≤ 150000000
spread_le spread random h r =
    let drawn : spread * random ≤ spread * 1000 = mul-le-mul_left spread (omega arith) in
    omega (arith, drawn)

jitter_percent_max : (p : Policy) → InRange p → pos_part p.jitter_percent ≤ 50000
jitter_percent_max p i = ground (arith, i.jitter_max)

-- For a policy that is accepted, without jitter no delay is longer than `MaxDelay`, and with jitter
-- none is longer than `MaxDelay` and a half (rounded up), whatever the attempt and the draw.
pub calculate_delay_max :
    (p : Policy) (attempt random : ℕ)
    → validate_policy p ≡ ok tt
    → random < 1000
    → calculate_delay p attempt random ≤ (
        if p.jitter
        then pos_part p.max_delay + (pos_part p.max_delay + 1) / 2
        else pos_part p.max_delay)
unfolding calculate_delay
calculate_delay_max p attempt random v r =
    let longest = pos_part p.max_delay in
    let scale = 1000 ^ attempt in
    let backoff = pos_part p.initial_delay * pos_part p.multiplier ^ attempt in
    let capped = if ltb (longest * scale) backoff then longest * scale else backoff in
    let spread = pos_part p.jitter_percent in
    let below = capped_le (longest * scale) backoff in
    elim (Bool-cases p.jitter) [
      | inl e ↦ rw e (
          jittered_le longest scale capped (100000000 + 2 * spread * random - 1000 * spread)
            (longest + (longest + 1) / 2) below
            (spread_le spread random (jitter_percent_max p (validate_policy-InRange p v)) r)
            (omega arith))
      | inr e ↦ rw e (quotient_le longest scale capped below)
    ]
