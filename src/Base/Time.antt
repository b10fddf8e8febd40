-- ===== src/Base/Time.antt =====
-- A `time.Duration` or an instant of `UnixNano` is a number of nanoseconds.
use Prim.Native.Nat.{ℕ, ◌*◌}

abbrev pub millisecond : ℕ
millisecond = 1_000_000

abbrev pub second : ℕ
second = 1_000 * millisecond

abbrev pub minute : ℕ
minute = 60 * second

abbrev pub hour : ℕ
hour = 60 * minute
