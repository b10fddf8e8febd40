-- ===== src/Pool/AutoScale.antt =====
-- pool.go: `autoScale`, the decisions of one tick of its clock.
use go_patternx.Pool.Config.{ConfigPool}
use go_patternx.Pool.{WorkerPool}
use go_patternx.Base.{
  ℕ, ℤ, Bool, if◌then◌else◌, pos, ◌*◌, leb_ℤ, ltb, ◌&&◌, ◌==◌, ◌^◌, negsuc, ◌+◌, ◌-◌, arith, ltb_ℤ,
  none,
}
use go_patternx.Pool.Scaling.{pool_of, CallEnd, scale_up, returned, scale_down, blocked}

-- The `int64` of a counter.
abbrev as_int : ℕ → ℤ
as_int w = if ltb w (2 ^ 63) then pos w else negsuc (2 ^ 64 - 1 - w)

-- Twice a threshold.
abbrev double : ℤ → ℤ
double (pos n) = pos (2 * n)
double (negsuc n) = negsuc (2 * n + 1)

-- `up_ready` and `down_ready` say whether the cooldowns have passed.
wants_up : ConfigPool → WorkerPool → Bool → Bool
wants_up c wp up_ready =
    leb_ℤ c.scale_up_threshold (as_int wp.stats.queued_jobs)
    && up_ready
    && ltb_ℤ (as_int wp.stats.total_workers) (pos wp.max_workers)

wants_down : ConfigPool → WorkerPool → Bool → Bool
wants_down c wp down_ready =
    leb_ℤ c.scale_down_threshold (as_int wp.stats.idle_workers)
    && down_ready
    && ltb_ℤ (pos wp.min_workers) (as_int wp.stats.total_workers)

up_step : ConfigPool → WorkerPool → ℤ
up_step c wp =
    if leb_ℤ (double c.scale_up_threshold) (as_int wp.stats.queued_jobs) then pos 2 else pos 1

down_step : ConfigPool → WorkerPool → ℤ
down_step c wp =
    if leb_ℤ (double c.scale_down_threshold) (as_int wp.stats.idle_workers) then pos 2 else pos 1

auto_scale_up : ConfigPool → WorkerPool → Bool → ℕ → CallEnd
unfolding wants_up up_step
auto_scale_up c wp up_ready now =
    if wants_up c wp up_ready then scale_up wp (up_step c wp) now else returned wp none

auto_scale_down : ConfigPool → WorkerPool → Bool → ℕ → CallEnd
unfolding wants_down down_step
auto_scale_down c wp down_ready now =
    if wants_down c wp down_ready then scale_down wp (down_step c wp) now else returned wp none

-- The second decision reads the counters that the first has left, unless that waits for ever.
unfoldable pub auto_scale : ConfigPool → WorkerPool → Bool → Bool → ℕ → CallEnd
unfolding auto_scale_up auto_scale_down
auto_scale c wp up_ready down_ready now =
    if wp.closed == 1 then returned wp none else elim (auto_scale_up c wp up_ready now) [
      | blocked wp' ↦ blocked wp'
      | returned wp' e ↦ auto_scale_down c wp' down_ready now
    ]

-- What `ScaleUp` and `ScaleDown` keep, a tick keeps.
module _ (P : WorkerPool → Type 0)
    (up : (wp : WorkerPool) (count : ℤ) (now : ℕ) → P wp → P (pool_of (scale_up wp count now)))
    (down : (wp : WorkerPool) (count : ℤ) (now : ℕ)
      → P wp
      → P (pool_of (scale_down wp count now))) where
  keeps_up :
      (c : ConfigPool) (wp : WorkerPool) (up_ready : Bool) (now : ℕ)
      → P wp
      → P (pool_of (auto_scale_up c wp up_ready now))
  unfolding auto_scale_up
  keeps_up c wp up_ready now p = ground (arith, up wp (up_step c wp) now p)

  keeps_down :
      (c : ConfigPool) (wp : WorkerPool) (down_ready : Bool) (now : ℕ)
      → P wp
      → P (pool_of (auto_scale_down c wp down_ready now))
  unfolding auto_scale_down
  keeps_down c wp down_ready now p = ground (arith, down wp (down_step c wp) now p)

  pub auto_scale_keeps :
      (c : ConfigPool) (wp : WorkerPool) (up_ready down_ready : Bool) (now : ℕ)
      → P wp
      → P (pool_of (auto_scale c wp up_ready down_ready now))
  unfolding auto_scale
  auto_scale_keeps c wp up_ready down_ready now p = ground (
    arith,
    keeps_up c wp up_ready now p,
    keeps_down c (pool_of (auto_scale_up c wp up_ready now)) down_ready now,
  )
