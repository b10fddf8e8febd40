-- ===== src/Pool/Config.antt =====
-- pool.go: `ConfigPool`, its presets and its validation.
use go_patternx.Errors.{Result, fail_if, ok, text, ◌>>◌}
use go_patternx.Base.{
  pos, ℤ, ◌≡◌, ◌*◌, Bool, ◌≤ℤ◌, arith, ltb_ℤ, minute, second, false, true, ◌||◌, millisecond,
}

pub record ConfigPool : Type 0 where
  pub min_workers : ℤ
  pub max_workers : ℤ
  pub queue_size : ℤ
  pub idle_timeout : ℤ
  pub scale_up_threshold : ℤ
  pub scale_down_threshold : ℤ
  pub scale_up_cooldown : ℤ
  pub scale_down_cooldown : ℤ
  pub enable_metrics : Bool

abbrev pub default_config : ConfigPool
default_config = record {
  min_workers = pos 2;
  max_workers = pos 10;
  queue_size = pos 100;
  idle_timeout = pos (30 * second);
  scale_up_threshold = pos 5;
  scale_down_threshold = pos 2;
  scale_up_cooldown = pos (5 * second);
  scale_down_cooldown = pos (10 * second);
  enable_metrics = true;
}

abbrev pub high_performance_config : ConfigPool
high_performance_config = record {
  min_workers = pos 5;
  max_workers = pos 50;
  queue_size = pos 1000;
  idle_timeout = pos (60 * second);
  scale_up_threshold = pos 10;
  scale_down_threshold = pos 3;
  scale_up_cooldown = pos (2 * second);
  scale_down_cooldown = pos (15 * second);
  enable_metrics = true;
}

abbrev pub resource_constrained_config : ConfigPool
resource_constrained_config = record {
  min_workers = pos 1;
  max_workers = pos 5;
  queue_size = pos 50;
  idle_timeout = pos (15 * second);
  scale_up_threshold = pos 3;
  scale_down_threshold = pos 1;
  scale_up_cooldown = pos (10 * second);
  scale_down_cooldown = pos (5 * second);
  enable_metrics = false;
}

abbrev pub enterprise_config : ConfigPool
enterprise_config = record {
  min_workers = pos 10;
  max_workers = pos 200;
  queue_size = pos 5000;
  idle_timeout = pos (5 * minute);
  scale_up_threshold = pos 20;
  scale_down_threshold = pos 5;
  scale_up_cooldown = pos second;
  scale_down_cooldown = pos (30 * second);
  enable_metrics = true;
}

abbrev outside : ℤ → ℤ → ℤ → Bool
outside v low high = ltb_ℤ v low || ltb_ℤ high v

unfoldable pub validate_config : ConfigPool → Result (Unit {0})
validate_config c =
    fail_if (outside c.min_workers (pos 1) (pos 1000)) (text "min workers out of range")
    >> fail_if (outside c.max_workers (pos 1) (pos 1000)) (text "max workers out of range")
    >> fail_if (ltb_ℤ c.max_workers c.min_workers) (text "min workers cannot exceed max workers")
    >> fail_if (outside c.queue_size (pos 1) (pos 10000)) (text "queue size out of range")
    >> fail_if (outside c.idle_timeout (pos second) (pos (10 * minute)))
        (text "idle timeout out of range")
    >> fail_if (outside c.scale_up_threshold (pos 1) (pos 100))
        (text "scale up threshold out of range")
    >> fail_if (outside c.scale_down_threshold (pos 1) (pos 50))
        (text "scale down threshold out of range")
    >> fail_if (outside c.scale_up_cooldown (pos (100 * millisecond)) (pos minute))
        (text "scale up cooldown out of range")
    >> fail_if (outside c.scale_down_cooldown (pos second) (pos (5 * minute)))
        (text "scale down cooldown out of range")

-- What the pool's own steps rely on.
pub record InRange (c : ConfigPool) : Type 0 where
  pub min_pos : pos 1 ≤ℤ c.min_workers
  pub min_max : c.min_workers ≤ℤ c.max_workers
  pub workers_limit : c.max_workers ≤ℤ pos 1000
  pub queue_pos : pos 1 ≤ℤ c.queue_size
  pub queue_limit : c.queue_size ≤ℤ pos 10000

pub validate_config-InRange : (c : ConfigPool) → validate_config c ≡ ok tt → InRange c
unfolding validate_config
validate_config-InRange c h = ground arith
