-- ===== src/PubSub/Settings.antt =====
-- What `NewPubSub` accepts.
use go_patternx.Base.{[], ◌≡◌, some, ◌≤◌, pos_part, arith, pos}
use go_patternx.PubSub.Config.{ConfigPubSub, validate_config, apply_defaults}
use go_patternx.PubSub.System.{new_pubsub, PubSub}
use go_patternx.Errors.{ok}

-- A new system, as `NewPubSub` makes it from a configuration.
pub record Ready (c : ConfigPubSub) (ps : PubSub) : Type 0 where
  pub no_topics : ps.publisher.topics ≡ []
  pub running : ps.closed ≡ 0
  -- A publish can have a slot, and a topic has room for a message.
  pub slots : 1 ≤ ps.publisher.capacity
  pub room : 1 ≤ pos_part ps.config.buffer_size
  -- A publish is tried again at least once.
  pub retries : 1 ≤ ps.publisher.max_retries
  pub no_retries : c.max_retry_attempts ≡ pos 0 → ps.publisher.max_retries ≡ 3
  pub threshold : 1 ≤ ps.publisher.circuit_breaker.threshold
  pub timeout : 1 ≤ ps.publisher.circuit_breaker.timeout

-- A system that `NewPubSub` makes has no topic and is not closed; each of its limits is at least 1,
-- also the number of retries: where the caller asks for none, which the validation allows, there are
-- 3.
pub new_pubsub-Ready : (c : ConfigPubSub) (ps : PubSub) → new_pubsub (some c) ≡ ok ps → Ready c ps
unfolding new_pubsub validate_config apply_defaults
new_pubsub-Ready c ps made = ground arith
