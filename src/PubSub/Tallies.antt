-- ===== src/PubSub/Tallies.antt =====
-- What the metrics of a subscription count.
use package.text.Mathlib.Text.{◌==◌ as str_eq}
use go_patternx.PubSub.{
  DeliveryPhase, SubscriptionMetrics, Delivery, Dict, SubscriptionPubSub, MessagePubSub, running,
  spawned,
}
use go_patternx.Base.{
  Option, List, ℕ, ◌≡◌, ◌++◌, Bool, get_elem?, if◌then◌else◌, word, ◌∷◌, ◌+◌, arith, some, [],
  false, set, suc, pos, refl, zero, none, true,
}
use Prim.Native.String.{String}
use go_patternx.PubSub.Delivering.{
  deliver_attempts, end_delivery, UserErrors, deliver_with_retry, HandlerRun, DeliveryRun,
  count_retried, count_end, fall_back, guarded_delivery,
}
use go_patternx.PubSub.Processing.{forget_all, spawn_all, close_all}
use go_patternx.PubSub.Topics.{remove_at, new_subscription}
use go_patternx.PubSub.Config.{default_config}
use go_patternx.PubSub.Maps.{find}
use go_patternx.Errors.{GoError}

abbrev pub in_run : DeliveryPhase → ℕ
in_run spawned = 0
in_run (running admitted) = 1

-- One for a delivery to the subscription that has got to the breaker.
abbrev pub part : String → Delivery → ℕ
part k d = if str_eq d.subscriber k then in_run d.phase else 0

unfoldable pub running_of : String → List Delivery → ℕ
running_of k [] = 0
running_of k (d ∷ ds) = part k d + running_of k ds

abbrev pub metrics_of : Option SubscriptionPubSub → SubscriptionMetrics
metrics_of none =
    (new_subscription (default_config false) ""
      (record { headers = none; priority = pos 0; max_retry_count = pos 0 })).metrics
metrics_of (some s) = s.metrics

pub running_of-set :
    (k : String) (ds : List Delivery) (i : ℕ) (d d' : Delivery)
    → get_elem? ds i ≡ some d
    → running_of k (set ds i d') + part k d ≡ running_of k ds + part k d'
unfolding running_of
running_of-set k [] i d d' h = ground arith
running_of-set k (e ∷ ds) zero d d' h = ground arith
running_of-set k (e ∷ ds) (suc i) d d' h = omega (arith, running_of-set k ds i d d' h)

pub running_of-remove_at :
    (k : String) (ds : List Delivery) (i : ℕ) (d : Delivery)
    → get_elem? ds i ≡ some d
    → running_of k (remove_at i ds) + part k d ≡ running_of k ds
unfolding running_of remove_at
running_of-remove_at k [] i d h = ground arith
running_of-remove_at k (e ∷ ds) zero d h = ground arith
running_of-remove_at k (e ∷ ds) (suc i) d h = omega (arith, running_of-remove_at k ds i d h)

pub running_of-append :
    (k : String) (ds es : List Delivery)
    → running_of k (ds ++ es) ≡ running_of k ds + running_of k es
unfolding running_of
running_of-append k [] es = omega arith
running_of-append k (d ∷ ds) es = omega (arith, running_of-append k ds es)

pub running_of-spawn_all :
    (k : String) (subs : Dict SubscriptionPubSub) (seen : ℕ → ℕ) (i : ℕ) (m : MessagePubSub)
    → running_of k (spawn_all subs seen i m) ≡ 0
unfolding running_of spawn_all
running_of-spawn_all k [] seen i m = refl
running_of-spawn_all k ((key, s) ∷ subs) seen i m =
    ground (arith, running_of-spawn_all k subs seen (i + 1) m)

pub running_of-forget_all :
    (k : String) (ds : List Delivery) → running_of k (forget_all ds) ≡ running_of k ds
unfolding running_of forget_all
running_of-forget_all k [] = refl
running_of-forget_all k (d ∷ ds) = omega (arith, running_of-forget_all k ds)

pub find-close_all :
    (k : String) (subs : Dict SubscriptionPubSub)
    → metrics_of (find k (close_all subs)) ≡ metrics_of (find k subs)
unfolding find close_all
find-close_all k [] = refl
find-close_all k ((j, s) ∷ subs) = ground (arith, find-close_all k subs)

record Kept (m m' : SubscriptionMetrics) : Type 0 where
  received_kept : m'.messages_received ≡ m.messages_received
  processed_kept : m'.messages_processed ≡ m.messages_processed
  failed_kept : m'.messages_failed ≡ m.messages_failed
  panics_kept : m'.panic_recoveries ≡ m.panic_recoveries

deliver_attempts-Kept :
    (u : UserErrors) (n i : ℕ) (env : ℕ → HandlerRun) (m : SubscriptionMetrics)
    → Kept m (deliver_attempts u n env i m).0
unfolding deliver_attempts
deliver_attempts-Kept u zero i env m = ground arith
deliver_attempts-Kept u (suc n) i env m =
    ground (arith, deliver_attempts-Kept u n (i + 1) env (count_retried m))

pub record Ended (m m' : SubscriptionMetrics) : Type 0 where
  pub received_same : m'.messages_received ≡ m.messages_received
  pub one_more :
      word (m'.messages_processed + m'.messages_failed)
      ≡ word (m.messages_processed + m.messages_failed + 1)
  pub panics_same : m'.panic_recoveries ≡ m.panic_recoveries

guarded_delivery-Kept :
    (u : UserErrors) (s : SubscriptionPubSub) (admitted : Bool) (r : DeliveryRun)
    → Kept s.metrics (guarded_delivery u s admitted r).0.metrics
unfolding guarded_delivery deliver_with_retry
guarded_delivery-Kept u s false r = ground arith
guarded_delivery-Kept u s true r =
    ground (arith, deliver_attempts-Kept u s.max_retries 0 r.runs s.metrics)

fall_back-Kept :
    (u : UserErrors) (p : SubscriptionPubSub × Option GoError) (r : DeliveryRun)
    → Kept p.0.metrics (fall_back u p r).0.metrics
unfolding fall_back deliver_with_retry
fall_back-Kept u (s, none) r = ground arith
fall_back-Kept u (s, some e) r =
    ground (arith, deliver_attempts-Kept u s.max_retries 0 r.direct_runs s.metrics)

count_end-Ended :
    (u : UserErrors) (p : SubscriptionPubSub × Option GoError) (r : DeliveryRun)
    → Ended p.0.metrics (count_end u p r).0.metrics
unfolding count_end
count_end-Ended u (s, none) r = ground arith
count_end-Ended u (s, some e) r = ground arith

pub end_delivery-Ended :
    (u : UserErrors) (s : SubscriptionPubSub) (admitted : Bool) (r : DeliveryRun)
    → Ended s.metrics (end_delivery u s admitted r).0.metrics
unfolding end_delivery
end_delivery-Ended u s admitted r =
    let guarded = guarded_delivery u s admitted r in
    ground (
      arith,
      guarded_delivery-Kept u s admitted r,
      fall_back-Kept u guarded r,
      count_end-Ended u (fall_back u guarded r) r,
    )
