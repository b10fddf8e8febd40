-- ===== src/PubSub/Priorities.antt =====
-- A filter by priority over a run.
use go_patternx.Base.{
  [], ◌∷◌, List, ◌++◌, ℕ, ◌≡◌, ◌+◌, arith, get_elem?, if◌then◌else◌, ◌≤◌, ◌&&◌, ltb_ℤ, refl, some,
  suc, not, pos, set, zero, false, none,
}
use package.text.Mathlib.Text.{◌==◌ as str_eq}
use package.text.Mathlib.TextEquality.{eq_iff}
use go_patternx.PubSub.Processing.{spawn_all, forget_all, close_all}
use Prim.Native.String.{String}
use go_patternx.PubSub.Delivering.{matches_filter}
use go_patternx.PubSub.Topics.{remove_at}
use go_patternx.PubSub.{Delivery, Dict, MessagePubSub, SubscriptionPubSub}
use go_patternx.PubSub.Maps.{find, put}

-- The number of messages with a priority above 0.
unfoldable pub urgent : List MessagePubSub → ℕ
urgent [] = 0
urgent (m ∷ ms) = (if ltb_ℤ (pos 0) m.priority then 1 else 0) + urgent ms

-- The number of deliveries to a subscription.
unfoldable pub deliveries_to : String → List Delivery → ℕ
deliveries_to k [] = 0
deliveries_to k (d ∷ ds) = (if str_eq d.subscriber k then 1 else 0) + deliveries_to k ds

-- The number of subscriptions under a key whose filter asks for no priority.
unfoldable pub open_to_all : String → Dict SubscriptionPubSub → ℕ
open_to_all k [] = 0
open_to_all k ((j, s) ∷ d) =
    (if str_eq j k && not (ltb_ℤ (pos 0) s.filter.priority) then 1 else 0) + open_to_all k d

pub urgent-append : (ms ns : List MessagePubSub) → urgent (ms ++ ns) ≡ urgent ms + urgent ns
unfolding urgent
urgent-append [] ns = omega arith
urgent-append (m ∷ ms) ns = omega (arith, urgent-append ms ns)

pub urgent-remove_at :
    (ms : List MessagePubSub) (i : ℕ) (m : MessagePubSub)
    → get_elem? ms i ≡ some m
    → urgent (remove_at i ms) + urgent (m ∷ []) ≡ urgent ms
unfolding urgent remove_at
urgent-remove_at [] i m h = ground arith
urgent-remove_at (e ∷ ms) zero m h = ground arith
urgent-remove_at (e ∷ ms) (suc i) m h = omega (arith, urgent-remove_at ms i m h)

pub deliveries_to-append :
    (k : String) (ds es : List Delivery)
    → deliveries_to k (ds ++ es) ≡ deliveries_to k ds + deliveries_to k es
unfolding deliveries_to
deliveries_to-append k [] es = omega arith
deliveries_to-append k (d ∷ ds) es = omega (arith, deliveries_to-append k ds es)

pub deliveries_to-remove_at :
    (k : String) (ds : List Delivery) (i : ℕ)
    → deliveries_to k (remove_at i ds) ≤ deliveries_to k ds
unfolding deliveries_to remove_at
deliveries_to-remove_at k [] i = ground arith
deliveries_to-remove_at k (e ∷ ds) zero = ground arith
deliveries_to-remove_at k (e ∷ ds) (suc i) = omega (arith, deliveries_to-remove_at k ds i)

pub deliveries_to-set :
    (k : String) (ds : List Delivery) (i : ℕ) (d d' : Delivery)
    → get_elem? ds i ≡ some d
    → d'.subscriber ≡ d.subscriber
    → deliveries_to k (set ds i d') ≡ deliveries_to k ds
unfolding deliveries_to
deliveries_to-set k [] i d d' h same = ground arith
deliveries_to-set k (e ∷ ds) zero d d' h same = ground arith
deliveries_to-set k (e ∷ ds) (suc i) d d' h same =
    omega (arith, deliveries_to-set k ds i d d' h same)

-- A delivery that is there counts.
pub deliveries_to-get :
    (ds : List Delivery) (i : ℕ) (d : Delivery)
    → get_elem? ds i ≡ some d
    → 1 ≤ deliveries_to d.subscriber ds
unfolding deliveries_to
deliveries_to-get [] i d h = ground arith
deliveries_to-get (e ∷ ds) zero d h = ground (arith, eq_iff e.subscriber d.subscriber)
deliveries_to-get (e ∷ ds) (suc i) d h = omega (arith, deliveries_to-get ds i d h)

pub deliveries_to-forget_all :
    (k : String) (ds : List Delivery) → deliveries_to k (forget_all ds) ≡ deliveries_to k ds
unfolding deliveries_to forget_all
deliveries_to-forget_all k [] = refl
deliveries_to-forget_all k (d ∷ ds) = omega (arith, deliveries_to-forget_all k ds)

pub deliveries_to-spawn_all :
    (k : String) (d : Dict SubscriptionPubSub) (seen : ℕ → ℕ) (i : ℕ) (m : MessagePubSub)
    → open_to_all k d ≡ 0
    → urgent (m ∷ []) ≡ 0
    → deliveries_to k (spawn_all d seen i m) ≡ 0
unfolding deliveries_to spawn_all open_to_all urgent matches_filter
deliveries_to-spawn_all k [] seen i m h low = refl
deliveries_to-spawn_all k ((j, s) ∷ d) seen i m h low =
    ground (arith, deliveries_to-spawn_all k d seen (i + 1) m)

pub open_to_all-find :
    (k : String) (d : Dict SubscriptionPubSub) (s : SubscriptionPubSub)
    → find k d ≡ some s
    → ltb_ℤ (pos 0) s.filter.priority ≡ false
    → 1 ≤ open_to_all k d
unfolding open_to_all find
open_to_all-find k [] s h low = ground arith
open_to_all-find k ((j, t) ∷ d) s h low = ground (arith, open_to_all-find k d s)

-- A subscription is written again with its own filter.
pub open_to_all-put_same :
    (k j : String) (d : Dict SubscriptionPubSub) (s s' : SubscriptionPubSub)
    → find j d ≡ some s
    → s'.filter ≡ s.filter
    → open_to_all k (put j s' d) ≡ open_to_all k d
unfolding open_to_all find put
open_to_all-put_same k j [] s s' h same = ground arith
open_to_all-put_same k j ((i, t) ∷ d) s s' h same =
    ground (arith, eq_iff i j, open_to_all-put_same k j d s s')

pub open_to_all-put_new :
    (k j : String) (d : Dict SubscriptionPubSub) (s : SubscriptionPubSub)
    → find j d ≡ none
    → open_to_all k (put j s d) ≡ open_to_all k d + open_to_all k ((j, s) ∷ [])
unfolding open_to_all find put
open_to_all-put_new k j [] s h = ground arith
open_to_all-put_new k j ((i, t) ∷ d) s h = ground (arith, open_to_all-put_new k j d s)

pub open_to_all-close_all :
    (k : String) (d : Dict SubscriptionPubSub) → open_to_all k (close_all d) ≡ open_to_all k d
unfolding open_to_all close_all
open_to_all-close_all k [] = refl
open_to_all-close_all k ((j, s) ∷ d) = ground (arith, open_to_all-close_all k d)
