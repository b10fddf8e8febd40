-- ===== src/Bloom/Runs.antt =====
-- Sequences of calls on a filter.
use go_patternx.Bloom.{
  Call, BloomFilter, add, add_locked, BloomMetrics, GoError, contains, insert, update_add_metrics,
  persist,
}
use Prim.Native.String.{String}
use go_patternx.Base.{ℕ, Option, List, ◌<◌, ◌∷◌, [], arith, ◌+◌, incr}
use go_patternx.Bloom.Batch.{add_items, add_batch, contains_batch, add_batch_locked}
use go_patternx.Bloom.Keeping.{
  IsValid, Keeps, insert-IsValid, insert-Keeps, Keeps-refl, Keeps-trans,
}

pub data Op : Type 0 where
  adds : Call → String → Op
  adds_batch : Call → (ℕ → Option GoError) → List String → Op
  looks_up : Call → String → Op
  looks_up_batch : Call → (ℕ → Option GoError) → List String → Op

module _ (hashes : String → ℕ × ℕ × ℕ) where
  -- The filter after one call.
  unfoldable pub apply_op : BloomFilter → Op → BloomFilter
  apply_op bf (adds c x) = (add hashes bf c x).0
  apply_op bf (adds_batch c checks xs) = (add_batch hashes bf c checks xs).0
  apply_op bf (looks_up c x) = (contains hashes bf c x).0
  apply_op bf (looks_up_batch c checks xs) = (contains_batch hashes bf c checks xs).0

  unfoldable pub run : BloomFilter → List Op → BloomFilter
  unfolding apply_op
  run bf [] = bf
  run bf (o ∷ os) = run (apply_op bf o) os

  -- A filter that stays valid and keeps its bits.
  abbrev Good : BloomFilter → BloomFilter → Type 0
  Good bf bf' = IsValid bf' × Keeps bf bf'

  insert-Good :
      (bf : BloomFilter) (x : String)
      → IsValid bf
      → bf.item_count < bf.max_items
      → Good bf (insert hashes bf x)
  insert-Good bf x v h = (insert-IsValid hashes bf x v h, insert-Keeps hashes bf x v)

  metrics-Good :
      {bf bf' : BloomFilter} (m : BloomMetrics) → Good bf bf' → Good bf (record bf' { metrics = m })
  metrics-Good m (v, k) = (
    record {
      bits = v.bits;
      size_pos = v.size_pos;
      hashes_pos = v.hashes_pos;
      count_max = v.count_max;
      max_word = v.max_word;
    },
    record {
      same_size = k.same_size;
      same_hashes = k.same_hashes;
      same_max = k.same_max;
      same_closed = k.same_closed;
      more_bits = k.more_bits;
    },
  )

  put-Good :
      (bf : BloomFilter) (x : String) (m : BloomMetrics)
      → IsValid bf
      → bf.item_count < bf.max_items
      → Good bf (record (insert hashes bf x) { metrics = m })
  put-Good bf x m v h = metrics-Good m (insert-Good bf x v h)

  add_locked-Good :
      (bf : BloomFilter) (c : Call) (x : String) → IsValid bf → Good bf (add_locked hashes bf c x).0
  unfolding add_locked
  add_locked-Good bf c x v = ground (
    arith,
    v,
    Keeps-refl bf,
    put-Good bf x
        (persist bf.has_store c.store
          (record (bf.metrics) { add_operations = incr bf.add_operations }))
        v,
  )

  timed-Good :
      (bf bf' : BloomFilter) (c : Call)
      → Good bf bf'
      → Good bf (record bf' { metrics = update_add_metrics bf'.metrics c.elapsed c.now })
  timed-Good bf bf' c g = metrics-Good (update_add_metrics bf'.metrics c.elapsed c.now) g

  pub add-Good :
      (bf : BloomFilter) (c : Call) (x : String) → IsValid bf → Good bf (add hashes bf c x).0
  unfolding add
  add-Good bf c x v = ground (
    arith,
    v,
    Keeps-refl bf,
    timed-Good bf (add_locked hashes bf c x).0 c (add_locked-Good bf c x v),
  )

  Good-trans : {a b c : BloomFilter} → Good a b → Good b c → Good a c
  Good-trans (v, k) (w, l) = (w, Keeps-trans k l)

  pub add_items-Good :
      (checks : ℕ → Option GoError) (i : ℕ) (xs : List String) (added : ℕ) (bf : BloomFilter)
      → IsValid bf
      → Good bf (add_items hashes checks i xs added bf).0
  unfolding add_items
  add_items-Good checks i [] added bf v = (v, Keeps-refl bf)
  add_items-Good checks i (x ∷ xs) added bf v = ground (
    arith,
    v,
    Keeps-refl bf,
    λ (h : bf.item_count < bf.max_items). Good-trans (insert-Good bf x v h) (
        add_items-Good checks (i + 1) xs (added + 1) (insert hashes bf x) (insert-Good bf x v h).0),
  )

  add_batch_locked-Good :
      (bf : BloomFilter) (c : Call) (checks : ℕ → Option GoError) (xs : List String)
      → IsValid bf
      → Good bf (add_batch_locked hashes bf c checks xs).0
  unfolding add_batch_locked
  add_batch_locked-Good bf c checks xs v =
      ground (arith, v, Keeps-refl bf, add_items-Good checks 0 xs 0 bf v)

  add_batch-Good :
      (bf : BloomFilter) (c : Call) (checks : ℕ → Option GoError) (xs : List String)
      → IsValid bf
      → Good bf (add_batch hashes bf c checks xs).0
  unfolding add_batch
  add_batch-Good bf c checks xs v =
      ground (arith, v, Keeps-refl bf, add_batch_locked-Good bf c checks xs v)

  contains-Good :
      (bf : BloomFilter) (c : Call) (x : String) → IsValid bf → Good bf (contains hashes bf c x).0
  unfolding contains
  contains-Good bf c x v = ground (arith, v, Keeps-refl bf)

  contains_batch-Good :
      (bf : BloomFilter) (c : Call) (checks : ℕ → Option GoError) (xs : List String)
      → IsValid bf
      → Good bf (contains_batch hashes bf c checks xs).0
  unfolding contains_batch
  contains_batch-Good bf c checks xs v = ground (arith, v, Keeps-refl bf)

  pub apply_op-Good : (bf : BloomFilter) (o : Op) → IsValid bf → Good bf (apply_op bf o)
  unfolding apply_op
  apply_op-Good bf (adds c x) v = add-Good bf c x v
  apply_op-Good bf (adds_batch c checks xs) v = add_batch-Good bf c checks xs v
  apply_op-Good bf (looks_up c x) v = contains-Good bf c x v
  apply_op-Good bf (looks_up_batch c checks xs) v = contains_batch-Good bf c checks xs v

  -- Whatever calls are made on a valid filter, other than `Clear`, in any order and whether they
  -- fail or not: it stays valid (the bitset keeps its length, the count stays within the
  -- capacity), and no bit that is set is ever lost.
  pub run-Good : (bf : BloomFilter) (os : List Op) → IsValid bf → Good bf (run bf os)
  unfolding run
  run-Good bf [] v = (v, Keeps-refl bf)
  run-Good bf (o ∷ os) v =
      Good-trans (apply_op-Good bf o v) (run-Good (apply_op bf o) os (apply_op-Good bf o v).0)
