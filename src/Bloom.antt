-- ===== src/Bloom.antt =====
-- bloom.go: `BloomFilter`. The three hash functions come from Go's library (FNV-1a, MD5, SHA-256),
-- so the words that they give an item are the parameter `hashes`. The locks make each operation
-- one step; what the context says at its checks is part of the call.
pub mod Answers
pub mod Batch
pub mod Batches
pub mod Bits
pub mod Codec
pub mod Keeping
pub mod Making
pub mod Restart
pub mod Limits
pub mod Refinement
pub mod Runs
mod Tests
use go_patternx.Base.{
  Bool, List, Option, ℕ, [], if◌then◌else◌, true, word, ◌∷◌, ◌+◌, ◌==◌, get_or, none, set, some,
  suc, ◌*◌, ◌/◌, false, incr, ◌%◌, ◌&&◌, leb, ltb, zero,
}
use Prim.Native.String.{String, len}
use go_patternx.Errors.{
  GoError, Result, annotate, err, sentinel, text, wrap, context_cancelled, empty_item,
  filter_closed, ok, store_operation_failed, wrapped, capacity_exceeded, item_too_long,
}

-- Without `FalsePositives`, which nothing counts.
pub record BloomMetrics : Type 0 where
  pub add_operations : ℕ
  pub contains_operations : ℕ
  pub add_batch_operations : ℕ
  pub contains_batch_operations : ℕ
  pub true_negatives : ℕ
  pub store_operations : ℕ
  pub store_errors : ℕ
  pub last_add_time : ℕ
  pub last_contains_time : ℕ
  pub average_add_latency : ℕ
  pub average_contains_latency : ℕ

-- Without `falsePositiveRate`, which is only shown, and `keyPrefix` and `ttl`, which are only passed
-- to the store.
pub record BloomFilter : Type 0 where
  pub bitset : List Bool
  pub size : ℕ
  pub hash_count : ℕ
  pub item_count : ℕ
  pub max_items : ℕ
  pub has_store : Bool
  pub closed : ℕ
  pub metrics : BloomMetrics
  pub open metrics use *

-- `len(item)` counts the bytes.
pub validate_item : String → Option GoError
validate_item item =
    if len item == 0
    then some (sentinel empty_item)
    else if ltb (1024 * 1024) (len item)
    then some (wrapped item_too_long)
    else none

first_invalid : List String → Option GoError
unfolding validate_item
first_invalid [] = none
first_invalid (x ∷ xs) = elim (validate_item x) [
  | some e ↦ some (annotate "invalid item" e)
  | none ↦ first_invalid xs
]

pub validate_batch : List String → Option GoError
unfolding first_invalid
validate_batch [] = some (text "items slice cannot be empty")
validate_batch (x ∷ xs) = first_invalid (x ∷ xs)

-- The bitset after `bitset[pos] = true` for each position.
pub set_bits : List Bool → List ℕ → List Bool
set_bits bs [] = bs
set_bits bs (p ∷ ps) = set_bits (set bs p true) ps

-- The loop of `Contains`: whether every bit is set.
pub all_set : List Bool → List ℕ → Bool
all_set bs [] = true
all_set bs (p ∷ ps) = get_or bs p false && all_set bs ps

pub count_set_bits : List Bool → ℕ
count_set_bits [] = 0
count_set_bits (true ∷ bs) = suc (count_set_bits bs)
count_set_bits (false ∷ bs) = count_set_bits bs

abbrev pub average : ℕ → ℕ → ℕ
average current elapsed = if current == 0 then elapsed else (current + elapsed) / 2

update_add_metrics : BloomMetrics → ℕ → ℕ → BloomMetrics
update_add_metrics m elapsed now = record m {
  last_add_time = now;
  average_add_latency = average m.average_add_latency elapsed;
}

update_contains_metrics : BloomMetrics → ℕ → ℕ → BloomMetrics
update_contains_metrics m elapsed now = record m {
  last_contains_time = now;
  average_contains_latency = average m.average_contains_latency elapsed;
}

-- What one of the three attempts of `saveToStoreWithRetry` or `loadFromStoreWithRetry` meets:
-- `ctx.Err()` before it, its own error, and `ctx.Err()` if the context ends the wait after it.
pub record StoreAttempt : Type 0 where
  pub context_error : Option GoError
  pub store_error : Option GoError
  pub wait_error : Option GoError

-- The loop, with the attempts that follow this one.
pub retry_store : ℕ → (ℕ → StoreAttempt) → ℕ → BloomMetrics → BloomMetrics × Option GoError
retry_store zero env i m = elim (env i).context_error [
  | some e ↦ (m, some (wrap context_cancelled e))
  | none ↦ elim (env i).store_error [
    | none ↦ (record m { store_operations = incr m.store_operations }, none)
    | some e ↦ (m, some (wrap store_operation_failed e))
  ]
]
retry_store (suc n) env i m =
    let rest = retry_store n env (i + 1) m in
    elim (env i).context_error [
      | some e ↦ (m, some (wrap context_cancelled e))
      | none ↦ elim (env i).store_error [
        | none ↦ (record m { store_operations = incr m.store_operations }, none)
        | some e ↦ elim (env i).wait_error [
          | some x ↦ (m, some (wrap context_cancelled x))
          | none ↦ rest
        ]
      ]
    ]

-- `saveToStoreWithRetry` and the count of its failure.
pub persist : Bool → (ℕ → StoreAttempt) → BloomMetrics → BloomMetrics
unfolding retry_store
persist false env m = m
persist true env m =
    let (m', e) = retry_store 2 env 0 m in
    elim e [ none ↦ m' | some x ↦ record m' { store_errors = incr m'.store_errors } ]

-- A call: `ctx.Err()` at its start and once the lock is taken, the time it takes, the clock at its
-- end, and how the store behaves.
pub record Call : Type 0 where
  pub context_error : Option GoError
  pub locked_error : Option GoError
  pub elapsed : ℕ
  pub now : ℕ
  pub store : ℕ → StoreAttempt

module _ (hashes : String → ℕ × ℕ × ℕ) where
  positions_from : ℕ → ℕ → ℕ → String → List ℕ
  positions_from zero i size item = []
  positions_from (suc n) i size item =
      let (h1, h2, h3) = hashes item in
      (word (h1 + i * h2 + i * i * h3) % size) ∷ positions_from n (i + 1) size item

  pub get_hash_positions : BloomFilter → String → List ℕ
  unfolding positions_from
  get_hash_positions bf item = positions_from bf.hash_count 0 bf.size item

  -- The bits and the count that one item adds.
  pub insert : BloomFilter → String → BloomFilter
  insert bf item = record bf {
    bitset = set_bits bf.bitset (get_hash_positions bf item);
    item_count = word (bf.item_count + 1);
  }

  -- The part of `Add` that runs under the lock.
  add_locked : BloomFilter → Call → String → BloomFilter × Option GoError
  unfolding insert persist
  add_locked bf c item = elim c.locked_error [
    | some e ↦ (bf, some (wrap context_cancelled e))
    | none ↦ if leb bf.max_items bf.item_count then (bf, some (wrapped capacity_exceeded)) else (
      record (insert bf item) {
        metrics =
            persist bf.has_store c.store
              (record (bf.metrics) { add_operations = incr bf.add_operations });
      },
      none,
    )
  ]

  pub add : BloomFilter → Call → String → BloomFilter × Option GoError
  unfolding add_locked update_add_metrics
  add bf c item =
      if bf.closed == 1 then (bf, some (sentinel filter_closed)) else elim (validate_item item) [
        | some e ↦ (bf, some (annotate "invalid item" e))
        | none ↦ elim c.context_error [
          | some e ↦ (bf, some (wrap context_cancelled e))
          | none ↦
              let (done, e) = add_locked bf c item in
              (record done { metrics = update_add_metrics done.metrics c.elapsed c.now }, e)
        ]
      ]

  pub contains : BloomFilter → Call → String → BloomFilter × Result Bool
  unfolding update_contains_metrics
  contains bf c item =
      if bf.closed == 1 then (bf, err (sentinel filter_closed)) else elim (validate_item item) [
        | some e ↦ (bf, err (annotate "invalid item" e))
        | none ↦ elim c.context_error [
          | some e ↦ (bf, err (wrap context_cancelled e))
          | none ↦
              let timed = update_contains_metrics bf.metrics c.elapsed c.now in
              elim c.locked_error [
                | some e ↦ (record bf { metrics = timed }, err (wrap context_cancelled e))
                | none ↦
                    if all_set bf.bitset (get_hash_positions bf item)
                    then (
                      record bf {
                        metrics = record timed {
                          contains_operations = incr bf.contains_operations;
                        };
                      },
                      ok true,
                    )
                    else (
                      record bf {
                        metrics = record timed { true_negatives = incr bf.true_negatives };
                      },
                      ok false,
                    )
              ]
        ]
      ]
