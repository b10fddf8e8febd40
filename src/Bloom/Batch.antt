-- ===== src/Bloom/Batch.antt =====
-- bloom.go: `AddBatch`, `ContainsBatch`, `Clear`, `Close`.

use package.text.Mathlib.Text.{◌==◌ as str_eq}
use go_patternx.Bloom.{
  BloomFilter, BloomMetrics, Call, GoError, Result, average, err, insert, ok, sentinel, text, wrap,
  all_set, context_cancelled, filter_closed, get_hash_positions, persist, validate_batch, annotate,
  store_operation_failed,
}
use Prim.Native.String.{String}
use go_patternx.Base.{
  ℕ, Bool, List, Option, if◌then◌else◌, ltb, none, ◌∷◌, ◌%◌, ◌+◌, ◌==◌, [], replicate, some, ◌/◌,
  length, false, incr, leb, ◌&&◌, word,
}

-- `results[item] = contains` on a Go map: a later value for the same key replaces the earlier.
unfoldable pub put_result : String → Bool → List (String × Bool) → List (String × Bool)
put_result x b [] = (x, b) ∷ []
put_result x b ((y, c) ∷ m) = if str_eq y x then (x, b) ∷ m else (y, c) ∷ put_result x b m

unfoldable pub result_of : String → List (String × Bool) → Option Bool
result_of x [] = none
result_of x ((y, c) ∷ m) = if str_eq y x then some c else result_of x m

update_add_batch_metrics : BloomMetrics → ℕ → ℕ → ℕ → BloomMetrics
update_add_batch_metrics m elapsed now items =
    if ltb 0 items
    then record m {
      last_add_time = now;
      average_add_latency = average m.average_add_latency (elapsed / items);
    }
    else record m { last_add_time = now }

update_contains_batch_metrics : BloomMetrics → ℕ → ℕ → ℕ → BloomMetrics
update_contains_batch_metrics m elapsed now items =
    if ltb 0 items
    then record m {
      last_contains_time = now;
      average_contains_latency = average m.average_contains_latency (elapsed / items);
    }
    else record m { last_contains_time = now }

-- `i%100 == 0 && opCtx.Err() != nil`: the context is looked at before every hundredth item.
abbrev pub check_at : (ℕ → Option GoError) → ℕ → Option GoError
check_at checks i = if i % 100 == 0 then checks i else none

module _ (hashes : String → ℕ × ℕ × ℕ) where
  -- The loop of `AddBatch`: it stops without an error at the capacity.
  unfoldable pub add_items :
      (ℕ → Option GoError) → ℕ → List String → ℕ → BloomFilter → BloomFilter × ℕ × Option GoError
  add_items checks i [] added bf = (bf, added, none)
  add_items checks i (x ∷ xs) added bf =
      let rest = add_items checks (i + 1) xs (added + 1) (insert hashes bf x) in
      elim (check_at checks i) [
        | some e ↦ (bf, added, some (wrap context_cancelled e))
        | none ↦ if leb bf.max_items bf.item_count then (bf, added, none) else rest
      ]

  unfoldable pub add_batch_locked :
      BloomFilter → Call → (ℕ → Option GoError) → List String → BloomFilter × Option GoError
  unfolding add_items
  add_batch_locked bf c checks items = elim c.locked_error [
    | some e ↦ (bf, some (wrap context_cancelled e))
    | none ↦
        let (done, added, e) = add_items checks 0 items 0 bf in
        elim e [
          | some x ↦ (done, some x)
          | none ↦ (
            record done {
              metrics = persist (done.has_store && ltb 0 added) c.store (record (done.metrics) {
                add_batch_operations = incr done.add_batch_operations;
                add_operations = word (done.add_operations + added);
              });
            },
            none,
          )
        ]
  ]

  unfoldable pub add_batch :
      BloomFilter → Call → (ℕ → Option GoError) → List String → BloomFilter × Option GoError
  unfolding add_batch_locked update_add_batch_metrics
  add_batch bf c checks items =
      if bf.closed == 1 then (bf, some (sentinel filter_closed)) else elim (validate_batch items) [
        | some e ↦ (bf, some (annotate "invalid batch" e))
        | none ↦ elim c.context_error [
          | some e ↦ (bf, some (wrap context_cancelled e))
          | none ↦
              let (done, e) = add_batch_locked bf c checks items in
              (
                record done {
                  metrics = update_add_batch_metrics done.metrics c.elapsed c.now (length items);
                },
                e,
              )
        ]
      ]

  -- The loop of `ContainsBatch`.
  unfoldable pub contains_items :
      BloomFilter
      → (ℕ → Option GoError)
      → ℕ
      → List String
      → List (String × Bool)
      → Result (List (String × Bool))
  unfolding put_result
  contains_items bf checks i [] results = ok results
  contains_items bf checks i (x ∷ xs) results =
      let found = all_set bf.bitset (get_hash_positions hashes bf x) in
      let rest = contains_items bf checks (i + 1) xs (put_result x found results) in
      elim (check_at checks i) [ some e ↦ err (wrap context_cancelled e) | none ↦ rest ]

  unfoldable pub contains_batch :
      BloomFilter
      → Call
      → (ℕ → Option GoError)
      → List String
      → BloomFilter × Result (List (String × Bool))
  unfolding contains_items update_contains_batch_metrics
  contains_batch bf c checks items =
      if bf.closed == 1 then (bf, err (sentinel filter_closed)) else elim (validate_batch items) [
        | some e ↦ (bf, err (annotate "invalid batch" e))
        | none ↦ elim c.context_error [
          | some e ↦ (bf, err (wrap context_cancelled e))
          | none ↦
              let timed = update_contains_batch_metrics bf.metrics c.elapsed c.now (length items) in
              elim c.locked_error [
                | some e ↦ (record bf { metrics = timed }, err (wrap context_cancelled e))
                | none ↦ elim (contains_items bf checks 0 items []) [
                  | err e ↦ (record bf { metrics = timed }, err e)
                  | ok results ↦ (
                    record bf {
                      metrics = record timed {
                        contains_batch_operations = incr bf.contains_batch_operations;
                        contains_operations = word (bf.contains_operations + length items);
                      };
                    },
                    ok results,
                  )
                ]
              ]
        ]
      ]

-- `del` is what the store's `Del` returns.
unfoldable pub clear : BloomFilter → Option GoError → Option GoError → BloomFilter × Option GoError
clear bf context_error del =
    let cleared = record bf { bitset = replicate (length bf.bitset) false; item_count = 0 } in
    let failed = record cleared {
      metrics = record (bf.metrics) { store_errors = incr bf.store_errors };
    } in
    if bf.closed == 1 then (bf, some (text "bloom filter is closed")) else elim context_error [
      | some e ↦ (bf, some (wrap context_cancelled e))
      | none ↦
          if bf.has_store
          then elim del [
            | some e ↦ (failed, some (wrap store_operation_failed e))
            | none ↦ (cleared, none)
          ]
          else (cleared, none)
    ]

unfoldable pub close : BloomFilter → BloomFilter × Option GoError
close bf =
    if bf.closed == 0
    then (record bf { closed = 1 }, none)
    else (bf, some (text "bloom filter already closed"))
