-- ===== src/Bloom/Tests.antt =====
-- A filter of sixteen bits for three items, two positions each.
use Prim.Native.String.{String, len}
use go_patternx.Base.{
  All, List, ℕ, arith, false, none, replicate, ◌∷◌, ◌≡◌, [], if◌then◌else◌, refl, some, true, ◌+◌,
  length, ◌++◌,
}
use go_patternx.Bloom.{
  BloomFilter, BloomMetrics, Call, StoreAttempt, add, contains, get_hash_positions, validate_batch,
  validate_item, count_set_bits, ok, wrapped, capacity_exceeded, set_bits, all_set, insert,
}
use go_patternx.Bloom.Keeping.{IsValid, may_contain}
use go_patternx.Bloom.Batch.{add_batch, contains_batch, result_of}
use go_patternx.Bloom.Runs.{run, adds, adds_batch, looks_up, Op, apply_op}
use go_patternx.Bloom.Batches.{is_member, contains_batch-result, add_batch-All}
use go_patternx.Bloom.Answers.{add-contains}
use go_patternx.Bloom.Refinement.{added_in, covered, marked_by, run-contains}
use go_patternx.Bloom.Codec.{
  deserialize_state, bitset_to_bytes, load_state, serialize_state, bytes_to_bitset, json_array,
  bytes_to_bitset-bitset_to_bytes,
}
use go_patternx.Bloom.Bits.{get_or-replicate}
use go_patternx.Bloom.Making.{
  BloomConfig, Fetched, Sizing, load_attempts, new_bloom_filter, default_config, fields,
  validate_config, calculate_optimal_parameters, load_from_store_with_retry, load_from_store,
  apply_defaults,
}
use go_patternx.Bloom.Restart.{Made, new_bloom_filter-Made, start_filter, new_bloom_filter-forgets}

abbrev lengths : String → ℕ × ℕ × ℕ
lengths s = (len s, 3, 5)

abbrev no_metrics : BloomMetrics
no_metrics = record {
  add_operations = 0;
  contains_operations = 0;
  add_batch_operations = 0;
  contains_batch_operations = 0;
  true_negatives = 0;
  store_operations = 0;
  store_errors = 0;
  last_add_time = 0;
  last_contains_time = 0;
  average_add_latency = 0;
  average_contains_latency = 0;
}

abbrev fresh : BloomFilter
fresh = record {
  bitset = replicate 16 false;
  size = 16;
  hash_count = 2;
  item_count = 0;
  max_items = 3;
  has_store = false;
  closed = 0;
  metrics = no_metrics;
}

abbrev reachable : StoreAttempt
reachable = record { context_error = none; store_error = none; wait_error = none }

abbrev live : Call
live = record {
  context_error = none;
  locked_error = none;
  elapsed = 10;
  now = 100;
  store = λ i. reachable;
}

abbrev two_items : List String
two_items = "apple" ∷ "fig" ∷ []

fresh-IsValid : IsValid fresh
fresh-IsValid = record {
  bits = refl;
  size_pos = omega arith;
  hashes_pos = omega arith;
  count_max = omega arith;
  max_word = omega arith;
}

narrow-IsValid : IsValid (record fresh { max_items = 1 })
narrow-IsValid = record {
  bits = refl;
  size_pos = omega arith;
  hashes_pos = omega arith;
  count_max = omega arith;
  max_word = omega arith;
}

valid_batch : validate_batch two_items ≡ none
unfolding validate_batch
valid_batch = refl

valid_apple : validate_item "apple" ≡ none
unfolding validate_item
valid_apple = refl

-- The positions of a five-letter item: 5 and 5 + 3 + 5 = 13.
positions_test : get_hash_positions lengths fresh "apple" ≡ (5 ∷ 13 ∷ [])
unfolding get_hash_positions
positions_test = refl

add_test : (add lengths fresh live "apple").1 ≡ none
unfolding add validate_item
add_test = refl

count_test : count_set_bits (add lengths fresh live "apple").0.bitset ≡ 2
unfolding add count_set_bits validate_item set_bits get_hash_positions
count_test = refl

full_test :
    (add lengths (record fresh { item_count = 3 }) live "apple").1
    ≡ some (wrapped capacity_exceeded)
unfolding add validate_item
full_test = refl

batch_test : (add_batch lengths fresh live (λ k. none) two_items).1 ≡ none
unfolding add_batch validate_batch insert
batch_test = refl

lookup_test :
    (contains_batch lengths fresh live (λ k. none) two_items).1
    ≡ ok (("apple", false) ∷ ("fig", false) ∷ [])
unfolding contains_batch validate_batch all_set get_hash_positions
lookup_test = refl

add-contains_example :
    (contains lengths
      (run lengths
        (add lengths fresh live "apple").0
        (adds_batch live (λ k. none) two_items ∷ looks_up live "fig" ∷ []))
      live
      "apple").1
    ≡ ok true
add-contains_example =
    add-contains lengths fresh live live "apple"
      (adds_batch live (λ k. none) two_items ∷ looks_up live "fig" ∷ []) fresh-IsValid add_test refl
      refl

add_batch-All_example :
    All
      (λ x. may_contain lengths (add_batch lengths fresh live (λ k. none) two_items).0 x ≡ true)
      two_items
    × ((add_batch lengths fresh live (λ k. none) two_items).0.item_count ≡ 0 + length two_items)
add_batch-All_example =
    add_batch-All lengths fresh live (λ k. none) two_items fresh-IsValid (omega arith) batch_test

contains_batch-result_example :
    result_of "fig" (("apple", false) ∷ ("fig", false) ∷ [])
    ≡ (if is_member "fig" two_items then some (may_contain lengths fresh "fig") else none)
contains_batch-result_example =
    contains_batch-result lengths fresh live (λ k. none) two_items
      (("apple", false) ∷ ("fig", false) ∷ []) "fig" lookup_test

abbrev some_calls : List Op
some_calls = adds live "apple" ∷ adds_batch live (λ k. none) two_items ∷ looks_up live "fig" ∷ []

-- The item of the first call, and both of the batch.
added_test : added_in lengths fresh some_calls ≡ ("apple" ∷ "apple" ∷ "fig" ∷ [])
unfolding added_in add add_batch validate_item validate_batch insert apply_op
added_test = refl

run-contains_example :
    (contains lengths (run lengths fresh some_calls) live "apple").1
    ≡ ok (
        covered
          (λ j. marked_by lengths 2 16 j (added_in lengths fresh some_calls))
          (get_hash_positions lengths fresh "apple"))
run-contains_example =
    run-contains lengths fresh some_calls live "apple" fresh-IsValid (get_or-replicate 16) refl
      valid_apple refl refl

abbrev saved : BloomFilter
saved = record fresh {
  bitset = true ∷ replicate 10 false ++ true ∷ true ∷ replicate 3 false;
  item_count = 2;
}

saved-IsValid : IsValid saved
saved-IsValid = record {
  bits = refl;
  size_pos = omega arith;
  hashes_pos = omega arith;
  count_max = omega arith;
  max_word = omega arith;
}

-- Bit 0 of the first byte, bits 3 and 4 of the second.
bytes_test : bitset_to_bytes saved.bitset ≡ (1 ∷ 24 ∷ [])
unfolding bitset_to_bytes
bytes_test = refl

-- Any text stands for the base64 text of the bytes.
abbrev some_base64 : List ℕ → String
some_base64 bytes = "AgAg"

bytes_to_bitset-bitset_to_bytes_example :
    bytes_to_bitset (bitset_to_bytes saved.bitset) (length saved.bitset) ≡ saved.bitset
bytes_to_bitset-bitset_to_bytes_example = bytes_to_bitset-bitset_to_bytes saved.bitset

-- A state with an array of bytes would be loaded.
loads_array :
    load_state fresh (record (serialize_state some_base64 saved) {
      saved_bitset = json_array (some 32 ∷ some 32 ∷ []);
    })
    ≡ ok (record fresh { item_count = 2; bitset = bytes_to_bitset (32 ∷ 32 ∷ []) 16 })
unfolding load_state serialize_state deserialize_state bytes_to_bitset
loads_array = refl

abbrev sixteen : Sizing
sixteen = record { optimal_size = λ n p. 16; optimal_hash_count = λ m n. 2 }

abbrev stored_config : BloomConfig
stored_config = record (default_config true) { expected_items = 3 }

-- The filter that was saved, and the one that loads it.
abbrev saved_filter : BloomFilter
saved_filter = run lengths fresh (adds live "apple" ∷ [])

abbrev saved_state : ℕ → Fetched
saved_state i = fields (serialize_state some_base64 saved_filter)

abbrev loaded_filter : BloomFilter
loaded_filter = (load_attempts 2 saved_state 0 (start_filter sixteen stored_config)).0

loads : new_bloom_filter sixteen (some stored_config) saved_state ≡ ok loaded_filter
unfolding new_bloom_filter validate_config calculate_optimal_parameters load_attempts
    load_from_store_with_retry load_from_store apply_defaults
loads = refl

new_bloom_filter-Made_example : Made stored_config loaded_filter
new_bloom_filter-Made_example =
    new_bloom_filter-Made sixteen stored_config saved_state loaded_filter loads

new_bloom_filter-forgets_example :
    (loaded_filter.bitset ≡ replicate loaded_filter.size false)
    × (loaded_filter.item_count ≡ 0)
    × ((contains lengths loaded_filter live "apple").1 ≡ ok false)
new_bloom_filter-forgets_example =
    new_bloom_filter-forgets lengths some_base64 sixteen stored_config saved_state saved_filter
      loaded_filter live "apple" loads refl (λ j. refl) valid_apple refl refl
