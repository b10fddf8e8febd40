-- ===== src/Bloom/Making.antt =====
-- bloom.go: the configuration of a filter and `NewBloomFilter`, with what it loads from the store.
use go_patternx.Base.{
  Bool, Option, if◌then◌else◌, ℕ, incr, pos, replicate, ◌*◌, ◌==◌, false, none, ℤ, hour, some, ◌||◌,
  ltb, true, zero, ◌^◌, suc, ◌+◌,
}
use go_patternx.Bloom.{
  BloomFilter, Result, String, len, ok, err, text, wrap, store_operation_failed, wrapped, annotate,
}
use go_patternx.Errors.{
  GoError, fail_if, map_err, deserialization_failed, invalid_config, ◌>>=◌, invalid_expected_items,
  invalid_size, ◌>>◌, invalid_false_positive, invalid_hash_count,
}
use go_patternx.Bloom.Codec.{SavedState, load_state}

-- The false positive rate is a number of millionths.
pub record BloomConfig : Type 0 where
  pub expected_items : ℕ
  pub false_positive_rate : ℕ
  pub has_store : Bool
  pub key_prefix : String
  pub ttl : ℤ
  pub enable_metrics : Bool

abbrev pub default_config : Bool → BloomConfig
default_config has_store = record {
  expected_items = 10000;
  false_positive_rate = 10000;
  has_store = has_store;
  key_prefix = "bloom";
  ttl = pos (24 * hour);
  enable_metrics = true;
}

abbrev pub conservative_config : Bool → BloomConfig
conservative_config has_store = record (default_config has_store) {
  expected_items = 50000;
  false_positive_rate = 1000;
}

abbrev pub aggressive_config : Bool → BloomConfig
aggressive_config has_store = record (default_config has_store) {
  expected_items = 1000;
  false_positive_rate = 50000;
}

-- None where the pointer is nil.
unfoldable pub validate_config : Option BloomConfig → Result BloomConfig
validate_config none = err (text "config cannot be nil")
validate_config (some c) =
    fail_if (ltb c.expected_items 1 || ltb 1000000000 c.expected_items)
      (wrapped invalid_expected_items)
    >> fail_if (ltb c.false_positive_rate 1 || ltb 500000 c.false_positive_rate)
        (wrapped invalid_false_positive)
    >> ok c

unfoldable pub apply_defaults : BloomConfig → BloomConfig
apply_defaults c = record c {
  key_prefix = if len c.key_prefix == 0 then "bloom" else c.key_prefix;
  ttl = elim c.ttl [ pos zero ↦ pos (24 * hour) | t ↦ t ];
}

-- `calculateOptimalSize` and `calculateOptimalHashCount`, which use floating-point logarithms. The
-- hash count is below zero for none of their arguments.
pub record Sizing : Type 0 where
  pub optimal_size : ℕ → ℕ → ℕ
  pub optimal_hash_count : ℕ → ℕ → ℕ

unfoldable pub calculate_optimal_parameters : Sizing → ℕ → ℕ → Result (ℕ × ℕ)
calculate_optimal_parameters z n p =
    let size = z.optimal_size n p in
    let hash_count = z.optimal_hash_count size n in
    fail_if (size == 0 || ltb (10 ^ 10) size) (wrapped invalid_size)
    >> fail_if (ltb hash_count 1 || ltb 50 hash_count) (wrapped invalid_hash_count)
    >> ok (size, hash_count)

abbrev pub fresh_filter : BloomConfig → ℕ → ℕ → BloomFilter
fresh_filter c size hash_count = record {
  bitset = replicate size false;
  size = size;
  hash_count = hash_count;
  item_count = 0;
  max_items = c.expected_items;
  has_store = c.has_store;
  closed = 0;
  metrics = record {
    add_operations = 0;
    contains_operations = 0;
    add_batch_operations = 0;
    contains_batch_operations = 0;
    true_negatives = 0;
    store_operations = 0;
    store_errors = 0;
    last_add_time = 0;
    last_contains_time = 0;
    average_add_latency = 0;
    average_contains_latency = 0;
  };
}

-- What one attempt to load meets besides the loop's checks of the context, which never ends: the
-- store's answer, and in it the fields of the JSON object or the error of their reading.
pub data Fetched : Type 0 where
  store_fails : GoError → Fetched
  unreadable : GoError → Fetched
  fields : SavedState → Fetched

unfoldable pub load_from_store : BloomFilter → Fetched → Result BloomFilter
load_from_store bf (store_fails e) = err e
load_from_store bf (unreadable e) = err (wrap deserialization_failed e)
load_from_store bf (fields s) = load_state bf s

abbrev count_load : BloomFilter → BloomFilter
count_load bf = record bf {
  metrics = record (bf.metrics) { store_operations = incr bf.metrics.store_operations };
}

-- The loop, with the attempts that follow this one.
unfoldable pub load_attempts : ℕ → (ℕ → Fetched) → ℕ → BloomFilter → BloomFilter × Option GoError
load_attempts zero env i bf = elim (load_from_store bf (env i)) [
  | ok loaded ↦ (count_load loaded, none)
  | err e ↦ (bf, some (wrap store_operation_failed e))
]
load_attempts (suc n) env i bf =
    let rest = load_attempts n env (i + 1) bf in
    elim (load_from_store bf (env i)) [ ok loaded ↦ (count_load loaded, none) | err e ↦ rest ]

-- The filter starts fresh where nothing can be loaded.
unfoldable pub load_from_store_with_retry : BloomFilter → (ℕ → Fetched) → BloomFilter
load_from_store_with_retry bf env = if bf.has_store then (load_attempts 2 env 0 bf).0 else bf

unfoldable pub new_bloom_filter : Sizing → Option BloomConfig → (ℕ → Fetched) → Result BloomFilter
new_bloom_filter z config env = map_err (wrap invalid_config) (validate_config config) >>= λ c.
    let made = apply_defaults c in
    map_err (annotate "failed to calculate optimal parameters")
      (calculate_optimal_parameters z made.expected_items made.false_positive_rate)
    >>= λ p. ok (load_from_store_with_retry (fresh_filter made p.0 p.1) env)
