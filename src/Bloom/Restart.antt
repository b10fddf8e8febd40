-- ===== src/Bloom/Restart.antt =====
-- The filters that `NewBloomFilter` makes.
use go_patternx.Base.{
  length, ◌≡◌, ◌≤◌, ◌^◌, ℕ, arith, inl, inr, some, suc, ◌+◌, false, length-replicate, true, zero,
  ap, ◌∙◌, List, none, replicate, ◌-◌, sym, refl,
}
use go_patternx.Bloom.Making.{
  BloomConfig, load_attempts, load_from_store, new_bloom_filter, Fetched, validate_config, Sizing,
  calculate_optimal_parameters, store_fails, load_from_store_with_retry, apply_defaults, unreadable,
  fields, fresh_filter,
}
use go_patternx.Bloom.Codec.{load_state-same, serialize_state, load_state-serialize_state}
use go_patternx.Bloom.{
  BloomFilter, ok, String, Call, contains, get_hash_positions, validate_item, positions_from,
  all_set,
}
use go_patternx.Errors.{Result-cases}
use go_patternx.Bloom.Keeping.{IsValid, may_contain}
use go_patternx.Bloom.Bits.{all_set-replicate}
use go_patternx.Bloom.Answers.{contains-answer}

-- What a filter has from its making on.
pub record Made (c : BloomConfig) (bf : BloomFilter) : Type 0 where
  pub bits : length bf.bitset ≡ bf.size
  pub size_min : 1 ≤ bf.size
  pub size_max : bf.size ≤ 10 ^ 10
  pub hashes_min : 1 ≤ bf.hash_count
  pub hashes_max : bf.hash_count ≤ 50
  pub max_items : bf.max_items ≡ c.expected_items
  pub max_items_min : 1 ≤ bf.max_items
  pub max_items_max : bf.max_items ≤ 1000000000
  pub is_open : bf.closed ≡ 0

load_from_store-Made :
    (c : BloomConfig) (bf loaded : BloomFilter) (f : Fetched)
    → load_from_store bf f ≡ ok loaded
    → Made c bf
    → Made c loaded
unfolding load_from_store
load_from_store-Made c bf loaded (store_fails e) h m = ground arith
load_from_store-Made c bf loaded (unreadable e) h m = ground arith
load_from_store-Made c bf loaded (fields s) h m = ground (arith, load_state-same bf loaded s h)

load_attempts-Made :
    (c : BloomConfig) (n : ℕ) (env : ℕ → Fetched) (i : ℕ) (bf : BloomFilter)
    → Made c bf
    → Made c (load_attempts n env i bf).0
unfolding load_attempts
load_attempts-Made c zero env i bf m = elim (Result-cases (load_from_store bf (env i))) [
  | inl (loaded, read) ↦ ground (arith, load_from_store-Made c bf loaded (env i) read m)
  | inr (e, failed) ↦ ground arith
]
load_attempts-Made c (suc n) env i bf m = elim (Result-cases (load_from_store bf (env i))) [
  | inl (loaded, read) ↦ ground (arith, load_from_store-Made c bf loaded (env i) read m)
  | inr (e, failed) ↦ ground (arith, load_attempts-Made c n env (i + 1) bf m)
]

-- A filter that `NewBloomFilter` makes is sound, whatever its store answers: the bitset has between
-- 1 and 10^10 bits and the length that `size` says, there are between 1 and 50 hash functions, and
-- the capacity is that of the configuration, between 1 and 10^9; and it is open.
pub new_bloom_filter-Made :
    (z : Sizing) (c : BloomConfig) (env : ℕ → Fetched) (bf : BloomFilter)
    → new_bloom_filter z (some c) env ≡ ok bf
    → Made c bf
unfolding new_bloom_filter validate_config calculate_optimal_parameters load_from_store_with_retry
    apply_defaults
new_bloom_filter-Made z c env bf h =
    let made = apply_defaults c in
    let size = z.optimal_size made.expected_items made.false_positive_rate in
    let start = fresh_filter made size (z.optimal_hash_count size made.expected_items) in
    ground (arith, length-replicate size false, load_attempts-Made c 2 env 0 start)

-- The filter before anything is loaded.
abbrev pub start_filter : Sizing → BloomConfig → BloomFilter
start_filter z c =
    let size = z.optimal_size c.expected_items c.false_positive_rate in
    fresh_filter (apply_defaults c) size (z.optimal_hash_count size c.expected_items)

new_bloom_filter-loads :
    (z : Sizing) (c : BloomConfig) (env : ℕ → Fetched) (bf : BloomFilter)
    → new_bloom_filter z (some c) env ≡ ok bf
    → c.has_store ≡ true
    → (bf ≡ (load_attempts 2 env 0 (start_filter z c)).0) × IsValid (start_filter z c)
unfolding new_bloom_filter validate_config calculate_optimal_parameters load_from_store_with_retry
    apply_defaults
new_bloom_filter-loads z c env bf h store =
    let size = z.optimal_size c.expected_items c.false_positive_rate in
    ground (arith, length-replicate size false)

-- Nothing is loaded from what another filter has saved.
load_attempts-saved :
    (base64 : List ℕ → String) (old : BloomFilter) (env : ℕ → Fetched) (n i : ℕ) (bf : BloomFilter)
    → ((j : ℕ) → env j ≡ fields (serialize_state base64 old))
    → (load_attempts n env i bf).0 ≡ bf
unfolding load_attempts load_from_store
load_attempts-saved base64 old env zero i bf h =
    ground (arith, h i, load_state-serialize_state base64 old bf)
load_attempts-saved base64 old env (suc n) i bf h = ground (
  arith,
  h i,
  load_state-serialize_state base64 old bf,
  load_attempts-saved base64 old env n (i + 1) bf h,
)

start-contains :
    (hashes : String → ℕ × ℕ × ℕ) (z : Sizing) (c : BloomConfig) (call : Call) (x : String) (n : ℕ)
    → (start_filter z c).hash_count ≡ suc n
    → validate_item x ≡ none
    → call.context_error ≡ none
    → call.locked_error ≡ none
    → (contains hashes (start_filter z c) call x).1 ≡ ok false
unfolding get_hash_positions positions_from
start-contains hashes z c call x n positive valid live locked =
    let start = start_filter z c in
    let none_set : may_contain hashes start x ≡ false =
      ap (λ h. all_set start.bitset (positions_from hashes h 0 start.size x)) positive
      ∙ all_set-replicate start.size _ (positions_from hashes n 1 start.size x) in
    contains-answer hashes start call x refl valid live locked ∙ ap ok none_set

-- A restart loses every item. A filter that finds in the store, at each of its attempts, what
-- another one has saved there loads nothing of it: whatever was put into the other one, and whatever
-- the sizes of the two, the new filter has no bit set, counts no item, and answers for every valid
-- item, with a live context, that it is not there.
pub new_bloom_filter-forgets :
    (hashes : String → ℕ × ℕ × ℕ) (base64 : List ℕ → String) (z : Sizing) (c : BloomConfig)
    (env : ℕ → Fetched) (old bf : BloomFilter) (call : Call) (x : String)
    → new_bloom_filter z (some c) env ≡ ok bf
    → c.has_store ≡ true
    → ((j : ℕ) → env j ≡ fields (serialize_state base64 old))
    → validate_item x ≡ none
    → call.context_error ≡ none
    → call.locked_error ≡ none
    → (bf.bitset ≡ replicate bf.size false)
      × (bf.item_count ≡ 0)
      × ((contains hashes bf call x).1 ≡ ok false)
new_bloom_filter-forgets hashes base64 z c env old bf call x made store saved valid live locked =
    let start = start_filter z c in
    let (is_loaded, sound) = new_bloom_filter-loads z c env bf made store in
    let same : bf ≡ start = is_loaded ∙ load_attempts-saved base64 old env 2 0 start saved in
    let positive : start.hash_count ≡ suc (start.hash_count - 1) =
      omega (arith, sound.hashes_pos) in
    (
      ap (λ b. b.bitset) same ∙ ap (λ b. replicate b.size false) (sym same),
      ap (λ b. b.item_count) same,
      ap (λ b. (contains hashes b call x).1) same
          ∙ start-contains hashes z c call x (start.hash_count - 1) positive valid live locked,
    )
