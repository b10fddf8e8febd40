-- ===== src/Bloom/Limits.antt =====
-- The filter at its capacity, and after `Clear`.
use Prim.Native.String.{String}
use go_patternx.Base.{
  ℕ, List, Option, ◌==◌, ◌≡◌, ◌≤◌, ◌+◌, false, none, length, some, ◌<◌, arith, ◌∷◌, [], refl,
  if◌then◌else◌, suc, length-replicate, ltb, replicate, word, ◌*◌, ◌%◌, zero,
}
use go_patternx.Bloom.{
  add, BloomFilter, add_locked, Call, insert, GoError, validate_batch, validate_item, wrapped,
  capacity_exceeded, get_hash_positions, positions_from, all_set, set_bits,
}
use go_patternx.Bloom.Batch.{add_batch, add_items, clear, add_batch_locked}
use go_patternx.Bloom.Keeping.{IsValid, may_contain, insert-IsValid, insert-Keeps}
use go_patternx.Bloom.Bits.{all_set-replicate}

module _ (hashes : String → ℕ × ℕ × ℕ) where
  -- On an open, valid filter, with a valid item and a live context: below the capacity `Add`
  -- returns nil, sets the bits of the item and counts it; at the capacity it returns
  -- ErrCapacityExceeded and leaves the bits and the count as they are.
  pub add-capacity :
      (bf : BloomFilter) (c : Call) (x : String)
      → IsValid bf
      → (bf.closed == 1) ≡ false
      → validate_item x ≡ none
      → c.context_error ≡ none
      → c.locked_error ≡ none
      → let (done, e) = add hashes bf c x in
        (e ≡ (if ltb bf.item_count bf.max_items then none else some (wrapped capacity_exceeded)))
        × (done.item_count
            ≡ (if ltb bf.item_count bf.max_items then bf.item_count + 1 else bf.item_count))
        × (done.bitset ≡ (
            if ltb bf.item_count bf.max_items
            then set_bits bf.bitset (get_hash_positions hashes bf x)
            else bf.bitset))
  unfolding add add_locked insert
  add-capacity bf c x v o i p q = ground (arith, v.max_word)

  insert-fills :
      (bf : BloomFilter) (x : String) (n : ℕ)
      → IsValid bf
      → bf.item_count < bf.max_items
      → bf.max_items ≤ bf.item_count + suc n
      → (insert hashes bf x).max_items ≤ (insert hashes bf x).item_count + n
  unfolding insert
  insert-fills bf x n v p h = omega (arith, v.max_word)

  add_items-saturates :
      (i : ℕ) (xs : List String) (added : ℕ) (bf : BloomFilter)
      → IsValid bf
      → bf.max_items ≤ bf.item_count + length xs
      → let (done, n, e) = add_items hashes (λ k. none) i xs added bf in
        (e ≡ none) × (done.item_count ≡ bf.max_items)
  unfolding add_items
  add_items-saturates i [] added bf v h = (refl, omega (arith, v.count_max))
  add_items-saturates i (x ∷ xs) added bf v h = ground (
    arith,
    v.count_max,
    (insert-Keeps hashes bf x v).same_max,
    λ (p : bf.item_count < bf.max_items).
        add_items-saturates (i + 1) xs (added + 1) (insert hashes bf x)
          (insert-IsValid hashes bf x v p) (insert-fills bf x (length xs) v p h),
  )

  -- `AddBatch` never reports a full filter: on an open, valid filter, with a valid batch and a
  -- live context, and at least as many items as there is room for, it returns nil and fills the
  -- filter exactly to its capacity.
  pub add_batch-saturates :
      (bf : BloomFilter) (c : Call) (xs : List String)
      → IsValid bf
      → (bf.closed == 1) ≡ false
      → validate_batch xs ≡ none
      → c.context_error ≡ none
      → c.locked_error ≡ none
      → bf.max_items ≤ bf.item_count + length xs
      → let (done, e) = add_batch hashes bf c (λ k. none) xs in
        (e ≡ none) × (done.item_count ≡ bf.max_items)
  unfolding add_batch add_batch_locked
  add_batch-saturates bf c xs v o i p q h = ground (arith, add_items-saturates 0 xs 0 bf v h)

  empty_finds :
      (n size m : ℕ) (x : String)
      → 0 < n
      → all_set (replicate size false) (positions_from hashes n 0 m x) ≡ false
  unfolding positions_from
  empty_finds zero size m x h = elim h [ ]
  empty_finds (suc n) size m x h =
      let (h1, h2, h3) = hashes x in
      all_set-replicate size (word (h1 + 0 * h2 + 0 * 0 * h3) % m) (positions_from hashes n 1 m x)

  -- `Clear` on an open, valid filter with a live context leaves a valid filter that counts
  -- nothing and finds no item at all, even if the store fails to delete its copy.
  pub clear-forgets :
      (bf : BloomFilter) (del : Option GoError) (x : String)
      → IsValid bf
      → (bf.closed == 1) ≡ false
      → let (done, e) = clear bf none del in
        IsValid done × (done.item_count ≡ 0) × (may_contain hashes done x ≡ false)
  unfolding clear get_hash_positions
  clear-forgets bf del x v o = ground (
    arith,
    empty_finds bf.hash_count (length bf.bitset) bf.size x v.hashes_pos,
    length-replicate (length bf.bitset) false,
    v,
  )
