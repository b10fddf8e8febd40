-- ===== src/Bloom/Keeping.antt =====
-- What the operations of a filter, other than `Clear`, leave in place.
use go_patternx.Bloom.{BloomFilter, get_hash_positions, insert, positions_from, all_set}
use Prim.Native.String.{String}
use go_patternx.Base.{
  length, ℕ, ◌∙◌, ◌≡◌, ◌<◌, Bool, get_or, All, false, true, ◌≤◌, ◌^◌, arith, refl, suc, ◌+◌, zero,
}
use go_patternx.Bloom.Bits.{get_or-set_bits, length-set_bits, all_set_mono, all_set-set_bits}

-- The bits lie within the bitset, and the count within the capacity.
pub record IsValid (bf : BloomFilter) : Type 0 where
  pub bits : length bf.bitset ≡ bf.size
  pub size_pos : 0 < bf.size
  pub hashes_pos : 0 < bf.hash_count
  pub count_max : bf.item_count ≤ bf.max_items
  pub max_word : bf.max_items < 2 ^ 64

-- The later filter has every bit of the earlier, and its parameters.
pub record Keeps (bf bf' : BloomFilter) : Type 0 where
  pub same_size : bf'.size ≡ bf.size
  pub same_hashes : bf'.hash_count ≡ bf.hash_count
  pub same_max : bf'.max_items ≡ bf.max_items
  pub same_closed : bf'.closed ≡ bf.closed
  pub more_bits : (j : ℕ) → get_or bf.bitset j false ≡ true → get_or bf'.bitset j false ≡ true

pub Keeps-refl : (bf : BloomFilter) → Keeps bf bf
Keeps-refl bf = record {
  same_size = refl;
  same_hashes = refl;
  same_max = refl;
  same_closed = refl;
  more_bits = λ j h. h;
}

pub Keeps-trans : {a b c : BloomFilter} → Keeps a b → Keeps b c → Keeps a c
Keeps-trans k l = record {
  same_size = l.same_size ∙ k.same_size;
  same_hashes = l.same_hashes ∙ k.same_hashes;
  same_max = l.same_max ∙ k.same_max;
  same_closed = l.same_closed ∙ k.same_closed;
  more_bits = λ j h. l.more_bits j (k.more_bits j h);
}

module _ (hashes : String → ℕ × ℕ × ℕ) where
  positions_from-below :
      (n i size : ℕ) (item : String)
      → 0 < size
      → All (λ p. p < size) (positions_from hashes n i size item)
  unfolding positions_from
  positions_from-below zero i size item h = tt
  positions_from-below (suc n) i size item h =
      (omega arith, positions_from-below n (i + 1) size item h)

  -- Every position is one of the bitset.
  pub positions-below :
      (bf : BloomFilter) (item : String)
      → IsValid bf
      → All (λ p. p < length bf.bitset) (get_hash_positions hashes bf item)
  unfolding get_hash_positions
  positions-below bf item v =
      rw v.bits (positions_from-below bf.hash_count 0 bf.size item v.size_pos)

  pub insert-Keeps :
      (bf : BloomFilter) (item : String) → IsValid bf → Keeps bf (insert hashes bf item)
  unfolding insert
  insert-Keeps bf item v = record {
    same_size = refl;
    same_hashes = refl;
    same_max = refl;
    same_closed = refl;
    more_bits = λ j h.
        get_or-set_bits bf.bitset (get_hash_positions hashes bf item) j (positions-below bf item v)
        ∙ ground arith;
  }

  pub insert-IsValid :
      (bf : BloomFilter) (item : String)
      → IsValid bf
      → bf.item_count < bf.max_items
      → IsValid (insert hashes bf item)
  unfolding insert
  insert-IsValid bf item v h = record {
    bits = length-set_bits bf.bitset (get_hash_positions hashes bf item) ∙ v.bits;
    size_pos = v.size_pos;
    hashes_pos = v.hashes_pos;
    count_max = omega (arith, v.count_max);
    max_word = v.max_word;
  }

  -- Whether the filter answers that it may hold the item.
  abbrev pub may_contain : BloomFilter → String → Bool
  may_contain bf item = all_set bf.bitset (get_hash_positions hashes bf item)

  pub may_contain-Keeps :
      {bf bf' : BloomFilter} (item : String)
      → Keeps bf bf'
      → may_contain bf item ≡ true
      → may_contain bf' item ≡ true
  unfolding get_hash_positions
  may_contain-Keeps {bf} {bf'} item k h =
      rw (k.same_size, k.same_hashes)
        (all_set_mono bf.bitset bf'.bitset (positions_from hashes bf.hash_count 0 bf.size item)
          k.more_bits h)

  -- An item that is put in is found.
  pub insert-may_contain :
      (bf : BloomFilter) (item : String)
      → IsValid bf
      → may_contain (insert hashes bf item) item ≡ true
  unfolding insert get_hash_positions
  insert-may_contain bf item v =
      all_set-set_bits bf.bitset (get_hash_positions hashes bf item) (positions-below bf item v)
