-- ===== src/Bloom/Refinement.antt =====
-- A filter as what it stands for: the items that were put in.
use Prim.Native.String.{String}
use go_patternx.Base.{
  ℕ, List, ◌++◌, [], ◌≡◌, Bool, get_or, suc, ◌||◌, ◌∙◌, ◌∷◌, ◌<◌, arith, false, zero, ◌+◌, refl,
  length, Option, length-append, ◌-◌, some, none, incr, ◌==◌, true, ◌&&◌, ap,
}
use go_patternx.Bloom.{
  BloomFilter, insert, get_hash_positions, positions_from, add, BloomMetrics, Call, add_locked,
  GoError, persist, update_add_metrics, contains, all_set, validate_item, ok,
}
use go_patternx.Bloom.Runs.{
  Op, adds, apply_op, adds_batch, looks_up, looks_up_batch, run, apply_op-Good, run-Good,
}
use go_patternx.Bloom.Keeping.{IsValid, positions-below, insert-IsValid}
use go_patternx.Bloom.Bits.{get_or-set_bits, is_marked}
use go_patternx.Bloom.Batch.{add_items, add_batch, add_batch_locked, contains_batch}
use go_patternx.Bloom.Answers.{contains-answer}

abbrev pub first : {A : Type 0} → ℕ → List A → List A
first zero xs = []
first (suc n) [] = []
first (suc n) (x ∷ xs) = x ∷ first n xs

-- Whether all the positions satisfy the test.
abbrev pub covered : (ℕ → Bool) → List ℕ → Bool
covered m [] = true
covered m (p ∷ ps) = m p && covered m ps

all_set-covered :
    (bs : List Bool) (m : ℕ → Bool) (ps : List ℕ)
    → ((j : ℕ) → get_or bs j false ≡ m j)
    → all_set bs ps ≡ covered m ps
unfolding all_set
all_set-covered bs m [] h = refl
all_set-covered bs m (p ∷ ps) h = ground (arith, h p, all_set-covered bs m ps h)

module _ (hashes : String → ℕ × ℕ × ℕ) where
  -- Whether the bit `j` is a position of one of the items.
  pub marked_by : ℕ → ℕ → ℕ → List String → Bool
  unfolding positions_from
  marked_by hash_count size j [] = false
  marked_by hash_count size j (x ∷ xs) =
      is_marked j (positions_from hashes hash_count 0 size x) || marked_by hash_count size j xs

  abbrev if_added : Option GoError → String → List String
  if_added none x = x ∷ []
  if_added (some e) x = []

  -- The items that a call puts in: that of an `Add` with no error, and of an `AddBatch` as many of
  -- the first as the count has grown.
  unfoldable pub added_by : BloomFilter → Op → List String
  added_by bf (adds c x) = if_added (add hashes bf c x).1 x
  added_by bf (adds_batch c checks xs) =
      first ((add_batch hashes bf c checks xs).0.item_count - bf.item_count) xs
  added_by bf (looks_up c x) = []
  added_by bf (looks_up_batch c checks xs) = []

  unfoldable pub added_in : BloomFilter → List Op → List String
  unfolding added_by
  added_in bf [] = []
  added_in bf (o ∷ os) = added_by bf o ++ added_in (apply_op hashes bf o) os

  -- The later filter has the bits and the count of the earlier, and those of the items.
  pub record Holds (bf bf' : BloomFilter) (xs : List String) : Type 0 where
    pub same_size : bf'.size ≡ bf.size
    pub same_hashes : bf'.hash_count ≡ bf.hash_count
    pub bits :
        (j : ℕ)
        → get_or bf'.bitset j false
          ≡ (marked_by bf.hash_count bf.size j xs || get_or bf.bitset j false)
    pub count : bf'.item_count ≡ bf.item_count + length xs

  Holds-refl : (bf : BloomFilter) → Holds bf bf []
  unfolding marked_by
  Holds-refl bf = record {
    same_size = refl;
    same_hashes = refl;
    bits = λ j. refl;
    count = omega arith;
  }

  marked_by-append :
      (h s j : ℕ) (xs ys : List String)
      → marked_by h s j (xs ++ ys) ≡ (marked_by h s j xs || marked_by h s j ys)
  unfolding marked_by
  marked_by-append h s j [] ys = refl
  marked_by-append h s j (x ∷ xs) ys = ground (arith, marked_by-append h s j xs ys)

  Holds-trans :
      {a b c : BloomFilter} {xs ys : List String}
      → Holds a b xs
      → Holds b c ys
      → Holds a c (xs ++ ys)
  Holds-trans {a} {b} {c} {xs} {ys} k l = record {
    same_size = l.same_size ∙ k.same_size;
    same_hashes = l.same_hashes ∙ k.same_hashes;
    bits = λ j.
        let same_marks : marked_by b.hash_count b.size j ys ≡ marked_by a.hash_count a.size j ys =
          rw (k.same_hashes, k.same_size) refl in
        ground
          (arith, l.bits j, k.bits j, same_marks, marked_by-append a.hash_count a.size j xs ys);
    count = ground (arith, length-append xs ys);
  }

  insert-Holds :
      (bf : BloomFilter) (x : String)
      → IsValid bf
      → bf.item_count < bf.max_items
      → Holds bf (insert hashes bf x) (x ∷ [])
  unfolding insert marked_by get_hash_positions
  insert-Holds bf x v room = record {
    same_size = refl;
    same_hashes = refl;
    bits = λ j.
        get_or-set_bits bf.bitset (get_hash_positions hashes bf x) j (positions-below hashes bf x v)
        ∙ ground arith;
    count = ground (arith, v.count_max, v.max_word);
  }

  metrics-Holds :
      {bf bf' : BloomFilter} {xs : List String} (m : BloomMetrics)
      → Holds bf bf' xs
      → Holds bf (record bf' { metrics = m }) xs
  metrics-Holds m k = record {
    same_size = k.same_size;
    same_hashes = k.same_hashes;
    bits = k.bits;
    count = k.count;
  }

  add_locked-Holds :
      (bf : BloomFilter) (c : Call) (x : String)
      → IsValid bf
      → Holds bf (add_locked hashes bf c x).0 (if_added (add_locked hashes bf c x).1 x)
  unfolding add_locked
  add_locked-Holds bf c x v = ground (
    arith,
    Holds-refl bf,
    λ (room : bf.item_count < bf.max_items).
        metrics-Holds
          (persist bf.has_store c.store
            (record (bf.metrics) { add_operations = incr bf.add_operations }))
          (insert-Holds bf x v room),
  )

  add-Holds :
      (bf : BloomFilter) (c : Call) (x : String)
      → IsValid bf
      → Holds bf (add hashes bf c x).0 (if_added (add hashes bf c x).1 x)
  unfolding add
  add-Holds bf c x v = ground (
    arith,
    Holds-refl bf,
    metrics-Holds (update_add_metrics (add_locked hashes bf c x).0.metrics c.elapsed c.now)
        (add_locked-Holds bf c x v),
  )

  unchanged :
      (bf : BloomFilter) (xs : List String) → Holds bf bf (first (bf.item_count - bf.item_count) xs)
  unchanged bf xs =
      let none_more : bf.item_count - bf.item_count ≡ 0 = omega arith in
      rw none_more (Holds-refl bf)

  -- An item that is put in before others.
  one_more-Holds :
      (bf done : BloomFilter) (x : String) (xs : List String)
      → IsValid bf
      → bf.item_count < bf.max_items
      → Holds
          (insert hashes bf x)
          done
          (first (done.item_count - (insert hashes bf x).item_count) xs)
      → Holds bf done (first (done.item_count - bf.item_count) (x ∷ xs))
  one_more-Holds bf done x xs v room rest =
      let put = insert-Holds bf x v room in
      let after = insert hashes bf x in
      let grown : done.item_count - bf.item_count ≡ suc (done.item_count - after.item_count) =
        omega (arith, put.count, rest.count) in
      rw grown (Holds-trans put rest)

  add_items-Holds :
      (checks : ℕ → Option GoError) (i : ℕ) (xs : List String) (added : ℕ) (bf : BloomFilter)
      → IsValid bf
      → Holds bf
          (add_items hashes checks i xs added bf).0
          (first ((add_items hashes checks i xs added bf).0.item_count - bf.item_count) xs)
  unfolding add_items
  add_items-Holds checks i [] added bf v = unchanged bf []
  add_items-Holds checks i (x ∷ xs) added bf v = ground (
    arith,
    unchanged bf (x ∷ xs),
    λ (room : bf.item_count < bf.max_items).
        one_more-Holds bf (add_items hashes checks (i + 1) xs (added + 1) (insert hashes bf x)).0 x
          xs v room
          (add_items-Holds checks (i + 1) xs (added + 1) (insert hashes bf x)
            (insert-IsValid hashes bf x v room)),
  )

  add_batch_locked-Holds :
      (bf : BloomFilter) (c : Call) (checks : ℕ → Option GoError) (xs : List String)
      → IsValid bf
      → Holds bf
          (add_batch_locked hashes bf c checks xs).0
          (first ((add_batch_locked hashes bf c checks xs).0.item_count - bf.item_count) xs)
  unfolding add_batch_locked
  add_batch_locked-Holds bf c checks xs v =
      ground (arith, unchanged bf xs, add_items-Holds checks 0 xs 0 bf v)

  add_batch-Holds :
      (bf : BloomFilter) (c : Call) (checks : ℕ → Option GoError) (xs : List String)
      → IsValid bf
      → Holds bf
          (add_batch hashes bf c checks xs).0
          (first ((add_batch hashes bf c checks xs).0.item_count - bf.item_count) xs)
  unfolding add_batch
  add_batch-Holds bf c checks xs v =
      ground (arith, unchanged bf xs, add_batch_locked-Holds bf c checks xs v)

  contains-Holds :
      (bf : BloomFilter) (c : Call) (x : String) → Holds bf (contains hashes bf c x).0 []
  unfolding contains
  contains-Holds bf c x = ground (arith, Holds-refl bf)

  contains_batch-Holds :
      (bf : BloomFilter) (c : Call) (checks : ℕ → Option GoError) (xs : List String)
      → Holds bf (contains_batch hashes bf c checks xs).0 []
  unfolding contains_batch
  contains_batch-Holds bf c checks xs = ground (arith, Holds-refl bf)

  apply_op-Holds :
      (bf : BloomFilter) (o : Op) → IsValid bf → Holds bf (apply_op hashes bf o) (added_by bf o)
  unfolding apply_op added_by
  apply_op-Holds bf (adds c x) v = add-Holds bf c x v
  apply_op-Holds bf (adds_batch c checks xs) v = add_batch-Holds bf c checks xs v
  apply_op-Holds bf (looks_up c x) v = contains-Holds bf c x
  apply_op-Holds bf (looks_up_batch c checks xs) v = contains_batch-Holds bf c checks xs

  -- Whatever calls are made on a valid filter, other than `Clear`, and whether they fail or not, the
  -- filter stands for the items that were put in: a bit is set exactly if it was set before or is
  -- a position of one of them, and the count has grown by their number. They are those of the
  -- calls of `Add` that returned nil and, of each `AddBatch`, the first ones of the batch.
  pub run-Holds :
      (bf : BloomFilter) (os : List Op) → IsValid bf → Holds bf (run hashes bf os) (added_in bf os)
  unfolding run added_in
  run-Holds bf [] v = Holds-refl bf
  run-Holds bf (o ∷ os) v =
      Holds-trans (apply_op-Holds bf o v)
        (run-Holds (apply_op hashes bf o) os (apply_op-Good hashes bf o v).0)

  -- What `Contains` with a live context answers for a valid item, after whatever calls other than
  -- `Clear` and `Close` on an open and valid filter with no bit set, is decided by the items that
  -- were put in alone: it is whether each of the item's positions is a position of one of them.
  pub run-contains :
      (bf : BloomFilter) (os : List Op) (c : Call) (x : String)
      → IsValid bf
      → ((j : ℕ) → get_or bf.bitset j false ≡ false)
      → (bf.closed == 1) ≡ false
      → validate_item x ≡ none
      → c.context_error ≡ none
      → c.locked_error ≡ none
      → (contains hashes (run hashes bf os) c x).1
        ≡ ok (
            covered
              (λ j. marked_by bf.hash_count bf.size j (added_in bf os))
              (get_hash_positions hashes bf x))
  unfolding get_hash_positions
  run-contains bf os c x v clear opened valid live locked =
      let k = (run-Good hashes bf os v).1 in
      let done = run hashes bf os in
      let held = run-Holds bf os v in
      let marks = λ (j : ℕ). marked_by bf.hash_count bf.size j (added_in bf os) in
      let bits : (j : ℕ) → get_or done.bitset j false ≡ marks j =
        λ j. held.bits j ∙ ground (arith, clear j) in
      contains-answer hashes done c x (rw k.same_closed opened) valid live locked
      ∙ ap ok (
          rw (k.same_size, k.same_hashes)
            (all_set-covered done.bitset marks (positions_from hashes bf.hash_count 0 bf.size x)
              bits))
