-- ===== src/Bloom/Answers.antt =====
-- What a filter answers about the items that were added.

use Prim.Native.String.{String}
use go_patternx.Base.{ℕ, ◌==◌, List, ◌≡◌, false, none, true, arith, ◌∙◌, ap}
use go_patternx.Bloom.{BloomFilter, add, contains, Call, add_locked, insert, validate_item, ok}
use go_patternx.Bloom.Keeping.{
  may_contain, IsValid, may_contain-Keeps, insert-may_contain, Keeps, Keeps-trans,
}
use go_patternx.Bloom.Runs.{Op, run, run-Good, add-Good}

module _ (hashes : String → ℕ × ℕ × ℕ) where
  -- What a filter shares with another, all but its metrics, its store and its count.
  abbrev pub Same : BloomFilter → BloomFilter → Type 0
  Same bf bf' =
      (bf'.bitset ≡ bf.bitset)
      × (bf'.size ≡ bf.size)
      × (bf'.hash_count ≡ bf.hash_count)
      × (bf'.max_items ≡ bf.max_items)
      × (bf'.closed ≡ bf.closed)

  pub Same-Keeps : {bf bf' : BloomFilter} → Same bf bf' → Keeps bf bf'
  Same-Keeps (b, s, h, m, c) = record {
    same_size = s;
    same_hashes = h;
    same_max = m;
    same_closed = c;
    more_bits = λ j g. rw b g;
  }

  add_locked-insert :
      (bf : BloomFilter) (c : Call) (x : String)
      → (add_locked hashes bf c x).1 ≡ none
      → Same (insert hashes bf x) (add_locked hashes bf c x).0
  unfolding add_locked insert
  add_locked-insert bf c x h = ground arith

  add-insert :
      (bf : BloomFilter) (c : Call) (x : String)
      → (add hashes bf c x).1 ≡ none
      → Same (insert hashes bf x) (add hashes bf c x).0
        × (validate_item x ≡ none)
        × ((bf.closed == 1) ≡ false)
  unfolding add
  add-insert bf c x h = ground (arith, add_locked-insert bf c x)

  pub contains-answer :
      (bf : BloomFilter) (c : Call) (x : String)
      → (bf.closed == 1) ≡ false
      → validate_item x ≡ none
      → c.context_error ≡ none
      → c.locked_error ≡ none
      → (contains hashes bf c x).1 ≡ ok (may_contain hashes bf x)
  unfolding contains
  contains-answer bf c x o v h l = ground (arith)

  -- No false negatives: once `Add` on a valid filter has returned nil for an item, then after
  -- any further calls other than `Clear` and `Close`, whether they fail or not, `Contains` with
  -- a context that is live throughout answers true for it.
  pub add-contains :
      (bf : BloomFilter) (a c : Call) (x : String) (os : List Op)
      → IsValid bf
      → (add hashes bf a x).1 ≡ none
      → c.context_error ≡ none
      → c.locked_error ≡ none
      → (contains hashes (run hashes (add hashes bf a x).0 os) c x).1 ≡ ok true
  unfolding insert
  add-contains bf a c x os v h live locked =
      let (same, ok_item, is_open) = add-insert bf a x h in
      let k =
        Keeps-trans (Same-Keeps same)
          (run-Good hashes (add hashes bf a x).0 os (add-Good hashes bf a x v).0).1 in
      contains-answer (run hashes (add hashes bf a x).0 os) c x (rw k.same_closed is_open) ok_item
        live locked
      ∙ ap ok (may_contain-Keeps hashes x k (insert-may_contain hashes bf x v))
