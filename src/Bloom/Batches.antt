-- ===== src/Bloom/Batches.antt =====
-- What `AddBatch` and `ContainsBatch` do with each of their items.
use package.text.Mathlib.Text.{◌==◌ as str_eq}
use text.Mathlib.TextEquality.{eq_iff}
use mathlib.Core.Path.{subst}
use Prim.Native.String.{String}
use go_patternx.Bloom.Batch.{
  result_of, put_result, add_batch, add_batch_locked, add_items, contains_batch, contains_items,
}
use go_patternx.Base.{
  ℕ, Bool, Option, List, ◌<◌, ◌≡◌, ◌+◌, if◌then◌else◌, none, ◌∷◌, arith, length, some, suc, true,
  [], ◌≤◌, All, sym, ap, ◌∙◌, false, refl, ◌||◌,
}
use go_patternx.Bloom.{insert, BloomFilter, GoError, Call, ok}
use go_patternx.Bloom.Keeping.{
  IsValid, may_contain, may_contain-Keeps, insert-IsValid, insert-may_contain, Keeps,
}
use go_patternx.Bloom.Answers.{Same, Same-Keeps}
use go_patternx.Bloom.Runs.{add_items-Good}

same_key : (z x y : String) → str_eq z x ≡ true → str_eq z y ≡ str_eq x y
same_key z x y h = ap (λ k. str_eq k y) ((eq_iff z x).0 h)

key_trans : (z y x : String) → str_eq z y ≡ true → str_eq x y ≡ true → str_eq z x ≡ true
key_trans z y x h k = (eq_iff z x).1 ((eq_iff z y).0 h ∙ sym ((eq_iff x y).0 k))

-- Whether the string is one of the list.
abbrev pub is_member : String → List String → Bool
is_member y [] = false
is_member y (x ∷ xs) = str_eq x y || is_member y xs

-- A key that is put into the result of `ContainsBatch` has that value, and the others keep theirs.
result_of-put_result :
    (x y : String) (b : Bool) (m : List (String × Bool))
    → result_of y (put_result x b m) ≡ (if str_eq x y then some b else result_of y m)
unfolding result_of put_result
result_of-put_result x y b [] = refl
result_of-put_result x y b ((z, c) ∷ m) =
    ground (arith, same_key z x y, key_trans z y x, result_of-put_result x y b m)

module _ (hashes : String → ℕ × ℕ × ℕ) where
  add_items-keeps_may :
      (checks : ℕ → Option GoError) (i : ℕ) (xs : List String) (added : ℕ) (bf : BloomFilter)
      (x : String)
      → IsValid bf
      → may_contain hashes bf x ≡ true
      → may_contain hashes (add_items hashes checks i xs added bf).0 x ≡ true
  add_items-keeps_may checks i xs added bf x v h =
      may_contain-Keeps hashes x (add_items-Good hashes checks i xs added bf v).1 h

  add_items-step :
      (checks : ℕ → Option GoError) (i : ℕ) (x : String) (xs : List String) (added : ℕ)
      (bf : BloomFilter)
      → bf.item_count < bf.max_items
      → (add_items hashes checks i (x ∷ xs) added bf).2 ≡ none
      → add_items hashes checks i (x ∷ xs) added bf
        ≡ add_items hashes checks (i + 1) xs (added + 1) (insert hashes bf x)
  unfolding add_items
  add_items-step checks i x xs added bf p h = ground arith

  insert-item_count :
      (bf : BloomFilter) (x : String)
      → IsValid bf
      → bf.item_count < bf.max_items
      → (insert hashes bf x).item_count ≡ bf.item_count + 1
  unfolding insert
  insert-item_count bf x v h = omega (arith, v.max_word)

  room-insert :
      (bf : BloomFilter) (x : String) (n : ℕ)
      → IsValid bf
      → bf.item_count + suc n ≤ bf.max_items
      → (insert hashes bf x).item_count + n ≤ (insert hashes bf x).max_items
  unfolding insert
  room-insert bf x n v h = omega (arith, v.max_word)

  add_items-All :
      (checks : ℕ → Option GoError) (i : ℕ) (xs : List String) (added : ℕ) (bf : BloomFilter)
      → IsValid bf
      → bf.item_count + length xs ≤ bf.max_items
      → (add_items hashes checks i xs added bf).2 ≡ none
      → All (λ x. may_contain hashes (add_items hashes checks i xs added bf).0 x ≡ true) xs
        × ((add_items hashes checks i xs added bf).0.item_count ≡ bf.item_count + length xs)
  unfolding add_items
  add_items-All checks i [] added bf v r h = (tt, omega arith)
  add_items-All checks i (x ∷ xs) added bf v r h =
      let p : bf.item_count < bf.max_items = omega (arith, r) in
      let w = insert-IsValid hashes bf x v p in
      let e = add_items-step checks i x xs added bf p h in
      let n = insert-item_count bf x v p in
      let (held, count) =
        add_items-All checks (i + 1) xs (added + 1) (insert hashes bf x) w
          (room-insert bf x (length xs) v r) (sym (ap (λ t. t.2) e) ∙ h) in
      subst
        (λ t.
          All (λ y. may_contain hashes t.0 y ≡ true) (x ∷ xs)
          × (t.0.item_count ≡ bf.item_count + length (x ∷ xs)))
        (sym e)
        (
          (
            add_items-keeps_may checks (i + 1) xs (added + 1) (insert hashes bf x) x w
                (insert-may_contain hashes bf x v),
            held,
          ),
          count ∙ omega (arith, n),
        )

  add_batch_locked-items :
      (bf : BloomFilter) (c : Call) (checks : ℕ → Option GoError) (xs : List String)
      → (add_batch_locked hashes bf c checks xs).1 ≡ none
      → let (r, added, e) = add_items hashes checks 0 xs 0 bf in
        let done = (add_batch_locked hashes bf c checks xs).0 in
        (e ≡ none) × Same hashes r done × (done.item_count ≡ r.item_count)
  unfolding add_batch_locked
  add_batch_locked-items bf c checks xs h = ground arith

  add_batch-items :
      (bf : BloomFilter) (c : Call) (checks : ℕ → Option GoError) (xs : List String)
      → (add_batch hashes bf c checks xs).1 ≡ none
      → let (r, added, e) = add_items hashes checks 0 xs 0 bf in
        let done = (add_batch hashes bf c checks xs).0 in
        (e ≡ none) × Same hashes r done × (done.item_count ≡ r.item_count)
  unfolding add_batch
  add_batch-items bf c checks xs h = ground (arith, add_batch_locked-items bf c checks xs)

  All-may_contain-Keeps :
      {bf bf' : BloomFilter}
      → Keeps bf bf'
      → (xs : List String) → All (λ x. may_contain hashes bf x ≡ true) xs
      → All (λ x. may_contain hashes bf' x ≡ true) xs
  All-may_contain-Keeps k [] h = tt
  All-may_contain-Keeps k (x ∷ xs) h =
      (may_contain-Keeps hashes x k h.0, All-may_contain-Keeps k xs h.1)

  -- On a valid filter, a batch for which there is room and on which `AddBatch` returns nil
  -- leaves each of its items in the filter, and counts each.
  pub add_batch-All :
      (bf : BloomFilter) (c : Call) (checks : ℕ → Option GoError) (xs : List String)
      → IsValid bf
      → bf.item_count + length xs ≤ bf.max_items
      → (add_batch hashes bf c checks xs).1 ≡ none
      → All (λ x. may_contain hashes (add_batch hashes bf c checks xs).0 x ≡ true) xs
        × ((add_batch hashes bf c checks xs).0.item_count ≡ bf.item_count + length xs)
  add_batch-All bf c checks xs v r h =
      let (e, same, n) = add_batch-items bf c checks xs h in
      let (held, count) = add_items-All checks 0 xs 0 bf v r e in
      (All-may_contain-Keeps (Same-Keeps hashes same) xs held, n ∙ count)

  same_answer :
      (bf : BloomFilter) (x y : String)
      → str_eq x y ≡ true
      → may_contain hashes bf x ≡ may_contain hashes bf y
  same_answer bf x y h = ap (may_contain hashes bf) ((eq_iff x y).0 h)

  contains_items-result :
      (bf : BloomFilter) (checks : ℕ → Option GoError) (i : ℕ) (xs : List String)
      (m out : List (String × Bool)) (y : String)
      → contains_items hashes bf checks i xs m ≡ ok out
      → result_of y out ≡ (if is_member y xs then some (may_contain hashes bf y) else result_of y m)
  unfolding contains_items
  contains_items-result bf checks i [] m out y h = ground arith
  contains_items-result bf checks i (x ∷ xs) m out y h = ground (
    arith,
    contains_items-result bf checks (i + 1) xs (put_result x (may_contain hashes bf x) m) out y,
    result_of-put_result x y (may_contain hashes bf x) m,
    same_answer bf x y,
  )

  -- A map that `ContainsBatch` returns has exactly the items of the batch as its keys, and says
  -- of each whether all its bits are set, as `Contains` does.
  pub contains_batch-result :
      (bf : BloomFilter) (c : Call) (checks : ℕ → Option GoError) (xs : List String)
      (out : List (String × Bool)) (y : String)
      → (contains_batch hashes bf c checks xs).1 ≡ ok out
      → result_of y out ≡ (if is_member y xs then some (may_contain hashes bf y) else none)
  unfolding contains_batch result_of
  contains_batch-result bf c checks xs out y h =
      ground (arith, contains_items-result bf checks 0 xs [] out y)
