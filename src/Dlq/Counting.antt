-- ===== src/Dlq/Counting.antt =====
-- Sums over the workers and the channel of a dead letter queue.
use go_patternx.Base.{
  List, Option, ℕ, ◌++◌, get_elem?, ◌∷◌, ◌+◌, some, ◌≡◌, [], arith, length, replicate, set,
  Option-cases, none, refl, suc, inl, zero, inr,
}
use go_patternx.Dlq.{Place, remove_at, DeadLetterQueue, receiving}
use go_patternx.Dlq.Workers.{move, Move, advance}

pub total : (Place → ℕ) → List Place → ℕ
total f [] = 0
total f (p ∷ ps) = f p + total f ps

pub total-set :
    (f : Place → ℕ) (ps : List Place) (i : ℕ) (p q : Place)
    → get_elem? ps i ≡ some p
    → total f (set ps i q) + f p ≡ total f ps + f q
unfolding total
total-set f [] i p q h = ground arith
total-set f (r ∷ ps) zero p q h = ground arith
total-set f (r ∷ ps) (suc i) p q h = omega (arith, total-set f ps i p q h)

-- No worker holds anything at the start.
pub total-replicate :
    (f : Place → ℕ) (n : ℕ) → f receiving ≡ 0 → total f (replicate n receiving) ≡ 0
unfolding total
total-replicate f zero h = refl
total-replicate f (suc n) h = omega (arith, total-replicate f n h)

-- The entries of the channel that are not nil.
unfoldable pub real_entries : List (Option ℕ) → ℕ
real_entries [] = 0
real_entries (none ∷ c) = real_entries c
real_entries (some a ∷ c) = 1 + real_entries c

pub real_entries-append :
    (c d : List (Option ℕ)) → real_entries (c ++ d) ≡ real_entries c + real_entries d
unfolding real_entries
real_entries-append [] d = omega arith
real_entries-append (none ∷ c) d = real_entries-append c d
real_entries-append (some a ∷ c) d = omega (arith, real_entries-append c d)

pub length-remove_at :
    (rest : List ℕ) (k a : ℕ)
    → get_elem? rest k ≡ some a
    → length (remove_at k rest) + 1 ≡ length rest
unfolding remove_at
length-remove_at [] k a h = ground arith
length-remove_at (b ∷ rest) zero a h = omega arith
length-remove_at (b ∷ rest) (suc k) a h = omega (arith, length-remove_at rest k a h)

-- A step of a goroutine, taken apart: its place before and after it, and the rest of the queue.
pub move_parts :
    (d d' : DeadLetterQueue) (k : ℕ) (m : Move)
    → move d k m ≡ some d'
    → (p : Place) × (q : Place) × (done : DeadLetterQueue) × (get_elem? d.workers k ≡ some p)
      × (advance d p m ≡ some (q, done))
      × (d' ≡ record done { workers = set d.workers k q })
unfolding move
move_parts d d' k m h = elim (Option-cases (get_elem? d.workers k)) [
  | inl absent ↦ ground arith
  | inr (p, found) ↦ elim (Option-cases (advance d p m)) [
    | inl stays ↦ ground arith
    | inr ((q, done), goes) ↦ (p, q, done, found, goes, ground arith)
  ]
]
