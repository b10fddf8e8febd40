-- ===== src/Pool/Counting.antt =====
-- Sums over the workers, by where their goroutines stand.
use go_patternx.Pool.{Phase, Worker, WorkerPool}
use go_patternx.Pool.Scaling.{stop_all, stop_at}
use go_patternx.Base.{
  List, ℕ, ◌≤◌, ◌++◌, get_elem?, length, ◌≡◌, ◌∷◌, ◌+◌, [], arith, some, suc, ◌∙◌, refl, set, zero,
  Option-cases, inl, inr,
}
use go_patternx.Pool.Workers.{move, Move, advance}

pub total : (Phase → ℕ) → List Worker → ℕ
total f [] = 0
total f (w ∷ ws) = f w.phase + total f ws

pub total-append :
    (f : Phase → ℕ) (ws : List Worker) (w : Worker)
    → total f (ws ++ w ∷ []) ≡ total f ws + f w.phase
unfolding total
total-append f [] w = omega arith
total-append f (v ∷ ws) w = omega (arith, total-append f ws w)

pub total-set :
    (f : Phase → ℕ) (ws : List Worker) (i : ℕ) (w v : Worker)
    → get_elem? ws i ≡ some w
    → total f (set ws i v) + f w.phase ≡ total f ws + f v.phase
unfolding total
total-set f [] i w v h = ground arith
total-set f (u ∷ ws) zero w v h = ground arith
total-set f (u ∷ ws) (suc i) w v h = omega (arith, total-set f ws i w v h)

pub total-le :
    (f : Phase → ℕ) → ((p : Phase) → f p ≤ 1) → (ws : List Worker) → total f ws ≤ length ws
unfolding total
total-le f small [] = omega arith
total-le f small (w ∷ ws) = omega (arith, small w.phase, total-le f small ws)

-- To stop workers changes no place.
total-stop_at : (f : Phase → ℕ) (ws : List Worker) (i : ℕ) → total f (stop_at ws i) ≡ total f ws
unfolding total stop_at
total-stop_at f [] i = refl
total-stop_at f (w ∷ ws) zero = refl
total-stop_at f (w ∷ ws) (suc i) = omega (arith, total-stop_at f ws i)

pub total-stop_all :
    (f : Phase → ℕ) (is : List ℕ) (ws : List Worker) → total f (stop_all is ws) ≡ total f ws
unfolding stop_all
total-stop_all f [] ws = refl
total-stop_all f (i ∷ is) ws = total-stop_all f is (stop_at ws i) ∙ total-stop_at f ws i

length-stop_at : (ws : List Worker) (i : ℕ) → length (stop_at ws i) ≡ length ws
unfolding stop_at
length-stop_at [] i = refl
length-stop_at (w ∷ ws) zero = refl
length-stop_at (w ∷ ws) (suc i) = omega (arith, length-stop_at ws i)

pub length-stop_all : (is : List ℕ) (ws : List Worker) → length (stop_all is ws) ≡ length ws
unfolding stop_all
length-stop_all [] ws = refl
length-stop_all (i ∷ is) ws = length-stop_all is (stop_at ws i) ∙ length-stop_at ws i

-- A step of a goroutine, taken apart: the worker before and after it, and the rest of the pool.
pub move_parts :
    (wp wp' : WorkerPool) (k : ℕ) (m : Move)
    → move wp k m ≡ some wp'
    → (w : Worker) × (v : Worker) × (done : WorkerPool) × (get_elem? wp.made k ≡ some w)
      × (advance wp w m ≡ some (v, done))
      × (wp' ≡ record done { made = set wp.made k v })
unfolding move
move_parts wp wp' k m h = elim (Option-cases (get_elem? wp.made k)) [
  | inl absent ↦ ground arith
  | inr (w, found) ↦ elim (Option-cases (advance wp w m)) [
    | inl stays ↦ ground arith
    | inr ((v, done), goes) ↦ (w, v, done, found, goes, ground arith)
  ]
]

pub total-empty : (f : Phase → ℕ) → total f [] ≡ 0
unfolding total
total-empty f = refl
