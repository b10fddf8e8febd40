-- ===== src/Bloom/Bits.antt =====
-- The bitset of a filter, bit by bit.
use go_patternx.Base.{
  List, ℕ, Bool, get_or, replicate, ◌<◌, All, false, length, ◌≡◌, set, suc, true, ◌||◌, ◌∷◌, ◌==◌,
  arith, zero, ◌∙◌, [], ap, length-set, refl,
}
use go_patternx.Bloom.{all_set, set_bits}

-- Whether the bit `j` is among the positions.
abbrev pub is_marked : ℕ → List ℕ → Bool
is_marked j [] = false
is_marked j (p ∷ ps) = p == j || is_marked j ps

pub get_or-set :
    (bs : List Bool) (p j : ℕ)
    → p < length bs
    → get_or (set bs p true) j false ≡ (p == j || get_or bs j false)
get_or-set [] p j h = elim h [ ]
get_or-set (b ∷ bs) zero zero h = ground arith
get_or-set (b ∷ bs) zero (suc j) h = ground arith
get_or-set (b ∷ bs) (suc p) zero h = ground arith
get_or-set (b ∷ bs) (suc p) (suc j) h = ground (arith, get_or-set bs p j)

-- A bit is set after an insertion exactly if it was set before or is one of the positions.
pub get_or-set_bits :
    (bs : List Bool) (ps : List ℕ) (j : ℕ)
    → All (λ p. p < length bs) ps
    → get_or (set_bits bs ps) j false ≡ (is_marked j ps || get_or bs j false)
unfolding set_bits
get_or-set_bits bs [] j h = refl
get_or-set_bits bs (p ∷ ps) j h = ground (
  arith,
  get_or-set_bits (set bs p true) ps j (rw (length-set bs p true) h.1),
  get_or-set bs p j h.0,
)

pub length-set_bits : (bs : List Bool) (ps : List ℕ) → length (set_bits bs ps) ≡ length bs
unfolding set_bits
length-set_bits bs [] = refl
length-set_bits bs (p ∷ ps) = length-set_bits (set bs p true) ps ∙ length-set bs p true

pub all_set_mono :
    (bs cs : List Bool) (ps : List ℕ)
    → ((j : ℕ) → get_or bs j false ≡ true → get_or cs j false ≡ true)
    → all_set bs ps ≡ true
    → all_set cs ps ≡ true
unfolding all_set
all_set_mono bs cs [] m h = refl
all_set_mono bs cs (p ∷ ps) m h = ground (arith, m p, all_set_mono bs cs ps m)

all_set-All :
    (bs : List Bool) (ps : List ℕ) → All (λ p. get_or bs p false ≡ true) ps → all_set bs ps ≡ true
unfolding all_set
all_set-All bs [] h = refl
all_set-All bs (p ∷ ps) h = ground (arith, all_set-All bs ps h.1)

marked_self :
    (bs : List Bool) (ps qs : List ℕ)
    → ((j : ℕ) → is_marked j ps ≡ true → is_marked j qs ≡ true)
    → All (λ p. p < length bs) qs
    → All (λ p. get_or (set_bits bs qs) p false ≡ true) ps
marked_self bs [] qs sub h = tt
marked_self bs (p ∷ ps) qs sub h = (
  get_or-set_bits bs qs p h ∙ ap (λ b. b || get_or bs p false) (sub p (ground arith)),
  marked_self bs ps qs (λ j m. sub j (ground arith)) h,
)

-- After an insertion all its positions are set.
pub all_set-set_bits :
    (bs : List Bool) (ps : List ℕ)
    → All (λ p. p < length bs) ps
    → all_set (set_bits bs ps) ps ≡ true
all_set-set_bits bs ps h = all_set-All (set_bits bs ps) ps (marked_self bs ps ps (λ j m. m) h)

pub get_or-replicate : (n j : ℕ) → get_or (replicate n false) j false ≡ false
get_or-replicate zero j = refl
get_or-replicate (suc n) zero = refl
get_or-replicate (suc n) (suc j) = get_or-replicate n j

-- In a bitset with no bit set nothing with a position is found.
pub all_set-replicate : (n p : ℕ) (ps : List ℕ) → all_set (replicate n false) (p ∷ ps) ≡ false
unfolding all_set
all_set-replicate n p ps = rw (get_or-replicate n p)
