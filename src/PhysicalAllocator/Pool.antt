-- ===== src/PhysicalAllocator/Pool.antt =====
-- What the allocator promises: a stack of distinct free pages, the next page to hand out first.
use native.Mathlib.Decide.{ℕ_discrete}
use drastic.Base.{
  ℕ, zero, suc, ◌≤◌, ◌<◌, ◌≡◌, ◌≢◌, refl, inl, inr, Bool, true, false, ◌||◌, List, [], ◌∷◌, ◌==◌,
  if◌then◌else◌, length, Bool-cases, arith,
}

abbrev pub has : ℕ → List ℕ → Bool
has p [] = false
has p (q ∷ pages) = q == p || has p pages

-- No page occurs twice.
abbrev pub Distinct : List ℕ → Type 0
Distinct [] = Unit
Distinct (p ∷ pages) = (has p pages ≡ false) × Distinct pages

-- Every page lies below `n`.
abbrev pub Below : ℕ → List ℕ → Type 0
Below n [] = Unit
Below n (p ∷ pages) = (p < n) × Below n pages

pub Below-has : (n p : ℕ) (pages : List ℕ) → Below n pages → has p pages ≡ true → p < n
Below-has n p [] b h = absurd (ground arith)
Below-has n p (q ∷ pages) b h = ground (arith, Below-has n p pages b.1)

remove : ℕ → List ℕ → List ℕ
remove p [] = []
remove p (q ∷ pages) = let rest = remove p pages in if q == p then rest else q ∷ rest

-- Removing a page that does not occur changes nothing; one that occurs once shortens by one.
has-remove :
    (p q : ℕ) (pages : List ℕ) → has q (remove p pages) ≡ true → (has q pages ≡ true) × (q ≢ p)
unfolding remove
has-remove p q [] h = absurd (ground arith)
has-remove p q (r ∷ pages) h = ground (arith, has-remove p q pages)

Distinct-remove : (p : ℕ) (pages : List ℕ) → Distinct pages → Distinct (remove p pages)
unfolding remove
Distinct-remove p [] d = tt
Distinct-remove p (q ∷ pages) d = elim (Bool-cases (has q (remove p pages))) [
  | inl e ↦ absurd (ground (arith, has-remove p q pages e, d.0))
  | inr e ↦ ground (arith, e, Distinct-remove p pages d.1)
]

Below-remove : (n : ℕ) (pages : List ℕ) → Below (suc n) pages → Below n (remove n pages)
unfolding remove
Below-remove n [] b = tt
Below-remove n (q ∷ pages) b = ground (arith, Below-remove n pages b.1)

length-remove_absent : (p : ℕ) (pages : List ℕ) → has p pages ≡ false → remove p pages ≡ pages
unfolding remove
length-remove_absent p [] h = refl
length-remove_absent p (q ∷ pages) h = ground (arith, length-remove_absent p pages)

length-remove :
    (p : ℕ) (pages : List ℕ) → Distinct pages → length pages ≤ suc (length (remove p pages))
unfolding remove
length-remove p [] d = omega arith
length-remove p (q ∷ pages) d = elim (ℕ_discrete q p) [
  | yes e ↦ ground (arith, length-remove_absent p pages, d.0)
  | no e ↦ ground (arith, length-remove p pages d.1)
]

-- The pigeonhole principle: there are at most `n` distinct pages below `n`.
pub length-le_of_Below :
    (n : ℕ) (pages : List ℕ) → Distinct pages → Below n pages → length pages ≤ n
length-le_of_Below zero [] d b = omega arith
length-le_of_Below zero (p ∷ pages) d b = absurd (omega arith)
length-le_of_Below (suc n) pages d b = omega (
  arith,
  length-remove n pages d,
  length-le_of_Below n (remove n pages) (Distinct-remove n pages d) (Below-remove n pages b),
)

-- A page that is not free leaves room for itself.
pub length-lt_of_absent :
    (n p : ℕ) (pages : List ℕ)
    → Distinct pages
    → Below n pages
    → p < n
    → has p pages ≡ false
    → length pages < n
length-lt_of_absent n p pages d b h a = length-le_of_Below n (p ∷ pages) (a, d) (h, b)
