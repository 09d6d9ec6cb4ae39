-- ===== src/RbTree/Model/Order.antt =====
-- The order of the ranges in a tree: none begins before the one on its left ends.
use drastic.Base.{
  ℕ, ◌+◌, ◌≤◌, ◌<◌, ◌≡◌, refl, Bool, true, false, ◌&&◌, ltb, if◌then◌else◌, ok, arith,
}
use drastic.Base.Int.{ℤ, pos, negsuc}
use drastic.PhysicalAllocator.{u64}
use drastic.RbTree.{
  TestRange, test_range_valid, test_range_overlap, test_range_compare, uintptr_max, Direction, left,
  right, Color,
}
use drastic.RbTree.Model.{Tree, leaf, branch, side}

-- Every range of the tree lies between the two addresses.
abbrev pub Between : ℕ → Tree → ℕ → Type 0
Between lo leaf hi = lo ≤ hi
Between lo (branch i c q x y) hi =
    Between lo x (q.start) × (0 < q.len) × Between (q.start + q.len) y hi

abbrev pub Ordered : Tree → Type 0
Ordered t = Between 0 t uintptr_max

pub Between-le : (lo : ℕ) (t : Tree) (hi : ℕ) → Between lo t hi → lo ≤ hi
Between-le lo leaf hi h = h
Between-le lo (branch i c q x y) hi (hx, some, hy) =
    omega (arith, Between-le lo x (q.start) hx, Between-le (q.start + q.len) y hi hy)

-- Both ranges contain an address.
abbrev pub overlaps : TestRange → TestRange → Bool
overlaps a b = ltb a.start (b.start + b.len) && ltb b.start (a.start + a.len)

-- An overlap with a range that the search for the place of `q` meets.
abbrev pub meets : TestRange → Tree → Bool
meets q leaf = false
meets q (branch i c r x y) =
    if overlaps q r then true else elim (side q r) [ left ↦ meets q x | right ↦ meets q y ]

pub meets-branch :
    (q : TestRange) (i : ℕ) (c : Color) (r : TestRange) (x y : Tree)
    → meets q (branch i c r x y) ≡ false
    → (overlaps q r ≡ false)
      × (side q r ≡ left → meets q x ≡ false)
      × (side q r ≡ right → meets q y ≡ false)
meets-branch q i c r x y h = (ground arith, λ e. ground arith, λ e. ground arith)

pub meets-left :
    (q : TestRange) (i : ℕ) (c : Color) (r : TestRange) (x y : Tree)
    → meets q (branch i c r x y) ≡ true
    → overlaps q r ≡ false
    → side q r ≡ left
    → meets q x ≡ true
meets-left q i c r x y h e f = ground arith

pub meets-right :
    (q : TestRange) (i : ℕ) (c : Color) (r : TestRange) (x y : Tree)
    → meets q (branch i c r x y) ≡ true
    → overlaps q r ≡ false
    → side q r ≡ right
    → meets q y ≡ true
meets-right q i c r x y h e f = ground arith

abbrev pub Valid : TestRange → Type 0
Valid q = (0 < q.len) × (q.start + q.len ≤ uintptr_max)

pub test_range_valid-Valid : (q : TestRange) → Valid q → test_range_valid q ≡ true
test_range_valid-Valid q (some, fits) = ground arith

pub test_range_overlap-overlaps :
    (q r : TestRange) → Valid q → Valid r → test_range_overlap q r ≡ ok (overlaps q r)
unfolding test_range_overlap
test_range_overlap-overlaps q r (some, fits) (some', fits') =
    let valid : test_range_valid q && test_range_valid r ≡ true =
      rw (test_range_valid-Valid q (some, fits), test_range_valid-Valid r (some', fits')) refl in
    let wrap : u64 (r.start + r.len) ≡ r.start + r.len = omega arith in
    let wrap' : u64 (q.start + q.len) ≡ q.start + q.len = omega arith in
    rw (valid, wrap, wrap') refl

-- What a comparison gives, by the side.
abbrev pub toward : Direction → ℤ
toward left = negsuc 0
toward right = pos 1

-- Ranges that do not overlap differ.
pub compare-apart :
    (q r : TestRange) (e : Direction)
    → Valid q
    → Valid r
    → overlaps q r ≡ false
    → side q r ≡ e
    → test_range_compare q r ≡ toward e
unfolding test_range_compare
compare-apart q r left (some, fits) (some', fits') h es = ground arith
compare-apart q r right (some, fits) (some', fits') h es = ground arith

pub side-left :
    (q r : TestRange)
    → side q r ≡ left
    → overlaps q r ≡ false
    → 0 < q.len
    → 0 < r.len
    → q.start + q.len ≤ r.start
unfolding test_range_compare
side-left q r e f some some' = ground arith

pub side-right :
    (q r : TestRange)
    → side q r ≡ right
    → overlaps q r ≡ false
    → 0 < q.len
    → 0 < r.len
    → r.start + r.len ≤ q.start
unfolding test_range_compare
side-right q r e f some some' = ground arith
