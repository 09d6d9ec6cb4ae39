-- ===== src/RbTree/Model/Counts.antt =====
-- A rotation keeps the numbers of a tree.
use drastic.Base.{ℕ, ◌+◌, ◌≤◌, ◌<◌, ◌≡◌, refl, ◌∙◌, ◌⊎◌, true, inl, inr, ◌==◌, if◌then◌else◌, arith}
use drastic.RbTree.{Direction, left, right, flip, Color, TestRange}
use drastic.RbTree.Model.{
  Tree, leaf, branch, count, is_branch, child, replace, rotate, double_rotate, color_flip, paint,
  toggle, insert_fix, insert, side, insert-left, insert-right,
}

pub count-rotate : (k : ℕ) (d : Direction) (t : Tree) → count k (rotate d t) ≡ count k t
count-rotate k left leaf = refl
count-rotate k right leaf = refl
count-rotate k left (branch i c q x leaf) = refl
count-rotate k left (branch i c q x (branch j a r m y)) = ground arith
count-rotate k right (branch i c q leaf y) = refl
count-rotate k right (branch i c q (branch j a r x m) y) = ground arith

pub count-replace :
    (k : ℕ) (d : Direction) (t z : Tree)
    → is_branch t ≡ true
    → count k (replace d t z) + count k (child d t) ≡ count k t + count k z
count-replace k d leaf z b = absurd (cc)
count-replace k left (branch i c q x y) z b = ground arith
count-replace k right (branch i c q x y) z b = ground arith

pub is_branch-rotate : (d : Direction) (t : Tree) → is_branch (rotate d t) ≡ is_branch t
is_branch-rotate left leaf = refl
is_branch-rotate right leaf = refl
is_branch-rotate left (branch i c q x leaf) = refl
is_branch-rotate left (branch i c q x (branch j a r m y)) = refl
is_branch-rotate right (branch i c q leaf y) = refl
is_branch-rotate right (branch i c q (branch j a r x m) y) = refl

pub child-replace : (d : Direction) (t z : Tree) → is_branch t ≡ true → child d (replace d t z) ≡ z
child-replace d leaf z b = absurd (cc)
child-replace left (branch i c q x y) z b = refl
child-replace right (branch i c q x y) z b = refl

pub is_branch-child : (d : Direction) (t : Tree) → is_branch (child d t) ≡ true → is_branch t ≡ true
is_branch-child left leaf b = b
is_branch-child right leaf b = b
is_branch-child d (branch i c q x y) b = refl

-- A child is exchanged for one with the same numbers.
pub count-replace_same :
    (k : ℕ) (d : Direction) (t z : Tree)
    → count k z ≡ count k (child d t)
    → count k (replace d t z) ≡ count k t
count-replace_same k left leaf z e = refl
count-replace_same k right leaf z e = refl
count-replace_same k left (branch i c q x y) z e = ground arith
count-replace_same k right (branch i c q x y) z e = ground arith

pub count-double_rotate :
    (k : ℕ) (d : Direction) (t : Tree) → count k (double_rotate d t) ≡ count k t
count-double_rotate k d t =
    let inner : Tree = rotate (flip d) (child (flip d) t) in
    omega (
      arith,
      count-rotate k d (replace (flip d) t inner),
      count-replace_same k (flip d) t inner (count-rotate k (flip d) (child (flip d) t)),
    )

pub count-toggle : (k : ℕ) (t : Tree) → count k (toggle t) ≡ count k t
count-toggle k leaf = refl
count-toggle k (branch i c q x y) = refl

pub count-color_flip : (k : ℕ) (t : Tree) → count k (color_flip t) ≡ count k t
count-color_flip k leaf = refl
count-color_flip k (branch i c q x y) = omega (arith, count-toggle k x, count-toggle k y)

pub count-paint : (k : ℕ) (a : Color) (t : Tree) → count k (paint a t) ≡ count k t
count-paint k a leaf = refl
count-paint k a (branch i c q x y) = refl

pub count-child : (k : ℕ) (d : Direction) (t : Tree) → count k (child d t) ≤ count k t
count-child k left leaf = omega arith
count-child k right leaf = omega arith
count-child k left (branch i c q x y) = omega arith
count-child k right (branch i c q x y) = omega arith

pub count-insert_fix : (k : ℕ) (d : Direction) (t : Tree) → count k (insert_fix d t) ≡ count k t
unfolding insert_fix
count-insert_fix k d t =
    ground
      (arith, count-color_flip k t, count-rotate k (flip d) t, count-double_rotate k (flip d) t)

pub Direction-cases : (d : Direction) → (d ≡ left) ⊎ (d ≡ right)
Direction-cases left = inl refl
Direction-cases right = inr refl

pub count-insert :
    (k n : ℕ) (q : TestRange) (t : Tree)
    → count k (insert n q t) ≡ count k t + (if k == n then 1 else 0)
count-insert k n q leaf = unfold insert in omega arith
count-insert k n q (branch i c r x y) = elim (Direction-cases (side q r)) [
  | inl e ↦ rw (insert-left n q i c r x y e) (
      count-insert_fix k left (branch i c r (insert n q x) y) ∙ omega (arith, count-insert k n q x))
  | inr e ↦ rw (insert-right n q i c r x y e) (
      count-insert_fix k right (branch i c r x (insert n q y))
      ∙ omega (arith, count-insert k n q y))
]

pub is_branch-insert : (n : ℕ) (q : TestRange) (t : Tree) → is_branch (insert n q t) ≡ true
is_branch-insert n q t = count-is_branch n (insert n q t) (ground (arith, count-insert n n q t))
  where
    count-is_branch : (k : ℕ) (t : Tree) → 0 < count k t → is_branch t ≡ true
    count-is_branch k leaf h = absurd (omega arith)
    count-is_branch k (branch i c q x y) h = refl
