-- ===== src/RbTree/Model.antt =====
-- The binary trees that the nodes of experiments/rbtree.c form, and what its operations do to them.
pub mod Counts
pub mod InOrder
pub mod Order
pub mod Sorted
pub mod Balance
pub mod Delete
use drastic.Base.{
  ℕ, ◌+◌, ◌≤◌, ◌≡◌, refl, Bool, true, false, ◌||◌, List, [], ◌∷◌, ◌++◌, ◌==◌, if◌then◌else◌,
}
use drastic.RbTree.{
  TestRange, test_range_compare, Direction, left, right, flip, Color, black, red, rb_color_flip,
  is_red_color,
}
use drastic.RbTree.Insert.{direction_of}

-- A node's number, its colour, its range, and what is on its left and on its right.
pub data Tree : Type 0 where
  leaf : Tree
  branch : ℕ → Color → TestRange → Tree → Tree → Tree

-- How often a number occurs.
abbrev pub count : ℕ → Tree → ℕ
count k leaf = 0
count k (branch i c q x y) = (if k == i then 1 else 0) + count k x + count k y

abbrev pub Distinct : Tree → Type 0
Distinct t = (k : ℕ) → count k t ≤ 1

-- The numbers and the ranges, from left to right.
abbrev pub in_order {ℓ} : {A : Type ℓ} → (ℕ → TestRange → A) → Tree → List A
in_order g leaf = []
in_order g (branch i c q x y) = in_order g x ++ (g i q ∷ in_order g y)

abbrev pub ids : Tree → List ℕ
ids t = in_order (λ i q. i) t

abbrev pub ranges : Tree → List TestRange
ranges t = in_order (λ i q. q) t

abbrev pub size : Tree → ℕ
size leaf = 0
size (branch i c q x y) = 1 + size x + size y

abbrev pub is_branch : Tree → Bool
is_branch leaf = false
is_branch _ = true

abbrev pub is_red : Tree → Bool
is_red leaf = false
is_red (branch i c q x y) = is_red_color c

abbrev pub child : Direction → Tree → Tree
child d leaf = leaf
child left (branch i c q x y) = x
child right (branch i c q x y) = y

abbrev pub replace : Direction → Tree → Tree → Tree
replace d leaf z = leaf
replace left (branch i c q x y) z = branch i c q z y
replace right (branch i c q x y) z = branch i c q x z

abbrev pub paint : Color → Tree → Tree
paint c leaf = leaf
paint c (branch i b q x y) = branch i c q x y

abbrev pub toggle : Tree → Tree
toggle leaf = leaf
toggle (branch i c q x y) = branch i (rb_color_flip c) q x y

abbrev pub color_flip : Tree → Tree
color_flip leaf = leaf
color_flip (branch i c q x y) = branch i (rb_color_flip c) q (toggle x) (toggle y)

-- The child against the direction comes up, and the root goes down.
abbrev pub rotate : Direction → Tree → Tree
rotate d leaf = leaf
rotate left (branch i c q x leaf) = branch i c q x leaf
rotate left (branch i c q x (branch j b r m y)) = branch j c r (branch i red q x m) y
rotate right (branch i c q leaf y) = branch i c q leaf y
rotate right (branch i c q (branch j b r x m) y) = branch j c r x (branch i red q m y)

abbrev pub double_rotate : Direction → Tree → Tree
double_rotate d t = rotate d (replace (flip d) t (rotate (flip d) (child (flip d) t)))

-- After an insertion in this direction.
unfoldable pub insert_fix : Direction → Tree → Tree
insert_fix d t =
    if is_red (child d t)
    then (if is_red (child (flip d) t)
        then (if is_red (child d (child d t)) || is_red (child (flip d) (child d t))
            then color_flip t
            else t)
        else (if is_red (child d (child d t))
            then rotate (flip d) t
            else (if is_red (child (flip d) (child d t)) then double_rotate (flip d) t else t)))
    else t

-- Where a range goes, seen from another.
abbrev pub side : TestRange → TestRange → Direction
side q r = direction_of (test_range_compare q r)

-- A new node with the number `n` and the range `q`.
unfoldable pub insert : ℕ → TestRange → Tree → Tree
insert n q leaf = branch n red q leaf leaf
insert n q (branch i c r x y) = elim (side q r) [
  | left ↦ insert_fix left (branch i c r (insert n q x) y)
  | right ↦ insert_fix right (branch i c r x (insert n q y))
]

pub insert-left :
    (n : ℕ) (q : TestRange) (i : ℕ) (c : Color) (r : TestRange) (x y : Tree)
    → side q r ≡ left
    → insert n q (branch i c r x y) ≡ insert_fix left (branch i c r (insert n q x) y)
unfolding insert
insert-left n q i c r x y e = rw (e, insert) refl

pub insert-right :
    (n : ℕ) (q : TestRange) (i : ℕ) (c : Color) (r : TestRange) (x y : Tree)
    → side q r ≡ right
    → insert n q (branch i c r x y) ≡ insert_fix right (branch i c r x (insert n q y))
unfolding insert
insert-right n q i c r x y e = rw (e, insert) refl
