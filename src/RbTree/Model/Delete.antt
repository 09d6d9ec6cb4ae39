-- ===== src/RbTree/Model/Delete.antt =====
-- What deletion does to the trees.
pub mod Contents
pub mod Remove
pub mod Nephews
pub mod Balance
pub mod RedBlack
use drastic.Base.{
  ℕ, ◌+◌, ◌≡◌, refl, Bool, true, false, not, ◌&&◌, ◌||◌, List, [], ◌∷◌, if◌then◌else◌,
}
use drastic.Base.Int.{is_zero}
use drastic.RbTree.{
  TestRange, test_range_compare, Direction, left, right, flip, Color, black, red, is_red_color,
}
use drastic.RbTree.Delete.{DeleteStatus, delete_ok, delete_fail}
use drastic.RbTree.Model.{
  Tree, leaf, branch, is_branch, is_red, child, replace, paint, rotate, double_rotate, side,
}

abbrev pub color_of : Tree → Color
color_of leaf = black
color_of (branch i c q x y) = c

abbrev pub paint_child : Direction → Color → Tree → Tree
paint_child d c t = replace d t (paint c (child d t))

abbrev pub recolored : Direction → Tree → Tree
recolored d t = paint_child (flip d) red (paint black t)

-- The nephew of the deleted side comes up, and the colours follow.
abbrev pub turned : Direction → Tree → Tree
turned d t = if is_red (child (flip d) (child (flip d) t)) then rotate d t else double_rotate d t

abbrev pub rebuilt : Direction → Tree → Tree
rebuilt d t = paint_child right black (paint_child left black (paint (color_of t) (turned d t)))

-- The side `d` has one black node less; its sibling is not red.
unfoldable pub rebalance : Direction → Tree → Tree × DeleteStatus
rebalance d t =
    let sibling = child (flip d) t in
    if is_branch sibling
    then (if is_red (child left sibling) || is_red (child right sibling)
        then (rebuilt d t, delete_ok)
        else (recolored d t, (if is_red t then delete_ok else delete_fail)))
    else (t, delete_fail)

abbrev pub in_child : Direction → Tree → Tree × DeleteStatus → Tree × DeleteStatus
in_child d t (z, status) = (replace d t z, status)

unfoldable pub delete_fix : Direction → Tree → Tree × DeleteStatus
delete_fix d t =
    if is_red (child (flip d) t)
    then in_child d (rotate d t) (rebalance d (child d (rotate d t)))
    else rebalance d t

-- After a deletion in this direction.
abbrev pub rejoin : Direction → Tree → Tree × DeleteStatus → Tree × DeleteStatus
rejoin d t (z, delete_ok) = (replace d t z, delete_ok)
rejoin d t (z, delete_fail) = delete_fix d (replace d t z)

-- The last node and the last range.
abbrev pub last_id : Tree → ℕ
last_id leaf = 0
last_id (branch i c q x leaf) = i
last_id (branch i c q x y) = last_id y

abbrev pub last_range : TestRange → Tree → TestRange
last_range q leaf = q
last_range q (branch i c r x y) = last_range r y

-- The subtree `z` takes the place of a node of the colour `c`.
abbrev pub unlinked_tree : Color → Tree → Tree × DeleteStatus
unlinked_tree c z = (
  if not (is_red_color c) && is_red z then paint black z else z,
  if is_red_color c || is_red z then delete_ok else delete_fail,
)

abbrev pub other_child : Tree → Tree → Tree
other_child x y = if is_branch y then y else (if is_branch x then x else leaf)

unfoldable pub delete : TestRange → Tree → Tree × DeleteStatus
delete q leaf = (leaf, delete_ok)
delete q (branch i c r x y) = elim (is_zero (test_range_compare r q)) [
  | true ↦ elim (is_branch x && is_branch y) [
    | true ↦ rejoin left (branch i c (last_range r x) x y) (delete (last_range r x) x)
    | false ↦ unlinked_tree c (other_child x y)
  ]
  | false ↦ elim (side q r) [
    | left ↦ rejoin left (branch i c r x y) (delete q x)
    | right ↦ rejoin right (branch i c r x y) (delete q y)
  ]
]

-- The node that the deletion sets free, if any.
unfoldable pub freed : TestRange → Tree → List ℕ
freed q leaf = []
freed q (branch i c r x y) = elim (is_zero (test_range_compare r q)) [
  | true ↦ elim (is_branch x && is_branch y) [ true ↦ freed (last_range r x) x | false ↦ i ∷ [] ]
  | false ↦ elim (side q r) [ left ↦ freed q x | right ↦ freed q y ]
]

-- The four ways of a deletion at a node.
module _ (q : TestRange) (i : ℕ) (c : Color) (r : TestRange) (x y : Tree) where
  pub delete-both :
      is_zero (test_range_compare r q) ≡ true
      → is_branch x && is_branch y ≡ true
      → (delete q (branch i c r x y)
          ≡ rejoin left (branch i c (last_range r x) x y) (delete (last_range r x) x))
        × (freed q (branch i c r x y) ≡ freed (last_range r x) x)
  unfolding delete freed
  delete-both e f = (rw (e, f, delete) refl, rw (e, f, freed) refl)

  pub delete-here :
      is_zero (test_range_compare r q) ≡ true
      → is_branch x && is_branch y ≡ false
      → (delete q (branch i c r x y) ≡ unlinked_tree c (other_child x y))
        × (freed q (branch i c r x y) ≡ i ∷ [])
  unfolding delete freed
  delete-here e f = (rw (e, f, delete) refl, rw (e, f, freed) refl)

  pub delete-left :
      is_zero (test_range_compare r q) ≡ false
      → side q r ≡ left
      → (delete q (branch i c r x y) ≡ rejoin left (branch i c r x y) (delete q x))
        × (freed q (branch i c r x y) ≡ freed q x)
  unfolding delete freed
  delete-left e f = (rw (e, f, delete) refl, rw (e, f, freed) refl)

  pub delete-right :
      is_zero (test_range_compare r q) ≡ false
      → side q r ≡ right
      → (delete q (branch i c r x y) ≡ rejoin right (branch i c r x y) (delete q y))
        × (freed q (branch i c r x y) ≡ freed q y)
  unfolding delete freed
  delete-right e f = (rw (e, f, delete) refl, rw (e, f, freed) refl)
