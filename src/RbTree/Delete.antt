-- ===== src/RbTree/Delete.antt =====
-- experiments/rbtree.c, lines 462 to 600: deletion.
pub mod Part
pub mod Above
pub mod Decide
pub mod Shrinks
use drastic.Base.{
  ℕ, zero, suc, ◌+◌, Bool, true, false, not, ◌&&◌, ◌||◌, ◌==◌, if◌then◌else◌, some, none, Result,
  ok, stop, assertion_failed, out_of_fuel, kassert, ◌>>=◌, ◌>>◌,
}
use drastic.Base.Int.{ℤ, is_zero, is_positive}
use drastic.RbTree.{
  TestRange, test_range_valid, test_range_compare, Direction, left, right, flip, Color, black, red,
  NodePointer, null, nil, node, Nodes, set_at, node_valid, node_is_nil, not_nil, node_index,
  node_has_child, node_red, node_get_color, node_get_child, node_set_child, node_child_red,
  either_red, node_set_color, node_rotate, node_double_rotate, node_remove_from_list, list_get,
}
use drastic.RbTree.Arena.{RbTree, made, rb_tree_valid, node_free}
use drastic.RbTree.Insert.{direction_of}

-- `RB_Delete_Status`
pub data DeleteStatus : Type 0 where
  delete_ok delete_fail : DeleteStatus

-- The sibling has no red child.
unfoldable pub recolor_sibling : Nodes → NodePointer → NodePointer → Result (DeleteStatus × Nodes)
recolor_sibling s parent sibling = do
  parent_red ← node_red s parent
  s1 ← node_set_color s parent black
  s2 ← node_set_color s1 sibling red
  ok ((if parent_red then delete_ok else delete_fail), s2)

-- The sibling has a red child: what comes up in the place of `parent`.
unfoldable pub rotate_sibling :
    Nodes → NodePointer → NodePointer → Direction → Result (NodePointer × Nodes)
rotate_sibling s parent sibling direction = do
  initcol_parent ← node_get_color s parent
  outer_red ← node_child_red s sibling (flip direction)
  (top, s1) ←
      (if outer_red then node_rotate s parent direction else node_double_rotate s parent direction)
  s2 ← node_set_color s1 top initcol_parent
  left_child ← node_get_child s2 top left
  s3 ← node_set_color s2 left_child black
  right_child ← node_get_child s3 top right
  s4 ← node_set_color s3 right_child black
  ok (top, s4)

-- `reduced` is `is_red_sibling_reduction`.
unfoldable pub with_sibling :
    Nodes
    → NodePointer
    → NodePointer
    → NodePointer
    → Bool
    → Direction
    → Result (NodePointer × (DeleteStatus × Nodes))
with_sibling s p parent null reduced direction = stop assertion_failed
with_sibling s p parent nil reduced direction = ok (p, (delete_fail, s))
with_sibling s p parent (node j) reduced direction = do
  nephew_red ← either_red s (node j) left
  if not nephew_red
      then (recolor_sibling s parent (node j) >>= λ (status, s1). ok (p, (status, s1)))
      else (do
        (top, s1) ← rotate_sibling s parent (node j) direction
        if reduced
            then (node_set_child s1 p direction top >>= λ s2. ok (p, (delete_ok, s2)))
            else ok (top, (delete_ok, s1)))

unfoldable pub rb_delete_fix_up :
    Nodes → NodePointer → Direction → Result (NodePointer × (DeleteStatus × Nodes))
rb_delete_fix_up s parent direction = do
  not_nil parent
  sibling ← node_get_child s parent (flip direction)
  sibling_red ← node_red s sibling
  if sibling_red
      then (do
        (p, s1) ← node_rotate s parent direction
        new_sibling ← node_get_child s1 parent (flip direction)
        with_sibling s1 p parent new_sibling true direction)
      else with_sibling s parent parent sibling false direction

-- The node `node i` lacks a child: `temp` takes its place.
unfoldable pub unlink_node :
    RbTree → ℕ → NodePointer → Result (NodePointer × (DeleteStatus × RbTree))
unlink_node tree i temp = do
  this_red ← node_red tree.store (node i)
  temp_red ← node_red tree.store temp
  s1 ← (if not this_red && temp_red then node_set_color tree.store temp black else ok (tree.store))
  s2 ← node_remove_from_list s1 (node i)
  freed ← node_free (record tree { store = s2 }) (node i)
  ok (temp, ((if this_red || temp_red then delete_ok else delete_fail), freed))

-- The loop to the rightmost node below `p`; the fuel is for the depth of the tree.
unfoldable pub rightmost : ℕ → Nodes → NodePointer → Result ℕ
rightmost zero s p = stop out_of_fuel
rightmost (suc fuel) s null = stop assertion_failed
rightmost (suc fuel) s nil = stop assertion_failed
rightmost (suc fuel) s (node i) = node_get_child s (node i) right >>= λ child. elim child [
  | null ↦ stop assertion_failed
  | nil ↦ ok i
  | node j ↦ rightmost fuel s (node j)
]

abbrev pub equal_pointers : NodePointer → NodePointer → Bool
equal_pointers null null = true
equal_pointers nil nil = true
equal_pointers (node i) (node j) = i == j
equal_pointers _ _ = false

-- What follows the recursive call.
unfoldable pub delete_above :
    ℕ
    → Direction
    → NodePointer × (DeleteStatus × RbTree)
    → Result (NodePointer × (DeleteStatus × RbTree))
delete_above i direction (child, (delete_ok, tree)) = do
  s1 ← node_set_child tree.store (node i) direction child
  ok (node i, (delete_ok, record tree { store = s1 }))
delete_above i direction (child, (delete_fail, tree)) = do
  s1 ← node_set_child tree.store (node i) direction child
  (p, (status, s2)) ← rb_delete_fix_up s1 (node i) direction
  ok (p, (status, record tree { store = s2 }))

-- What `rb_delete_helper` decides at a node before it descends.
pub data Descent : Type 0 where
  -- the node lacks a child, and `temp` is the other one
  unlink : NodePointer → Descent
  -- the search goes on for this range, in this tree
  descend : TestRange → RbTree → Descent

-- The node has both children: it takes over the range of the node before it.
unfoldable pub take_range : ℕ → RbTree → ℕ → NodePointer → Result Descent
take_range fuel tree i left_child = do
  temp ← rightmost fuel tree.store left_child
  after ← list_get tree.store (node temp) right
  kassert (equal_pointers after (node i))
  let range = tree.store.range temp
  ok (
      descend range
        (record tree { store = record (tree.store) { range = set_at tree.store.range i range } }))

unfoldable pub decide : ℕ → RbTree → ℕ → TestRange → Result Descent
decide fuel tree i range =
    if is_zero (test_range_compare (tree.store.range i) range)
    then (do
      has_left ← node_has_child tree.store (node i) left
      has_right ← node_has_child tree.store (node i) right
      left_child ← node_get_child tree.store (node i) left
      right_child ← node_get_child tree.store (node i) right
      if not has_left || not has_right
          then ok
              (unlink (if has_right then right_child else (if has_left then left_child else nil)))
          else take_range fuel tree i left_child)
    else ok (descend range tree)

-- The fuel is for the depth of the tree.
unfoldable pub rb_delete_helper :
    ℕ → RbTree → NodePointer → TestRange → Result (NodePointer × (DeleteStatus × RbTree))
rb_delete_helper zero tree p range = stop out_of_fuel
rb_delete_helper (suc fuel) tree null range = stop assertion_failed
rb_delete_helper (suc fuel) tree nil range =
    kassert (rb_tree_valid tree) >> kassert (test_range_valid range) >> ok (nil, (delete_ok, tree))
rb_delete_helper (suc fuel) tree (node i) range =
    kassert (rb_tree_valid tree)
    >> kassert (test_range_valid range)
    >> (decide fuel tree i range >>= λ descent. elim descent [
      | unlink temp ↦ unlink_node tree i temp
      | descend wanted next ↦
          (let direction = direction_of (test_range_compare wanted (next.store.range i)) in
            node_get_child next.store (node i) direction >>= λ child.
            rb_delete_helper fuel next child wanted >>= delete_above i direction)
    ])

-- A root that is there becomes black.
unfoldable pub delete_at_root : NodePointer × (DeleteStatus × RbTree) → Result RbTree
delete_at_root (null, (status, tree)) = stop assertion_failed
delete_at_root (nil, (status, tree)) = ok (record tree { root = nil })
delete_at_root (node i, (status, tree)) =
    node_set_color tree.store (node i) black >>= λ s. ok (record tree { store = s; root = node i })

unfoldable pub rb_delete : RbTree → TestRange → Result RbTree
rb_delete tree range =
    kassert (rb_tree_valid tree)
    >> kassert (test_range_valid range)
    >> (rb_delete_helper (suc (made tree)) tree tree.root range >>= delete_at_root)
