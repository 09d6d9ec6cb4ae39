-- ===== src/RbTree/Insert.antt =====
-- experiments/rbtree.c, lines 359 to 460: insertion.
pub mod Spot
pub mod Grows
pub mod Stays
use drastic.Base.{
  ℕ, zero, suc, ◌+◌, Bool, true, false, not, ◌&&◌, if◌then◌else◌, some, none, Result, ok, stop,
  assertion_failed, out_of_fuel, kassert, ◌>>=◌, ◌>>◌,
}
use drastic.Base.Int.{ℤ, is_zero, is_positive}
use drastic.RbTree.{
  TestRange, test_range_valid, test_range_compare, test_range_overlap, Direction, left, right, flip,
  Color, black, red, NodePointer, null, nil, node, Nodes, node_valid, not_nil, node_get_child,
  node_set_child, node_child_red, either_red, node_set_color, node_color_flip, node_rotate,
  node_double_rotate, node_insert,
}
use drastic.RbTree.Arena.{RbTree, made, rb_tree_valid, rb_tree_node_make}

-- `RB_Insert_Status`
pub data InsertStatus : Type 0 where
  insert_ok insert_overlap insert_oom : InsertStatus

unfoldable pub rb_insert_fix_up : Nodes → NodePointer → Direction → Result (NodePointer × Nodes)
rb_insert_fix_up s p direction = do
  not_nil p
  child_red ← node_child_red s p direction
  if child_red
      then (do
        dir_child ← node_get_child s p direction
        other_red ← node_child_red s p (flip direction)
        if other_red
            then (do
              grandchild_red ← either_red s dir_child direction
              if grandchild_red then (node_color_flip s p >>= λ s1. ok (p, s1)) else ok (p, s))
            else (do
              outer_red ← node_child_red s dir_child direction
              if outer_red then node_rotate s p (flip direction) else (do
                inner_red ← node_child_red s dir_child (flip direction)
                if inner_red then node_double_rotate s p (flip direction) else ok (p, s))))
      else ok (p, s)

-- The direction `comparison > 0`
abbrev pub direction_of : ℤ → Direction
direction_of comparison = elim (is_positive comparison) [ true ↦ right | false ↦ left ]

-- A new node at the place of nil.
unfoldable pub insert_leaf :
    RbTree → TestRange → NodePointer → Direction → Result (NodePointer × (InsertStatus × RbTree))
insert_leaf tree range list_anker list_direction = rb_tree_node_make tree range red >>= λ new_node.
    elim new_node [
      | none ↦ ok (nil, (insert_oom, tree))
      | some (n, after) ↦ node_insert after.store (node n) list_anker list_direction >>= λ s.
          ok (node n, (insert_ok, record after { store = s }))
    ]

-- What follows the recursive call.
unfoldable pub insert_above :
    ℕ
    → Direction
    → NodePointer × (InsertStatus × RbTree)
    → Result (NodePointer × (InsertStatus × RbTree))
insert_above i direction (child, (insert_ok, tree)) = do
  s1 ← node_set_child tree.store (node i) direction child
  (p, s2) ← rb_insert_fix_up s1 (node i) direction
  ok (p, (insert_ok, record tree { store = s2 }))
insert_above i direction (child, (insert_overlap, tree)) = ok (node i, (insert_overlap, tree))
insert_above i direction (child, (insert_oom, tree)) = ok (node i, (insert_oom, tree))

-- The fuel is for the depth of the tree.
unfoldable pub rb_insert_helper :
    ℕ
    → RbTree
    → NodePointer
    → TestRange
    → NodePointer
    → Direction
    → Result (NodePointer × (InsertStatus × RbTree))
rb_insert_helper zero tree p range list_anker list_direction = stop out_of_fuel
rb_insert_helper (suc fuel) tree null range list_anker list_direction = stop assertion_failed
rb_insert_helper (suc fuel) tree nil range list_anker list_direction =
    kassert (rb_tree_valid tree)
    >> kassert (test_range_valid range)
    >> (node_valid list_anker >>= λ anker. insert_leaf tree range anker list_direction)
rb_insert_helper (suc fuel) tree (node i) range list_anker list_direction =
    kassert (rb_tree_valid tree)
    >> kassert (test_range_valid range)
    >> (node_valid list_anker >>= λ anker.
        test_range_overlap range (tree.store.range i) >>= λ overlap. elim overlap [
          | true ↦ ok (node i, (insert_overlap, tree))
          | false ↦
              (let comparison = test_range_compare range (tree.store.range i) in
                let direction = direction_of comparison in
                kassert (not (is_zero comparison))
                >> (node_get_child tree.store (node i) direction >>= λ child.
                    rb_insert_helper fuel tree child range (node i) direction
                    >>= insert_above i direction))
        ])

-- The root becomes black.
unfoldable pub insert_at_root :
    NodePointer × (InsertStatus × RbTree) → Result (InsertStatus × RbTree)
insert_at_root (p, (insert_ok, tree)) =
    node_set_color tree.store p black >>= λ s. ok (insert_ok, record tree { store = s; root = p })
insert_at_root (p, (insert_overlap, tree)) = ok (insert_overlap, record tree { root = p })
insert_at_root (p, (insert_oom, tree)) = ok (insert_oom, record tree { root = p })

unfoldable pub rb_insert : RbTree → TestRange → Result (InsertStatus × RbTree)
rb_insert tree range =
    kassert (rb_tree_valid tree)
    >> kassert (test_range_valid range)
    >> (rb_insert_helper (suc (made tree)) tree tree.root range (node 0) right >>= insert_at_root)
