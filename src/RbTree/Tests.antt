-- ===== src/RbTree/Tests.antt =====
-- The `main` of experiments/rbtree.c, run.
use drastic.Base.{
  ℕ, zero, suc, ◌≡◌, refl, true, List, [], ◌∷◌, Result, ok, stop, ◌>>=◌, ◌>>◌, ◌<◌, ◌==◌,
  if◌then◌else◌, arith,
}
use drastic.RbTree.{
  test_range_compare, test_range_overlap, TestRange, Direction, left, right, black, red,
  NodePointer, null, nil, node, Nodes, node_color_flip, node_rotate, node_double_rotate,
  node_insert, node_remove_from_list,
}
use drastic.RbTree.Search.{prev_from, next_from, rb_find_prev_by_start, rb_find_next_by_start}
use drastic.RbTree.Search.Neighbours.{
  rb_find_prev_by_start-last_before, rb_find_next_by_start-first_behind,
}
use drastic.RbTree.Search.Scan.{Finds, last_before, first_behind}
use drastic.RbTree.Search.Depth.{search_steps}
use drastic.RbTree.Search.Validate.{rb_list_validate-passes}
use drastic.RbTree.Model.{Tree, leaf, branch}
use drastic.RbTree.Model.Order.{Valid}
use drastic.RbTree.Invariant.Insert.{Stored, InsertResult, rb_insert-refines}
use drastic.RbTree.Invariant.Delete.{DeleteResult, rb_delete-refines}
use drastic.RbTree.Invariant.Clear.{rb_tree_init-Stored, rb_clear-Stored}
use drastic.RbTree.Invariant.RoundTrip.{rb_delete-rb_insert}
use drastic.RbTree.Arena.{RbTree, rb_tree_init, rb_tree_node_make, next_node, rb_clear}
use drastic.RbTree.Insert.{
  InsertStatus, insert_ok, rb_insert, rb_insert_fix_up, insert_leaf, insert_above, rb_insert_helper,
  insert_at_root,
}
use drastic.RbTree.Delete.{
  rb_delete, rb_delete_fix_up, recolor_sibling, rotate_sibling, with_sibling, unlink_node,
  rightmost, delete_above, take_range, decide, rb_delete_helper, delete_at_root,
}
use drastic.RbTree.Search.{rb_list_validate, validate_from, validate_node}

abbrev zeroed : Nodes
zeroed = record {
  range = λ k. record { start = 0; len = 0 };
  list = λ d k. null;
  children = λ d k. null;
  color = λ k. black;
}

abbrev before_init : RbTree
before_init = record {
  store = zeroed;
  root = null;
  free_list = null;
  pages = 0;
  node_count = 0;
  pages_left = 1;
}

abbrev one : ℕ → TestRange
one n = record { start = n; len = 1 }

abbrev insert_all : RbTree → List ℕ → Result RbTree
insert_all tree [] = ok tree
insert_all tree (n ∷ ns) =
    rb_insert tree (one n) >>= λ r. rb_list_validate (r.1) >> insert_all (r.1) ns

abbrev inserted : Result RbTree
inserted = insert_all ((rb_tree_init before_init).1) (8 ∷ 3 ∷ 10 ∷ 1 ∷ 6 ∷ 14 ∷ 4 ∷ 7 ∷ 13 ∷ [])

-- Starts and colours by a walk along the list.
abbrev listed : ℕ → Nodes → NodePointer → List ℕ
listed zero s p = []
listed (suc f) s (node zero) = []
listed (suc f) s (node (suc i)) = (s.range (suc i)).start ∷ listed f s (s.list right (suc i))
listed (suc f) s p = []

abbrev root_start : RbTree → NodePointer → ℕ
root_start tree (node i) = (tree.store.range i).start
root_start tree p = 0

abbrev summary : Result RbTree → Result (ℕ × List ℕ)
summary r =
    r >>= λ tree. ok (root_start tree tree.root, listed 20 tree.store (tree.store.list right 0))

after_inserts : summary inserted ≡ ok (8, 1 ∷ 3 ∷ 4 ∷ 6 ∷ 7 ∷ 8 ∷ 10 ∷ 13 ∷ 14 ∷ [])
unfolding test_range_compare test_range_overlap rb_tree_init rb_insert rb_insert_helper insert_leaf
    insert_above insert_at_root rb_insert_fix_up rb_tree_node_make next_node node_insert
    node_color_flip node_rotate node_double_rotate rb_list_validate validate_from validate_node
after_inserts = refl

abbrev delete_all : RbTree → List ℕ → Result RbTree
delete_all tree [] = ok tree
delete_all tree (n ∷ ns) =
    rb_delete tree (one n) >>= λ after. rb_list_validate after >> delete_all after ns

after_deletes :
    summary (inserted >>= λ tree. delete_all tree (1 ∷ 14 ∷ 8 ∷ []))
    ≡ ok (7, 3 ∷ 4 ∷ 6 ∷ 7 ∷ 10 ∷ 13 ∷ [])
unfolding test_range_compare test_range_overlap rb_tree_init rb_insert rb_insert_helper insert_leaf
    insert_above insert_at_root rb_insert_fix_up rb_tree_node_make next_node node_insert
    node_color_flip node_rotate node_double_rotate rb_list_validate validate_from validate_node
    rb_delete rb_delete_fix_up recolor_sibling rotate_sibling with_sibling unlink_node rightmost
    delete_above take_range decide rb_delete_helper delete_at_root node_remove_from_list
after_deletes = refl

-- Two ranges in a tree, from 3 and from 8, and a freed node.
abbrev two_links : Direction → ℕ → NodePointer
two_links left k = if k == 0 then node 1 else (if k == 1 then node 2 else node 0)
two_links right k = if k == 0 then node 2 else (if k == 2 then node 1 else node 0)

abbrev two_children : Direction → ℕ → NodePointer
two_children left k = if k == 1 then node 2 else nil
two_children right k = if k == 3 then null else nil

abbrev two : RbTree
two = record {
  store = record {
    range = λ k. if k == 2 then one 3 else one 8;
    list = two_links;
    children = two_children;
    color = λ k. if k == 2 then red else black;
  };
  root = node 1;
  free_list = node 3;
  pages = 1;
  node_count = 3;
  pages_left = 0;
}

abbrev two_ranges : List TestRange
two_ranges = one 3 ∷ (one 8 ∷ [])

abbrev two_tree : Tree
two_tree = branch 1 black (one 8) (branch 2 red (one 3) leaf leaf) leaf

two-Stored : Stored two two_ranges
two-Stored = record {
  t = two_tree;
  free = 3 ∷ [];
  holds = record {
    repr = (refl, refl, refl, (refl, refl, refl, refl, refl), refl);
    segment = (refl, refl, (refl, refl, (refl, refl)));
    chain = (refl, refl);
    distinct = λ k. ground arith;
    total = refl;
    below = λ k lt. ground arith;
    paged = omega arith;
    room = omega arith;
    ordered = ((omega arith, omega arith, omega arith), omega arith, omega arith);
    balanced = (refl, (1, (0, refl, (refl, refl, refl, refl), refl)));
  };
  same = refl;
}

one-Valid : (n : ℕ) → n < 1000 → Valid (one n)
one-Valid n h = (omega arith, omega arith)

rb_insert-refines_example : InsertResult two (one 5) two_ranges
rb_insert-refines_example =
    rb_insert-refines two two_ranges (one 5) two-Stored (one-Valid 5 (omega arith))

rb_delete-refines_example : DeleteResult two (one 8) two_ranges
rb_delete-refines_example =
    rb_delete-refines two two_ranges (one 8) two-Stored (one-Valid 8 (omega arith))

rb_list_validate-passes_example : rb_list_validate two ≡ ok tt
rb_list_validate-passes_example = rb_list_validate-passes two two_ranges two-Stored

rb_find_prev_by_start-last_before_example :
    Finds two.store (rb_find_prev_by_start two 8) (last_before 8 two_ranges)
rb_find_prev_by_start-last_before_example =
    rb_find_prev_by_start-last_before two two_ranges 8 two-Stored

rb_find_next_by_start-first_behind_example :
    Finds two.store (rb_find_next_by_start two 3) (first_behind 3 two_ranges)
rb_find_next_by_start-first_behind_example =
    rb_find_next_by_start-first_behind two two_ranges 3 two-Stored

search_steps_example :
    Finds two.store (prev_from 3 (two.store) (node 1) nil 8) (last_before 8 two_ranges)
    × Finds two.store (next_from 3 (two.store) (node 1) nil 8) (first_behind 8 two_ranges)
search_steps_example = search_steps two two_ranges 1 8 two-Stored (omega arith)

rb_clear-Stored_example : (after : RbTree) × (rb_clear two ≡ ok after) × Stored after []
rb_clear-Stored_example = rb_clear-Stored two two_ranges two-Stored

rb_tree_init-Stored_example :
    (after : RbTree) × (rb_tree_init before_init ≡ (true, after)) × Stored after []
rb_tree_init-Stored_example = rb_tree_init-Stored before_init 0 refl refl

-- What is left after a range from 5 has been inserted.
abbrev tree_of : Result (InsertStatus × RbTree) → RbTree
tree_of (ok (status, tree)) = tree
tree_of (stop why) = two

two_insert : rb_insert two (one 5) ≡ ok (insert_ok, tree_of (rb_insert two (one 5)))
unfolding test_range_compare test_range_overlap rb_tree_init rb_insert rb_insert_helper insert_leaf
    insert_above insert_at_root rb_insert_fix_up rb_tree_node_make next_node node_insert
    node_color_flip node_rotate node_double_rotate rb_list_validate validate_from validate_node
two_insert = refl

rb_delete-rb_insert_example :
    (last : RbTree) × (rb_delete (tree_of (rb_insert two (one 5))) (one 5) ≡ ok last)
    × Stored last two_ranges
rb_delete-rb_insert_example =
    rb_delete-rb_insert two (tree_of (rb_insert two (one 5))) two_ranges (one 5) two-Stored
      (one-Valid 5 (omega arith)) two_insert
