-- ===== src/RbTree/Search.antt =====
-- experiments/rbtree.c, lines 602 to 669: the neighbours of an address, and the check of the list.
pub mod Scan
pub mod Neighbours
pub mod Depth
pub mod Validate
use drastic.Base.{
  ℕ, zero, suc, ◌+◌, Bool, true, false, not, ◌&&◌, ◌||◌, ◌==◌, ltb, if◌then◌else◌, Result, ok, stop,
  assertion_failed, out_of_fuel, kassert, ◌>>=◌, ◌>>◌,
}
use drastic.Base.Int.{ℤ, is_negative}
use drastic.RbTree.{
  TestRange, test_range_compare, Direction, left, right, NodePointer, null, nil, node, Nodes,
  node_get_child, list_get,
}
use drastic.RbTree.Arena.{RbTree, made, rb_tree_valid}
use drastic.RbTree.Delete.{equal_pointers}

-- The loop of `rb_find_prev_by_start`; the fuel is for the depth of the tree.
unfoldable pub prev_from : ℕ → Nodes → NodePointer → NodePointer → ℕ → Result NodePointer
prev_from zero s p best start = stop out_of_fuel
prev_from (suc fuel) s null best start = stop assertion_failed
prev_from (suc fuel) s nil best start = ok best
prev_from (suc fuel) s (node i) best start = elim (ltb ((s.range i).start) start) [
  | true ↦ node_get_child s (node i) right >>= λ child. prev_from fuel s child (node i) start
  | false ↦ node_get_child s (node i) left >>= λ child. prev_from fuel s child best start
]

unfoldable pub rb_find_prev_by_start : RbTree → ℕ → Result NodePointer
rb_find_prev_by_start tree start =
    kassert (rb_tree_valid tree) >> prev_from (suc (made tree)) tree.store tree.root nil start

-- The loop of `rb_find_next_by_start`
unfoldable pub next_from : ℕ → Nodes → NodePointer → NodePointer → ℕ → Result NodePointer
next_from zero s p best start = stop out_of_fuel
next_from (suc fuel) s null best start = stop assertion_failed
next_from (suc fuel) s nil best start = ok best
next_from (suc fuel) s (node i) best start = elim (ltb start ((s.range i).start)) [
  | true ↦ node_get_child s (node i) left >>= λ child. next_from fuel s child (node i) start
  | false ↦ node_get_child s (node i) right >>= λ child. next_from fuel s child best start
]

unfoldable pub rb_find_next_by_start : RbTree → ℕ → Result NodePointer
rb_find_next_by_start tree start =
    kassert (rb_tree_valid tree) >> next_from (suc (made tree)) tree.store tree.root nil start

abbrev pub is_null : NodePointer → Bool
is_null null = true
is_null _ = false

-- The checks in the body of the loop of `rb_list_validate`
unfoldable pub validate_node : Nodes → ℕ → ℕ → Result (Unit {0})
validate_node s previous i = do
  before ← list_get s (node i) left
  kassert (equal_pointers before (node previous))
  after ← list_get s (node i) right
  kassert (not (is_null after))
  kassert (previous == 0 || is_negative (test_range_compare (s.range previous) (s.range i)))

-- The loop from `p` on, and the check after it; the fuel is for the length of the list.
unfoldable pub validate_from : ℕ → Nodes → NodePointer → ℕ → Result (Unit {0})
validate_from zero s p previous = stop out_of_fuel
validate_from (suc fuel) s null previous = stop assertion_failed
validate_from (suc fuel) s nil previous = stop assertion_failed
validate_from (suc fuel) s (node zero) previous =
    list_get s (node 0) left >>= λ last. kassert (equal_pointers (node previous) last)
validate_from (suc fuel) s (node (suc i)) previous =
    validate_node s previous (suc i)
    >> (list_get s (node (suc i)) right >>= λ after. validate_from fuel s after (suc i))

unfoldable pub rb_list_validate : RbTree → Result (Unit {0})
rb_list_validate tree = do
  kassert (rb_tree_valid tree)
  last ← list_get tree.store (node 0) left
  first ← list_get tree.store (node 0) right
  kassert (not (is_null last) && not (is_null first))
  after_last ← list_get tree.store last right
  kassert (equal_pointers after_last (node 0))
  before_first ← list_get tree.store first left
  kassert (equal_pointers before_first (node 0))
  validate_from (suc (made tree)) tree.store first 0
