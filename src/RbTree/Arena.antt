-- ===== src/RbTree/Arena.antt =====
-- experiments/rbtree.c, lines 11 to 17 and 228 to 357: where the nodes come from, and making, freeing and clearing.
--
-- The nodes of a page are numbered on from those of the page before. What `calloc` still gives is the
-- number `pages_left`; it fails when none is left.
use drastic.Base.{
  ℕ, zero, suc, ◌+◌, ◌-◌, ◌*◌, ◌/◌, Bool, true, false, ◌&&◌, Option, none, some, ltb, if◌then◌else◌,
  Result, ok, stop, assertion_failed, out_of_fuel, kassert, ◌>>=◌, ◌>>◌,
}
use drastic.RbTree.{
  TestRange, test_range_valid, left, right, Color, black, NodePointer, null, nil, node, Nodes,
  set_at, set_link, node_get_child,
}

-- `sizeof(Node)`: a range and four pointers; and `RB_NODES_MAX`
abbrev pub size_of_node : ℕ
size_of_node = 16 + 4 * 8

abbrev pub nodes_max : ℕ
nodes_max = (4096 - 32) / size_of_node

-- `RB_Tree`, with what its nodes hold. `pages` counts the pages of the chain, and `node_count` the
-- nodes that the current one, the last, has given out.
pub record RbTree : Type 0 where
  pub store : Nodes
  pub root : NodePointer
  pub free_list : NodePointer
  pub pages : ℕ
  pub node_count : ℕ
  pub pages_left : ℕ

-- The nodes that have been given out.
abbrev pub made : RbTree → ℕ
made tree = (tree.pages - 1) * nodes_max + tree.node_count

abbrev pub pointer_valid : NodePointer → Bool
pointer_valid null = false
pointer_valid _ = true

abbrev pub rb_tree_valid : RbTree → Bool
rb_tree_valid tree = pointer_valid tree.root && ltb 0 tree.pages

-- `calloc`: whether there is a page, and what is left then.
abbrev pub page_alloc : ℕ → Bool × ℕ
page_alloc zero = (false, 0)
page_alloc (suc n) = (true, n)

-- Both links of the sentinel lead to itself.
abbrev pub empty_list : Nodes → Nodes
empty_list s = record s { list = set_link (set_link s.list left 0 (node 0)) right 0 (node 0) }

unfoldable pub rb_tree_init : RbTree → Bool × RbTree
rb_tree_init tree =
    let (found, left_over) = page_alloc tree.pages_left in
    if found
    then (
      true,
      record tree {
        store = empty_list tree.store;
        root = nil;
        pages = 1;
        node_count = 0;
        pages_left = left_over;
      },
    )
    else (false, record tree { root = nil; pages_left = left_over })

-- A zeroed node: `*node = (Node){ 0 }`, or a node of a page from `calloc`.
abbrev pub cleared : Nodes → ℕ → Nodes
cleared s i = record {
  range = set_at s.range i (record { start = 0; len = 0 });
  list = set_link (set_link s.list left i null) right i null;
  children = set_link (set_link s.children left i null) right i null;
  color = set_at s.color i black;
}

-- The fields that `rb_tree_node_make` sets in a zeroed node.
abbrev pub made_node : Nodes → ℕ → TestRange → Color → Nodes
made_node s i range color =
    let z = cleared s i in
    record z {
      range = set_at z.range i range;
      children = set_link (set_link z.children left i nil) right i nil;
      color = set_at z.color i color;
    }

-- The node that is used next: one that was freed, the next of the current page, or the first of a new
-- page. `none` is NULL.
unfoldable pub next_node : RbTree → Result (Option (ℕ × RbTree))
next_node tree = elim (tree.free_list) [
  | node i ↦ ok (some (i, record tree { free_list = tree.store.children right i }))
  | nil ↦ stop assertion_failed
  | null ↦
      if ltb tree.node_count nodes_max
      then (let grown = record tree { node_count = tree.node_count + 1 } in
          ok (some (made grown, grown)))
      else (let (found, left_over) = page_alloc tree.pages_left in
          let paged = record tree {
            pages = tree.pages + 1;
            node_count = 1;
            pages_left = left_over;
          } in
          if found then ok (some (made paged, paged)) else ok none)
]

unfoldable pub rb_tree_node_make : RbTree → TestRange → Color → Result (Option (ℕ × RbTree))
rb_tree_node_make tree range color =
    kassert (rb_tree_valid tree)
    >> (kassert (test_range_valid range)
        >> (next_node tree >>= λ found. elim found [
          | none ↦ ok none
          | some (i, after) ↦
              ok (some (i, record after { store = made_node after.store i range color }))
        ]))

-- The last two lines of `rb_tree_node_free`.
abbrev pub push_free : RbTree → ℕ → RbTree
push_free tree i = record tree {
  store = record (tree.store) { children = set_link tree.store.children right i tree.free_list };
  free_list = node i;
}

-- `rb_tree_node_free` without `recurse`
abbrev pub node_free : RbTree → NodePointer → Result RbTree
node_free tree null = stop assertion_failed
node_free tree nil = kassert (rb_tree_valid tree) >> ok tree
node_free tree (node i) = kassert (rb_tree_valid tree) >> ok (push_free tree i)

-- `rb_tree_node_free` with `recurse`; the fuel is for the depth of the tree.
unfoldable pub node_free_all : ℕ → RbTree → NodePointer → Result RbTree
node_free_all zero tree p = stop out_of_fuel
node_free_all (suc fuel) tree null = stop assertion_failed
node_free_all (suc fuel) tree nil = kassert (rb_tree_valid tree) >> ok tree
node_free_all (suc fuel) tree (node i) =
    kassert (rb_tree_valid tree)
    >> (node_get_child tree.store (node i) left >>= λ l. node_free_all fuel tree l >>= λ tree1.
        node_get_child tree1.store (node i) right >>= λ r.
        node_free_all fuel tree1 r >>= λ tree2. ok (push_free tree2 i))

unfoldable pub rb_clear : RbTree → Result RbTree
rb_clear tree = do
  kassert (rb_tree_valid tree)
  freed ← node_free_all (suc (made tree)) tree tree.root
  ok (record freed { store = empty_list freed.store; root = nil })

-- `(RB_Tree){ 0 }`
abbrev pub zero_tree : RbTree → RbTree
zero_tree tree = record tree { root = null; free_list = null; pages = 0; node_count = 0 }

-- How many pages are given back, and the zeroed tree.
unfoldable pub rb_destroy : RbTree → ℕ × RbTree
rb_destroy tree = if rb_tree_valid tree then (tree.pages, zero_tree tree) else (0, zero_tree tree)
