-- ===== src/RbTree/Insert/Spot.antt =====
-- Where `rb_insert_helper` stands in the tree and in the list, and its step at a node.
use drastic.Base.{ℕ, suc, ◌+◌, ◌≤◌, ◌≡◌, ◌≢◌, refl, true, false, Result, ok, ◌>>=◌, arith}
use drastic.RbTree.{
  TestRange, uintptr_max, Direction, left, right, Color, NodePointer, node, Nodes, node_valid,
}
use drastic.RbTree.Arena.{RbTree, rb_tree_valid}
use drastic.RbTree.Insert.{InsertStatus, insert_ok, insert_above, rb_insert_helper}
use drastic.RbTree.Model.{Tree, branch, count, Distinct, ids, side}
use drastic.RbTree.Model.Order.{
  Between, Between-le, Valid, overlaps, test_range_valid-Valid, test_range_overlap-overlaps,
  compare-apart,
}
use drastic.RbTree.Heap.{Repr, Becomes}
use drastic.RbTree.Heap.Links.{Segment, Segment-split, LinksFrame}

-- The tree `t` in memory with its part of the list, from `a` to `b`, and the range of addresses it is for;
-- `n` is the number of the node to come.
pub record Spot (s : Nodes) (p : NodePointer) (t : Tree) (a b n lo hi : ℕ) : Type 0 where
  pub repr : Repr s p t
  pub segment : Segment s.list a (ids t) b
  pub distinct : Distinct t
  pub unused : count n t ≡ 0
  pub before : count a t ≡ 0
  pub behind : count b t ≡ 0
  pub not_before : n ≢ a
  pub not_behind : n ≢ b
  pub between : Between lo t hi
  pub limit : hi ≤ uintptr_max

pub Spot-left :
    (s : Nodes) (p : NodePointer) (i : ℕ) (c : Color) (r : TestRange) (x y : Tree) (a b n lo hi : ℕ)
    → Spot s p (branch i c r x y) a b n lo hi
    → Spot s (s.children left i) x a i n lo (r.start)
Spot-left s p i c r x y a b n lo hi h = record {
  repr = h.repr.3;
  segment = (Segment-split s.list a (ids x) i (ids y) b (h.segment)).0;
  distinct = λ k. omega (arith, h.distinct k);
  unused = omega (arith, h.unused);
  before = omega (arith, h.before);
  behind = ground (arith, h.distinct i);
  not_before = h.not_before;
  not_behind = λ e. ground (arith, h.unused);
  between = h.between.0;
  limit = omega (arith, h.limit, Between-le (r.start + r.len) y hi (h.between.2));
}

pub Spot-right :
    (s : Nodes) (p : NodePointer) (i : ℕ) (c : Color) (r : TestRange) (x y : Tree) (a b n lo hi : ℕ)
    → Spot s p (branch i c r x y) a b n lo hi
    → Spot s (s.children right i) y i b n (r.start + r.len) hi
Spot-right s p i c r x y a b n lo hi h = record {
  repr = h.repr.4;
  segment = (Segment-split s.list a (ids x) i (ids y) b (h.segment)).1;
  distinct = λ k. omega (arith, h.distinct k);
  unused = omega (arith, h.unused);
  before = ground (arith, h.distinct i);
  behind = omega (arith, h.behind);
  not_before = λ e. ground (arith, h.unused);
  not_behind = h.not_behind;
  between = h.between.2;
  limit = h.limit;
}

-- A call has put the new node in, and has taken it from `tree`, which left `grown`.
pub record Grows (tree grown : RbTree) (n : ℕ) (t t' : Tree) (a b : ℕ)
    (out : Result (NodePointer × (InsertStatus × RbTree))) : Type 0 where
  pub p : NodePointer
  pub store : Nodes
  pub returns : out ≡ ok (p, (insert_ok, record grown { store = store }))
  pub becomes : Becomes tree.store t t' store p
  pub segment : Segment store.list a (ids t') b
  pub frame : LinksFrame tree.store.list store.list a t b n

module _ (tree : RbTree) (q : TestRange) (v : Valid q)
    (tree_valid : rb_tree_valid tree ≡ true) where
  -- At a node that does not overlap, the call goes on to one side.
  pub helper-step :
      (fuel : ℕ) (i k : ℕ) (r : TestRange) (d e : Direction)
      → tree.store.range i ≡ r
      → Valid r
      → overlaps q r ≡ false
      → side q r ≡ e
      → node_valid (tree.store.children e i) ≡ ok (tree.store.children e i)
      → rb_insert_helper (suc fuel) tree (node i) q (node k) d
        ≡ (rb_insert_helper fuel tree (tree.store.children e i) q (node i) e >>= insert_above i e)
  unfolding rb_insert_helper
  helper-step fuel i k r d left er rv clear es valid =
      rw
        (
          tree_valid,
          test_range_valid-Valid q v,
          er,
          test_range_overlap-overlaps q r v rv,
          clear,
          er,
          compare-apart q r left v rv clear es,
          valid,
        )
        refl
  helper-step fuel i k r d right er rv clear es valid =
      rw
        (
          tree_valid,
          test_range_valid-Valid q v,
          er,
          test_range_overlap-overlaps q r v rv,
          clear,
          er,
          compare-apart q r right v rv clear es,
          valid,
        )
        refl
