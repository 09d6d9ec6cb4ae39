-- ===== src/RbTree/Delete/Shrinks.antt =====
-- `rb_delete_helper` takes the node with the range out of the tree and out of the list.
use drastic.Base.{
  ℕ, zero, suc, ◌+◌, ◌≤◌, ◌<◌, ◌≡◌, refl, ap, true, ◌&&◌, Bool-cases, inl, inr, List, Result, ◌>>=◌,
  arith,
}
use mathlib.Core.Path.{subst}
use drastic.Base.Int.{is_zero}
use drastic.RbTree.{
  TestRange, test_range_compare, uintptr_max, left, right, Color, NodePointer, nil, node,
}
use drastic.RbTree.Arena.{RbTree, rb_tree_valid}
use drastic.RbTree.Delete.{DeleteStatus, delete_above, rb_delete_helper}
use drastic.RbTree.Delete.Part.{Part, Part-left, Part-right, Shrinks, unlink_node-Shrinks}
use drastic.RbTree.Delete.Above.{above_left, above_right}
use drastic.RbTree.Model.{Tree, leaf, branch, count, Distinct, size, is_branch, side}
use drastic.RbTree.Model.Counts.{Direction-cases}
use drastic.RbTree.Model.Order.{Between, Between-le, Valid, test_range_valid-Valid}
use drastic.RbTree.Model.Delete.{
  delete, freed, rejoin, last_range, delete-both, delete-here, delete-left, delete-right,
}
use drastic.RbTree.Model.Delete.Contents.{count-delete}
use drastic.RbTree.Heap.{Repr, same_node, Becomes, Becomes-trans}
use drastic.RbTree.Heap.Links.{times}
use drastic.RbTree.Invariant.{Chain, Chain-frame}
use drastic.RbTree.Delete.Decide.{
  last_range-Valid, with_range, with_range-Becomes, temp, temp-Repr, helper-here, helper-both,
  helper-left, helper-right,
}

-- A call on the tree whose node `node i` has taken over a range.
Shrinks-with_range :
    (tree : RbTree) (i : ℕ) (c : Color) (r q : TestRange) (x y : Tree) (z : Tree × DeleteStatus)
    (gone free : List ℕ) (a b : ℕ) (out : Result (NodePointer × (DeleteStatus × RbTree)))
    → Distinct (branch i c r x y)
    → Repr tree.store (node i) (branch i c r x y)
    → Shrinks (with_range tree i q) (branch i c q x y) z gone free a b out
    → Shrinks tree (branch i c r x y) z gone free a b out
Shrinks-with_range tree i c r q x y z gone free a b out u h g = record {
  p = g.p;
  store = g.store;
  free_list = g.free_list;
  returns = g.returns;
  becomes =
      Becomes-trans (tree.store) ((with_range tree i q).store) (g.store) (branch i c r x y)
        (branch i c q x y) (z.0) (node i) (g.p) (λ k. omega arith)
        (with_range-Becomes tree i c r q x y u h) (g.becomes);
  segment = g.segment;
  frame = record { on_right = g.frame.on_right; on_left = g.frame.on_left };
  chain = g.chain;
}

Part-with_range :
    (tree : RbTree) (i : ℕ) (c : Color) (r q : TestRange) (x y : Tree) (a b : ℕ)
    → Part tree.store (node i) (branch i c r x y) a b
    → Part (with_range tree i q).store (node i) (branch i c q x y) a b
Part-with_range tree i c r q x y a b h = record {
  repr = Becomes.repr (with_range-Becomes tree i c r q x y (h.distinct) (h.repr));
  segment = h.segment;
  distinct = h.distinct;
  before = h.before;
  behind = h.behind;
}

pub rb_delete_helper-Shrinks :
    (fuel : ℕ) (tree : RbTree) (q : TestRange) (p : NodePointer) (t : Tree) (free : List ℕ)
    (a b lo hi : ℕ)
    → size t < fuel
    → Valid q
    → rb_tree_valid tree ≡ true
    → Part tree.store p t a b
    → Between lo t hi
    → hi ≤ uintptr_max
    → Chain tree.store tree.free_list free
    → ((k : ℕ) → count k t + times k free ≤ 1)
    → Shrinks tree t (delete q t) (freed q t) free a b (rb_delete_helper fuel tree p q)
rb_delete_helper-Shrinks zero tree q p t free a b lo hi lt v tv h w l ch ap = absurd (omega arith)
rb_delete_helper-Shrinks (suc fuel) tree q p leaf free a b lo hi lt v tv h w l ch ap = record {
  p = nil;
  store = tree.store;
  free_list = tree.free_list;
  returns = unfold rb_delete_helper delete in rw (h.repr, tv, test_range_valid-Valid q v) refl;
  becomes = unfold delete in record { repr = refl; frame = λ k n. same_node (tree.store) k };
  segment = unfold delete in h.segment;
  frame = record { on_right = λ k n ka. refl; on_left = λ k n kb. refl };
  chain = unfold freed in ch;
}
rb_delete_helper-Shrinks (suc fuel) tree q p (branch i c r x y) free a b lo hi lt v tv h w l ch
      apart =
    let t : Tree = branch i c r x y in
    let here : Part tree.store (node i) t a b = subst (λ p. Part tree.store p t a b) (h.repr.0) h in
    let px : Part tree.store (tree.store.children left i) x a i =
      Part-left (tree.store) (node i) i c r x y a b here in
    let py : Part tree.store (tree.store.children right i) y i b =
      Part-right (tree.store) (node i) i c r x y a b here in
    let rl : r.start ≤ uintptr_max = omega (arith, l, Between-le (r.start + r.len) y hi (w.2)) in
    rw (h.repr.0) (elim (Bool-cases (is_zero (test_range_compare r q))) [
      | inl e ↦ elim (Bool-cases (is_branch x && is_branch y)) [
        | inl f ↦
            let k : TestRange = last_range r x in
            let tree1 : RbTree = with_range tree i k in
            let kv : Valid k = last_range-Valid r lo x (r.start) (ground arith) (w.0) rl in
            let p1 : Part tree1.store (node i) (branch i c k x y) a b =
              Part-with_range tree i c r k x y a b here in
            let ch1 : Chain tree1.store tree.free_list free =
              Chain-frame (tree.store) (tree1.store) (tree.free_list) free (λ k lt. refl) ch in
            rw
              (
                helper-both tree q v tv fuel i c r x y a b here e f (omega arith),
                (delete-both q i c r x y e f).0,
                (delete-both q i c r x y e f).1,
              )
              (Shrinks-with_range tree i c r k x y (rejoin left (branch i c k x y) (delete k x))
                (freed k x) free a b
                (rb_delete_helper fuel tree1 (tree.store.children left i) k >>= delete_above i left)
                (h.distinct) (here.repr)
                (above_left tree1 free i c k x y a b p1 apart (delete k x) (freed k x)
                  (rb_delete_helper fuel tree1 (tree.store.children left i) k)
                  (λ n. count-delete n k x)
                  (rb_delete_helper-Shrinks fuel tree1 k (tree.store.children left i) x free a i lo
                    (r.start) (omega arith) kv tv
                    (Part-left (tree1.store) (node i) i c k x y a b p1) (w.0) rl ch1
                    (λ n. omega (arith, apart n)))))
        | inr f ↦
            rw
              (
                helper-here tree q v tv fuel i c r x y a b here e f,
                (delete-here q i c r x y e f).0,
                (delete-here q i c r x y e f).1,
              )
              (unlink_node-Shrinks tree tv free ch (node i)
                (temp tree q v tv fuel i c r x y a b here) i c r x y a b here apart f
                (temp-Repr tree q v tv fuel i c r x y a b here))
      ]
      | inr e ↦ elim (Direction-cases (side q r)) [
        | inl f ↦
            rw
              (
                helper-left tree q v tv fuel i c r x y a b here e f,
                (delete-left q i c r x y e f).0,
                (delete-left q i c r x y e f).1,
              )
              (above_left tree free i c r x y a b here apart (delete q x) (freed q x)
                (rb_delete_helper fuel tree (tree.store.children left i) q)
                (λ k. count-delete k q x)
                (rb_delete_helper-Shrinks fuel tree q (tree.store.children left i) x free a i lo
                  (r.start) (omega arith) v tv px (w.0) rl ch (λ k. omega (arith, apart k))))
        | inr f ↦
            rw
              (
                helper-right tree q v tv fuel i c r x y a b here e f,
                (delete-right q i c r x y e f).0,
                (delete-right q i c r x y e f).1,
              )
              (above_right tree free i c r x y a b here apart (delete q y) (freed q y)
                (rb_delete_helper fuel tree (tree.store.children right i) q)
                (λ k. count-delete k q y)
                (rb_delete_helper-Shrinks fuel tree q (tree.store.children right i) y free i b
                  (r.start + r.len) hi (omega arith) v tv py (w.2) l ch
                  (λ k. omega (arith, apart k))))
      ]
    ])
