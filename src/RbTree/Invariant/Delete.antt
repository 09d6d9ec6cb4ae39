-- ===== src/RbTree/Invariant/Delete.antt =====
-- `rb_delete` keeps the invariant, and deletes from the sorted list of ranges.
use drastic.Base.{
  ℕ, suc, ◌+◌, ◌≤◌, ◌≡◌, refl, sym, ◌∙◌, ap, List, ◌++◌, length, length-append, ok, ◌>>=◌, arith,
}
use mathlib.Core.Path.{subst}
use drastic.RbTree.{TestRange, uintptr_max, black, NodePointer, node, Nodes, node_set_color}
use drastic.RbTree.Arena.{RbTree, made}
use drastic.RbTree.Delete.{DeleteStatus, rb_delete, rb_delete_helper, delete_at_root}
use drastic.RbTree.Delete.Part.{Part, Shrinks}
use drastic.RbTree.Delete.Shrinks.{rb_delete_helper-Shrinks}
use drastic.RbTree.Model.{Tree, leaf, branch, count, ids, ranges, paint}
use drastic.RbTree.Model.Counts.{count-paint}
use drastic.RbTree.Model.InOrder.{in_order-paint, size-in_order}
use drastic.RbTree.Model.Order.{Valid, test_range_valid-Valid}
use drastic.RbTree.Model.Sorted.{Sorted, Between→Sorted, Sorted→Between}
use drastic.RbTree.Model.Delete.{delete, freed}
use drastic.RbTree.Model.Delete.Contents.{count-delete}
use drastic.RbTree.Model.Delete.Remove.{remove, ranges-delete, Sorted-remove, size-delete}
use drastic.RbTree.Model.Delete.RedBlack.{delete-IsRedBlack}
use drastic.RbTree.Heap.{Repr, Becomes, SameNode, same_node}
use drastic.RbTree.Heap.Recolor.{Paints, node_set_color-Paints}
use drastic.RbTree.Heap.Links.{Segment-same, times, times-append}
use drastic.RbTree.Invariant.{Holds, Chain-frame}
use drastic.RbTree.Invariant.Insert.{Holds-valid, Stored}

-- The root after the deletion, painted black if it is there.
record Rooted (tree : RbTree) (z : Tree) (p : NodePointer) (status : DeleteStatus) : Type 0 where
  after : Nodes
  returns : delete_at_root (p, (status, tree)) ≡ ok (record tree { store = after; root = p })
  becomes : Becomes tree.store z (paint black z) after p
  same_list : after.list ≡ tree.store.list

delete_at_root-Rooted :
    (tree : RbTree) (z : Tree) (p : NodePointer) (status : DeleteStatus)
    → ((k : ℕ) → count k z ≤ 1)
    → Repr tree.store p z
    → Rooted tree z p status
delete_at_root-Rooted tree leaf p status u e = record {
  after = tree.store;
  returns = unfold delete_at_root in rw e refl;
  becomes = record { repr = e; frame = λ k n. same_node (tree.store) k };
  same_list = refl;
}
delete_at_root-Rooted tree (branch i c q x y) p status u h =
    let f : Paints tree.store (branch i c q x y) (branch i black q x y) p
        (node_set_color (tree.store) p black) =
      node_set_color-Paints (tree.store) p black (branch i c q x y) u h refl in
    record {
      after = f.after;
      returns = root-returns (h.0) (f.returns);
      becomes = f.becomes;
      same_list = f.same_list;
    }
  where
    root-returns :
        {s : Nodes}
        → p ≡ node i
        → node_set_color (tree.store) p black ≡ ok s
        → delete_at_root (p, (status, tree)) ≡ ok (record tree { store = s; root = p })
    root-returns {s} e f =
        let f' : node_set_color (tree.store) (node i) black ≡ ok s =
          subst (λ p. node_set_color (tree.store) p black ≡ ok s) e f in
        subst (λ p. delete_at_root (p, (status, tree)) ≡ ok (record tree { store = s; root = p }))
          (sym e)
          (unfold delete_at_root in
            ap (λ r. r >>= λ s. ok (record tree { store = s; root = node i })) f')

module _ (tree : RbTree) (t : Tree) (free : List ℕ) (h : Holds tree t free) (q : TestRange)
    (v : Valid q) where
  delete-start :
      (out : NodePointer × (DeleteStatus × RbTree))
      → rb_delete_helper (suc (made tree)) tree (tree.root) q ≡ ok out
      → rb_delete tree q ≡ delete_at_root out
  unfolding rb_delete
  delete-start out e = rw (Holds-valid tree t free h, test_range_valid-Valid q v, e) refl

  root-Part : Part tree.store tree.root t 0 0
  root-Part = record {
    repr = h.repr;
    segment = h.segment;
    distinct = λ k. omega (arith, h.distinct k);
    before = ground (arith, h.distinct 0);
    behind = ground (arith, h.distinct 0);
  }

  delete-Stored :
      (after : RbTree) × (rb_delete tree q ≡ ok after) × Stored after (remove q (ranges t))
  delete-Stored =
      let z : Tree = (delete q t).0 in
      let g : Shrinks tree t (delete q t) (freed q t) free 0 0
          (rb_delete_helper (suc (made tree)) tree (tree.root) q) =
        rb_delete_helper-Shrinks (suc (made tree)) tree q (tree.root) t free 0 0 0 uintptr_max
          (omega (arith, h.total)) v (Holds-valid tree t free h) root-Part (h.ordered) (omega arith)
          (h.chain) (λ k. omega (arith, h.distinct k)) in
      let c : (k : ℕ) → count k z + times k (freed q t) ≡ count k t = λ k. count-delete k q t in
      let tree1 : RbTree = record tree { store = g.store; free_list = g.free_list } in
      let f : Rooted tree1 z (g.p) ((delete q t).1) =
        delete_at_root-Rooted tree1 z (g.p) ((delete q t).1) (λ k. omega (arith, c k, h.distinct k))
          (g.becomes.repr) in
      let same_ranges : ranges (paint black z) ≡ remove q (ranges t) =
        in_order-paint (λ i q. q) black z ∙ ranges-delete q 0 t uintptr_max (h.ordered) in
      (
        record tree1 { store = f.after; root = g.p },
        delete-start (g.p, ((delete q t).1, tree1)) (g.returns) ∙ f.returns,
        record {
          t = paint black z;
          free = freed q t ++ free;
          holds = record {
            repr = f.becomes.repr;
            segment =
                Segment-same (g.store.list) (f.after.list) 0 (ids z) (ids (paint black z)) 0
                  (f.same_list) (in_order-paint (λ i q. i) black z) (g.segment);
            chain =
                Chain-frame (g.store) (f.after) (g.free_list) (freed q t ++ free)
                  (λ k lt. SameNode.right_child (
                    f.becomes.frame k (
                      omega (
                        arith,
                        count-paint k black z,
                        c k,
                        h.distinct k,
                        times-append k (freed q t) free,
                      ))))
                  (g.chain);
            distinct = λ k.
                omega (
                  arith,
                  count-paint k black z,
                  c k,
                  h.distinct k,
                  times-append k (freed q t) free,
                );
            total = omega (
              arith,
              h.total,
              size-delete q t,
              length-append (freed q t) free,
              size-in_order (λ i q. q) (paint black z),
              size-in_order (λ i q. q) z,
              ap length (in_order-paint (λ i q. q) black z),
            );
            below = λ k lt.
                h.below k
                  (omega (arith, count-paint k black z, c k, times-append k (freed q t) free));
            paged = h.paged;
            room = h.room;
            ordered = Sorted→Between 0 (paint black z) uintptr_max (
                subst (λ rs. Sorted 0 rs uintptr_max) (sym same_ranges)
                  (Sorted-remove q 0 (ranges t) uintptr_max
                    (Between→Sorted 0 t uintptr_max (h.ordered))));
            balanced = delete-IsRedBlack q t (h.balanced);
          };
          same = same_ranges;
        },
      )

-- A call of `rb_delete` returns, and leaves the ranges without this one.
abbrev pub DeleteResult : RbTree → TestRange → List TestRange → Type 0
DeleteResult tree q rs =
    (after : RbTree) × (rb_delete tree q ≡ ok after) × Stored after (remove q rs)

-- If a tree stores a list of ranges (as an ordered red-black tree, linked in order, with no node
-- lost), and the range to delete is not empty and ends within the addresses, then rb_delete
-- returns, no assertion failing, with a tree that stores the list without that range, or the same
-- list if it is not there.
pub rb_delete-refines :
    (tree : RbTree) (rs : List TestRange) (q : TestRange)
    → Stored tree rs
    → Valid q
    → DeleteResult tree q rs
rb_delete-refines tree rs q s v =
    subst (λ rs. DeleteResult tree q rs) (s.same) (delete-Stored tree (s.t) (s.free) (s.holds) q v)
