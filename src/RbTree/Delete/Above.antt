-- ===== src/RbTree/Delete/Above.antt =====
-- `rb_delete_helper` after its recursive call.
use drastic.Base.{
  ℕ, ◌+◌, ◌≤◌, ◌<◌, ◌≡◌, refl, ◌∙◌, ap, true, false, ◌==◌, List, ◌++◌, Result, ok, ◌>>=◌, arith,
}
use drastic.RbTree.{TestRange, Direction, left, right, Color, NodePointer, node, Nodes}
use drastic.RbTree.Arena.{RbTree}
use drastic.RbTree.Delete.{DeleteStatus, delete_ok, delete_fail, delete_above, rb_delete_fix_up}
use drastic.RbTree.Delete.Part.{Part, SameLinks, Shrinks}
use drastic.RbTree.Model.{Tree, branch, count, Distinct, ids, child, replace, is_branch}
use drastic.RbTree.Model.Counts.{count-replace}
use drastic.RbTree.Model.Delete.{rejoin, delete_fix}
use drastic.RbTree.Model.Delete.Contents.{count-delete_fix, in_order-delete_fix}
use drastic.RbTree.Heap.{
  SameNode, same_node, Becomes, Becomes-trans, Repr-valid, with_child, set_link-SameNode, graft,
}
use drastic.RbTree.Heap.Rebalance.{rb_delete_fix_up-Fixes}
use drastic.RbTree.Heap.Sibling.{Fixes}
use drastic.RbTree.Heap.Links.{
  Segment, Segment-split, Segment-join, Segment-frame, Segment-same, times, times-append, times-ids,
}
use drastic.RbTree.Invariant.{Chain, Chain-frame}

module _ (tree : RbTree) (free : List ℕ) (i : ℕ) (c : Color) (r : TestRange) (x y : Tree) (a b : ℕ)
    (h : Part tree.store (node i) (branch i c r x y) a b)
    (apart : (k : ℕ) → count k (branch i c r x y) + times k free ≤ 1) where
  -- The rebuilt child `z` stands ready in `store`, at `p`.
  record Ready (d : Direction) (z : Tree) (gone : List ℕ) (store : Nodes)
      (p free_list : NodePointer) : Type 0 where
    counts : (k : ℕ) → count k z + times k gone ≡ count k (child d (branch i c r x y))
    becomes : Becomes tree.store (child d (branch i c r x y)) z store p
    segment : Segment store.list a (ids (replace d (branch i c r x y) z)) b
    frame : SameLinks tree.store.list store.list a (branch i c r x y) b
    chain : Chain store free_list (gone ++ free)

  module _ (d : Direction) (z : Tree) (gone : List ℕ) (store : Nodes) (p free_list : NodePointer)
      (g : Ready d z gone store p free_list) where
    replaced :
        (k : ℕ)
        → count k (replace d (branch i c r x y) z) + times k gone ≡ count k (branch i c r x y)
    replaced k = omega (arith, g.counts k, count-replace k d (branch i c r x y) z refl)

    Distinct-replaced : Distinct (replace d (branch i c r x y) z)
    Distinct-replaced k = omega (arith, h.distinct k, replaced k)

    placed :
        Becomes tree.store
          (branch i c r x y)
          (replace d (branch i c r x y) z)
          (with_child store i d p)
          (node i)
    placed =
        graft (tree.store) store d p (node i) i c r x y z (h.distinct) Distinct-replaced (h.repr)
          (g.becomes)

    -- A freed node is not in the tree any more.
    not_here : (k : ℕ) → 0 < times k (gone ++ free) → count k (replace d (branch i c r x y) z) ≡ 0
    not_here k lt = omega (arith, apart k, replaced k, times-append k gone free)

    placed-Chain : Chain (with_child store i d p) free_list (gone ++ free)
    placed-Chain =
        Chain-frame store (with_child store i d p) free_list (gone ++ free)
          (λ k lt. SameNode.right_child (
            set_link-SameNode store store d i k p (not_root k (not_here k lt)) (same_node store k)))
          (g.chain)
      where
        not_root : (k : ℕ) → count k (replace d (branch i c r x y) z) ≡ 0 → (k == i) ≡ false
        not_root k e = go d e
          where
            go : (d : Direction) → count k (replace d (branch i c r x y) z) ≡ 0 → (k == i) ≡ false
            go left e = ground arith
            go right e = ground arith

    stays-Shrinks :
        (out : Result (NodePointer × (DeleteStatus × RbTree)))
        → out ≡ ok (p, (delete_ok, record tree { store = store; free_list = free_list }))
        → Shrinks tree
            (branch i c r x y)
            (rejoin d (branch i c r x y) (z, delete_ok))
            gone
            free
            a
            b
            (out >>= delete_above i d)
    stays-Shrinks out e = record {
      p = node i;
      store = with_child store i d p;
      free_list = free_list;
      returns = unfold delete_above in rw (e, Repr-valid store p z (g.becomes.repr)) refl;
      becomes = placed;
      segment = g.segment;
      frame = g.frame;
      chain = placed-Chain;
    }

    fixed-Shrinks :
        (out : Result (NodePointer × (DeleteStatus × RbTree)))
        → out ≡ ok (p, (delete_fail, record tree { store = store; free_list = free_list }))
        → Shrinks tree
            (branch i c r x y)
            (rejoin d (branch i c r x y) (z, delete_fail))
            gone
            free
            a
            b
            (out >>= delete_above i d)
    fixed-Shrinks out e =
        let t1 : Tree = replace d (branch i c r x y) z in
        let s1 : Nodes = with_child store i d p in
        let f : Fixes s1 t1 (delete_fix d t1) (rb_delete_fix_up s1 (node i) d) =
          rb_delete_fix_up-Fixes s1 d (node i) t1 Distinct-replaced (placed.repr)
            (is_branch-replace d) in
        record {
          p = f.p;
          store = f.after;
          free_list = free_list;
          returns =
              unfold delete_above in rw (e, Repr-valid store p z (g.becomes.repr), f.returns) refl;
          becomes =
              Becomes-trans (tree.store) s1 (f.after) (branch i c r x y) t1 ((delete_fix d t1).0)
                (node i) (f.p) (λ k. omega (arith, count-delete_fix k d t1)) placed (f.becomes);
          segment =
              Segment-same (store.list) (f.after.list) a (ids t1) (ids ((delete_fix d t1).0)) b
                (f.same_list) (in_order-delete_fix (λ i q. i) d t1) (g.segment);
          frame = record {
            on_right = λ k n ka. ap (λ f. f right k) (f.same_list) ∙ g.frame.on_right k n ka;
            on_left = λ k n kb. ap (λ f. f left k) (f.same_list) ∙ g.frame.on_left k n kb;
          };
          chain =
              Chain-frame s1 (f.after) free_list (gone ++ free)
                (λ k lt.
                  SameNode.right_child
                    (f.becomes.frame k (omega (arith, not_here k lt, count-delete_fix k d t1))))
                placed-Chain;
        }
      where
        is_branch-replace : (d : Direction) → is_branch (replace d (branch i c r x y) z) ≡ true
        is_branch-replace left = refl
        is_branch-replace right = refl

  module _ (z : Tree × DeleteStatus) (gone : List ℕ)
      (out : Result (NodePointer × (DeleteStatus × RbTree))) where
    -- The call has left the child `z.0` ready on the left.
    Ready-left :
        ((k : ℕ) → count k (z.0) + times k gone ≡ count k x)
        → (g : Shrinks tree x z gone free a i out)
        → Ready left (z.0) gone (g.store) (g.p) (g.free_list)
    Ready-left counts g = record {
      counts = counts;
      becomes = g.becomes;
      segment = Segment-join (g.store.list) a (ids (z.0)) i (ids y) b (g.segment) (
          Segment-frame (tree.store.list) (g.store.list) i (ids y) b
            (λ k lt. g.frame.on_right k (ground (arith, times-ids k y, h.distinct k)) (λ e.
              ground (arith, times-ids k y, h.before, ap (λ k. count k (branch i c r x y)) e)))
            (λ k lt.
              g.frame.on_left k (ground (arith, times-ids k y, h.distinct k, h.behind))
                (λ e. ground (arith, times-ids k y, h.distinct k, h.behind)))
            ((Segment-split (tree.store.list) a (ids x) i (ids y) b (h.segment)).1));
      frame = record {
        on_right = λ k n ka. g.frame.on_right k (omega arith) ka;
        on_left = λ k n kb. g.frame.on_left k (omega arith) (λ e. ground arith);
      };
      chain = g.chain;
    }

    Ready-right :
        ((k : ℕ) → count k (z.0) + times k gone ≡ count k y)
        → (g : Shrinks tree y z gone free i b out)
        → Ready right (z.0) gone (g.store) (g.p) (g.free_list)
    Ready-right counts g = record {
      counts = counts;
      becomes = g.becomes;
      segment =
          Segment-join (g.store.list) a (ids x) i (ids (z.0)) b
            (Segment-frame (tree.store.list) (g.store.list) a (ids x) i
              (λ k lt.
                g.frame.on_right k (ground (arith, times-ids k x, h.distinct k, h.before))
                  (λ e. ground (arith, times-ids k x, h.distinct k, h.before)))
              (λ k lt. g.frame.on_left k (ground (arith, times-ids k x, h.distinct k)) (λ e.
                ground (arith, times-ids k x, h.behind, ap (λ k. count k (branch i c r x y)) e)))
              ((Segment-split (tree.store.list) a (ids x) i (ids y) b (h.segment)).0))
            (g.segment);
      frame = record {
        on_right = λ k n ka. g.frame.on_right k (omega arith) (λ e. ground arith);
        on_left = λ k n kb. g.frame.on_left k (omega arith) kb;
      };
      chain = g.chain;
    }

  pub above_left :
      (z : Tree × DeleteStatus) (gone : List ℕ)
      (out : Result (NodePointer × (DeleteStatus × RbTree)))
      → ((k : ℕ) → count k (z.0) + times k gone ≡ count k x)
      → Shrinks tree x z gone free a i out
      → Shrinks tree
          (branch i c r x y)
          (rejoin left (branch i c r x y) z)
          gone
          free
          a
          b
          (out >>= delete_above i left)
  above_left (z, delete_ok) gone out counts g =
      stays-Shrinks left z gone (g.store) (g.p) (g.free_list)
        (Ready-left (z, delete_ok) gone out counts g) out (g.returns)
  above_left (z, delete_fail) gone out counts g =
      fixed-Shrinks left z gone (g.store) (g.p) (g.free_list)
        (Ready-left (z, delete_fail) gone out counts g) out (g.returns)

  pub above_right :
      (z : Tree × DeleteStatus) (gone : List ℕ)
      (out : Result (NodePointer × (DeleteStatus × RbTree)))
      → ((k : ℕ) → count k (z.0) + times k gone ≡ count k y)
      → Shrinks tree y z gone free i b out
      → Shrinks tree
          (branch i c r x y)
          (rejoin right (branch i c r x y) z)
          gone
          free
          a
          b
          (out >>= delete_above i right)
  above_right (z, delete_ok) gone out counts g =
      stays-Shrinks right z gone (g.store) (g.p) (g.free_list)
        (Ready-right (z, delete_ok) gone out counts g) out (g.returns)
  above_right (z, delete_fail) gone out counts g =
      fixed-Shrinks right z gone (g.store) (g.p) (g.free_list)
        (Ready-right (z, delete_fail) gone out counts g) out (g.returns)
