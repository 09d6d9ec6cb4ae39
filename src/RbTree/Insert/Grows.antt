-- ===== src/RbTree/Insert/Grows.antt =====
-- `rb_insert_helper` puts a new node in the tree and in the list.
use drastic.Base.{
  ℕ, zero, suc, ◌+◌, ◌<◌, ◌≡◌, ◌≢◌, refl, ◌∙◌, ap, true, false, ◌==◌, inl, inr, [], some, Result,
  ok, ◌>>=◌, arith,
}
use mathlib.Core.Path.{subst}
use drastic.RbTree.{
  TestRange, Direction, left, right, Color, red, NodePointer, node, Nodes, node_valid,
}
use drastic.RbTree.Arena.{RbTree, rb_tree_valid, rb_tree_node_make, next_node, made_node}
use drastic.RbTree.Insert.{
  InsertStatus, insert_ok, insert_leaf, insert_above, rb_insert_helper, rb_insert_fix_up,
}
use drastic.RbTree.Model.{
  Tree, leaf, branch, count, Distinct, ids, size, side, insert, insert_fix, insert-left,
  insert-right,
}
use drastic.RbTree.Model.Counts.{count-insert, count-insert_fix, Direction-cases}
use drastic.RbTree.Model.InOrder.{in_order-insert_fix}
use drastic.RbTree.Model.Order.{
  Between-le, Valid, overlaps, meets, meets-branch, test_range_valid-Valid,
}
use drastic.RbTree.Heap.{
  Repr, SameNode, Becomes, Does, Becomes-trans, Repr-valid, with_child, graft,
}
use drastic.RbTree.Heap.InsertFix.{rb_insert_fix_up-Does}
use drastic.RbTree.Heap.Links.{
  Segment, Segment-split, Segment-join, Segment-frame, Segment-same, times-ids, anchor, LinksFrame,
  linked, node_insert-linked, linked-Segment,
}
use drastic.RbTree.Insert.Spot.{Spot, Spot-left, Spot-right, Grows, helper-step}

module _ (tree grown : RbTree) (n : ℕ) (q : TestRange) (v : Valid q)
    (tree_valid : rb_tree_valid tree ≡ true) (found : next_node tree ≡ ok (some (n, grown)))
    (same : grown.store ≡ tree.store) where
  new-Segment :
      (d : Direction) (a b : ℕ)
      → Segment tree.store.list a [] b
      → n ≢ a
      → n ≢ b
      → Segment ((made_node (grown.store) n q red).list) a [] b
  new-Segment d a b (e, e') na nb =
      let sl : grown.store.list ≡ tree.store.list = ap (λ s. s.list) same in
      (rw (sl) (ground arith), rw sl (ground arith))

  new-SameNode :
      (d : Direction) (a b k : ℕ)
      → (k == n) ≡ false
      → SameNode tree.store (linked (made_node (grown.store) n q red) d n a b) k
  new-SameNode left a b k e = record {
    range = rw e (ap (λ s. s.range k) same);
    color = rw e (ap (λ s. s.color k) same);
    left_child = rw e (ap (λ s. s.children left k) same);
    right_child = rw e (ap (λ s. s.children right k) same);
  }
  new-SameNode right a b k e = record {
    range = rw e (ap (λ s. s.range k) same);
    color = rw e (ap (λ s. s.color k) same);
    left_child = rw e (ap (λ s. s.children left k) same);
    right_child = rw e (ap (λ s. s.children right k) same);
  }

  new-LinksFrame :
      (d : Direction) (a b : ℕ)
      → LinksFrame
          (tree.store.list)
          ((linked (made_node (grown.store) n q red) d n a b).list)
          a
          leaf
          b
          n
  new-LinksFrame left a b = record {
    on_right = λ k z ka kn.
        let e : grown.store.list right k ≡ tree.store.list right k =
          ap (λ s. s.list right k) same in
        ground arith;
    on_left = λ k z ka kn.
        let e : grown.store.list left k ≡ tree.store.list left k = ap (λ s. s.list left k) same in
        ground arith;
  }
  new-LinksFrame right a b = record {
    on_right = λ k z ka kn.
        let e : grown.store.list right k ≡ tree.store.list right k =
          ap (λ s. s.list right k) same in
        ground arith;
    on_left = λ k z ka kn.
        let e : grown.store.list left k ≡ tree.store.list left k = ap (λ s. s.list left k) same in
        ground arith;
  }

  new-Repr :
      (d : Direction) (a b : ℕ)
      → Repr (linked (made_node (grown.store) n q red) d n a b) (node n) (branch n red q leaf leaf)
  new-Repr left a b = (refl, ground arith, ground arith, ground arith, ground arith)
  new-Repr right a b = (refl, ground arith, ground arith, ground arith, ground arith)

  leaf-Grows :
      (d : Direction) (a b : ℕ)
      → Segment tree.store.list a [] b
      → n ≢ a
      → n ≢ b
      → Grows tree grown n leaf (insert n q leaf) a b (insert_leaf tree q (node (anchor d a b)) d)
  unfolding insert_leaf rb_tree_node_make insert
  leaf-Grows d a b h na nb =
      let s : Nodes = made_node (grown.store) n q red in
      let around : Segment s.list a [] b = new-Segment d a b h na nb in
      record {
        p = node n;
        store = linked s d n a b;
        returns =
            rw
              (
                tree_valid,
                test_range_valid-Valid q v,
                found,
                node_insert-linked s d n a b around na nb,
              )
              refl;
        becomes = record {
          repr = new-Repr d a b;
          frame = λ k z. new-SameNode d a b k (ground arith);
        };
        segment = linked-Segment s d n a b na nb;
        frame = new-LinksFrame d a b;
      }

  above-returns :
      (s s2 : Nodes) (i : ℕ) (d : Direction) (r p : NodePointer)
      → node_valid r ≡ ok r
      → rb_insert_fix_up (with_child s i d r) (node i) d ≡ ok (p, s2)
      → insert_above i d (r, (insert_ok, record grown { store = s }))
        ≡ ok (p, (insert_ok, record grown { store = s2 }))
  unfolding insert_above
  above-returns s s2 i d r p e f = rw (e, f) refl

  left-Grows :
      (i : ℕ) (c : Color) (r : TestRange) (x y : Tree) (a b lo hi : ℕ)
      (out : Result (NodePointer × (InsertStatus × RbTree)))
      → Spot tree.store (node i) (branch i c r x y) a b n lo hi
      → side q r ≡ left
      → Grows tree grown n x (insert n q x) a i out
      → Grows tree grown n
          (branch i c r x y)
          (insert n q (branch i c r x y))
          a
          b
          (out >>= insert_above i left)
  left-Grows i c r x y a b lo hi out h e g =
      let t : Tree = branch i c r x y in
      let z : Tree = insert n q x in
      let t1 : Tree = branch i c r z y in
      let u1 : Distinct t1 = λ k. ground (arith, count-insert k n q x, h.distinct k, h.unused) in
      let s1 : Nodes = with_child (g.store) i left (g.p) in
      let grafted : Becomes tree.store t t1 s1 (node i) =
        graft (tree.store) (g.store) left (g.p) (node i) i c r x y z (h.distinct) u1 (h.repr)
          (g.becomes) in
      let fixed : Does s1 t1 (insert_fix left t1) (rb_insert_fix_up s1 (node i) left) =
        rb_insert_fix_up-Does s1 left (node i) t1 u1 (grafted.repr) refl in
      let behind : Segment g.store.list i (ids y) b =
        Segment-frame (tree.store.list) (g.store.list) i (ids y) b
          (λ k lt.
            g.frame.on_right k (ground (arith, times-ids k y, h.distinct k))
              (λ ka. ground (arith, times-ids k y, h.before, ap (λ k. count k t) ka))
              (λ kn. ground (arith, times-ids k y, h.unused, ap (λ k. count k t) kn)))
          (λ k lt.
            g.frame.on_left k (ground (arith, times-ids k y, h.distinct k, h.behind))
              (λ ki. ground (arith, times-ids k y, h.distinct k, h.behind))
              (λ kn. ground (arith, times-ids k y, h.unused, h.not_behind, ap (λ k. count k t) kn)))
          ((Segment-split (tree.store.list) a (ids x) i (ids y) b (h.segment)).1) in
      rw (insert-left n q i c r x y e) (record {
        p = fixed.p;
        store = fixed.after;
        returns = rw (g.returns) (
            above-returns (g.store) (fixed.after) i left (g.p) (fixed.p)
              (Repr-valid (g.store) (g.p) z (g.becomes.repr)) (fixed.returns));
        becomes =
            Becomes-trans (tree.store) s1 (fixed.after) t t1 (insert_fix left t1) (node i) (fixed.p)
              (λ k. omega (arith, count-insert_fix k left t1)) grafted (fixed.becomes);
        segment =
            Segment-same (g.store.list) (fixed.after.list) a (ids t1) (ids (insert_fix left t1)) b
              (fixed.same_list) (in_order-insert_fix (λ i q. i) left t1)
              (Segment-join (g.store.list) a (ids z) i (ids y) b (g.segment) behind);
        frame = record {
          on_right = λ k z ka kn.
              ap (λ f. f right k) (fixed.same_list) ∙ g.frame.on_right k (omega arith) ka kn;
          on_left = λ k z kb kn.
              ap (λ f. f left k) (fixed.same_list)
              ∙ g.frame.on_left k (omega arith) (λ ki. ground arith) kn;
        };
      })

  right-Grows :
      (i : ℕ) (c : Color) (r : TestRange) (x y : Tree) (a b lo hi : ℕ)
      (out : Result (NodePointer × (InsertStatus × RbTree)))
      → Spot tree.store (node i) (branch i c r x y) a b n lo hi
      → side q r ≡ right
      → Grows tree grown n y (insert n q y) i b out
      → Grows tree grown n
          (branch i c r x y)
          (insert n q (branch i c r x y))
          a
          b
          (out >>= insert_above i right)
  right-Grows i c r x y a b lo hi out h e g =
      let t : Tree = branch i c r x y in
      let z : Tree = insert n q y in
      let t1 : Tree = branch i c r x z in
      let u1 : Distinct t1 = λ k. ground (arith, count-insert k n q y, h.distinct k, h.unused) in
      let s1 : Nodes = with_child (g.store) i right (g.p) in
      let grafted : Becomes tree.store t t1 s1 (node i) =
        graft (tree.store) (g.store) right (g.p) (node i) i c r x y z (h.distinct) u1 (h.repr)
          (g.becomes) in
      let fixed : Does s1 t1 (insert_fix right t1) (rb_insert_fix_up s1 (node i) right) =
        rb_insert_fix_up-Does s1 right (node i) t1 u1 (grafted.repr) refl in
      let ahead : Segment g.store.list a (ids x) i =
        Segment-frame (tree.store.list) (g.store.list) a (ids x) i
          (λ k lt.
            g.frame.on_right k (ground (arith, times-ids k x, h.distinct k, h.before))
              (λ ki. ground (arith, times-ids k x, h.distinct k, h.before))
              (λ kn. ground (arith, times-ids k x, h.unused, h.not_before, ap (λ k. count k t) kn)))
          (λ k lt.
            g.frame.on_left k (ground (arith, times-ids k x, h.distinct k))
              (λ kb. ground (arith, times-ids k x, h.behind, ap (λ k. count k t) kb))
              (λ kn. ground (arith, times-ids k x, h.unused, ap (λ k. count k t) kn)))
          ((Segment-split (tree.store.list) a (ids x) i (ids y) b (h.segment)).0) in
      rw (insert-right n q i c r x y e) (record {
        p = fixed.p;
        store = fixed.after;
        returns = rw (g.returns) (
            above-returns (g.store) (fixed.after) i right (g.p) (fixed.p)
              (Repr-valid (g.store) (g.p) z (g.becomes.repr)) (fixed.returns));
        becomes =
            Becomes-trans (tree.store) s1 (fixed.after) t t1 (insert_fix right t1) (node i)
              (fixed.p) (λ k. omega (arith, count-insert_fix k right t1)) grafted (fixed.becomes);
        segment =
            Segment-same (g.store.list) (fixed.after.list) a (ids t1) (ids (insert_fix right t1)) b
              (fixed.same_list) (in_order-insert_fix (λ i q. i) right t1)
              (Segment-join (g.store.list) a (ids x) i (ids z) b ahead (g.segment));
        frame = record {
          on_right = λ k z ka kn.
              ap (λ f. f right k) (fixed.same_list)
              ∙ g.frame.on_right k (omega arith) (λ ki. ground arith) kn;
          on_left = λ k z kb kn.
              ap (λ f. f left k) (fixed.same_list) ∙ g.frame.on_left k (omega arith) kb kn;
        };
      })

  pub rb_insert_helper-Grows :
      (fuel : ℕ) (d : Direction) (p : NodePointer) (t : Tree) (a b lo hi : ℕ)
      → size t < fuel
      → meets q t ≡ false
      → Spot tree.store p t a b n lo hi
      → Grows tree grown n t
          (insert n q t)
          a
          b
          (rb_insert_helper fuel tree p q (node (anchor d a b)) d)
  rb_insert_helper-Grows zero d p t a b lo hi lt m h = absurd (omega arith)
  rb_insert_helper-Grows (suc fuel) d p leaf a b lo hi lt m h =
      unfold rb_insert_helper in
      rw (h.repr, tree_valid, test_range_valid-Valid q v)
        (leaf-Grows d a b (h.segment) (h.not_before) (h.not_behind))
  rb_insert_helper-Grows (suc fuel) d p (branch i c r x y) a b lo hi lt m h =
      let clear : (overlaps q r ≡ false)
          × (side q r ≡ left → meets q x ≡ false)
          × (side q r ≡ right → meets q y ≡ false) =
        meets-branch q i c r x y m in
      let r_valid : Valid r =
        (h.between.1, omega (arith, h.limit, Between-le (r.start + r.len) y hi (h.between.2))) in
      let here : Spot tree.store (node i) (branch i c r x y) a b n lo hi =
        subst (λ p. Spot tree.store p (branch i c r x y) a b n lo hi) (h.repr.0) h in
      rw (h.repr.0) (elim (Direction-cases (side q r)) [
        | inl e ↦
            rw
              (helper-step tree q v tree_valid fuel i (anchor d a b) r d left (h.repr.2) r_valid
                (clear.0) e (Repr-valid (tree.store) (tree.store.children left i) x (h.repr.3)))
              (left-Grows i c r x y a b lo hi
                (rb_insert_helper fuel tree (tree.store.children left i) q (node i) left) here e
                (rb_insert_helper-Grows fuel left (tree.store.children left i) x a i lo (r.start)
                  (omega arith) (clear.1 e)
                  (Spot-left (tree.store) (node i) i c r x y a b n lo hi here)))
        | inr e ↦
            rw
              (helper-step tree q v tree_valid fuel i (anchor d a b) r d right (h.repr.2) r_valid
                (clear.0) e (Repr-valid (tree.store) (tree.store.children right i) y (h.repr.4)))
              (right-Grows i c r x y a b lo hi
                (rb_insert_helper fuel tree (tree.store.children right i) q (node i) right) here e
                (rb_insert_helper-Grows fuel right (tree.store.children right i) y i b
                  (r.start + r.len) hi (omega arith) (clear.2 e)
                  (Spot-right (tree.store) (node i) i c r x y a b n lo hi here)))
      ])
