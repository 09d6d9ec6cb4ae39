-- ===== src/RbTree/Delete/Part.antt =====
-- `rb_delete_helper` at the node that is taken out.
use drastic.Base.{
  ℕ, ◌+◌, ◌≤◌, ◌≡◌, ◌≢◌, refl, sym, ◌∙◌, ap, true, false, not, ◌&&◌, ◌==◌, if◌then◌else◌,
  Bool-cases, inl, inr, List, [], ◌∷◌, ◌++◌, Result, ok, arith,
}
use mathlib.Core.List.{append-nil}
use drastic.RbTree.{
  TestRange, left, right, Color, black, is_red_color, NodePointer, node, Nodes, set_link,
  node_set_color, node_red, node_remove_from_list,
}
use drastic.RbTree.Arena.{RbTree, rb_tree_valid}
use drastic.RbTree.Delete.{DeleteStatus, unlink_node}
use drastic.RbTree.Model.{Tree, leaf, branch, count, Distinct, ids, is_branch, is_red, paint}
use drastic.RbTree.Model.Delete.{unlinked_tree, other_child}
use drastic.RbTree.Model.Delete.Contents.{
  count-unlinked_tree, count-other_child, in_order-unlinked_tree,
}
use drastic.RbTree.Heap.{
  Repr, Repr-kept, SameNode, SameNode-trans, same_node, Becomes, node_red-is_red,
}
use drastic.RbTree.Heap.Recolor.{Paints, node_set_color-Paints}
use drastic.RbTree.Heap.InsertFix.{is_red→is_branch}
use drastic.RbTree.Heap.Links.{
  ListLinks, Segment, Segment-split, Segment-same, times, times-append, times-ids,
}
use drastic.RbTree.Heap.Unlink.{
  last, first, Segment-last, Segment-first, times-last, times-first, times-ne, unlinked,
  Segment-unlink, remove-unlinked,
}
use drastic.RbTree.Invariant.{Chain, Chain-frame}

-- The tree `t` in memory, its part of the list, from `a` to `b`.
pub record Part (s : Nodes) (p : NodePointer) (t : Tree) (a b : ℕ) : Type 0 where
  pub repr : Repr s p t
  pub segment : Segment s.list a (ids t) b
  pub distinct : Distinct t
  pub before : count a t ≡ 0
  pub behind : count b t ≡ 0

pub Part-left :
    (s : Nodes) (p : NodePointer) (i : ℕ) (c : Color) (r : TestRange) (x y : Tree) (a b : ℕ)
    → Part s p (branch i c r x y) a b
    → Part s (s.children left i) x a i
Part-left s p i c r x y a b h = record {
  repr = h.repr.3;
  segment = (Segment-split s.list a (ids x) i (ids y) b (h.segment)).0;
  distinct = λ k. omega (arith, h.distinct k);
  before = omega (arith, h.before);
  behind = ground (arith, h.distinct i);
}

pub Part-right :
    (s : Nodes) (p : NodePointer) (i : ℕ) (c : Color) (r : TestRange) (x y : Tree) (a b : ℕ)
    → Part s p (branch i c r x y) a b
    → Part s (s.children right i) y i b
Part-right s p i c r x y a b h = record {
  repr = h.repr.4;
  segment = (Segment-split s.list a (ids x) i (ids y) b (h.segment)).1;
  distinct = λ k. omega (arith, h.distinct k);
  before = ground (arith, h.distinct i);
  behind = omega (arith, h.behind);
}

-- The links outside of `t`, but for those between `a` and `b`.
pub record SameLinks (f g : ListLinks) (a : ℕ) (t : Tree) (b : ℕ) : Type 0 where
  pub on_right : (k : ℕ) → count k t ≡ 0 → k ≢ a → g right k ≡ f right k
  pub on_left : (k : ℕ) → count k t ≡ 0 → k ≢ b → g left k ≡ f left k

-- A call has turned `t` into `z.0`, with the status `z.1`, and freed the nodes `gone`.
pub record Shrinks (tree : RbTree) (t : Tree) (z : Tree × DeleteStatus) (gone free : List ℕ)
    (a b : ℕ) (out : Result (NodePointer × (DeleteStatus × RbTree))) : Type 0 where
  pub p : NodePointer
  pub store : Nodes
  pub free_list : NodePointer
  pub returns : out ≡ ok (p, (z.1, record tree { store = store; free_list = free_list }))
  pub becomes : Becomes tree.store t (z.0) store p
  pub segment : Segment store.list a (ids (z.0)) b
  pub frame : SameLinks tree.store.list store.list a t b
  pub chain : Chain store free_list (gone ++ free)

-- The child that takes the place of the node is painted black if the node was black and it is red.
record Repainted (s : Nodes) (c : Color) (z : Tree) (temp : NodePointer) : Type 0 where
  after : Nodes
  returns :
      (if not (is_red_color c) && is_red z then node_set_color s temp black else ok s) ≡ ok after
  becomes : Becomes s z ((unlinked_tree c z).0) after temp
  same_list : after.list ≡ s.list

repaint :
    (s : Nodes) (c : Color) (z : Tree) (temp : NodePointer)
    → Distinct z
    → Repr s temp z
    → Repainted s c z temp
repaint s c z temp u h = elim (Bool-cases (not (is_red_color c) && is_red z)) [
  | inl e ↦
      let f : Paints s z (paint black z) temp (node_set_color s temp black) =
        node_set_color-Paints s temp black z u h (is_red→is_branch z (ground arith)) in
      record {
        after = f.after;
        returns = rw e (f.returns);
        becomes = rw e (f.becomes);
        same_list = f.same_list;
      }
  | inr e ↦ record {
    after = s;
    returns = rw e refl;
    becomes = rw e (record { repr = h; frame = λ k n. same_node s k });
    same_list = refl;
  }
]

pub ==_refl : (i : ℕ) → (i == i) ≡ true
==_refl i = ground arith

ids-other_child :
    (x y : Tree) → is_branch x && is_branch y ≡ false → ids (other_child x y) ≡ ids x ++ ids y
ids-other_child leaf leaf e = refl
ids-other_child leaf (branch i c q x y) e = refl
ids-other_child (branch i c q x y) leaf e = sym (append-nil (ids (branch i c q x y)))
ids-other_child (branch i c q x y) (branch j d r z w) e = absurd (cc)

module _ (tree : RbTree) (tree_valid : rb_tree_valid tree ≡ true) (free : List ℕ)
    (chain : Chain tree.store tree.free_list free) where
  unlink-returns :
      (s1 s2 : Nodes) (i : ℕ) (c : Color) (z : Tree) (temp : NodePointer)
      → tree.store.color i ≡ c
      → node_red (tree.store) temp ≡ ok (is_red z)
      → (if not (is_red_color c) && is_red z
          then node_set_color (tree.store) temp black
          else ok (tree.store))
        ≡ ok s1
      → node_remove_from_list s1 (node i) ≡ ok s2
      → unlink_node tree i temp
        ≡ ok (
          temp,
          (
            (unlinked_tree c z).1,
            record tree {
              store = record s2 { children = set_link s2.children right i tree.free_list };
              free_list = node i;
            },
          ),
        )
  unfolding unlink_node
  unlink-returns s1 s2 i c z temp e e1 e2 e3 = rw (e, e1, e2, e3, tree_valid) refl

  pub unlink_node-Shrinks :
      (p temp : NodePointer) (i : ℕ) (c : Color) (r : TestRange) (x y : Tree) (a b : ℕ)
      → Part tree.store p (branch i c r x y) a b
      → ((k : ℕ) → count k (branch i c r x y) + times k free ≤ 1)
      → is_branch x && is_branch y ≡ false
      → Repr tree.store temp (other_child x y)
      → Shrinks tree
          (branch i c r x y)
          (unlinked_tree c (other_child x y))
          (i ∷ [])
          free
          a
          b
          (unlink_node tree i temp)
  unlink_node-Shrinks p temp i c r x y a b h apart e ht =
      let t : Tree = branch i c r x y in
      let z : Tree = other_child x y in
      let z' : Tree = (unlinked_tree c z).0 in
      let cz : (k : ℕ) → count k z ≡ count k x + count k y = λ k. count-other_child k x y e in
      let cz' : (k : ℕ) → count k z' ≡ count k z = λ k. count-unlinked_tree k c z in
      let f : Repainted tree.store c z temp =
        repaint (tree.store) c z temp (λ k. omega (arith, h.distinct k, cz k)) ht in
      let before : ℕ = last a (ids x) in
      let after : ℕ = first (ids y) b in
      let parts : Segment tree.store.list a (ids x) i × Segment tree.store.list i (ids y) b =
        Segment-split (tree.store.list) a (ids x) i (ids y) b (h.segment) in
      let not_before : (before == i) ≡ false =
        times-ne before i (a ∷ ids x) (times-last a (ids x))
          (ground (arith, times-ids i x, h.distinct i, h.before)) in
      let not_after : (after == i) ≡ false =
        times-ne after i (b ∷ ids y) (times-first (ids y) b)
          (ground (arith, times-ids i y, h.distinct i, h.behind)) in
      let s2 : Nodes = record (f.after) { list = unlinked (f.after.list) before after } in
      let s3 : Nodes = record s2 { children = set_link s2.children right i tree.free_list } in
      let removed : node_remove_from_list (f.after) (node i) ≡ ok s2 =
        remove-unlinked (f.after) i before after
          (ap (λ f. f left i) (f.same_list)
            ∙ (Segment-last (tree.store.list) a (ids x) i (parts.0)).0)
          (ap (λ f. f right i) (f.same_list)
            ∙ (Segment-first (tree.store.list) i (ids y) b (parts.1)).0)
          (λ e. ground arith) (λ e. ground arith) in
      let kept : (k : ℕ) → (k == i) ≡ false → SameNode f.after s3 k =
        λ k e. record { range = refl; color = refl; left_child = refl; right_child = rw e refl } in
      record {
        p = temp;
        store = s3;
        free_list = node i;
        returns =
            unlink-returns (f.after) s2 i c z temp (h.repr.1)
              (node_red-is_red (tree.store) temp z ht) (f.returns) removed;
        becomes = record {
          repr =
              Repr-kept (f.after) s3 temp temp z' refl
                (λ k lt. kept k (ground (arith, cz k, cz' k, h.distinct k))) (f.becomes.repr);
          frame = λ k n.
              SameNode-trans (tree.store) (f.after) s3 k
                (f.becomes.frame k (omega (arith, cz k, n))) (kept k (ground arith));
        };
        segment =
            Segment-same (unlinked (tree.store.list) before after) (s3.list) a (ids x ++ ids y)
              (ids z') b (ap (λ f. unlinked f before after) (f.same_list))
              (in_order-unlinked_tree (λ i q. i) c z ∙ ids-other_child x y e)
              (Segment-unlink (tree.store.list) a (ids x) i (ids y) b (h.segment)
                (λ k. ground (
                  arith,
                  times-append k (ids x) (i ∷ ids y),
                  times-ids k x,
                  times-ids k y,
                  h.distinct k,
                  h.before,
                  ap (λ k. count k t),
                ))
                (omega (
                  arith,
                  times-append b (ids x) (i ∷ ids y),
                  times-ids b x,
                  times-ids b y,
                  h.behind,
                )));
        frame = record {
          on_right = λ k n ka.
              let other : (before == k) ≡ false =
                times-ne before k (a ∷ ids x) (times-last a (ids x))
                  (ground (arith, times-ids k x)) in
              let other' : (k == before) ≡ false = ground arith in
              rw other' (ap (λ f. f right k) (f.same_list));
          on_left = λ k n kb.
              let other : (after == k) ≡ false =
                times-ne after k (b ∷ ids y) (times-first (ids y) b)
                  (ground (arith, times-ids k y)) in
              let other' : (k == after) ≡ false = ground arith in
              rw other' (ap (λ f. f left k) (f.same_list));
        };
        chain = (
          refl,
          rw (==_refl i) (
              Chain-frame (tree.store) s3 (tree.free_list) free
                (λ k lt.
                  SameNode.right_child (kept k (ground (arith, apart k, apart i)))
                  ∙ SameNode.right_child (f.becomes.frame k (omega (arith, apart k, cz k, cz' k))))
                chain),
        );
      }
