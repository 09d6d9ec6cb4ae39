-- ===== src/RbTree/Heap.antt =====
-- When the nodes in memory form a tree, and what stays so when other nodes are written.
pub mod Rotate
pub mod Recolor
pub mod InsertFix
pub mod Links
pub mod Unlink
pub mod PaintChild
pub mod DeleteFix
pub mod Sibling
pub mod Rebalance
use drastic.Base.{
  ℕ, ◌+◌, ◌≤◌, ◌<◌, ◌≡◌, ◌≢◌, refl, sym, ◌∙◌, Bool, true, false, ltb, ◌==◌, ==_iff, if◌then◌else◌,
  Bool-cases, inl, inr, Result, ok, ◌>>=◌, arith,
}
use mathlib.Core.Path.{subst}
use drastic.RbTree.{
  TestRange, Direction, left, right, flip, Color, black, red, is_red_color, NodePointer, null, nil,
  node, Nodes, set_at, set_link, same_direction, node_valid, node_is_nil, not_nil, node_red,
  node_get_child, node_set_child, node_rotate, node_child_red,
}
use drastic.RbTree.Model.{
  Tree, leaf, branch, count, Distinct, is_red, is_branch, child, replace, rotate,
}

-- The pointer leads to this tree.
abbrev pub Repr : Nodes → NodePointer → Tree → Type 0
Repr s p leaf = p ≡ nil
Repr s p (branch i c q x y) =
    (p ≡ node i)
    × (s.color i ≡ c)
    × (s.range i ≡ q)
    × Repr s (s.children left i) x
    × Repr s (s.children right i) y

-- The node is the same in both but for its links in the list.
pub record SameNode (s s' : Nodes) (k : ℕ) : Type 0 where
  pub range : s'.range k ≡ s.range k
  pub color : s'.color k ≡ s.color k
  pub left_child : s'.children left k ≡ s.children left k
  pub right_child : s'.children right k ≡ s.children right k

pub same_node : (s : Nodes) (k : ℕ) → SameNode s s k
same_node s k = record { range = refl; color = refl; left_child = refl; right_child = refl }

pub Repr-frame :
    (s s' : Nodes) (p : NodePointer) (t : Tree)
    → ((k : ℕ) → 0 < count k t → SameNode s s' k)
    → Repr s p t
    → Repr s' p t
Repr-frame s s' p leaf same h = h
Repr-frame s s' p (branch i c q x y) same (e, e1, e2, hx, hy) =
    let here : SameNode s s' i = same i (ground arith) in
    let rx : Repr s' (s.children left i) x =
      Repr-frame s s' (s.children left i) x (λ k lt. same k (ground arith)) hx in
    let ry : Repr s' (s.children right i) y =
      Repr-frame s s' (s.children right i) y (λ k lt. same k (ground arith)) hy in
    (e, cc, cc, rw (here.left_child) rx, rw (here.right_child) ry)

-- The tree `t` has become `t'`, at `p`, and no other node has changed.
pub record Becomes (s : Nodes) (t t' : Tree) (s' : Nodes) (p : NodePointer) : Type 0 where
  pub repr : Repr s' p t'
  pub frame : (k : ℕ) → count k t + count k t' ≡ 0 → SameNode s s' k

pub SameNode-trans :
    (s s1 s2 : Nodes) (k : ℕ) → SameNode s s1 k → SameNode s1 s2 k → SameNode s s2 k
SameNode-trans s s1 s2 k a b = record {
  range = b.range ∙ a.range;
  color = b.color ∙ a.color;
  left_child = b.left_child ∙ a.left_child;
  right_child = b.right_child ∙ a.right_child;
}

pub Becomes-trans :
    (s s1 s2 : Nodes) (t t1 t2 : Tree) (p p1 : NodePointer)
    → ((k : ℕ) → count k t1 ≤ count k t + count k t2)
    → Becomes s t t1 s1 p
    → Becomes s1 t1 t2 s2 p1
    → Becomes s t t2 s2 p1
Becomes-trans s s1 s2 t t1 t2 p p1 same a b = record {
  repr = b.repr;
  frame = λ k h.
      SameNode-trans s s1 s2 k (a.frame k (omega (arith, same k)))
        (b.frame k (omega (arith, same k)));
}

pub record Does (s : Nodes) (t t' : Tree) (out : Result (NodePointer × Nodes)) : Type 0 where
  pub p : NodePointer
  pub after : Nodes
  pub returns : out ≡ ok (p, after)
  pub becomes : Becomes s t t' after p
  pub same_list : after.list ≡ s.list

pub Repr-valid : (s : Nodes) (p : NodePointer) (t : Tree) → Repr s p t → node_valid p ≡ ok p
Repr-valid s p leaf e = rw e refl
Repr-valid s p (branch i c q x y) (e, e1, e2, hx, hy) = rw e refl

pub Repr-not_nil :
    (s : Nodes) (p : NodePointer) (t : Tree) → Repr s p t → is_branch t ≡ true → not_nil p ≡ ok tt
Repr-not_nil s p leaf e b = absurd (cc)
Repr-not_nil s p (branch i c q x y) (e, e1, e2, hx, hy) b = rw e refl

pub Repr-kept :
    (s s' : Nodes) (p p' : NodePointer) (t : Tree)
    → p' ≡ p
    → ((k : ℕ) → 0 < count k t → SameNode s s' k)
    → Repr s p t
    → Repr s' p' t
Repr-kept s s' p p' t e same h = rw e (Repr-frame s s' p t same h)

pub apart : (i k : ℕ) (t : Tree) → count i t ≡ 0 → 0 < count k t → (k == i) ≡ false
apart i k t none some = elim (Bool-cases (k == i)) [
  | inl e ↦
      let same : k ≡ i = ground arith in
      let lt : 0 < count i t = subst (λ (n : ℕ). 0 < count n t) same some in absurd (omega arith)
  | inr e ↦ e
]

module _ (s : Nodes) (p : NodePointer) where
  -- The tests of a node's colour, in a tree.
  pub node_red-is_red : (t : Tree) → Repr s p t → node_red s p ≡ ok (is_red t)
  node_red-is_red leaf e = rw e refl
  node_red-is_red (branch i c q x y) (e, e1, e2, hx, hy) = rw (e, e1) refl

-- The child, as a pointer and as a tree.
pub Repr-child :
    (s : Nodes) (d : Direction) (i : ℕ) (c : Color) (q : TestRange) (x y : Tree) (p : NodePointer)
    → Repr s p (branch i c q x y)
    → Repr s (s.children d i) (child d (branch i c q x y))
Repr-child s left i c q x y p (e, e1, e2, hx, hy) = hx
Repr-child s right i c q x y p (e, e1, e2, hx, hy) = hy

pub node_child_red-is_red :
    (s : Nodes) (d : Direction) (p : NodePointer) (t : Tree)
    → Repr s p t
    → is_branch t ≡ true
    → node_child_red s p d ≡ ok (is_red (child d t))
node_child_red-is_red s d p leaf h b = absurd (cc)
node_child_red-is_red s d p (branch i c q x y) h b =
    let at : Repr s (s.children d i) (child d (branch i c q x y)) = Repr-child s d i c q x y p h in
    rw (h.0, Repr-valid s (s.children d i) (child d (branch i c q x y)) at)
      (node_red-is_red s (s.children d i) (child d (branch i c q x y)) at)

abbrev pub with_child : Nodes → ℕ → Direction → NodePointer → Nodes
with_child s i d r = record s { children = set_link s.children d i r }

pub set_link-SameNode :
    (s s1 : Nodes) (d : Direction) (i k : ℕ) (r : NodePointer)
    → (k == i) ≡ false
    → SameNode s s1 k
    → SameNode s (with_child s1 i d r) k
set_link-SameNode s s1 left i k r e same = record {
  range = same.range;
  color = same.color;
  left_child = rw e (same.left_child);
  right_child = same.right_child;
}
set_link-SameNode s s1 right i k r e same = record {
  range = same.range;
  color = same.color;
  left_child = same.left_child;
  right_child = rw e (same.right_child);
}

-- A child that has been rebuilt is put in its place again.
pub graft :
    (s s1 : Nodes) (d : Direction) (r p : NodePointer) (i : ℕ) (c : Color) (q : TestRange)
    (x y z : Tree)
    → Distinct (branch i c q x y)
    → Distinct (replace d (branch i c q x y) z)
    → Repr s p (branch i c q x y)
    → Becomes s (child d (branch i c q x y)) z s1 r
    → Becomes s (branch i c q x y) (replace d (branch i c q x y) z) (with_child s1 i d r) p
graft s s1 left r p i c q x y z u u' (e, e1, e2, hx, hy) g =
    let after : Nodes = with_child s1 i left r in
    let here : SameNode s s1 i = g.frame i (ground (arith, u i, u' i)) in
    record {
      repr = (
        e,
        cc,
        cc,
        Repr-kept s1 after r (after.children left i) z (ground arith)
            (λ k lt. set_link-SameNode s1 s1 left i k r (ground (arith, u' k)) (same_node s1 k))
            (g.repr),
        Repr-kept s after (s.children right i) (after.children right i) y (here.right_child)
            (λ k lt.
              set_link-SameNode s s1 left i k r (ground (arith, u' k))
                (g.frame k (ground (arith, u k, u' k))))
            hy,
      );
      frame = λ k h. set_link-SameNode s s1 left i k r (ground arith) (g.frame k (ground arith));
    }
graft s s1 right r p i c q x y z u u' (e, e1, e2, hx, hy) g =
    let after : Nodes = with_child s1 i right r in
    let here : SameNode s s1 i = g.frame i (ground (arith, u i, u' i)) in
    record {
      repr = (
        e,
        cc,
        cc,
        Repr-kept s after (s.children left i) (after.children left i) x (here.left_child)
            (λ k lt.
              set_link-SameNode s s1 right i k r (ground (arith, u' k))
                (g.frame k (ground (arith, u k, u' k))))
            hx,
        Repr-kept s1 after r (after.children right i) z (ground arith)
            (λ k lt. set_link-SameNode s1 s1 right i k r (ground (arith, u' k)) (same_node s1 k))
            (g.repr),
      );
      frame = λ k h. set_link-SameNode s s1 right i k r (ground arith) (g.frame k (ground arith));
    }
