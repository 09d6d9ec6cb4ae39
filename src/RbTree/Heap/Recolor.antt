-- ===== src/RbTree/Heap/Recolor.antt =====
-- `node_set_color` and `node_color_flip` on the nodes of a tree.
use drastic.Base.{ℕ, ◌≡◌, refl, ◌∙◌, true, false, ◌==◌, Result, ok, arith}
use drastic.RbTree.{
  TestRange, Direction, left, right, Color, rb_color_flip, NodePointer, node, Nodes, set_at,
  node_valid, node_set_color, flip_unless_nil, node_color_flip,
}
use drastic.RbTree.Model.{
  Tree, leaf, branch, Distinct, is_branch, child, replace, paint, toggle, color_flip,
}
use drastic.RbTree.Model.Counts.{count-toggle}
use drastic.RbTree.Heap.{Repr, SameNode, same_node, Becomes, Repr-kept, Repr-valid, Becomes-trans}

abbrev pub painted : Nodes → ℕ → Color → Nodes
painted s i c = record s { color = set_at s.color i c }

painted-SameNode :
    (s : Nodes) (i k : ℕ) (c : Color) → (k == i) ≡ false → SameNode s (painted s i c) k
painted-SameNode s i k c e = record {
  range = refl;
  color = rw e refl;
  left_child = refl;
  right_child = refl;
}

pub Becomes-painted :
    (s : Nodes) (p : NodePointer) (a : Color) (i : ℕ) (c : Color) (q : TestRange) (x y : Tree)
    → Distinct (branch i c q x y)
    → Repr s p (branch i c q x y)
    → Becomes s (branch i c q x y) (branch i a q x y) (painted s i a) p
Becomes-painted s p a i c q x y u (e, e1, e2, hx, hy) = record {
  repr = (
    e,
    ground arith,
    e2,
    Repr-kept s (painted s i a) (s.children left i) (s.children left i) x refl
        (λ k lt. painted-SameNode s i k a (ground (arith, u k))) hx,
    Repr-kept s (painted s i a) (s.children right i) (s.children right i) y refl
        (λ k lt. painted-SameNode s i k a (ground (arith, u k))) hy,
  );
  frame = λ k h. painted-SameNode s i k a (ground arith);
}

pub record Paints (s : Nodes) (t t' : Tree) (p : NodePointer) (out : Result Nodes) : Type 0 where
  pub after : Nodes
  pub returns : out ≡ ok after
  pub becomes : Becomes s t t' after p
  pub same_list : after.list ≡ s.list

pub node_set_color-Paints :
    (s : Nodes) (p : NodePointer) (a : Color) (t : Tree)
    → Distinct t
    → Repr s p t
    → is_branch t ≡ true
    → Paints s t (paint a t) p (node_set_color s p a)
node_set_color-Paints s p a leaf u h b = absurd (cc)
node_set_color-Paints s p a (branch i c q x y) u h b = record {
  after = painted s i a;
  returns = rw (h.0) refl;
  becomes = Becomes-painted s p a i c q x y u h;
  same_list = refl;
}

pub flip_unless_nil-Paints :
    (s : Nodes) (p : NodePointer) (t : Tree)
    → Distinct t
    → Repr s p t
    → Paints s t (toggle t) p (flip_unless_nil s p)
flip_unless_nil-Paints s p leaf u e = record {
  after = s;
  returns = rw e refl;
  becomes = record { repr = e; frame = λ k h. same_node s k };
  same_list = refl;
}
flip_unless_nil-Paints s p (branch i c q x y) u h = record {
  after = painted s i (rb_color_flip c);
  returns = rw (h.0, h.1) refl;
  becomes = Becomes-painted s p (rb_color_flip c) i c q x y u h;
  same_list = refl;
}

-- A child that has been rebuilt at the place where it was.
pub graft_in_place :
    (s s1 : Nodes) (d : Direction) (p : NodePointer) (i : ℕ) (c : Color) (q : TestRange)
    (x y z : Tree)
    → Distinct (branch i c q x y)
    → Distinct (replace d (branch i c q x y) z)
    → Repr s p (branch i c q x y)
    → Becomes s (child d (branch i c q x y)) z s1 (s.children d i)
    → Becomes s (branch i c q x y) (replace d (branch i c q x y) z) s1 p
graft_in_place s s1 left p i c q x y z u u' (e, e1, e2, hx, hy) g =
    let here : SameNode s s1 i = g.frame i (ground (arith, u i, u' i)) in
    record {
      repr = (
        e,
        cc,
        cc,
        rw (here.left_child) (g.repr),
        Repr-kept s s1 (s.children right i) (s1.children right i) y (here.right_child)
            (λ k lt. g.frame k (ground (arith, u k, u' k))) hy,
      );
      frame = λ k h. g.frame k (ground arith);
    }
graft_in_place s s1 right p i c q x y z u u' (e, e1, e2, hx, hy) g =
    let here : SameNode s s1 i = g.frame i (ground (arith, u i, u' i)) in
    record {
      repr = (
        e,
        cc,
        cc,
        Repr-kept s s1 (s.children left i) (s1.children left i) x (here.left_child)
            (λ k lt. g.frame k (ground (arith, u k, u' k))) hx,
        rw (here.right_child) (g.repr),
      );
      frame = λ k h. g.frame k (ground arith);
    }

color_flip-returns :
    (s s1 s2 : Nodes) (i : ℕ)
    → node_valid (s.children left i) ≡ ok (s.children left i)
    → flip_unless_nil (painted s i (rb_color_flip (s.color i))) (s.children left i) ≡ ok s1
    → node_valid (s1.children right i) ≡ ok (s1.children right i)
    → flip_unless_nil s1 (s1.children right i) ≡ ok s2
    → node_color_flip s (node i) ≡ ok s2
unfolding node_color_flip
color_flip-returns s s1 s2 i e1 e2 e3 e4 = rw (e1, e2, e3) e4

color_flip_branch :
    (s : Nodes) (i : ℕ) (c : Color) (q : TestRange) (x y : Tree)
    → Distinct (branch i c q x y)
    → Repr s (node i) (branch i c q x y)
    → Paints s
        (branch i c q x y)
        (color_flip (branch i c q x y))
        (node i)
        (node_color_flip s (node i))
color_flip_branch s i c q x y u h =
    let t : Tree = branch i c q x y in
    let a : Color = rb_color_flip c in
    let s0 : Nodes = painted s i (rb_color_flip (s.color i)) in
    let b0 : Becomes s t (branch i a q x y) s0 (node i) =
      rw (h.1) (Becomes-painted s (node i) a i c q x y u h) in
    let f1 : Paints s0 x (toggle x) (s0.children left i) (flip_unless_nil s0 (s0.children left i)) =
      flip_unless_nil-Paints s0 (s0.children left i) x (λ k. omega (arith, u k)) (b0.repr.3) in
    let b1 : Becomes s0 (branch i a q x y) (branch i a q (toggle x) y) (f1.after) (node i) =
      graft_in_place s0 (f1.after) left (node i) i a q x y (toggle x) u
        (λ k. omega (arith, u k, count-toggle k x)) (b0.repr) (f1.becomes) in
    let s1 : Nodes = f1.after in
    let f2 : Paints s1 y (toggle y) (s1.children right i)
        (flip_unless_nil s1 (s1.children right i)) =
      flip_unless_nil-Paints s1 (s1.children right i) y (λ k. omega (arith, u k)) (b1.repr.4) in
    let b2 : Becomes s1 (branch i a q (toggle x) y) (branch i a q (toggle x) (toggle y)) (f2.after)
        (node i) =
      graft_in_place s1 (f2.after) right (node i) i a q (toggle x) y (toggle y)
        (λ k. omega (arith, u k, count-toggle k x))
        (λ k. omega (arith, u k, count-toggle k x, count-toggle k y)) (b1.repr) (f2.becomes) in
    record {
      after = f2.after;
      returns =
          color_flip-returns s s1 (f2.after) i (Repr-valid s (s.children left i) x (h.3))
            (f1.returns) (Repr-valid s1 (s1.children right i) y (b1.repr.4)) (f2.returns);
      becomes =
          Becomes-trans s s0 (f2.after) t (branch i a q x y) (color_flip t) (node i) (node i)
            (λ k. omega arith) b0
            (Becomes-trans s0 s1 (f2.after) (branch i a q x y) (branch i a q (toggle x) y)
              (color_flip t) (node i) (node i) (λ k. omega (arith, count-toggle k x)) b1 b2);
      same_list = f2.same_list ∙ f1.same_list;
    }

pub node_color_flip-Paints :
    (s : Nodes) (p : NodePointer) (t : Tree)
    → Distinct t
    → Repr s p t
    → is_branch t ≡ true
    → Paints s t (color_flip t) p (node_color_flip s p)
node_color_flip-Paints s p leaf u h b = absurd (cc)
node_color_flip-Paints s p (branch i c q x y) u (e, e1, e2, hx, hy) b =
    rw e (color_flip_branch s i c q x y u (refl, e1, e2, hx, hy))
