-- ===== src/RbTree/Heap/DeleteFix.antt =====
-- The two repairs of `rb_delete_fix_up`, by colours and by a rotation, on the nodes of a tree.
use drastic.Base.{
  ℕ, ◌≡◌, refl, ◌∙◌, ap, Bool, true, false, ◌||◌, if◌then◌else◌, Bool-cases, inl, inr, Result, ok,
  arith,
}
use drastic.RbTree.{
  TestRange, Direction, left, right, flip, Color, black, red, is_red_color, NodePointer, node,
  Nodes, node_get_child, node_set_color, node_child_red, node_rotate, node_double_rotate,
}
use drastic.RbTree.Delete.{DeleteStatus, delete_ok, delete_fail, recolor_sibling, rotate_sibling}
use drastic.RbTree.Model.{Tree, branch, Distinct, is_red, is_branch, child, paint}
use drastic.RbTree.Model.Counts.{count-paint}
use drastic.RbTree.Model.Delete.{paint_child, recolored, turned, rebuilt}
use drastic.RbTree.Model.Delete.Contents.{count-paint_child, count-turned}
use drastic.RbTree.Heap.{Repr, Becomes, Does, Becomes-trans, Repr-child, node_child_red-is_red}
use drastic.RbTree.Heap.Rotate.{node_rotate-Does, node_double_rotate-Does}
use drastic.RbTree.Heap.Recolor.{Paints, painted, Becomes-painted, node_set_color-Paints}
use drastic.RbTree.Heap.InsertFix.{is_red→is_branch}
use drastic.RbTree.Heap.PaintChild.{
  PaintsChild, paint_at, paint_below, child-color, child-paint, child-paint_left, is_branch-paint,
  is_branch-paint_child, HasRedNephew, HasRedNephew-is_branch, turned-Full,
}

module _ (s : Nodes) (d : Direction) (i : ℕ) (c : Color) (q : TestRange) (x y : Tree)
    (u : Distinct (branch i c q x y)) (h : Repr s (node i) (branch i c q x y)) where
  -- The sibling and its parent change their colours.
  pub record Recolors (out : Result (DeleteStatus × Nodes)) : Type 0 where
    pub after : Nodes
    pub returns : out ≡ ok ((if is_red_color c then delete_ok else delete_fail), after)
    pub becomes : Becomes s (branch i c q x y) (recolored d (branch i c q x y)) after (node i)
    pub same_list : after.list ≡ s.list

  pub recolor_sibling-Recolors :
      is_branch (child (flip d) (branch i c q x y)) ≡ true
      → Recolors (recolor_sibling s (node i) (s.children (flip d) i))
  unfolding recolor_sibling
  recolor_sibling-Recolors b =
      let t : Tree = branch i c q x y in
      let s1 : Nodes = painted s i black in
      let p1 : Becomes s t (branch i black q x y) s1 (node i) =
        Becomes-painted s (node i) black i c q x y u h in
      let f : Paints s1 (branch i black q x y) (recolored d t) (node i)
          (node_set_color s1 (s.children (flip d) i) red) =
        paint_at s1 (flip d) i red black q x y u (p1.repr)
          (ap is_branch (child-color (flip d) i black c q x y) ∙ b) in
      record {
        after = f.after;
        returns = rw (h.1, f.returns) refl;
        becomes =
            Becomes-trans s s1 (f.after) t (branch i black q x y) (recolored d t) (node i) (node i)
              (λ k. omega arith) p1 (f.becomes);
        same_list = f.same_list;
      }

  turn-Does :
      HasRedNephew d (branch i c q x y)
      → Does s (branch i c q x y) (turned d (branch i c q x y)) (
          if is_red (child (flip d) (child (flip d) (branch i c q x y)))
          then node_rotate s (node i) d
          else node_double_rotate s (node i) d)
  turn-Does n =
      let t : Tree = branch i c q x y in
      elim (Bool-cases (is_red (child (flip d) (child (flip d) t)))) [
        | inl f ↦ rw f (node_rotate-Does s d (node i) t u h (HasRedNephew-is_branch d t n))
        | inr f ↦ rw f (
            node_double_rotate-Does s d (node i) t u h
              (is_red→is_branch (child d (child (flip d) t)) (inner_red d (child (flip d) t) n f)))
      ]
    where
      inner_red :
          (e : Direction) (z : Tree)
          → is_red (child left z) || is_red (child right z) ≡ true
          → is_red (child (flip e) z) ≡ false
          → is_red (child e z) ≡ true
      inner_red left z n f = ground arith
      inner_red right z n f = ground arith

  rotate-returns :
      (outer : Bool) (s0 s1 s2 s3 : Nodes) (top l r : NodePointer)
      → node_child_red s (s.children (flip d) i) (flip d) ≡ ok outer
      → (if outer then node_rotate s (node i) d else node_double_rotate s (node i) d) ≡ ok (top, s0)
      → node_set_color s0 top (s.color i) ≡ ok s1
      → node_get_child s1 top left ≡ ok l
      → node_set_color s1 l black ≡ ok s2
      → node_get_child s2 top right ≡ ok r
      → node_set_color s2 r black ≡ ok s3
      → rotate_sibling s (node i) (s.children (flip d) i) d ≡ ok (top, s3)
  unfolding rotate_sibling
  rotate-returns outer s0 s1 s2 s3 top l r e0 e1 e2 e3 e4 e5 e6 =
      rw (e0, e1, e2, e3, e4, e5, e6) refl

  pub rotate_sibling-Does :
      HasRedNephew d (branch i c q x y)
      → Does s
          (branch i c q x y)
          (rebuilt d (branch i c q x y))
          (rotate_sibling s (node i) (s.children (flip d) i) d)
  rotate_sibling-Does n =
      let t : Tree = branch i c q x y in
      let (some, some_left, some_right) = turned-Full d t n in
      let t0 : Tree = turned d t in
      let t1 : Tree = paint c t0 in
      let t2 : Tree = paint_child left black t1 in
      let turn : Result (NodePointer × Nodes) =
        (if is_red (child (flip d) (child (flip d) t))
          then node_rotate s (node i) d
          else node_double_rotate s (node i) d) in
      let f0 : Does s t t0 turn = turn-Does n in
      let u0 : Distinct t0 = λ k. omega (arith, u k, count-turned k d t) in
      let u1 : Distinct t1 = λ k. omega (arith, u0 k, count-paint k c t0) in
      let u2 : Distinct t2 = λ k. omega (arith, u1 k, count-paint_child k left black t1) in
      let f1 : Paints f0.after t0 t1 (f0.p) (node_set_color (f0.after) (f0.p) c) =
        node_set_color-Paints (f0.after) (f0.p) c t0 u0 (f0.becomes.repr) some in
      let f2 : PaintsChild f1.after left (f0.p) black t1 =
        paint_below (f1.after) left (f0.p) black t1 u1 (f1.becomes.repr)
          (is_branch-paint c t0 ∙ some) (ap is_branch (child-paint left c t0) ∙ some_left) in
      let f3 : PaintsChild f2.after right (f0.p) black t2 =
        paint_below (f2.after) right (f0.p) black t2 u2 (f2.becomes.repr)
          (is_branch-paint_child left black t1 ∙ is_branch-paint c t0 ∙ some)
          (ap is_branch (child-paint_left black t1)
            ∙ ap is_branch (child-paint right c t0)
            ∙ some_right) in
      let sib : node_child_red s (s.children (flip d) i) (flip d)
          ≡ ok (is_red (child (flip d) (child (flip d) t))) =
        node_child_red-is_red s (flip d) (s.children (flip d) i) (child (flip d) t)
          (Repr-child s (flip d) i c q x y (node i) h) (HasRedNephew-is_branch d t n) in
      record {
        p = f0.p;
        after = f3.after;
        returns =
            rotate-returns (is_red (child (flip d) (child (flip d) t))) (f0.after) (f1.after)
              (f2.after) (f3.after) (f0.p) (f2.r) (f3.r) sib (f0.returns) (rw (h.1) (f1.returns))
              (f2.got) (f2.set) (f3.got) (f3.set);
        becomes =
            Becomes-trans s (f0.after) (f3.after) t t0 (rebuilt d t) (f0.p) (f0.p)
              (λ k. omega (arith, count-turned k d t)) (f0.becomes)
              (Becomes-trans (f0.after) (f1.after) (f3.after) t0 t1 (rebuilt d t) (f0.p) (f0.p)
                (λ k. omega (arith, count-paint k c t0)) (f1.becomes)
                (Becomes-trans (f1.after) (f2.after) (f3.after) t1 t2 (rebuilt d t) (f0.p) (f0.p)
                  (λ k. omega (arith, count-paint_child k left black t1)) (f2.becomes)
                  (f3.becomes)));
        same_list = f3.same_list ∙ f2.same_list ∙ f1.same_list ∙ f0.same_list;
      }
