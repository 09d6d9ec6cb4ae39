-- ===== src/RbTree/Heap/Rebalance.antt =====
-- `rb_delete_fix_up` on the nodes of a tree.
use drastic.Base.{ℕ, ◌≡◌, refl, sym, ◌∙◌, ap, ap₂, true, Bool-cases, inl, inr, ok, arith}
use mathlib.Core.Path.{subst}
use drastic.RbTree.{
  TestRange, Direction, left, right, flip, Color, red, NodePointer, node, Nodes, node_valid,
  node_red, node_rotate,
}
use drastic.RbTree.Delete.{DeleteStatus, with_sibling, rb_delete_fix_up}
use drastic.RbTree.Model.{Tree, leaf, branch, count, Distinct, is_red, is_branch, child, rotate}
use drastic.RbTree.Model.Counts.{count-rotate}
use drastic.RbTree.Model.Delete.{rebalance, in_child, delete_fix}
use drastic.RbTree.Heap.{
  Repr, Becomes, Does, Becomes-trans, Repr-valid, Repr-child, node_red-is_red,
}
use drastic.RbTree.Heap.Rotate.{node_rotate-Does}
use drastic.RbTree.Heap.InsertFix.{is_red→is_branch}
use drastic.RbTree.Heap.Sibling.{Fixes, direct-Fixes, below-Repr, reduced-Fixes}

-- After a rotation the node is below the one that came up.
record Lowered (d : Direction) (i : ℕ) (q : TestRange) (t1 : Tree) : Type 0 where
  j : ℕ
  c' : Color
  q' : TestRange
  x' : Tree
  y' : Tree
  x : Tree
  y : Tree
  top : t1 ≡ branch j c' q' x' y'
  below : child d (branch j c' q' x' y') ≡ branch i red q x y

rotate-Lowered :
    (d : Direction) (i : ℕ) (c : Color) (q : TestRange) (x y : Tree)
    → is_branch (child (flip d) (branch i c q x y)) ≡ true
    → Lowered d i q (rotate d (branch i c q x y))
rotate-Lowered left i c q x leaf b = absurd (cc)
rotate-Lowered left i c q x (branch j a r m w) b = record {
  j = j;
  c' = c;
  q' = r;
  x' = branch i red q x m;
  y' = w;
  x = x;
  y = m;
  top = refl;
  below = refl;
}
rotate-Lowered right i c q leaf y b = absurd (cc)
rotate-Lowered right i c q (branch j a r w m) y b = record {
  j = j;
  c' = c;
  q' = r;
  x' = w;
  y' = branch i red q m y;
  x = m;
  y = y;
  top = refl;
  below = refl;
}

red-returns :
    (s s1 : Nodes) (d : Direction) (i : ℕ) (p : NodePointer)
    (out : NodePointer × (DeleteStatus × Nodes))
    → node_valid (s.children (flip d) i) ≡ ok (s.children (flip d) i)
    → node_red s (s.children (flip d) i) ≡ ok true
    → node_rotate s (node i) d ≡ ok (p, s1)
    → node_valid (s1.children (flip d) i) ≡ ok (s1.children (flip d) i)
    → with_sibling s1 p (node i) (s1.children (flip d) i) true d ≡ ok out
    → rb_delete_fix_up s (node i) d ≡ ok out
unfolding rb_delete_fix_up
red-returns s s1 d i p out e1 e2 e3 e4 e5 = rw (e1, e2, e3, e4) e5

red_branch :
    (s : Nodes) (d : Direction) (i : ℕ) (c : Color) (q : TestRange) (x y : Tree)
    → Distinct (branch i c q x y)
    → Repr s (node i) (branch i c q x y)
    → is_red (child (flip d) (branch i c q x y)) ≡ true
    → Fixes s
        (branch i c q x y)
        (in_child d
          (rotate d (branch i c q x y))
          (rebalance d (child d (rotate d (branch i c q x y)))))
        (rb_delete_fix_up s (node i) d)
red_branch s d i c q x y u h e =
    let t : Tree = branch i c q x y in
    let z : Tree = child (flip d) t in
    let at : Repr s (s.children (flip d) i) z = Repr-child s (flip d) i c q x y (node i) h in
    let some : is_branch z ≡ true = is_red→is_branch z e in
    let f : Does s t (rotate d t) (node_rotate s (node i) d) =
      node_rotate-Does s d (node i) t u h some in
    let l : Lowered d i q (rotate d t) = rotate-Lowered d i c q x y some in
    let t1 : Tree = branch (l.j) (l.c') (l.q') (l.x') (l.y') in
    let n : Tree = branch i red q (l.x) (l.y) in
    let u1 : Distinct t1 = λ k. omega (arith, u k, count-rotate k d t, ap (count k) (l.top)) in
    let r1 : Repr f.after (f.p) t1 = subst (λ t. Repr f.after (f.p) t) (l.top) (f.becomes.repr) in
    let h1 : Repr f.after (node (l.j)) t1 = subst (λ p. Repr f.after p t1) (r1.0) r1 in
    let rn : Repr f.after (f.after.children d (l.j)) n =
      below-Repr (f.after) d (l.j) (l.c') (l.q') (l.x') (l.y') u1 h1 i red q (l.x) (l.y)
        (l.below) in
    let g : Fixes f.after t1 (in_child d t1 (rebalance d n))
        (with_sibling (f.after) (node (l.j)) (node i) (f.after.children (flip d) i) true d) =
      reduced-Fixes (f.after) d (l.j) (l.c') (l.q') (l.x') (l.y') u1 h1 i red q (l.x) (l.y)
        (l.below) in
    let same : in_child d t1 (rebalance d n)
        ≡ in_child d (rotate d t) (rebalance d (child d (rotate d t))) =
      ap₂ (λ t n. in_child d t (rebalance d n)) (sym (l.top))
        (sym (l.below) ∙ ap (child d) (sym (l.top))) in
    let made : Becomes f.after (rotate d t) ((in_child d t1 (rebalance d n)).0) (g.after) (g.p) =
      subst (λ t. Becomes f.after t ((in_child d t1 (rebalance d n)).0) (g.after) (g.p))
        (sym (l.top)) (g.becomes) in
    subst (λ z. Fixes s t z (rb_delete_fix_up s (node i) d)) same
      (record {
        p = g.p;
        after = g.after;
        returns =
            red-returns s (f.after) d i (f.p) (g.p, ((in_child d t1 (rebalance d n)).1, g.after))
              (Repr-valid s (s.children (flip d) i) z at)
              (node_red-is_red s (s.children (flip d) i) z at ∙ ap ok e) (f.returns)
              (Repr-valid (f.after) (f.after.children (flip d) i) (child (flip d) n)
                (Repr-child (f.after) (flip d) i red q (l.x) (l.y) (f.after.children d (l.j)) rn))
              (subst
                (λ p.
                  with_sibling (f.after) p (node i) (f.after.children (flip d) i) true d
                  ≡ ok (g.p, ((in_child d t1 (rebalance d n)).1, g.after)))
                (sym (r1.0)) (g.returns));
        becomes =
            Becomes-trans s (f.after) (g.after) t (rotate d t) ((in_child d t1 (rebalance d n)).0)
              (f.p) (g.p) (λ k. omega (arith, count-rotate k d t)) (f.becomes) made;
        same_list = g.same_list ∙ f.same_list;
      })

fix_branch :
    (s : Nodes) (d : Direction) (i : ℕ) (c : Color) (q : TestRange) (x y : Tree)
    → Distinct (branch i c q x y)
    → Repr s (node i) (branch i c q x y)
    → Fixes s (branch i c q x y) (delete_fix d (branch i c q x y)) (rb_delete_fix_up s (node i) d)
fix_branch s d i c q x y u h =
    let t : Tree = branch i c q x y in
    let z : Tree = child (flip d) t in
    let at : Repr s (s.children (flip d) i) z = Repr-child s (flip d) i c q x y (node i) h in
    let valid : node_valid (s.children (flip d) i) ≡ ok (s.children (flip d) i) =
      Repr-valid s (s.children (flip d) i) z at in
    let red_sib : node_red s (s.children (flip d) i) ≡ ok (is_red z) =
      node_red-is_red s (s.children (flip d) i) z at in
    elim (Bool-cases (is_red z)) [
      | inr e ↦
          unfold delete_fix rb_delete_fix_up in
          rw (valid, red_sib, e) (direct-Fixes s d i c q x y u h)
      | inl e ↦ unfold delete_fix in rw e (red_branch s d i c q x y u h e)
    ]

pub rb_delete_fix_up-Fixes :
    (s : Nodes) (d : Direction) (p : NodePointer) (t : Tree)
    → Distinct t
    → Repr s p t
    → is_branch t ≡ true
    → Fixes s t (delete_fix d t) (rb_delete_fix_up s p d)
rb_delete_fix_up-Fixes s d p leaf u h b = absurd (cc)
rb_delete_fix_up-Fixes s d p (branch i c q x y) u (e, e1, e2, hx, hy) b =
    rw e (fix_branch s d i c q x y u (refl, e1, e2, hx, hy))
