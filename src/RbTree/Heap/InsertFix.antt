-- ===== src/RbTree/Heap/InsertFix.antt =====
-- `rb_insert_fix_up` on the nodes of a tree.
use drastic.Base.{ℕ, ◌≡◌, refl, true, ◌||◌, Bool-cases, inl, inr, Result, ok, ◌>>=◌}
use drastic.RbTree.{
  TestRange, Direction, flip, Color, NodePointer, node, Nodes, node_valid, node_child_red,
  either_red, node_color_flip,
}
use drastic.RbTree.Insert.{rb_insert_fix_up}
use drastic.RbTree.Model.{
  Tree, leaf, branch, Distinct, is_red, is_branch, child, color_flip, insert_fix,
}
use drastic.RbTree.Heap.{Repr, same_node, Does, Repr-valid, Repr-child, node_child_red-is_red}
use drastic.RbTree.Heap.Rotate.{node_rotate-Does, node_double_rotate-Does, flip-flip}
use drastic.RbTree.Heap.Recolor.{Paints, node_color_flip-Paints}

pub is_red→is_branch : (t : Tree) → is_red t ≡ true → is_branch t ≡ true
is_red→is_branch leaf e = e
is_red→is_branch (branch i c q x y) e = refl

pub either_red-is_red :
    (s : Nodes) (p : NodePointer) (d : Direction) (t : Tree)
    → Repr s p t
    → is_branch t ≡ true
    → either_red s p d ≡ ok (is_red (child d t) || is_red (child (flip d) t))
either_red-is_red s p d t h b = elim (Bool-cases (is_red (child d t))) [
  | inl e ↦ rw (node_child_red-is_red s d p t h b, e) refl
  | inr e ↦ rw (node_child_red-is_red s d p t h b, e, node_child_red-is_red s (flip d) p t h b) refl
]

Does-stays : (s : Nodes) (p : NodePointer) (t : Tree) → Repr s p t → Does s t t (ok (p, s))
Does-stays s p t h = record {
  p = p;
  after = s;
  returns = refl;
  becomes = record { repr = h; frame = λ k z. same_node s k };
  same_list = refl;
}

Does-Paints :
    (s : Nodes) (p : NodePointer) (t t' : Tree) (out : Result Nodes)
    → Paints s t t' p out
    → Does s t t' (out >>= λ s1. ok (p, s1))
Does-Paints s p t t' out f = record {
  p = p;
  after = f.after;
  returns = rw (f.returns) refl;
  becomes = f.becomes;
  same_list = f.same_list;
}

module _ (s : Nodes) (d : Direction) (i : ℕ) (c : Color) (q : TestRange) (x y : Tree)
    (u : Distinct (branch i c q x y)) (h : Repr s (node i) (branch i c q x y)) where
  fix_branch :
      Does s (branch i c q x y) (insert_fix d (branch i c q x y)) (rb_insert_fix_up s (node i) d)
  unfolding rb_insert_fix_up insert_fix
  fix_branch =
      let t : Tree = branch i c q x y in
      let z : Tree = child d t in
      let at : Repr s (s.children d i) z = Repr-child s d i c q x y (node i) h in
      let valid : node_valid (s.children d i) ≡ ok (s.children d i) =
        Repr-valid s (s.children d i) z at in
      let this : node_child_red s (node i) d ≡ ok (is_red z) =
        node_child_red-is_red s d (node i) t h refl in
      let other : node_child_red s (node i) (flip d) ≡ ok (is_red (child (flip d) t)) =
        node_child_red-is_red s (flip d) (node i) t h refl in
      elim (Bool-cases (is_red z)) [
        | inr e ↦ rw (this, e) (Does-stays s (node i) t h)
        | inl e ↦
            let b : is_branch z ≡ true = is_red→is_branch z e in
            let outer : node_child_red s (s.children d i) d ≡ ok (is_red (child d z)) =
              node_child_red-is_red s d (s.children d i) z at b in
            let inner : node_child_red s (s.children d i) (flip d)
                ≡ ok (is_red (child (flip d) z)) =
              node_child_red-is_red s (flip d) (s.children d i) z at b in
            let either : either_red s (s.children d i) d
                ≡ ok (is_red (child d z) || is_red (child (flip d) z)) =
              either_red-is_red s (s.children d i) d z at b in
            let same : flip (flip d) ≡ d = flip-flip d in
            elim (Bool-cases (is_red (child (flip d) t))) [
              | inl f ↦ elim (Bool-cases (is_red (child d z) || is_red (child (flip d) z))) [
                | inl g ↦
                    rw (this, e, valid, other, f, either, g)
                      (Does-Paints s (node i) t (color_flip t) (node_color_flip s (node i))
                        (node_color_flip-Paints s (node i) t u h refl))
                | inr g ↦ rw (this, e, valid, other, f, either, g) (Does-stays s (node i) t h)
              ]
              | inr f ↦ elim (Bool-cases (is_red (child d z))) [
                | inl g ↦
                    rw (this, e, valid, other, f, outer, g)
                      (node_rotate-Does s (flip d) (node i) t u h (rw same b))
                | inr g ↦ elim (Bool-cases (is_red (child (flip d) z))) [
                  | inl j ↦
                      rw (this, e, valid, other, f, outer, g, inner, j)
                        (node_double_rotate-Does s (flip d) (node i) t u h
                          (rw same (is_red→is_branch (child (flip d) z) j)))
                  | inr j ↦
                      rw (this, e, valid, other, f, outer, g, inner, j) (Does-stays s (node i) t h)
                ]
              ]
            ]
      ]

pub rb_insert_fix_up-Does :
    (s : Nodes) (d : Direction) (p : NodePointer) (t : Tree)
    → Distinct t
    → Repr s p t
    → is_branch t ≡ true
    → Does s t (insert_fix d t) (rb_insert_fix_up s p d)
rb_insert_fix_up-Does s d p leaf u h b = absurd (cc)
rb_insert_fix_up-Does s d p (branch i c q x y) u (e, e1, e2, hx, hy) b =
    rw e (fix_branch s d i c q x y u (refl, e1, e2, hx, hy))
