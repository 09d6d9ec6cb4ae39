-- ===== src/RbTree/Insert/Stays.antt =====
-- `rb_insert_helper` when the range overlaps, and when there is no node for it.
use drastic.Base.{
  ℕ, zero, suc, ◌+◌, ◌≤◌, ◌<◌, ◌≡◌, refl, true, false, Bool-cases, inl, inr, none, ok, arith,
}
use drastic.RbTree.{TestRange, uintptr_max, Direction, left, right, NodePointer, node}
use drastic.RbTree.Arena.{RbTree, rb_tree_valid, rb_tree_node_make, next_node}
use drastic.RbTree.Insert.{insert_overlap, insert_oom, insert_leaf, insert_above, rb_insert_helper}
use drastic.RbTree.Model.{Tree, leaf, branch, size, side}
use drastic.RbTree.Model.Counts.{Direction-cases}
use drastic.RbTree.Model.Order.{
  Between, Between-le, Valid, overlaps, meets, meets-branch, meets-left, meets-right,
  test_range_valid-Valid, test_range_overlap-overlaps,
}
use drastic.RbTree.Heap.{Repr, Repr-valid}
use drastic.RbTree.Insert.Spot.{helper-step}

module _ (tree : RbTree) (q : TestRange) (v : Valid q)
    (tree_valid : rb_tree_valid tree ≡ true) where
  -- The range overlaps with the node's.
  helper-overlap :
      (fuel i k : ℕ) (r : TestRange) (d : Direction)
      → tree.store.range i ≡ r
      → Valid r
      → overlaps q r ≡ true
      → rb_insert_helper (suc fuel) tree (node i) q (node k) d ≡ ok (node i, (insert_overlap, tree))
  unfolding rb_insert_helper
  helper-overlap fuel i k r d er rv e =
      rw (tree_valid, test_range_valid-Valid q v, er, test_range_overlap-overlaps q r v rv, e) refl

  pub helper-meets :
      (fuel k : ℕ) (d : Direction) (p : NodePointer) (t : Tree) (lo hi : ℕ)
      → size t < fuel
      → meets q t ≡ true
      → Repr tree.store p t
      → Between lo t hi
      → hi ≤ uintptr_max
      → rb_insert_helper fuel tree p q (node k) d ≡ ok (p, (insert_overlap, tree))
  unfolding insert_above
  helper-meets zero k d p t lo hi lt m h b l = absurd (omega arith)
  helper-meets (suc fuel) k d p leaf lo hi lt m h b l = absurd (cc)
  helper-meets (suc fuel) k d p (branch i c r x y) lo hi lt m h b l =
      let rv : Valid r = (b.1, omega (arith, l, Between-le (r.start + r.len) y hi (b.2))) in
      let rl : r.start ≤ uintptr_max = omega (arith, rv.1) in
      elim (Bool-cases (overlaps q r)) [
        | inl e ↦ rw (h.0) (helper-overlap fuel i k r d (h.2) rv e)
        | inr e ↦ elim (Direction-cases (side q r)) [
          | inl f ↦
              rw
                (
                  h.0,
                  helper-step tree q v tree_valid fuel i k r d left (h.2) rv e f
                      (Repr-valid (tree.store) (tree.store.children left i) x (h.3)),
                  helper-meets fuel i left (tree.store.children left i) x lo (r.start) (omega arith)
                      (meets-left q i c r x y m e f) (h.3) (b.0) rl,
                )
                refl
          | inr f ↦
              rw
                (
                  h.0,
                  helper-step tree q v tree_valid fuel i k r d right (h.2) rv e f
                      (Repr-valid (tree.store) (tree.store.children right i) y (h.4)),
                  helper-meets fuel i right (tree.store.children right i) y (r.start + r.len) hi
                      (omega arith) (meets-right q i c r x y m e f) (h.4) (b.2) l,
                )
                refl
        ]
      ]

  pub helper-oom :
      (fuel k : ℕ) (d : Direction) (p : NodePointer) (t : Tree) (lo hi : ℕ)
      → size t < fuel
      → meets q t ≡ false
      → next_node tree ≡ ok none
      → Repr tree.store p t
      → Between lo t hi
      → hi ≤ uintptr_max
      → rb_insert_helper fuel tree p q (node k) d ≡ ok (p, (insert_oom, tree))
  unfolding insert_above
  helper-oom zero k d p t lo hi lt m f h b l = absurd (omega arith)
  helper-oom (suc fuel) k d p leaf lo hi lt m f h b l =
      unfold rb_insert_helper insert_leaf rb_tree_node_make in
      rw (h, tree_valid, test_range_valid-Valid q v, f) refl
  helper-oom (suc fuel) k d p (branch i c r x y) lo hi lt m g h b l =
      let rv : Valid r = (b.1, omega (arith, l, Between-le (r.start + r.len) y hi (b.2))) in
      let rl : r.start ≤ uintptr_max = omega (arith, rv.1) in
      let clear : (overlaps q r ≡ false)
          × (side q r ≡ left → meets q x ≡ false)
          × (side q r ≡ right → meets q y ≡ false) =
        meets-branch q i c r x y m in
      elim (Direction-cases (side q r)) [
        | inl f ↦
            rw
              (
                h.0,
                helper-step tree q v tree_valid fuel i k r d left (h.2) rv (clear.0) f
                    (Repr-valid (tree.store) (tree.store.children left i) x (h.3)),
                helper-oom fuel i left (tree.store.children left i) x lo (r.start) (omega arith)
                    (clear.1 f) g (h.3) (b.0) rl,
              )
              refl
        | inr f ↦
            rw
              (
                h.0,
                helper-step tree q v tree_valid fuel i k r d right (h.2) rv (clear.0) f
                    (Repr-valid (tree.store) (tree.store.children right i) y (h.4)),
                helper-oom fuel i right (tree.store.children right i) y (r.start + r.len) hi
                    (omega arith) (clear.2 f) g (h.4) (b.2) l,
              )
              refl
      ]
