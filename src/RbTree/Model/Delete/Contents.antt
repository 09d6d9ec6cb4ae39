-- ===== src/RbTree/Model/Delete/Contents.antt =====
-- The repair after a deletion keeps the numbers and the order; a deletion takes one node out.
use drastic.Base.{ℕ, ◌+◌, ◌≡◌, refl, ◌∙◌, true, false, ◌&&◌, Bool-cases, inl, inr, arith}
use drastic.Base.Int.{is_zero}
use drastic.RbTree.{TestRange, test_range_compare, Direction, left, right, flip, Color, black, red}
use drastic.RbTree.Delete.{DeleteStatus, delete_ok, delete_fail}
use drastic.RbTree.Model.{
  Tree, leaf, branch, count, in_order, is_branch, child, replace, paint, rotate, side,
}
use drastic.RbTree.Model.Counts.{
  count-rotate, count-double_rotate, count-paint, count-replace, count-replace_same,
  Direction-cases,
}
use drastic.RbTree.Model.InOrder.{
  in_order-rotate, in_order-double_rotate, in_order-paint, in_order-replace,
}
use drastic.RbTree.Model.Delete.{
  color_of, paint_child, recolored, turned, rebuilt, rebalance, delete_fix, rejoin, last_range,
  unlinked_tree, other_child, delete, freed, delete-both, delete-here, delete-left, delete-right,
}
use drastic.RbTree.Heap.Links.{times}

module _ (k : ℕ) where
  pub count-paint_child :
      (d : Direction) (c : Color) (t : Tree) → count k (paint_child d c t) ≡ count k t
  count-paint_child d c t =
      count-replace_same k d t (paint c (child d t)) (count-paint k c (child d t))

  pub count-turned : (d : Direction) (t : Tree) → count k (turned d t) ≡ count k t
  count-turned d t = ground (arith, count-rotate k d t, count-double_rotate k d t)

  pub count-rebuilt : (d : Direction) (t : Tree) → count k (rebuilt d t) ≡ count k t
  count-rebuilt d t =
      count-paint_child right black (paint_child left black (paint (color_of t) (turned d t)))
      ∙ count-paint_child left black (paint (color_of t) (turned d t))
      ∙ count-paint k (color_of t) (turned d t)
      ∙ count-turned d t

  pub count-recolored : (d : Direction) (t : Tree) → count k (recolored d t) ≡ count k t
  count-recolored d t = count-paint_child (flip d) red (paint black t) ∙ count-paint k black t

  pub count-rebalance : (d : Direction) (t : Tree) → count k ((rebalance d t).0) ≡ count k t
  unfolding rebalance
  count-rebalance d t = ground (arith, count-rebuilt d t, count-recolored d t)

  pub count-delete_fix : (d : Direction) (t : Tree) → count k ((delete_fix d t).0) ≡ count k t
  unfolding delete_fix
  count-delete_fix d t = ground (
    arith,
    count-rebalance d t,
    count-replace_same k d (rotate d t) ((rebalance d (child d (rotate d t))).0)
        (count-rebalance d (child d (rotate d t))),
    count-rotate k d t,
  )

  pub count-rejoin :
      (d : Direction) (t : Tree) (z : Tree × DeleteStatus)
      → is_branch t ≡ true
      → count k ((rejoin d t z).0) + count k (child d t) ≡ count k t + count k (z.0)
  count-rejoin d t (z, delete_ok) b = count-replace k d t z b
  count-rejoin d t (z, delete_fail) b =
      omega (arith, count-delete_fix d (replace d t z), count-replace k d t z b)

  pub count-other_child :
      (x y : Tree)
      → is_branch x && is_branch y ≡ false
      → count k (other_child x y) ≡ count k x + count k y
  count-other_child leaf leaf e = omega arith
  count-other_child leaf (branch i c q x y) e = omega arith
  count-other_child (branch i c q x y) leaf e = omega arith
  count-other_child (branch i c q x y) (branch j b r z w) e = absurd (cc)

  pub count-unlinked_tree : (c : Color) (z : Tree) → count k ((unlinked_tree c z).0) ≡ count k z
  count-unlinked_tree c z = ground (arith, count-paint k black z)

  pub count-delete :
      (q : TestRange) (t : Tree) → count k ((delete q t).0) + times k (freed q t) ≡ count k t
  count-delete q leaf = unfold delete freed in omega arith
  count-delete q (branch i c r x y) = elim (Bool-cases (is_zero (test_range_compare r q))) [
    | inl e ↦ elim (Bool-cases (is_branch x && is_branch y)) [
      | inl f ↦
          rw ((delete-both q i c r x y e f).0, (delete-both q i c r x y e f).1)
            (omega (
              arith,
              count-delete (last_range r x) x,
              count-rejoin left (branch i c (last_range r x) x y) (delete (last_range r x) x) refl,
            ))
      | inr f ↦
          rw ((delete-here q i c r x y e f).0, (delete-here q i c r x y e f).1)
            (omega (arith, count-unlinked_tree c (other_child x y), count-other_child x y f))
    ]
    | inr e ↦ elim (Direction-cases (side q r)) [
      | inl f ↦
          rw ((delete-left q i c r x y e f).0, (delete-left q i c r x y e f).1)
            (omega
              (arith, count-delete q x, count-rejoin left (branch i c r x y) (delete q x) refl))
      | inr f ↦
          rw ((delete-right q i c r x y e f).0, (delete-right q i c r x y e f).1)
            (omega
              (arith, count-delete q y, count-rejoin right (branch i c r x y) (delete q y) refl))
    ]
  ]

module _ {ℓ} {A : Type ℓ} (g : ℕ → TestRange → A) where
  in_order-paint_child :
      (d : Direction) (c : Color) (t : Tree) → in_order g (paint_child d c t) ≡ in_order g t
  in_order-paint_child d c t =
      in_order-replace g d t (paint c (child d t)) (in_order-paint g c (child d t))

  in_order-turned : (d : Direction) (t : Tree) → in_order g (turned d t) ≡ in_order g t
  in_order-turned d t = ground (arith, in_order-rotate g d t, in_order-double_rotate g d t)

  in_order-rebuilt : (d : Direction) (t : Tree) → in_order g (rebuilt d t) ≡ in_order g t
  in_order-rebuilt d t =
      in_order-paint_child right black (paint_child left black (paint (color_of t) (turned d t)))
      ∙ in_order-paint_child left black (paint (color_of t) (turned d t))
      ∙ in_order-paint g (color_of t) (turned d t)
      ∙ in_order-turned d t

  in_order-recolored : (d : Direction) (t : Tree) → in_order g (recolored d t) ≡ in_order g t
  in_order-recolored d t =
      in_order-paint_child (flip d) red (paint black t) ∙ in_order-paint g black t

  in_order-rebalance : (d : Direction) (t : Tree) → in_order g ((rebalance d t).0) ≡ in_order g t
  unfolding rebalance
  in_order-rebalance d t = ground (arith, in_order-rebuilt d t, in_order-recolored d t)

  pub in_order-delete_fix :
      (d : Direction) (t : Tree) → in_order g ((delete_fix d t).0) ≡ in_order g t
  unfolding delete_fix
  in_order-delete_fix d t = ground (
    arith,
    in_order-rebalance d t,
    in_order-replace g d (rotate d t) ((rebalance d (child d (rotate d t))).0)
        (in_order-rebalance d (child d (rotate d t))),
    in_order-rotate g d t,
  )

  pub in_order-rejoin :
      (d : Direction) (t : Tree) (z : Tree × DeleteStatus)
      → in_order g ((rejoin d t z).0) ≡ in_order g (replace d t (z.0))
  in_order-rejoin d t (z, delete_ok) = refl
  in_order-rejoin d t (z, delete_fail) = in_order-delete_fix d (replace d t z)

  pub in_order-unlinked_tree :
      (c : Color) (z : Tree) → in_order g ((unlinked_tree c z).0) ≡ in_order g z
  in_order-unlinked_tree c z = ground (arith, in_order-paint g black z)
