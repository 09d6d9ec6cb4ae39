-- ===== src/RbTree/Model/Delete/RedBlack.antt =====
-- Deletion keeps a tree red-black.
use drastic.Base.{ℕ, suc, ◌≡◌, refl, sym, ◌∙◌, ap, true, false, ◌&&◌, Bool-cases, inl, inr, arith}
use mathlib.Core.Path.{subst}
use drastic.Base.Int.{is_zero}
use drastic.RbTree.{
  TestRange, test_range_compare, Direction, left, right, flip, Color, black, red, is_red_color,
}
use drastic.RbTree.Delete.{DeleteStatus, delete_ok, delete_fail}
use drastic.RbTree.Model.{
  Tree, leaf, branch, is_branch, is_red, child, replace, paint, rotate, side,
}
use drastic.RbTree.Model.Counts.{Direction-cases}
use drastic.RbTree.Model.Balance.{Balanced, IsRedBlack}
use drastic.RbTree.Model.Delete.{
  color_of, paint_child, rebalance, delete_fix, rejoin, recolored, rebuilt, turned, unlinked_tree,
  other_child, last_range, delete, delete-both, delete-here, delete-left, delete-right,
}
use drastic.RbTree.Model.Delete.Nephews.{above, Balanced-paint, is_red-paint}
use drastic.RbTree.Model.Delete.Balance.{AfterDelete, fix-left, fix-right}

is_red-replace : (d : Direction) (t z : Tree) → is_red (replace d t z) ≡ is_red t
is_red-replace d leaf z = refl
is_red-replace left (branch i c q x y) z = refl
is_red-replace right (branch i c q x y) z = refl

color_of-black : (t : Tree) → is_red t ≡ false → color_of t ≡ black
color_of-black leaf e = refl
color_of-black (branch i black q x y) e = refl
color_of-black (branch i red q x y) e = absurd (cc)

is_red-rotate : (d : Direction) (t : Tree) → is_red (rotate d t) ≡ is_red t
is_red-rotate left leaf = refl
is_red-rotate right leaf = refl
is_red-rotate left (branch i c q x leaf) = refl
is_red-rotate left (branch i c q x (branch j a r m y)) = refl
is_red-rotate right (branch i c q leaf y) = refl
is_red-rotate right (branch i c q (branch j a r x m) y) = refl

rebalance-black : (d : Direction) (t : Tree) → is_red t ≡ false → is_red ((rebalance d t).0) ≡ false
unfolding rebalance
rebalance-black d t e =
    let top : Tree = turned d t in
    let b1 : is_red (rebuilt d t) ≡ false =
      is_red-replace right (paint_child left black (paint (color_of t) top))
        (paint black (child right (paint_child left black (paint (color_of t) top))))
      ∙ is_red-replace left (paint (color_of t) top)
          (paint black (child left (paint (color_of t) top)))
      ∙ ap (λ c. is_red (paint c top)) (color_of-black t e)
      ∙ is_red-paint top in
    let b2 : is_red (recolored d t) ≡ false =
      is_red-replace (flip d) (paint black t) (paint red (child (flip d) (paint black t)))
      ∙ is_red-paint t in
    ground (arith, e, b1, b2)

delete_fix-black :
    (d : Direction) (t : Tree) → is_red t ≡ false → is_red ((delete_fix d t).0) ≡ false
unfolding delete_fix
delete_fix-black d t e = ground (
  arith,
  rebalance-black d t e,
  is_red-replace d (rotate d t) ((rebalance d (child d (rotate d t))).0),
  is_red-rotate d t,
)

rejoin-black :
    (d : Direction) (t : Tree) (z : Tree × DeleteStatus)
    → is_red t ≡ false
    → is_red ((rejoin d t z).0) ≡ false
rejoin-black d t (z, delete_ok) e = is_red-replace d t z ∙ e
rejoin-black d t (z, delete_fail) e = delete_fix-black d (replace d t z) (is_red-replace d t z ∙ e)

-- What a deletion guarantees of the tree that was there.
abbrev Keeps : Tree → ℕ → Tree × DeleteStatus → Type 0
Keeps t n z = AfterDelete z n × (is_red t ≡ false → is_red (z.0) ≡ false)

rejoin-left :
    (i n : ℕ) (c : Color) (r : TestRange) (x y : Tree) (z : Tree × DeleteStatus)
    → Keeps x n z
    → Balanced y n
    → (is_red_color c ≡ true → (is_red x ≡ false) × (is_red y ≡ false))
    → Keeps (branch i c r x y) (above c n) (rejoin left (branch i c r x y) z)
rejoin-left i n black r x y (z, delete_ok) (hz, k) hy e = ((n, refl, hz, hy), λ f. refl)
rejoin-left i n red r x y (z, delete_ok) (hz, k) hy e =
    ((k ((e refl).0), (e refl).1, hz, hy), λ f. absurd (cc))
rejoin-left i n c r x y (z, delete_fail) ((ez, (m, em, hz)), k) hy e =
    let hy' : Balanced y (suc m) = subst (Balanced y) em hy in
    (
      subst (λ n. AfterDelete (delete_fix left (branch i c r z y)) (above c n)) (sym em)
          (fix-left i m c r z y hz hy' ez (λ f. (e f).1)),
      λ f. delete_fix-black left (branch i c r z y) f,
    )

rejoin-right :
    (i n : ℕ) (c : Color) (r : TestRange) (x y : Tree) (z : Tree × DeleteStatus)
    → Keeps x n z
    → Balanced y n
    → (is_red_color c ≡ true → (is_red x ≡ false) × (is_red y ≡ false))
    → Keeps (branch i c r y x) (above c n) (rejoin right (branch i c r y x) z)
rejoin-right i n black r x y (z, delete_ok) (hz, k) hy e = ((n, refl, hy, hz), λ f. refl)
rejoin-right i n red r x y (z, delete_ok) (hz, k) hy e =
    (((e refl).1, k ((e refl).0), hy, hz), λ f. absurd (cc))
rejoin-right i n c r x y (z, delete_fail) ((ez, (m, em, hz)), k) hy e =
    let hy' : Balanced y (suc m) = subst (Balanced y) em hy in
    (
      subst (λ n. AfterDelete (delete_fix right (branch i c r y z)) (above c n)) (sym em)
          (fix-right i m c r z y hz hy' ez (λ f. (e f).1)),
      λ f. delete_fix-black right (branch i c r y z) f,
    )

Balanced-other_child :
    (x y : Tree) (n : ℕ) → Balanced x n → Balanced y n → Balanced (other_child x y) n
Balanced-other_child leaf leaf n hx hy = hx
Balanced-other_child leaf (branch i c q x y) n hx hy = hy
Balanced-other_child (branch i c q x y) leaf n hx hy = hx
Balanced-other_child (branch i c q x y) (branch j d r z w) n hx hy = hy

is_red-other_child :
    (x y : Tree) → is_red x ≡ false → is_red y ≡ false → is_red (other_child x y) ≡ false
is_red-other_child leaf leaf ex ey = refl
is_red-other_child leaf (branch i c q x y) ex ey = ey
is_red-other_child (branch i c q x y) leaf ex ey = ex
is_red-other_child (branch i c q x y) (branch j d r z w) ex ey = ey

unlinked_tree-black :
    (n : ℕ) (z : Tree)
    → Balanced z n
    → AfterDelete (unlinked_tree black z) (suc n) × (is_red ((unlinked_tree black z).0) ≡ false)
unlinked_tree-black n z h = elim (Bool-cases (is_red z)) [
  | inl e ↦ rw e (Balanced-paint z n e h, is_red-paint z)
  | inr e ↦ rw e ((e, (n, refl, h)), e)
]

pub delete-Keeps : (q : TestRange) (t : Tree) (n : ℕ) → Balanced t n → Keeps t n (delete q t)
delete-Keeps q leaf n h = unfold delete in (h, λ e. refl)
delete-Keeps q (branch i black r x y) n (m, en, hx, hy) =
    rw en (elim (Bool-cases (is_zero (test_range_compare r q))) [
      | inl e ↦ elim (Bool-cases (is_branch x && is_branch y)) [
        | inl f ↦ rw ((delete-both q i black r x y e f).0) (
            rejoin-left i m black (last_range r x) x y (delete (last_range r x) x)
              (delete-Keeps (last_range r x) x m hx) hy (λ g. absurd (cc)))
        | inr f ↦
            let u : AfterDelete (unlinked_tree black (other_child x y)) (suc m)
                × (is_red ((unlinked_tree black (other_child x y)).0) ≡ false) =
              unlinked_tree-black m (other_child x y) (Balanced-other_child x y m hx hy) in
            rw ((delete-here q i black r x y e f).0) (u.0, λ g. u.1)
      ]
      | inr e ↦ elim (Direction-cases (side q r)) [
        | inl f ↦
            rw ((delete-left q i black r x y e f).0) (
              rejoin-left i m black r x y (delete q x) (delete-Keeps q x m hx) hy
                (λ g. absurd (cc)))
        | inr f ↦ rw ((delete-right q i black r x y e f).0) (
            rejoin-right i m black r y x (delete q y) (delete-Keeps q y m hy) hx (λ g. absurd (cc)))
      ]
    ])
delete-Keeps q (branch i red r x y) n (ex, ey, hx, hy) =
    elim (Bool-cases (is_zero (test_range_compare r q))) [
      | inl e ↦ elim (Bool-cases (is_branch x && is_branch y)) [
        | inl f ↦ rw ((delete-both q i red r x y e f).0) (
            rejoin-left i n red (last_range r x) x y (delete (last_range r x) x)
              (delete-Keeps (last_range r x) x n hx) hy (λ g. (ex, ey)))
        | inr f ↦
            rw ((delete-here q i red r x y e f).0)
              (Balanced-other_child x y n hx hy, λ g. absurd (cc))
      ]
      | inr e ↦ elim (Direction-cases (side q r)) [
        | inl f ↦
            rw ((delete-left q i red r x y e f).0)
              (rejoin-left i n red r x y (delete q x) (delete-Keeps q x n hx) hy (λ g. (ex, ey)))
        | inr f ↦
            rw ((delete-right q i red r x y e f).0)
              (rejoin-right i n red r y x (delete q y) (delete-Keeps q y n hy) hx (λ g. (ey, ex)))
      ]
    ]

pub delete-IsRedBlack :
    (q : TestRange) (t : Tree) → IsRedBlack t → IsRedBlack (paint black ((delete q t).0))
delete-IsRedBlack q t (e, (n, h)) =
    go (delete q t) ((delete-Keeps q t n h).0) ((delete-Keeps q t n h).1 e)
  where
    paint-black : (t : Tree) → is_red t ≡ false → paint black t ≡ t
    paint-black leaf e = refl
    paint-black (branch i black q x y) e = refl
    paint-black (branch i red q x y) e = absurd (cc)

    go :
        (z : Tree × DeleteStatus)
        → AfterDelete z n
        → is_red (z.0) ≡ false
        → IsRedBlack (paint black (z.0))
    go (z, delete_ok) h e = subst IsRedBlack (sym (paint-black z e)) (e, (n, h))
    go (z, delete_fail) (e', (m, em, h)) e = subst IsRedBlack (sym (paint-black z e)) (e, (m, h))
