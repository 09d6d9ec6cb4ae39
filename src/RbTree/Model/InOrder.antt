-- ===== src/RbTree/Model/InOrder.antt =====
-- A rotation and a change of colours keep what a tree holds from left to right.
use drastic.Base.{ℕ, ◌≡◌, refl, sym, ◌∙◌, ap, ap₂, ◌∷◌, ◌++◌, arith, length, length-append}
use mathlib.Core.List.{append_assoc}
use drastic.RbTree.{TestRange, Direction, left, right, flip, Color}
use drastic.RbTree.Model.{
  Tree, leaf, branch, size, in_order, child, replace, rotate, double_rotate, color_flip, paint,
  toggle, insert_fix,
}

module _ {ℓ} {A : Type ℓ} (g : ℕ → TestRange → A) where
  pub in_order-rotate : (d : Direction) (t : Tree) → in_order g (rotate d t) ≡ in_order g t
  in_order-rotate left leaf = refl
  in_order-rotate right leaf = refl
  in_order-rotate left (branch i c q x leaf) = refl
  in_order-rotate left (branch i c q x (branch j a r m y)) =
      append_assoc (in_order g x) (g i q ∷ in_order g m) (g j r ∷ in_order g y)
  in_order-rotate right (branch i c q leaf y) = refl
  in_order-rotate right (branch i c q (branch j a r x m) y) =
      sym (append_assoc (in_order g x) (g j r ∷ in_order g m) (g i q ∷ in_order g y))

  pub in_order-replace :
      (d : Direction) (t z : Tree)
      → in_order g z ≡ in_order g (child d t)
      → in_order g (replace d t z) ≡ in_order g t
  in_order-replace d leaf z e = refl
  in_order-replace left (branch i c q x y) z e = ap (λ xs. xs ++ (g i q ∷ in_order g y)) e
  in_order-replace right (branch i c q x y) z e = ap (λ ys. in_order g x ++ (g i q ∷ ys)) e

  pub in_order-double_rotate :
      (d : Direction) (t : Tree) → in_order g (double_rotate d t) ≡ in_order g t
  in_order-double_rotate d t =
      let inner : Tree = rotate (flip d) (child (flip d) t) in
      in_order-rotate d (replace (flip d) t inner)
      ∙ in_order-replace (flip d) t inner (in_order-rotate (flip d) (child (flip d) t))

  pub in_order-paint : (a : Color) (t : Tree) → in_order g (paint a t) ≡ in_order g t
  in_order-paint a leaf = refl
  in_order-paint a (branch i c q x y) = refl

  in_order-toggle : (t : Tree) → in_order g (toggle t) ≡ in_order g t
  in_order-toggle leaf = refl
  in_order-toggle (branch i c q x y) = refl

  pub in_order-color_flip : (t : Tree) → in_order g (color_flip t) ≡ in_order g t
  in_order-color_flip leaf = refl
  in_order-color_flip (branch i c q x y) =
      ap₂ (λ xs ys. xs ++ (g i q ∷ ys)) (in_order-toggle x) (in_order-toggle y)

  pub in_order-insert_fix : (d : Direction) (t : Tree) → in_order g (insert_fix d t) ≡ in_order g t
  unfolding insert_fix
  in_order-insert_fix d t =
      ground (
        arith,
        in_order-color_flip t,
        in_order-rotate (flip d) t,
        in_order-double_rotate (flip d) t,
      )

pub size-in_order {ℓ} :
    {A : Type ℓ} (g : ℕ → TestRange → A) (t : Tree) → length (in_order g t) ≡ size t
size-in_order g leaf = refl
size-in_order g (branch i c q x y) = omega (
  arith,
  length-append (in_order g x) (g i q ∷ in_order g y),
  size-in_order g x,
  size-in_order g y,
)
