-- ===== src/RbTree/Heap/PaintChild.antt =====
-- Painting the children of a node that came up, which are both there.
use drastic.Base.{ℕ, ◌≡◌, refl, true, false, ◌||◌, Bool-cases, inl, inr, ok, arith}
use drastic.RbTree.{
  TestRange, Direction, left, right, flip, Color, NodePointer, node, Nodes, node_get_child,
  node_set_color,
}
use drastic.RbTree.Model.{
  Tree, leaf, branch, Distinct, is_red, is_branch, child, paint, double_rotate,
}
use drastic.RbTree.Model.Counts.{count-child}
use drastic.RbTree.Model.Delete.{paint_child, turned}
use drastic.RbTree.Model.Delete.Contents.{count-paint_child}
use drastic.RbTree.Heap.{Repr, Becomes, Repr-valid, Repr-child}
use drastic.RbTree.Heap.Recolor.{Paints, node_set_color-Paints, graft_in_place}
use drastic.RbTree.Heap.InsertFix.{is_red→is_branch}

-- A child is painted, through a pointer that has been read from its parent.
pub record PaintsChild (s : Nodes) (d : Direction) (p : NodePointer) (a : Color) (t : Tree)
    : Type 0 where
  pub r : NodePointer
  pub after : Nodes
  pub got : node_get_child s p d ≡ ok r
  pub set : node_set_color s r a ≡ ok after
  pub becomes : Becomes s t (paint_child d a t) after p
  pub same_list : after.list ≡ s.list

pub paint_at :
    (s : Nodes) (d : Direction) (i : ℕ) (a c : Color) (q : TestRange) (x y : Tree)
    → Distinct (branch i c q x y)
    → Repr s (node i) (branch i c q x y)
    → is_branch (child d (branch i c q x y)) ≡ true
    → Paints s
        (branch i c q x y)
        (paint_child d a (branch i c q x y))
        (node i)
        (node_set_color s (s.children d i) a)
paint_at s d i a c q x y u h b =
    let t : Tree = branch i c q x y in
    let f : Paints s (child d t) (paint a (child d t)) (s.children d i)
        (node_set_color s (s.children d i) a) =
      node_set_color-Paints s (s.children d i) a (child d t)
        (λ k. omega (arith, u k, count-child k d t)) (Repr-child s d i c q x y (node i) h) b in
    record {
      after = f.after;
      returns = f.returns;
      becomes =
          graft_in_place s (f.after) d (node i) i c q x y (paint a (child d t)) u
            (λ k. omega (arith, u k, count-paint_child k d a t)) h (f.becomes);
      same_list = f.same_list;
    }

pub paint_below :
    (s : Nodes) (d : Direction) (p : NodePointer) (a : Color) (t : Tree)
    → Distinct t
    → Repr s p t
    → is_branch t ≡ true
    → is_branch (child d t) ≡ true
    → PaintsChild s d p a t
paint_below s d p a leaf u h b' b = absurd (cc)
paint_below s d p a (branch i c q x y) u (e, e1, e2, hx, hy) b' b =
    let h : Repr s (node i) (branch i c q x y) = (refl, e1, e2, hx, hy) in
    let f : Paints s (branch i c q x y) (paint_child d a (branch i c q x y)) (node i)
        (node_set_color s (s.children d i) a) =
      paint_at s d i a c q x y u h b in
    record {
      r = s.children d i;
      after = f.after;
      got = rw e (
          Repr-valid s (s.children d i) (child d (branch i c q x y))
            (Repr-child s d i c q x y (node i) h));
      set = f.returns;
      becomes = rw e (f.becomes);
      same_list = f.same_list;
    }

pub child-color :
    (d : Direction) (i : ℕ) (a c : Color) (q : TestRange) (x y : Tree)
    → child d (branch i a q x y) ≡ child d (branch i c q x y)
child-color left i a c q x y = refl
child-color right i a c q x y = refl

pub child-paint : (d : Direction) (a : Color) (t : Tree) → child d (paint a t) ≡ child d t
child-paint left a leaf = refl
child-paint right a leaf = refl
child-paint left a (branch i c q x y) = refl
child-paint right a (branch i c q x y) = refl

pub child-paint_left : (a : Color) (t : Tree) → child right (paint_child left a t) ≡ child right t
child-paint_left a leaf = refl
child-paint_left a (branch i c q x y) = refl

pub is_branch-paint : (a : Color) (t : Tree) → is_branch (paint a t) ≡ is_branch t
is_branch-paint a leaf = refl
is_branch-paint a (branch i c q x y) = refl

pub is_branch-paint_child :
    (d : Direction) (a : Color) (t : Tree) → is_branch (paint_child d a t) ≡ is_branch t
is_branch-paint_child d a leaf = refl
is_branch-paint_child left a (branch i c q x y) = refl
is_branch-paint_child right a (branch i c q x y) = refl

-- The sibling is there, and has a red child.
abbrev pub HasRedNephew : Direction → Tree → Type 0
HasRedNephew d t =
    is_red (child left (child (flip d) t)) || is_red (child right (child (flip d) t)) ≡ true

pub HasRedNephew-is_branch :
    (d : Direction) (t : Tree) → HasRedNephew d t → is_branch (child (flip d) t) ≡ true
HasRedNephew-is_branch d t e = at (child (flip d) t) e
  where
    at : (z : Tree) → is_red (child left z) || is_red (child right z) ≡ true → is_branch z ≡ true
    at leaf e = e
    at (branch i c q x y) e = refl

-- The node that comes up has both children.
abbrev Full : Tree → Type 0
Full t =
    (is_branch t ≡ true) × (is_branch (child left t) ≡ true) × (is_branch (child right t) ≡ true)

pub turned-Full : (d : Direction) (t : Tree) → HasRedNephew d t → Full (turned d t)
turned-Full left leaf e = absurd (cc)
turned-Full right leaf e = absurd (cc)
turned-Full left (branch i c q x leaf) e = absurd (cc)
turned-Full right (branch i c q leaf x) e = absurd (cc)
turned-Full left (branch i c q x (branch j a r m y)) e = elim (Bool-cases (is_red y)) [
  | inl f ↦ rw f (refl, refl, is_red→is_branch y f)
  | inr f ↦ rw f (double m f e)
]
  where
    double :
        (m : Tree)
        → is_red y ≡ false
        → is_red m || is_red y ≡ true
        → (is_branch (double_rotate left (branch i c q x (branch j a r m y))) ≡ true)
          × (is_branch (child left (double_rotate left (branch i c q x (branch j a r m y)))) ≡ true)
          × (is_branch (child right (double_rotate left (branch i c q x (branch j a r m y))))
              ≡ true)
    double leaf f e = absurd (cc)
    double (branch k b s l o) f e = (refl, refl, refl)
turned-Full right (branch i c q (branch j a r y m) x) e = elim (Bool-cases (is_red y)) [
  | inl f ↦ rw f (refl, is_red→is_branch y f, refl)
  | inr f ↦ rw f (double m f e)
]
  where
    double :
        (m : Tree)
        → is_red y ≡ false
        → is_red y || is_red m ≡ true
        → (is_branch (double_rotate right (branch i c q (branch j a r y m) x)) ≡ true)
          × (is_branch (child left (double_rotate right (branch i c q (branch j a r y m) x)))
              ≡ true)
          × (is_branch (child right (double_rotate right (branch i c q (branch j a r y m) x)))
              ≡ true)
    double leaf f e = absurd (ground arith)
    double (branch k b s l o) f e = (refl, refl, refl)
