-- ===== src/RbTree/Heap/Sibling.antt =====
-- What `rb_delete_fix_up` does once the sibling is not red: at the node itself, and below a red sibling.
use drastic.Base.{
  ℕ, ◌≤◌, ◌≡◌, refl, sym, ◌∙◌, ap, Bool, true, false, ◌||◌, if◌then◌else◌, Bool-cases, inl, inr,
  Result, ok, ◌>>=◌, arith,
}
use mathlib.Core.Path.{subst}
use drastic.RbTree.{
  TestRange, Direction, left, right, flip, Color, NodePointer, nil, node, Nodes, node_set_child,
  either_red,
}
use drastic.RbTree.Delete.{
  DeleteStatus, delete_ok, delete_fail, recolor_sibling, rotate_sibling, with_sibling,
}
use drastic.RbTree.Model.{Tree, leaf, branch, count, Distinct, is_red, is_branch, child, replace}
use drastic.RbTree.Model.Counts.{count-child, count-replace_same}
use drastic.RbTree.Model.Delete.{recolored, rebuilt, rebalance, in_child}
use drastic.RbTree.Model.Delete.Contents.{count-rebuilt, count-recolored}
use drastic.RbTree.Heap.{Repr, same_node, Becomes, Does, Repr-valid, Repr-child, with_child, graft}
use drastic.RbTree.Heap.Recolor.{graft_in_place}
use drastic.RbTree.Heap.InsertFix.{either_red-is_red}
use drastic.RbTree.Heap.DeleteFix.{Recolors, recolor_sibling-Recolors, rotate_sibling-Does}

-- The tree `t` has become `z.0`, and the status is `z.1`.
pub record Fixes (s : Nodes) (t : Tree) (z : Tree × DeleteStatus)
    (out : Result (NodePointer × (DeleteStatus × Nodes))) : Type 0 where
  pub p : NodePointer
  pub after : Nodes
  pub returns : out ≡ ok (p, (z.1, after))
  pub becomes : Becomes s t (z.0) after p
  pub same_list : after.list ≡ s.list

-- Which node a pointer leads to.
pub Repr-node :
    (s : Nodes) (p : NodePointer) (t : Tree)
    → Repr s p t
    → is_branch t ≡ true
    → (j : ℕ) × (p ≡ node j)
Repr-node s p leaf e b = absurd (cc)
Repr-node s p (branch j c q x y) (e, e1, e2, hx, hy) b = (j, e)

pub Repr-nil : (s : Nodes) (p : NodePointer) (t : Tree) → Repr s p t → is_branch t ≡ false → p ≡ nil
Repr-nil s p leaf e b = e
Repr-nil s p (branch j c q x y) h b = absurd (cc)

module _ (s : Nodes) (p parent sibling : NodePointer) (z : Tree) (reduced : Bool) (d : Direction)
    (h : Repr s sibling z) where
  no_sibling :
      is_branch z ≡ false → with_sibling s p parent sibling reduced d ≡ ok (p, (delete_fail, s))
  unfolding with_sibling
  no_sibling b = rw (Repr-nil s sibling z h b) refl

  black_nephews :
      is_branch z ≡ true
      → is_red (child left z) || is_red (child right z) ≡ false
      → with_sibling s p parent sibling reduced d
        ≡ (recolor_sibling s parent sibling >>= λ (status, s1). ok (p, (status, s1)))
  black_nephews b n = at (Repr-node s sibling z h b)
    where
      at :
          (j : ℕ) × (sibling ≡ node j)
          → with_sibling s p parent sibling reduced d
            ≡ (recolor_sibling s parent sibling >>= λ (status, s1). ok (p, (status, s1)))
      at (j, e) =
          let either : either_red s (node j) left
              ≡ ok (is_red (child left z) || is_red (child right z)) =
            either_red-is_red s (node j) left z (subst (λ p. Repr s p z) e h) b in
          unfold with_sibling in rw (e, either, n) refl

  red_nephew :
      is_branch z ≡ true
      → is_red (child left z) || is_red (child right z) ≡ true
      → (top : NodePointer) (s1 : Nodes) → rotate_sibling s parent sibling d ≡ ok (top, s1)
      → with_sibling s p parent sibling reduced d ≡ (
          if reduced
          then (node_set_child s1 p d top >>= λ s2. ok (p, (delete_ok, s2)))
          else ok (top, (delete_ok, s1)))
  red_nephew b n top s1 r = at (Repr-node s sibling z h b)
    where
      at :
          (j : ℕ) × (sibling ≡ node j)
          → with_sibling s p parent sibling reduced d ≡ (
              if reduced
              then (node_set_child s1 p d top >>= λ s2. ok (p, (delete_ok, s2)))
              else ok (top, (delete_ok, s1)))
      at (j, e) =
          let either : either_red s (node j) left
              ≡ ok (is_red (child left z) || is_red (child right z)) =
            either_red-is_red s (node j) left z (subst (λ p. Repr s p z) e h) b in
          let r' : rotate_sibling s parent (node j) d ≡ ok (top, s1) =
            subst (λ q. rotate_sibling s parent q d ≡ ok (top, s1)) e r in
          unfold with_sibling in rw (e, either, n, r') refl

module _ (s : Nodes) (d : Direction) (i : ℕ) (c : Color) (q : TestRange) (x y : Tree)
    (u : Distinct (branch i c q x y)) (h : Repr s (node i) (branch i c q x y)) where
  pub direct-Fixes :
      Fixes s
        (branch i c q x y)
        (rebalance d (branch i c q x y))
        (with_sibling s (node i) (node i) (s.children (flip d) i) false d)
  unfolding rebalance
  direct-Fixes =
      let t : Tree = branch i c q x y in
      let z : Tree = child (flip d) t in
      let at : Repr s (s.children (flip d) i) z = Repr-child s (flip d) i c q x y (node i) h in
      elim (Bool-cases (is_branch z)) [
        | inr b ↦
            rw (no_sibling s (node i) (node i) (s.children (flip d) i) z false d at b, b)
              (record {
                p = node i;
                after = s;
                returns = refl;
                becomes = record { repr = h; frame = λ k e. same_node s k };
                same_list = refl;
              })
        | inl b ↦ elim (Bool-cases (is_red (child left z) || is_red (child right z))) [
          | inr n ↦
              let f : Recolors s d i c q x y u h
                  (recolor_sibling s (node i) (s.children (flip d) i)) =
                recolor_sibling-Recolors s d i c q x y u h b in
              rw (black_nephews s (node i) (node i) (s.children (flip d) i) z false d at b n, b, n)
                (record {
                  p = node i;
                  after = f.after;
                  returns = rw (f.returns) refl;
                  becomes = f.becomes;
                  same_list = f.same_list;
                })
          | inl n ↦
              let f : Does s t (rebuilt d t) (rotate_sibling s (node i) (s.children (flip d) i) d) =
                rotate_sibling-Does s d i c q x y u h n in
              rw
                (
                  red_nephew s (node i) (node i) (s.children (flip d) i) z false d at b n (f.p)
                      (f.after) (f.returns),
                  b,
                  n,
                )
                (record {
                  p = f.p;
                  after = f.after;
                  returns = refl;
                  becomes = f.becomes;
                  same_list = f.same_list;
                })
        ]
      ]

-- The same below the sibling that came up: `node j` is above `node i`.
module _ (s : Nodes) (d : Direction) (j : ℕ) (c' : Color) (q' : TestRange) (x' y' : Tree)
    (u' : Distinct (branch j c' q' x' y')) (h' : Repr s (node j) (branch j c' q' x' y')) (i : ℕ)
    (c : Color) (q : TestRange) (x y : Tree)
    (below : child d (branch j c' q' x' y') ≡ branch i c q x y) where
  pub below-Repr : Repr s (s.children d j) (branch i c q x y)
  below-Repr =
      subst (λ t. Repr s (s.children d j) t) below (Repr-child s d j c' q' x' y' (node j) h')

  replace-child : (d : Direction) (t : Tree) → replace d t (child d t) ≡ t
  replace-child left leaf = refl
  replace-child right leaf = refl
  replace-child left (branch k b r v w) = refl
  replace-child right (branch k b r v w) = refl

  count-below : (k : ℕ) → count k (branch i c q x y) ≤ count k (branch j c' q' x' y')
  count-below k = omega (arith, count-child k d (branch j c' q' x' y'), ap (count k) below)

  -- Any tree with the same numbers can take the place of the one below.
  Distinct-below :
      (z : Tree)
      → ((k : ℕ) → count k z ≡ count k (branch i c q x y))
      → Distinct (replace d (branch j c' q' x' y') z)
  Distinct-below z same k = omega (
    arith,
    u' k,
    count-replace_same k d (branch j c' q' x' y') z (same k ∙ sym (ap (count k) below)),
  )

  put_back :
      (s1 : Nodes) (r : NodePointer) (z : Tree)
      → ((k : ℕ) → count k z ≡ count k (branch i c q x y))
      → Becomes s (branch i c q x y) z s1 r
      → Becomes s
          (branch j c' q' x' y')
          (replace d (branch j c' q' x' y') z)
          (with_child s1 j d r)
          (node j)
  put_back s1 r z same g =
      graft s s1 d r (node j) j c' q' x' y' z u' (Distinct-below z same) h'
        (subst (λ t. Becomes s t z s1 r) (sym below) g)

  stay :
      (s1 : Nodes) (z : Tree)
      → ((k : ℕ) → count k z ≡ count k (branch i c q x y))
      → Becomes s (branch i c q x y) z s1 (node i)
      → Becomes s (branch j c' q' x' y') (replace d (branch j c' q' x' y') z) s1 (node j)
  stay s1 z same g = graft_in_place s s1 d (node j) j c' q' x' y' z u' (Distinct-below z same) h' (
      subst (λ t. Becomes s t z s1 (s.children d j)) (sym below)
        (subst (λ p. Becomes s (branch i c q x y) z s1 p) (sym (below-Repr.0)) g))

  pub reduced-Fixes :
      Fixes s
        (branch j c' q' x' y')
        (in_child d (branch j c' q' x' y') (rebalance d (branch i c q x y)))
        (with_sibling s (node j) (node i) (s.children (flip d) i) true d)
  unfolding rebalance
  reduced-Fixes =
      let t' : Tree = branch j c' q' x' y' in
      let t : Tree = branch i c q x y in
      let u : Distinct t = λ k. omega (arith, u' k, count-below k) in
      let h : Repr s (node i) t = subst (λ p. Repr s p t) (below-Repr.0) below-Repr in
      let z : Tree = child (flip d) t in
      let at : Repr s (s.children (flip d) i) z = Repr-child s (flip d) i c q x y (node i) h in
      elim (Bool-cases (is_branch z)) [
        | inr b ↦
            rw (no_sibling s (node j) (node i) (s.children (flip d) i) z true d at b, b)
              (record {
                p = node j;
                after = s;
                returns = refl;
                becomes = stay s t (λ k. refl) (record { repr = h; frame = λ k e. same_node s k });
                same_list = refl;
              })
        | inl b ↦ elim (Bool-cases (is_red (child left z) || is_red (child right z))) [
          | inr n ↦
              let f : Recolors s d i c q x y u h
                  (recolor_sibling s (node i) (s.children (flip d) i)) =
                recolor_sibling-Recolors s d i c q x y u h b in
              rw (black_nephews s (node j) (node i) (s.children (flip d) i) z true d at b n, b, n)
                (record {
                  p = node j;
                  after = f.after;
                  returns = rw (f.returns) refl;
                  becomes = stay (f.after) (recolored d t) (λ k. count-recolored k d t) (f.becomes);
                  same_list = f.same_list;
                })
          | inl n ↦
              let f : Does s t (rebuilt d t) (rotate_sibling s (node i) (s.children (flip d) i) d) =
                rotate_sibling-Does s d i c q x y u h n in
              rw
                (
                  red_nephew s (node j) (node i) (s.children (flip d) i) z true d at b n (f.p)
                      (f.after) (f.returns),
                  b,
                  n,
                )
                (record {
                  p = node j;
                  after = with_child (f.after) j d (f.p);
                  returns = rw (Repr-valid (f.after) (f.p) (rebuilt d t) (f.becomes.repr)) refl;
                  becomes =
                      put_back (f.after) (f.p) (rebuilt d t) (λ k. count-rebuilt k d t) (f.becomes);
                  same_list = f.same_list;
                })
        ]
      ]
