-- ===== src/RbTree/Heap/Rotate.antt =====
-- `node_rotate` and `node_double_rotate` on the nodes of a tree.
use drastic.Base.{ℕ, ◌≡◌, ◌≢◌, refl, ◌∙◌, ap, true, false, ◌==◌, ok, arith}
use drastic.RbTree.{
  TestRange, Direction, left, right, flip, Color, red, NodePointer, node, Nodes, set_at, set_link,
  node_valid, not_nil, node_rotate, node_double_rotate,
}
use drastic.RbTree.Model.{
  Tree, leaf, branch, count, Distinct, is_branch, child, replace, rotate, double_rotate,
}
use drastic.RbTree.Model.Counts.{
  count-rotate, count-replace_same, count-child, child-replace, is_branch-rotate, is_branch-child,
}
use drastic.RbTree.Heap.{
  Repr, SameNode, Becomes, Does, Repr-kept, Repr-valid, Repr-not_nil, Repr-child, Becomes-trans,
  with_child, graft, apart,
}

-- What `node_rotate` leaves when `node j` is the child of `node i` that comes up.
abbrev rotated : Nodes → ℕ → ℕ → Direction → Nodes
rotated s i j d = record s {
  children = set_link (set_link s.children (flip d) i (s.children d j)) d j (node i);
  color = set_at (set_at s.color j (s.color i)) i red;
}

rotated-SameNode :
    (s : Nodes) (i j : ℕ) (d : Direction) (k : ℕ)
    → (k == i) ≡ false
    → (k == j) ≡ false
    → SameNode s (rotated s i j d) k
rotated-SameNode s i j left k e f = record {
  range = refl;
  color = rw (e, f) refl;
  left_child = rw f refl;
  right_child = rw e refl;
}
rotated-SameNode s i j right k e f = record {
  range = refl;
  color = rw (e, f) refl;
  left_child = rw e refl;
  right_child = rw f refl;
}

rotated-kept :
    (s : Nodes) (i j : ℕ) (d : Direction) (p p' : NodePointer) (t : Tree)
    → p' ≡ p
    → count i t ≡ 0
    → count j t ≡ 0
    → Repr s p t
    → Repr (rotated s i j d) p' t
rotated-kept s i j d p p' t e ci cj h =
    Repr-kept s (rotated s i j d) p p' t e
      (λ k lt. rotated-SameNode s i j d k (apart i k t ci lt) (apart j k t cj lt)) h

pub node_rotate-Does :
    (s : Nodes) (d : Direction) (p : NodePointer) (t : Tree)
    → Distinct t
    → Repr s p t
    → is_branch (child (flip d) t) ≡ true
    → Does s t (rotate d t) (node_rotate s p d)
unfolding node_rotate
node_rotate-Does s left p leaf u h b = absurd (cc)
node_rotate-Does s right p leaf u h b = absurd (cc)
node_rotate-Does s left p (branch i c q x leaf) u h b = absurd (cc)
node_rotate-Does s left p (branch i c q x (branch j a r m y)) u (e, e1, e2, hx, (f, f1, f2, hm, hy))
      b =
    let valid : node_valid (s.children left j) ≡ ok (s.children left j) =
      Repr-valid s (s.children left j) m hm in
    let after : Nodes = rotated s i j left in
    let kx : Repr after (after.children left i) x =
      rotated-kept s i j left (s.children left i) (after.children left i) x (ground (arith, u i))
        (ground (arith, u i)) (ground (arith, u j)) hx in
    let km : Repr after (after.children right i) m =
      rotated-kept s i j left (s.children left j) (after.children right i) m (ground (arith, u i))
        (ground (arith, u i)) (ground (arith, u j)) hm in
    let ky : Repr after (after.children right j) y =
      rotated-kept s i j left (s.children right j) (after.children right j) y (ground (arith, u i))
        (ground (arith, u i)) (ground (arith, u j)) hy in
    record {
      p = node j;
      after = after;
      returns = rw (e, f, valid, valid) refl;
      becomes = record {
        repr = (refl, ground (arith, u i), f2, (ground arith, ground arith, e2, kx, km), ky);
        frame = λ k h. rotated-SameNode s i j left k (ground arith) (ground arith);
      };
      same_list = refl;
    }
node_rotate-Does s right p (branch i c q leaf y) u h b = absurd (cc)
node_rotate-Does s right p (branch i c q (branch j a r x m) y) u
      (e, e1, e2, (f, f1, f2, hx, hm), hy) b =
    let valid : node_valid (s.children right j) ≡ ok (s.children right j) =
      Repr-valid s (s.children right j) m hm in
    let after : Nodes = rotated s i j right in
    let kx : Repr after (after.children left j) x =
      rotated-kept s i j right (s.children left j) (after.children left j) x (ground (arith, u i))
        (ground (arith, u i)) (ground (arith, u j)) hx in
    let km : Repr after (after.children left i) m =
      rotated-kept s i j right (s.children right j) (after.children left i) m (ground (arith, u i))
        (ground (arith, u i)) (ground (arith, u j)) hm in
    let ky : Repr after (after.children right i) y =
      rotated-kept s i j right (s.children right i) (after.children right i) y (ground (arith, u i))
        (ground (arith, u i)) (ground (arith, u j)) hy in
    record {
      p = node j;
      after = after;
      returns = rw (e, f, valid, valid) refl;
      becomes = record {
        repr = (refl, ground (arith, u i), f2, kx, (ground arith, ground arith, e2, km, ky));
        frame = λ k h. rotated-SameNode s i j right k (ground arith) (ground arith);
      };
      same_list = refl;
    }

pub flip-flip : (d : Direction) → flip (flip d) ≡ d
flip-flip left = refl
flip-flip right = refl

child-leaf : (d : Direction) → is_branch (child d (child (flip d) leaf)) ≢ true
child-leaf left b = absurd (cc)
child-leaf right b = absurd (cc)

double_rotate-returns :
    (s s1 : Nodes) (d : Direction) (i : ℕ) (r : NodePointer) (out : NodePointer × Nodes)
    → node_valid (s.children (flip d) i) ≡ ok (s.children (flip d) i)
    → not_nil (s.children (flip d) i) ≡ ok tt
    → node_rotate s (s.children (flip d) i) (flip d) ≡ ok (r, s1)
    → node_valid r ≡ ok r
    → node_rotate (with_child s1 i (flip d) r) (node i) d ≡ ok out
    → node_double_rotate s (node i) d ≡ ok out
unfolding node_double_rotate
double_rotate-returns s s1 d i r out e1 e2 e3 e4 e5 = rw (e1, e2, e3, e4) e5

double_rotate_branch :
    (s : Nodes) (d : Direction) (i : ℕ) (c : Color) (q : TestRange) (x y : Tree)
    → Distinct (branch i c q x y)
    → Repr s (node i) (branch i c q x y)
    → is_branch (child d (child (flip d) (branch i c q x y))) ≡ true
    → Does s
        (branch i c q x y)
        (double_rotate d (branch i c q x y))
        (node_double_rotate s (node i) d)
double_rotate_branch s d i c q x y u h b =
    let p : NodePointer = node i in
    let t : Tree = branch i c q x y in
    let below : Tree = child (flip d) t in
    let at : Repr s (s.children (flip d) i) below = Repr-child s (flip d) i c q x y p h in
    let flipped : flip (flip d) ≡ d = flip-flip d in
    let inner : Does s below (rotate (flip d) below)
        (node_rotate s (s.children (flip d) i) (flip d)) =
      node_rotate-Does s (flip d) (s.children (flip d) i) below
        (λ k. omega (arith, u k, count-child k (flip d) t)) at (rw flipped b) in
    let t1 : Tree = replace (flip d) t (rotate (flip d) below) in
    let s2 : Nodes = with_child (inner.after) i (flip d) (inner.p) in
    let same : (k : ℕ) → count k t1 ≡ count k t = λ k.
      count-replace_same k (flip d) t (rotate (flip d) below) (count-rotate k (flip d) below) in
    let grafted : Becomes s t t1 s2 p =
      graft s (inner.after) (flip d) (inner.p) p i c q x y (rotate (flip d) below) u
        (λ k. omega (arith, u k, same k)) h (inner.becomes) in
    let outer : Does s2 t1 (rotate d t1) (node_rotate s2 p d) =
      node_rotate-Does s2 d p t1 (λ k. omega (arith, u k, same k)) (grafted.repr)
        (ap is_branch (child-replace (flip d) t (rotate (flip d) below) refl)
          ∙ is_branch-rotate (flip d) below
          ∙ is_branch-child d below b) in
    record {
      p = outer.p;
      after = outer.after;
      returns =
          double_rotate-returns s (inner.after) d i (inner.p) (outer.p, outer.after)
            (Repr-valid s (s.children (flip d) i) below at)
            (Repr-not_nil s (s.children (flip d) i) below at (is_branch-child d below b))
            (inner.returns)
            (Repr-valid (inner.after) (inner.p) (rotate (flip d) below) (inner.becomes.repr))
            (outer.returns);
      becomes =
          Becomes-trans s s2 (outer.after) t t1 (rotate d t1) p (outer.p)
            (λ k. omega (arith, same k)) grafted (outer.becomes);
      same_list = outer.same_list ∙ inner.same_list;
    }

pub node_double_rotate-Does :
    (s : Nodes) (d : Direction) (p : NodePointer) (t : Tree)
    → Distinct t
    → Repr s p t
    → is_branch (child d (child (flip d) t)) ≡ true
    → Does s t (double_rotate d t) (node_double_rotate s p d)
node_double_rotate-Does s d p leaf u h b = absurd (child-leaf d b)
node_double_rotate-Does s d p (branch i c q x y) u (e, e1, e2, hx, hy) b =
    rw e (double_rotate_branch s d i c q x y u (refl, e1, e2, hx, hy) b)
