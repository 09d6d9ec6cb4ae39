-- ===== src/RbTree/Delete/Decide.antt =====
-- What `rb_delete_helper` decides at a node, and how it goes on.
use drastic.Base.{
  ℕ, zero, suc, ◌+◌, ◌≤◌, ◌≡◌, refl, ◌∙◌, ap, Bool, true, false, not, ◌&&◌, ◌||◌, ◌==◌,
  if◌then◌else◌, Bool-cases, inl, inr, [], ok, ◌>>=◌, arith,
}
use mathlib.Core.Path.{subst}
use drastic.Base.Int.{pos, is_zero}
use drastic.RbTree.{
  TestRange, test_range_compare, uintptr_max, Direction, left, right, Color, NodePointer, nil, node,
  Nodes, set_at, node_valid, node_is_nil, node_has_child,
}
use drastic.RbTree.Arena.{RbTree, rb_tree_valid}
use drastic.RbTree.Delete.{
  unlink_node, rightmost, unlink, descend, take_range, decide, delete_above, rb_delete_helper,
}
use drastic.RbTree.Delete.Part.{Part, Part-left, ==_refl}
use drastic.RbTree.Model.{Tree, leaf, branch, Distinct, ids, size, is_branch, side}
use drastic.RbTree.Model.Order.{Between, Valid, test_range_valid-Valid}
use drastic.RbTree.Model.Delete.{last_id, last_range, other_child}
use drastic.RbTree.Heap.{Repr, Repr-kept, Repr-valid, SameNode, Becomes}
use drastic.RbTree.Heap.Unlink.{last, last-append, Segment-last}

pub Repr-is_nil :
    (s : Nodes) (p : NodePointer) (t : Tree) → Repr s p t → node_is_nil p ≡ ok (not (is_branch t))
Repr-is_nil s p leaf e = rw e refl
Repr-is_nil s p (branch i c q x y) h = rw (h.0) refl

has_child-is_branch :
    (s : Nodes) (d : Direction) (i : ℕ) (t : Tree)
    → Repr s (s.children d i) t
    → node_has_child s (node i) d ≡ ok (is_branch t)
has_child-is_branch s d i t h =
    rw (Repr-valid s (s.children d i) t h, Repr-is_nil s (s.children d i) t h)
      (ap ok (not-not (is_branch t)))
  where
    not-not : (b : Bool) → not (not b) ≡ b
    not-not true = refl
    not-not false = refl

-- The loop ends at the last node.
rightmost-last_id :
    (fuel : ℕ) (s : Nodes) (p : NodePointer) (t : Tree)
    → size t ≤ fuel
    → is_branch t ≡ true
    → Repr s p t
    → rightmost fuel s p ≡ ok (last_id t)
unfolding rightmost
rightmost-last_id zero s p leaf lt b h = absurd (cc)
rightmost-last_id (suc fuel) s p leaf lt b h = absurd (cc)
rightmost-last_id zero s p (branch i c q x y) lt b h = absurd (omega arith)
rightmost-last_id (suc fuel) s p (branch i c q x leaf) lt b (e, e1, e2, hx, hy) = rw (e, hy) refl
rightmost-last_id (suc fuel) s p (branch i c q x (branch j d r z w)) lt b (e, e1, e2, hx, hy) =
    rw (e, hy.0)
      (rightmost-last_id fuel s (node j) (branch j d r z w) (omega arith) refl
        (subst (λ p. Repr s p (branch j d r z w)) (hy.0) hy))

last-ids : (a : ℕ) (t : Tree) → is_branch t ≡ true → last a (ids t) ≡ last_id t
last-ids a leaf b = absurd (cc)
last-ids a (branch i c q x leaf) b = last-append a (ids x) i []
last-ids a (branch i c q x (branch j d r z w)) b =
    last-append a (ids x) i (ids (branch j d r z w)) ∙ last-ids i (branch j d r z w) refl

range-last :
    (s : Nodes) (p : NodePointer) (q : TestRange) (t : Tree)
    → is_branch t ≡ true
    → Repr s p t
    → s.range (last_id t) ≡ last_range q t
range-last s p q leaf b h = absurd (cc)
range-last s p q (branch i c r x leaf) b h = h.2
range-last s p q (branch i c r x (branch j d k z w)) b h =
    range-last s (s.children right i) r (branch j d k z w) refl (h.4)

pub last_range-Valid :
    (q : TestRange) (lo : ℕ) (t : Tree) (hi : ℕ)
    → is_branch t ≡ true
    → Between lo t hi
    → hi ≤ uintptr_max
    → Valid (last_range q t)
last_range-Valid q lo leaf hi b h l = absurd (cc)
last_range-Valid q lo (branch i c r x leaf) hi b (hx, some, hy) l = (some, omega (arith, hy))
last_range-Valid q lo (branch i c r x (branch j d k z w)) hi b (hx, some, hy) l =
    last_range-Valid r (r.start + r.len) (branch j d k z w) hi refl hy l

compare_refl : (q : TestRange) → test_range_compare q q ≡ pos 0
unfolding test_range_compare
compare_refl q = ground arith

-- `node->range = temp->range`
abbrev pub with_range : RbTree → ℕ → TestRange → RbTree
with_range tree i q = record tree {
  store = record (tree.store) { range = set_at tree.store.range i q };
}

pub with_range-Becomes :
    (tree : RbTree) (i : ℕ) (c : Color) (r q : TestRange) (x y : Tree)
    → Distinct (branch i c r x y)
    → Repr tree.store (node i) (branch i c r x y)
    → Becomes tree.store
        (branch i c r x y)
        (branch i c q x y)
        ((with_range tree i q).store)
        (node i)
with_range-Becomes tree i c r q x y u (e, e1, e2, hx, hy) =
    let s1 : Nodes = (with_range tree i q).store in
    let same : (k : ℕ) → (k == i) ≡ false → SameNode tree.store s1 k =
      λ k e. record { range = rw e refl; color = refl; left_child = refl; right_child = refl } in
    record {
      repr = (
        refl,
        e1,
        rw (==_refl i) refl,
        Repr-kept (tree.store) s1 (tree.store.children left i) (tree.store.children left i) x refl
            (λ k lt. same k (ground (arith, u k))) hx,
        Repr-kept (tree.store) s1 (tree.store.children right i) (tree.store.children right i) y refl
            (λ k lt. same k (ground (arith, u k))) hy,
      );
      frame = λ k n. same k (ground arith);
    }

module _ (tree : RbTree) (q : TestRange) (v : Valid q) (tree_valid : rb_tree_valid tree ≡ true)
    (fuel i : ℕ) (c : Color) (r : TestRange) (x y : Tree) (a b : ℕ)
    (h : Part tree.store (node i) (branch i c r x y) a b) where
  has_left : node_has_child (tree.store) (node i) left ≡ ok (is_branch x)
  has_left = has_child-is_branch (tree.store) left i x (h.repr.3)

  has_right : node_has_child (tree.store) (node i) right ≡ ok (is_branch y)
  has_right = has_child-is_branch (tree.store) right i y (h.repr.4)

  left_valid : node_valid (tree.store.children left i) ≡ ok (tree.store.children left i)
  left_valid = Repr-valid (tree.store) (tree.store.children left i) x (h.repr.3)

  right_valid : node_valid (tree.store.children right i) ≡ ok (tree.store.children right i)
  right_valid = Repr-valid (tree.store) (tree.store.children right i) y (h.repr.4)

  decide-other :
      is_zero (test_range_compare r q) ≡ false → decide fuel tree i q ≡ ok (descend q tree)
  unfolding decide
  decide-other e = rw (h.repr.2, e) refl

  abbrev pub temp : NodePointer
  temp =
      if is_branch y
      then tree.store.children right i
      else (if is_branch x then tree.store.children left i else nil)

  pub temp-Repr : Repr tree.store temp (other_child x y)
  temp-Repr = elim (Bool-cases (is_branch y)) [
    | inl e ↦ rw e (h.repr.4)
    | inr e ↦ elim (Bool-cases (is_branch x)) [
      | inl f ↦ rw (e, f) (h.repr.3)
      | inr f ↦ rw (e, f) refl
    ]
  ]

  decide-here :
      is_zero (test_range_compare r q) ≡ true
      → is_branch x && is_branch y ≡ false
      → decide fuel tree i q ≡ ok (unlink temp)
  unfolding decide
  decide-here e f =
      let lacks : not (is_branch x) || not (is_branch y) ≡ true = ground arith in
      rw (h.repr.2, e, has_left, has_right, left_valid, right_valid, lacks) refl

  decide-both :
      is_zero (test_range_compare r q) ≡ true
      → is_branch x && is_branch y ≡ true
      → size x ≤ fuel
      → decide fuel tree i q ≡ ok (descend (last_range r x) (with_range tree i (last_range r x)))
  unfolding decide take_range
  decide-both e f lt =
      let some : is_branch x ≡ true = ground arith in
      let both : not (is_branch x) || not (is_branch y) ≡ false = ground arith in
      let next : tree.store.list right (last_id x) ≡ node i =
        subst (λ (k : ℕ). tree.store.list right k ≡ node i) (last-ids a x some)
          ((Segment-last (tree.store.list) a (ids x) i
            (Part.segment (Part-left (tree.store) (node i) i c r x y a b h))).1) in
      rw
        (
          h.repr.2,
          e,
          has_left,
          has_right,
          left_valid,
          right_valid,
          both,
          rightmost-last_id fuel (tree.store) (tree.store.children left i) x lt some (h.repr.3),
          next,
          ==_refl i,
          range-last (tree.store) (tree.store.children left i) r x some (h.repr.3),
        )
        refl

  -- The three ways of the call at a node.
  pub helper-here :
      is_zero (test_range_compare r q) ≡ true
      → is_branch x && is_branch y ≡ false
      → rb_delete_helper (suc fuel) tree (node i) q ≡ unlink_node tree i temp
  unfolding rb_delete_helper
  helper-here e f = rw (tree_valid, test_range_valid-Valid q v, decide-here e f) refl

  pub helper-both :
      is_zero (test_range_compare r q) ≡ true
      → is_branch x && is_branch y ≡ true
      → size x ≤ fuel
      → rb_delete_helper (suc fuel) tree (node i) q ≡ (
          rb_delete_helper fuel
            (with_range tree i (last_range r x))
            (tree.store.children left i)
            (last_range r x)
          >>= delete_above i left)
  unfolding rb_delete_helper
  helper-both e f lt =
      rw
        (
          tree_valid,
          test_range_valid-Valid q v,
          decide-both e f lt,
          ==_refl i,
          compare_refl (last_range r x),
          left_valid,
        )
        refl

  pub helper-left :
      is_zero (test_range_compare r q) ≡ false
      → side q r ≡ left
      → rb_delete_helper (suc fuel) tree (node i) q
        ≡ (rb_delete_helper fuel tree (tree.store.children left i) q >>= delete_above i left)
  unfolding rb_delete_helper
  helper-left e f =
      rw (tree_valid, test_range_valid-Valid q v, decide-other e, h.repr.2, f, left_valid) refl

  pub helper-right :
      is_zero (test_range_compare r q) ≡ false
      → side q r ≡ right
      → rb_delete_helper (suc fuel) tree (node i) q
        ≡ (rb_delete_helper fuel tree (tree.store.children right i) q >>= delete_above i right)
  unfolding rb_delete_helper
  helper-right e f =
      rw (tree_valid, test_range_valid-Valid q v, decide-other e, h.repr.2, f, right_valid) refl
