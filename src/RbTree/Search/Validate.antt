-- ===== src/RbTree/Search/Validate.antt =====
-- `rb_list_validate` passes its assertions whenever the invariant holds.
use drastic.Base.{
  ℕ, zero, suc, ◌+◌, ◌<◌, ◌≡◌, refl, sym, ◌∙◌, ap, ap₂, true, false, ◌||◌, ltb, ◌==◌, Bool-cases,
  ◌⊎◌, inl, inr, List, [], ◌∷◌, ◌++◌, map, length, ok, arith,
}
use mathlib.Core.Path.{subst}
use drastic.Base.Int.{is_negative}
use drastic.RbTree.{
  TestRange, test_range_compare, uintptr_max, left, right, NodePointer, node, Nodes,
}
use drastic.RbTree.Arena.{RbTree, made, rb_tree_valid}
use drastic.RbTree.Delete.{equal_pointers}
use drastic.RbTree.Search.{validate_node, validate_from, rb_list_validate, is_null}
use drastic.RbTree.Model.{Tree, leaf, branch, ids, ranges}
use drastic.RbTree.Model.InOrder.{size-in_order}
use drastic.RbTree.Model.Sorted.{Sorted, Between→Sorted}
use drastic.RbTree.Heap.{Repr}
use drastic.RbTree.Heap.Links.{ListLinks, Segment, times, times-ids}
use drastic.RbTree.Heap.Unlink.{last, first, Segment-last, Segment-first}
use drastic.RbTree.Invariant.{Holds}
use drastic.RbTree.Invariant.Insert.{Holds-valid, Stored}

-- The nodes of the tree hold its ranges.
map-range : (s : Nodes) (p : NodePointer) (t : Tree) → Repr s p t → map (s.range) (ids t) ≡ ranges t
map-range s p leaf h = refl
map-range s p (branch i c q x y) (e, e1, e2, hx, hy) =
    map-append (ids x) (i ∷ ids y)
    ∙ ap₂ (λ xs ys. xs ++ ys) (map-range s (s.children left i) x hx)
        (ap₂ (λ q ys. q ∷ ys) e2 (map-range s (s.children right i) y hy))
  where
    map-append : (xs ys : List ℕ) → map (s.range) (xs ++ ys) ≡ map (s.range) xs ++ map (s.range) ys
    map-append [] ys = refl
    map-append (x ∷ xs) ys = ap (◌∷◌ (s.range x)) (map-append xs ys)

compare-before : (q r : TestRange) → q.start < r.start → is_negative (test_range_compare q r) ≡ true
unfolding test_range_compare
compare-before q r lt = ground arith

-- The next node is not the sentinel's number only if the list has ended.
next-exists :
    (f : ListLinks) (a : ℕ) (xs : List ℕ) (b : ℕ) → Segment f a xs b → is_null (f right a) ≡ false
next-exists f a [] b h = rw (h.0) refl
next-exists f a (x ∷ xs) b h = rw (h.0) refl

validate_node-passes :
    (s : Nodes) (a i : ℕ) (xs : List ℕ)
    → s.list left i ≡ node a
    → Segment s.list i xs 0
    → (a == 0) || ltb ((s.range a).start) ((s.range i).start) ≡ true
    → validate_node s a i ≡ ok tt
unfolding validate_node
validate_node-passes s a i xs e h order =
    let same : equal_pointers (s.list left i) (node a) ≡ true = rw e (ground arith) in
    let more : is_null (s.list right i) ≡ false = next-exists (s.list) i xs 0 h in
    let fine : (a == 0) || is_negative (test_range_compare (s.range a) (s.range i)) ≡ true =
      elim (Bool-cases (a == 0)) [
        | inl z ↦ rw z refl
        | inr z ↦ rw (z, compare-before (s.range a) (s.range i) (ground arith)) refl
      ] in
    rw (same, more, fine) refl

validate_from-step :
    (fuel : ℕ) (s : Nodes) (a i : ℕ) (after : NodePointer)
    → validate_node s a (suc i) ≡ ok tt
    → s.list right (suc i) ≡ after
    → validate_from (suc fuel) s (node (suc i)) a ≡ validate_from fuel s after (suc i)
unfolding validate_from
validate_from-step fuel s a i after e f = rw (e, f) refl

validate_from-passes :
    (fuel : ℕ) (s : Nodes) (a : ℕ) (xs : List ℕ) (lo : ℕ)
    → length xs < fuel
    → Segment s.list a xs 0
    → times 0 xs ≡ 0
    → Sorted lo (map (s.range) xs) uintptr_max
    → (a ≡ 0) ⊎ ((s.range a).start < lo)
    → validate_from fuel s (node (first xs 0)) a ≡ ok tt
validate_from-passes zero s a xs lo lt h z w o = absurd (omega arith)
validate_from-passes (suc fuel) s a [] lo lt (e, e') z w o =
    let same : equal_pointers (node a) (s.list left 0) ≡ true = rw e' (ground arith) in
    unfold validate_from in rw same refl
validate_from-passes (suc fuel) s a (zero ∷ xs) lo lt h z w o = absurd (omega arith)
validate_from-passes (suc fuel) s a (suc i ∷ xs) lo lt (e, e', h) z (le, more, w) o =
    let order : (a == 0) || ltb ((s.range a).start) ((s.range (suc i)).start) ≡ true =
      ground arith in
    validate_from-step fuel s a i (node (first xs 0))
      (validate_node-passes s a (suc i) xs e' h order) ((Segment-first (s.list) (suc i) xs 0 h).0)
    ∙ validate_from-passes fuel s (suc i) xs ((s.range (suc i)).start + (s.range (suc i)).len)
        (omega arith) h (omega arith) w (inr (omega arith))

-- On every tree that stores a list of ranges, rb_list_validate returns: no assertion on the links
-- and on the order of the list fails.
pub rb_list_validate-passes :
    (tree : RbTree) (rs : List TestRange) → Stored tree rs → rb_list_validate tree ≡ ok tt
rb_list_validate-passes tree rs s =
    let h : Holds tree (s.t) (s.free) = s.holds in
    let f : ListLinks = tree.store.list in
    let xs : List ℕ = ids (s.t) in
    let end : (f left 0 ≡ node (last 0 xs)) × (f right (last 0 xs) ≡ node 0) =
      Segment-last f 0 xs 0 (h.segment) in
    let begin : (f right 0 ≡ node (first xs 0)) × (f left (first xs 0) ≡ node 0) =
      Segment-first f 0 xs 0 (h.segment) in
    let valid : rb_tree_valid tree ≡ true = Holds-valid tree (s.t) (s.free) h in
    unfold rb_list_validate in
    rw (valid, end.0, begin.0, end.1, begin.1)
      (validate_from-passes (suc (made tree)) (tree.store) 0 xs 0
        (omega (arith, h.total, size-in_order (λ i q. i) (s.t))) (h.segment)
        (ground (arith, times-ids 0 (s.t), h.distinct 0))
        (subst (λ rs. Sorted 0 rs uintptr_max)
          (sym (map-range (tree.store) (tree.root) (s.t) (h.repr)))
          (Between→Sorted 0 (s.t) uintptr_max (h.ordered)))
        (inl refl))
