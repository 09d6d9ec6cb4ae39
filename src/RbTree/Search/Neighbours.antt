-- ===== src/RbTree/Search/Neighbours.antt =====
-- The searches for the neighbours of an address find what a scan of the sorted ranges finds.
use drastic.Base.{
  ℕ, zero, suc, ◌+◌, ◌<◌, ◌≡◌, refl, ◌∙◌, ap, true, ltb, Bool-cases, inl, inr, List, ◌∷◌, Option,
  none, some, arith,
}
use mathlib.Core.Path.{subst}
use drastic.RbTree.{TestRange, uintptr_max, left, right, NodePointer, nil, node, Nodes}
use drastic.RbTree.Arena.{RbTree, made, rb_tree_valid}
use drastic.RbTree.Search.{prev_from, rb_find_prev_by_start, next_from, rb_find_next_by_start}
use drastic.RbTree.Model.{Tree, leaf, branch, ranges}
use drastic.RbTree.Model.Order.{Between}
use drastic.RbTree.Model.Sorted.{Sorted, Between→Sorted}
use drastic.RbTree.Heap.{Repr, Repr-valid}
use drastic.RbTree.Invariant.{Holds}
use drastic.RbTree.Invariant.Insert.{Holds-valid, Stored}
use drastic.RbTree.Search.Scan.{
  or_else, last_before, first_behind, Shows, depth, depth-size, or_else_assoc, or_else-none,
  last_before-append, first_behind-append, last_before-none, first_behind-none, Finds, prev-take,
  prev-pass, next-take, next-pass,
}

pub prev_from-Finds :
    (fuel : ℕ) (s : Nodes) (p best : NodePointer) (b : Option TestRange) (start : ℕ) (t : Tree)
    (lo hi : ℕ)
    → depth t < fuel
    → Repr s p t
    → Between lo t hi
    → Shows s best b
    → Finds s (prev_from fuel s p best start) (or_else (last_before start (ranges t)) b)
prev_from-Finds zero s p best b start t lo hi lt h w o = absurd (omega arith)
prev_from-Finds (suc fuel) s p best b start leaf lo hi lt h w o =
    (best, unfold prev_from in rw h refl, o)
prev_from-Finds (suc fuel) s p best b start (branch i c r x y) lo hi lt (e, e1, e2, hx, hy)
      (wx, more, wy) o =
    let sx : Sorted lo (ranges x) (r.start) = Between→Sorted lo x (r.start) wx in
    let sy : Sorted (r.start + r.len) (ranges y) hi = Between→Sorted (r.start + r.len) y hi wy in
    elim (Bool-cases (ltb (r.start) start)) [
      | inl f ↦
          let same : or_else (last_before start (ranges (branch i c r x y))) b
              ≡ or_else (last_before start (ranges y)) (some r) =
            rw (last_before-append start (ranges x) (r ∷ ranges y), f)
              (rw
                (
                  or_else_assoc (or_else (last_before start (ranges y)) (some r))
                      (last_before start (ranges x)) b,
                  or_else_assoc (last_before start (ranges y)) (some r)
                      (or_else (last_before start (ranges x)) b),
                )
                refl) in
          rw
            (e, same, prev-take fuel s i best start r e2 f (Repr-valid s (s.children right i) y hy))
            (prev_from-Finds fuel s (s.children right i) (node i) (some r) start y (r.start + r.len)
              hi (omega arith) hy wy (i, refl, e2))
      | inr f ↦
          let same : or_else (last_before start (ranges (branch i c r x y))) b
              ≡ or_else (last_before start (ranges x)) b =
            rw
              (
                last_before-append start (ranges x) (r ∷ ranges y),
                f,
                last_before-none start (r.start + r.len) (ranges y) hi sy (ground arith),
              )
              refl in
          rw (e, same, prev-pass fuel s i best start r e2 f (Repr-valid s (s.children left i) x hx))
            (prev_from-Finds fuel s (s.children left i) best b start x lo (r.start) (omega arith) hx
              wx o)
    ]

pub next_from-Finds :
    (fuel : ℕ) (s : Nodes) (p best : NodePointer) (b : Option TestRange) (start : ℕ) (t : Tree)
    (lo hi : ℕ)
    → depth t < fuel
    → Repr s p t
    → Between lo t hi
    → Shows s best b
    → Finds s (next_from fuel s p best start) (or_else (first_behind start (ranges t)) b)
next_from-Finds zero s p best b start t lo hi lt h w o = absurd (omega arith)
next_from-Finds (suc fuel) s p best b start leaf lo hi lt h w o =
    (best, unfold next_from in rw h refl, o)
next_from-Finds (suc fuel) s p best b start (branch i c r x y) lo hi lt (e, e1, e2, hx, hy)
      (wx, more, wy) o =
    let sx : Sorted lo (ranges x) (r.start) = Between→Sorted lo x (r.start) wx in
    let sy : Sorted (r.start + r.len) (ranges y) hi = Between→Sorted (r.start + r.len) y hi wy in
    elim (Bool-cases (ltb start (r.start))) [
      | inl f ↦
          let same : or_else (first_behind start (ranges (branch i c r x y))) b
              ≡ or_else (first_behind start (ranges x)) (some r) =
            rw (first_behind-append start (ranges x) (r ∷ ranges y), f)
              (or_else_assoc (first_behind start (ranges x)) (some r) b) in
          rw (e, same, next-take fuel s i best start r e2 f (Repr-valid s (s.children left i) x hx))
            (next_from-Finds fuel s (s.children left i) (node i) (some r) start x lo (r.start)
              (omega arith) hx wx (i, refl, e2))
      | inr f ↦
          let same : or_else (first_behind start (ranges (branch i c r x y))) b
              ≡ or_else (first_behind start (ranges y)) b =
            rw
              (
                first_behind-append start (ranges x) (r ∷ ranges y),
                f,
                first_behind-none start lo (ranges x) (r.start) sx (ground arith),
              )
              refl in
          rw
            (e, same, next-pass fuel s i best start r e2 f (Repr-valid s (s.children right i) y hy))
            (next_from-Finds fuel s (s.children right i) best b start y (r.start + r.len) hi
              (omega arith) hy wy o)
    ]

-- On a tree that stores a list of ranges, rb_find_prev_by_start returns what a scan of that list
-- finds: a node with the last range that begins before the address, or nil if none does.
pub rb_find_prev_by_start-last_before :
    (tree : RbTree) (rs : List TestRange) (start : ℕ)
    → Stored tree rs
    → Finds tree.store (rb_find_prev_by_start tree start) (last_before start rs)
rb_find_prev_by_start-last_before tree rs start s =
    let h : Holds tree (s.t) (s.free) = s.holds in
    let found : Finds tree.store (prev_from (suc (made tree)) (tree.store) (tree.root) nil start)
        (or_else (last_before start (ranges (s.t))) none) =
      prev_from-Finds (suc (made tree)) (tree.store) (tree.root) nil none start (s.t) 0 uintptr_max
        (omega (arith, h.total, depth-size (s.t))) (h.repr) (h.ordered) refl in
    let same : or_else (last_before start (ranges (s.t))) none ≡ last_before start rs =
      or_else-none (last_before start (ranges (s.t))) ∙ ap (last_before start) (s.same) in
    let valid : rb_tree_valid tree ≡ true = Holds-valid tree (s.t) (s.free) h in
    unfold rb_find_prev_by_start in
    rw valid (
      subst (Finds (tree.store) (prev_from (suc (made tree)) (tree.store) (tree.root) nil start))
        same found)

-- On a tree that stores a list of ranges, rb_find_next_by_start returns what a scan of that list
-- finds: a node with the first range that begins behind the address, or nil if none does.
pub rb_find_next_by_start-first_behind :
    (tree : RbTree) (rs : List TestRange) (start : ℕ)
    → Stored tree rs
    → Finds tree.store (rb_find_next_by_start tree start) (first_behind start rs)
rb_find_next_by_start-first_behind tree rs start s =
    let h : Holds tree (s.t) (s.free) = s.holds in
    let found : Finds tree.store (next_from (suc (made tree)) (tree.store) (tree.root) nil start)
        (or_else (first_behind start (ranges (s.t))) none) =
      next_from-Finds (suc (made tree)) (tree.store) (tree.root) nil none start (s.t) 0 uintptr_max
        (omega (arith, h.total, depth-size (s.t))) (h.repr) (h.ordered) refl in
    let same : or_else (first_behind start (ranges (s.t))) none ≡ first_behind start rs =
      or_else-none (first_behind start (ranges (s.t))) ∙ ap (first_behind start) (s.same) in
    let valid : rb_tree_valid tree ≡ true = Holds-valid tree (s.t) (s.free) h in
    unfold rb_find_next_by_start in
    rw valid (
      subst (Finds (tree.store) (next_from (suc (made tree)) (tree.store) (tree.root) nil start))
        same found)
