-- ===== src/RbTree/Invariant/Insert.antt =====
-- `rb_insert` keeps the invariant, and inserts into the sorted list of ranges.
use drastic.Base.{
  ℕ, suc, ◌+◌, ◌<◌, ◌≡◌, refl, sym, ◌∙◌, ap, true, false, ◌==◌, if◌then◌else◌, Bool-cases, ◌⊎◌, inl,
  inr, ltb, List, length, ok, arith,
}
use mathlib.Core.Path.{subst}
use drastic.RbTree.{TestRange, uintptr_max, right, black, NodePointer, node, node_set_color}
use drastic.RbTree.Arena.{RbTree, made, rb_tree_valid}
use drastic.RbTree.Insert.{
  InsertStatus, insert_ok, insert_overlap, insert_oom, insert_at_root, rb_insert, rb_insert_helper,
}
use drastic.RbTree.Insert.Grows.{rb_insert_helper-Grows}
use drastic.RbTree.Insert.Spot.{Spot, Grows}
use drastic.RbTree.Insert.Stays.{helper-meets, helper-oom}
use drastic.RbTree.Model.{Tree, leaf, branch, count, ids, ranges, size, paint, insert}
use drastic.RbTree.Model.Counts.{count-insert, count-paint, is_branch-insert}
use drastic.RbTree.Model.InOrder.{in_order-paint, size-in_order}
use drastic.RbTree.Model.Order.{Valid, meets, test_range_valid-Valid}
use drastic.RbTree.Model.Sorted.{
  any_overlap, put_range, length-put_range, Sorted, meets-any_overlap, ranges-insert,
  Sorted-put_range, Between→Sorted, Sorted→Between,
}
use drastic.RbTree.Model.Balance.{insert-IsRedBlack}
use drastic.RbTree.Heap.{Becomes, Becomes-trans, SameNode}
use drastic.RbTree.Heap.Recolor.{Paints, node_set_color-Paints}
use drastic.RbTree.Heap.Links.{Segment-same}
use drastic.RbTree.Invariant.{Holds, Supply, Chain-frame, Exhausted, next_node-cases}

pub Holds-valid :
    (tree : RbTree) (t : Tree) (free : List ℕ) → Holds tree t free → rb_tree_valid tree ≡ true
Holds-valid tree leaf free h =
    let some : ltb 0 (tree.pages) ≡ true = ground (arith, h.paged) in rw (h.repr, some) refl
Holds-valid tree (branch i c q x y) free h =
    let some : ltb 0 (tree.pages) ≡ true = ground (arith, h.paged) in rw (h.repr.0, some) refl

-- The tree holds these ranges, from left to right.
pub record Stored (tree : RbTree) (rs : List TestRange) : Type 0 where
  pub t : Tree
  pub free : List ℕ
  pub holds : Holds tree t free
  pub same : ranges t ≡ rs

module _ (tree : RbTree) (t : Tree) (free : List ℕ) (h : Holds tree t free) (q : TestRange)
    (v : Valid q) where
  Spot-root : (g : Supply tree t free) → Spot tree.store tree.root t 0 0 (g.n) 0 uintptr_max
  Spot-root g = record {
    repr = h.repr;
    segment = h.segment;
    distinct = λ k. omega (arith, h.distinct k);
    unused = ground (arith, g.distinct (g.n));
    before = ground (arith, h.distinct 0);
    behind = ground (arith, h.distinct 0);
    not_before = λ e. ground (arith, g.distinct (g.n));
    not_behind = λ e. ground (arith, g.distinct (g.n));
    between = h.ordered;
    limit = omega arith;
  }

  insert-start :
      (out : NodePointer × (InsertStatus × RbTree))
      → rb_insert_helper (suc (made tree)) tree (tree.root) q (node 0) right ≡ ok out
      → rb_insert tree q ≡ insert_at_root out
  unfolding rb_insert
  insert-start out e = rw (Holds-valid tree t free h, test_range_valid-Valid q v, e) refl

  insert-Stored :
      (g : Supply tree t free)
      → meets q t ≡ false
      → (after : RbTree) × (rb_insert tree q ≡ ok (insert_ok, after))
        × Stored after (put_range q (ranges t))
  insert-Stored g m =
      let z : Tree = insert (g.n) q t in
      let r : Grows tree (g.grown) (g.n) t z 0 0
          (rb_insert_helper (suc (made tree)) tree (tree.root) q (node 0) right) =
        rb_insert_helper-Grows tree (g.grown) (g.n) q v (Holds-valid tree t free h) (g.found)
          (g.same) (suc (made tree)) right (tree.root) t 0 0 0 uintptr_max (omega (arith, h.total))
          m (Spot-root g) in
      let c : (k : ℕ) → count k z ≡ count k t + (if k == g.n then 1 else 0) =
        λ k. count-insert k (g.n) q t in
      let f : Paints r.store z (paint black z) (r.p) (node_set_color (r.store) (r.p) black) =
        node_set_color-Paints (r.store) (r.p) black z (λ k. omega (arith, c k, g.distinct k))
          (r.becomes.repr) (is_branch-insert (g.n) q t) in
      let all : Becomes tree.store t (paint black z) (f.after) (r.p) =
        Becomes-trans (tree.store) (r.store) (f.after) t z (paint black z) (r.p) (r.p)
          (λ k. omega (arith, count-paint k black z)) (r.becomes) (f.becomes) in
      let same_ranges : ranges (paint black z) ≡ put_range q (ranges t) =
        in_order-paint (λ i q. q) black z
        ∙ ranges-insert (g.n) q 0 t uintptr_max (v.0) m (h.ordered) in
      let same_size : size (paint black z) ≡ suc (size t) = omega (
        arith,
        size-in_order (λ i q. q) (paint black z),
        size-in_order (λ i q. q) t,
        length-put_range q (ranges t),
        ap length same_ranges,
      ) in
      let clear : any_overlap q (ranges t) ≡ false =
        sym (meets-any_overlap q 0 t uintptr_max (v.0) (h.ordered)) ∙ m in
      let after : RbTree = record (g.grown) { store = f.after; root = r.p } in
      (
        after,
        insert-start (r.p, (insert_ok, record (g.grown) { store = r.store })) (r.returns)
            ∙ unfold insert_at_root in rw (f.returns) refl,
        record {
          t = paint black z;
          free = g.rest;
          holds = record {
            repr = all.repr;
            segment =
                Segment-same (r.store.list) (f.after.list) 0 (ids z) (ids (paint black z)) 0
                  (f.same_list) (in_order-paint (λ i q. i) black z) (r.segment);
            chain =
                Chain-frame (tree.store) (f.after) (g.grown.free_list) (g.rest)
                  (λ k lt.
                    SameNode.right_child
                      (all.frame k (omega (arith, count-paint k black z, c k, g.distinct k))))
                  (g.chain);
            distinct = λ k. omega (arith, count-paint k black z, c k, g.distinct k);
            total = omega (arith, g.total, same_size);
            below = λ k lt. g.below k (omega (arith, count-paint k black z, c k));
            paged = g.paged;
            room = g.room;
            ordered = Sorted→Between 0 (paint black z) uintptr_max (
                subst (λ rs. Sorted 0 rs uintptr_max) (sym same_ranges)
                  (Sorted-put_range q 0 (ranges t) uintptr_max (v.0) (omega arith) (v.1) clear
                    (Between→Sorted 0 t uintptr_max (h.ordered))));
            balanced = insert-IsRedBlack (g.n) q t (h.balanced);
          };
          same = same_ranges;
        },
      )

-- What a call of `rb_insert` does, on every way.
abbrev pub InsertResult : RbTree → TestRange → List TestRange → Type 0
InsertResult tree q rs =
    ((any_overlap q rs ≡ true) × (rb_insert tree q ≡ ok (insert_overlap, tree)))
    ⊎ (((any_overlap q rs ≡ false) × Exhausted tree × (rb_insert tree q ≡ ok (insert_oom, tree)))
        ⊎ ((any_overlap q rs ≡ false)
            × ¬ Exhausted tree
            × ((after : RbTree) × (rb_insert tree q ≡ ok (insert_ok, after))
                × Stored after (put_range q rs))))

insert-result :
    (tree : RbTree) (t : Tree) (free : List ℕ) (q : TestRange)
    → Holds tree t free
    → Valid q
    → InsertResult tree q (ranges t)
insert-result tree t free q h v =
    let valid : rb_tree_valid tree ≡ true = Holds-valid tree t free h in
    let fuel : size t < suc (made tree) = omega (arith, h.total) in
    let same : meets q t ≡ any_overlap q (ranges t) =
      meets-any_overlap q 0 t uintptr_max (v.0) (h.ordered) in
    elim (Bool-cases (meets q t)) [
      | inl e ↦ inl (
        sym same ∙ e,
        insert-start tree t free h q v (tree.root, (insert_overlap, tree))
              (helper-meets tree q v valid (suc (made tree)) 0 right (tree.root) t 0 uintptr_max
                fuel e (h.repr) (h.ordered) (omega arith))
            ∙ unfold insert_at_root in refl,
      )
      | inr e ↦ elim (next_node-cases tree t free h) [
        | inl g ↦ inr (inr (sym same ∙ e, g.supplied, insert-Stored tree t free h q v g e))
        | inr g ↦ inr (
            inl (
              sym same ∙ e,
              g.1,
              insert-start tree t free h q v (tree.root, (insert_oom, tree))
                    (helper-oom tree q v valid (suc (made tree)) 0 right (tree.root) t 0 uintptr_max
                      fuel e (g.0) (h.repr) (h.ordered) (omega arith))
                  ∙ unfold insert_at_root in refl,
            ))
      ]
    ]

-- If a tree stores a list of ranges (its nodes form an ordered red-black tree with these ranges
-- from left to right, the list links them in this order, and the freed nodes and they are all that
-- were given out, each once), and the range to insert is not empty and ends within the addresses,
-- then rb_insert returns in one of three ways: RB_INSERT_OVERLAP with the tree unchanged, if some
-- stored range overlaps; RB_INSERT_OOM with the tree unchanged, if none does but no node is free,
-- the page is full and no page is left; otherwise RB_INSERT_OK, with a tree that stores the list
-- in which the range stands before the first that begins later.
pub rb_insert-refines :
    (tree : RbTree) (rs : List TestRange) (q : TestRange)
    → Stored tree rs
    → Valid q
    → InsertResult tree q rs
rb_insert-refines tree rs q s v =
    subst (λ rs. InsertResult tree q rs) (s.same) (insert-result tree (s.t) (s.free) q (s.holds) v)
