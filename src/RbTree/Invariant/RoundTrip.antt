-- ===== src/RbTree/Invariant/RoundTrip.antt =====
-- Deleting a range that has just been inserted.
use drastic.Base.{
  ◌<◌, ◌≡◌, ◌≢◌, refl, sym, ◌∙◌, ap, true, false, ltb, Bool-cases, inl, inr, List, [], ◌∷◌, Result,
  ok, arith,
}
use mathlib.Core.Path.{subst}
use drastic.Base.Int.{is_zero}
use drastic.RbTree.{TestRange, test_range_compare}
use drastic.RbTree.Arena.{RbTree}
use drastic.RbTree.Insert.{InsertStatus, insert_ok, rb_insert}
use drastic.RbTree.Delete.{rb_delete}
use drastic.RbTree.Model.Order.{Valid, overlaps}
use drastic.RbTree.Model.Sorted.{any_overlap, put_range}
use drastic.RbTree.Model.Delete.Remove.{remove}
use drastic.RbTree.Invariant.Insert.{Stored, rb_insert-refines}
use drastic.RbTree.Invariant.Delete.{rb_delete-refines}

compare_self : (q : TestRange) → is_zero (test_range_compare q q) ≡ true
unfolding test_range_compare
compare_self q = ground arith

apart-differs :
    (r q : TestRange) → 0 < q.len → overlaps q r ≡ false → is_zero (test_range_compare r q) ≡ false
unfolding test_range_compare
apart-differs r q some e = ground arith

-- A range that overlaps with none is removed where it was put.
remove-put_range :
    (q : TestRange) (rs : List TestRange)
    → 0 < q.len
    → any_overlap q rs ≡ false
    → remove q (put_range q rs) ≡ rs
remove-put_range q [] some e = rw (compare_self q) refl
remove-put_range q (r ∷ rs) some e = elim (Bool-cases (ltb (q.start) (r.start))) [
  | inl f ↦ rw (f, compare_self q) refl
  | inr f ↦
      rw (f, apart-differs r q some (ground arith))
        (ap (◌∷◌ r) (remove-put_range q rs some (ground arith)))
]

-- If a tree stores a list of ranges and rb_insert puts a range into it, then rb_delete of that
-- range returns with a tree that stores the first list again.
pub rb_delete-rb_insert :
    (tree after : RbTree) (rs : List TestRange) (q : TestRange)
    → Stored tree rs
    → Valid q
    → rb_insert tree q ≡ ok (insert_ok, after)
    → (last : RbTree) × (rb_delete after q ≡ ok last) × Stored last rs
rb_delete-rb_insert tree after rs q s v e = elim (rb_insert-refines tree rs q s v) [
  | inl (o, f) ↦ absurd (other-status (sym e ∙ f) (λ x. cc))
  | inr r ↦ elim r [
    | inl (o, x, f) ↦ absurd (other-status (sym e ∙ f) (λ x. cc))
    | inr (o, x, (grown, f, stored)) ↦
        let same : grown ≡ after = same-tree (sym f ∙ e) in
        back (o) (
          rb_delete-refines after (put_range q rs) q
            (subst (λ t. Stored t (put_range q rs)) same stored) v)
  ]
]
  where
    other-status :
        {a b : InsertStatus} {x y : RbTree}
        → ◌≡◌ {A = Result (InsertStatus × RbTree)} (ok (a, x)) (ok (b, y))
        → a ≢ b
        → ⊥
    other-status e n = n (cc)

    same-tree :
        {x y : RbTree}
        → ◌≡◌ {A = Result (InsertStatus × RbTree)} (ok (insert_ok, x)) (ok (insert_ok, y))
        → x ≡ y
    same-tree e = cc

    back :
        any_overlap q rs ≡ false
        → (last : RbTree) × (rb_delete after q ≡ ok last) × Stored last (remove q (put_range q rs))
        → (last : RbTree) × (rb_delete after q ≡ ok last) × Stored last rs
    back o (last, f, t) = (last, f, subst (Stored last) (remove-put_range q rs (v.0) o) t)
