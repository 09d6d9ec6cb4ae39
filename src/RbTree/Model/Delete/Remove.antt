-- ===== src/RbTree/Model/Delete/Remove.antt =====
-- A deletion removes the range from the sorted list of ranges.
use drastic.Base.{
  ℕ, ◌+◌, ◌≤◌, ◌<◌, ◌≡◌, refl, sym, ◌∙◌, ap, true, false, ◌&&◌, if◌then◌else◌, Bool-cases, inl, inr,
  List, [], ◌∷◌, ◌++◌, length, arith,
}
use mathlib.Core.List.{append_assoc, append-nil}
use mathlib.Core.Path.{subst}
use drastic.Base.Int.{is_zero}
use drastic.RbTree.{TestRange, test_range_compare, Direction, left, right, Color}
use drastic.RbTree.Delete.{DeleteStatus}
use drastic.RbTree.Model.{Tree, leaf, branch, ranges, size, is_branch, child, side}
use drastic.RbTree.Model.Counts.{Direction-cases}
use drastic.RbTree.Model.InOrder.{size-in_order}
use drastic.RbTree.Model.Order.{Between}
use drastic.RbTree.Model.Sorted.{Sorted, Sorted-le, Sorted-split, Between→Sorted}
use drastic.RbTree.Model.Delete.{
  rejoin, last_range, unlinked_tree, other_child, delete, freed, delete-both, delete-here,
  delete-left, delete-right,
}
use drastic.RbTree.Model.Delete.Contents.{in_order-rejoin, in_order-unlinked_tree}

-- The first range that compares equal is left out.
abbrev pub remove : TestRange → List TestRange → List TestRange
remove q [] = []
remove q (r ∷ rs) = if is_zero (test_range_compare r q) then rs else r ∷ remove q rs

zero-same : (r q : TestRange) → is_zero (test_range_compare r q) ≡ true → r.start ≡ q.start
unfolding test_range_compare
zero-same r q e = ground arith

before-differs : (r q : TestRange) → r.start < q.start → is_zero (test_range_compare r q) ≡ false
unfolding test_range_compare
before-differs r q lt = ground arith

behind-differs : (r q : TestRange) → q.start < r.start → is_zero (test_range_compare r q) ≡ false
unfolding test_range_compare
behind-differs r q lt = ground arith

side-left-le : (q r : TestRange) → side q r ≡ left → q.start ≤ r.start
unfolding test_range_compare
side-left-le q r e = ground arith

side-right-le : (q r : TestRange) → side q r ≡ right → r.start ≤ q.start
unfolding test_range_compare
side-right-le q r e = ground arith

remove-absent :
    (q : TestRange) (lo : ℕ) (rs : List TestRange) (hi : ℕ)
    → Sorted lo rs hi
    → q.start < lo
    → remove q rs ≡ rs
remove-absent q lo [] hi h lt = refl
remove-absent q lo (r ∷ rs) hi (le, some, t) lt =
    rw (behind-differs r q (omega arith))
      (ap (◌∷◌ r) (remove-absent q (r.start + r.len) rs hi t (omega arith)))

remove-to_left :
    (q : TestRange) (xs : List TestRange) (r : TestRange) (ys : List TestRange) (hi : ℕ)
    → is_zero (test_range_compare r q) ≡ false
    → q.start ≤ r.start
    → 0 < r.len
    → Sorted (r.start + r.len) ys hi
    → remove q (xs ++ (r ∷ ys)) ≡ remove q xs ++ (r ∷ ys)
remove-to_left q [] r ys hi ne le some h =
    rw ne (ap (◌∷◌ r) (remove-absent q (r.start + r.len) ys hi h (omega arith)))
remove-to_left q (x ∷ xs) r ys hi ne le some h =
    elim (Bool-cases (is_zero (test_range_compare x q))) [
      | inl e ↦ rw e refl
      | inr e ↦ rw e (ap (◌∷◌ x) (remove-to_left q xs r ys hi ne le some h))
    ]

-- What begins before the range stays.
remove-behind :
    (q : TestRange) (lo : ℕ) (xs : List TestRange) (hi : ℕ) (ys : List TestRange)
    → Sorted lo xs hi
    → hi ≤ q.start
    → remove q (xs ++ ys) ≡ xs ++ remove q ys
remove-behind q lo [] hi ys h le = refl
remove-behind q lo (x ∷ xs) hi ys (le', some, t) le =
    rw (before-differs x q (omega (arith, Sorted-le (x.start + x.len) xs hi t)))
      (ap (◌∷◌ x) (remove-behind q (x.start + x.len) xs hi ys t le))

-- The last range of a tree that has one.
ranges-last :
    (q : TestRange) (t : Tree)
    → is_branch t ≡ true
    → (rs : List TestRange) × (ranges t ≡ rs ++ (last_range q t ∷ []))
ranges-last q leaf b = absurd (cc)
ranges-last q (branch i c r x leaf) b = (ranges x, refl)
ranges-last q (branch i c r x (branch j d k z w)) b = go (ranges-last r (branch j d k z w) refl)
  where
    go :
        (rs : List TestRange) × (ranges (branch j d k z w) ≡ rs ++ (last_range k w ∷ []))
        → (rs : List TestRange) × (ranges (branch i c r x (branch j d k z w))
            ≡ rs ++ (last_range k w ∷ []))
    go (rs, e) = (
      ranges x ++ (r ∷ rs),
      ap (λ ys. ranges x ++ (r ∷ ys)) e
          ∙ sym (append_assoc (ranges x) (r ∷ rs) (last_range k w ∷ [])),
    )

-- The node takes over the last range on its left, which is removed there.
remove-both :
    (k : TestRange) (lo : ℕ) (xs rs : List TestRange) (hi : ℕ) (ys : List TestRange)
    → xs ≡ rs ++ (k ∷ [])
    → Sorted lo xs hi
    → remove k xs ++ (k ∷ ys) ≡ xs ++ ys
remove-both k lo xs rs hi ys e h =
    let h' : Sorted lo rs (k.start) =
      (Sorted-split lo rs k [] hi (subst (λ xs. Sorted lo xs hi) e h)).0 in
    let same : is_zero (test_range_compare k k) ≡ true =
      unfold test_range_compare in ground arith in
    rw (e, remove-behind k lo rs (k.start) (k ∷ []) h' (omega arith), same, append-nil rs)
      (sym (append_assoc rs (k ∷ []) ys))

ranges-other_child :
    (x y : Tree)
    → is_branch x && is_branch y ≡ false
    → ranges (other_child x y) ≡ ranges x ++ ranges y
ranges-other_child leaf leaf e = refl
ranges-other_child leaf (branch i c q x y) e = refl
ranges-other_child (branch i c q x y) leaf e = sym (append-nil (ranges (branch i c q x y)))
ranges-other_child (branch i c q x y) (branch j d r z w) e = absurd (cc)

remove-here :
    (q : TestRange) (lo : ℕ) (xs : List TestRange) (r : TestRange) (ys : List TestRange)
    → is_zero (test_range_compare r q) ≡ true
    → Sorted lo xs (r.start)
    → remove q (xs ++ (r ∷ ys)) ≡ xs ++ ys
remove-here q lo xs r ys e h =
    remove-behind q lo xs (r.start) (r ∷ ys) h (omega (arith, zero-same r q e)) ∙ rw e refl

pub ranges-delete :
    (q : TestRange) (lo : ℕ) (t : Tree) (hi : ℕ)
    → Between lo t hi
    → ranges ((delete q t).0) ≡ remove q (ranges t)
ranges-delete q lo leaf hi h = unfold delete in refl
ranges-delete q lo (branch i c r x y) hi (hx, some, hy) =
    let sx : Sorted lo (ranges x) (r.start) = Between→Sorted lo x (r.start) hx in
    let sy : Sorted (r.start + r.len) (ranges y) hi = Between→Sorted (r.start + r.len) y hi hy in
    elim (Bool-cases (is_zero (test_range_compare r q))) [
      | inl e ↦ elim (Bool-cases (is_branch x && is_branch y)) [
        | inl f ↦
            let k : TestRange = last_range r x in
            let (rs, last) = ranges-last r x (ground arith) in
            rw ((delete-both q i c r x y e f).0) (
              in_order-rejoin (λ i q. q) left (branch i c k x y) (delete k x)
              ∙ ap (λ xs. xs ++ (k ∷ ranges y)) (ranges-delete k lo x (r.start) hx)
              ∙ remove-both k lo (ranges x) rs (r.start) (ranges y) last sx
              ∙ sym (remove-here q lo (ranges x) r (ranges y) e sx))
        | inr f ↦ rw ((delete-here q i c r x y e f).0) (
            in_order-unlinked_tree (λ i q. q) c (other_child x y)
            ∙ ranges-other_child x y f
            ∙ sym (remove-here q lo (ranges x) r (ranges y) e sx))
      ]
      | inr e ↦ elim (Direction-cases (side q r)) [
        | inl f ↦ rw ((delete-left q i c r x y e f).0) (
            in_order-rejoin (λ i q. q) left (branch i c r x y) (delete q x)
            ∙ ap (λ xs. xs ++ (r ∷ ranges y)) (ranges-delete q lo x (r.start) hx)
            ∙ sym (remove-to_left q (ranges x) r (ranges y) hi e (side-left-le q r f) some sy))
        | inr f ↦ rw ((delete-right q i c r x y e f).0) (
            in_order-rejoin (λ i q. q) right (branch i c r x y) (delete q y)
            ∙ ap (λ ys. ranges x ++ (r ∷ ys)) (ranges-delete q (r.start + r.len) y hi hy)
            ∙ sym (
                remove-behind q lo (ranges x) (r.start) (r ∷ ranges y) sx (side-right-le q r f)
                ∙ rw e refl))
      ]
    ]

pub Sorted-remove :
    (q : TestRange) (lo : ℕ) (rs : List TestRange) (hi : ℕ)
    → Sorted lo rs hi
    → Sorted lo (remove q rs) hi
Sorted-remove q lo [] hi h = h
Sorted-remove q lo (r ∷ rs) hi (le, some, t) =
    elim (Bool-cases (is_zero (test_range_compare r q))) [
      | inl e ↦ rw e (Sorted-from lo (r.start + r.len) rs hi (omega arith) t)
      | inr e ↦ rw e (le, some, Sorted-remove q (r.start + r.len) rs hi t)
    ]
  where
    Sorted-from :
        (lo lo' : ℕ) (rs : List TestRange) (hi : ℕ) → lo ≤ lo' → Sorted lo' rs hi → Sorted lo rs hi
    Sorted-from lo lo' [] hi le h = omega arith
    Sorted-from lo lo' (r ∷ rs) hi le (le', some, t) = (omega arith, some, t)

size-rejoin :
    (d : Direction) (i : ℕ) (c : Color) (r : TestRange) (x y : Tree) (z : Tree × DeleteStatus)
    (n : ℕ)
    → size (z.0) + n ≡ size (child d (branch i c r x y))
    → size ((rejoin d (branch i c r x y) z).0) + n ≡ size (branch i c r x y)
size-rejoin left i c r x y z n e = omega (
  arith,
  size-in_order (λ i q. q) ((rejoin left (branch i c r x y) z).0),
  ap length (in_order-rejoin (λ i q. q) left (branch i c r x y) z),
  size-in_order (λ i q. q) (branch i c r (z.0) y),
)
size-rejoin right i c r x y z n e = omega (
  arith,
  size-in_order (λ i q. q) ((rejoin right (branch i c r x y) z).0),
  ap length (in_order-rejoin (λ i q. q) right (branch i c r x y) z),
  size-in_order (λ i q. q) (branch i c r x (z.0)),
)

size-other_child :
    (x y : Tree) → is_branch x && is_branch y ≡ false → size (other_child x y) ≡ size x + size y
size-other_child leaf leaf e = omega arith
size-other_child leaf (branch i c q x y) e = omega arith
size-other_child (branch i c q x y) leaf e = omega arith
size-other_child (branch i c q x y) (branch j d r z w) e = absurd (cc)

pub size-delete : (q : TestRange) (t : Tree) → size ((delete q t).0) + length (freed q t) ≡ size t
size-delete q leaf = unfold delete freed in omega arith
size-delete q (branch i c r x y) = elim (Bool-cases (is_zero (test_range_compare r q))) [
  | inl e ↦ elim (Bool-cases (is_branch x && is_branch y)) [
    | inl f ↦
        rw ((delete-both q i c r x y e f).0, (delete-both q i c r x y e f).1)
          (size-rejoin left i c (last_range r x) x y (delete (last_range r x) x)
            (length (freed (last_range r x) x)) (size-delete (last_range r x) x))
    | inr f ↦
        rw ((delete-here q i c r x y e f).0, (delete-here q i c r x y e f).1)
          (omega (
            arith,
            size-other_child x y f,
            size-in_order (λ i q. q) ((unlinked_tree c (other_child x y)).0),
            size-in_order (λ i q. q) (other_child x y),
            ap length (in_order-unlinked_tree (λ i q. q) c (other_child x y)),
          ))
  ]
  | inr e ↦ elim (Direction-cases (side q r)) [
    | inl f ↦
        rw ((delete-left q i c r x y e f).0, (delete-left q i c r x y e f).1)
          (size-rejoin left i c r x y (delete q x) (length (freed q x)) (size-delete q x))
    | inr f ↦
        rw ((delete-right q i c r x y e f).0, (delete-right q i c r x y e f).1)
          (size-rejoin right i c r x y (delete q y) (length (freed q y)) (size-delete q y))
  ]
]
