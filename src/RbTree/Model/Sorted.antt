-- ===== src/RbTree/Model/Sorted.antt =====
-- The ranges of a tree as a sorted list, and what an insertion does to that list.
use drastic.Base.{
  ℕ, ◌+◌, ◌≤◌, ◌<◌, ◌≡◌, refl, sym, ◌∙◌, ap, Bool, false, ◌||◌, ltb, if◌then◌else◌, Bool-cases, inl,
  inr, List, [], ◌∷◌, ◌++◌, suc, length, arith,
}
use mathlib.Core.Path.{subst}
use drastic.RbTree.{TestRange, left, right}
use drastic.RbTree.Model.{Tree, leaf, branch, ranges, side, insert, insert-left, insert-right}
use drastic.RbTree.Model.Counts.{Direction-cases}
use drastic.RbTree.Model.InOrder.{in_order-insert_fix}
use drastic.RbTree.Model.Order.{Between, overlaps, meets, meets-branch, side-left, side-right}

-- The ranges follow one another without overlap, between the two addresses.
abbrev pub Sorted : ℕ → List TestRange → ℕ → Type 0
Sorted lo [] hi = lo ≤ hi
Sorted lo (r ∷ rs) hi = (lo ≤ r.start) × (0 < r.len) × Sorted (r.start + r.len) rs hi

pub Sorted-le : (lo : ℕ) (rs : List TestRange) (hi : ℕ) → Sorted lo rs hi → lo ≤ hi
Sorted-le lo [] hi h = h
Sorted-le lo (r ∷ rs) hi (h, some, t) = omega (arith, Sorted-le (r.start + r.len) rs hi t)

pub Sorted-append :
    (lo : ℕ) (xs : List TestRange) (r : TestRange) (ys : List TestRange) (hi : ℕ)
    → Sorted lo xs (r.start)
    → 0 < r.len
    → Sorted (r.start + r.len) ys hi
    → Sorted lo (xs ++ (r ∷ ys)) hi
Sorted-append lo [] r ys hi h some t = (h, some, t)
Sorted-append lo (x ∷ xs) r ys hi (h, some', g) some t =
    (h, some', Sorted-append (x.start + x.len) xs r ys hi g some t)

pub Sorted-split :
    (lo : ℕ) (xs : List TestRange) (r : TestRange) (ys : List TestRange) (hi : ℕ)
    → Sorted lo (xs ++ (r ∷ ys)) hi
    → Sorted lo xs (r.start) × (0 < r.len) × Sorted (r.start + r.len) ys hi
Sorted-split lo [] r ys hi h = h
Sorted-split lo (x ∷ xs) r ys hi (h, some, t) =
    let rest : Sorted (x.start + x.len) xs (r.start)
        × (0 < r.len)
        × Sorted (r.start + r.len) ys hi =
      Sorted-split (x.start + x.len) xs r ys hi t in
    ((h, some, rest.0), rest.1, rest.2)

pub Between→Sorted : (lo : ℕ) (t : Tree) (hi : ℕ) → Between lo t hi → Sorted lo (ranges t) hi
Between→Sorted lo leaf hi h = h
Between→Sorted lo (branch i c r x y) hi (hx, some, hy) =
    Sorted-append lo (ranges x) r (ranges y) hi (Between→Sorted lo x (r.start) hx) some
      (Between→Sorted (r.start + r.len) y hi hy)

pub Sorted→Between : (lo : ℕ) (t : Tree) (hi : ℕ) → Sorted lo (ranges t) hi → Between lo t hi
Sorted→Between lo leaf hi h = h
Sorted→Between lo (branch i c r x y) hi h =
    let rest : Sorted lo (ranges x) (r.start)
        × (0 < r.len)
        × Sorted (r.start + r.len) (ranges y) hi =
      Sorted-split lo (ranges x) r (ranges y) hi h in
    (Sorted→Between lo x (r.start) (rest.0), rest.1, Sorted→Between (r.start + r.len) y hi (rest.2))

-- Trees with the same ranges are ordered alike.
pub Between-same :
    (lo : ℕ) (t t' : Tree) (hi : ℕ) → ranges t' ≡ ranges t → Between lo t hi → Between lo t' hi
Between-same lo t t' hi e h =
    Sorted→Between lo t' hi (subst (λ rs. Sorted lo rs hi) (sym e) (Between→Sorted lo t hi h))

-- Whether some range of the list overlaps.
abbrev pub any_overlap : TestRange → List TestRange → Bool
any_overlap q [] = false
any_overlap q (r ∷ rs) = overlaps q r || any_overlap q rs

-- A range is put before the first that begins later.
abbrev pub put_range : TestRange → List TestRange → List TestRange
put_range q [] = q ∷ []
put_range q (r ∷ rs) = if ltb (q.start) (r.start) then q ∷ (r ∷ rs) else r ∷ put_range q rs

any_overlap-append :
    (q : TestRange) (xs ys : List TestRange)
    → any_overlap q (xs ++ ys) ≡ any_overlap q xs || any_overlap q ys
any_overlap-append q [] ys = refl
any_overlap-append q (x ∷ xs) ys = ground (arith, any_overlap-append q xs ys)

-- A range that ends before, or begins behind, overlaps with none.
any_overlap-before :
    (q : TestRange) (lo : ℕ) (rs : List TestRange) (hi : ℕ)
    → Sorted lo rs hi
    → q.start + q.len ≤ lo
    → any_overlap q rs ≡ false
any_overlap-before q lo [] hi h e = refl
any_overlap-before q lo (r ∷ rs) hi (h, some, t) e =
    ground (arith, any_overlap-before q (r.start + r.len) rs hi t (omega arith))

any_overlap-behind :
    (q : TestRange) (lo : ℕ) (rs : List TestRange) (hi : ℕ)
    → Sorted lo rs hi
    → hi ≤ q.start
    → any_overlap q rs ≡ false
any_overlap-behind q lo [] hi h e = refl
any_overlap-behind q lo (r ∷ rs) hi (h, some, t) e =
    let le : r.start + r.len ≤ hi = Sorted-le (r.start + r.len) rs hi t in
    ground (arith, any_overlap-behind q (r.start + r.len) rs hi t e)

-- The search along one path finds an overlap exactly if some range overlaps.
pub meets-any_overlap :
    (q : TestRange) (lo : ℕ) (t : Tree) (hi : ℕ)
    → 0 < q.len
    → Between lo t hi
    → meets q t ≡ any_overlap q (ranges t)
meets-any_overlap q lo leaf hi some h = refl
meets-any_overlap q lo (branch i c r x y) hi some (hx, some', hy) =
    elim (Bool-cases (overlaps q r)) [
      | inl e ↦ ground (arith, any_overlap-append q (ranges x) (r ∷ ranges y))
      | inr e ↦ elim (Direction-cases (side q r)) [
        | inl f ↦ ground (
          arith,
          any_overlap-append q (ranges x) (r ∷ ranges y),
          any_overlap-before q (r.start + r.len) (ranges y) hi
              (Between→Sorted (r.start + r.len) y hi hy)
              (omega (arith, side-left q r f e some some')),
          meets-any_overlap q lo x (r.start) some hx,
        )
        | inr f ↦ ground (
          arith,
          any_overlap-append q (ranges x) (r ∷ ranges y),
          any_overlap-behind q lo (ranges x) (r.start) (Between→Sorted lo x (r.start) hx)
              (omega (arith, side-right q r f e some some')),
          meets-any_overlap q (r.start + r.len) y hi some hy,
        )
      ]
    ]

put-left :
    (q : TestRange) (xs : List TestRange) (r : TestRange) (ys : List TestRange)
    → q.start < r.start
    → put_range q (xs ++ (r ∷ ys)) ≡ put_range q xs ++ (r ∷ ys)
put-left q [] r ys lt = ground arith
put-left q (x ∷ xs) r ys lt = ground (arith, put-left q xs r ys lt)

put-right :
    (q : TestRange) (lo : ℕ) (xs : List TestRange) (r : TestRange) (ys : List TestRange)
    → Sorted lo xs (r.start)
    → r.start ≤ q.start
    → put_range q (xs ++ (r ∷ ys)) ≡ xs ++ (r ∷ put_range q ys)
put-right q lo [] r ys h le = ground arith
put-right q lo (x ∷ xs) r ys (h, some, t) le =
    ground (
      arith,
      Sorted-le (x.start + x.len) xs (r.start) t,
      put-right q (x.start + x.len) xs r ys t le,
    )

pub ranges-insert :
    (n : ℕ) (q : TestRange) (lo : ℕ) (t : Tree) (hi : ℕ)
    → 0 < q.len
    → meets q t ≡ false
    → Between lo t hi
    → ranges (insert n q t) ≡ put_range q (ranges t)
ranges-insert n q lo leaf hi some m h = unfold insert in refl
ranges-insert n q lo (branch i c r x y) hi some m (hx, some', hy) =
    let clear : (overlaps q r ≡ false)
        × (side q r ≡ left → meets q x ≡ false)
        × (side q r ≡ right → meets q y ≡ false) =
      meets-branch q i c r x y m in
    elim (Direction-cases (side q r)) [
      | inl f ↦ rw (insert-left n q i c r x y f) (
          in_order-insert_fix (λ i q. q) left (branch i c r (insert n q x) y)
          ∙ ap (λ xs. xs ++ (r ∷ ranges y)) (ranges-insert n q lo x (r.start) some (clear.1 f) hx)
          ∙ sym (
              put-left q (ranges x) r (ranges y)
                (omega (arith, side-left q r f (clear.0) some some'))))
      | inr f ↦ rw (insert-right n q i c r x y f) (
          in_order-insert_fix (λ i q. q) right (branch i c r x (insert n q y))
          ∙ ap (λ ys. ranges x ++ (r ∷ ys))
              (ranges-insert n q (r.start + r.len) y hi some (clear.2 f) hy)
          ∙ sym (
              put-right q lo (ranges x) r (ranges y) (Between→Sorted lo x (r.start) hx)
                (omega (arith, side-right q r f (clear.0) some some'))))
    ]

pub Sorted-put_range :
    (q : TestRange) (lo : ℕ) (rs : List TestRange) (hi : ℕ)
    → 0 < q.len
    → lo ≤ q.start
    → q.start + q.len ≤ hi
    → any_overlap q rs ≡ false
    → Sorted lo rs hi
    → Sorted lo (put_range q rs) hi
Sorted-put_range q lo [] hi some le fits e h = (le, some, fits)
Sorted-put_range q lo (r ∷ rs) hi some le fits e (h, some', t) =
    elim (Bool-cases (ltb (q.start) (r.start))) [
      | inl f ↦ rw f (le, some, (ground arith, some', t))
      | inr f ↦ rw f (
        h,
        some',
        Sorted-put_range q (r.start + r.len) rs hi some (ground arith) fits (ground arith) t,
      )
    ]

pub length-put_range :
    (q : TestRange) (rs : List TestRange) → length (put_range q rs) ≡ suc (length rs)
length-put_range q [] = refl
length-put_range q (r ∷ rs) = ground (arith, length-put_range q rs)
