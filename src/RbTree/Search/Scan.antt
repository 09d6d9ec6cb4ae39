-- ===== src/RbTree/Search/Scan.antt =====
-- The scans of the sorted ranges, and the steps of the searches.
use drastic.Base.{
  ℕ, suc, ◌+◌, ◌≤◌, ◌≡◌, refl, sym, true, false, ltb, if◌then◌else◌, List, [], ◌∷◌, ◌++◌, Option,
  none, some, Result, ok, max, arith,
}
use drastic.RbTree.{TestRange, left, right, NodePointer, nil, node, Nodes, node_valid}
use drastic.RbTree.Search.{prev_from, next_from}
use drastic.RbTree.Model.{Tree, leaf, branch, size}
use drastic.RbTree.Model.Sorted.{Sorted, Sorted-le}

abbrev pub or_else : Option TestRange → Option TestRange → Option TestRange
or_else (some r) other = some r
or_else none other = other

-- The last range that begins before the address, and the first that begins behind it.
abbrev pub last_before : ℕ → List TestRange → Option TestRange
last_before start [] = none
last_before start (r ∷ rs) =
    or_else (last_before start rs) (if ltb (r.start) start then some r else none)

abbrev pub first_behind : ℕ → List TestRange → Option TestRange
first_behind start [] = none
first_behind start (r ∷ rs) =
    or_else (if ltb start (r.start) then some r else none) (first_behind start rs)

-- The pointer leads to a node with this range, or is nil if there is none.
abbrev pub Shows : Nodes → NodePointer → Option TestRange → Type 0
Shows s p none = p ≡ nil
Shows s p (some r) = (i : ℕ) × (p ≡ node i) × (s.range i ≡ r)

abbrev pub depth : Tree → ℕ
depth leaf = 0
depth (branch i c q x y) = suc (max (depth x) (depth y))

pub depth-size : (t : Tree) → depth t ≤ size t
depth-size leaf = omega arith
depth-size (branch i c q x y) = omega (arith, depth-size x, depth-size y)

pub or_else_assoc : (a b c : Option TestRange) → or_else (or_else a b) c ≡ or_else a (or_else b c)
or_else_assoc none b c = refl
or_else_assoc (some r) b c = refl

pub or_else-none : (a : Option TestRange) → or_else a none ≡ a
or_else-none none = refl
or_else-none (some r) = refl

pub last_before-append :
    (start : ℕ) (xs ys : List TestRange)
    → last_before start (xs ++ ys) ≡ or_else (last_before start ys) (last_before start xs)
last_before-append start [] ys = sym (or_else-none (last_before start ys))
last_before-append start (x ∷ xs) ys = rw (last_before-append start xs ys) (
    or_else_assoc (last_before start ys) (last_before start xs)
      (if ltb (x.start) start then some x else none))

pub first_behind-append :
    (start : ℕ) (xs ys : List TestRange)
    → first_behind start (xs ++ ys) ≡ or_else (first_behind start xs) (first_behind start ys)
first_behind-append start [] ys = refl
first_behind-append start (x ∷ xs) ys = rw (first_behind-append start xs ys) (
    sym (
      or_else_assoc (if ltb start (x.start) then some x else none) (first_behind start xs)
        (first_behind start ys)))

pub last_before-none :
    (start lo : ℕ) (rs : List TestRange) (hi : ℕ)
    → Sorted lo rs hi
    → start ≤ lo
    → last_before start rs ≡ none
last_before-none start lo [] hi h le = refl
last_before-none start lo (r ∷ rs) hi (le', more, t) le =
    let no : ltb (r.start) start ≡ false = ground arith in
    rw (no, last_before-none start (r.start + r.len) rs hi t (omega arith)) refl

pub first_behind-none :
    (start lo : ℕ) (rs : List TestRange) (hi : ℕ)
    → Sorted lo rs hi
    → hi ≤ start
    → first_behind start rs ≡ none
first_behind-none start lo [] hi h le = refl
first_behind-none start lo (r ∷ rs) hi (le', more, t) le =
    let no : ltb start (r.start) ≡ false = ground (arith, Sorted-le (r.start + r.len) rs hi t) in
    rw (no, first_behind-none start (r.start + r.len) rs hi t le) refl

-- The outcome of a search that shows this range.
abbrev pub Finds : Nodes → Result NodePointer → Option TestRange → Type 0
Finds s out r = (p : NodePointer) × (out ≡ ok p) × Shows s p r

module _ (fuel : ℕ) (s : Nodes) (i : ℕ) (best : NodePointer) (start : ℕ) (r : TestRange)
    (e : s.range i ≡ r) where
  pub prev-take :
      ltb (r.start) start ≡ true
      → node_valid (s.children right i) ≡ ok (s.children right i)
      → prev_from (suc fuel) s (node i) best start
        ≡ prev_from fuel s (s.children right i) (node i) start
  unfolding prev_from
  prev-take f v = rw (e, f, v, prev_from) refl

  pub prev-pass :
      ltb (r.start) start ≡ false
      → node_valid (s.children left i) ≡ ok (s.children left i)
      → prev_from (suc fuel) s (node i) best start ≡ prev_from fuel s (s.children left i) best start
  unfolding prev_from
  prev-pass f v = rw (e, f, v, prev_from) refl

module _ (fuel : ℕ) (s : Nodes) (i : ℕ) (best : NodePointer) (start : ℕ) (r : TestRange)
    (e : s.range i ≡ r) where
  pub next-take :
      ltb start (r.start) ≡ true
      → node_valid (s.children left i) ≡ ok (s.children left i)
      → next_from (suc fuel) s (node i) best start
        ≡ next_from fuel s (s.children left i) (node i) start
  unfolding next_from
  next-take f v = rw (e, f, v, next_from) refl

  pub next-pass :
      ltb start (r.start) ≡ false
      → node_valid (s.children right i) ≡ ok (s.children right i)
      → next_from (suc fuel) s (node i) best start
        ≡ next_from fuel s (s.children right i) best start
  unfolding next_from
  next-pass f v = rw (e, f, v, next_from) refl
