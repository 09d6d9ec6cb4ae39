-- ===== src/RbTree/Heap/Unlink.antt =====
-- `node_remove_from_list` on a part of the list.
use drastic.Base.{
  ℕ, ◌≤◌, ◌<◌, ◌≡◌, ◌≢◌, refl, false, ◌==◌, Bool-cases, inl, inr, List, [], ◌∷◌, ◌++◌, ok, arith,
}
use mathlib.Core.Path.{subst}
use mathlib.Core.List.{append-nil}
use drastic.RbTree.{left, right, node, Nodes, set_link, node_remove_from_list}
use drastic.RbTree.Heap.Links.{
  ListLinks, Segment, Segment-frame, Segment-split, Segment-join, times, times-append,
}

-- The last of `a` and the list; the first of the list and `b`.
abbrev pub last : ℕ → List ℕ → ℕ
last a [] = a
last a (x ∷ xs) = last x xs

pub last-append : (a : ℕ) (xs : List ℕ) (i : ℕ) (ys : List ℕ) → last a (xs ++ (i ∷ ys)) ≡ last i ys
last-append a [] i ys = refl
last-append a (x ∷ xs) i ys = last-append x xs i ys

abbrev pub first : List ℕ → ℕ → ℕ
first [] b = b
first (x ∷ xs) b = x

pub Segment-last :
    (f : ListLinks) (a : ℕ) (xs : List ℕ) (b : ℕ)
    → Segment f a xs b
    → (f left b ≡ node (last a xs)) × (f right (last a xs) ≡ node b)
Segment-last f a [] b (e, e') = (e', e)
Segment-last f a (x ∷ xs) b (e, e', h) = Segment-last f x xs b h

pub Segment-first :
    (f : ListLinks) (a : ℕ) (xs : List ℕ) (b : ℕ)
    → Segment f a xs b
    → (f right a ≡ node (first xs b)) × (f left (first xs b) ≡ node a)
Segment-first f a [] b h = h
Segment-first f a (x ∷ xs) b (e, e', h) = (e, e')

pub times-last : (a : ℕ) (xs : List ℕ) → 0 < times (last a xs) (a ∷ xs)
times-last a [] = ground arith
times-last a (x ∷ xs) = omega (arith, times-last x xs)

pub times-first : (xs : List ℕ) (b : ℕ) → 0 < times (first xs b) (b ∷ xs)
times-first [] b = ground arith
times-first (x ∷ xs) b = ground arith

pub times-ne : (k p : ℕ) (xs : List ℕ) → 0 < times k xs → times p xs ≡ 0 → (k == p) ≡ false
times-ne k p xs lt z = elim (Bool-cases (k == p)) [
  | inl e ↦
      let same : k ≡ p = ground arith in
      let lt' : 0 < times p xs = subst (λ (n : ℕ). 0 < times n xs) same lt in absurd (omega arith)
  | inr e ↦ e
]

abbrev pub unlinked : ListLinks → ℕ → ℕ → ListLinks
unlinked f before after = set_link (set_link f right before (node after)) left after (node before)

-- The part of the list goes on to another node.
Segment-to :
    (f : ListLinks) (a : ℕ) (xs : List ℕ) (i n : ℕ)
    → Segment f a xs i
    → ((k : ℕ) → times k (a ∷ xs) ≤ 1)
    → times n xs ≡ 0
    → Segment (unlinked f (last a xs) n) a xs n
Segment-to f a [] i n h u z = (ground arith, ground arith)
Segment-to f a (x ∷ xs) i n (e, e', h) u z =
    let other : (a == last x xs) ≡ false = ground (arith, u a, times-last x xs) in
    let other' : (x == n) ≡ false = ground arith in
    (rw other e, rw other' e', Segment-to f x xs i n h (λ k. omega (arith, u k)) (omega arith))

-- The part of the list that comes from another node.
Segment-from :
    (f : ListLinks) (p i : ℕ) (y : ℕ) (ys : List ℕ) (b : ℕ)
    → Segment f i (y ∷ ys) b
    → ((k : ℕ) → times k (y ∷ ys) ≤ 1)
    → times p (y ∷ ys) ≡ 0
    → (y == b) ≡ false
    → Segment (unlinked f p y) y ys b
Segment-from f p i y ys b (e, e', h) u z o =
    Segment-frame f (unlinked f p y) y ys b (λ k lt. rw (times-ne k p (y ∷ ys) lt z) refl)
      (λ k lt. rw (times-ne k y (b ∷ ys) lt (ground (arith, u y))) refl) h

-- The node `i` is taken out of the list.
pub Segment-unlink :
    (f : ListLinks) (a : ℕ) (xs : List ℕ) (i : ℕ) (ys : List ℕ) (b : ℕ)
    → Segment f a (xs ++ (i ∷ ys)) b
    → ((k : ℕ) → times k (a ∷ (xs ++ (i ∷ ys))) ≤ 1)
    → times b (xs ++ (i ∷ ys)) ≡ 0
    → Segment (unlinked f (last a xs) (first ys b)) a (xs ++ ys) b
Segment-unlink f a xs i [] b h u z = rw (append-nil xs) (
    Segment-to f a xs i b ((Segment-split f a xs i [] b h).0)
      (λ k. omega (arith, u k, times-append k xs (i ∷ [])))
      (omega (arith, times-append b xs (i ∷ []))))
Segment-unlink f a xs i (y ∷ ys) b h u z =
    let parts : Segment f a xs i × Segment f i (y ∷ ys) b = Segment-split f a xs i (y ∷ ys) b h in
    Segment-join (unlinked f (last a xs) y) a xs y ys b
      (Segment-to f a xs i y (parts.0) (λ k. omega (arith, u k, times-append k xs (i ∷ (y ∷ ys))))
        (ground (arith, u y, times-append y xs (i ∷ (y ∷ ys)))))
      (Segment-from f (last a xs) i y ys b (parts.1)
        (λ k. omega (arith, u k, times-append k xs (i ∷ (y ∷ ys))))
        (omega (arith, u (last a xs), times-append (last a xs) xs (i ∷ (y ∷ ys)), times-last a xs))
        (ground (arith, times-append b xs (i ∷ (y ∷ ys)))))

pub remove-unlinked :
    (s : Nodes) (i before after : ℕ)
    → s.list left i ≡ node before
    → s.list right i ≡ node after
    → i ≢ before
    → i ≢ after
    → node_remove_from_list s (node i) ≡ ok (record s { list = unlinked (s.list) before after })
unfolding node_remove_from_list
remove-unlinked s i before after e e' h h' = ground arith
