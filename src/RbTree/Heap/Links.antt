-- ===== src/RbTree/Heap/Links.antt =====
-- The doubly linked list of experiments/rbtree.c: a part of it, between two nodes.
use drastic.Base.{ℕ, ◌+◌, ◌<◌, ◌≡◌, ◌≢◌, refl, ◌==◌, if◌then◌else◌, List, [], ◌∷◌, ◌++◌, ok, arith}
use drastic.RbTree.{Direction, left, right, NodePointer, node, Nodes, set_link, node_insert}
use drastic.RbTree.Model.{Tree, leaf, branch, count, ids}

abbrev pub ListLinks : Type 0
ListLinks = Direction → ℕ → NodePointer

-- From `a` to the right, the nodes of `xs` and then `b` follow, and back to the left.
abbrev pub Segment : ListLinks → ℕ → List ℕ → ℕ → Type 0
Segment f a [] b = (f right a ≡ node b) × (f left b ≡ node a)
Segment f a (x ∷ xs) b = (f right a ≡ node x) × (f left x ≡ node a) × Segment f x xs b

abbrev pub times : ℕ → List ℕ → ℕ
times k [] = 0
times k (x ∷ xs) = (if k == x then 1 else 0) + times k xs

pub times-append : (k : ℕ) (xs ys : List ℕ) → times k (xs ++ ys) ≡ times k xs + times k ys
times-append k [] ys = omega arith
times-append k (x ∷ xs) ys = omega (arith, times-append k xs ys)

pub times-ids : (k : ℕ) (t : Tree) → times k (ids t) ≡ count k t
times-ids k leaf = refl
times-ids k (branch i c q x y) =
    omega (arith, times-append k (ids x) (i ∷ ids y), times-ids k x, times-ids k y)

pub Segment-frame :
    (f g : ListLinks) (a : ℕ) (xs : List ℕ) (b : ℕ)
    → ((k : ℕ) → 0 < times k (a ∷ xs) → g right k ≡ f right k)
    → ((k : ℕ) → 0 < times k (b ∷ xs) → g left k ≡ f left k)
    → Segment f a xs b
    → Segment g a xs b
Segment-frame f g a [] b hr hl (e, e') =
    let r : g right a ≡ f right a = hr a (ground arith) in
    let l : g left b ≡ f left b = hl b (ground arith) in (cc, cc)
Segment-frame f g a (x ∷ xs) b hr hl (e, e', h) =
    let r : g right a ≡ f right a = hr a (ground arith) in
    let l : g left x ≡ f left x = hl x (ground arith) in
    (cc, cc, Segment-frame f g x xs b (λ k lt. hr k (ground arith)) (λ k lt. hl k (ground arith)) h)

pub Segment-split :
    (f : ListLinks) (a : ℕ) (xs : List ℕ) (i : ℕ) (ys : List ℕ) (b : ℕ)
    → Segment f a (xs ++ (i ∷ ys)) b
    → Segment f a xs i × Segment f i ys b
Segment-split f a [] i ys b (e, e', h) = ((e, e'), h)
Segment-split f a (x ∷ xs) i ys b (e, e', h) =
    let rest : Segment f x xs i × Segment f i ys b = Segment-split f x xs i ys b h in
    ((e, e', rest.0), rest.1)

pub Segment-join :
    (f : ListLinks) (a : ℕ) (xs : List ℕ) (i : ℕ) (ys : List ℕ) (b : ℕ)
    → Segment f a xs i
    → Segment f i ys b
    → Segment f a (xs ++ (i ∷ ys)) b
Segment-join f a [] i ys b (e, e') h = (e, e', h)
Segment-join f a (x ∷ xs) i ys b (e, e', g) h = (e, e', Segment-join f x xs i ys b g h)

pub Segment-same :
    (f g : ListLinks) (a : ℕ) (xs ys : List ℕ) (b : ℕ)
    → g ≡ f
    → ys ≡ xs
    → Segment f a xs b
    → Segment g a ys b
Segment-same f g a xs ys b e e' h = rw (e, e') h

-- Where a new node is put in between two neighbours: next to the one on this side.
abbrev pub anchor : Direction → ℕ → ℕ → ℕ
anchor left a b = b
anchor right a b = a

-- No links have changed but those of `n`, those between `a` and `b`, and those of the tree.
pub record LinksFrame (f g : ListLinks) (a : ℕ) (t : Tree) (b n : ℕ) : Type 0 where
  pub on_right : (k : ℕ) → count k t ≡ 0 → k ≢ a → k ≢ n → g right k ≡ f right k
  pub on_left : (k : ℕ) → count k t ≡ 0 → k ≢ b → k ≢ n → g left k ≡ f left k

-- What `node_insert` leaves when the list goes on with `b` after `a`.
abbrev pub linked : Nodes → Direction → ℕ → ℕ → ℕ → Nodes
linked s right n a b = record s {
  list =
      set_link
        (set_link (set_link (set_link s.list right n (node b)) left n (node a)) right a (node n))
        left b (node n);
}
linked s left n a b = record s {
  list =
      set_link
        (set_link (set_link (set_link s.list left n (node a)) right n (node b)) left b (node n))
        right a (node n);
}

pub node_insert-linked :
    (s : Nodes) (d : Direction) (n a b : ℕ)
    → Segment s.list a [] b
    → n ≢ a
    → n ≢ b
    → node_insert s (node n) (node (anchor d a b)) d ≡ ok (linked s d n a b)
unfolding node_insert
node_insert-linked s left n a b (e, e') na nb = ground arith
node_insert-linked s right n a b (e, e') na nb = ground arith

pub linked-Segment :
    (s : Nodes) (d : Direction) (n a b : ℕ)
    → n ≢ a
    → n ≢ b
    → Segment ((linked s d n a b).list) a (n ∷ []) b
linked-Segment s left n a b na nb = (ground arith, ground arith, (ground arith, ground arith))
linked-Segment s right n a b na nb = (ground arith, ground arith, (ground arith, ground arith))

pub linked-LinksFrame :
    (s : Nodes) (d : Direction) (n a b : ℕ) → LinksFrame s.list ((linked s d n a b).list) a leaf b n
linked-LinksFrame s left n a b = record {
  on_right = λ k z ka kn. ground arith;
  on_left = λ k z kb kn. ground arith;
}
linked-LinksFrame s right n a b = record {
  on_right = λ k z ka kn. ground arith;
  on_left = λ k z kb kn. ground arith;
}
