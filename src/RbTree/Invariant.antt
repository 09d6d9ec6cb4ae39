-- ===== src/RbTree/Invariant.antt =====
-- What holds of an `RB_Tree` between two calls, and where its next node comes from.
pub mod Insert
pub mod Delete
pub mod Clear
pub mod RoundTrip
use drastic.Base.{
  ℕ, zero, suc, ◌+◌, ◌-◌, ◌*◌, ◌≤◌, ◌<◌, ◌≡◌, ◌≢◌, refl, sym, ◌∙◌, ap, Bool, true, false, ltb, ◌==◌,
  if◌then◌else◌, Bool-cases, ◌⊎◌, inl, inr, List, [], ◌∷◌, length, Option, none, some, Result, ok,
  arith,
}
use drastic.RbTree.{Direction, left, right, NodePointer, null, nil, node, Nodes}
use drastic.RbTree.Arena.{RbTree, made, nodes_max, rb_tree_valid, page_alloc, next_node}
use drastic.RbTree.Model.{Tree, leaf, branch, count, ids, size}
use drastic.RbTree.Model.Order.{Ordered}
use drastic.RbTree.Model.Balance.{IsRedBlack}
use drastic.RbTree.Heap.{Repr, SameNode}
use drastic.RbTree.Heap.Links.{Segment, times}

-- The list of freed nodes, linked by their right children.
abbrev pub Chain : Nodes → NodePointer → List ℕ → Type 0
Chain s p [] = p ≡ null
Chain s p (n ∷ ns) = (p ≡ node n) × Chain s (s.children right n) ns

pub Chain-frame :
    (s s' : Nodes) (p : NodePointer) (ns : List ℕ)
    → ((k : ℕ) → 0 < times k ns → s'.children right k ≡ s.children right k)
    → Chain s p ns
    → Chain s' p ns
Chain-frame s s' p [] same e = e
Chain-frame s s' p (n ∷ ns) same (e, h) = (
  e,
  rw (same n (ground arith))
      (Chain-frame s s' (s.children right n) ns (λ k lt. same k (ground arith)) h),
)

-- The nodes of the tree `t` and the freed nodes are all that have been given out, each once; the
-- list goes through the tree in order; the tree is ordered and red-black.
pub record Holds (tree : RbTree) (t : Tree) (free : List ℕ) : Type 0 where
  pub repr : Repr tree.store tree.root t
  pub segment : Segment tree.store.list 0 (ids t) 0
  pub chain : Chain tree.store tree.free_list free
  pub distinct : (k : ℕ) → count k t + times k free + (if k == 0 then 1 else 0) ≤ 1
  pub total : size t + length free ≡ made tree
  pub below : (k : ℕ) → 0 < count k t + times k free → k ≤ made tree
  pub paged : 0 < tree.pages
  pub room : tree.node_count ≤ nodes_max
  pub ordered : Ordered t
  pub balanced : IsRedBlack t

-- No node was freed, the page is full, and there is no further page.
abbrev pub Exhausted : RbTree → Type 0
Exhausted tree = (tree.free_list ≡ null) × (tree.node_count ≡ nodes_max) × (tree.pages_left ≡ 0)

-- A node `n` for the tree `t`, and what is left then.
pub record Supply (tree : RbTree) (t : Tree) (free : List ℕ) : Type 0 where
  pub n : ℕ
  pub grown : RbTree
  pub rest : List ℕ
  pub found : next_node tree ≡ ok (some (n, grown))
  pub same : grown.store ≡ tree.store
  pub chain : Chain tree.store grown.free_list rest
  pub distinct :
      (k : ℕ) → count k t + times k rest + (if k == n then 1 else 0) + (if k == 0 then 1 else 0) ≤ 1
  pub total : 1 + size t + length rest ≡ made grown
  pub below : (k : ℕ) → 0 < count k t + times k rest + (if k == n then 1 else 0) → k ≤ made grown
  pub paged : 0 < grown.pages
  pub room : grown.node_count ≤ nodes_max
  pub supplied : ¬ Exhausted tree

null_node : {p : NodePointer} {n : ℕ} → p ≡ null → p ≢ node n
null_node e f = absurd (cc)

from_free :
    (tree : RbTree) (t : Tree) (n : ℕ) (ns : List ℕ)
    → Holds tree t (n ∷ ns)
    → Supply tree t (n ∷ ns)
unfolding next_node
from_free tree t n ns h = record {
  n = n;
  grown = record tree { free_list = tree.store.children right n };
  rest = ns;
  found = rw (h.chain.0) refl;
  same = refl;
  chain = h.chain.1;
  distinct = λ k. omega (arith, h.distinct k);
  total = omega (arith, h.total);
  below = λ k lt. h.below k (omega arith);
  paged = h.paged;
  room = h.room;
  supplied = λ x. null_node (x.0) (h.chain.0);
}

-- A number above all that were given out is not used yet.
new_distinct :
    (tree : RbTree) (t : Tree) (n k : ℕ)
    → Holds tree t []
    → made tree < n
    → count k t + times k [] + (if k == n then 1 else 0) + (if k == 0 then 1 else 0) ≤ 1
new_distinct tree t n k h lt = elim (Bool-cases (k == n)) [
  | inl e ↦
      let same : k ≡ n = ground arith in
      let none : count k t ≡ 0 = elim (Bool-cases (ltb 0 (count k t))) [
        | inl f ↦ absurd (ground (arith, h.below k (ground arith)))
        | inr f ↦ ground arith
      ] in
      ground arith
  | inr e ↦ ground (arith, h.distinct k)
]

new_below :
    (tree : RbTree) (t : Tree) (n k : ℕ)
    → Holds tree t []
    → made tree < n
    → 0 < count k t + times k [] + (if k == n then 1 else 0)
    → k ≤ n
new_below tree t n k h lt g = elim (Bool-cases (k == n)) [
  | inl e ↦ ground arith
  | inr e ↦ omega (arith, h.below k (ground arith))
]

from_page :
    (tree : RbTree) (t : Tree) → Holds tree t [] → tree.node_count < nodes_max → Supply tree t []
unfolding next_node
from_page tree t h lt =
    let inside : ltb tree.node_count nodes_max ≡ true = ground arith in
    let grown : RbTree = record tree { node_count = tree.node_count + 1 } in
    record {
      n = made grown;
      grown = grown;
      rest = [];
      found = rw (h.chain, inside) refl;
      same = refl;
      chain = h.chain;
      distinct = λ k. new_distinct tree t (made grown) k h (omega arith);
      total = omega (arith, h.total);
      below = λ k lt. new_below tree t (made grown) k h (omega arith) lt;
      paged = h.paged;
      room = omega arith;
      supplied = λ x. absurd (omega (arith, x.1));
    }

from_new_page :
    (tree : RbTree) (t : Tree) (more : ℕ)
    → Holds tree t []
    → tree.node_count ≡ nodes_max
    → tree.pages_left ≡ suc more
    → Supply tree t []
unfolding next_node
from_new_page tree t more h full e =
    let outside : ltb tree.node_count nodes_max ≡ false = ground arith in
    let grown : RbTree = record tree {
      pages = tree.pages + 1;
      node_count = 1;
      pages_left = more;
    } in
    let next : made grown ≡ made tree + 1 = omega (arith, h.paged) in
    record {
      n = made grown;
      grown = grown;
      rest = [];
      found = rw (h.chain, outside, e) refl;
      same = refl;
      chain = h.chain;
      distinct = λ k. new_distinct tree t (made grown) k h (omega arith);
      total = omega (arith, h.total);
      below = λ k lt. new_below tree t (made grown) k h (omega arith) lt;
      paged = omega (arith, h.paged);
      room = omega arith;
      supplied = λ x. absurd (omega (arith, x.2));
    }

pub next_node-cases :
    (tree : RbTree) (t : Tree) (free : List ℕ)
    → Holds tree t free
    → Supply tree t free ⊎ ((next_node tree ≡ ok none) × Exhausted tree)
unfolding next_node
next_node-cases tree t (n ∷ ns) h = inl (from_free tree t n ns h)
next_node-cases tree t [] h = elim (Bool-cases (ltb tree.node_count nodes_max)) [
  | inl e ↦ inl (from_page tree t h (ground arith))
  | inr e ↦
      let full : tree.node_count ≡ nodes_max = ground (arith, h.room) in
      page_cases (tree.pages_left) refl full e
]
  where
    no_node : tree.pages_left ≡ 0 → ltb tree.node_count nodes_max ≡ false → next_node tree ≡ ok none
    no_node e f = rw (h.chain, f, e) refl

    page_cases :
        (m : ℕ)
        → tree.pages_left ≡ m
        → tree.node_count ≡ nodes_max
        → ltb tree.node_count nodes_max ≡ false
        → Supply tree t [] ⊎ ((next_node tree ≡ ok none) × Exhausted tree)
    page_cases zero e full f = inr (no_node e f, (h.chain, full, e))
    page_cases (suc m) e full f = inl (from_new_page tree t m h full e)
