-- ===== src/RbTree/Invariant/Clear.antt =====
-- `rb_tree_init` and `rb_clear` leave a tree with no ranges.
use drastic.Base.{
  ℕ, zero, suc, ◌+◌, ◌≤◌, ◌<◌, ◌≡◌, refl, sym, true, false, ◌==◌, List, [], ◌∷◌, ◌++◌, length,
  length-append, Result, ok, arith,
}
use mathlib.Core.Path.{subst}
use mathlib.Core.List.{append_assoc}
use drastic.RbTree.{
  TestRange, left, right, Color, NodePointer, null, nil, node, Nodes, set_link, node_valid,
}
use drastic.RbTree.Arena.{
  RbTree, made, rb_tree_valid, rb_tree_init, node_free_all, push_free, empty_list, rb_clear,
}
use drastic.RbTree.Model.{Tree, leaf, branch, count, size}
use drastic.RbTree.Heap.{Repr, Repr-valid, Repr-kept, SameNode, SameNode-trans, same_node}
use drastic.RbTree.Heap.Links.{times, times-append}
use drastic.RbTree.Delete.Part.{==_refl}
use drastic.RbTree.Invariant.{Holds, Chain, Chain-frame}
use drastic.RbTree.Invariant.Insert.{Holds-valid, Stored}

-- If the free list is NULL and there is a page, rb_tree_init returns true with a tree that stores
-- no range.
pub rb_tree_init-Stored :
    (tree : RbTree) (more : ℕ)
    → tree.free_list ≡ null
    → tree.pages_left ≡ suc more
    → (after : RbTree) × (rb_tree_init tree ≡ (true, after)) × Stored after []
rb_tree_init-Stored tree more e f = (
  record tree {
    store = empty_list (tree.store);
    root = nil;
    pages = 1;
    node_count = 0;
    pages_left = more;
  },
  unfold rb_tree_init in rw f refl,
  record {
    t = leaf;
    free = [];
    holds = record {
      repr = refl;
      segment = (refl, refl);
      chain = e;
      distinct = λ k. ground arith;
      total = omega arith;
      below = λ k lt. absurd (omega arith);
      paged = omega arith;
      room = omega arith;
      ordered = omega arith;
      balanced = (refl, (0, refl));
    };
    same = refl;
  },
)

-- The nodes in the order in which they are freed, the last one first.
abbrev freed_order : Tree → List ℕ
freed_order leaf = []
freed_order (branch i c q x y) = i ∷ (freed_order y ++ freed_order x)

times-freed_order : (k : ℕ) (t : Tree) → times k (freed_order t) ≡ count k t
times-freed_order k leaf = refl
times-freed_order k (branch i c q x y) = omega (
  arith,
  times-append k (freed_order y) (freed_order x),
  times-freed_order k x,
  times-freed_order k y,
)

length-freed_order : (t : Tree) → length (freed_order t) ≡ size t
length-freed_order leaf = refl
length-freed_order (branch i c q x y) = omega (
  arith,
  length-append (freed_order y) (freed_order x),
  length-freed_order x,
  length-freed_order y,
)

-- All nodes of the tree have been freed.
record Frees (tree : RbTree) (t : Tree) (free : List ℕ) (out : Result RbTree) : Type 0 where
  store : Nodes
  free_list : NodePointer
  returns : out ≡ ok (record tree { store = store; free_list = free_list })
  chain : Chain store free_list (freed_order t ++ free)
  same : (k : ℕ) → count k t ≡ 0 → SameNode tree.store store k

free-step :
    (fuel : ℕ) (tree after : RbTree) (i : ℕ) (s1 : Nodes) (f1 : NodePointer)
    → rb_tree_valid tree ≡ true
    → node_valid (tree.store.children left i) ≡ ok (tree.store.children left i)
    → node_free_all fuel tree (tree.store.children left i)
      ≡ ok (record tree { store = s1; free_list = f1 })
    → node_valid (s1.children right i) ≡ ok (s1.children right i)
    → node_free_all fuel (record tree { store = s1; free_list = f1 }) (s1.children right i)
      ≡ ok after
    → node_free_all (suc fuel) tree (node i) ≡ ok (push_free after i)
unfolding node_free_all
free-step fuel tree after i s1 f1 v e1 e2 e3 e4 = rw (v, e1, e2, e3, e4) refl

module _ (tree : RbTree) (i : ℕ) (c : Color) (q : TestRange) (x y : Tree) (free : List ℕ)
    (s1 s2 : Nodes) (f2 : NodePointer) (u : (k : ℕ) → count k (branch i c q x y) + times k free ≤ 1)
    (same1 : (k : ℕ) → count k x ≡ 0 → SameNode tree.store s1 k)
    (same2 : (k : ℕ) → count k y ≡ 0 → SameNode s1 s2 k)
    (chain2 : Chain s2 f2 (freed_order y ++ (freed_order x ++ free))) where
  -- The root is freed last.
  abbrev all_freed : Nodes
  all_freed = record s2 { children = set_link s2.children right i f2 }

  pushed : (k : ℕ) → (k == i) ≡ false → SameNode s2 all_freed k
  pushed k e = record { range = refl; color = refl; left_child = refl; right_child = rw e refl }

  freed-Chain : Chain all_freed (node i) (freed_order (branch i c q x y) ++ free)
  freed-Chain = (
    refl,
    rw (==_refl i) (
        subst (Chain all_freed f2) (sym (append_assoc (freed_order y) (freed_order x) free)) (
          Chain-frame s2 all_freed f2 (freed_order y ++ (freed_order x ++ free))
            (λ k lt. SameNode.right_child (
              pushed k (
                ground (
                  arith,
                  u k,
                  times-append k (freed_order y) (freed_order x ++ free),
                  times-append k (freed_order x) free,
                  times-freed_order k x,
                  times-freed_order k y,
                ))))
            chain2)),
  )

  freed-SameNode : (k : ℕ) → count k (branch i c q x y) ≡ 0 → SameNode tree.store all_freed k
  freed-SameNode k n =
      SameNode-trans (tree.store) s1 all_freed k (same1 k (omega arith))
        (SameNode-trans s1 s2 all_freed k (same2 k (omega arith)) (pushed k (ground arith)))

node_free_all-Frees :
    (fuel : ℕ) (tree : RbTree) (p : NodePointer) (t : Tree) (free : List ℕ)
    → size t < fuel
    → rb_tree_valid tree ≡ true
    → Repr tree.store p t
    → Chain tree.store tree.free_list free
    → ((k : ℕ) → count k t + times k free ≤ 1)
    → Frees tree t free (node_free_all fuel tree p)
node_free_all-Frees zero tree p t free lt v h ch u = absurd (omega arith)
node_free_all-Frees (suc fuel) tree p leaf free lt v h ch u = record {
  store = tree.store;
  free_list = tree.free_list;
  returns = unfold node_free_all in rw (h, v) refl;
  chain = ch;
  same = λ k e. same_node (tree.store) k;
}
node_free_all-Frees (suc fuel) tree p (branch i c q x y) free lt v (e, e1, e2, hx, hy) ch u =
    let fx : Frees tree x free (node_free_all fuel tree (tree.store.children left i)) =
      node_free_all-Frees fuel tree (tree.store.children left i) x free (omega arith) v hx ch
        (λ k. omega (arith, u k)) in
    let hy1 : Repr fx.store (fx.store.children right i) y =
      Repr-kept (tree.store) (fx.store) (tree.store.children right i) (fx.store.children right i) y
        (SameNode.right_child (fx.same i (ground (arith, u i))))
        (λ k lt. fx.same k (omega (arith, u k))) hy in
    let fy : Frees (record tree { store = fx.store; free_list = fx.free_list }) y
        (freed_order x ++ free)
        (node_free_all fuel (record tree { store = fx.store; free_list = fx.free_list })
          (fx.store.children right i)) =
      node_free_all-Frees fuel (record tree { store = fx.store; free_list = fx.free_list })
        (fx.store.children right i) y (freed_order x ++ free) (omega arith) v hy1 (fx.chain)
        (λ k. omega (arith, u k, times-append k (freed_order x) free, times-freed_order k x)) in
    record {
      store =
          all_freed tree i c q x y free (fx.store) (fy.store) (fy.free_list) u (fx.same) (fy.same)
            (fy.chain);
      free_list = node i;
      returns =
          subst
            (λ p.
              node_free_all (suc fuel) tree p
              ≡ ok (push_free (record tree { store = fy.store; free_list = fy.free_list }) i))
            (sym e)
            (free-step fuel tree (record tree { store = fy.store; free_list = fy.free_list }) i
              (fx.store) (fx.free_list) v
              (Repr-valid (tree.store) (tree.store.children left i) x hx) (fx.returns)
              (Repr-valid (fx.store) (fx.store.children right i) y hy1) (fy.returns));
      chain =
          freed-Chain tree i c q x y free (fx.store) (fy.store) (fy.free_list) u (fx.same) (fy.same)
            (fy.chain);
      same =
          freed-SameNode tree i c q x y free (fx.store) (fy.store) (fy.free_list) u (fx.same)
            (fy.same) (fy.chain);
    }

clear-Stored :
    (tree : RbTree) (t : Tree) (free : List ℕ)
    → Holds tree t free
    → (after : RbTree) × (rb_clear tree ≡ ok after) × Stored after []
clear-Stored tree t free h =
    let v : rb_tree_valid tree ≡ true = Holds-valid tree t free h in
    let f : Frees tree t free (node_free_all (suc (made tree)) tree (tree.root)) =
      node_free_all-Frees (suc (made tree)) tree (tree.root) t free (omega (arith, h.total)) v
        (h.repr) (h.chain) (λ k. omega (arith, h.distinct k)) in
    let c : (k : ℕ) → times k (freed_order t ++ free) ≡ count k t + times k free =
      λ k. omega (arith, times-append k (freed_order t) free, times-freed_order k t) in
    (
      record tree { store = empty_list (f.store); free_list = f.free_list; root = nil },
      unfold rb_clear in rw (v, f.returns) refl,
      record {
        t = leaf;
        free = freed_order t ++ free;
        holds = record {
          repr = refl;
          segment = (refl, refl);
          chain =
              Chain-frame (f.store) (empty_list (f.store)) (f.free_list) (freed_order t ++ free)
                (λ k lt. refl) (f.chain);
          distinct = λ k. omega (arith, c k, h.distinct k);
          total = omega (arith, h.total, length-append (freed_order t) free, length-freed_order t);
          below = λ k lt. h.below k (omega (arith, c k));
          paged = h.paged;
          room = h.room;
          ordered = omega arith;
          balanced = (refl, (0, refl));
        };
        same = refl;
      },
    )

-- On a tree that stores a list of ranges, rb_clear returns with a tree that stores no range, and
-- whose nodes are all free for use again.
pub rb_clear-Stored :
    (tree : RbTree) (rs : List TestRange)
    → Stored tree rs
    → (after : RbTree) × (rb_clear tree ≡ ok after) × Stored after []
rb_clear-Stored tree rs s = clear-Stored tree (s.t) (s.free) (s.holds)
