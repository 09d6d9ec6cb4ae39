-- ===== src/RbTree/Search/Depth.antt =====
-- How many nodes a search passes in a red-black tree.
use drastic.Base.{
  ℕ, suc, ◌+◌, ◌*◌, ◌^◌, ◌≤◌, ◌<◌, ◌≡◌, refl, ◌∙◌, ap, false, List, length, none, arith,
}
use mathlib.Core.Path.{subst}
use native.Mathlib.Decide.{dec_le}
use native.Mathlib.Nat.{pow-le-pow_right}
use drastic.RbTree.{TestRange, uintptr_max, black, red, nil}
use drastic.RbTree.Arena.{RbTree}
use drastic.RbTree.Search.{prev_from, next_from}
use drastic.RbTree.Model.{Tree, leaf, branch, ranges, size, is_red}
use drastic.RbTree.Model.InOrder.{size-in_order}
use drastic.RbTree.Model.Balance.{Balanced}
use drastic.RbTree.Search.Neighbours.{prev_from-Finds, next_from-Finds}
use drastic.RbTree.Search.Scan.{depth, last_before, first_behind, or_else-none, Finds}
use drastic.RbTree.Invariant.{Holds}
use drastic.RbTree.Invariant.Insert.{Stored}

-- With `n` black nodes on every way there are at least 2 ^ n - 1 nodes.
size-power : (t : Tree) (n : ℕ) → Balanced t n → 2 ^ n ≤ suc (size t)
size-power leaf n h = rw h (omega arith)
size-power (branch i red q x y) n (ex, ey, hx, hy) = omega (arith, size-power x n hx)
size-power (branch i black q x y) n (m, e, hx, hy) =
    rw e (omega (arith, power-suc m, size-power x m hx, size-power y m hy))
  where
    power-suc : (m : ℕ) → 2 ^ suc m ≡ 2 * 2 ^ m
    power-suc m = omega arith

-- And no way is more than twice as long, one more below a red root.
depth-black :
    (t : Tree) (n : ℕ) → Balanced t n → (depth t ≤ 2 * n + 1) × (is_red t ≡ false → depth t ≤ 2 * n)
depth-black leaf n h = (omega arith, λ e. omega arith)
depth-black (branch i red q x y) n (ex, ey, hx, hy) =
    (omega (arith, (depth-black x n hx).1 ex, (depth-black y n hy).1 ey), λ e. absurd (cc))
depth-black (branch i black q x y) n (m, e, hx, hy) =
    let le : depth (branch i black q x y) ≤ 2 * n =
      omega (arith, (depth-black x m hx).0, (depth-black y m hy).0) in
    (omega (arith, le), λ f. le)

power-le : (n k : ℕ) → 2 ^ n < 2 ^ suc k → n ≤ k
power-le n k lt = elim (dec_le n k) [
  | yes le ↦ le
  | no gt ↦
      let le : 2 ^ suc k ≤ 2 ^ n =
        pow-le-pow_right {n = 2} (omega arith) {i = suc k} {j = n} (omega arith) in
      absurd (omega arith)
]

module _ (tree : RbTree) (rs : List TestRange) (s : Stored tree rs) (k : ℕ)
    (few : suc (length rs) < 2 ^ suc k) where
  depth-few : depth (s.t) ≤ 2 * k
  depth-few =
      let (e, (n, b)) = Holds.balanced (s.holds) in
      let le : n ≤ k =
        power-le n k (
          omega
            (arith, size-power (s.t) n b, size-in_order (λ i q. q) (s.t), ap length (s.same))) in
      omega (arith, (depth-black (s.t) n b).1 e)

  root-Finds :
      (start : ℕ)
      → Finds tree.store
          (prev_from (suc (2 * k)) (tree.store) (tree.root) nil start)
          (last_before start rs)
        × Finds tree.store
            (next_from (suc (2 * k)) (tree.store) (tree.root) nil start)
            (first_behind start rs)
  root-Finds start = (
    subst (Finds (tree.store) (prev_from (suc (2 * k)) (tree.store) (tree.root) nil start))
        (or_else-none (last_before start (ranges (s.t))) ∙ ap (last_before start) (s.same))
        (prev_from-Finds (suc (2 * k)) (tree.store) (tree.root) nil none start (s.t) 0 uintptr_max
          (omega (arith, depth-few)) (Holds.repr (s.holds)) (Holds.ordered (s.holds)) refl),
    subst (Finds (tree.store) (next_from (suc (2 * k)) (tree.store) (tree.root) nil start))
        (or_else-none (first_behind start (ranges (s.t))) ∙ ap (first_behind start) (s.same))
        (next_from-Finds (suc (2 * k)) (tree.store) (tree.root) nil none start (s.t) 0 uintptr_max
          (omega (arith, depth-few)) (Holds.repr (s.holds)) (Holds.ordered (s.holds)) refl),
  )

-- In a tree that stores less than 2 ^ (k + 1) - 1 ranges, the loops of rb_find_prev_by_start and
-- rb_find_next_by_start find the right node, or nil, after at most 2 * k nodes.
pub search_steps :
    (tree : RbTree) (rs : List TestRange) (k start : ℕ)
    → Stored tree rs
    → suc (length rs) < 2 ^ suc k
    → Finds tree.store
        (prev_from (suc (2 * k)) (tree.store) (tree.root) nil start)
        (last_before start rs)
      × Finds tree.store
          (next_from (suc (2 * k)) (tree.store) (tree.root) nil start)
          (first_behind start rs)
search_steps tree rs k start s few = root-Finds tree rs s k few start
