-- ===== src/PhysicalAllocator/Exhaust.antt =====
-- Allocating until nothing is left: every page once, in descending order, then failure.
use drastic.Base.{
  ℕ, zero, suc, ◌+◌, ◌-◌, ◌*◌, ◌^◌, ◌≤◌, ◌<◌, ◌≡◌, refl, ap, List, [], ◌∷◌, ◌++◌, map, none, some,
  length, replicate, ok, arith, ◌∙◌,
}
use drastic.PhysicalAllocator.{page_size}
use drastic.PhysicalAllocator.Init.{page_range, bytes_needed, Initialises, init-Initialises}
use drastic.PhysicalAllocator.Refine.{
  Call, alloc_page, Reply, allocated, run, run_pool, run_refines, page_address,
}

-- The replies that hand out `pages`, and then a failure.
abbrev pub hands_out : ℕ → List ℕ → List Reply
hands_out base pages =
    map (λ p. allocated (some (page_address base p))) pages ++ allocated none ∷ []

abbrev pub alloc_times : ℕ → List Call
alloc_times n = replicate n alloc_page ++ alloc_page ∷ []

run_pool-alloc_times :
    (base size : ℕ) (pages : List ℕ)
    → run_pool base size pages (alloc_times (length pages)) ≡ ok (hands_out base pages)
unfolding run_pool
run_pool-alloc_times base size [] = refl
run_pool-alloc_times base size (p ∷ pages) = rw (run_pool-alloc_times base size pages)

length-page_range : (m k : ℕ) → length (page_range m k) ≡ k
length-page_range m zero = refl
length-page_range m (suc k) = ap suc (length-page_range m k)

hands_out_all :
    (base m n : ℕ) (fresh : Initialises base m n)
    → n ≤ 2 ^ 20
    → run fresh.start (alloc_times (n - m)) ≡ ok (hands_out base (page_range m (n - m)))
hands_out_all base m n fresh small =
    run_refines (alloc_times (n - m)) fresh.start fresh.valid (rw fresh.same_size small)
    ∙ ground (
      arith,
      fresh.same_size,
      fresh.same_base,
      fresh.free_pages,
      length-page_range m (n - m),
      run_pool-alloc_times base n (page_range m (n - m)),
    )

-- A fresh allocator of n pages, at most 2^20 and ending below 2^64, with m pages of metadata, at
-- least one, at most n and enough for the structure, the stack and the bitmap, answers n - m
-- allocations with the addresses of the pages n - 1 down to m, each once, and the next one with
-- failure.
pub init_then_exhaust :
    (base m n : ℕ)
    → 0 < m
    → m ≤ n
    → n ≤ 2 ^ 20
    → base + n * page_size < 2 ^ 64
    → bytes_needed n ≤ m * page_size
    → (fresh : Initialises base m n) × (run fresh.start (alloc_times (n - m))
        ≡ ok (hands_out base (page_range m (n - m))))
init_then_exhaust base m n h1 h2 h3 h4 h5 =
    let fresh = init-Initialises base m n h1 h2 (omega arith) h4 h5 in
    (fresh, hands_out_all base m n fresh h3)
