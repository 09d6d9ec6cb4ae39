-- ===== src/PhysicalAllocator/Overflow.antt =====
-- `offset * SYSTEM_PAGE_SIZE` is a product of a `U32` and an `int`, so it is computed in 32 bits:
-- what happens in a range of more than 4 GiB.
use mathlib.Core.Path.{subst}
use drastic.Base.{ℕ, suc, ◌+◌, ◌-◌, ◌*◌, ◌^◌, ◌≤◌, ◌<◌, ◌≡◌, ap, ◌∷◌, some, ok, arith, ◌∙◌}
use drastic.PhysicalAllocator.{PhysicalAllocator, page_size, alloc, init}
use drastic.PhysicalAllocator.Alloc.{Allocates, alloc-Allocates, handed_address}
use drastic.PhysicalAllocator.Init.{page_range, bytes_needed, Initialises, init-Initialises}

first_address :
    (base m j k : ℕ) (fresh : Initialises base m (2 ^ 20 + 1 + j))
    → 2 ^ 20 + 1 + j - m ≡ suc k
    → j < 2 ^ 20
    → (after : PhysicalAllocator) × (alloc fresh.start
        ≡ ok (some (handed_address fresh.start (m + k)), after))
      × (handed_address fresh.start (m + k) ≡ base + j * page_size)
first_address base m j k fresh e small =
    let first : Allocates fresh.start ((m + k) ∷ page_range m k) =
      subst (Allocates fresh.start) (fresh.free_pages ∙ ap (page_range m) e)
        (alloc-Allocates fresh.start fresh.valid) in
    (first.0, first.1, omega (arith, fresh.same_base))

-- In a fresh range of 2^20 + 1 + j pages that ends below 2^64, with j below both 2^20 and the
-- number of metadata pages, which are at most 2^20 + j and enough for the structure, the stack and
-- the bitmap, the first allocation hands out the address of page j, which holds metadata.
pub alloc_hands_out_metadata :
    (base m j : ℕ)
    → j < m
    → j < 2 ^ 20
    → m ≤ 2 ^ 20 + j
    → base + (2 ^ 20 + 1 + j) * page_size < 2 ^ 64
    → bytes_needed (2 ^ 20 + 1 + j) ≤ m * page_size
    → (start after : PhysicalAllocator) × (init base m (2 ^ 20 + 1 + j) ≡ ok start)
      × (alloc start ≡ ok (some (base + j * page_size), after))
alloc_hands_out_metadata base m j lt small le fits room =
    let fresh =
      init-Initialises base m (2 ^ 20 + 1 + j) (omega arith) (omega arith) (omega arith) fits
        room in
    let (after, e, address) = first_address base m j (2 ^ 20 + j - m) fresh (omega arith) small in
    (fresh.start, after, fresh.returns, e ∙ ap (λ a. ok (some a, after)) address)
