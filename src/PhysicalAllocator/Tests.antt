-- ===== src/PhysicalAllocator/Tests.antt =====
-- The allocator on small ranges.
use drastic.Base.{
  ℕ, zero, suc, ◌+◌, ◌^◌, ◌<◌, ◌≡◌, refl, true, false, [], ◌∷◌, some, ok, stop, assertion_failed,
  out_of_bounds, arith, if◌then◌else◌, inr,
}
use drastic.Base.Int.{pos}
use drastic.PhysicalAllocator.{
  PhysicalAllocator, init, alloc, free, is_free, calculate_required_size, push_pages, mark_used,
  set_used,
}
use drastic.PhysicalAllocator.Pool.{has}
use drastic.PhysicalAllocator.Bitmap.{mark}
use drastic.PhysicalAllocator.Valid.{IsValid, pool}
use drastic.PhysicalAllocator.Alloc.{Allocates, alloc-Allocates}
use drastic.PhysicalAllocator.Free.{Frees, free-Frees, free_outside, is_free-has}
use drastic.PhysicalAllocator.Init.{Initialises, init-Initialises}
use drastic.PhysicalAllocator.Refine.{
  alloc_page, free_page, allocated, freed, run, run_pool, run_refines,
}
use drastic.PhysicalAllocator.Exhaust.{alloc_times, hands_out, init_then_exhaust}
use drastic.PhysicalAllocator.Overflow.{alloc_hands_out_metadata}

-- Four pages from 64 KiB on; the first holds the metadata.
abbrev four_pages : PhysicalAllocator
four_pages = record {
  size = 4;
  stack_top = pos 2;
  pages_bitmap = 1 ∷ [];
  pages_stack = 1 ∷ 2 ∷ 3 ∷ 0 ∷ [];
  address_base = 0x10000;
}

-- The same range after one page was handed out.
abbrev three_left : PhysicalAllocator
three_left = record four_pages { stack_top = pos 1; pages_bitmap = 9 ∷ [] }

four_pages-init : init 0x10000 1 4 ≡ ok four_pages
unfolding init push_pages mark_used set_used
four_pages-init = refl

four_pages-alloc : alloc four_pages ≡ ok (some 0x13000, three_left)
unfolding alloc set_used
four_pages-alloc = refl

three_left-free : free three_left 0x13000 ≡ ok four_pages
unfolding free
three_left-free = refl

double_free : free four_pages 0x13000 ≡ stop assertion_failed
unfolding free
double_free = refl

required_size : calculate_required_size 100 ≡ ok (64 + 400 + 16)
unfolding calculate_required_size
required_size = refl

four_pages-marks : (p : ℕ) → p < 4 → mark (1 ∷ []) p ≡ (if has p (pool four_pages) then 0 else 1)
four_pages-marks zero h = refl
four_pages-marks (suc zero) h = refl
four_pages-marks (suc (suc zero)) h = refl
four_pages-marks (suc (suc (suc zero))) h = refl
four_pages-marks (suc (suc (suc (suc p)))) h = absurd (omega arith)

four_pages-IsValid : IsValid four_pages
four_pages-IsValid = record {
  size_pos = omega arith;
  size_max = omega arith;
  fits = omega arith;
  bitmap_length = refl;
  stack_length = refl;
  top_valid = refl;
  distinct = (refl, (refl, (refl, tt)));
  below = omega arith;
  marks = four_pages-marks;
}

alloc-Allocates_example : Allocates four_pages (3 ∷ 2 ∷ 1 ∷ [])
alloc-Allocates_example = alloc-Allocates four_pages four_pages-IsValid

is_free-has_example : is_free four_pages 0x12345 ≡ ok true
is_free-has_example =
    is_free-has four_pages four_pages-IsValid 2 0x12345 (omega arith) (omega arith)

-- The metadata page is in use, and the allocator would take it back.
free-Frees_example : Frees four_pages 0 0x10000 false
free-Frees_example = free-Frees four_pages 0 0x10000 four_pages-IsValid (omega arith) (omega arith)

free_outside_example : free four_pages 0x14000 ≡ stop assertion_failed
free_outside_example = free_outside four_pages 0x14000 four_pages-IsValid (inr (omega arith))

init-Initialises_example : Initialises 0x10000 1 4
init-Initialises_example =
    init-Initialises 0x10000 1 4 (omega arith) (omega arith) (omega arith) (omega arith)
      (omega arith)

run_refines_example :
    run four_pages (alloc_page ∷ alloc_page ∷ free_page 0x13000 ∷ alloc_page ∷ [])
    ≡ ok (
        allocated (some 0x13000) ∷ allocated (some 0x12000) ∷ freed ∷ allocated (some 0x13000) ∷ [])
unfolding run_pool
run_refines_example =
    run_refines (alloc_page ∷ alloc_page ∷ free_page 0x13000 ∷ alloc_page ∷ []) four_pages
      four_pages-IsValid (omega arith)

-- One page has no room for the metadata of 1400 pages: the stack would reach into the free pages.
metadata_too_short : init 0x10000 1 1400 ≡ stop out_of_bounds
unfolding init push_pages mark_used set_used
metadata_too_short = refl

init_then_exhaust_example :
    (fresh : Initialises 0x10000 1 4) × (run fresh.start (alloc_times 3)
      ≡ ok (hands_out 0x10000 (3 ∷ 2 ∷ 1 ∷ [])))
init_then_exhaust_example =
    init_then_exhaust 0x10000 1 4 (omega arith) (omega arith) (omega arith) (omega arith)
      (omega arith)

-- 4 GiB and two pages: the first call hands out page 1, which holds metadata.
alloc_hands_out_metadata_example :
    (start after : PhysicalAllocator) × (init 0x100000 1057 (2 ^ 20 + 2) ≡ ok start)
    × (alloc start ≡ ok (some 0x101000, after))
alloc_hands_out_metadata_example =
    alloc_hands_out_metadata 0x100000 1057 1 (omega arith) (omega arith) (omega arith) (omega arith)
      (omega arith)
