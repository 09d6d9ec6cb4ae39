-- ===== src/PhysicalAllocator.antt =====
-- kernel/src/system/system_physical_allocator.c: the allocator of one range of physical pages, with
-- a bitmap that says which page is used and a stack of the free pages.
--
-- Pages, sizes and counts are kept in `Int` by the code and are never negative; they are ℕ here.
-- `stack_top` goes down to -1 and is an integer. The `next` pointers belong to the page zones.
pub mod Bitmap
pub mod Pool
pub mod Valid
pub mod Alloc
pub mod Free
pub mod Init
pub mod Refine
pub mod Exhaust
pub mod Overflow
mod Tests
use drastic.Base.{
  ℕ, zero, suc, ◌+◌, ◌-◌, ◌*◌, ◌/◌, ◌%◌, ◌^◌, ◌≤◌, ◌<◌, bit_and, bit_or, min, ◌≡◌, Bool, not, ◌&&◌,
  ◌||◌, Option, none, some, List, replicate, ltb, leb, ◌==◌, if◌then◌else◌, length, Result, ok,
  kassert, ◌>>=◌, ◌>>◌, read, write, arith,
}
use drastic.Base.Int.{ℤ, pos, negsuc, inc, dec, is_negative}
use drastic.Base.Bits.{complement}

abbrev pub u32_max : ℕ
u32_max = 2 ^ 32 - 1

-- `SYSTEM_PAGE_SIZE`
abbrev pub page_size : ℕ
page_size = 4096

abbrev pub u32 : ℕ → ℕ
u32 n = n % 2 ^ 32

abbrev pub u64 : ℕ → ℕ
u64 n = n % 2 ^ 64

pub record PhysicalAllocator : Type 0 where
  pub size : ℕ
  pub stack_top : ℤ
  pub pages_bitmap : List ℕ
  pub pages_stack : List ℕ
  pub address_base : ℕ

-- `System_Pa_Page_Index`
pub record PageIndex : Type 0 where
  pub bitmap_index : ℕ
  pub bit_index : ℕ

pub calculate_page_index : PhysicalAllocator → ℕ → Result PageIndex
calculate_page_index pa page = do
  kassert (ltb page pa.size)
  ok (record { bitmap_index = page / 64; bit_index = page % 64 })

-- `System_Pa_Size_Specification`, in bytes
pub record SizeSpecification : Type 0 where
  pub stack_size : ℕ
  pub bitmap_size : ℕ

unfoldable pub calculate_size_specification : ℕ → Result SizeSpecification
calculate_size_specification page_count = do
  kassert (leb page_count u32_max)
  ok (record {
    stack_size = page_count * 4;
    bitmap_size = (page_count + (8 * 8 - 1)) / (8 * 8) * 8;
  })

-- `size_of(System_Physical_Allocator)`: eight fields of eight bytes
abbrev pub size_of_allocator : ℕ
size_of_allocator = 64

unfoldable pub calculate_required_size : ℕ → Result ℕ
unfolding calculate_size_specification
calculate_required_size page_count = do
  kassert (leb page_count u32_max)
  spec ← calculate_size_specification page_count
  ok (size_of_allocator + spec.stack_size + spec.bitmap_size)

unfoldable pub set_used : PhysicalAllocator → ℕ → Result PhysicalAllocator
unfolding calculate_page_index
set_used pa page_index = do
  page ← calculate_page_index pa page_index
  word ← read pa.pages_bitmap page.bitmap_index
  pages_bitmap ← write pa.pages_bitmap page.bitmap_index (bit_or word (2 ^ page.bit_index))
  ok (record pa { pages_bitmap = pages_bitmap })

-- The loop that pushes the pages from `i` on, with the rounds left.
unfoldable pub push_pages : ℕ → ℕ → ℕ → List ℕ → Result (List ℕ)
push_pages zero i stack_index pages_stack = ok pages_stack
push_pages (suc left) i stack_index pages_stack =
    write pages_stack stack_index i >>= push_pages left (i + 1) (stack_index + 1)

-- The loop that marks the pages from `i` on as used, with the rounds left.
unfoldable pub mark_used : ℕ → ℕ → PhysicalAllocator → Result PhysicalAllocator
mark_used zero i pa = ok pa
mark_used (suc left) i pa = set_used pa i >>= mark_used left (i + 1)

-- `stack_index - 1`
abbrev pub top_of : ℕ → ℤ
top_of zero = negsuc 0
top_of (suc k) = pos k

-- The metadata pages, zeroed at first, hold the structure, then the bitmap, then the stack. An array has
-- only the entries that lie in these pages; the loops stop at one that does not.
unfoldable pub init : ℕ → ℕ → ℕ → Result PhysicalAllocator
unfolding calculate_size_specification
init address_base metadata_pages page_count = do
  kassert (leb page_count u32_max)
  kassert (ltb 0 page_count)
  kassert (ltb 0 metadata_pages)
  spec ← calculate_size_specification page_count
  let rounds = u32 page_count - u32 metadata_pages
  let behind = metadata_pages * page_size - size_of_allocator
  let zeroed = replicate (min spec.stack_size (behind - spec.bitmap_size) / 4) 0
  pages_stack ← push_pages rounds (u32 metadata_pages) 0 zeroed
  let pa : PhysicalAllocator = record {
    size = page_count;
    stack_top = top_of rounds;
    pages_bitmap = replicate (min spec.bitmap_size behind / 8) 0;
    pages_stack = pages_stack;
    address_base = address_base;
  }
  mark_used metadata_pages 0 pa

-- `address_base <= address && address < address_base + size * SYSTEM_PAGE_SIZE`
pub contains : PhysicalAllocator → ℕ → Bool
contains pa address =
    leb pa.address_base address && ltb address (u64 (pa.address_base + u64 (pa.size * page_size)))

-- `pages_stack[stack_top]`; a negative index lies outside the array.
abbrev pub read_top : List ℕ → ℤ → Result ℕ
read_top pages_stack (pos i) = read pages_stack i
read_top pages_stack (negsuc i) = read {A = ℕ} pages_stack (length pages_stack)

abbrev pub write_top : List ℕ → ℤ → ℕ → Result (List ℕ)
write_top pages_stack (pos i) page = write pages_stack i page
write_top pages_stack (negsuc i) page = write pages_stack (length pages_stack) page

-- `none` is the result with `*ok` false. The product is computed in 32 bits, as `U32 * int`.
unfoldable pub alloc : PhysicalAllocator → Result (Option ℕ × PhysicalAllocator)
unfolding contains
alloc pa = if is_negative pa.stack_top || pa.size == 0 then ok (none, pa) else do
  offset ← read_top pa.pages_stack pa.stack_top
  marked ← set_used pa offset
  let popped = record marked { stack_top = dec marked.stack_top }
  let address = u64 (u32 (offset * page_size) + popped.address_base)
  kassert (contains popped address)
  ok (some address, popped)

-- `(Int)(address - address_base) / SYSTEM_PAGE_SIZE`
abbrev pub page_of : PhysicalAllocator → ℕ → ℕ
page_of pa address = u64 (address + 2 ^ 64 - pa.address_base) / page_size

pub is_free : PhysicalAllocator → ℕ → Result Bool
unfolding contains calculate_page_index
is_free pa address = do
  kassert (contains pa address)
  page ← calculate_page_index pa (page_of pa address)
  word ← read pa.pages_bitmap page.bitmap_index
  ok (bit_and word (2 ^ page.bit_index) == 0)

-- `stack_top + 1 < size`
abbrev pub has_room : ℤ → ℕ → Bool
has_room (pos n) size = ltb (n + 1) size
has_room (negsuc n) size = ltb 0 (size + n)

-- `stack_top >= -1`
abbrev pub at_least_empty : ℤ → Bool
at_least_empty (pos n) = leb 0 n
at_least_empty (negsuc n) = n == 0

pub free : PhysicalAllocator → ℕ → Result PhysicalAllocator
unfolding is_free calculate_page_index
free pa address = do
  unused ← is_free pa address
  kassert (not unused)
  kassert (has_room pa.stack_top pa.size)
  kassert (at_least_empty pa.stack_top)
  let page_index = page_of pa address
  let top = inc pa.stack_top
  pages_stack ← write_top pa.pages_stack top (u32 page_index)
  page ← calculate_page_index pa page_index
  word ← read pa.pages_bitmap page.bitmap_index
  pages_bitmap ←
      write pa.pages_bitmap page.bitmap_index (bit_and word (complement 64 (2 ^ page.bit_index)))
  ok (record pa { stack_top = top; pages_bitmap = pages_bitmap; pages_stack = pages_stack })
