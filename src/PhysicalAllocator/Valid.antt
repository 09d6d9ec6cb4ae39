-- ===== src/PhysicalAllocator/Valid.antt =====
-- The representation invariant of the allocator, and the pool of free pages that it stands for.
use drastic.Base.{
  ℕ, zero, suc, ◌+◌, ◌*◌, ◌/◌, ◌%◌, ◌^◌, ◌≤◌, ◌<◌, bit_or, ◌≡◌, refl, ap, ap₂, List, [], ◌∷◌,
  if◌then◌else◌, length, get_or, set, get_or-set_ne, ok, read-eq-ok, write-eq-ok, arith,
}
use drastic.Base.Int.{ℤ, pos, negsuc}
use drastic.PhysicalAllocator.{PhysicalAllocator, u32_max, page_size, top_of, set_used}
use drastic.PhysicalAllocator.Bitmap.{mark}
use drastic.PhysicalAllocator.Pool.{has, Distinct, Below}

-- How many pages the stack holds: `stack_top + 1`.
abbrev pub depth : ℤ → ℕ
depth (pos n) = suc n
depth (negsuc n) = 0

-- The first `k` entries of the stack, the topmost first.
abbrev pub top_pages : ℕ → List ℕ → List ℕ
top_pages zero pages_stack = []
top_pages (suc k) pages_stack = get_or pages_stack k 0 ∷ top_pages k pages_stack

abbrev pub pool : PhysicalAllocator → List ℕ
pool pa = top_pages (depth pa.stack_top) pa.pages_stack

pub record IsValid (pa : PhysicalAllocator) : Type 0 where
  pub size_pos : 0 < pa.size
  pub size_max : pa.size ≤ u32_max
  pub fits : pa.address_base + pa.size * page_size < 2 ^ 64
  pub bitmap_length : length pa.pages_bitmap ≡ (pa.size + 63) / 64
  pub stack_length : length pa.pages_stack ≡ pa.size
  pub top_valid : pa.stack_top ≡ top_of (depth pa.stack_top)
  pub distinct : Distinct (pool pa)
  pub below : Below pa.size (pool pa)
  pub marks : (p : ℕ) → p < pa.size → mark pa.pages_bitmap p ≡ (if has p (pool pa) then 0 else 1)

pub depth-top_of : (k : ℕ) → depth (top_of k) ≡ k
depth-top_of zero = refl
depth-top_of (suc k) = refl

pub length-top_pages : (k : ℕ) (pages_stack : List ℕ) → length (top_pages k pages_stack) ≡ k
length-top_pages zero pages_stack = refl
length-top_pages (suc k) pages_stack = ap suc (length-top_pages k pages_stack)

-- A write at or above the top leaves the pool as it is.
pub top_pages-set :
    (k i v : ℕ) (pages_stack : List ℕ)
    → k ≤ i
    → top_pages k (set pages_stack i v) ≡ top_pages k pages_stack
top_pages-set zero i v pages_stack h = refl
top_pages-set (suc k) i v pages_stack h =
    ap₂ ◌∷◌ (get_or-set_ne pages_stack i k v 0 (omega arith))
      (top_pages-set k i v pages_stack (omega arith))

-- The bitmap after a page is marked as used.
abbrev pub marked : List ℕ → ℕ → List ℕ
marked bitmap p = set bitmap (p / 64) (bit_or (get_or bitmap (p / 64) 0) (2 ^ (p % 64)))

pub set_used-eq-ok :
    (pa : PhysicalAllocator) (p : ℕ)
    → p < pa.size
    → p / 64 < length pa.pages_bitmap
    → set_used pa p ≡ ok (record pa { pages_bitmap = marked pa.pages_bitmap p })
unfolding set_used
set_used-eq-ok pa p h b = ground (
  arith,
  read-eq-ok pa.pages_bitmap (p / 64) 0 b,
  write-eq-ok pa.pages_bitmap (p / 64) (bit_or (get_or pa.pages_bitmap (p / 64) 0) (2 ^ (p % 64)))
      b,
)
