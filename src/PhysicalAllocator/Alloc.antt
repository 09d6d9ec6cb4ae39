-- ===== src/PhysicalAllocator/Alloc.antt =====
-- `system_pa_alloc`: what it hands out, and when.
use mathlib.Core.Path.{subst}
use native.Mathlib.Decide.{ℕ_discrete}
use drastic.Base.{
  ℕ, zero, suc, ◌+◌, ◌*◌, ◌/◌, ◌%◌, ◌^◌, ◌≤◌, ◌<◌, bit_or, ◌≡◌, refl, ap, List, [], ◌∷◌,
  if◌then◌else◌, length, get_or, ok, read-eq-ok, arith, length-set, some, none, sym,
}
use drastic.Base.Int.{ℤ, pos, negsuc, dec}
use drastic.PhysicalAllocator.{PhysicalAllocator, u32, page_size, top_of, alloc}
use drastic.PhysicalAllocator.Bitmap.{mark, mark-set_bit}
use drastic.PhysicalAllocator.Pool.{has, Distinct, Below, length-le_of_Below}
use drastic.PhysicalAllocator.Valid.{
  IsValid, depth, pool, top_pages, marked, set_used-eq-ok, depth-top_of, length-top_pages,
}

-- The address handed out for page `p`: the product is cut to 32 bits.
abbrev pub handed_address : PhysicalAllocator → ℕ → ℕ
handed_address pa p = pa.address_base + u32 (p * page_size)

-- The allocator after page `p` was taken off the stack, with `k` pages left.
abbrev pub popped : PhysicalAllocator → ℕ → ℕ → PhysicalAllocator
popped pa p k = record pa { pages_bitmap = marked pa.pages_bitmap p; stack_top = top_of k }

dec-pos : (k : ℕ) → dec (pos k) ≡ top_of k
dec-pos zero = refl
dec-pos (suc k) = refl

module _ (pa : PhysicalAllocator) (k : ℕ) (v : IsValid pa) (top : pa.stack_top ≡ pos k) where
  abbrev next_page : ℕ
  next_page = get_or pa.pages_stack k 0

  abbrev rest : List ℕ
  rest = top_pages k pa.pages_stack

  -- The invariant at the topmost page.
  pool-top : pool pa ≡ next_page ∷ rest
  pool-top = ap (λ t. top_pages (depth t) pa.pages_stack) top

  Distinct-top : Distinct (next_page ∷ rest)
  Distinct-top = subst Distinct pool-top v.distinct

  Below-top : Below pa.size (next_page ∷ rest)
  Below-top = subst (Below pa.size) pool-top v.below

  depth-le : suc k ≤ pa.size
  depth-le = omega (
    arith,
    length-top_pages k pa.pages_stack,
    length-le_of_Below pa.size (next_page ∷ rest) Distinct-top Below-top,
  )

  in_bitmap : next_page / 64 < length pa.pages_bitmap
  in_bitmap = omega (arith, Below-top.0, v.bitmap_length)

  alloc-pops : alloc pa ≡ ok (some (handed_address pa next_page), popped pa next_page k)
  unfolding alloc
  alloc-pops = ground (
    arith,
    v.size_pos,
    v.fits,
    v.stack_length,
    Below-top.0,
    depth-le,
    dec-pos k,
    read-eq-ok pa.pages_stack k 0,
    set_used-eq-ok pa next_page Below-top.0 in_bitmap,
  )

  marks_top :
      (p : ℕ)
      → p < pa.size
      → mark (marked pa.pages_bitmap next_page) p ≡ (if has p rest then 0 else 1)
  marks_top p h =
      let before : mark pa.pages_bitmap p ≡ (if has p (next_page ∷ rest) then 0 else 1) =
        subst (λ pages. mark pa.pages_bitmap p ≡ (if has p pages then 0 else 1)) pool-top
          (v.marks p h) in
      elim (ℕ_discrete next_page p) [
        | yes e ↦ ground (
          arith,
          mark-set_bit pa.pages_bitmap next_page p in_bitmap,
          Distinct-top.0,
          ap (λ q. has q rest) e,
        )
        | no e ↦ ground (arith, mark-set_bit pa.pages_bitmap next_page p in_bitmap, before)
      ]

  popped-IsValid : IsValid (popped pa next_page k)
  popped-IsValid = record {
    size_pos = v.size_pos;
    size_max = v.size_max;
    fits = v.fits;
    bitmap_length = omega (
      arith,
      v.bitmap_length,
      length-set {0} pa.pages_bitmap (next_page / 64)
          (bit_or (get_or pa.pages_bitmap (next_page / 64) 0) (2 ^ (next_page % 64))),
    );
    stack_length = v.stack_length;
    top_valid = ap top_of (sym (depth-top_of k));
    distinct = rw depth-top_of Distinct-top.1;
    below = rw depth-top_of Below-top.1;
    marks = λ p h. rw depth-top_of (marks_top p h);
  }

-- The range is the same.
pub record SameRange (before after : PhysicalAllocator) : Type 0 where
  pub same_size : after.size ≡ before.size
  pub same_base : after.address_base ≡ before.address_base

-- `system_pa_alloc` on an allocator whose free pages are `pages`: it fails if there is none, and
-- otherwise hands out the first one.
abbrev pub Allocates : PhysicalAllocator → List ℕ → Type 0
Allocates pa [] = alloc pa ≡ ok (none, pa)
Allocates pa (p ∷ pages) =
    (after : PhysicalAllocator) × (alloc pa ≡ ok (some (handed_address pa p), after))
    × IsValid after
    × (pool after ≡ pages)
    × SameRange pa after

-- On a valid allocator a call fails and changes nothing if no page is free; otherwise it hands out
-- the address of the next free page (its offset cut to 32 bits), removes that page from the free
-- ones and keeps the allocator valid and its range unchanged.
pub alloc-Allocates : (pa : PhysicalAllocator) → IsValid pa → Allocates pa (pool pa)
alloc-Allocates pa v = by_top pa.stack_top refl
  where
    by_top : (t : ℤ) → pa.stack_top ≡ t → Allocates pa (top_pages (depth t) pa.pages_stack)
    by_top (negsuc n) e = unfold alloc in ground (arith, e)
    by_top (pos k) e = (
      popped pa (next_page pa k v e) k,
      alloc-pops pa k v e,
      popped-IsValid pa k v e,
      rw depth-top_of,
      record { same_size = refl; same_base = refl },
    )
