-- ===== src/PhysicalAllocator/Free.antt =====
-- `system_pa_is_free` and `system_pa_free`: which pages can be given back, and what that does.
use mathlib.Core.Path.{subst}
use native.Mathlib.Decide.{ℕ_discrete}
use drastic.Base.{
  ℕ, zero, suc, ◌+◌, ◌*◌, ◌/◌, ◌%◌, ◌^◌, ◌≤◌, ◌<◌, bit_and, ◌≡◌, ◌≢◌, refl, ap, ap₂, true, false,
  List, ◌∷◌, ◌==◌, if◌then◌else◌, length, get_or, set, get_or-set_self, ok, stop, assertion_failed,
  read-eq-ok, arith, length-set, sym, Bool, ◌⊎◌, lt→ltb,
}
use native.Mathlib.Nat.{one-le-pow}
use drastic.Base.Int.{ℤ, pos, inc}
use drastic.Base.Bits.{digit, digit-lt, bit_and-pow, complement}
use drastic.PhysicalAllocator.{
  PhysicalAllocator, page_size, top_of, contains, is_free, free, page_of, has_room, at_least_empty,
}
use drastic.PhysicalAllocator.Bitmap.{mark, mark-clear_bit}
use drastic.PhysicalAllocator.Pool.{has, Distinct, Below, length-lt_of_absent}
use drastic.PhysicalAllocator.Valid.{IsValid, depth, pool, length-top_pages, top_pages-set}
use drastic.PhysicalAllocator.Alloc.{SameRange}

-- An address inside page `p`.
abbrev pub InPage : PhysicalAllocator → ℕ → ℕ → Type 0
InPage pa p address =
    (pa.address_base + p * page_size ≤ address) × (address < pa.address_base + (p + 1) * page_size)

-- The bitmap after a page is marked as free.
abbrev pub unmarked : List ℕ → ℕ → List ℕ
unmarked bitmap p =
    set bitmap (p / 64) (bit_and (get_or bitmap (p / 64) 0) (complement 64 (2 ^ (p % 64))))

-- The allocator after page `p` was put on its stack of `d` pages.
abbrev pub pushed : PhysicalAllocator → ℕ → ℕ → PhysicalAllocator
pushed pa p d = record pa {
  stack_top = pos d;
  pages_bitmap = unmarked pa.pages_bitmap p;
  pages_stack = set pa.pages_stack d p;
}

-- The guards of `free` on a stack of `d` pages.
room_for_one : (t : ℤ) (d size : ℕ) → t ≡ top_of d → d < size → has_room t size ≡ true
room_for_one t zero size e h = rw e (lt→ltb _ _ (omega arith))
room_for_one t (suc d) size e h = rw e (lt→ltb _ _ (omega arith))

top_at_least_empty : (t : ℤ) (d : ℕ) → t ≡ top_of d → at_least_empty t ≡ true
top_at_least_empty t zero e = rw e
top_at_least_empty t (suc d) e = rw e (ground arith)

inc-top_of : (t : ℤ) (d : ℕ) → t ≡ top_of d → inc t ≡ pos d
inc-top_of t zero e = rw e
inc-top_of t (suc d) e = rw e

-- A bit test is true exactly if the digit is 0.
bit_test : (w i : ℕ) → (bit_and w (2 ^ i) == 0) ≡ (digit w i == 0)
bit_test w i = elim (ℕ_discrete (digit w i) 0) [
  | yes e ↦ ground (arith, bit_and-pow w i, ap (λ (t : ℕ). t * 2 ^ i) e)
  | no e ↦ ground (
    arith,
    bit_and-pow w i,
    one-le-pow i 2,
    digit-lt w i,
    ap (λ (t : ℕ). t * 2 ^ i) (digit_one e),
  )
]
  where
    digit_one : digit w i ≢ 0 → digit w i ≡ 1
    digit_one e = omega (arith, digit-lt w i)

module _ (pa : PhysicalAllocator) (v : IsValid pa) (p address : ℕ) (lt : p < pa.size)
    (inside : InPage pa p address) where
  contains_page : contains pa address ≡ true
  unfolding contains
  contains_page = ground (arith, v.fits, v.size_max)

  page_of_lem : page_of pa address ≡ p
  page_of_lem = omega (arith, v.fits, v.size_max)

  in_bitmap : p / 64 < length pa.pages_bitmap
  in_bitmap = omega (arith, v.bitmap_length)

  -- On a valid allocator the query of an address inside page p answers whether p is one of the
  -- free pages on the stack: bitmap and stack agree.
  pub is_free-has : is_free pa address ≡ ok (has p (pool pa))
  unfolding is_free
  is_free-has = ground (
    arith,
    contains_page,
    page_of_lem,
    read-eq-ok pa.pages_bitmap (p / 64) 0 in_bitmap,
    bit_test (get_or pa.pages_bitmap (p / 64) 0) (p % 64),
    v.marks p lt,
  )

  abbrev d : ℕ
  d = depth pa.stack_top

  module _ (used : has p (pool pa) ≡ false) where
    d-lt : d < pa.size
    d-lt = omega (
      arith,
      length-top_pages d pa.pages_stack,
      length-lt_of_absent pa.size p (pool pa) v.distinct v.below lt used,
    )

    free-pushes : free pa address ≡ ok (pushed pa p d)
    unfolding free
    free-pushes = ground (
      arith,
      is_free-has,
      used,
      page_of_lem,
      v.size_max,
      v.stack_length,
      d-lt,
      room_for_one pa.stack_top d pa.size v.top_valid d-lt,
      top_at_least_empty pa.stack_top d v.top_valid,
      inc-top_of pa.stack_top d v.top_valid,
      read-eq-ok pa.pages_bitmap (p / 64) 0 in_bitmap,
    )

    pool-pushed : pool (pushed pa p d) ≡ p ∷ pool pa
    pool-pushed =
        ap₂ ◌∷◌ (get_or-set_self pa.pages_stack d p 0 (omega (arith, d-lt, v.stack_length)))
          (top_pages-set d d p pa.pages_stack (omega arith))

    pushed-IsValid : IsValid (pushed pa p d)
    pushed-IsValid = record {
      size_pos = v.size_pos;
      size_max = v.size_max;
      fits = v.fits;
      bitmap_length = omega (
        arith,
        v.bitmap_length,
        length-set {0} pa.pages_bitmap (p / 64)
            (bit_and (get_or pa.pages_bitmap (p / 64) 0) (complement 64 (2 ^ (p % 64)))),
      );
      stack_length = omega (arith, v.stack_length, length-set {0} pa.pages_stack d p);
      top_valid = refl;
      distinct = subst Distinct (sym pool-pushed) (used, v.distinct);
      below = subst (Below pa.size) (sym pool-pushed) (lt, v.below);
      marks = λ q h.
          subst (λ pages. mark (unmarked pa.pages_bitmap p) q ≡ (if has q pages then 0 else 1))
            (sym pool-pushed)
            (ground (arith, mark-clear_bit pa.pages_bitmap p q in_bitmap, v.marks q h));
    }

-- `system_pa_free` at an address inside page `p`, by whether that page is free already: it is
-- refused, or the page becomes the next one of the pool.
abbrev pub Frees : PhysicalAllocator → ℕ → ℕ → Bool → Type 0
Frees pa p address true = free pa address ≡ stop assertion_failed
Frees pa p address false =
    (after : PhysicalAllocator) × (free pa address ≡ ok after)
    × IsValid after
    × (pool after ≡ p ∷ pool pa)
    × SameRange pa after

-- On a valid allocator, a free at any address inside page p of the range halts by an assertion if
-- the page is free already, and otherwise makes it the next free page and keeps the allocator
-- valid and its range unchanged.
pub free-Frees :
    (pa : PhysicalAllocator) (p address : ℕ)
    → IsValid pa
    → p < pa.size
    → InPage pa p address
    → Frees pa p address (has p (pool pa))
free-Frees pa p address v lt inside = by_use (has p (pool pa)) refl
  where
    by_use : (b : Bool) → has p (pool pa) ≡ b → Frees pa p address b
    by_use true e = unfold free in rw (is_free-has pa v p address lt inside, e)
    by_use false e = (
      pushed pa p (depth pa.stack_top),
      free-pushes pa v p address lt inside e,
      pushed-IsValid pa v p address lt inside e,
      pool-pushed pa v p address lt inside e,
      record { same_size = refl; same_base = refl },
    )

-- On a valid allocator a free of an address outside its range halts by an assertion.
pub free_outside :
    (pa : PhysicalAllocator) (address : ℕ)
    → IsValid pa
    → (address < pa.address_base) ⊎ (pa.address_base + pa.size * page_size ≤ address)
    → free pa address ≡ stop assertion_failed
unfolding free contains
free_outside pa address v out = ground (arith, v.fits, v.size_max)
