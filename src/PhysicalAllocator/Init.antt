-- ===== src/PhysicalAllocator/Init.antt =====
-- `system_pa_init`: the metadata pages are in use, and all other pages are free.
use mathlib.Core.Path.{subst}
use native.Mathlib.Decide.{ℕ_discrete}
use drastic.Base.{
  ℕ, zero, suc, ◌+◌, ◌-◌, ◌*◌, ◌/◌, ◌%◌, ◌^◌, ◌≤◌, ◌<◌, min, bit_or, ◌≡◌, refl, ap, ap₂, List, [],
  ◌∷◌, ltb, leb, if◌then◌else◌, length, get_or, set, get_or-set_ne, get_or-set_self, Result, ok,
  write-eq-ok, arith, length-set, length-replicate, get_or-replicate, replicate, sym, ◌∙◌, ◌&&◌,
}
use drastic.Base.Bits.{digit-zero}
use drastic.PhysicalAllocator.{
  PhysicalAllocator, u32_max, page_size, top_of, push_pages, mark_used, init,
}
use drastic.PhysicalAllocator.Bitmap.{mark, mark-set_bit}
use drastic.PhysicalAllocator.Pool.{has, Distinct, Below}
use drastic.PhysicalAllocator.Valid.{IsValid, pool, top_pages, marked, set_used-eq-ok, depth-top_of}

-- The `k` pages from page `m` on, the last first.
abbrev pub page_range : ℕ → ℕ → List ℕ
page_range m zero = []
page_range m (suc k) = (m + k) ∷ page_range m k

pub has-page_range : (m k p : ℕ) → has p (page_range m k) ≡ (leb m p && ltb p (m + k))
has-page_range m zero p = ground arith
has-page_range m (suc k) p = ground (arith, has-page_range m k p)

Distinct-page_range : (m k : ℕ) → Distinct (page_range m k)
Distinct-page_range m zero = tt
Distinct-page_range m (suc k) =
    (ground (arith, has-page_range m k (m + k)), Distinct-page_range m k)

Below-page_range : (n m k : ℕ) → m + k ≤ n → Below n (page_range m k)
Below-page_range n m zero h = tt
Below-page_range n m (suc k) h = (omega arith, Below-page_range n m k (omega arith))

top_pages-page_range :
    (k m : ℕ) (st : List ℕ)
    → ((q : ℕ) → q < k → get_or st q 0 ≡ m + q)
    → top_pages k st ≡ page_range m k
top_pages-page_range zero m st h = refl
top_pages-page_range (suc k) m st h =
    ap₂ ◌∷◌ (h k (omega arith)) (top_pages-page_range k m st (λ q lt. h q (omega arith)))

-- The stack after the first loop.
record IsPushed (left i j : ℕ) (before : List ℕ) (out : Result (List ℕ)) : Type 0 where
  pages_stack : List ℕ
  returns : out ≡ ok pages_stack
  same_length : length pages_stack ≡ length before
  entries :
      (q : ℕ)
      → get_or pages_stack q 0
        ≡ (if leb j q && ltb q (j + left) then i + (q - j) else get_or before q 0)

push_pages-IsPushed :
    (left i j : ℕ) (before : List ℕ)
    → j + left ≤ length before
    → IsPushed left i j before (push_pages left i j before)
unfolding push_pages
push_pages-IsPushed zero i j before h = record {
  pages_stack = before;
  returns = refl;
  same_length = refl;
  entries = λ q. ground arith;
}
push_pages-IsPushed (suc left) i j before h =
    let in_range : j < length before = omega arith in
    let rest =
      push_pages-IsPushed left (i + 1) (j + 1) (set before j i)
        (omega (arith, length-set {0} before j i)) in
    record {
      pages_stack = rest.pages_stack;
      returns = rw (write-eq-ok before j i in_range) rest.returns;
      same_length = rest.same_length ∙ length-set before j i;
      entries = λ q. elim (ℕ_discrete j q) [
        | yes e ↦ ground (
          arith,
          rest.entries q,
          get_or-set_self before j i 0 in_range,
          ap (λ t. get_or (set before j i) t 0) e,
        )
        | no e ↦ ground (arith, rest.entries q, get_or-set_ne before j q i 0 e)
      ];
    }

-- The bitmap after the second loop.
record IsMarked (left i : ℕ) (before : PhysicalAllocator) (out : Result PhysicalAllocator)
    : Type 0 where
  bitmap : List ℕ
  returns : out ≡ ok (record before { pages_bitmap = bitmap })
  same_length : length bitmap ≡ length before.pages_bitmap
  marks :
      (q : ℕ)
      → mark bitmap q ≡ (if leb i q && ltb q (i + left) then 1 else mark before.pages_bitmap q)

mark_used-IsMarked :
    (left i : ℕ) (before : PhysicalAllocator)
    → i + left ≤ before.size
    → length before.pages_bitmap ≡ (before.size + 63) / 64
    → IsMarked left i before (mark_used left i before)
unfolding mark_used
mark_used-IsMarked zero i before h l = record {
  bitmap = before.pages_bitmap;
  returns = refl;
  same_length = refl;
  marks = λ q. ground arith;
}
mark_used-IsMarked (suc left) i before h l =
    let in_range : i / 64 < length before.pages_bitmap = omega arith in
    let same =
      length-set before.pages_bitmap (i / 64)
        (bit_or (get_or before.pages_bitmap (i / 64) 0) (2 ^ (i % 64))) in
    let rest =
      mark_used-IsMarked left (i + 1)
        (record before { pages_bitmap = marked before.pages_bitmap i }) (omega arith) (same ∙ l) in
    record {
      bitmap = rest.bitmap;
      returns = rw (set_used-eq-ok before i (omega arith) in_range) rest.returns;
      same_length = rest.same_length ∙ same;
      marks = λ q. ground (arith, rest.marks q, mark-set_bit before.pages_bitmap i q in_range);
    }

mark-replicate : (n p : ℕ) → mark (replicate n 0) p ≡ 0
mark-replicate n p = rw get_or-replicate (digit-zero (p % 64))

-- The bytes that the structure and the arrays take for a range of `n` pages.
abbrev pub bytes_needed : ℕ → ℕ
bytes_needed n = 64 + n * 4 + (n + 63) / 64 * 8

module _ (base m n : ℕ) (has_metadata : 0 < m) (metadata_in_range : m ≤ n) (n_max : n ≤ u32_max)
    (fits : base + n * page_size < 2 ^ 64) (room : bytes_needed n ≤ m * page_size) where
  abbrev zeroed : List ℕ
  zeroed = replicate n 0

  stack-IsPushed : IsPushed (n - m) m 0 zeroed (push_pages (n - m) m 0 zeroed)
  stack-IsPushed =
      push_pages-IsPushed (n - m) m 0 zeroed (omega (arith, length-replicate {A = ℕ} n 0))

  abbrev unmarked_start : PhysicalAllocator
  unmarked_start = record {
    size = n;
    stack_top = top_of (n - m);
    pages_bitmap = replicate ((n + 63) / 64) 0;
    pages_stack = stack-IsPushed.pages_stack;
    address_base = base;
  }

  bitmap-IsMarked : IsMarked m 0 unmarked_start (mark_used m 0 unmarked_start)
  bitmap-IsMarked =
      mark_used-IsMarked m 0 unmarked_start (omega arith)
        (omega (arith, length-replicate {A = ℕ} ((n + 63) / 64) 0))

  abbrev start : PhysicalAllocator
  start = record unmarked_start { pages_bitmap = bitmap-IsMarked.bitmap }

  whole_stack : min (n * 4) (m * 4096 - 64 - (n + (8 * 8 - 1)) / (8 * 8) * 8) / 4 ≡ n
  whole_stack = omega arith

  whole_bitmap : min ((n + (8 * 8 - 1)) / (8 * 8) * 8) (m * 4096 - 64) / 8 ≡ (n + 63) / 64
  whole_bitmap = omega arith

  init-eq-ok : init base m n ≡ ok start
  unfolding init
  init-eq-ok =
      ground (arith, whole_stack, whole_bitmap, stack-IsPushed.returns, bitmap-IsMarked.returns)

  pool-start : pool start ≡ page_range m (n - m)
  pool-start = rw depth-top_of (
      top_pages-page_range (n - m) m stack-IsPushed.pages_stack
        (λ q h. ground (arith, stack-IsPushed.entries q)))

  start-IsValid : IsValid start
  start-IsValid = record {
    size_pos = omega arith;
    size_max = n_max;
    fits = fits;
    bitmap_length =
        omega (arith, bitmap-IsMarked.same_length, length-replicate {A = ℕ} ((n + 63) / 64) 0);
    stack_length = omega (arith, stack-IsPushed.same_length, length-replicate {A = ℕ} n 0);
    top_valid = ap top_of (sym (depth-top_of (n - m)));
    distinct = subst Distinct (sym pool-start) (Distinct-page_range m (n - m));
    below = subst (Below n) (sym pool-start) (Below-page_range n m (n - m) (omega arith));
    marks = λ p h.
        subst (λ pages. mark bitmap-IsMarked.bitmap p ≡ (if has p pages then 0 else 1))
          (sym pool-start)
          (ground (
            arith,
            has-page_range m (n - m) p,
            bitmap-IsMarked.marks p,
            mark-replicate ((n + 63) / 64) p,
          ));
  }

-- What `system_pa_init` promises for a range of `n` pages whose first `m` hold the metadata.
pub record Initialises (base m n : ℕ) : Type 0 where
  pub start : PhysicalAllocator
  pub returns : init base m n ≡ ok start
  pub valid : IsValid start
  pub free_pages : pool start ≡ page_range m (n - m)
  pub same_size : start.size ≡ n
  pub same_base : start.address_base ≡ base

-- With 0 < m, m at most n, n at most 2^32 - 1, the range ending below 2^64, and m pages that have
-- room for the 64 bytes of the structure, four bytes for each of the n pages and the bitmap in
-- words of eight bytes, the initialisation returns a valid allocator whose free pages are exactly
-- those from m to n - 1, the last one first.
pub init-Initialises :
    (base m n : ℕ)
    → 0 < m
    → m ≤ n
    → n ≤ u32_max
    → base + n * page_size < 2 ^ 64
    → bytes_needed n ≤ m * page_size
    → Initialises base m n
init-Initialises base m n h1 h2 h3 h4 h5 = record {
  start = start base m n h1 h2 h3 h4 h5;
  returns = init-eq-ok base m n h1 h2 h3 h4 h5;
  valid = start-IsValid base m n h1 h2 h3 h4 h5;
  free_pages = pool-start base m n h1 h2 h3 h4 h5;
  same_size = refl;
  same_base = refl;
}
