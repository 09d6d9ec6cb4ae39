-- ===== src/PhysicalAllocator/Bitmap.antt =====
-- The bitmap of the allocator: `|= 1 << bit` and `&= ~(1 << bit)` change the mark of one page.
use native.Mathlib.Decide.{ℕ_discrete}
use drastic.Base.{
  ℕ, ◌/◌, ◌%◌, ◌^◌, ◌<◌, bit_and, bit_or, ◌≡◌, List, ◌==◌, if◌then◌else◌, length, get_or, set,
  get_or-set_self, get_or-set_ne, arith,
}
use drastic.Base.Bits.{
  digit, digit-lt, digit-bit_or, digit-bit_and, digit-pow_self, digit-pow_ne, complement,
  digit-complement, pow-lt-word,
}

-- The mark of page `p`: 1 for used, 0 for free.
abbrev pub mark : List ℕ → ℕ → ℕ
mark bitmap p = digit (get_or bitmap (p / 64) 0) (p % 64)

digit-set_bit : (w i j : ℕ) → digit (bit_or w (2 ^ i)) j ≡ (if i == j then 1 else digit w j)
digit-set_bit w i j = elim (ℕ_discrete i j) [
  | yes e ↦ ground (arith, digit-bit_or w (2 ^ i) j, digit-pow_self i, digit-lt w i)
  | no e ↦ ground (arith, digit-bit_or w (2 ^ i) j, digit-pow_ne i j e)
]

digit-clear_bit :
    (w i j : ℕ)
    → i < 64
    → j < 64
    → digit (bit_and w (complement 64 (2 ^ i))) j ≡ (if i == j then 0 else digit w j)
digit-clear_bit w i j hi hj = elim (ℕ_discrete i j) [
  | yes e ↦ ground (
    arith,
    digit-bit_and w (complement 64 (2 ^ i)) j,
    digit-complement 64 (2 ^ i) j (pow-lt-word i hi) hj,
    digit-pow_self i,
  )
  | no e ↦ ground (
    arith,
    digit-bit_and w (complement 64 (2 ^ i)) j,
    digit-complement 64 (2 ^ i) j (pow-lt-word i hi) hj,
    digit-pow_ne i j e,
    digit-lt w j,
  )
]

-- A write of one word of the bitmap, seen by the marks.
mark-set :
    (bitmap : List ℕ) (p q v : ℕ)
    → p / 64 < length bitmap
    → mark (set bitmap (p / 64) v) q
      ≡ (if p / 64 == q / 64 then digit v (q % 64) else mark bitmap q)
mark-set bitmap p q v h = elim (ℕ_discrete (p / 64) (q / 64)) [
  | yes e ↦ ground (arith, get_or-set_self bitmap (p / 64) v 0)
  | no e ↦ ground (arith, get_or-set_ne bitmap (p / 64) (q / 64) v 0 e)
]

-- Setting a page's bit marks that page and no other.
pub mark-set_bit :
    (bitmap : List ℕ) (p q : ℕ)
    → p / 64 < length bitmap
    → mark (set bitmap (p / 64) (bit_or (get_or bitmap (p / 64) 0) (2 ^ (p % 64)))) q
      ≡ (if p == q then 1 else mark bitmap q)
mark-set_bit bitmap p q h = ground (
  arith,
  mark-set bitmap p q (bit_or (get_or bitmap (p / 64) 0) (2 ^ (p % 64))),
  digit-set_bit (get_or bitmap (p / 64) 0) (p % 64) (q % 64),
)

-- Clearing a page's bit unmarks that page and no other.
pub mark-clear_bit :
    (bitmap : List ℕ) (p q : ℕ)
    → p / 64 < length bitmap
    → mark
        (set bitmap (p / 64) (bit_and (get_or bitmap (p / 64) 0) (complement 64 (2 ^ (p % 64)))))
        q
      ≡ (if p == q then 0 else mark bitmap q)
mark-clear_bit bitmap p q h = ground (
  arith,
  mark-set bitmap p q (bit_and (get_or bitmap (p / 64) 0) (complement 64 (2 ^ (p % 64)))),
  digit-clear_bit (get_or bitmap (p / 64) 0) (p % 64) (q % 64),
)
