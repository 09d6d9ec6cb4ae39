-- ===== src/Acpi/Checksum.antt =====
-- `system_acpi_validate` accepts a structure exactly if its bytes add up to a multiple of 256.
use drastic.Base.{
  ℕ, zero, suc, ◌+◌, ◌%◌, ◌≤◌, ◌<◌, ◌≡◌, refl, ap, ◌∙◌, bit_and, List, ltb, ◌==◌, length, get_or,
  read-eq-ok, Result, ok, stop, true, ◌>>=◌, arith,
}
use drastic.Base.Bits.Mask.{bit_and-mask}
use drastic.PhysicalAllocator.{u32}
use drastic.Bytes.{Bytes, bytes_get}
use drastic.Acpi.{sum_from, validate}

-- The sum of `n` bytes from `p + i` on.
abbrev pub total : List ℕ → ℕ → ℕ → ℕ → ℕ
total memory p i zero = 0
total memory p i (suc n) = get_or memory (p + i) 0 + total memory p (i + 1) n

module _ (memory : List ℕ) (b : Bytes) (fits : b.ptr + b.len ≤ length memory) where
  bytes_get-inside : (i : ℕ) → i < b.len → bytes_get b i memory ≡ ok (get_or memory (b.ptr + i) 0)
  unfolding bytes_get
  bytes_get-inside i h =
      let inside : ltb i b.len ≡ true = ground arith in
      rw (inside, read-eq-ok memory (b.ptr + i) 0 (omega arith)) refl

  sum_from-total :
      (left i result : ℕ)
      → i + left ≡ b.len
      → (sum_from left i b memory result >>= λ r. ok (r % 256))
        ≡ ok ((result + total memory b.ptr i left) % 256)
  unfolding sum_from
  sum_from-total zero i result e = ap ok (omega arith)
  sum_from-total (suc left) i result e = rw (bytes_get-inside i (omega arith)) (
      sum_from-total left (i + 1) (u32 (result + get_or memory (b.ptr + i) 0)) (omega arith)
      ∙ ap ok (omega arith))

  validate-by_mod :
      (r : Result ℕ)
      → (r >>= λ n. ok (bit_and n 0xff == 0)) ≡ ((r >>= λ n. ok (n % 256)) >>= λ n. ok (n == 0))
  validate-by_mod (ok n) = ap (λ (k : ℕ). ok (k == 0)) (bit_and-mask 8 n)
  validate-by_mod (stop s) = refl

  -- For a view that lies in memory, the call returns whether the sum of its bytes, counted without
  -- overflow, is a multiple of 256.
  pub validate-total : validate b memory ≡ ok (total memory b.ptr 0 b.len % 256 == 0)
  unfolding validate
  validate-total =
      validate-by_mod (sum_from b.len 0 b memory 0)
      ∙ ap (λ r. r >>= λ n. ok (n == 0)) (sum_from-total b.len 0 0 (omega arith))
      ∙ ap (λ (k : ℕ). ok (k % 256 == 0)) (omega arith)
