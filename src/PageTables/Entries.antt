-- ===== src/PageTables/Entries.antt =====
-- What the encoders of page table entries store, as a processor reads it.
use drastic.Base.{ℕ, ◌+◌, ◌-◌, ◌*◌, ◌/◌, ◌%◌, ◌^◌, ◌<◌, ◌≡◌, ap, ◌∙◌, bit_and, not, ◌==◌, arith}
use drastic.Base.Bits.{digit-bit_or, bit_and-pow, bit_and-le}
use drastic.Base.Bits.Mask.{bit_and-mask, bit_and-shifted, bit_and-bit_or_right}
use drastic.PhysicalAllocator.{u64}
use drastic.PageTables.Walk.{field, table_of}
use drastic.PageTables.{flag_p, flag_ps, flag_address, test, encoded, index, pointed}

pub index-eq : (shift virtual : ℕ) → index shift virtual ≡ field shift virtual
index-eq shift virtual = bit_and-mask 9 (virtual / 2 ^ shift)

pub field-lt : (shift virtual : ℕ) → field shift virtual < 512
field-lt shift virtual = omega arith

pub bit_and-flag_address : (a : ℕ) → bit_and a flag_address ≡ 4096 * (a / 4096 % 2 ^ 36)
bit_and-flag_address a =
    bit_and-shifted 12 a (2 ^ 36 - 1) ∙ ap (λ (t : ℕ). 2 ^ 12 * t) (bit_and-mask 36 (a / 2 ^ 12))

-- The address of a page below 2^48 fits the field.
pub bit_and-flag_address_page : (a : ℕ) → a % 4096 ≡ 0 → a < 2 ^ 48 → bit_and a flag_address ≡ a
bit_and-flag_address_page a e h = omega (arith, bit_and-flag_address a)

pub aligned_iff : (a : ℕ) → bit_and a (4096 - 1) ≡ a % 4096
aligned_iff a = bit_and-mask 12 a

module _ (a flags : ℕ) (a_lt : a < 2 ^ 64) (flags_lt : flags < 2 ^ 64) where
  -- The address field of an entry whose flags lie outside it.
  pub encoded-address :
      bit_and flags flag_address ≡ 0
      → bit_and (encoded a flags) flag_address ≡ bit_and a flag_address
  encoded-address h =
      bit_and-bit_or_right (bit_and a flag_address) flags flag_address
        (omega (arith, bit_and-le 64 a flag_address a_lt)) flags_lt h
      ∙ omega (arith, bit_and-flag_address a, bit_and-flag_address (bit_and a flag_address))

  pub encoded-test_p : test (encoded a flags) flag_p ≡ test flags flag_p
  encoded-test_p =
      ap (λ (t : ℕ). not (t == 0))
        (omega (
          arith,
          bit_and-pow (encoded a flags) 0,
          bit_and-pow flags 0,
          digit-bit_or (bit_and a flag_address) flags 0,
          bit_and-flag_address a,
        ))

  pub encoded-test_ps : test (encoded a flags) flag_ps ≡ test flags flag_ps
  encoded-test_ps =
      ap (λ (t : ℕ). not (t == 0))
        (omega (
          arith,
          bit_and-pow (encoded a flags) 7,
          bit_and-pow flags 7,
          digit-bit_or (bit_and a flag_address) flags 7,
          bit_and-flag_address a,
        ))

-- What the code reads out of an entry is what the processor reads.
pub pointed-eq : (hhdm_offset e : ℕ) → pointed hhdm_offset e ≡ table_of hhdm_offset e
pointed-eq hhdm_offset e = ap (λ (a : ℕ). u64 (a + hhdm_offset)) (bit_and-flag_address e)

pub table_of-aligned :
    (hhdm_offset e : ℕ) → hhdm_offset % 4096 ≡ 0 → table_of hhdm_offset e % 4096 ≡ 0
table_of-aligned hhdm_offset e h = omega arith
