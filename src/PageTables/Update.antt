-- ===== src/PageTables/Update.antt =====
-- Redirecting an entry to a copy changes its address field and no other bit.
use drastic.Base.{
  ℕ, ◌-◌, ◌%◌, ◌^◌, ◌≤◌, ◌<◌, ◌*◌, leb, ◌&&◌, ap, ◌≡◌, refl, ◌∙◌, min, max, bit_and, bit_or, ltb,
  ◌==◌, if◌then◌else◌, inl, inr, Bool-cases, ltb→lt, Result, ok, arith,
}
use drastic.Base.Bits.{complement, digit, digit-lt, digit-bit_or, digit-bit_and, digit-complement}
use drastic.Base.Bits.Mask.{digit-above, digit-ones, digit-shifted}
use drastic.PageTables.{flag_address}
use drastic.PageTables.Clone.{table_entry_update_address}
use drastic.PageTables.Descend.{aligned-assert}

-- The digits of an entry after the call: those of the address field, the places 12 to 47, from the new
-- address.
abbrev pub redirected : ℕ → ℕ → ℕ → ℕ
redirected entry new_address i = if leb 12 i && ltb i 48 then digit new_address i else digit entry i

pub record Redirects (entry new_address : ℕ) (out : Result ℕ) : Type 0 where
  pub updated : ℕ
  pub returns : out ≡ ok updated
  pub all_bits : (i : ℕ) → digit updated i ≡ redirected entry new_address i

field-eq : flag_address ≡ 2 ^ 12 * (2 ^ 36 - 1)
field-eq = refl

digit-flag_address : (i : ℕ) → digit flag_address i ≡ (if leb 12 i && ltb i 48 then 1 else 0)
digit-flag_address i =
    ap (λ (t : ℕ). digit t i) field-eq
    ∙ digit-shifted 12 (2 ^ 36 - 1) i
    ∙ ground (arith, digit-ones 36 (i - 12))

module _ (entry new_address : ℕ) (entry_lt : entry < 2 ^ 64)
    (aligned : new_address % 4096 ≡ 0) where
  abbrev result : ℕ
  result = bit_or (bit_and entry (complement 64 flag_address)) (bit_and new_address flag_address)

  by_digits :
      (i : ℕ)
      → digit result i
        ≡ max
            (min (digit entry i) (digit (complement 64 flag_address) i))
            (min (digit new_address i) (digit flag_address i))
  by_digits i =
      rw
        (
          digit-bit_or (bit_and entry (complement 64 flag_address))
              (bit_and new_address flag_address) i,
          digit-bit_and entry (complement 64 flag_address) i,
          digit-bit_and new_address flag_address i,
        )
        refl

  -- One bit of the mask and its opposite choose one of two bits.
  chosen :
      (e c n f : ℕ)
      → e < 2
      → n < 2
      → f < 2
      → c ≡ 1 - f
      → max (min e c) (min n f) ≡ (if f == 1 then n else e)
  chosen e c n f he hn hf hc = ground arith

  all_bits : (i : ℕ) → digit result i ≡ redirected entry new_address i
  all_bits i = by_digits i ∙ elim (Bool-cases (ltb i 64)) [
    | inl inside ↦
        chosen _ _ _ _ (digit-lt entry i) (digit-lt new_address i) (digit-lt flag_address i)
          (digit-complement 64 flag_address i (omega arith) (ltb→lt i 64 inside))
        ∙ ground (arith, digit-flag_address i)
    | inr outside ↦
        let le : 64 ≤ i = ground (arith, outside) in
        ground (
          arith,
          digit-above 64 i entry entry_lt le,
          digit-above 64 i flag_address (omega arith) le,
          digit-above 64 i (complement 64 flag_address) (omega arith) le,
        )
  ]

  -- For a 64-bit entry and a page-aligned address the call returns an entry whose bits 12 to 47
  -- are those of the address and whose other bits, the rights and the mark of being present among
  -- them, are those of the old entry.
  pub table_entry_update_address-Redirects :
      Redirects entry new_address (table_entry_update_address entry new_address)
  unfolding table_entry_update_address
  table_entry_update_address-Redirects = record {
    updated = result;
    returns = rw (aligned-assert new_address aligned) refl;
    all_bits = all_bits;
  }
