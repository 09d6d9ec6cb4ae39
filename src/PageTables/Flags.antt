-- ===== src/PageTables/Flags.antt =====
-- The entry that `system_paging_map` stores says what its caller asked for.
use drastic.Base.{
  ℕ, ◌*◌, ◌%◌, ◌^◌, ◌<◌, ◌≡◌, refl, ap, sym, ◌∙◌, bit_and, bit_or, Bool, true, false, not, ◌==◌,
  if◌then◌else◌, arith,
}
use drastic.Base.Bits.{digit, digit-bit_or, bit_and-pow}
use drastic.Base.Bits.Mask.{digit-low}
use drastic.PageTables.{
  flag_p, flag_rw, flag_us, flag_xd, flag_address, flag_write, flag_exec, flag_user, test, encoded,
  amd64_flag_convert,
}
use drastic.PageTables.Entries.{bit_and-flag_address_page, encoded-address}

-- What the processor reads in an entry of the last level.
pub record Describes (e physical flags : ℕ) : Type 0 where
  pub present : test e flag_p ≡ true
  pub address : bit_and e flag_address ≡ physical
  pub writable : test e flag_rw ≡ test flags flag_write
  pub user : test e flag_us ≡ test flags flag_user
  pub no_execute : test e flag_xd ≡ not (test flags flag_exec)

-- A flag outside the address field.
encoded-test :
    (a flags i : ℕ)
    → digit (bit_and a flag_address) i ≡ 0
    → test (encoded a flags) (2 ^ i) ≡ test flags (2 ^ i)
encoded-test a flags i h =
    ap (λ (t : ℕ). not (t == 0))
      (bit_and-pow (encoded a flags) i
        ∙ ap (λ (t : ℕ). t * 2 ^ i)
            (digit-bit_or (bit_and a flag_address) flags i ∙ omega (arith, h))
        ∙ sym (bit_and-pow flags i))

abbrev pub map_entry : ℕ → ℕ → ℕ
map_entry physical flags = encoded physical (bit_or (amd64_flag_convert flags) flag_p)

module _ (flags : ℕ) where
  abbrev stored : ℕ
  stored = bit_or (amd64_flag_convert flags) flag_p

  abbrev Stored : Bool → Bool → Bool → ℕ → Type 0
  Stored write user exec c =
      (c < 2 ^ 64)
      × (bit_and c flag_address ≡ 0)
      × (test c flag_p ≡ true)
      × (test c flag_rw ≡ write)
      × (test c flag_us ≡ user)
      × (test c flag_xd ≡ not exec)

  stored-Stored :
      Stored (test flags flag_write) (test flags flag_user) (test flags flag_exec) stored
  unfolding amd64_flag_convert
  stored-Stored = by_flags (test flags flag_write) (test flags flag_user) (test flags flag_exec)
    where
      by_flags :
          (w u x : Bool)
          → Stored w u x (
              bit_or
                (let value = if w then bit_or 0 flag_rw else 0 in
                  let value' = if u then bit_or value flag_us else value in
                  if not x then bit_or value' flag_xd else value')
                flag_p)
      by_flags true true true = (omega arith, refl, refl, refl, refl, refl)
      by_flags true true false = (omega arith, refl, refl, refl, refl, refl)
      by_flags true false true = (omega arith, refl, refl, refl, refl, refl)
      by_flags true false false = (omega arith, refl, refl, refl, refl, refl)
      by_flags false true true = (omega arith, refl, refl, refl, refl, refl)
      by_flags false true false = (omega arith, refl, refl, refl, refl, refl)
      by_flags false false true = (omega arith, refl, refl, refl, refl, refl)
      by_flags false false false = (omega arith, refl, refl, refl, refl, refl)

  module _ (physical : ℕ) (aligned : physical % 4096 ≡ 0) (low : physical < 2 ^ 48) where
    address_field : bit_and physical flag_address ≡ physical
    address_field = bit_and-flag_address_page physical aligned low

    pub map_entry-Describes : Describes (map_entry physical flags) physical flags
    map_entry-Describes =
        let (c_lt, clear, p, rw', us, xd) = stored-Stored in
        record {
          present = encoded-test physical stored 0 (omega (arith, address_field)) ∙ p;
          address = encoded-address physical stored (omega arith) c_lt clear ∙ address_field;
          writable = encoded-test physical stored 1 (omega (arith, address_field)) ∙ rw';
          user = encoded-test physical stored 2 (omega (arith, address_field)) ∙ us;
          no_execute =
              encoded-test physical stored 63 (digit-low 63 _ (omega (arith, address_field))) ∙ xd;
        }
