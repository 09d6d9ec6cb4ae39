-- ===== src/Descriptors/Decode.antt =====
-- What the processor reads in the descriptors, by the layout that the architecture gives them.
use drastic.Base.{
  ℕ, ◌+◌, ◌*◌, ◌/◌, ◌%◌, ◌^◌, ◌≤◌, ◌<◌, ◌≡◌, refl, bit_and, false, List, [], ◌∷◌, ◌++◌, ltb, get_or,
  Result, ok, arith,
}
use drastic.Base.Bits.Mask.{bit_and-mask}
use drastic.Descriptors.{GdtEntry, gdt_bytes, gdt_entry_encode, IdtEntry, idt_entry_encode, u8, u16}

abbrev pub gdt_base : List ℕ → ℕ
gdt_base d = get_or d 2 0 + get_or d 3 0 * 2 ^ 8 + get_or d 4 0 * 2 ^ 16 + get_or d 7 0 * 2 ^ 24

abbrev pub gdt_limit_of : List ℕ → ℕ
gdt_limit_of d = get_or d 0 0 + get_or d 1 0 * 2 ^ 8 + get_or d 6 0 % 16 * 2 ^ 16

-- A segment descriptor says what its entry says, but for the limit, which has lost its upper four bits.
pub record GdtDecodes (entry : GdtEntry) (out : Result (List ℕ)) : Type 0 where
  pub after : List ℕ
  pub returns : out ≡ ok after
  pub base : gdt_base after ≡ entry.base
  pub access_byte : get_or after 5 0 ≡ entry.access_byte
  pub flags : get_or after 6 0 / 16 ≡ entry.flags
  pub limit : gdt_limit_of after ≡ entry.limit % 2 ^ 16

abbrev pub eight : ℕ → ℕ → ℕ → ℕ → ℕ → ℕ → ℕ → ℕ → List ℕ
eight a b c d e f g h = a ∷ b ∷ c ∷ d ∷ e ∷ f ∷ g ∷ h ∷ []

module _ (a b c d e f g h : ℕ) (entry : GdtEntry) (limit_le : entry.limit ≤ 0xfffff)
    (base_lt : entry.base < 2 ^ 32) (flags_lt : entry.flags < 16) where
  gdt_encoded : List ℕ
  gdt_encoded =
      eight (bit_and entry.limit 0xff) (bit_and (entry.limit / 2 ^ 8) 0xff)
        (bit_and entry.base 0xff) (bit_and (entry.base / 2 ^ 8) 0xff)
        (bit_and (entry.base / 2 ^ 16) 0xff) entry.access_byte (u8 (entry.flags * 2 ^ 4))
        (bit_and (entry.base / 2 ^ 24) 0xff)

  gdt_bytes-gdt_encoded : gdt_bytes (eight a b c d e f g h) entry ≡ ok gdt_encoded
  unfolding gdt_bytes gdt_encoded
  gdt_bytes-gdt_encoded = refl

  -- For an entry with a limit of at most 0xFFFFF, a base below 2^32 and flags below 16, encoding
  -- fills the 8 bytes so that the processor reads back the base, the access byte and the flags,
  -- and of the limit only the lower 16 bits, whatever the bytes held before.
  pub gdt_entry_encode-GdtDecodes :
      GdtDecodes entry (gdt_entry_encode (eight a b c d e f g h) entry)
  unfolding gdt_entry_encode gdt_encoded
  gdt_entry_encode-GdtDecodes =
      let small : ltb 0xfffff entry.limit ≡ false = ground arith in
      record {
        after = gdt_encoded;
        returns = rw small gdt_bytes-gdt_encoded;
        base = omega (
          arith,
          bit_and-mask 8 entry.base,
          bit_and-mask 8 (entry.base / 2 ^ 8),
          bit_and-mask 8 (entry.base / 2 ^ 16),
          bit_and-mask 8 (entry.base / 2 ^ 24),
        );
        access_byte = refl;
        flags = omega arith;
        limit = omega (arith, bit_and-mask 8 entry.limit, bit_and-mask 8 (entry.limit / 2 ^ 8));
      }

-- The 16-bit field of a descriptor at the word `k`.
abbrev pub word_at : List ℕ → ℕ → ℕ
word_at d k = get_or d (2 * k) 0 + get_or d (2 * k + 1) 0 * 2 ^ 8

-- An interrupt descriptor says what its entry says, and its upper half ends in zeros.
pub record IdtDecodes (entry : IdtEntry) (out : Result (List ℕ)) : Type 0 where
  pub after : List ℕ
  pub returns : out ≡ ok after
  pub offset :
      word_at after 0
        + word_at after 3 * 2 ^ 16
        + word_at after 4 * 2 ^ 32
        + word_at after 5 * 2 ^ 48
      ≡ entry.offset
  pub segment_selector : word_at after 1 ≡ entry.segment_selector
  pub ist : get_or after 4 0 ≡ entry.ist % 8
  pub idt_flags : get_or after 5 0 ≡ entry.idt_flags
  pub reserved : word_at after 6 + word_at after 7 ≡ 0

module _ (a b c d e f g h a' b' c' d' e' f' g' h' : ℕ) (entry : IdtEntry)
    (offset_lt : entry.offset < 2 ^ 64) where
  -- A 16-bit part of the offset.
  part : ℕ → ℕ
  part n = bit_and (u16 n) 0xffff

  part-eq : (n : ℕ) → part n ≡ n % 2 ^ 16
  unfolding part
  part-eq n = omega (arith, bit_and-mask 16 (u16 n))

  abbrev idt_target : List ℕ
  idt_target = eight a b c d e f g h ++ eight a' b' c' d' e' f' g' h'

  idt_encoded : List ℕ
  idt_encoded =
      eight (part entry.offset % 256) (part entry.offset / 256) (entry.segment_selector % 256)
        (entry.segment_selector / 256) (bit_and entry.ist 0x7) entry.idt_flags
        (part (entry.offset / 2 ^ 16) % 256) (part (entry.offset / 2 ^ 16) / 256)
      ++ eight (part (entry.offset / 2 ^ 32) % 256) (part (entry.offset / 2 ^ 32) / 256)
          (part (entry.offset / 2 ^ 48) % 256) (part (entry.offset / 2 ^ 48) / 256) 0 0 0 0

  -- For an entry whose offset is below 2^64, encoding fills the 16 bytes so that the processor
  -- reads back the offset, the selector, the flags and the lowest three bits of the stack index,
  -- with zeros in the reserved part, whatever the bytes held before.
  pub idt_entry_encode-IdtDecodes : IdtDecodes entry (idt_entry_encode idt_target entry)
  unfolding idt_entry_encode idt_encoded part
  idt_entry_encode-IdtDecodes = record {
    after = idt_encoded;
    returns = refl;
    offset = omega (
      arith,
      part-eq entry.offset,
      part-eq (entry.offset / 2 ^ 16),
      part-eq (entry.offset / 2 ^ 32),
      part-eq (entry.offset / 2 ^ 48),
    );
    segment_selector = omega arith;
    ist = omega (arith, bit_and-mask 3 entry.ist);
    idt_flags = refl;
    reserved = refl;
  }
