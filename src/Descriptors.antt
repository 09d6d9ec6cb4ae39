-- ===== src/Descriptors.antt =====
-- kernel/src/system/system_gdt.c and system_idt.c: the encoders of segment and interrupt descriptors, and
-- the loop of `system_gdt_setup` that fills the table.
--
-- A target is the bytes that its pointer leads to: 8 for a segment, 16 for an interrupt.
pub mod Decode
mod Tests
use drastic.Base.{
  ℕ, zero, suc, ◌+◌, ◌-◌, ◌*◌, ◌/◌, ◌%◌, ◌^◌, ◌≤◌, ◌<◌, bit_and, bit_or, Bool, true, false, List,
  [], ◌∷◌, ◌++◌, ltb, if◌then◌else◌, Result, ok, stop, kpanic, gdt_limit, ◌>>=◌, write, take, drop,
}

-- `System_Gdt_Entry`
pub record GdtEntry : Type 0 where
  pub base : ℕ
  pub limit : ℕ
  pub access_byte : ℕ
  pub flags : ℕ

-- A store to a `U8`
abbrev pub u8 : ℕ → ℕ
u8 n = n % 256

abbrev pub u16 : ℕ → ℕ
u16 n = n % 2 ^ 16

-- The assignments of `system_gdt_entry_encode`, in their order.
unfoldable pub gdt_bytes : List ℕ → GdtEntry → Result (List ℕ)
gdt_bytes target entry = do
  t1 ← write target 0 (bit_and entry.limit 0xff)
  t2 ← write t1 1 (bit_and (entry.limit / 2 ^ 8) 0xff)
  t3 ← write t2 6 (bit_and (entry.limit / 2 ^ 16) 0x0f)
  t4 ← write t3 2 (bit_and entry.base 0xff)
  t5 ← write t4 3 (bit_and (entry.base / 2 ^ 8) 0xff)
  t6 ← write t5 4 (bit_and (entry.base / 2 ^ 16) 0xff)
  t7 ← write t6 7 (bit_and (entry.base / 2 ^ 24) 0xff)
  t8 ← write t7 5 entry.access_byte
  write t8 6 (u8 (entry.flags * 2 ^ 4))

unfoldable pub gdt_entry_encode : List ℕ → GdtEntry → Result (List ℕ)
gdt_entry_encode target entry =
    if ltb 0xfffff entry.limit then stop (kpanic gdt_limit) else gdt_bytes target entry

-- The loop of `system_gdt_setup`: each entry goes to the next 8 bytes of the data.
unfoldable pub gdt_encode_all : List GdtEntry → List ℕ → Result (List ℕ)
gdt_encode_all [] gdt_data = ok gdt_data
gdt_encode_all (entry ∷ entries) gdt_data = do
  target ← gdt_entry_encode (take 8 gdt_data) entry
  rest ← gdt_encode_all entries (drop 8 gdt_data)
  ok (target ++ rest)

-- `system_gdt.entries`
abbrev pub long_mode_code : ℕ → GdtEntry
long_mode_code access = record {
  base = 0;
  limit = 0xfffff;
  access_byte = access;
  flags = bit_or (2 ^ 1) (2 ^ 3);
}

abbrev pub data_segment : ℕ → GdtEntry
data_segment access = record {
  base = 0;
  limit = 0xfffff;
  access_byte = access;
  flags = bit_or (2 ^ 2) (2 ^ 3);
}

abbrev pub gdt_entries : List GdtEntry
gdt_entries =
    record { base = 0; limit = 0; access_byte = 0; flags = 0 }
    ∷ long_mode_code 0x9a
    ∷ data_segment 0x92
    ∷ data_segment 0xf2
    ∷ long_mode_code 0xfa
    ∷ []

-- `System_Idt_Entry`
pub record IdtEntry : Type 0 where
  pub offset : ℕ
  pub segment_selector : ℕ
  pub ist : ℕ
  pub idt_flags : ℕ

-- `target_u16[k] = value`, the lower byte first
abbrev pub write_u16 : List ℕ → ℕ → ℕ → Result (List ℕ)
write_u16 target k value =
    write target (2 * k) (value % 256) >>= λ t. write t (2 * k + 1) (value / 256)

unfoldable pub idt_entry_encode : List ℕ → IdtEntry → Result (List ℕ)
idt_entry_encode target entry = do
  t1 ← write_u16 target 0 (bit_and (u16 entry.offset) 0xffff)
  t2 ← write_u16 t1 3 (bit_and (u16 (entry.offset / 2 ^ 16)) 0xffff)
  t3 ← write_u16 t2 4 (bit_and (u16 (entry.offset / 2 ^ 32)) 0xffff)
  t4 ← write_u16 t3 5 (bit_and (u16 (entry.offset / 2 ^ 48)) 0xffff)
  t5 ← write_u16 t4 1 entry.segment_selector
  t6 ← write t5 4 (bit_and entry.ist 0x7)
  t7 ← write t6 5 entry.idt_flags
  t8 ← write_u16 t7 6 0
  write_u16 t8 7 0

-- `SYSTEM_GDT_KCODE_SELECTOR`
abbrev pub kcode_selector : ℕ
kcode_selector = bit_or (1 * 2 ^ 3) 0

-- `system_idt_interrupt_entry`, on the 16 bytes of the vector
unfoldable pub idt_interrupt_entry : List ℕ → ℕ → ℕ → ℕ → Result (List ℕ)
idt_interrupt_entry target handler dpl ist = idt_entry_encode target (record {
  offset = handler;
  segment_selector = kcode_selector;
  ist = ist;
  idt_flags = u8 (bit_or (bit_or 14 (bit_and dpl 3 * 2 ^ 5)) (1 * 2 ^ 7));
})
