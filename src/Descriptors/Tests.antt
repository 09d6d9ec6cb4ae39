-- ===== src/Descriptors/Tests.antt =====
-- The descriptors of the kernel.
use drastic.Base.{◌≡◌, refl, ◌++◌, ok, stop, kpanic, gdt_limit, replicate, arith}
use drastic.Descriptors.{
  IdtEntry, gdt_bytes, gdt_entry_encode, gdt_encode_all, gdt_entries, long_mode_code,
  idt_entry_encode, idt_interrupt_entry,
}
use drastic.Descriptors.Decode.{
  eight, GdtDecodes, gdt_entry_encode-GdtDecodes, IdtDecodes, idt_entry_encode-IdtDecodes,
}

-- The byte 6 of each segment has no limit bits.
whole_table :
    gdt_encode_all gdt_entries (replicate 40 0)
    ≡ ok (
        eight 0 0 0 0 0 0 0 0
        ++ eight 0xff 0xff 0 0 0 0x9a 0xa0 0
        ++ eight 0xff 0xff 0 0 0 0x92 0xc0 0
        ++ eight 0xff 0xff 0 0 0 0xf2 0xc0 0
        ++ eight 0xff 0xff 0 0 0 0xfa 0xa0 0)
unfolding gdt_encode_all gdt_entry_encode gdt_bytes
whole_table = refl

too_long :
    gdt_entry_encode
      (replicate 8 0)
      (record { base = 0; limit = 0x100000; access_byte = 0; flags = 0 })
    ≡ stop (kpanic gdt_limit)
unfolding gdt_entry_encode
too_long = refl

gate :
    idt_interrupt_entry (replicate 16 0) 0xffffffff80001234 0 0
    ≡ ok (eight 0x34 0x12 8 0 0 0x8e 0 0x80 ++ eight 0xff 0xff 0xff 0xff 0 0 0 0)
unfolding idt_interrupt_entry idt_entry_encode
gate = refl

gdt_entry_encode-GdtDecodes_example :
    GdtDecodes
      (long_mode_code 0x9a)
      (gdt_entry_encode (eight 0 0 0 0 0 0 0 0) (long_mode_code 0x9a))
gdt_entry_encode-GdtDecodes_example =
    gdt_entry_encode-GdtDecodes 0 0 0 0 0 0 0 0 (long_mode_code 0x9a) (omega arith) (omega arith)
      (omega arith)

abbrev breakpoint_gate : IdtEntry
breakpoint_gate = record {
  offset = 0xffffffff80001234;
  segment_selector = 8;
  ist = 1;
  idt_flags = 0xee;
}

idt_entry_encode-IdtDecodes_example :
    IdtDecodes breakpoint_gate
      (idt_entry_encode (eight 0 0 0 0 0 0 0 0 ++ eight 0 0 0 0 0 0 0 0) breakpoint_gate)
idt_entry_encode-IdtDecodes_example =
    idt_entry_encode-IdtDecodes 0 0 0 0 0 0 0 0 0 0 0 0 0 0 0 0 breakpoint_gate (omega arith)
