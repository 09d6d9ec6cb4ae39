-- ===== src/Lib.antt =====
-- drastic: a small x86-64 kernel, modelled function by function from its C sources: the management of
-- physical memory, the page tables, the descriptor tables, the memory routines, the printing of numbers,
-- and a tree of ranges. What is proved of them, and under which conditions, is in the list at the end,
-- with the mistakes that the code makes outside of these conditions.
--
-- The parts, and how they interact:
--   * PhysicalAllocator (kernel/src/system/system_physical_allocator.c): one range of physical pages,
--     with a bitmap of used pages and a stack of free ones. `System_Physical_Allocator` is the record
--     `PhysicalAllocator` without its three list pointers; each `system_pa_<name>` is `<name>`.
--   * Zones (kernel/src/system/system_paging.c, lines 1 to 135 and 362 to 462): the allocators of all
--     usable regions, linked in three lists through pointers and a sentinel.
--     `system_paging_physical_alloc` and `system_paging_physical_free` are `Zones.physical_alloc` and
--     `Zones.physical_free`; the loop of `system_paging_setup` over the memory map is
--     `Zones.Setup.setup_zones`. The zones call the physical allocators, one after the other.
--   * PageTables (the same file, lines 137 to 360): the tables of the processor. `system_paging_entry`,
--     `_map` and `_unmap` are `entry`, `map_page` and `unmap_page`; PageTables/Clone has
--     `system_paging_table_clone`. New tables come from the zones. PageTables/Walk reads
--     from memory which entry maps an address, large pages included; the code is proved against it:
--     PageTables/Frame and Grow say what a write to one entry leaves alone, PageTables/Enter, Find and
--     Descend go down the levels, and PageTables/Space has the results.
--   * Memory (kernel/src/memory.c): memcpy, memset, memmove and memcmp on a list of bytes.
--   * Bytes (kernel/src/base/base_bytes.c, base_string.c): views of memory with a checked length.
--   * Format (kernel/src/base/base_format.c, base_stream.c): numbers and formats, written to a stream
--     that is known by the list of the buffers it is given. It fills its buffer through Bytes.
--   * Descriptors (kernel/src/system/system_gdt.c, system_idt.c): the encoders of segment and interrupt
--     descriptors, with decoders in Descriptors/Decode.
--   * Acpi (kernel/src/system/system_acpi.c): the checks and the reading of the root tables.
--   * RbTree (experiments/rbtree.c): a red-black tree of ranges whose nodes are also in a list. The nodes
--     are numbers, their fields functions of the number. RbTree/Arena gives out and frees nodes;
--     RbTree/Insert, Delete and Search have `rb_insert`, `rb_delete` and the searches. RbTree/Model has the
--     trees as data, with insertion and deletion by clauses and their order and balance; RbTree/Heap
--     says when nodes in memory are such a tree, and that the rotations and repairs do there what
--     they do on data; RbTree/Invariant joins both with the list and the free nodes.
--   * Base holds what the others share: C arrays as lists, machine words and their bits, and the type
--     `Result` of a call that may not return. `kassert` and `kpanic` (kernel/src/base/base_panic.c)
--     halt the machine, so a failing one ends the call with `stop`; an access outside an array or
--     through a pointer to nothing ends it so too, with a reason of its own, as do the other things that
--     C leaves undefined.
--
-- Conventions. A function that changes a structure returns the changed structure. Numbers are natural
-- numbers; where the source computes in 32 or 64 bits the wrap-around is written out (`u32`, `u64`,
-- `complement 64`). `Int` is a natural number where the code keeps it non-negative, and an integer
-- (Base/Int) where it does not, as in `stack_top`. A `bool *ok` result is an Option: `none` is false.
-- The page tables see memory as a function from the address of a 64-bit word to the word; the arrays of
-- the allocators are kept apart from it. An allocator's arrays have the entries that lie in its metadata
-- pages: where these are too few, the model stops, and the code would go on in the pages behind them.
-- Physical addresses have the 48 bits of the code's address field. The rights of a page are those of its
-- last entry; how the processor combines them with those of the tables above is not modelled.
--
-- Fuel. The loops along the lists of allocators take one round for each allocator and one for the
-- sentinel (`Zones.rounds`); on well-formed lists that is always enough. The digits of a number take at
-- most 97 rounds, since the buffer ends after 96; the swaps of `bytes_reverse` one for each byte; the loop
-- of `vformat` one for each character and one more. The theorems about these loops
-- state what the call returns, and for `vformat` that it is what a reading of the format without indices
-- and without fuel gives (Format/Pieces). The calls on the red-black tree
-- take one round for each node that has been given out and one more, which is enough for every tree
-- that satisfies the invariant. All other loops are structural.
--
-- Not modelled: what the kernel prints about itself, the boot loader's structures beyond the fields that
-- are read, the hardware instructions but for the record of flushed addresses, the serial port, the
-- APIC, the interrupt handlers, and the printing of experiments/rbtree.c.
pub mod Base
pub mod PhysicalAllocator
pub mod Zones
pub mod PageTables
pub mod Memory
pub mod Bytes
pub mod Format
pub mod Descriptors
pub mod Acpi
pub mod RbTree
