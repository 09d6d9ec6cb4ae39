-- ===== src/PageTables.antt =====
-- kernel/src/system/system_paging.c, lines 137 to 360: the page tables of the processor, with mapping,
-- unmapping and cloning.
--
-- Memory is a function from the address of a 64-bit word to the word. A table is reached through the
-- offset at which the boot loader maps all physical memory, `hhdm_offset`. The allocators' own arrays are
-- kept apart, in `Paging`. The addresses that `asm_invlpg` flushes are recorded.
pub mod Entries
pub mod Walk
pub mod Pages
pub mod Frame
pub mod Grow
pub mod Enter
pub mod Find
pub mod Descend
pub mod Written
pub mod Flags
pub mod Space
pub mod Clone
pub mod Update
mod Tests
use drastic.Base.{
  ℕ, zero, suc, ◌+◌, ◌-◌, ◌*◌, ◌/◌, ◌^◌, ◌≤◌, ◌<◌, bit_and, bit_or, Bool, true, false, not, ◌&&◌,
  Option, none, some, List, [], ◌∷◌, ltb, leb, ◌==◌, if◌then◌else◌, Result, ok, stop, kpanic,
  page_mapping, kassert, ◌>>=◌, ◌>>◌,
}
use drastic.Base.Bits.{complement}
use drastic.PhysicalAllocator.{page_size, u64}
use drastic.Zones.{Paging, normal, physical_alloc}

pub record Machine : Type 0 where
  pub words : ℕ → ℕ
  pub paging : Paging
  pub flushed : List ℕ

-- `SYSTEM_PAGING_AMD64_FLAG_P`, `_RW`, `_US`, `_PS` and `_XD`
abbrev pub flag_p : ℕ
flag_p = 2 ^ 0

abbrev pub flag_rw : ℕ
flag_rw = 2 ^ 1

abbrev pub flag_us : ℕ
flag_us = 2 ^ 2

abbrev pub flag_ps : ℕ
flag_ps = 2 ^ 7

abbrev pub flag_xd : ℕ
flag_xd = 2 ^ 63

-- `SYSTEM_PAGING_AMD64_FLAG_ADDRESS`
abbrev pub flag_address : ℕ
flag_address = bit_and (2 ^ 48 - 1) (complement 64 (2 ^ 12 - 1))

-- `SYSTEM_PAGING_FLAG_WRITE`, `_EXEC` and `_USER`
abbrev pub flag_write : ℕ
flag_write = 2 ^ 0

abbrev pub flag_exec : ℕ
flag_exec = 2 ^ 1

abbrev pub flag_user : ℕ
flag_user = 2 ^ 2

-- `word & flag` as a condition
abbrev pub test : ℕ → ℕ → Bool
test word flag = not (bit_and word flag == 0)

-- `*target = value`
abbrev pub put : ℕ → ℕ → (ℕ → ℕ) → ℕ → ℕ
put target value words a = if a == target then value else words a

-- `zero((void *)page, SYSTEM_PAGE_SIZE)`
abbrev pub zeroed : ℕ → (ℕ → ℕ) → ℕ → ℕ
zeroed page words a = if leb page a && ltb a (page + page_size) then 0 else words a

-- The value that the four encoders store.
abbrev pub encoded : ℕ → ℕ → ℕ
encoded target_address flags = bit_or (bit_and target_address flag_address) flags

unfoldable pub pml4_entry : ℕ → ℕ → ℕ → Machine → Result Machine
pml4_entry target target_address flags m = do
  kassert (not (test flags flag_ps))
  ok (record m { words = put target (encoded target_address flags) m.words })

unfoldable pub pdpt_entry : ℕ → ℕ → ℕ → Machine → Result Machine
pdpt_entry target target_address flags m =
    ok (record m { words = put target (encoded target_address flags) m.words })

unfoldable pub pd_entry : ℕ → ℕ → ℕ → Machine → Result Machine
pd_entry target target_address flags m =
    ok (record m { words = put target (encoded target_address flags) m.words })

unfoldable pub pt_entry : ℕ → ℕ → ℕ → Machine → Result Machine
pt_entry target target_address flags m =
    ok (record m { words = put target (encoded target_address flags) m.words })

unfoldable pub amd64_flag_convert : ℕ → ℕ
amd64_flag_convert flags =
    let value = if test flags flag_write then bit_or 0 flag_rw else 0 in
    let value' = if test flags flag_user then bit_or value flag_us else value in
    if not (test flags flag_exec) then bit_or value' flag_xd else value'

-- `system_paging_entry__new_physical`
unfoldable pub new_physical : ℕ → Machine → Result (ℕ × Machine)
new_physical hhdm_offset m = do
  (new_address, paging) ← physical_alloc normal m.paging
  elim new_address [
    | none ↦ stop (kpanic page_mapping)
    | some a ↦ ok (a, record m { words = zeroed (u64 (a + hhdm_offset)) m.words; paging = paging })
  ]

-- `SYSTEM_PAGING_ASSERT_ADDRESS_ALIGNED`
abbrev pub assert_address_aligned : ℕ → Result (Unit {0})
assert_address_aligned variable = kassert (bit_and variable (page_size - 1) == 0)

-- The entry with index `i` of a table of 64-bit words.
abbrev pub slot : ℕ → ℕ → ℕ
slot table i = table + 8 * i

-- `(virtual_address >> shift) & ((1 << 9) - 1)`
abbrev pub index : ℕ → ℕ → ℕ
index shift virtual_address = bit_and (virtual_address / 2 ^ shift) (2 ^ 9 - 1)

abbrev pub parent_flags : ℕ
parent_flags = bit_or flag_p flag_rw

-- `(U64*)((entry & SYSTEM_PAGING_AMD64_FLAG_ADDRESS) + hhdm_offset)`
abbrev pub pointed : ℕ → ℕ → ℕ
pointed hhdm_offset entry = u64 (bit_and entry flag_address + hhdm_offset)

-- One level of the walk: an entry that is not present is given a new table, by the encoder of its
-- level, and the table that the entry then points to is the next one.
unfoldable pub enter :
    ℕ → (ℕ → ℕ → ℕ → Machine → Result Machine) → ℕ → Machine → Result (ℕ × Machine)
enter hhdm_offset encoder entry m =
    if test (m.words entry) flag_p
    then ok (pointed hhdm_offset (m.words entry), m)
    else (new_physical hhdm_offset m >>= λ (new_address, m1).
        encoder entry new_address parent_flags m1 >>= λ m2.
        ok (pointed hhdm_offset (m2.words entry), m2))

-- `system_paging_entry`: the address of the entry for a virtual address.
unfoldable pub entry : ℕ → ℕ → ℕ → Machine → Result (ℕ × Machine)
entry hhdm_offset table virtual m = do
  assert_address_aligned virtual
  kassert (not (table == 0))
  (pdpt, m1) ← enter hhdm_offset pml4_entry (slot table (index 39 virtual)) m
  (pd, m2) ← enter hhdm_offset pdpt_entry (slot pdpt (index 30 virtual)) m1
  (pt, m3) ← enter hhdm_offset pd_entry (slot pd (index 21 virtual)) m2
  ok (slot pt (index 12 virtual), m3)

abbrev pub invlpg : ℕ → Machine → Machine
invlpg virtual m = record m { flushed = virtual ∷ m.flushed }

-- `system_paging_map`
unfoldable pub map_page : ℕ → ℕ → ℕ → ℕ → ℕ → Machine → Result Machine
map_page hhdm_offset table physical virtual flags m = do
  assert_address_aligned virtual
  assert_address_aligned physical
  (target, m1) ← entry hhdm_offset table virtual m
  m2 ← pt_entry target physical (bit_or (amd64_flag_convert flags) flag_p) m1
  ok (invlpg virtual m2)

-- `system_paging_unmap`
unfoldable pub unmap_page : ℕ → ℕ → ℕ → Machine → Result Machine
unmap_page hhdm_offset table virtual m = do
  assert_address_aligned virtual
  (target, m1) ← entry hhdm_offset table virtual m
  ok (invlpg virtual (record m1 { words = put target 0 m1.words }))
