-- ===== src/PageTables/Clone.antt =====
-- kernel/src/system/system_paging.c, lines 270 to 360: cloning a table with all tables below it.
use drastic.Base.{
  ℕ, zero, suc, ◌+◌, ◌-◌, bit_and, bit_or, true, false, not, ◌&&◌, none, some, ltb, leb,
  if◌then◌else◌, Result, ok, stop, kpanic, page_mapping, ◌>>=◌, ◌>>◌,
}
use drastic.Base.Bits.{complement}
use drastic.PhysicalAllocator.{page_size, u64}
use drastic.Zones.{normal, physical_alloc}
use drastic.PageTables.{
  Machine, flag_p, flag_ps, flag_address, test, put, slot, pointed, assert_address_aligned,
}

-- `System_Paging_Address`
pub record PagingAddress : Type 0 where
  pub physical : ℕ
  pub virtual : ℕ

-- `memcpy(dest, src, SYSTEM_PAGE_SIZE)` between two pages, by words.
abbrev pub copied : ℕ → ℕ → (ℕ → ℕ) → ℕ → ℕ
copied dest src words a =
    if leb dest a && ltb a (dest + page_size) then words (src + (a - dest)) else words a

unfoldable pub page_clone : ℕ → ℕ → Machine → Result (PagingAddress × Machine)
page_clone page hhdm_offset m = do
  (new_address, paging) ← physical_alloc normal m.paging
  elim new_address [
    | none ↦ stop (kpanic page_mapping)
    | some a ↦ ok (
      record { physical = a; virtual = u64 (a + hhdm_offset) },
      record m { words = copied (u64 (a + hhdm_offset)) page m.words; paging = paging },
    )
  ]

unfoldable pub table_entry_update_address : ℕ → ℕ → Result ℕ
table_entry_update_address entry new_address = do
  assert_address_aligned new_address
  ok (bit_or (bit_and entry (complement 64 flag_address)) (bit_and new_address flag_address))

-- Clones what the entry at `entry` points to and returns the address of the copy.
unfoldable pub table_page_entry_clone : ℕ → ℕ → Machine → Result (ℕ × Machine)
table_page_entry_clone entry hhdm_offset m = do
  (new_address, m1) ← page_clone (pointed hhdm_offset (m.words entry)) hhdm_offset m
  updated ← table_entry_update_address (m1.words entry) new_address.physical
  ok (new_address.virtual, record m1 { words = put entry updated m1.words })

-- The innermost loop, over the entries of a page directory from `k` on.
unfoldable pub clone_pd : ℕ → ℕ → ℕ → ℕ → Machine → Result Machine
clone_pd zero k new_pd hhdm_offset m = ok m
clone_pd (suc left) k new_pd hhdm_offset m =
    let entry = m.words (slot new_pd k) in
    elim (test entry flag_p && not (test entry flag_ps)) [
      | false ↦ clone_pd left (k + 1) new_pd hhdm_offset m
      | true ↦ table_page_entry_clone (slot new_pd k) hhdm_offset m >>= λ (new_pt, m1).
          clone_pd left (k + 1) new_pd hhdm_offset m1
    ]

-- The middle loop, over the entries of a page directory pointer table from `j` on.
unfoldable pub clone_pdpt : ℕ → ℕ → ℕ → ℕ → Machine → Result Machine
clone_pdpt zero j new_pdpt hhdm_offset m = ok m
clone_pdpt (suc left) j new_pdpt hhdm_offset m =
    let entry = m.words (slot new_pdpt j) in
    elim (test entry flag_p && not (test entry flag_ps)) [
      | false ↦ clone_pdpt left (j + 1) new_pdpt hhdm_offset m
      | true ↦ table_page_entry_clone (slot new_pdpt j) hhdm_offset m >>= λ (new_pd, m1).
          clone_pd 512 0 new_pd hhdm_offset m1 >>= λ m2.
          clone_pdpt left (j + 1) new_pdpt hhdm_offset m2
    ]

-- The outer loop, over the entries of the cloned table from `i` on.
unfoldable pub clone_pml4 : ℕ → ℕ → ℕ → ℕ → Machine → Result Machine
clone_pml4 zero i pml4 hhdm_offset m = ok m
clone_pml4 (suc left) i pml4 hhdm_offset m = elim (test (m.words (slot pml4 i)) flag_p) [
  | false ↦ clone_pml4 left (i + 1) pml4 hhdm_offset m
  | true ↦ table_page_entry_clone (slot pml4 i) hhdm_offset m >>= λ (new_pdpt, m1).
      clone_pdpt 512 0 new_pdpt hhdm_offset m1 >>= λ m2. clone_pml4 left (i + 1) pml4 hhdm_offset m2
]

unfoldable pub table_clone : ℕ → ℕ → Machine → Result (PagingAddress × Machine)
table_clone hhdm_offset table m = do
  (cloned_table_address, m1) ← page_clone table hhdm_offset m
  m2 ← clone_pml4 512 0 cloned_table_address.virtual hhdm_offset m1
  ok (cloned_table_address, m2)
