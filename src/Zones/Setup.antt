-- ===== src/Zones/Setup.antt =====
-- `system_paging_setup` up to the replacement of the page table: the loop over the memory map.
use drastic.Base.{
  ℕ, ◌+◌, ◌*◌, ◌/◌, Bool, ◌&&◌, List, [], ◌∷◌, ◌++◌, ltb, leb, if◌then◌else◌, length, Result, ok,
  kassert, ◌>>=◌, ◌>>◌,
}
use drastic.PhysicalAllocator.{PhysicalAllocator, page_size, u64, calculate_required_size, init}
use drastic.Zones.{
  Pointer, null, base, sentinel, node, Links, Node, Paging, load, store, pa_is_sentinel,
}

-- `LIMINE_MEMMAP_…`, the kinds of memory that the boot loader reports.
pub data MemmapKind : Type 0 where
  usable : MemmapKind
  reserved : MemmapKind
  acpi_reclaimable : MemmapKind
  acpi_nvs : MemmapKind
  bad_memory : MemmapKind
  bootloader_reclaimable : MemmapKind
  executable_and_modules : MemmapKind
  framebuffer : MemmapKind
  reserved_mapped : MemmapKind

pub record MemmapEntry : Type 0 where
  pub entry_base : ℕ
  pub entry_length : ℕ
  pub kind : MemmapKind

-- The local variables of the set-up, and the allocators made so far.
pub record Building : Type 0 where
  pub nodes : List Node
  pub base_links : Links
  pub last : Pointer
  pub last_16mb : Pointer
  pub last_4gb : Pointer
  pub first_non_16mb : Pointer

abbrev pub null_links : Links
null_links = record { next = null; next_16mb = null; next_4gb = null }

abbrev pub sentinel_links : Links
sentinel_links = record { next = sentinel; next_16mb = sentinel; next_4gb = sentinel }

abbrev pub nothing_built : Building
nothing_built = record {
  nodes = [];
  base_links = null_links;
  last = base;
  last_16mb = base;
  last_4gb = base;
  first_non_16mb = sentinel;
}

-- `p->next = …` for each of the three pointers, through a pointer to `base` or to an allocator.
unfoldable pub set_links : Pointer → (Links → Links) → Building → Result Building
set_links base change b = ok (record b { base_links = change b.base_links })
set_links p change b = do
  n ← load b.nodes p
  nodes ← store b.nodes p (record n { links = change n.links })
  ok (record b { nodes = nodes })

-- `SL_APPEND_BASE(last, next, current)` and its two siblings.
unfoldable pub append : Pointer → Building → Result Building
append current b = do
  b' ← set_links b.last (λ links. record links { next = current }) b
  ok (record b' { last = current })

unfoldable pub append_16mb : Pointer → Building → Result Building
append_16mb current b = do
  b' ← set_links b.last_16mb (λ links. record links { next_16mb = current }) b
  ok (record b' { last_16mb = current })

unfoldable pub append_4gb : Pointer → Building → Result Building
append_4gb current b = do
  b' ← set_links b.last_4gb (λ links. record links { next_4gb = current }) b
  ok (record b' { last_4gb = current })

-- `entry->base < limit && entry->base + entry->length < limit`
abbrev pub ends_below : MemmapEntry → ℕ → Bool
ends_below entry limit =
    ltb entry.entry_base limit && ltb (u64 (entry.entry_base + entry.entry_length)) limit

abbrev pub mb_16 : ℕ
mb_16 = 16 * 1024 * 1024

abbrev pub gb_4 : ℕ
gb_4 = 4 * 1024 * 1024 * 1024

-- The zone of 16 MB, or else the first allocator outside it.
unfoldable pub enter_16mb : MemmapEntry → Pointer → Building → Result Building
enter_16mb entry current b = if ends_below entry mb_16 then append_16mb current b else do
  none_yet ← pa_is_sentinel b.nodes b.first_non_16mb
  ok (if none_yet then record b { first_non_16mb = current } else b)

unfoldable pub enter_4gb : MemmapEntry → Pointer → Building → Result Building
enter_4gb entry current b = if ends_below entry gb_4 then append_4gb current b else ok b

-- The allocator of a usable region, in the metadata pages at its start.
unfoldable pub make_allocator : MemmapEntry → Result PhysicalAllocator
make_allocator entry = do
  required_length ← calculate_required_size (entry.entry_length / page_size)
  let required_pages = required_length / page_size + 1
  kassert (leb required_length entry.entry_length)
  init entry.entry_base required_pages (entry.entry_length / page_size)

-- One entry of the memory map.
unfoldable pub add_usable : MemmapEntry → Building → Result Building
add_usable entry b = if leb entry.entry_length page_size then ok b else do
  pa ← make_allocator entry
  let current = node (length b.nodes)
  let b₁ = record b { nodes = b.nodes ++ record { pa = pa; links = sentinel_links } ∷ [] }
  b₂ ← append current b₁
  b₃ ← enter_16mb entry current b₂
  enter_4gb entry current b₃

unfoldable pub add_entry : MemmapKind → MemmapEntry → Building → Result Building
add_entry usable entry b = add_usable entry b
add_entry _ entry b = ok b

unfoldable pub add_entries : List MemmapEntry → Building → Result Building
add_entries [] b = ok b
add_entries (entry ∷ entries) b = add_entry entry.kind entry b >>= add_entries entries

unfoldable pub setup_zones : List MemmapEntry → Result Paging
setup_zones entries = do
  b ← add_entries entries nothing_built
  ok (record {
    nodes = b.nodes;
    first = b.base_links.next;
    first_16mb = b.base_links.next_16mb;
    first_4gb = b.base_links.next_4gb;
    last = b.last;
    last_16mb = b.last_16mb;
    last_4gb = b.last_4gb;
    first_non_16mb = b.first_non_16mb;
  })
