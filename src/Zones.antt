-- ===== src/Zones.antt =====
-- kernel/src/system/system_paging.c, the page zones: the physical allocators of all usable regions of
-- memory, linked in three lists, with `system_paging_physical_alloc`, `system_paging_physical_free`
-- and the part of `system_paging_setup` that builds the lists.
--
-- The allocators are kept in one list in the order in which they are made, and a pointer to one is
-- its index. What is printed is left out.
pub mod Setup
pub mod Chain
pub mod Alloc
pub mod Valid
pub mod Kinds
pub mod Outcome
pub mod Free
pub mod RoundTrip
pub mod Ends
pub mod Append
pub mod Built
pub mod Enlist
pub mod Establish
pub mod Map
pub mod Complete
pub mod Example
mod Tests
use drastic.Base.{
  ℕ, zero, suc, ◌+◌, ◌-◌, ◌*◌, ◌/◌, ◌≤◌, ◌<◌, ◌≡◌, Bool, true, false, ◌&&◌, ◌||◌, Option, none,
  some, List, [], ◌∷◌, ◌++◌, ltb, leb, ◌==◌, if◌then◌else◌, length, get_elem?, set, Result, ok,
  stop, kpanic, bad_pointer, out_of_fuel, invalid_physical_page_free, kassert, ◌>>=◌, ◌>>◌, checked,
  write,
}
use drastic.Base.Int.{pos}
use drastic.PhysicalAllocator.{
  PhysicalAllocator, page_size, u64, alloc, free, calculate_required_size, init,
}

-- A pointer to an allocator. `base` is the local variable of the set-up.
pub data Pointer : Type 0 where
  null : Pointer
  base : Pointer
  sentinel : Pointer
  node : ℕ → Pointer

abbrev pub same_pointer : Pointer → Pointer → Bool
same_pointer null null = true
same_pointer base base = true
same_pointer sentinel sentinel = true
same_pointer (node i) (node j) = i == j
same_pointer _ _ = false

-- The three pointers of an allocator.
pub record Links : Type 0 where
  pub next : Pointer
  pub next_16mb : Pointer
  pub next_4gb : Pointer

-- A `System_Physical_Allocator` with its pointers.
pub record Node : Type 0 where
  pub pa : PhysicalAllocator
  pub links : Links

pub record Paging : Type 0 where
  pub nodes : List Node
  pub first : Pointer
  pub first_16mb : Pointer
  pub first_4gb : Pointer
  pub last : Pointer
  pub last_16mb : Pointer
  pub last_4gb : Pointer
  pub first_non_16mb : Pointer

-- `pa_sentinel`: a zeroed allocator whose pointers lead to itself.
abbrev pub sentinel_node : Node
sentinel_node = record {
  pa = record {
    size = 0;
    stack_top = pos 0;
    pages_bitmap = [];
    pages_stack = [];
    address_base = 0;
  };
  links = record { next = sentinel; next_16mb = sentinel; next_4gb = sentinel };
}

-- What a pointer leads to; `base` is gone when the set-up is over.
unfoldable pub load : List Node → Pointer → Result Node
load nodes null = stop bad_pointer
load nodes base = stop bad_pointer
load nodes sentinel = ok sentinel_node
load nodes (node i) = checked (get_elem? nodes i)

-- The loops write through no pointer but one to an allocator.
unfoldable pub store : List Node → Pointer → Node → Result (List Node)
store nodes (node i) n = write nodes i n
store nodes _ n = stop bad_pointer

unfoldable pub pa_is_sentinel : List Node → Pointer → Result Bool
unfolding load
pa_is_sentinel nodes pa = do n ← load nodes pa; ok (same_pointer pa n.links.next)

-- `system_pa_alloc` and `system_pa_free` through a pointer.
unfoldable pub alloc_at : List Node → Pointer → Result (Option ℕ × List Node)
unfolding load store
alloc_at nodes current = do
  n ← load nodes current
  (address, after) ← alloc n.pa
  nodes' ← store nodes current (record n { pa = after })
  ok (address, nodes')

pub free_at : List Node → Pointer → ℕ → Result (List Node)
unfolding load store
free_at nodes current address = do
  n ← load nodes current
  after ← free n.pa address
  store nodes current (record n { pa = after })

-- One of the loops of `system_paging_physical_alloc`, along the list that `follow` chooses.
unfoldable pub alloc_along :
    ℕ → (Links → Pointer) → List Node → Pointer → Result (Option ℕ × List Node)
alloc_along zero follow nodes current = stop out_of_fuel
alloc_along (suc fuel) follow nodes current = do
  at_end ← pa_is_sentinel nodes current
  elim at_end [
    | true ↦ ok (none, nodes)
    | false ↦ alloc_at nodes current >>= λ (address, after). elim address [
      | some a ↦ ok (some a, after)
      | none ↦ load after current >>= λ n. alloc_along fuel follow after (follow n.links)
    ]
  ]

pub data PageKind : Type 0 where
  normal : PageKind
  page_16mb : PageKind
  page_4gb : PageKind

-- A list visits each allocator once, and then the sentinel.
abbrev pub rounds : List Node → ℕ
rounds nodes = suc (length nodes)

abbrev pub alloc_16mb : Paging → Result (Option ℕ × Paging)
alloc_16mb paging = do
  (address, nodes) ←
      alloc_along (rounds paging.nodes) (λ links. links.next_16mb) paging.nodes paging.first_16mb
  ok (address, record paging { nodes = nodes })

-- `none` is the result with `*ok` false.
unfoldable pub physical_alloc : PageKind → Paging → Result (Option ℕ × Paging)
physical_alloc normal paging = do
  (address, nodes) ←
      alloc_along (rounds paging.nodes) (λ links. links.next) paging.nodes paging.first_non_16mb
  let after = record paging { nodes = nodes }
  elim address [ some a ↦ ok (some a, after) | none ↦ alloc_16mb after ]
physical_alloc page_16mb paging = alloc_16mb paging
physical_alloc page_4gb paging = do
  (address, nodes) ←
      alloc_along (rounds paging.nodes) (λ links. links.next_4gb) paging.nodes paging.first_4gb
  ok (address, record paging { nodes = nodes })

-- `address_base <= address && address < address_base + size * SYSTEM_PAGE_SIZE`
abbrev pub holds : PhysicalAllocator → ℕ → Bool
holds pa address =
    leb pa.address_base address && ltb address (u64 (pa.address_base + u64 (pa.size * page_size)))

-- The loop of `system_paging_physical_free`.
pub free_along : ℕ → ℕ → List Node → Pointer → Result (List Node)
free_along zero address nodes current = stop out_of_fuel
free_along (suc fuel) address nodes current = do
  at_end ← pa_is_sentinel nodes current
  elim at_end [
    | true ↦ stop (kpanic invalid_physical_page_free)
    | false ↦ load nodes current >>= λ n. elim (holds n.pa address) [
      | true ↦ free_at nodes current address
      | false ↦ free_along fuel address nodes n.links.next
    ]
  ]

pub physical_free : ℕ → Paging → Result Paging
physical_free address paging = do
  nodes ← free_along (rounds paging.nodes) address paging.nodes paging.first
  ok (record paging { nodes = nodes })
