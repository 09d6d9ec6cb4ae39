-- ===== src/PageTables/Tests.antt =====
-- Runs of the page table code on an empty table.
use drastic.Base.{
  ℕ, zero, suc, ◌+◌, ◌*◌, ◌^◌, ◌<◌, ◌≡◌, refl, ap, sym, ◌∙◌, ◌⊎◌, ◌∷◌, List, [], ok, stop, kpanic,
  page_mapping, ◌>>=◌, ◌==◌, if◌then◌else◌, arith, length, true,
}
use drastic.PhysicalAllocator.Pool.{has}
use drastic.PhysicalAllocator.Valid.{pool}
use drastic.Zones.{physical_alloc, alloc_along, alloc_at, pa_is_sentinel, load, store}
use drastic.PhysicalAllocator.{alloc, set_used}
use drastic.Zones.Chain.{node_at}
use drastic.Zones.Example.{small, small_layout, small-IsWellFormed}
use drastic.PageTables.{
  Machine, map_page, unmap_page, flag_write, amd64_flag_convert, entry, enter, new_physical,
  pml4_entry, pdpt_entry, pd_entry, pt_entry,
}
use drastic.PageTables.Walk.{Walk, at_table, at_page, missing, step, walk, translate}
use drastic.PageTables.Pages.{IsMappable}
use drastic.PageTables.Enter.{Fails, IsState}
use drastic.PageTables.Clone.{
  table_entry_update_address, table_clone, clone_pml4, clone_pdpt, clone_pd, table_page_entry_clone,
  page_clone,
}
use drastic.PageTables.Update.{Redirects, table_entry_update_address-Redirects}
use drastic.PageTables.Space.{Maps, Unmaps, map_page-Maps, unmap_page-Unmaps}

abbrev hhdm_offset : ℕ
hhdm_offset = 0xffff800000000000

-- A table in the page 0x9000, which no allocator manages.
abbrev table : ℕ
table = 0xffff800000009000

abbrev machine : Machine
machine = record { words = λ a. 0; paging = small; flushed = [] }

small-IsMappable : (i : ℕ) → i < 3 → IsMappable small i
small-IsMappable zero h = record { aligned = refl; small = omega arith; low = omega arith }
small-IsMappable (suc zero) h = record { aligned = refl; small = omega arith; low = omega arith }
small-IsMappable (suc (suc zero)) h = record {
  aligned = refl;
  small = omega arith;
  low = omega arith;
}
small-IsMappable (suc (suc (suc i))) h = absurd (omega arith)

walk-empty : (i : ℕ) (p : List ℕ) → walk hhdm_offset (λ a. 0) table (i ∷ p) ≡ missing
walk-empty i [] = refl
walk-empty i (j ∷ p) = ap (step hhdm_offset (λ a. 0) (suc (suc (length p))) i) (walk-empty j p)

only_root :
    (p : List ℕ) (a : ℕ) → walk hhdm_offset (λ a. 0) table p ≡ at_table a → (p ≡ []) × (a ≡ table)
only_root [] a e = (refl, cc e)
only_root (i ∷ p) a e = absurd (cc (sym (walk-empty i p) ∙ e))

free_page_at :
    (i page b : ℕ)
    → i < 3
    → has page (pool (node_at small.nodes i).pa) ≡ true
    → b ≡ (node_at small.nodes i).pa.address_base + page * 4096
    → (0x9000 < b) × (b < 2 ^ 32)
free_page_at zero page b h m e = ground arith
free_page_at (suc zero) page b h m e = ground arith
free_page_at (suc (suc zero)) page b h m e = ground arith
free_page_at (suc (suc (suc i))) page b h m e = absurd (omega arith)

machine-IsState : IsState hhdm_offset table small_layout machine
machine-IsState = record {
  ready = record { well_formed = small-IsWellFormed; mappable = small-IsMappable };
  tree = record {
    root_aligned = refl;
    offset_aligned = refl;
    unique = λ p q a hp hq ep eq. (only_root p a ep).0 ∙ sym (only_root q a eq).0;
    not_free = λ p a b hp ep f same.
        omega
          (arith, same, (only_root p a ep).1, free_page_at f.i f.page b f.i_lt f.in_pool f.at_page);
  };
}

map_page-Maps_example :
    ((map_page hhdm_offset table 0x7000 0x400000 flag_write machine ≡ stop (kpanic page_mapping))
      × Fails 3 small)
    ⊎ Maps hhdm_offset table small_layout 0x7000 0x400000 flag_write machine
        (map_page hhdm_offset table 0x7000 0x400000 flag_write machine)
map_page-Maps_example =
    map_page-Maps hhdm_offset table small_layout machine 0x400000 machine-IsState (omega arith) refl
      tt 0x7000 flag_write refl (omega arith)

unmap_page-Unmaps_example :
    ((unmap_page hhdm_offset table 0x400000 machine ≡ stop (kpanic page_mapping)) × Fails 3 small)
    ⊎ Unmaps hhdm_offset table small_layout 0x400000 machine
        (unmap_page hhdm_offset table 0x400000 machine)
unmap_page-Unmaps_example =
    unmap_page-Unmaps hhdm_offset table small_layout machine 0x400000 machine-IsState (omega arith)
      refl tt

-- The page and its neighbour after the call.
abbrev seen : Machine → Walk × Walk
seen m =
    (translate hhdm_offset m.words table 0x400000, translate hhdm_offset m.words table 0x401000)

map_then_look :
    (map_page hhdm_offset table 0x7000 0x400000 flag_write machine >>= λ m. ok (seen m))
    ≡ ok (at_page 4 0x8000000000007003, missing)
unfolding map_page entry enter new_physical pml4_entry pdpt_entry pd_entry pt_entry
    amd64_flag_convert physical_alloc alloc_along alloc_at pa_is_sentinel load alloc set_used store
map_then_look = refl

map_then_unmap :
    (map_page hhdm_offset table 0x7000 0x400000 flag_write machine >>= λ m.
    unmap_page hhdm_offset table 0x400000 m >>= λ m. ok (seen m))
    ≡ ok (missing, missing)
unfolding map_page unmap_page entry enter new_physical pml4_entry pdpt_entry pd_entry pt_entry
    amd64_flag_convert physical_alloc alloc_along alloc_at pa_is_sentinel load alloc set_used store
map_then_unmap = refl

table_entry_update_address-Redirects_example :
    Redirects 0x8000000000007003 0x9000 (table_entry_update_address 0x8000000000007003 0x9000)
table_entry_update_address-Redirects_example =
    table_entry_update_address-Redirects 0x8000000000007003 0x9000 (omega arith) refl

-- What a clone of a table translates the page to, in a table that maps it.
abbrev mapped_words : ℕ → ℕ
mapped_words a =
    if a == table then 0x4003 else (if a == 0xffff800000004000 then 0x8000000000007083 else 0)

-- A page of 1 GiB is kept as it is.
clone_then_look :
    (table_clone hhdm_offset table (record machine { words = mapped_words }) >>= λ (address, m).
    ok (translate hhdm_offset m.words address.virtual 0))
    ≡ ok (at_page 2 0x8000000000007083)
unfolding table_clone clone_pml4 clone_pdpt clone_pd table_page_entry_clone
    table_entry_update_address page_clone physical_alloc alloc_along alloc_at pa_is_sentinel load
    alloc set_used store
clone_then_look = refl
