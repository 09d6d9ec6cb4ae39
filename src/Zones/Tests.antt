-- ===== src/Zones/Tests.antt =====
-- The page zones of a small memory map.
use drastic.Base.{
  ℕ, zero, suc, ◌≡◌, refl, true, false, List, [], ◌∷◌, none, some, ok, stop, kpanic, bad_pointer,
  invalid_physical_page_free, arith, ◌⊎◌, ◌>>=◌,
}
use drastic.Base.Int.{pos, negsuc}
use drastic.PhysicalAllocator.{
  push_pages, mark_used, set_used, alloc, init, calculate_required_size,
}
use drastic.Zones.{
  sentinel, node, Paging, normal, page_16mb, physical_alloc, physical_free, holds, alloc_along,
  alloc_at, pa_is_sentinel, load, store,
}
use drastic.Zones.Chain.{node_at}
use drastic.Zones.Setup.{
  MemmapEntry, usable, reserved, setup_zones, add_entries, add_entry, add_usable, make_allocator,
  append, append_16mb, append_4gb, enter_16mb, enter_4gb, set_links,
}
use drastic.Zones.Outcome.{Served, physical_alloc_cases}
use drastic.Zones.Free.{FreesIn, physical_free-FreesIn, physical_free_unmanaged}
use drastic.Zones.RoundTrip.{Restored, physical_free-physical_alloc}
use drastic.Zones.Complete.{alloc_16mb_without_zone}
use drastic.Zones.Example.{
  low, mid, high, small, small_layout, small-IsWellFormed, small-NoHugeRegion,
}

-- Two regions in the first 16 MB, one too small to use, and one at 32 MB.
abbrev low_entry : MemmapEntry
low_entry = record { entry_base = 0x10000; entry_length = 0x3000; kind = usable }

abbrev tiny_entry : MemmapEntry
tiny_entry = record { entry_base = 0x20000; entry_length = 0x1000; kind = usable }

abbrev reserved_entry : MemmapEntry
reserved_entry = record { entry_base = 0x9f000; entry_length = 0x61000; kind = reserved }

abbrev mid_entry : MemmapEntry
mid_entry = record { entry_base = 0x100000; entry_length = 0x2000; kind = usable }

abbrev high_entry : MemmapEntry
high_entry = record { entry_base = 0x2000000; entry_length = 0x3000; kind = usable }

abbrev memory_map : List MemmapEntry
memory_map = low_entry ∷ tiny_entry ∷ reserved_entry ∷ mid_entry ∷ high_entry ∷ []

alloc_16mb_without_zone_example :
    (paging : Paging) × (setup_zones (high_entry ∷ []) ≡ ok paging)
    × (physical_alloc page_16mb paging ≡ stop bad_pointer)
alloc_16mb_without_zone_example = alloc_16mb_without_zone (high_entry ∷ []) (omega arith) refl

small-setup : setup_zones memory_map ≡ ok small
unfolding setup_zones add_entries add_entry add_usable make_allocator calculate_required_size init
    push_pages mark_used set_used append append_16mb append_4gb enter_16mb enter_4gb set_links
    pa_is_sentinel load store
small-setup = refl

-- The zone of 16 MB is used when nothing else is left.
abbrev after_two : Paging
after_two = record small {
  nodes =
      record { pa = low; links = record { next = node 1; next_16mb = node 1; next_4gb = node 1 } }
      ∷ record {
        pa = mid;
        links = record { next = node 2; next_16mb = sentinel; next_4gb = node 2 };
      }
      ∷ record {
        pa = record high { stack_top = negsuc 0; pages_bitmap = 7 ∷ [] };
        links = record { next = sentinel; next_16mb = sentinel; next_4gb = sentinel };
      }
      ∷ [];
}

abbrev after_one : Paging
after_one = record small {
  nodes =
      record { pa = low; links = record { next = node 1; next_16mb = node 1; next_4gb = node 1 } }
      ∷ record {
        pa = mid;
        links = record { next = node 2; next_16mb = sentinel; next_4gb = node 2 };
      }
      ∷ record {
        pa = record high { stack_top = pos 0; pages_bitmap = 5 ∷ [] };
        links = record { next = sentinel; next_16mb = sentinel; next_4gb = sentinel };
      }
      ∷ [];
}

one_normal : physical_alloc normal small ≡ ok (some 0x2002000, after_one)
unfolding physical_alloc alloc_along alloc_at pa_is_sentinel load alloc set_used store
one_normal = refl

two_normal :
    (physical_alloc normal small >>= λ (a, p). physical_alloc normal p)
    ≡ ok (some 0x2001000, after_two)
unfolding physical_alloc alloc_along alloc_at pa_is_sentinel load alloc set_used store
two_normal = refl

physical_alloc_cases_example :
    (physical_alloc page_16mb small ≡ ok (none, small)) ⊎ Served small small_layout page_16mb
physical_alloc_cases_example = physical_alloc_cases small small_layout page_16mb small-IsWellFormed

-- Page 1 of the last region is free already.
physical_free-FreesIn_example : FreesIn small small_layout 2 1 0x2001000 true
physical_free-FreesIn_example =
    physical_free-FreesIn small small_layout small-IsWellFormed 2 1 0x2001000 (omega arith)
      (omega arith) (omega arith)

unmanaged : (j : ℕ) → holds (node_at small.nodes j).pa 0x9000 ≡ false
unmanaged zero = refl
unmanaged (suc zero) = refl
unmanaged (suc (suc zero)) = refl
unmanaged (suc (suc (suc j))) = refl

physical_free_unmanaged_example :
    physical_free 0x9000 small ≡ stop (kpanic invalid_physical_page_free)
physical_free_unmanaged_example =
    physical_free_unmanaged small small_layout small-IsWellFormed 0x9000 unmanaged

physical_free-physical_alloc_example : Restored small small_layout 0x2002000 after_one
physical_free-physical_alloc_example =
    physical_free-physical_alloc small after_one small_layout normal 0x2002000 small-IsWellFormed
      small-NoHugeRegion one_normal
